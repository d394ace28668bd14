-- ===== src/Checks/Data.antt =====
-- A concrete digest, concrete actors, and a plan with its parts.
use quantum_control.Prelude.{ℕ, ◌+◌, ◌*◌, ◌%◌, refl, true, none, some, List, [], ◌∷◌, ◌++◌, arith}
use quantum_control.Text.{Text, text}
use mathlib.Core.List.{foldl}
use quantum_control.Clock.{Time, minute}
use quantum_control.Protocol
use quantum_control.Security.Types.{Actor, actor_human, actor_tci, actor_service, Parameter}
use quantum_control.Security.Digest.{Sha256}
use quantum_control.Security.Plan.{PlanEncoder, Entropy, random}

-- A stand-in for SHA-256: the sum of the bytes, and 31 bytes that are fixed.
abbrev pub checksum : Text → List ℕ
checksum t =
    (foldl ◌+◌ 0 t % 256)
    ∷ 1
    ∷ 2
    ∷ 3
    ∷ 4
    ∷ 5
    ∷ 6
    ∷ 7
    ∷ 8
    ∷ 9
    ∷ 10
    ∷ 11
    ∷ 12
    ∷ 13
    ∷ 14
    ∷ 15
    ∷ 16
    ∷ 17
    ∷ 18
    ∷ 19
    ∷ 20
    ∷ 21
    ∷ 22
    ∷ 23
    ∷ 24
    ∷ 25
    ∷ 26
    ∷ 27
    ∷ 28
    ∷ 29
    ∷ 30
    ∷ 31
    ∷ []

abbrev pub sha : Sha256
sha = record { sum = checksum; length-sum = λ t. refl; sum_bytes = λ t. omega arith }

abbrev pub proposer : Actor
proposer = record {
  id = text "tci:planner";
  kind = actor_tci;
  display_name = text " Planner ";
  roles = text "tci-proposer" ∷ text "reader" ∷ text "reader" ∷ [];
  permissions = text "operations.confirm" ∷ [];
}

abbrev pub service_actor : Actor
service_actor = record {
  id = text "service:deploy";
  kind = actor_service;
  display_name = text "Deploy";
  roles = text "mutator" ∷ [];
  permissions = text "operations.execute.mutate" ∷ [];
}

abbrev pub approver : Actor
approver = record {
  id = text "human:ada";
  kind = actor_human;
  display_name = text "Ada";
  roles = text "approver" ∷ [];
  permissions = text "operations.confirm" ∷ [];
}

-- The instant at which the runs begin.
abbrev pub start : Time
start = 1000 * minute

abbrev pub entropy : Entropy
entropy = random (1 ∷ 2 ∷ [])

abbrev names_of : List Parameter → Text
names_of [] = []
names_of (p ∷ ps) = p.name ++ (p.value ++ names_of ps)

-- The encoding of a plan: its ID, its subject, its action and its parameters.
abbrev pub marshal : PlanEncoder
marshal c = some (c.id ++ (c.actor_id ++ (c.action ++ names_of c.parameters)))

abbrev pub broker_plan : Protocol.OperationPlan
broker_plan = record {
  request = record {
    request_id = text "r1";
    action = text " service.restart ";
    actor = text "service:deploy";
    parameters = (text "unit", text "a.service") ∷ (text "mode", text "fast") ∷ [];
    confirmation = [];
  };
  definition = record {
    action = text "service.restart";
    summary = [];
    risk = text "high";
    requires_confirmation = true;
    implemented = true;
    parameters = [];
  };
  valid = true;
  requires_confirmation = true;
  warnings = [];
  error = none;
}
