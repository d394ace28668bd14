-- ===== src/Checks/Control.antt =====
-- The control server at concrete inputs.
use quantum_control.Prelude.{
  ℕ, ◌+◌, ◌≡◌, refl, ◌⊎◌, true, Option, none, some, [], ◌∷◌, ◌++◌, if◌then◌else◌,
}
use quantum_control.Text.{Text, text, ◌==◌}
use quantum_control.Text.Trim.{trim_space}
use quantum_control.Text.Hex
use quantum_control.Text.Sort.{contains}
use quantum_control.Text.Prefix.{strip_prefix}
use quantum_control.Clock.{minute}
use quantum_control.Prelude.Int.{ℤ, pos}
use quantum_control.Protocol.{OperationRequest, OperationResponse, lookup, insert}
use quantum_control.Security.Types.{Actor, OperationPlan, operation_plan}
use quantum_control.Security.Actor.{has_permission}
use quantum_control.Security.Auth.{Authenticator}
use quantum_control.Security.Cache.{get, put, purge_expired}
use quantum_control.Security.Plan.{build, plan_digest, draft_plan, new_id, random}
use quantum_control.Security.Audit.{AuditStore, AuditCodec, Calls, complete}
use quantum_control.Inventory.{Scanner}
use quantum_control.Control.Server.{
  BrokerApi, ApprovalApi, Server, State, Stamp, Draws, Context, Reply, decoded, new_request_id,
  decode_body, append_audit,
}
use quantum_control.Control.Auth.{
  Headers, authenticate_request, authorize, session_of, require_permission, unauthorized, forbidden,
}
use quantum_control.Control.Operations.{handle_plan}
use quantum_control.Control.Approvals.{handle_approved_execute}
use quantum_control.Control.Routes.{post_plan, get_audit_integrity, Request, serve, serve_all}
use quantum_control.Control.Guards.{IsRefusal, IsAdmitted, route_permission, serve_guarded}
use quantum_control.Control.Exposure.{is_privileged, anonymous_denied}
use quantum_control.Control.Planned.{serve_all-IsCached}
use quantum_control.Control.Cached.{IsCached}
use quantum_control.Checks.Data.{sha, service_actor, start, entropy, marshal, broker_plan}
use quantum_control.Checks.Plans.{built, plan_or}

-- The state of the broker is the number of its calls.
abbrev pub broker : BrokerApi ℕ
broker = record {
  health = λ w. (true, w);
  catalog = λ w. (some [], w + 1);
  plan = λ r w. (some broker_plan, w + 1);
  execute = λ r w. (none, w + 1);
}

abbrev done : OperationResponse
done = record {
  request_id = text "r1";
  action = text "service.restart";
  status = text "completed";
  risk = text "high";
  started_at = start;
  finished_at = start;
  audit_id = text "a1";
  result = none;
  error = none;
}

abbrev pub approval : ApprovalApi ℕ
approval = record {
  confirm = λ p t w. (none, w + 1);
  execute_approved = λ p t c w. (some done, w + 1);
}

abbrev pub scanner : Scanner ℕ
scanner = record { snapshot = λ w. (none, w); component = λ name w. (some none, w) }

abbrev planner : Actor
planner = record service_actor {
  permissions = text "operations.plan" ∷ text "operations.execute.mutate" ∷ [];
}

abbrev actors : Authenticator
actors = λ t. if t == text "key" then some planner else none

abbrev pub server : Server ℕ
server = record {
  broker = broker;
  approval = some approval;
  scanner = scanner;
  authenticator = some actors;
  ttl = pos minute;
}

abbrev pub codec : AuditCodec
codec = record { canonical = λ c. some c.id; encode = λ r. some (text "a"); decode = λ t. none }

abbrev calls : Calls
calls = record {
  make_directory = true;
  open_file = true;
  write = complete;
  sync = true;
  close = true;
}

abbrev stamp : Stamp
stamp = record { calls = calls; now = start; entropy = entropy }

abbrev pub draws : Draws
draws = record {
  request_id = random (7 ∷ []);
  built = start;
  plan_id = entropy;
  cached = start;
  first = stamp;
  second = stamp;
}

abbrev store : AuditStore
store = record { path = text "/var/a"; records = []; last_hash = []; sequence = 0 }

abbrev pub state : State ℕ
state = record { plans = []; audit = some store; file = none; world = 0 }

abbrev pub atoi : Text → Option ℤ
atoi t = none

abbrev headers : Headers
headers = record { authorization = text "Bearer key"; session = [] }

abbrev wish : OperationRequest
wish = record {
  request_id = [];
  action = text "service.restart";
  actor = [];
  parameters = [];
  confirmation = [];
}

abbrev request : Request
request = record { headers = headers; route = post_plan (decoded wish) }

abbrev outcome : Reply × State ℕ
outcome = serve sha marshal codec atoi server draws request state

serve_guarded_example :
    (IsRefusal (new_request_id draws.request_id) outcome.0 × (outcome.1 ≡ state))
    ⊎ ((context : Context) × IsAdmitted
          (some actors)
          operation_plan
          (new_request_id draws.request_id)
          headers
          context)
unfolding route_permission
serve_guarded_example =
    serve_guarded sha marshal codec atoi server draws request operation_plan state outcome.1
      outcome.0 refl refl

anonymous_denied_example :
    serve sha marshal codec atoi
      (record server { authenticator = none })
      draws
      (record { headers = headers; route = get_audit_integrity })
      state
    ≡ (
      if trim_space headers.authorization == []
          then forbidden (new_request_id draws.request_id)
          else unauthorized (new_request_id draws.request_id),
      state,
    )
unfolding is_privileged
anonymous_denied_example =
    anonymous_denied sha marshal codec atoi (record server { authenticator = none }) draws
      (record { headers = headers; route = get_audit_integrity }) state refl refl

abbrev planned : State ℕ
planned = record state { plans = (built.id, built) ∷ [] }

abbrev context : Context
context = record {
  request_id = text "r2";
  session_id = text "s1";
  actor = planner;
  credential = text "key";
}

abbrev execution : Reply × State ℕ
execution =
    handle_approved_execute sha codec server draws
      (decoded (record { plan_id = built.id; confirmation_token = text "t" })) context planned

-- The plan that the request has made is found a second later.
abbrev made : OperationPlan
made = plan_or built (
    build sha marshal server.ttl start entropy planner
      (text "session-" ++ new_request_id draws.request_id) broker_plan)

found :
    (get
      (start + 1)
      made.id
      (serve_all sha marshal codec atoi server ((draws, request) ∷ []) state).plans).0
    ≡ some made
unfolding serve_all serve require_permission authorize authenticate_request strip_prefix text ◌==◌
    trim_space has_permission contains session_of handle_plan decode_body build plan_digest
    draft_plan append_audit new_request_id get put purge_expired insert lookup new_id Hex.encode
found = refl

serve_all-IsCached_example : IsCached sha marshal (made.id, made)
serve_all-IsCached_example =
    serve_all-IsCached sha marshal codec atoi server ((draws, request) ∷ []) state (start + 1)
      made.id made refl found
