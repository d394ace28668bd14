-- ===== src/Protocol.antt =====
-- internal/protocol/types.go: the values that the two processes exchange.
use quantum_control.Prelude.{
  ◌≡◌, refl, Bool, Option, none, some, List, [], ◌∷◌, arith, if◌then◌else◌,
}
use quantum_control.Text.{Text, text, ◌==◌, eq_iff}
use quantum_control.Clock.{Time}

-- A Go map from strings to strings, in the order of one iteration over it.
abbrev pub StringMap : Type 0
StringMap = List (Text × Text)

-- m[k], with the second result as the option.
unfoldable pub lookup {ℓ} : {V : Type ℓ} → Text → List (Text × V) → Option V
lookup name [] = none
lookup name ((first, value) ∷ others) =
    let found = lookup name others in if first == name then some value else found

-- m[k] = v; a new key comes last in the iteration.
unfoldable pub insert {ℓ} : {V : Type ℓ} → Text → V → List (Text × V) → List (Text × V)
insert name value [] = (name, value) ∷ []
insert name value ((first, old) ∷ others) =
    let written = (first, old) ∷ insert name value others in
    if first == name then (name, value) ∷ others else written

-- m[k] without the second result: the empty text for a missing key.
abbrev pub value_or_empty : Option Text → Text
value_or_empty none = []
value_or_empty (some v) = v

abbrev pub Risk : Type 0
Risk = Text

abbrev pub risk_read_only : Risk
risk_read_only = text "read-only"

abbrev pub risk_low : Risk
risk_low = text "low"

abbrev pub risk_high : Risk
risk_high = text "high"

abbrev pub risk_destructive : Risk
risk_destructive = text "destructive"

-- `allowed_values` is `none` for a nil slice.
pub record ParameterDefinition : Type 0 where
  pub name : Text
  pub description : Text
  pub required : Bool
  pub pattern : Text
  pub allowed_values : Option (List Text)

pub record OperationDefinition : Type 0 where
  pub action : Text
  pub summary : Text
  pub risk : Risk
  pub requires_confirmation : Bool
  pub implemented : Bool
  pub parameters : List ParameterDefinition

pub record OperationRequest : Type 0 where
  pub request_id : Text
  pub action : Text
  pub actor : Text
  pub parameters : StringMap
  pub confirmation : Text

pub record Problem : Type 0 where
  pub code : Text
  pub message : Text

-- The values of a `map[string]any` that the program stores; `state` is an observed service state.
pub data Value : Type 0 where
  string : Text → Value
  boolean : Bool → Value
  state : StringMap → Value

abbrev pub Fields : Type 0
Fields = List (Text × Value)

pub record OperationResponse : Type 0 where
  pub request_id : Text
  pub action : Text
  pub status : Text
  pub risk : Risk
  pub started_at : Time
  pub finished_at : Time
  pub audit_id : Text
  pub result : Option Fields
  pub error : Option Problem

pub record OperationPlan : Type 0 where
  pub request : OperationRequest
  pub definition : OperationDefinition
  pub valid : Bool
  pub requires_confirmation : Bool
  pub warnings : List Text
  pub error : Option Problem

module _ {ℓ} {V : Type ℓ} where
  -- A write is seen under its own key and under no other.
  pub lookup-insert :
      (name other : Text) (value : V) (entries : List (Text × V))
      → lookup other (insert name value entries)
        ≡ (if name == other then some value else lookup other entries)
  unfolding lookup insert
  lookup-insert name other value [] = refl
  lookup-insert name other value ((first, old) ∷ others) = ground (
    arith,
    lookup-insert name other value others,
    eq_iff first other,
    eq_iff first name,
    eq_iff name other,
  )
