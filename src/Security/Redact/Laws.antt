-- ===== src/Security/Redact/Laws.antt =====
-- Bounds on what the audit holds.
use quantum_control.Prelude.{
  ℕ, ◌≤◌, ◌≡◌, refl, inl, inr, true, false, [], ◌∷◌, ◌++◌, arith, ltb, if◌then◌else◌, Bool-cases,
  length, take, length-append, length-take,
}
use quantum_control.Text.{Text, text}
use quantum_control.Text.Trim.{trim_space}
use quantum_control.Protocol.{StringMap}
use quantum_control.Security.Redact.{
  secret_key, redact_value, redact_parameters, has_control, sanitize_label,
}

-- What the audit may hold of a parameter.
abbrev pub IsRedacted : Text × Text → Text × Text → Type 0
IsRedacted given kept =
    (kept.0 ≡ given.0)
    × (secret_key given.0 ≡ true → kept.1 ≡ text "[REDACTED]")
    × (secret_key given.0 ≡ false → length given.1 ≤ 512 → kept.1 ≡ given.1)
    × (length kept.1 ≤ 523)

abbrev pub AreRedacted : StringMap → StringMap → Type 0
AreRedacted [] [] = Unit {0}
AreRedacted [] (e ∷ n) = ⊥
AreRedacted (e ∷ m) [] = ⊥
AreRedacted (e ∷ m) (f ∷ n) = IsRedacted e f × AreRedacted m n

length-redacted : length (text "[REDACTED]") ≤ 523
unfolding text
length-redacted = omega arith

length-truncated : (v : Text) → length (take 512 v ++ text "[TRUNCATED]") ≤ 523
unfolding text
length-truncated v =
    omega (arith, length-append (take 512 v) (text "[TRUNCATED]"), length-take 512 v)

length-redact_value : (key value : Text) → length (redact_value key value) ≤ 523
unfolding redact_value
length-redact_value key value = elim (Bool-cases (secret_key key)) [
  | inl s ↦ rw s length-redacted
  | inr s ↦ elim (Bool-cases (ltb 512 (length value))) [
    | inl l ↦ rw (s, l) (length-truncated value)
    | inr l ↦ rw (s, l) (ground arith)
  ]
]

redact_value-secret :
    (key value : Text) → secret_key key ≡ true → redact_value key value ≡ text "[REDACTED]"
unfolding redact_value
redact_value-secret key value s = rw s refl

redact_value-short :
    (key value : Text)
    → secret_key key ≡ false
    → length value ≤ 512
    → redact_value key value ≡ value
unfolding redact_value
redact_value-short key value s n = ground arith

-- Every parameter is kept under its name and in its place. The value is replaced where the name is
-- that of a secret, kept where it is not and the value has at most 512 bytes, and has at most 523
-- bytes in every case.
pub redact_parameters-AreRedacted : (m : StringMap) → AreRedacted m (redact_parameters m)
unfolding redact_parameters
redact_parameters-AreRedacted [] = tt
redact_parameters-AreRedacted ((key, value) ∷ rest) = (
  (
    refl,
    redact_value-secret key value,
    redact_value-short key value,
    length-redact_value key value,
  ),
  redact_parameters-AreRedacted rest,
)

bounded :
    (t : Text) (n : ℕ)
    → length t ≤ n
    → (length (if has_control t then [] else t) ≤ n)
      × (has_control (if has_control t then [] else t) ≡ false)
unfolding has_control
bounded t n e = elim (Bool-cases (has_control t)) [
  | inl c ↦ rw c (omega arith, refl)
  | inr c ↦ rw c (e, c)
]

-- A label in the audit is within its limit and has no control character, whatever was given.
pub sanitize_label_bounds :
    (value : Text) (limit : ℕ)
    → (length (sanitize_label value limit) ≤ limit)
      × (has_control (sanitize_label value limit) ≡ false)
unfolding sanitize_label
sanitize_label_bounds value limit = elim (Bool-cases (ltb limit (length (trim_space value)))) [
  | inl l ↦ rw l (
      bounded (take limit (trim_space value)) limit
        (omega (arith, length-take limit (trim_space value))))
  | inr l ↦ rw l (bounded (trim_space value) limit (ground arith))
]
