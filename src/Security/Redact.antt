-- ===== src/Security/Redact.antt =====
-- internal/security/audit.go: what may be written to the audit.
pub mod Laws
use quantum_control.Prelude.{
  ℕ, zero, suc, ◌+◌, ◌-◌, ◌*◌, ◌≤◌, ◌<◌, min, ◌≡◌, refl, sym, ap, ap₂, subst, ◌∙◌, ◌≢◌, ◌↔◌, ◌⊎◌,
  inl, inr, Bool, true, false, ◌&&◌, ◌||◌, not, Option, none, some, List, [], ◌∷◌, ◌++◌, map,
  reverse, arith, ltb, leb, eqb, eqb_iff, eqb_refl, if◌then◌else◌, Bool-cases, Option-cases,
  Bool-ext, Result, ok, err, ◌>>=◌, ◌>>◌, require, refuse, or_fail, Result-cases, ok-injective,
  some_inj, length, take, All, All-append, All-map, length-append, length-take,
}
use quantum_control.Text.{Text, text, ◌==◌, eq_iff, eq_refl, eq_comm}
use quantum_control.Text.Trim.{trim_space}
use quantum_control.Text.Hex
use quantum_control.Text.Case.{to_lower}
use quantum_control.Protocol.{StringMap}

-- strings.HasPrefix and strings.Contains
is_prefix : Text → Text → Bool
is_prefix [] t = true
is_prefix (x ∷ xs) [] = false
is_prefix (x ∷ xs) (y ∷ ys) = eqb x y && is_prefix xs ys

pub contains_text : Text → Text → Bool
unfolding is_prefix
contains_text t [] = is_prefix t []
contains_text t (y ∷ ys) = is_prefix t (y ∷ ys) || contains_text t ys

-- strings.ReplaceAll of one byte by another
replace_byte : ℕ → ℕ → Text → Text
replace_byte a b = map (λ c. if eqb c a then b else c)

contains_any : List Text → Text → Bool
unfolding contains_text
contains_any [] t = false
contains_any (m ∷ ms) t = contains_text m t || contains_any ms t

abbrev secret_markers : List Text
secret_markers =
    text "password"
    ∷ text "passwd"
    ∷ text "passphrase"
    ∷ text "token"
    ∷ text "secret"
    ∷ text "credential"
    ∷ text "api_key"
    ∷ text "apikey"
    ∷ text "private_key"
    ∷ []

-- secretKey
unfoldable pub secret_key : Text → Bool
unfolding contains_any replace_byte
secret_key key =
    contains_any secret_markers
      (to_lower (replace_byte b'.' b'_' (replace_byte b'-' b'_' (trim_space key))))

-- The loop body of RedactParameters.
unfoldable pub redact_value : Text → Text → Text
redact_value key value =
    if secret_key key
    then text "[REDACTED]"
    else if ltb 512 (length value)
    then take 512 value ++ text "[TRUNCATED]"
    else value

-- RedactParameters. The keys of a Go map are distinct, so that each is written once.
unfoldable pub redact_parameters : StringMap → StringMap
redact_parameters [] = []
redact_parameters ((key, value) ∷ rest) = (key, redact_value key value) ∷ redact_parameters rest

-- A control character: r < 0x20 || r == 0x7f, which only bytes below 0x80 denote.
abbrev is_control : ℕ → Bool
is_control r = ltb r 0x20 || eqb r 0x7f

unfoldable pub has_control : Text → Bool
has_control [] = false
has_control (b ∷ r) = is_control b || has_control r

-- sanitizeLabel
unfoldable pub sanitize_label : Text → ℕ → Text
sanitize_label value limit =
    let trimmed = trim_space value in
    let short = if ltb limit (length trimmed) then take limit trimmed else trimmed in
    if has_control short then [] else short

-- sanitizeDigest
unfoldable pub sanitize_digest : Text → Text
sanitize_digest value =
    let digits = to_lower (trim_space value) in
    if eqb (length digits) 64
    then elim (Hex.decode digits) [ none ↦ [] | some bytes ↦ digits ]
    else []
