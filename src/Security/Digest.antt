-- ===== src/Security/Digest.antt =====
-- SHA-256 and the text form of its digests. The hash function itself is a parameter: of it the
-- program relies on a digest of 32 bytes.
use quantum_control.Prelude.{
  ℕ, ◌≡◌, Bool, true, ◌&&◌, Option, none, some, List, [], ◌∷◌, arith, eqb, if◌then◌else◌, length,
}
use quantum_control.Text.{Text}
use quantum_control.Text.Trim.{trim_space}
use quantum_control.Text.Case.{to_lower, to_lower_low, IsLow}
use quantum_control.Text.Trim.{trim_space_graphic}
use quantum_control.Text.Hex

-- crypto/sha256.
pub record Sha256 : Type 0 where
  pub sum : Text → List ℕ
  pub length-sum : (t : Text) → length (sum t) ≡ 32
  pub sum_bytes : (t : Text) → Hex.AreBytes (sum t)

-- hex.EncodeToString(sha256.Sum256(t))
abbrev pub hex_digest : Sha256 → Text → Text
hex_digest h t = Hex.encode (h.sum t)

-- decodeSHA256; `none` is an error.
unfoldable pub decode_sha256 : Text → Option (List ℕ)
decode_sha256 value =
    let digits = trim_space (to_lower value) in
    if eqb (length digits) 64 then Hex.decode digits else none

-- allZero
unfoldable pub all_zero : List ℕ → Bool
all_zero [] = true
all_zero (b ∷ bs) = eqb b 0 && all_zero bs

-- A digest of 32 bytes is decoded from its digits.
pub decode_sha256-encode :
    (bs : List ℕ) → Hex.AreBytes bs → length bs ≡ 32 → decode_sha256 (Hex.encode bs) ≡ some bs
unfolding decode_sha256
decode_sha256-encode bs g n =
    rw
      (
        to_lower_low (Hex.encode bs) (Hex.encode-IsLow bs g),
        trim_space_graphic (Hex.encode bs) (Hex.encode-IsGraphic bs g),
        Hex.length-encode bs,
        n,
      )
      (Hex.decode-encode bs g)

-- What is decoded is a digest of 32 bytes.
pub decode_sha256-AreBytes :
    (value : Text) (d : List ℕ) → decode_sha256 value ≡ some d → (length d ≡ 32) × Hex.AreBytes d
unfolding decode_sha256
decode_sha256-AreBytes value d e =
    let digits = trim_space (to_lower value) in
    let (size, bytes) = Hex.decode-AreBytes digits d (ground arith) in
    let whole : length digits ≡ 64 = ground arith in (omega arith, bytes)

pub decode-hex_digest : (h : Sha256) (t : Text) → decode_sha256 (hex_digest h t) ≡ some (h.sum t)
decode-hex_digest h t = decode_sha256-encode (h.sum t) (h.sum_bytes t) (h.length-sum t)

pub length-hex_digest : (h : Sha256) (t : Text) → length (hex_digest h t) ≡ 64
length-hex_digest h t = omega (arith, Hex.length-encode (h.sum t), h.length-sum t)

pub hex_digest-IsLow : (h : Sha256) (t : Text) → IsLow (hex_digest h t)
hex_digest-IsLow h t = Hex.encode-IsLow (h.sum t) (h.sum_bytes t)
