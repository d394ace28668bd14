-- ===== src/Text/Hex.antt =====
-- hex.EncodeToString and hex.DecodeString.
use quantum_control.Prelude.{
  ℕ, ◌+◌, ◌-◌, ◌*◌, ◌/◌, ◌%◌, ◌≤◌, ◌<◌, ◌≡◌, refl, true, ◌&&◌, List, [], ◌∷◌, Option, none, some,
  leb, ltb, if◌then◌else◌, arith, length, All, Option-cases, inl, inr, some_inj, subst,
}
use quantum_control.Text.Defs.{Text}
use quantum_control.Text.Case.{is_low, IsLow}
use quantum_control.Text.Trim.{IsGraphic}

digit : ℕ → ℕ
digit n = if ltb n 10 then 48 + n else 87 + n

unfoldable pub encode : List ℕ → Text
unfolding digit
encode [] = []
encode (b ∷ bs) = digit (b / 16) ∷ digit (b % 16) ∷ encode bs

value : ℕ → Option ℕ
value c =
    if leb 48 c && leb c 57
    then some (c - 48)
    else if leb 97 c && leb c 102
    then some (c - 87)
    else if leb 65 c && leb c 70
    then some (c - 55)
    else none

pair : Option ℕ → Option ℕ → Option (List ℕ) → Option (List ℕ)
pair (some h) (some l) (some bs) = some ((h * 16 + l) ∷ bs)
pair (some h) (some l) none = none
pair (some h) none r = none
pair none l r = none

-- An odd number of digits is refused too.
unfoldable pub decode : Text → Option (List ℕ)
unfolding value pair
decode [] = some []
decode (h ∷ []) = none
decode (h ∷ l ∷ r) = pair (value h) (value l) (decode r)

abbrev pub AreBytes : List ℕ → Type 0
AreBytes = All (λ b. b < 256)

value-digit : (n : ℕ) → n < 16 → value (digit n) ≡ some n
unfolding value digit
value-digit n h = ground arith

digit-lower : (n : ℕ) → n < 16 → is_low (digit n) ≡ true
unfolding digit is_low
digit-lower n h = ground arith

digit-graphic : (n : ℕ) → n < 16 → (33 ≤ digit n) × (digit n ≤ 126)
unfolding digit
digit-graphic n h = ground arith

-- Decoding inverts encoding.
pub decode-encode : (bs : List ℕ) → AreBytes bs → decode (encode bs) ≡ some bs
unfolding decode encode
decode-encode [] g = refl
decode-encode (b ∷ bs) g =
    rw
      (
        value-digit (b / 16) (omega arith),
        value-digit (b % 16) (omega arith),
        decode-encode bs g.1,
        pair,
      )
      (ground arith)

pub length-encode : (bs : List ℕ) → length (encode bs) ≡ 2 * length bs
unfolding encode
length-encode [] = refl
length-encode (b ∷ bs) = omega (arith, length-encode bs)

pub encode-IsLow : (bs : List ℕ) → AreBytes bs → IsLow (encode bs)
unfolding encode
encode-IsLow [] g = tt
encode-IsLow (b ∷ bs) g =
    (digit-lower (b / 16) (omega arith), (digit-lower (b % 16) (omega arith), encode-IsLow bs g.1))

pub encode-IsGraphic : (bs : List ℕ) → AreBytes bs → IsGraphic (encode bs)
unfolding encode
encode-IsGraphic [] g = tt
encode-IsGraphic (b ∷ bs) g = (
  digit-graphic (b / 16) (omega arith),
  (digit-graphic (b % 16) (omega arith), encode-IsGraphic bs g.1),
)

value_bound : (c n : ℕ) → value c ≡ some n → n < 16
unfolding value
value_bound c n e = ground arith

pair_inv :
    (h l : ℕ) (r : Option (List ℕ)) (bs : List ℕ)
    → pair (value h) (value l) r ≡ some bs
    → (a : ℕ) × (b : ℕ) × (cs : List ℕ) × (value h ≡ some a)
      × (value l ≡ some b)
      × (r ≡ some cs)
      × ((a * 16 + b) ∷ cs ≡ bs)
unfolding pair
pair_inv h l r bs e = elim (Option-cases (value h)) [
  | inl p ↦ absurd (ground arith)
  | inr (a, p) ↦ elim (Option-cases (value l)) [
    | inl q ↦ absurd (ground arith)
    | inr (b, q) ↦ elim (Option-cases r) [
      | inl s ↦ absurd (ground arith)
      | inr (cs, s) ↦ (a, b, cs, p, q, s, ground arith)
    ]
  ]
]

-- What is decoded is a list of bytes, one for two digits.
pub decode-AreBytes :
    (t : Text) (bs : List ℕ) → decode t ≡ some bs → (length bs * 2 ≡ length t) × AreBytes bs
unfolding decode
decode-AreBytes [] bs e = subst (λ l. (length l * 2 ≡ 0) × AreBytes l) (some_inj e) (refl, tt)
decode-AreBytes (h ∷ []) bs e = absurd (ground arith)
decode-AreBytes (h ∷ l ∷ r) bs e =
    let (a, b, cs, p, q, s, shape) = pair_inv h l (decode r) bs e in
    let (size, bytes) = decode-AreBytes r cs s in
    subst (λ k. (length k * 2 ≡ length (h ∷ l ∷ r)) × AreBytes k) shape
      (omega arith, (omega (arith, value_bound h a p, value_bound l b q), bytes))
