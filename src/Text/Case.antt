-- ===== src/Text/Case.antt =====
-- strings.ToLower and strings.EqualFold.
use quantum_control.Prelude.{
  ℕ, ◌+◌, ◌≡◌, refl, Bool, true, ◌&&◌, ◌||◌, [], ◌∷◌, eqb, leb, if◌then◌else◌, arith, map, ap₂, sym,
  ◌∙◌, All,
}
use quantum_control.Text.Defs.{Text, ◌==◌, eq_refl, eq_comm, eq_iff}

unfoldable pub lower_byte : ℕ → ℕ
lower_byte b = if leb 65 b && leb b 90 then b + 32 else b

-- Two characters outside ASCII have lower case forms in ASCII: U+212A (the Kelvin sign) has k, and
-- U+0130 (I with a dot) has i. Other bytes of multi-byte characters are kept: no caller looks at
-- them but by comparing the result with ASCII texts.
unfoldable pub to_lower : Text → Text
unfolding lower_byte
to_lower [] = []
to_lower (a ∷ []) = lower_byte a ∷ []
to_lower (a ∷ b ∷ []) =
    if eqb a 0xC4 && eqb b 0xB0 then b'i' ∷ [] else lower_byte a ∷ lower_byte b ∷ []
to_lower (a ∷ b ∷ c ∷ r) =
    let dotted = to_lower (c ∷ r) in
    let kelvin = to_lower r in
    let rest = to_lower (b ∷ c ∷ r) in
    if eqb a 0xC4 && eqb b 0xB0
    then b'i' ∷ dotted
    else if eqb a 0xE2 && eqb b 0x84 && eqb c 0xAA
    then b'k' ∷ kelvin
    else lower_byte a ∷ rest

-- strings.EqualFold as digests are compared: one side is a text of hexadecimal digits, none of which
-- has a case variant outside ASCII, so that folding ASCII letters decides the comparison.
unfoldable pub equal_fold : Text → Text → Bool
unfolding lower_byte
equal_fold a b = map lower_byte a == map lower_byte b

-- The folded form of a text for a comparison with ASCII: outside ASCII, U+017F (the long s) folds
-- with s, and U+212A with k.
unfoldable pub fold_ascii : Text → Text
unfolding lower_byte
fold_ascii [] = []
fold_ascii (a ∷ []) = lower_byte a ∷ []
fold_ascii (a ∷ b ∷ []) =
    if eqb a 0xC5 && eqb b 0xBF then b's' ∷ [] else lower_byte a ∷ lower_byte b ∷ []
fold_ascii (a ∷ b ∷ c ∷ r) =
    let long = fold_ascii (c ∷ r) in
    let kelvin = fold_ascii r in
    let rest = fold_ascii (b ∷ c ∷ r) in
    if eqb a 0xC5 && eqb b 0xBF
    then b's' ∷ long
    else if eqb a 0xE2 && eqb b 0x84 && eqb c 0xAA
    then b'k' ∷ kelvin
    else lower_byte a ∷ rest

-- strings.EqualFold with an ASCII text in small letters.
unfoldable pub equal_fold_ascii : Text → Text → Bool
equal_fold_ascii s small = fold_ascii s == small

-- ASCII bytes that are no capital letters.
unfoldable pub is_low : ℕ → Bool
is_low b = leb b 64 || (leb 91 b && leb b 126)

abbrev pub IsLow : Text → Type 0
IsLow = All (λ b. is_low b ≡ true)

pub to_lower_low : (s : Text) → IsLow s → to_lower s ≡ s
unfolding to_lower is_low
to_lower_low [] g = refl
to_lower_low (a ∷ []) g = ground arith
to_lower_low (a ∷ b ∷ []) g = ground arith
to_lower_low (a ∷ b ∷ c ∷ r) g = ground (arith, to_lower_low (b ∷ c ∷ r) g.1)

pub equal_fold_refl : (s : Text) → equal_fold s s ≡ true
unfolding equal_fold
equal_fold_refl s = eq_refl _

pub equal_fold_comm : (a b : Text) → equal_fold a b ≡ equal_fold b a
unfolding equal_fold
equal_fold_comm a b = eq_comm _ _

map_low : (s : Text) → IsLow s → map lower_byte s ≡ s
unfolding is_low lower_byte
map_low [] g = refl
map_low (a ∷ r) g = ap₂ ◌∷◌ (ground arith) (map_low r g.1)

-- On two texts without capitals folding changes nothing.
pub equal_fold_low : (a b : Text) → IsLow a → IsLow b → equal_fold a b ≡ true → a ≡ b
unfolding equal_fold
equal_fold_low a b p q h = sym (map_low a p) ∙ (eq_iff _ _).0 h ∙ map_low b q

pub equal_fold_trans :
    (a b c : Text) → equal_fold a b ≡ true → equal_fold b c ≡ true → equal_fold a c ≡ true
unfolding equal_fold
equal_fold_trans a b c p q = (eq_iff _ _).1 ((eq_iff _ _).0 p ∙ (eq_iff _ _).0 q)
