-- ===== src/Text/Trim.antt =====
-- strings.TrimSpace over UTF-8 bytes: the bytes of a Unicode white space character are matched at
-- the front, and in reverse at the back.
use mathlib.Core.List.{reverse-reverse, reverse-append, reverse-cons}
use quantum_control.Prelude.{
  ℕ, zero, suc, ◌≤◌, ◌≡◌, refl, sym, Bool, ◌&&◌, ◌||◌, [], ◌∷◌, ◌++◌, reverse, eqb, leb, ap, subst,
  ◌∙◌, if◌then◌else◌, arith, All, All-reverse, ◌≢◌, length,
}
use quantum_control.Text.Defs.{Text}

-- ASCII: \t \n \v \f \r and the space.
space_1 : ℕ → Bool
space_1 a = (leb 9 a && leb a 13) || eqb a 32

-- U+0085 and U+00A0.
space_2 : ℕ → ℕ → Bool
space_2 a b = eqb a 0xC2 && (eqb b 0x85 || eqb b 0xA0)

-- U+1680, U+2000 to U+200A, U+2028, U+2029, U+202F, U+205F and U+3000.
space_3 : ℕ → ℕ → ℕ → Bool
space_3 a b c =
    (eqb a 0xE1 && eqb b 0x9A && eqb c 0x80)
    || (eqb a 0xE2
        && eqb b 0x80
        && ((leb 0x80 c && leb c 0x8A) || eqb c 0xA8 || eqb c 0xA9 || eqb c 0xAF))
    || (eqb a 0xE2 && eqb b 0x81 && eqb c 0x9F)
    || (eqb a 0xE3 && eqb b 0x80 && eqb c 0x80)

-- The number of bytes of the white space character at the front, or 0.
leading : Text → ℕ
leading [] = 0
leading (a ∷ []) = if space_1 a then 1 else 0
leading (a ∷ b ∷ []) = if space_1 a then 1 else if space_2 a b then 2 else 0
leading (a ∷ b ∷ c ∷ r) =
    if space_1 a then 1 else if space_2 a b then 2 else if space_3 a b c then 3 else 0

-- The same for a text that is read from its last byte.
trailing : Text → ℕ
trailing [] = 0
trailing (a ∷ []) = if space_1 a then 1 else 0
trailing (b ∷ a ∷ []) = if space_1 b then 1 else if space_2 a b then 2 else 0
trailing (c ∷ b ∷ a ∷ r) =
    if space_1 c then 1 else if space_2 b c then 2 else if space_3 a b c then 3 else 0

-- Drops the bytes left of the current white space character, then white space.
strip : (Text → ℕ) → ℕ → Text → Text
strip width n [] = []
strip width (suc n) (x ∷ xs) = strip width n xs
strip width zero (x ∷ xs) = elim (width (x ∷ xs)) [ zero ↦ x ∷ xs | suc n ↦ strip width n xs ]

unfoldable pub trim_space : Text → Text
unfolding leading trailing strip space_1 space_2 space_3
trim_space s = reverse (strip trailing 0 (reverse (strip leading 0 s)))

-- Bytes that are neither white space nor part of a multi-byte character.
abbrev pub IsGraphic : Text → Type 0
IsGraphic = All (λ b. (33 ≤ b) × (b ≤ 126))

leading_graphic : (s : Text) → IsGraphic s → leading s ≡ 0
unfolding leading space_1 space_2 space_3
leading_graphic [] g = refl
leading_graphic (a ∷ []) g = ground arith
leading_graphic (a ∷ b ∷ []) g = ground arith
leading_graphic (a ∷ b ∷ c ∷ r) g = ground arith

trailing_graphic : (s : Text) → IsGraphic s → trailing s ≡ 0
unfolding trailing space_1 space_2 space_3
trailing_graphic [] g = refl
trailing_graphic (a ∷ []) g = ground arith
trailing_graphic (a ∷ b ∷ []) g = ground arith
trailing_graphic (a ∷ b ∷ c ∷ r) g = ground arith

strip_none : (width : Text → ℕ) (s : Text) → width s ≡ 0 → strip width 0 s ≡ s
unfolding strip
strip_none width [] e = refl
strip_none width (x ∷ xs) e = rw (e, strip)

-- Trimming leaves a text of graphic ASCII characters alone.
pub trim_space_graphic : (s : Text) → IsGraphic s → trim_space s ≡ s
unfolding trim_space
trim_space_graphic s g =
    rw
      (
        strip_none leading s (leading_graphic s g),
        strip_none trailing (reverse s) (trailing_graphic (reverse s) (All-reverse _ s g)),
      )
      (reverse-reverse s)

strip-width : (width : Text → ℕ) (n : ℕ) (s : Text) → width [] ≡ 0 → width (strip width n s) ≡ 0
unfolding strip
strip-width width n [] e = e
strip-width width (suc n) (x ∷ xs) e = strip-width width n xs e
strip-width width zero (x ∷ xs) e = go (width (x ∷ xs)) refl (λ n. strip-width width n xs e)
  where
    go :
        (k : ℕ)
        → width (x ∷ xs) ≡ k
        → ((n : ℕ) → width (strip width n xs) ≡ 0)
        → width (elim k [ zero ↦ x ∷ xs | suc n ↦ strip width n xs ]) ≡ 0
    go zero f ih = f
    go (suc n) f ih = ih n

-- What is left is a suffix.
strip_suffix : (width : Text → ℕ) (n : ℕ) (s : Text) → (pre : Text) × (s ≡ pre ++ strip width n s)
unfolding strip
strip_suffix width n [] = ([], refl)
strip_suffix width (suc n) (x ∷ xs) =
    let (pre, e) = strip_suffix width n xs in (x ∷ pre, ap (◌∷◌ x) e)
strip_suffix width zero (x ∷ xs) = go (width (x ∷ xs)) (λ n. strip_suffix width n xs)
  where
    go :
        (k : ℕ)
        → ((n : ℕ) → (pre : Text) × (xs ≡ pre ++ strip width n xs))
        → (pre : Text) × (x ∷ xs ≡ pre ++ elim k [ zero ↦ x ∷ xs | suc n ↦ strip width n xs ])
    go zero ih = ([], refl)
    go (suc n) ih = let (pre, e) = ih n in (x ∷ pre, ap (◌∷◌ x) e)

leading_prefix : (s t : Text) → leading (s ++ t) ≡ 0 → leading s ≡ 0
unfolding leading
leading_prefix [] t e = refl
leading_prefix (a ∷ []) [] e = e
leading_prefix (a ∷ []) (b ∷ []) e = ground arith
leading_prefix (a ∷ []) (b ∷ c ∷ t) e = ground arith
leading_prefix (a ∷ b ∷ []) [] e = e
leading_prefix (a ∷ b ∷ []) (c ∷ t) e = ground arith
leading_prefix (a ∷ b ∷ c ∷ s) t e = e

-- Trimming a second time changes nothing.
pub trim_space_idempotent : (s : Text) → trim_space (trim_space s) ≡ trim_space s
unfolding trim_space leading trailing
trim_space_idempotent s = rw (
  strip_none leading (reverse u) front,
  reverse-reverse u,
  strip_none trailing u (strip-width trailing 0 (reverse t) refl),
)
  where
    t : Text
    t = strip leading 0 s

    u : Text
    u = strip trailing 0 (reverse t)

    front : leading (reverse u) ≡ 0
    front =
        let (pre, e) = strip_suffix trailing 0 (reverse t) in
        leading_prefix (reverse u) (reverse pre) (
          subst (λ v. leading v ≡ 0) (sym (reverse-reverse t) ∙ ap reverse e ∙ reverse-append pre u)
            (strip-width leading 0 s refl))

-- The white space of the source's tests goes from both ends.
trim_space_runs :
    trim_space (32 ∷ 9 ∷ 0xE2 ∷ 0x80 ∷ 0x83 ∷ 97 ∷ 32 ∷ 98 ∷ 0xC2 ∷ 0xA0 ∷ 10 ∷ [])
    ≡ 97 ∷ 32 ∷ 98 ∷ []
unfolding trim_space
trim_space_runs = refl

-- A text that begins with a graphic character is not blank.
trailing_bound : (b : ℕ) (s : Text) → (33 ≤ b) × (b ≤ 126) → trailing (s ++ b ∷ []) ≤ length s
unfolding trailing space_1 space_2 space_3
trailing_bound b [] g = ground arith
trailing_bound b (x ∷ []) g = ground arith
trailing_bound b (x ∷ y ∷ []) g = ground arith
trailing_bound b (x ∷ y ∷ z ∷ s) g = ground arith

strip_kept :
    (b n : ℕ) (s : Text) → (33 ≤ b) × (b ≤ 126) → n ≤ length s → strip trailing n (s ++ b ∷ []) ≢ []
unfolding strip
strip_kept b (suc n) [] g le = absurd (omega arith)
strip_kept b (suc n) (x ∷ xs) g le = strip_kept b n xs g (omega arith)
strip_kept b zero [] g le = λ e. absurd (ground (arith, trailing_bound b [] g))
strip_kept b zero (x ∷ xs) g le =
    go (trailing (x ∷ xs ++ b ∷ [])) (trailing_bound b (x ∷ xs) g) (λ n. strip_kept b n xs g)
  where
    go :
        (k : ℕ)
        → k ≤ length (x ∷ xs)
        → ((n : ℕ) → n ≤ length xs → strip trailing n (xs ++ b ∷ []) ≢ [])
        → elim k [ zero ↦ x ∷ (xs ++ b ∷ []) | suc n ↦ strip trailing n (xs ++ b ∷ []) ] ≢ []
    go zero p ih = λ e. absurd (ground arith)
    go (suc n) p ih = ih n (omega arith)

leading_begins : (b : ℕ) (s : Text) → (33 ≤ b) × (b ≤ 126) → leading (b ∷ s) ≡ 0
unfolding leading space_1 space_2 space_3
leading_begins b [] g = ground arith
leading_begins b (x ∷ []) g = ground arith
leading_begins b (x ∷ y ∷ s) g = ground arith

pub trim_space_begins : (b : ℕ) (s : Text) → (33 ≤ b) × (b ≤ 126) → trim_space (b ∷ s) ≢ []
unfolding trim_space
trim_space_begins b s g e = strip_kept b 0 (reverse s) g (omega arith) (
    ap (strip trailing 0)
      (sym (ap reverse (strip_none leading (b ∷ s) (leading_begins b s g)) ∙ reverse-cons b s))
    ∙ sym (reverse-reverse _)
    ∙ ap reverse e)
