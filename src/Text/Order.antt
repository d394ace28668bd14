-- ===== src/Text/Order.antt =====
-- The order of Go strings, which is that of their bytes.
use quantum_control.Prelude.{◌≡◌, refl, Bool, true, false, ◌||◌, ◌&&◌, [], ◌∷◌, eqb, ltb, arith}
use quantum_control.Text.Defs.{Text}

unfoldable pub text_lt : Text → Text → Bool
text_lt [] [] = false
text_lt [] (y ∷ ys) = true
text_lt (x ∷ xs) [] = false
text_lt (x ∷ xs) (y ∷ ys) = ltb x y || (eqb x y && text_lt xs ys)

pub text_lt_irrefl : (a : Text) → text_lt a a ≡ false
unfolding text_lt
text_lt_irrefl [] = refl
text_lt_irrefl (x ∷ xs) = ground (arith, text_lt_irrefl xs)

pub text_lt_trans : (a b c : Text) → text_lt a b ≡ true → text_lt b c ≡ true → text_lt a c ≡ true
unfolding text_lt
text_lt_trans [] [] c p q = ground arith
text_lt_trans [] (y ∷ ys) [] p q = ground arith
text_lt_trans [] (y ∷ ys) (z ∷ zs) p q = refl
text_lt_trans (x ∷ xs) [] c p q = ground arith
text_lt_trans (x ∷ xs) (y ∷ ys) [] p q = ground arith
text_lt_trans (x ∷ xs) (y ∷ ys) (z ∷ zs) p q = ground (arith, text_lt_trans xs ys zs)

-- Two texts neither of which is below the other are equal.
pub text_lt_total : (a b : Text) → text_lt a b ≡ false → text_lt b a ≡ false → a ≡ b
unfolding text_lt
text_lt_total [] [] p q = refl
text_lt_total [] (y ∷ ys) p q = ground arith
text_lt_total (x ∷ xs) [] p q = ground arith
text_lt_total (x ∷ xs) (y ∷ ys) p q = ground (arith, text_lt_total xs ys)
