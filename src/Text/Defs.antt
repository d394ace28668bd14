-- ===== src/Text/Defs.antt =====
-- Texts, literals and equality.
use Prim.Native.Char.{code}
use quantum_control.Prelude.{
  ℕ, String, ◌≡◌, refl, ◌↔◌, Bool, true, false, ◌&&◌, List, [], ◌∷◌, eqb, arith,
}

abbrev pub Text : Type 0
Text = List ℕ

-- The literals of the source that are compared or stored are ASCII.
unfoldable pub text : String → Text
text String.[] = []
text (String.◌∷◌ c s) = code c ∷ text s

infix 50 ◌==◌
unfoldable pub ◌==◌ : Text → Text → Bool
[] == [] = true
[] == (y ∷ ys) = false
(x ∷ xs) == [] = false
(x ∷ xs) == (y ∷ ys) = eqb x y && (xs == ys)

eq→path : (a b : Text) → (a == b) ≡ true → a ≡ b
unfolding ◌==◌
eq→path [] [] h = refl
eq→path [] (y ∷ ys) h = ground arith
eq→path (x ∷ xs) [] h = ground arith
eq→path (x ∷ xs) (y ∷ ys) h = ground (arith, eq→path xs ys)

pub eq_refl : (a : Text) → (a == a) ≡ true
unfolding ◌==◌
eq_refl [] = refl
eq_refl (x ∷ xs) = ground (arith, eq_refl xs)

pub eq_iff : (a b : Text) → ((a == b) ≡ true) ↔ (a ≡ b)
eq_iff a b = (eq→path a b, λ e. rw e (eq_refl b))

pub eq_comm : (a b : Text) → (a == b) ≡ (b == a)
eq_comm a b = ground (arith, eq_iff a b, eq_iff b a)
