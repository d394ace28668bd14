-- ===== src/Text/Sort.antt =====
-- sort.Strings and sort.Slice by a text key, and the search of a list of texts. sort.Slice does
-- not fix the order of items with equal keys: the model keeps them in place.
use quantum_control.Prelude.{
  ◌≡◌, refl, ap, subst, ◌∙◌, inl, inr, Bool, true, false, ◌||◌, List, [], ◌∷◌, ◌++◌, arith,
  if◌then◌else◌, Bool-cases,
}
use quantum_control.Text.{Text, ◌==◌, eq_iff}
use quantum_control.Text.Order.{text_lt, text_lt_irrefl, text_lt_trans, text_lt_total}

-- Whether a text stands in a list.
unfoldable pub contains : Text → List Text → Bool
contains x [] = false
contains x (y ∷ ys) = (y == x) || contains x ys

pub contains-append :
    (x : Text) (ys zs : List Text) → contains x (ys ++ zs) ≡ (contains x ys || contains x zs)
unfolding contains
contains-append x [] zs = refl
contains-append x (y ∷ ys) zs = ground (arith, contains-append x ys zs)

module _ {ℓ} {A : Type ℓ} (key : A → Text) where
  unfoldable pub insert_by : A → List A → List A
  insert_by x [] = x ∷ []
  insert_by x (y ∷ ys) = if text_lt (key y) (key x) then y ∷ insert_by x ys else x ∷ y ∷ ys

  unfoldable pub sort_by : List A → List A
  unfolding insert_by
  sort_by [] = []
  sort_by (x ∷ xs) = insert_by x (sort_by xs)

unfoldable pub sort : List Text → List Text
unfolding sort_by
sort = sort_by (λ t. t)

-- Keeps an item unless it equals the one before it: `uniqueStrings` and `uniquePermissions`.
unfoldable pub unique_after : Text → List Text → List Text
unique_after prev [] = []
unique_after prev (x ∷ xs) = let rest = unique_after x xs in if x == prev then rest else x ∷ rest

unfoldable pub unique : List Text → List Text
unfolding unique_after
unique [] = []
unique (x ∷ xs) = x ∷ unique_after x xs

contains-insert_by :
    (x y : Text) (ys : List Text)
    → contains x (insert_by (λ t. t) y ys) ≡ ((y == x) || contains x ys)
unfolding contains insert_by
contains-insert_by x y [] = refl
contains-insert_by x y (z ∷ zs) = ground (arith, contains-insert_by x y zs)

-- Sorting keeps the items.
pub contains-sort : (x : Text) (ys : List Text) → contains x (sort ys) ≡ contains x ys
unfolding sort contains
contains-sort x [] = refl
contains-sort x (y ∷ ys) =
    contains-insert_by x y (sort ys) ∙ ap (λ b. (y == x) || b) (contains-sort x ys)

contains-unique_after :
    (x y : Text) (ys : List Text)
    → ((y == x) || contains x (unique_after y ys)) ≡ ((y == x) || contains x ys)
unfolding contains unique_after
contains-unique_after x y [] = refl
contains-unique_after x y (z ∷ zs) =
    ground (arith, contains-unique_after x z zs, eq_iff z y, eq_iff z x, eq_iff y x)

-- Dropping repetitions keeps the items.
pub contains-unique : (x : Text) (ys : List Text) → contains x (unique ys) ≡ contains x ys
unfolding unique contains
contains-unique x [] = refl
contains-unique x (y ∷ ys) = contains-unique_after x y ys

-- Whether a test holds of an item.
unfoldable pub any_of : (Text → Bool) → List Text → Bool
any_of f [] = false
any_of f (x ∷ xs) = f x || any_of f xs

any_of-insert_by :
    (f : Text → Bool) (y : Text) (ys : List Text)
    → any_of f (insert_by (λ t. t) y ys) ≡ (f y || any_of f ys)
unfolding any_of insert_by
any_of-insert_by f y [] = refl
any_of-insert_by f y (z ∷ zs) = ground (arith, any_of-insert_by f y zs)

any_of-sort : (f : Text → Bool) (ys : List Text) → any_of f (sort ys) ≡ any_of f ys
unfolding sort any_of
any_of-sort f [] = refl
any_of-sort f (y ∷ ys) = any_of-insert_by f y (sort ys) ∙ ap (λ b. f y || b) (any_of-sort f ys)

any_of-unique_after :
    (f : Text → Bool) (y : Text) (ys : List Text)
    → (f y || any_of f (unique_after y ys)) ≡ (f y || any_of f ys)
unfolding any_of unique_after
any_of-unique_after f y [] = refl
any_of-unique_after f y (z ∷ zs) = ground (arith, any_of-unique_after f z zs, eq_iff z y)

any_of-unique : (f : Text → Bool) (ys : List Text) → any_of f (unique ys) ≡ any_of f ys
unfolding unique any_of
any_of-unique f [] = refl
any_of-unique f (y ∷ ys) = any_of-unique_after f y ys

-- Sorting and dropping repetitions keeps what holds of some item.
pub any_of-unique-sort :
    (f : Text → Bool) (ys : List Text) → any_of f (unique (sort ys)) ≡ any_of f ys
any_of-unique-sort f ys = any_of-unique f (sort ys) ∙ any_of-sort f ys

-- Each item stands strictly below the next, from a lower bound on.
abbrev pub Above : Text → List Text → Type 0
Above b [] = Unit {0}
Above b (x ∷ xs) = (text_lt b x ≡ true) × Above x xs

abbrev pub IsStrict : List Text → Type 0
IsStrict [] = Unit {0}
IsStrict (x ∷ xs) = Above x xs

-- No item stands below the one before it.
abbrev From : Text → List Text → Type 0
From b [] = Unit {0}
From b (x ∷ xs) = (text_lt x b ≡ false) × From x xs

abbrev IsSorted : List Text → Type 0
IsSorted [] = Unit {0}
IsSorted (x ∷ xs) = From x xs

text_lt_asym : (a b : Text) → text_lt a b ≡ true → text_lt b a ≡ false
text_lt_asym a b p = ground (arith, text_lt_irrefl a, text_lt_trans a b a)

From-insert_by :
    (b x : Text) (ys : List Text)
    → text_lt x b ≡ false
    → From b ys
    → From b (insert_by (λ t. t) x ys)
unfolding insert_by
From-insert_by b x [] p s = (p, tt)
From-insert_by b x (y ∷ ys) p s = elim (Bool-cases (text_lt y x)) [
  | inl q ↦ rw q (s.0, From-insert_by y x ys (text_lt_asym y x q) s.1)
  | inr q ↦ rw q (p, (q, s.1))
]

insert_by-IsSorted : (x : Text) (ys : List Text) → IsSorted ys → IsSorted (insert_by (λ t. t) x ys)
unfolding insert_by
insert_by-IsSorted x [] s = tt
insert_by-IsSorted x (y ∷ ys) s = elim (Bool-cases (text_lt y x)) [
  | inl q ↦ rw q (From-insert_by y x ys (text_lt_asym y x q) s)
  | inr q ↦ rw q (q, s)
]

sort-IsSorted : (ys : List Text) → IsSorted (sort ys)
unfolding sort
sort-IsSorted [] = tt
sort-IsSorted (y ∷ ys) = insert_by-IsSorted y (sort ys) (sort-IsSorted ys)

unique_after-Above : (x : Text) (ys : List Text) → From x ys → Above x (unique_after x ys)
unfolding unique_after
unique_after-Above x [] s = tt
unique_after-Above x (y ∷ ys) s = elim (Bool-cases (y == x)) [
  | inl q ↦
      rw q
        (subst (λ z. Above z (unique_after y ys)) ((eq_iff y x).0 q) (unique_after-Above y ys s.1))
  | inr q ↦ rw q (ground (arith, eq_iff y x, text_lt_total y x s.0), unique_after-Above y ys s.1)
]

unique-IsStrict : (ys : List Text) → IsSorted ys → IsStrict (unique ys)
unfolding unique
unique-IsStrict [] s = tt
unique-IsStrict (x ∷ xs) s = unique_after-Above x xs s

-- Sorting and dropping repetitions gives a strictly ascending list.
pub unique-sort-IsStrict : (ys : List Text) → IsStrict (unique (sort ys))
unique-sort-IsStrict ys = unique-IsStrict (sort ys) (sort-IsSorted ys)

sort-Above : (x : Text) (ys : List Text) → Above x ys → insert_by (λ t. t) x ys ≡ x ∷ ys
unfolding insert_by
sort-Above x [] s = refl
sort-Above x (y ∷ ys) s = rw (text_lt_asym x y s.0)

Above-IsStrict : (x : Text) (ys : List Text) → Above x ys → IsStrict ys
Above-IsStrict x [] s = tt
Above-IsStrict x (y ∷ ys) s = s.1

-- A strictly ascending list is left alone by both.
pub sort_strict : (ys : List Text) → IsStrict ys → sort ys ≡ ys
unfolding sort
sort_strict [] s = refl
sort_strict (y ∷ ys) s = rw (sort_strict ys (Above-IsStrict y ys s)) (sort-Above y ys s)

unique-Above : (x : Text) (ys : List Text) → Above x ys → unique_after x ys ≡ ys
unfolding unique_after
unique-Above x [] s = refl
unique-Above x (y ∷ ys) s = ground (arith, unique-Above y ys s.1, eq_iff y x, text_lt_irrefl x)

pub unique_strict : (ys : List Text) → IsStrict ys → unique ys ≡ ys
unfolding unique
unique_strict [] s = refl
unique_strict (y ∷ ys) s = ap (◌∷◌ y) (unique-Above y ys s)
