-- ===== src/Security/Plan/Order.antt =====
-- A plan does not depend on the order in which Go iterates over the parameters.
use quantum_control.Prelude.{
  ◌≡◌, refl, sym, ap₂, subst, ◌∙◌, inl, inr, false, List, [], ◌∷◌, map, arith, Bool-cases,
}
use quantum_control.Text.{Text, ◌==◌, eq_iff}
use mathlib.Core.List.{Perm, Permᴰ, Nodup, Mem}
use mathlib.Core.List.Perm
use mathlib.Core.List.{Nodup-cons, mem-cons_self, map-map}
use mathlib.Core.Logic.{∥∥₁_elim}
use quantum_control.Clock.{Time, Duration}
use quantum_control.Protocol
use quantum_control.Protocol.{StringMap}
use quantum_control.Security.Types.{Actor, Parameter}
use quantum_control.Security.Digest.{Sha256}
use quantum_control.Security.Plan.{
  Entropy, PlanEncoder, draft_plan, build, sort_parameters, to_parameters,
}
use quantum_control.Text.Sort.{sort_by, insert_by}
use quantum_control.Text.Order.{text_lt_irrefl, text_lt_trans, text_lt_total}

module _ {ℓ} {A : Type ℓ} (key : A → Text) where
  insert_by_comm :
      (x y : A) (zs : List A)
      → (key x == key y) ≡ false
      → insert_by key x (insert_by key y zs) ≡ insert_by key y (insert_by key x zs)
  unfolding insert_by
  insert_by_comm x y [] d = ground (
    arith,
    eq_iff (key x) (key y),
    text_lt_total (key x) (key y),
    text_lt_trans (key x) (key y) (key x),
    text_lt_irrefl (key x),
  )
  insert_by_comm x y (z ∷ zs) d = ground (
    arith,
    insert_by_comm x y zs d,
    eq_iff (key x) (key y),
    text_lt_total (key x) (key y),
    text_lt_total (key x) (key z),
    text_lt_total (key y) (key z),
    text_lt_trans (key x) (key y) (key x),
    text_lt_irrefl (key x),
    text_lt_trans (key z) (key x) (key y),
    text_lt_trans (key z) (key y) (key x),
    text_lt_trans (key x) (key z) (key y),
    text_lt_trans (key y) (key z) (key x),
    text_lt_trans (key x) (key y) (key z),
    text_lt_trans (key y) (key x) (key z),
  )

  apart : (a b : A) (l : List A) → Nodup (map key (a ∷ b ∷ l)) → (key a == key b) ≡ false
  apart a b l n = elim (Bool-cases (key a == key b)) [
    | inl q ↦ absurd (
        (Nodup-cons.0 n).0
          (subst (λ k. Mem k (key b ∷ map key l)) (sym ((eq_iff _ _).0 q)) mem-cons_self))
    | inr q ↦ q
  ]

  sort_by-permᴰ :
      (xs ys : List A) → Permᴰ xs ys → Nodup (map key xs) → sort_by key xs ≡ sort_by key ys
  unfolding sort_by
  sort_by-permᴰ _ _ Permᴰ.nil n = refl
  sort_by-permᴰ _ _ (Permᴰ.cons {a = a} {l₁ = l} {l₂ = m} e p) n =
      ap₂ (insert_by key) e (sort_by-permᴰ l m p (Nodup-cons.0 n).1)
  sort_by-permᴰ _ _ (Permᴰ.swap {a = a} {b = b} {l = l} e f) n =
      insert_by_comm a b (sort_by key l) (apart a b l n) ∙ λ i.
      insert_by key (f i) (insert_by key (e i) (sort_by key l))
  sort_by-permᴰ _ _ (Permᴰ.trans {l₁ = l} {l₂ = m} {l₃ = r} p q) n =
      sort_by-permᴰ l m p n ∙ sort_by-permᴰ m r q (Perm.nodup (Perm.map key ∣ p ∣₁) n)

parameters_set : IsSet (List Parameter)
parameters_set = hlevel

-- Sorted parameters do not depend on the order of the map's entries.
sort_parameters-perm :
    (m n : StringMap)
    → Perm m n
    → Nodup (map (λ entry. entry.0) m)
    → sort_parameters (to_parameters m) ≡ sort_parameters (to_parameters n)
sort_parameters-perm m n p d =
    ∥∥₁_elim (Perm.map (λ (entry : Text × Text). record { name = entry.0; value = entry.1 }) p)
      (parameters_set _ _) λ q. sort_by-permᴰ (λ (x : Parameter). x.name) _ _ q (rw map-map d)

module _ (h : Sha256) (marshal : PlanEncoder) where
  -- The plan that is built, digest included, is the same for every order in which the runtime
  -- iterates over the request's parameter map.
  pub build_any_order :
      (ttl : Duration) (now : Time) (entropy : Entropy) (actor : Actor) (session : Text)
      (plan : Protocol.OperationPlan) (parameters : StringMap)
      → Perm plan.request.parameters parameters
      → Nodup (map (λ entry. entry.0) plan.request.parameters)
      → build h marshal ttl now entropy actor session plan
        ≡ build h marshal ttl now entropy actor session
            (record plan { request = record plan.request { parameters = parameters } })
  unfolding build draft_plan
  build_any_order ttl now entropy actor session plan parameters p d =
      rw (sort_parameters-perm plan.request.parameters parameters p d)
