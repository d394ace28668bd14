-- ===== src/Security/Audit/Query.antt =====
-- AuditStore.Query against a specification: the newest records that pass the filters, oldest first.
use quantum_control.Prelude.{
  ℕ, zero, suc, ◌≤◌, ◌≡◌, refl, sym, ap, ◌∙◌, Bool, true, false, ◌&&◌, ◌||◌, List, [], ◌∷◌, ◌++◌,
  reverse, arith, if◌then◌else◌, take,
}
use quantum_control.Text.{Text, ◌==◌}
use quantum_control.Text.Trim.{trim_space}
use mathlib.Core.List.{reverse-cons, append-nil}
use quantum_control.Prelude.Int.{ℤ, pos, negsuc}
use quantum_control.Security.Types.{AuditRecord}
use quantum_control.Security.Audit.{AuditStore, select_newest, effective_limit, query}

-- Whether a record passes both filters; an empty filter lets everything pass.
abbrev pub passes : Text → Text → AuditRecord → Bool
passes actor action r = (actor == [] || r.actor.id == actor) && (action == [] || r.action == action)

unfoldable pub matching : Text → Text → List AuditRecord → List AuditRecord
matching actor action [] = []
matching actor action (r ∷ rs) =
    let rest = matching actor action rs in if passes actor action r then r ∷ rest else rest

select_newest-matching :
    (actor action : Text) (n : ℕ) (rs : List AuditRecord)
    → select_newest actor action n rs ≡ take n (matching actor action rs)
unfolding select_newest matching
select_newest-matching actor action zero rs = refl
select_newest-matching actor action (suc n) [] = refl
select_newest-matching actor action (suc n) (r ∷ rs) = ground (
  arith,
  select_newest-matching actor action (suc n) rs,
  select_newest-matching actor action n rs,
)

matching-append :
    (actor action : Text) (rs : List AuditRecord) (qs : List AuditRecord)
    → matching actor action (rs ++ qs) ≡ matching actor action rs ++ matching actor action qs
unfolding matching
matching-append actor action [] qs = refl
matching-append actor action (r ∷ rs) qs = ground (arith, matching-append actor action rs qs)

matching-reverse :
    (actor action : Text) (rs : List AuditRecord)
    → matching actor action (reverse rs) ≡ reverse (matching actor action rs)
unfolding matching
matching-reverse actor action [] = refl
matching-reverse actor action (r ∷ rs) =
    ap (matching actor action) (reverse-cons r rs)
    ∙ matching-append actor action (reverse rs) (r ∷ [])
    ∙ ap (λ l. l ++ matching actor action (r ∷ [])) (matching-reverse actor action rs)
    ∙ ends (passes actor action r)
  where
    ends :
        (b : Bool)
        → reverse (matching actor action rs) ++ (if b then r ∷ [] else [])
          ≡ reverse (if b then r ∷ matching actor action rs else matching actor action rs)
    ends true = sym (reverse-cons r (matching actor action rs))
    ends false = append-nil _

effective_limit_bounds : (z : ℤ) → (1 ≤ effective_limit z) × (effective_limit z ≤ 500)
unfolding effective_limit
effective_limit_bounds (pos n) = ground arith
effective_limit_bounds (negsuc n) = omega arith

-- The last n items of a list, in their order.
abbrev pub last_items {ℓ} : {A : Type ℓ} → ℕ → List A → List A
last_items n xs = reverse (take n (reverse xs))

-- A query answers with the last records, in the order of the log, of those that pass the trimmed
-- filters: as many as the limit says, or 100 where it says none from 1 to 500.
pub query_last :
    (limit : ℤ) (actor action : Text) (store : AuditStore)
    → (query limit actor action store
        ≡ last_items
            (effective_limit limit)
            (matching (trim_space actor) (trim_space action) store.records))
      × ((1 ≤ effective_limit limit) × (effective_limit limit ≤ 500))
unfolding query
query_last limit actor action store = (
  ap reverse (
      select_newest-matching (trim_space actor) (trim_space action) (effective_limit limit)
        (reverse store.records)
      ∙ ap (take (effective_limit limit))
          (matching-reverse (trim_space actor) (trim_space action) store.records)),
  effective_limit_bounds limit,
)
