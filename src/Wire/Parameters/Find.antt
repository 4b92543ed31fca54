-- ===== src/Wire/Parameters/Find.antt =====
-- A stable sort by type does not change which parameter of a type is found first.
use quiche_moq.Common.{[], arith, if◌then◌else◌, refl, some, ℕ, ◌==◌, ◌∙◌, ◌∷◌, ◌≡◌}
use quiche_moq.Common.Sorting.{insert, sort_by_key}
use quiche_moq.Wire.Parameter.{Parameter}
use quiche_moq.Wire.Parameters.{Parameters, find}

find-insert :
    (ty : ℕ) (p : Parameter) (ps : Parameters)
    → find ty (insert (λ p. p.ty) p ps) ≡ (if p.ty == ty then some p else find ty ps)
unfolding find insert
find-insert ty p [] = refl
find-insert ty p (q ∷ qs) = ground (arith, find-insert ty p qs)

pub find-sort_by_key :
    (ty : ℕ) (ps : Parameters) → find ty (sort_by_key (λ p. p.ty) ps) ≡ find ty ps
unfolding find sort_by_key
find-sort_by_key ty [] = refl
find-sort_by_key ty (p ∷ ps) = find-insert ty p _ ∙ rw (find-sort_by_key ty ps)
