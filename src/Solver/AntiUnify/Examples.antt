-- ===== src/Solver/AntiUnify/Examples.antt =====
-- A pair of parameters, for crates/sage-ir/src/check/solve/anti_unify.rs: parameters 7 and 8 at 0 and 1, the
-- slice of both at 2, the tuple type at 3.
use sage_dev.Prelude.{
  ℕ, zero, suc, ◌<◌, ◌≡◌, ◌↔◌, refl, subst, true, some, arith, List, [], ◌∷◌, ok, contains,
}
use sage_dev.Ty.{Ty, Cell, ty, ptr}
use sage_dev.Stash.{Stash, read_ptr, read_slice}
use sage_dev.EGraph.{ty_at}
use sage_dev.Skeleton.{Decomposed, decompose_ty, slice_at, pointers}
use sage_dev.Skeleton
use sage_dev.Solver.Subst.{SubstEntry}
use sage_dev.Solver.AntiUnify.{common_domain, collect_used_witnesses}
use sage_dev.Version.Domain.{any, integer, float}
use sage_dev.Solver.AntiUnify.Domains.{Finer, common_domain_iff}
use sage_dev.Solver.AntiUnify.Occurs.{Gains, IsTy, Parts, Layered, Used}
use sage_dev.Solver.AntiUnify.Params.{collect_used_witnesses-Gains}

abbrev nested : Stash Cell
nested = record {
  entries =
      record { type_id = 0; count = 1; inline_hash = 10; contents = ty (Ty.param 7) ∷ [] }
      ∷ record { type_id = 0; count = 1; inline_hash = 11; contents = ty (Ty.param 8) ∷ [] }
      ∷ record { type_id = 1; count = 2; inline_hash = 12; contents = ptr 0 ∷ ptr 1 ∷ [] }
      ∷ record { type_id = 0; count = 1; inline_hash = 13; contents = ty (Ty.tuple 2) ∷ [] }
      ∷ [];
  intern_map = [];
}

abbrev entries : List SubstEntry
entries = record { key = 3; value = 3 } ∷ []

-- The two parameters below the tuple.
pair_parts : (c : ℕ) → contains (0 ∷ 1 ∷ []) c ≡ true → (c < 3) × IsTy nested c
unfolding ty_at read_ptr read_slice
pair_parts zero inside = (omega arith, (Ty.param 7, refl))
pair_parts (suc zero) inside = (omega arith, (Ty.param 8, refl))
pair_parts (suc (suc c)) inside = absurd (ground arith)

taken_apart : (p : ℕ) (t : Ty) → ty_at nested p ≡ ok t → Parts nested p t
unfolding ty_at read_ptr read_slice decompose_ty slice_at pointers
taken_apart zero t read =
    let same : Ty.param 7 ≡ t = ground arith in
    subst (λ x. Parts nested 0 x) same
      (
        record { skeleton = Skeleton.param 7; children = [] },
        refl,
        λ c inside. absurd (ground arith),
      )
taken_apart (suc zero) t read =
    let same : Ty.param 8 ≡ t = ground arith in
    subst (λ x. Parts nested 1 x) same
      (
        record { skeleton = Skeleton.param 8; children = [] },
        refl,
        λ c inside. absurd (ground arith),
      )
taken_apart (suc (suc zero)) t read = absurd (ground arith)
taken_apart (suc (suc (suc zero))) t read =
    let same : Ty.tuple 2 ≡ t = ground arith in
    subst (λ x. Parts nested 3 x) same
      (record { skeleton = Skeleton.tuple 2; children = 0 ∷ 1 ∷ [] }, refl, pair_parts)
taken_apart (suc (suc (suc (suc p)))) t read = absurd (ground arith)

nested-Layered : Layered nested
nested-Layered = record { parts = taken_apart }

tuple_read : ty_at nested 3 ≡ ok (Ty.tuple 2)
unfolding ty_at read_ptr read_slice
tuple_read = refl

collect_used_witnesses-Gains_example :
    (new : List ℕ) × (collect_used_witnesses some 4 nested (8 ∷ 9 ∷ []) entries [] ≡ ok new)
    × Gains [] (Used some nested (8 ∷ 9 ∷ []) entries) new
collect_used_witnesses-Gains_example =
    collect_used_witnesses-Gains some nested nested-Layered (8 ∷ 9 ∷ []) 4 entries []
      (omega arith, (Ty.tuple 2, tuple_read), tt)

common_domain_iff_example :
    Finer (common_domain integer float) any ↔ (Finer integer any × Finer float any)
common_domain_iff_example = common_domain_iff integer float any
