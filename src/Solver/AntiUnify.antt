-- ===== src/Solver/AntiUnify.antt =====
-- crates/sage-ir/src/check/solve/anti_unify.rs: the merge of hints by anti-unification. `alpha_equiv` tells
-- which generic parameters are `AlphaEquiv`, and as which parameter; parameters are numbers, in place of
-- the interned `AlphaEquivParam::new`. Recursions that follow types take fuel.
pub mod Occurs
pub mod Layers
pub mod Params
pub mod Domains
pub mod Merge
pub mod Numbered
pub mod Examples
use sage_dev.Prelude.{
  ℕ, zero, suc, ◌+◌, Bool, true, false, not, ◌&&◌, Option, none, some, List, [], ◌∷◌, ◌++◌, ◌==◌,
  ltb, length, contains, lookup, set_insert, get_elem?, Outcome, ok, out_of_fuel, panicked, ◌>>=◌,
  expect,
}
use sage_dev.Ty.{Ty, Cell, ty}
use sage_dev.Stash.{Stash, Hashing, alloc}
use sage_dev.Version.Domain.{InferDomain, any, integer, float, same_domain}
use sage_dev.EGraph.{ty_at}
use sage_dev.Skeleton.{Decomposed, decompose, recompose}
use sage_dev.Skeleton.Equality.{same_skeleton}
use sage_dev.Solver.Subst.{SubstEntry}

-- Least domain that admits both domains.
unfoldable pub common_domain : InferDomain → InferDomain → InferDomain
common_domain integer integer = integer
common_domain float float = float
common_domain any _ = any
common_domain integer any = any
common_domain integer float = any
common_domain float any = any
common_domain float integer = any

-- `is_some_and` of the universe of an input.
abbrev pub above_key : ℕ → List (ℕ × ℕ) → ℕ → Bool
above_key key_universe universes param = elim (lookup param universes) [
  | none ↦ false
  | some universe ↦ ltb key_universe universe
]

-- `Iterator::any`.
unfoldable pub any_child : (ℕ → Outcome Bool) → List ℕ → Outcome Bool
any_child sub [] = ok false
any_child sub (c ∷ cs) = sub c >>= λ found. elim found [ true ↦ ok true | false ↦ any_child sub cs ]

unfoldable pub collect_each : (List ℕ → ℕ → Outcome (List ℕ)) → List ℕ → List ℕ → Outcome (List ℕ)
collect_each sub output [] = ok output
collect_each sub output (c ∷ cs) = sub output c >>= λ output'. collect_each sub output' cs

-- The parameter of the type itself, if it is a candidate.
abbrev pub collect_own : List ℕ → List ℕ → Option ℕ → List ℕ
collect_own candidates output none = output
collect_own candidates output (some param) = elim (contains candidates param) [
  | true ↦ set_insert param output
  | false ↦ output
]

module _ (alpha_equiv : ℕ → Option ℕ) where
  -- The parameter of a type that is an `AlphaEquiv` parameter.
  abbrev pub as_param : Ty → Option ℕ
  as_param (Ty.param p) = alpha_equiv p
  as_param _ = none

  unfoldable pub contains_inaccessible_input : ℕ → Stash Cell → ℕ → List (ℕ × ℕ) → ℕ → Outcome Bool
  contains_inaccessible_input zero stash key_universe universes p = out_of_fuel
  contains_inaccessible_input (suc f) stash key_universe universes p = ty_at stash p >>= λ t.
      elim (as_param t) [
        | some param ↦ ok (above_key key_universe universes param)
        | none ↦ decompose stash p >>= λ d.
            any_child (contains_inaccessible_input f stash key_universe universes) d.children
      ]

  unfoldable pub collect_params : ℕ → Stash Cell → List ℕ → List ℕ → ℕ → Outcome (List ℕ)
  collect_params zero stash candidates output p = out_of_fuel
  collect_params (suc f) stash candidates output p = do
    t ← ty_at stash p
    d ← decompose stash p
    collect_each (collect_params f stash candidates) (collect_own candidates output (as_param t))
        d.children

  unfoldable pub collect_used_witnesses :
      ℕ → Stash Cell → List ℕ → List SubstEntry → List ℕ → Outcome (List ℕ)
  collect_used_witnesses f stash witnesses [] output = ok output
  collect_used_witnesses f stash witnesses (e ∷ entries) output =
      collect_params f stash witnesses output e.value >>= λ output'.
      collect_used_witnesses f stash witnesses entries output'
