-- ===== src/Solver/AntiUnify/Merge.antt =====
-- `AntiUnifier::merge_types` of crates/sage-ir/src/check/solve/anti_unify.rs. `new_param` stands for the
-- interned `AlphaEquivParam::new` of a type parameter, `generic` for the `GenericParam::AlphaEquiv` of a
-- parameter; both are numbers. `next_param += 1` panics on overflow.

use sage_dev.Prelude.{
  ℕ, zero, suc, ◌+◌, ◌^◌, Bool, true, false, ◌&&◌, Option, none, some, List, [], ◌∷◌, ◌++◌, ◌==◌,
  ltb, length, lookup, get_elem?, Outcome, ok, out_of_fuel, panicked, ◌>>=◌, ◌>>◌, assert, expect,
}
use sage_dev.Ty.{Ty, Cell, ty}
use sage_dev.Stash.{Stash, Hashing, alloc}
use sage_dev.Version.Domain.{InferDomain, any, same_domain}
use sage_dev.EGraph.{ty_at}
use sage_dev.Skeleton.{Decomposed, decompose, recompose}
use sage_dev.Skeleton.Equality.{same_skeleton}
use sage_dev.Solver.Subst.{GenericParamKind, type}
use sage_dev.Solver.AntiUnify.{common_domain, as_param}

pub record ResponseVarInfo : Type 0 where
  pub param : ℕ
  pub kind : GenericParamKind
  pub relative_universe : ℕ
  pub domain : InferDomain

pub record AntiUnifier : Type 0 where
  pub stash : Stash Cell
  pub next_param : ℕ
  pub key_universe : ℕ
  pub witnesses : List ResponseVarInfo

abbrev pub all_equal : ℕ → List ℕ → Bool
all_equal v [] = true
all_equal v (w ∷ ws) = w == v && all_equal v ws

abbrev pub all_alike : Decomposed → List Decomposed → Bool
all_alike first [] = true
all_alike first (d ∷ ds) = same_skeleton d.skeleton first.skeleton && all_alike first ds

abbrev pub all_arity : ℕ → List Decomposed → Bool
all_arity n [] = true
all_arity n (d ∷ ds) = length d.children == n && all_arity n ds

unfoldable pub decompose_all : Stash Cell → List ℕ → Outcome (List Decomposed)
decompose_all stash [] = ok []
decompose_all stash (v ∷ vs) = do d ← decompose stash v; ds ← decompose_all stash vs; ok (d ∷ ds)

-- `item.children[index]` of every item.
unfoldable pub column : ℕ → List Decomposed → Outcome (List ℕ)
column index [] = ok []
column index (d ∷ ds) = do
  child ← expect (get_elem? d.children index)
  rest ← column index ds
  ok (child ∷ rest)

-- The loop over the children, `count` of them from `index` on.
unfoldable pub merge_children :
    (AntiUnifier → List ℕ → Outcome (AntiUnifier × ℕ × Bool))
    → AntiUnifier
    → List Decomposed
    → ℕ
    → ℕ
    → Outcome (AntiUnifier × List ℕ)
merge_children sub u items index zero = ok (u, [])
merge_children sub u items index (suc count) = do
  values ← column index items
  merged ← sub u values
  rest ← merge_children sub merged.0 items (suc index) count
  ok (rest.0, merged.1 ∷ rest.1)

module _ (hs : Hashing Cell) (alpha_equiv : ℕ → Option ℕ) (new_param generic : ℕ → ℕ)
    (parameter_domains : List (ℕ × InferDomain)) where
  unfoldable pub explicit_parameter_domain : Stash Cell → ℕ → Outcome InferDomain
  explicit_parameter_domain stash p = ty_at stash p >>= λ t. ok (elim (as_param alpha_equiv t) [
    | none ↦ any
    | some param ↦ elim (lookup param parameter_domains) [ none ↦ any | some d ↦ d ]
  ])

  -- `reduce(common_domain)`, from the domain of the first value on.
  unfoldable pub reduce_domains : Stash Cell → InferDomain → List ℕ → Outcome InferDomain
  reduce_domains stash d [] = ok d
  reduce_domains stash d (v ∷ vs) =
      explicit_parameter_domain stash v >>= λ e. reduce_domains stash (common_domain d e) vs

  -- A new witness for values that differ.
  unfoldable pub fresh_witness : AntiUnifier → ℕ → List ℕ → Outcome (AntiUnifier × ℕ × Bool)
  fresh_witness u v vs = do
    first ← explicit_parameter_domain u.stash v
    domain ← reduce_domains u.stash first vs
    assert (ltb (u.next_param + 1) (2 ^ 32))
    let param = new_param u.next_param
    built ← alloc hs u.stash 0 (ty (Ty.param (generic param)))
    let info : ResponseVarInfo = record {
      param = param;
      kind = type;
      relative_universe = u.key_universe;
      domain = domain;
    }
    ok (
      record u {
        stash = built.0;
        next_param = u.next_param + 1;
        witnesses = u.witnesses ++ info ∷ [];
      },
      built.1,
      same_domain domain any,
    )

  unfoldable pub merge_types : ℕ → AntiUnifier → List ℕ → Outcome (AntiUnifier × ℕ × Bool)
  merge_types zero u values = out_of_fuel
  merge_types (suc f) u [] = panicked
  merge_types (suc f) u (v ∷ vs) = elim (all_equal v vs) [
    | true ↦ ok (u, v, false)
    | false ↦ decompose_all u.stash (v ∷ vs) >>= λ items. expect (get_elem? items 0) >>= λ first.
        elim (all_alike first items
          && (ltb 0 (length first.children) && all_arity (length first.children) items)) [
            | true ↦ do
              merged ← merge_children (merge_types f) u items 0 (length first.children)
              built ← recompose hs merged.0.stash first.skeleton merged.1
              ok (record merged.0 { stash = built.0 }, built.1, false)
            | false ↦ fresh_witness u v vs
          ]
  ]
