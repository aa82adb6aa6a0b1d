-- ===== src/EGraph/Facts.antt =====
-- What crates/sage-ir/src/check/infer/egraph.rs records of a class besides its parent: domains,
-- universe ceilings, bounds, and the universes of placeholders.
use sage_dev.Prelude.{
  ℕ, Bool, true, false, Option, none, some, ◌==◌, leb, lookup, insert, set, Outcome, ok, ◌>>=◌,
  ◌>>◌, assert, expect,
}
use sage_dev.Ty.{Cell}
use sage_dev.Stash.{Stash}
use sage_dev.Version.Domain.{InferDomain, intersect, same_domain}
use sage_dev.Version.Tree
use sage_dev.EGraph.{
  EGraph, Bound, unbounded, same_bound, ty_at, as_infer_var, state_at, nearest, find,
  current_universe, mark_semantic_change,
}

-- The domain of an unresolved class, `none` for a class with a rigid type.
unfoldable pub effective_domain : EGraph → Stash Cell → ℕ → ℕ → Outcome (Option InferDomain)
effective_domain g stash version p = do
  root ← find g version p
  root_ty ← ty_at stash root
  elim (as_infer_var root_ty) [
    | none ↦ ok none
    | some index ↦ do
      info ← Tree.get_variable g.versions version index
      chain ← Tree.ancestors g.versions version
      narrowed ← nearest (λ s. s.domains) g.states chain root
      ok (some (elim narrowed [ none ↦ info.initial_domain | some d ↦ d ]))
  ]

abbrev pub narrows_to : Option InferDomain → InferDomain → Bool
narrows_to none d = false
narrows_to (some c) d = same_domain c d

unfoldable pub set_domain_in : EGraph → Stash Cell → ℕ → ℕ → InferDomain → Outcome (EGraph × Bool)
set_domain_in g stash version p domain = do
  Tree.assert_mutable g.versions version
  root ← find g version p
  root_ty ← ty_at stash root
  index ← expect (as_infer_var root_ty)
  known ← effective_domain g stash version root
  previous ← expect known
  assert (narrows_to (intersect previous domain) domain)
  elim (same_domain previous domain) [
    | true ↦ ok (g, false)
    | false ↦ do
      state ← state_at g version
      let g1 = record g {
        states = set g.states version (record state { domains = insert root domain state.domains });
      }
      g2 ← mark_semantic_change g1 version (some index)
      ok (g2, true)
  ]

unfoldable pub lower_universe : EGraph → ℕ → ℕ → ℕ → Outcome (EGraph × Bool)
lower_universe g version index ceiling = do
  Tree.assert_mutable g.versions version
  _ ← Tree.get_variable g.versions version index
  old ← current_universe g version index
  elim (leb old ceiling) [
    | true ↦ ok (g, false)
    | false ↦ do
      state ← state_at g version
      let g1 = record g {
        states =
            set g.states version
              (record state { universe_ceilings = insert index ceiling state.universe_ceilings });
      }
      g2 ← mark_semantic_change g1 version (some index)
      ok (g2, true)
  ]

-- Registering a placeholder twice in different universes panics.
unfoldable pub register_placeholder : EGraph → ℕ → ℕ → Outcome EGraph
register_placeholder g param universe =
    let g' : EGraph = record g {
      placeholder_universes = insert param universe g.placeholder_universes;
    } in
    elim (lookup param g.placeholder_universes) [
      | none ↦ ok g'
      | some previous ↦ assert (previous == universe) >> ok g'
    ]

unfoldable pub placeholder_universe : EGraph → ℕ → ℕ
placeholder_universe g param = elim (lookup param g.placeholder_universes) [
  | none ↦ 0
  | some universe ↦ universe
]

unfoldable pub get_bound : EGraph → ℕ → ℕ → Outcome Bound
get_bound g version p = do
  Tree.assert_live g.versions version
  chain ← Tree.ancestors g.versions version
  bound ← nearest (λ s. s.bounds) g.states chain p
  ok (elim bound [ none ↦ unbounded | some b ↦ b ])

unfoldable pub set_bound_in : EGraph → Stash Cell → ℕ → ℕ → Bound → Outcome (EGraph × Bool)
set_bound_in g stash version p bound = do
  Tree.assert_mutable g.versions version
  var_ty ← ty_at stash p
  index ← expect (as_infer_var var_ty)
  _ ← Tree.get_variable g.versions version index
  old ← get_bound g version p
  elim (same_bound old bound) [
    | true ↦ ok (g, false)
    | false ↦ do
      state ← state_at g version
      let g1 = record g {
        states = set g.states version (record state { bounds = insert p bound state.bounds });
      }
      g2 ← mark_semantic_change g1 version (some index)
      ok (g2, true)
  ]
