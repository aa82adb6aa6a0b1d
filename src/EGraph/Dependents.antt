-- ===== src/EGraph/Dependents.antt =====
-- Dependents and congruence in crates/sage-ir/src/check/infer/egraph.rs: `add_dependent`,
-- `collect_dependents`, `recanonicalize` and the loop of `rebuild`, which takes fuel for its rounds.
pub mod Collect
use sage_dev.Prelude.{
  ℕ, zero, suc, Bool, true, false, Option, none, some, List, [], ◌∷◌, ◌++◌, ◌==◌, ◌&&◌, lookup,
  insert, set, set_insert, set_extend, is_empty, Outcome, ok, out_of_fuel, ◌>>=◌, ◌>>◌,
}
use sage_dev.Ty.{Cell}
use sage_dev.Stash.{Stash, Hashing}
use sage_dev.Version.Tree
use sage_dev.EGraph.{EGraph, VersionState, state_at, find, set_parent}
use sage_dev.Skeleton.{decompose, recompose}

-- What a state lists for a type.
abbrev pub dependents_of : VersionState → ℕ → List ℕ
dependents_of state p = elim (lookup p state.dependents) [ none ↦ [] | some found ↦ found ]

unfoldable pub add_dependent : EGraph → ℕ → ℕ → ℕ → Outcome EGraph
add_dependent g version arg_ty parent_ty = do
  Tree.assert_mutable g.versions version
  state ← state_at g version
  ok (record g {
    states = set g.states version (record state {
      dependents =
          insert arg_ty (set_insert parent_ty (dependents_of state arg_ty)) state.dependents;
    });
  })

unfoldable pub collect_along : EGraph → List ℕ → ℕ → List ℕ → Outcome (List ℕ)
collect_along g [] p found = ok found
collect_along g (v ∷ rest) p found =
    state_at g v >>= λ state. collect_along g rest p (set_extend found (dependents_of state p))

unfoldable pub collect_dependents : EGraph → ℕ → ℕ → Outcome (List ℕ)
collect_dependents g version p = do
  chain ← Tree.ancestors g.versions version
  collect_along g chain p []

unfoldable pub find_each : EGraph → ℕ → List ℕ → Outcome (List ℕ)
find_each g version [] = ok []
find_each g version (c ∷ cs) =
    find g version c >>= λ root. find_each g version cs >>= λ roots. ok (root ∷ roots)

abbrev pub same_children : List ℕ → List ℕ → Bool
same_children [] [] = true
same_children (a ∷ as') (b ∷ bs) = a == b && same_children as' bs
same_children _ _ = false

module _ (hs : Hashing Cell) where
  unfoldable pub recanonicalize : EGraph → ℕ → Stash Cell → ℕ → Outcome (Stash Cell × Option ℕ)
  recanonicalize g version stash p = do
    d ← decompose stash p
    elim (is_empty d.children) [
      | true ↦ ok (stash, none)
      | false ↦ do
        roots ← find_each g version d.children
        elim (same_children roots d.children) [
          | true ↦ ok (stash, none)
          | false ↦ recompose hs stash d.skeleton roots >>= λ r. ok (r.0, some r.1)
        ]
    ]

  -- The graph, the stash and the changed types.
  abbrev pub Rebuilding : Type 0
  Rebuilding = EGraph × Stash Cell × List ℕ

  -- One dependent of a merged type.
  unfoldable pub rebuild_one : ℕ → Rebuilding → ℕ → Outcome Rebuilding
  rebuild_one version (g, stash, changed) dependent = do
    old_canonical ← find g version dependent
    r ← recanonicalize g version stash dependent
    elim r.1 [
      | none ↦ ok (g, r.0, changed)
      | some new_ty ↦ do
        new_canonical ← find g version new_ty
        elim (new_canonical == old_canonical) [
          | true ↦ ok (g, r.0, changed)
          | false ↦ do
            g1 ← set_parent g version dependent new_canonical
            state ← state_at g1 version
            let g2 = record g1 {
              states =
                  set g1.states version
                    (record state { worklist = state.worklist ++ dependent ∷ [] });
            }
            ok (g2, r.0, changed ++ dependent ∷ [])
        ]
    ]

  unfoldable pub rebuild_dependents : ℕ → Rebuilding → List ℕ → Outcome Rebuilding
  rebuild_dependents version s [] = ok s
  rebuild_dependents version s (dependent ∷ rest) =
      rebuild_one version s dependent >>= λ s'. rebuild_dependents version s' rest

  unfoldable pub rebuild_worklist : ℕ → Rebuilding → List ℕ → Outcome Rebuilding
  rebuild_worklist version s [] = ok s
  rebuild_worklist version s (merged ∷ rest) =
      collect_dependents s.0 version merged >>= λ dependents.
      rebuild_dependents version s dependents >>= λ s'. rebuild_worklist version s' rest

  unfoldable pub rebuild_loop : ℕ → ℕ → Rebuilding → Outcome Rebuilding
  rebuild_loop zero version s = out_of_fuel
  rebuild_loop (suc f) version s = state_at s.0 version >>= λ state.
      elim (is_empty state.worklist) [
        | true ↦ ok s
        | false ↦
            rebuild_worklist version
              (
                record s.0 { states = set s.0.states version (record state { worklist = [] }) },
                s.1,
                s.2,
              )
              state.worklist
            >>= λ s'. rebuild_loop f version s'
      ]

  unfoldable pub rebuild : ℕ → EGraph → ℕ → Stash Cell → Outcome Rebuilding
  rebuild fuel g version stash = do
    Tree.assert_mutable g.versions version
    rebuild_loop fuel version (g, stash, [])
