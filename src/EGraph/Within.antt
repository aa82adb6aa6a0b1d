-- ===== src/EGraph/Within.antt =====
-- Calls of crates/sage-ir/src/check/infer/egraph.rs that write to one version's state only.
use sage_dev.Prelude.{
  ℕ, ◌≡◌, Option, Bool, Option-cases, given, Bool-cases, ◌==◌, ◌||◌, leb, zero, suc, inl, inr, [],
  ◌∷◌, ◌++◌, arith, ◌≢◌, ◌∙◌, refl, ap, sym, some, length, length-set, get_elem?, get_elem?-set,
  get_elem?-lt, get_elem?-set_ne, List, none, set_insert, insert, ok,
}
use sage_dev.Ty.{Cell}
use sage_dev.Stash.{Stash}
use sage_dev.Version.Domain.{InferDomain, same_domain}
use sage_dev.Version.Tree
use sage_dev.Version.Tree.Wf.{Above}
use sage_dev.EGraph.{
  EGraph, VersionState, Bound, same_bound, as_infer_var, ty_at, set_parent, get_parent,
  compress_loop, find_mut, find, parent_bindings, marked, mark_semantic_change, push_work, oriented,
  union, current_universe,
}
use sage_dev.EGraph.Facts.{effective_domain, get_bound, lower_universe, set_domain_in, set_bound_in}
use sage_dev.EGraph.Dependents.{dependents_of, add_dependent}
use sage_dev.EGraph.Find.{Wf, view, Classes}
use sage_dev.Version.Tree.Ancestry.{Upward}
use sage_dev.EGraph.Writes.{write, others-Classes}

-- `g'` differs from `g` in the state of `v` alone.
pub record Within (g g' : EGraph) (v : ℕ) : Type 0 where
  pub versions_eq : g'.versions ≡ g.versions
  pub placeholders_eq : g'.placeholder_universes ≡ g.placeholder_universes
  pub length_eq : length g'.states ≡ length g.states
  pub others : (u : ℕ) → v ≢ u → get_elem? g'.states u ≡ get_elem? g.states u

pub Within-refl : (g : EGraph) (v : ℕ) → Within g g v
Within-refl g v = record {
  versions_eq = refl;
  placeholders_eq = refl;
  length_eq = refl;
  others = λ u ne. refl;
}

pub Within-trans : {g g' g'' : EGraph} {v : ℕ} → Within g g' v → Within g' g'' v → Within g g'' v
Within-trans a b = record {
  versions_eq = b.versions_eq ∙ a.versions_eq;
  placeholders_eq = b.placeholders_eq ∙ a.placeholders_eq;
  length_eq = b.length_eq ∙ a.length_eq;
  others = λ u ne. b.others u ne ∙ a.others u ne;
}

pub Within-Wf : {g g' : EGraph} {v : ℕ} → Within g g' v → Wf g → Wf g'
Within-Wf e w = record {
  shaped = rw e.versions_eq w.shaped;
  same_length = e.length_eq ∙ w.same_length ∙ ap (λ t. length t.nodes) (sym e.versions_eq);
}

-- A version that does not see `v` keeps its classes.
pub Within-Classes :
    {g g' : EGraph} {v : ℕ} (u : ℕ) (ρ : ℕ → ℕ)
    → Within g g' v
    → (Above g.versions.nodes v u → ⊥)
    → Classes g u ρ
    → Classes g' u ρ
Within-Classes {g} {g'} u ρ e = others-Classes g g' u ρ e.versions_eq e.others

pub write-Within : (g : EGraph) (v : ℕ) (state : VersionState) → Within g (write g v state) v
write-Within g v state = record {
  versions_eq = refl;
  placeholders_eq = refl;
  length_eq = length-set g.states v state;
  others = λ u ne. get_elem?-set_ne g.states v u state ne;
}

-- The parents that a version's own state holds.
abbrev pub parents_in : List VersionState → ℕ → List (ℕ × ℕ)
parents_in states u = elim (get_elem? states u) [ none ↦ [] | some state ↦ state.parents ]

-- Besides, every state holds the parents that it held.
pub record Quiet (g g' : EGraph) (v : ℕ) : Type 0 where
  pub within : Within g g' v
  pub parents_eq : (u : ℕ) → parents_in g'.states u ≡ parents_in g.states u

pub Quiet-refl : (g : EGraph) (v : ℕ) → Quiet g g v
Quiet-refl g v = record { within = Within-refl g v; parents_eq = λ u. refl }

pub Quiet-trans : {g g' g'' : EGraph} {v : ℕ} → Quiet g g' v → Quiet g' g'' v → Quiet g g'' v
Quiet-trans a b = record {
  within = Within-trans a.within b.within;
  parents_eq = λ u. b.parents_eq u ∙ a.parents_eq u;
}

write-Quiet :
    (g : EGraph) (v : ℕ) (old state : VersionState)
    → get_elem? g.states v ≡ some old
    → state.parents ≡ old.parents
    → Quiet g (write g v state) v
write-Quiet g v old state found same = record {
  within = write-Within g v state;
  parents_eq =
      λ u. ground (arith, get_elem?-set g.states v state u (get_elem?-lt g.states v found));
}

view-Quiet :
    (states states' : List VersionState) (chain : List ℕ)
    → ((u : ℕ) → parents_in states' u ≡ parents_in states u)
    → view (λ s. s.parents) states' chain ≡ view (λ s. s.parents) states chain
view-Quiet states states' [] same = refl
view-Quiet states states' (u ∷ rest) same = λ i. same u i ++ view-Quiet states states' rest same i

-- So every version keeps its classes.
pub Quiet-Classes :
    {g g' : EGraph} {v : ℕ} (u : ℕ) (ρ : ℕ → ℕ) → Quiet g g' v → Classes g u ρ → Classes g' u ρ
Quiet-Classes {g} {g'} u ρ q classes chain up =
    let up' : Upward g.versions.nodes u chain = rw q.within.versions_eq at up in
    rw (view-Quiet g.states g'.states chain q.parents_eq) (classes chain up')

pub set_parent-Within :
    (g : EGraph) (v p q : ℕ) {g' : EGraph} → set_parent g v p q ≡ ok g' → Within g g' v
unfolding set_parent
set_parent-Within g v p q e = elim (Option-cases (get_elem? g.states v)) [
  | inl missing ↦ absurd (ground arith)
  | inr (state, found) ↦
      ground (arith, write-Within g v (record state { parents = (p, q) ∷ state.parents }))
]

module _ (v : ℕ) where
  compress_loop-Within :
      (f : ℕ) (g : EGraph) (p root : ℕ) {g' : EGraph}
      → compress_loop f g v p root ≡ ok g'
      → Within g g' v
  unfolding compress_loop
  compress_loop-Within zero g p root e = cc
  compress_loop-Within (suc f) g p root e =
      given (get_parent g v p) (λ bad. absurd (ground arith))
        λ q found. elim (Bool-cases (q == root || q == p)) [
          | inl stop ↦ ground (arith, Within-refl g v)
          | inr go ↦
              given (set_parent g v p root) (λ bad. absurd (ground arith))
                λ g1 step.
                  Within-trans (set_parent-Within g v p root step)
                    (compress_loop-Within f g1 q root (ground arith))
        ]

  pub find_mut-Within :
      (g : EGraph) (p : ℕ) {r : EGraph × ℕ} → find_mut g v p ≡ ok r → Within g r.0 v
  unfolding find_mut
  find_mut-Within g p e =
      given (find g v p) (λ bad. absurd (ground arith))
        λ root found.
          given (Tree.ancestors g.versions v) (λ bad. absurd (ground arith))
            λ chain up.
              given (compress_loop (suc (parent_bindings g.states chain)) g v p root)
                (λ bad. absurd (ground arith))
                λ g1 run.
                  let w =
                    compress_loop-Within (suc (parent_bindings g.states chain)) g p root run in
                  ground arith

  mark_semantic_change-Quiet :
      (g : EGraph) (wake : Option ℕ) {g' : EGraph}
      → mark_semantic_change g v wake ≡ ok g'
      → Quiet g g' v
  unfolding mark_semantic_change
  mark_semantic_change-Quiet g wake e = elim (Option-cases (get_elem? g.states v)) [
    | inl missing ↦ absurd (ground arith)
    | inr (state, found) ↦ ground (arith, write-Quiet g v state (marked wake state) found refl)
  ]

  push_work-Quiet : (g : EGraph) (p : ℕ) {g' : EGraph} → push_work g v p ≡ ok g' → Quiet g g' v
  unfolding push_work
  push_work-Quiet g p e = elim (Option-cases (get_elem? g.states v)) [
    | inl missing ↦ absurd (ground arith)
    | inr (state, found) ↦ ground (
      arith,
      write-Quiet g v state (record state { worklist = state.worklist ++ p ∷ [] }) found refl,
    )
  ]

  -- A write to the state of `v` that is followed by a mark.
  marked-Quiet :
      (g : EGraph) (old state : VersionState) (wake : Option ℕ) {g' : EGraph}
      → get_elem? g.states v ≡ some old
      → state.parents ≡ old.parents
      → mark_semantic_change (write g v state) v wake ≡ ok g'
      → Quiet g g' v
  marked-Quiet g old state wake found same e =
      Quiet-trans (write-Quiet g v old state found same)
        (mark_semantic_change-Quiet (write g v state) wake e)

  pub union-Within :
      (g : EGraph) (stash : Stash Cell) (left right : ℕ) {r : EGraph × ℕ}
      → union g stash v left right ≡ ok r
      → Within g r.0 v
  unfolding union
  union-Within g stash left right e =
      given (find g v left) (λ bad. absurd (ground arith))
        λ left_root found_left.
          given (find g v right) (λ bad. absurd (ground arith))
            λ right_root found_right. elim (Bool-cases (left_root == right_root)) [
              | inl same ↦ ground (arith, Within-refl g v)
              | inr differ ↦
                  given (ty_at stash left_root) (λ bad. absurd (ground arith))
                    λ left_ty read.
                      let pair = oriented left_ty left_root right_root in
                      given (set_parent g v pair.0 pair.1) (λ bad. absurd (ground arith))
                        λ g1 run1.
                          given (push_work g1 v pair.0) (λ bad. absurd (ground arith))
                            λ g2 run2.
                              given (ty_at stash pair.0) (λ bad. absurd (ground arith))
                                λ child_ty read_child.
                                  given (mark_semantic_change g2 v (as_infer_var child_ty))
                                    (λ bad. absurd (ground arith))
                                    λ g3 run3.
                                      let w =
                                        Within-trans (set_parent-Within g v pair.0 pair.1 run1) (
                                          Within-trans (push_work-Quiet g1 pair.0 run2).within
                                            (mark_semantic_change-Quiet g2 (as_infer_var child_ty)
                                              run3).within) in
                                      ground arith
            ]

  pub lower_universe-Quiet :
      (g : EGraph) (index ceiling : ℕ) {r : EGraph × Bool}
      → lower_universe g v index ceiling ≡ ok r
      → Quiet g r.0 v
  unfolding lower_universe
  lower_universe-Quiet g index ceiling e =
      given (current_universe g v index) (λ bad. absurd (ground arith))
        λ old found. elim (Bool-cases (leb old ceiling)) [
          | inl low ↦ ground (arith, Within-refl g v)
          | inr high ↦ elim (Option-cases (get_elem? g.states v)) [
            | inl missing ↦ absurd (ground arith)
            | inr (state, here) ↦
                let lowered = record state {
                  universe_ceilings = insert index ceiling state.universe_ceilings;
                } in
                given (mark_semantic_change (write g v lowered) v (some index))
                  (λ bad. absurd (ground arith))
                  λ g2 run.
                    let w = marked-Quiet g state lowered (some index) here refl run in ground arith
          ]
        ]

  pub set_domain_in-Quiet :
      (g : EGraph) (stash : Stash Cell) (p : ℕ) (domain : InferDomain) {r : EGraph × Bool}
      → set_domain_in g stash v p domain ≡ ok r
      → Quiet g r.0 v
  unfolding set_domain_in
  set_domain_in-Quiet g stash p domain e =
      given (find g v p) (λ bad. absurd (ground arith))
        λ root found.
          given (ty_at stash root) (λ bad. absurd (ground arith))
            λ root_ty read. elim (Option-cases (as_infer_var root_ty)) [
              | inl rigid ↦ absurd (ground arith)
              | inr (index, variable) ↦
                  given (effective_domain g stash v root) (λ bad. absurd (ground arith))
                    λ known run1. elim (Option-cases known) [
                      | inl unknown ↦ absurd (ground arith)
                      | inr (previous, is_known) ↦ elim (Bool-cases (same_domain previous domain)) [
                        | inl same ↦ ground (arith, Within-refl g v)
                        | inr differ ↦ elim (Option-cases (get_elem? g.states v)) [
                          | inl missing ↦ absurd (ground arith)
                          | inr (state, here) ↦
                              let narrowed = record state {
                                domains = insert root domain state.domains;
                              } in
                              given (mark_semantic_change (write g v narrowed) v (some index))
                                (λ bad. absurd (ground arith))
                                λ g2 run.
                                  let w =
                                    marked-Quiet g state narrowed (some index) here refl run in
                                  ground arith
                        ]
                      ]
                    ]
            ]

  pub set_bound_in-Quiet :
      (g : EGraph) (stash : Stash Cell) (p : ℕ) (bound : Bound) {r : EGraph × Bool}
      → set_bound_in g stash v p bound ≡ ok r
      → Quiet g r.0 v
  unfolding set_bound_in
  set_bound_in-Quiet g stash p bound e =
      given (ty_at stash p) (λ bad. absurd (ground arith))
        λ var_ty read. elim (Option-cases (as_infer_var var_ty)) [
          | inl rigid ↦ absurd (ground arith)
          | inr (index, variable) ↦
              given (get_bound g v p) (λ bad. absurd (ground arith))
                λ old run1. elim (Bool-cases (same_bound old bound)) [
                  | inl same ↦ ground (arith, Within-refl g v)
                  | inr differ ↦ elim (Option-cases (get_elem? g.states v)) [
                    | inl missing ↦ absurd (ground arith)
                    | inr (state, here) ↦
                        let bounded = record state { bounds = insert p bound state.bounds } in
                        given (mark_semantic_change (write g v bounded) v (some index))
                          (λ bad. absurd (ground arith))
                          λ g2 run.
                            let w = marked-Quiet g state bounded (some index) here refl run in
                            ground arith
                  ]
                ]
        ]

  pub add_dependent-Quiet :
      (g : EGraph) (arg_ty parent_ty : ℕ) {g' : EGraph}
      → add_dependent g v arg_ty parent_ty ≡ ok g'
      → Quiet g g' v
  unfolding add_dependent
  add_dependent-Quiet g arg_ty parent_ty e = elim (Option-cases (get_elem? g.states v)) [
    | inl missing ↦ absurd (ground arith)
    | inr (state, found) ↦ ground (
      arith,
      write-Quiet g v state
          (record state {
            dependents =
                insert arg_ty (set_insert parent_ty (dependents_of state arg_ty)) state.dependents;
          })
          found refl,
    )
  ]
