-- ===== src/EGraph/Kept.antt =====
-- What calls of crates/sage-ir/src/check/infer/egraph.rs leave of the maps that they do not write to.
use sage_dev.Prelude.{
  ℕ, ◌≡◌, ◌∙◌, refl, inl, inr, Bool, Bool-cases, Option, none, some, Option-cases, List, [], ◌∷◌,
  ◌++◌, ◌==◌, leb, arith, get_elem?, get_elem?-lt, get_elem?-set, insert, ok, given,
}
use sage_dev.Ty.{Cell}
use sage_dev.Stash.{Stash}
use sage_dev.Version.Domain.{InferDomain, same_domain}
use sage_dev.EGraph.{
  EGraph, VersionState, marked, mark_semantic_change, find, ty_at, as_infer_var, set_parent,
  push_work, union, oriented, current_universe,
}
use sage_dev.EGraph.Facts.{effective_domain, set_domain_in, lower_universe}
use sage_dev.EGraph.Find.{view}
use sage_dev.EGraph.Writes.{write}

-- The bindings of a map that a version's own state holds.
abbrev held {ℓ} :
    {V : Type ℓ} → (VersionState → List (ℕ × V)) → List VersionState → ℕ → List (ℕ × V)
held field states u = elim (get_elem? states u) [ none ↦ [] | some state ↦ field state ]

-- Versions and the bindings of a map are the same.
pub record Same {ℓ} {V : Type ℓ} (field : VersionState → List (ℕ × V)) (g g' : EGraph)
    : Type ℓ where
  pub versions_eq : g'.versions ≡ g.versions
  pub held_eq : (u : ℕ) → held field g'.states u ≡ held field g.states u

pub Same-refl {ℓ} : {V : Type ℓ} {field : VersionState → List (ℕ × V)} (g : EGraph) → Same field g g
Same-refl g = record { versions_eq = refl; held_eq = λ u. refl }

pub Same-trans {ℓ} :
    {V : Type ℓ} {field : VersionState → List (ℕ × V)} {g g' g'' : EGraph}
    → Same field g g'
    → Same field g' g''
    → Same field g g''
Same-trans a b = record {
  versions_eq = b.versions_eq ∙ a.versions_eq;
  held_eq = λ u. b.held_eq u ∙ a.held_eq u;
}

-- So every chain of versions shows the same bindings.
pub view-Same {ℓ} :
    {V : Type ℓ} (field : VersionState → List (ℕ × V)) (g g' : EGraph) (chain : List ℕ)
    → Same field g g'
    → view field g'.states chain ≡ view field g.states chain
view-Same field g g' [] same = refl
view-Same field g g' (u ∷ rest) same = λ i. same.held_eq u i ++ view-Same field g g' rest same i

-- A map that is neither that of the parents nor part of a mark or of the work list.
pub record Apart {ℓ} {V : Type ℓ} (field : VersionState → List (ℕ × V)) : Type ℓ where
  pub mark_eq : (wake : Option ℕ) (state : VersionState) → field (marked wake state) ≡ field state
  pub parents_eq :
      (state : VersionState) (parents : List (ℕ × ℕ))
      → field (record state { parents = parents }) ≡ field state
  pub work_eq :
      (state : VersionState) (work : List ℕ)
      → field (record state { worklist = work }) ≡ field state

pub domains-Apart : Apart (λ s. s.domains)
domains-Apart = record {
  mark_eq = λ wake state. refl;
  parents_eq = λ state parents. refl;
  work_eq = λ state work. refl;
}

pub ceilings-Apart : Apart (λ s. s.universe_ceilings)
ceilings-Apart = record {
  mark_eq = λ wake state. refl;
  parents_eq = λ state parents. refl;
  work_eq = λ state work. refl;
}

module _ {ℓ} {V : Type ℓ} (field : VersionState → List (ℕ × V)) (v : ℕ) where
  write-Same :
      (g : EGraph) (old state : VersionState)
      → get_elem? g.states v ≡ some old
      → field state ≡ field old
      → Same field g (write g v state)
  write-Same g old state found same = record {
    versions_eq = refl;
    held_eq = λ u. ground (arith, get_elem?-set g.states v state u (get_elem?-lt g.states v found));
  }

  module _ (apart : Apart field) where
    set_parent-Same :
        (g : EGraph) (p q : ℕ) {g' : EGraph} → set_parent g v p q ≡ ok g' → Same field g g'
    unfolding set_parent
    set_parent-Same g p q e = elim (Option-cases (get_elem? g.states v)) [
      | inl missing ↦ absurd (ground arith)
      | inr (state, found) ↦
          let same = apart.parents_eq state ((p, q) ∷ state.parents) in
          ground (
            arith,
            write-Same g state (record state { parents = (p, q) ∷ state.parents }) found same,
          )
    ]

    mark-Same :
        (g : EGraph) (wake : Option ℕ) {g' : EGraph}
        → mark_semantic_change g v wake ≡ ok g'
        → Same field g g'
    unfolding mark_semantic_change
    mark-Same g wake e = elim (Option-cases (get_elem? g.states v)) [
      | inl missing ↦ absurd (ground arith)
      | inr (state, found) ↦
          ground (arith, write-Same g state (marked wake state) found (apart.mark_eq wake state))
    ]

    push_work-Same : (g : EGraph) (p : ℕ) {g' : EGraph} → push_work g v p ≡ ok g' → Same field g g'
    unfolding push_work
    push_work-Same g p e = elim (Option-cases (get_elem? g.states v)) [
      | inl missing ↦ absurd (ground arith)
      | inr (state, found) ↦
          let same = apart.work_eq state (state.worklist ++ p ∷ []) in
          ground (
            arith,
            write-Same g state (record state { worklist = state.worklist ++ p ∷ [] }) found same,
          )
    ]

    -- A write that leaves the map alone, and a mark.
    marked-Same :
        (g : EGraph) (old state : VersionState) (wake : Option ℕ) {g' : EGraph}
        → get_elem? g.states v ≡ some old
        → field state ≡ field old
        → mark_semantic_change (write g v state) v wake ≡ ok g'
        → Same field g g'
    marked-Same g old state wake found same e =
        Same-trans (write-Same g old state found same) (mark-Same (write g v state) wake e)

    pub union-Same :
        (g : EGraph) (stash : Stash Cell) (left right : ℕ) {r : EGraph × ℕ}
        → union g stash v left right ≡ ok r
        → Same field g r.0
    unfolding union
    union-Same g stash left right e =
        given (find g v left) (λ bad. absurd (ground arith))
          λ left_root found_left.
            given (find g v right) (λ bad. absurd (ground arith))
              λ right_root found_right. elim (Bool-cases (left_root == right_root)) [
                | inl same ↦ ground (arith, Same-refl {field = field} g)
                | inr differ ↦
                    given (ty_at stash left_root) (λ bad. absurd (ground arith))
                      λ left_ty read.
                        let pair = oriented left_ty left_root right_root in
                        given (set_parent g v pair.0 pair.1) (λ bad. absurd (ground arith))
                          λ g1 run1.
                            given (push_work g1 v pair.0) (λ bad. absurd (ground arith))
                              λ g2 run2.
                                given (ty_at stash pair.0) (λ bad. absurd (ground arith))
                                  λ child_ty read_child.
                                    given (mark_semantic_change g2 v (as_infer_var child_ty))
                                      (λ bad. absurd (ground arith))
                                      λ g3 run3.
                                        let w = Same-trans (set_parent-Same g pair.0 pair.1 run1) (
                                          Same-trans (push_work-Same g1 pair.0 run2)
                                            (mark-Same g2 (as_infer_var child_ty) run3)) in
                                        ground arith
              ]

-- `lower_universe` records no domain.
pub lower_universe-Same :
    (v : ℕ) (g : EGraph) (index ceiling : ℕ) {r : EGraph × Bool}
    → lower_universe g v index ceiling ≡ ok r
    → Same (λ s. s.domains) g r.0
unfolding lower_universe
lower_universe-Same v g index ceiling e =
    given (current_universe g v index) (λ bad. absurd (ground arith))
      λ old found. elim (Bool-cases (leb old ceiling)) [
        | inl low ↦ ground (arith, Same-refl {field = λ s. s.domains} g)
        | inr high ↦ elim (Option-cases (get_elem? g.states v)) [
          | inl missing ↦ absurd (ground arith)
          | inr (state, here) ↦
              let lowered = record state {
                universe_ceilings = insert index ceiling state.universe_ceilings;
              } in
              given (mark_semantic_change (write g v lowered) v (some index))
                (λ bad. absurd (ground arith))
                λ g2 run.
                  let w =
                    marked-Same (λ s. s.domains) v domains-Apart g state lowered (some index) here
                      refl run in
                  ground arith
        ]
      ]

-- `set_domain_in` lowers no universe.
pub set_domain_in-Same :
    (v : ℕ) (g : EGraph) (stash : Stash Cell) (p : ℕ) (domain : InferDomain) {r : EGraph × Bool}
    → set_domain_in g stash v p domain ≡ ok r
    → Same (λ s. s.universe_ceilings) g r.0
unfolding set_domain_in
set_domain_in-Same v g stash p domain e =
    given (find g v p) (λ bad. absurd (ground arith))
      λ root found.
        given (ty_at stash root) (λ bad. absurd (ground arith))
          λ root_ty read. elim (Option-cases (as_infer_var root_ty)) [
            | inl rigid ↦ absurd (ground arith)
            | inr (index, variable) ↦
                given (effective_domain g stash v root) (λ bad. absurd (ground arith))
                  λ known run1. elim (Option-cases known) [
                    | inl unknown ↦ absurd (ground arith)
                    | inr (previous, is_known) ↦ elim (Bool-cases (same_domain previous domain)) [
                      | inl same ↦ ground (arith, Same-refl {field = λ s. s.universe_ceilings} g)
                      | inr differ ↦ elim (Option-cases (get_elem? g.states v)) [
                        | inl missing ↦ absurd (ground arith)
                        | inr (state, here) ↦
                            let narrowed = record state {
                              domains = insert root domain state.domains;
                            } in
                            given (mark_semantic_change (write g v narrowed) v (some index))
                              (λ bad. absurd (ground arith))
                              λ g2 run.
                                let w =
                                  marked-Same (λ s. s.universe_ceilings) v ceilings-Apart g state
                                    narrowed (some index) here refl run in
                                ground arith
                      ]
                    ]
                  ]
          ]
