-- ===== src/Unify/Rollback.antt =====
-- A transaction of crates/sage-ir/src/check/infer/unify.rs that fails leaves the older versions as they
-- were.
use sage_dev.Prelude.{
  ℕ, ◌+◌, ◌^◌, [], ◌∷◌, ◌++◌, ◌==◌, contains, if◌then◌else◌, ◌<◌, ◌≡◌, ◌≢◌, ◌∙◌, sym, refl, subst,
  ap, Bool-cases, inl, inr, given, true, false, List, length, get_elem?, ok, arith,
}
use sage_dev.Ty.{Cell}
use sage_dev.Stash.{Stash, Hashing}
use sage_dev.Version.Tree.{is_live}
use sage_dev.Version.Tree.Wf.{Above, here, Above-le, parent_in, children_in, owned_in}
use sage_dev.Version.Tree.Reads.{live_in-lt, node_same, keep_added, keep_unlisted}
use sage_dev.Version.Tree.Shape.{parent_in-lt}
use sage_dev.EGraph.{EGraph, Bound}
use sage_dev.EGraph.Lifecycle.{branch_from, collapse_into, discard}
use sage_dev.EGraph.Dependents.{rebuild}
use sage_dev.EGraph.Find.{Wf, Classes}
use sage_dev.EGraph.Branching.{Forked, branch_from-Forked}
use sage_dev.EGraph.Discarding.{Discarded, discard-Discarded}
use sage_dev.EGraph.Within.{Within, Within-Wf, Within-Classes}
use sage_dev.Unify.{UnifyError, done, failed, Run}
use sage_dev.Unify.Isolation.{Attempt-cases, Contained}
use sage_dev.Unify.Transaction.{
  try_probe, finish, unify_all, set_bound, install_error, try_unify_batch, try_set_bound,
  install_error_recovery,
}
use sage_dev.Unify.Operations.{unify_all-Contained, set_bound-Contained, install_error-Contained}

-- `g'` is `g` with a dead version at the end: every version of `g` has the same node (its parent, children,
-- variables, and whether it is live) and the same state.
pub record RolledBack (g g' : EGraph) : Type 0 where
  pub wf : Wf g'
  pub dead : is_live g'.versions (length g.versions.nodes) ≡ false
  pub live_eq : (u : ℕ) → u < length g.versions.nodes → is_live g'.versions u ≡ is_live g.versions u
  pub grown : length g'.versions.nodes ≡ length g.versions.nodes + 1
  pub nodes_eq :
      (u : ℕ)
      → u < length g.versions.nodes
      → get_elem? g'.versions.nodes u ≡ get_elem? g.versions.nodes u
  pub states_eq :
      (u : ℕ) → u < length g.versions.nodes → get_elem? g'.states u ≡ get_elem? g.states u
  pub variables_eq : g'.versions.variables ≡ g.versions.variables
  pub placeholders_eq : g'.placeholder_universes ≡ g.placeholder_universes
  pub classes : (u : ℕ) (ρ : ℕ → ℕ) → is_live g.versions u ≡ true → Classes g u ρ → Classes g' u ρ

module _ {g g1 g2 : EGraph} {parent : ℕ} (w : Wf g) (live : is_live g.versions parent ≡ true)
    (forked : Forked g g1 parent (length g.versions.nodes))
    (inside : Within g1 g2 (length g.versions.nodes)) where
  child_live : is_live g2.versions (length g.versions.nodes) ≡ true
  child_live = rw inside.versions_eq forked.live

  not_below :
      (u : ℕ)
      → u < length g.versions.nodes
      → Above g2.versions.nodes (length g.versions.nodes) u
      → ⊥
  not_below u lt above = let le = Above-le (Within-Wf inside forked.wf).shaped above in omega arith

  Discarded-RolledBack : (g3 : EGraph) → Discarded g2 g3 (length g.versions.nodes) → RolledBack g g3
  Discarded-RolledBack g3 d = record {
    wf = d.wf;
    dead = d.dead (length g.versions.nodes) here;
    live_eq = λ u lt. live_eq_lem u lt;
    grown = d.tree.length_eq ∙ ap (λ t. length t.nodes) inside.versions_eq ∙ forked.tree.grown;
    nodes_eq = λ u lt. nodes_eq_lem u lt;
    states_eq = λ u lt.
        d.apart_states u (not_below u lt)
        ∙ inside.others u (λ e. omega arith)
        ∙ forked.older_states u lt;
    variables_eq = d.variables_eq ∙ ap (λ t. t.variables) inside.versions_eq ∙ forked.variables_eq;
    placeholders_eq = d.placeholders_eq ∙ inside.placeholders_eq ∙ forked.placeholders_eq;
    classes = λ u ρ alive classes.
        let lt = live_in-lt g.versions.nodes u alive in
        let apart : Above g1.versions.nodes (length g.versions.nodes) u → ⊥ =
          rw inside.versions_eq at (not_below u lt) in
        d.survivors u ρ (still u alive lt)
          (Within-Classes u ρ inside apart (forked.older u ρ lt classes));
  }
    where
      still :
          (u : ℕ)
          → is_live g.versions u ≡ true
          → u < length g.versions.nodes
          → is_live g3.versions u ≡ true
      still u alive lt =
          d.kept u (ap (λ t. is_live t u) inside.versions_eq ∙ forked.older_live u lt ∙ alive)
            (not_below u lt)

      live_eq_lem :
          (u : ℕ) → u < length g.versions.nodes → is_live g3.versions u ≡ is_live g.versions u
      live_eq_lem u lt =
          let same : is_live g2.versions u ≡ is_live g.versions u =
            ap (λ t. is_live t u) inside.versions_eq ∙ forked.older_live u lt in
          elim (Bool-cases (is_live g.versions u)) [
            | inl alive ↦ d.kept u (same ∙ alive) (not_below u lt) ∙ sym alive
            | inr gone ↦ elim (Bool-cases (is_live g3.versions u)) [
              | inl back ↦ absurd (let was = d.unrevived u back in cc)
              | inr stays ↦ stays ∙ sym gone
            ]
          ]

      -- The child that the branch listed is the one that the discard drops.
      children_eq_lem :
          (u : ℕ)
          → u < length g.versions.nodes
          → children_in g3.versions.nodes u ≡ children_in g.versions.nodes u
      children_eq_lem u lt =
          let child : ℕ = length g.versions.nodes in
          let unlisted : contains (children_in g.versions.nodes u) child ≡ false =
            elim (Bool-cases (contains (children_in g.versions.nodes u) child)) [
              | inr fresh ↦ fresh
              | inl listed ↦
                  let back = w.shaped.child u child listed in
                  absurd (let in_range = parent_in-lt g.versions.nodes child u back in omega arith)
            ] in
          let branched : children_in g2.versions.nodes u ≡ (
              if u == parent
              then children_in g.versions.nodes u ++ child ∷ []
              else if u == child
              then []
              else children_in g.versions.nodes u) =
            ap (λ t. children_in t.nodes u) inside.versions_eq ∙ forked.tree.children_eq u in
          let dropped = d.tree.children_eq u (not_below u lt) in
          let added = keep_added child (children_in g.versions.nodes u) unlisted in
          let kept = keep_unlisted child (children_in g.versions.nodes u) unlisted in
          dropped
          ∙ rw branched (elim (Bool-cases (u == parent)) [
            | inl same ↦ rw same added
            | inr other ↦ let older : (u == child) ≡ false = ground arith in rw (other, older) kept
          ])

      nodes_eq_lem :
          (u : ℕ)
          → u < length g.versions.nodes
          → get_elem? g3.versions.nodes u ≡ get_elem? g.versions.nodes u
      nodes_eq_lem u lt =
          let longer : length g3.versions.nodes ≡ length g.versions.nodes + 1 =
            d.tree.length_eq ∙ ap (λ t. length t.nodes) inside.versions_eq ∙ forked.tree.grown in
          let older : (u == length g.versions.nodes) ≡ false = ground arith in
          let branched : parent_in g2.versions.nodes u ≡ parent_in g.versions.nodes u =
            ap (λ t. parent_in t.nodes u) inside.versions_eq
            ∙ forked.tree.parent_eq u
            ∙ rw older refl in
          node_same g.versions.nodes g3.versions.nodes u lt (omega arith) (live_eq_lem u lt)
            (d.tree.parent_eq u ∙ branched) (children_eq_lem u lt)
            (d.tree.owned_eq u
              ∙ ap (λ t. owned_in t.nodes u) inside.versions_eq
              ∙ forked.tree.owned_eq u)

  rollback : (g3 : EGraph) × (discard g2 (length g.versions.nodes) ≡ ok g3) × RolledBack g g3
  rollback =
      let (g3, run, d) =
        discard-Discarded g2 (length g.versions.nodes) (Within-Wf inside forked.wf) child_live
          (λ e. let lt = live_in-lt g.versions.nodes parent live in omega arith) in
      (g3, run, Discarded-RolledBack g3 d)

-- An operation that succeeds does not make its transaction fail.
finish-done :
    {A : Type 0} (hs : Hashing Cell) (f parent child : ℕ) (stash stash' : Stash Cell)
    (g g' : EGraph) (value : A) (e : UnifyError)
    → finish hs f parent child stash (g, done value) ≢ ok (g', stash', failed e)
unfolding finish
finish-done hs f parent child stash stash' g g' value e h =
    given (rebuild hs f g child stash) (λ bad. absurd (ground arith))
      λ built run1.
        given (collapse_into built.0 child parent) (λ bad. absurd (ground arith))
          λ r run2. absurd (ground arith)

finish-failed :
    (A : Type 0) (hs : Hashing Cell) (f parent child : ℕ) (stash : Stash Cell) (g g' : EGraph)
    (e : UnifyError)
    → discard g child ≡ ok g'
    → finish hs {A = A} f parent child stash (g, failed e) ≡ ok (g', stash, failed e)
unfolding finish
finish-failed A hs f parent child stash g g' e discarded = rw discarded refl

module _ (hs : Hashing Cell) (f : ℕ) (g : EGraph) (stash : Stash Cell) (parent : ℕ) (w : Wf g)
    (live : is_live g.versions parent ≡ true) (room : length g.versions.nodes < 2 ^ 32) where
  module _ {A : Type 0} (operation : Stash Cell → ℕ → EGraph → Run A)
      (contained : (v : ℕ) (g' : EGraph) → Contained v g' (operation stash v g')) where
    -- A transaction returns the error of its operation, with every version as it was.
    pub try_probe-RolledBack :
        (g1 g2 : EGraph) (e : UnifyError)
        → branch_from g parent ≡ ok (g1, length g.versions.nodes)
        → operation stash (length g.versions.nodes) g1 ≡ ok (g2, failed e)
        → (g3 : EGraph) × (try_probe hs f g stash parent operation ≡ ok (g3, stash, failed e))
          × RolledBack g g3
    unfolding try_probe
    try_probe-RolledBack g1 g2 e branch run =
        let (g1', branch', forked) = branch_from-Forked g parent w live room in
        let same : g1' ≡ g1 = cc in
        let forked' : Forked g g1 parent (length g.versions.nodes) = rw same at forked in
        let inside = (contained (length g.versions.nodes) g1 (g2, failed e) run).within in
        let (g3, discarded, back) = rollback w live forked' inside in
        (
          g3,
          rw (branch, run)
              (finish-failed A hs f parent (length g.versions.nodes) stash g2 g3 e discarded),
          back,
        )

    -- A failed transaction leaves the stash and every version as they were.
    pub failed-RolledBack :
        {g' : EGraph} {stash' : Stash Cell} {e : UnifyError}
        → try_probe hs f g stash parent operation ≡ ok (g', stash', failed e)
        → (stash' ≡ stash) × RolledBack g g'
    unfolding try_probe
    failed-RolledBack {g'} {stash'} {e} h =
        let (g1, branch, forked) = branch_from-Forked g parent w live room in
        let child : ℕ = length g.versions.nodes in
        given (operation stash child g1) (λ bad. absurd (ground arith))
          λ r run. elim (Attempt-cases r.1) [
            | inl (value, is_done) ↦
                absurd (finish-done hs f parent child stash stash' r.0 g' value e (ground arith))
            | inr (error, is_failed) ↦
                let inside = (contained child g1 r run).within in
                let (g3, discarded, back) = rollback w live forked inside in
                let ends : finish hs f parent child stash r ≡ ok (g', stash', failed e) =
                  ground arith in
                let ends' = finish-failed A hs f parent child stash r.0 g3 error discarded in
                let same : g3 ≡ g' = ground arith in
                let same' : stash' ≡ stash = ground arith in
                (same', subst (λ x. RolledBack g x) same back)
          ]

module _ (hs : Hashing Cell) (f : ℕ) (g : EGraph) (stash : Stash Cell) (parent : ℕ) {g' : EGraph}
    {stash' : Stash Cell} {e : UnifyError} (w : Wf g) (live : is_live g.versions parent ≡ true)
    (room : length g.versions.nodes < 2 ^ 32) where
  -- A batch of equalities that fails in a live version of a well-formed graph, while the version
  -- counter has room, leaves the stash, the variables and the placeholders as they were, and every version
  -- of the graph with the same node (its parent, children, variables, and whether it is live) and the same
  -- state; the live ones see the same classes. All that is added is the transaction's own version, which
  -- is dead.
  pub try_unify_batch-RolledBack :
      (equalities : List (ℕ × ℕ))
      → try_unify_batch hs f g stash parent equalities ≡ ok (g', stash', failed e)
      → (stash' ≡ stash) × RolledBack g g'
  unfolding try_unify_batch
  try_unify_batch-RolledBack equalities =
      failed-RolledBack hs f g stash parent w live room (λ s v x. unify_all f s v x equalities)
        (λ v x. unify_all-Contained f stash v x equalities)

  -- Likewise a bound that is refused.
  pub try_set_bound-RolledBack :
      (p : ℕ) (bound : Bound)
      → try_set_bound hs f g stash parent p bound ≡ ok (g', stash', failed e)
      → (stash' ≡ stash) × RolledBack g g'
  unfolding try_set_bound
  try_set_bound-RolledBack p bound =
      failed-RolledBack hs f g stash parent w live room (set_bound f p bound)
        (λ v x. set_bound-Contained f stash v x p bound)

  pub install_error_recovery-RolledBack :
      (p error_ty : ℕ)
      → install_error_recovery hs f g stash parent p error_ty ≡ ok (g', stash', failed e)
      → (stash' ≡ stash) × RolledBack g g'
  unfolding install_error_recovery
  install_error_recovery-RolledBack p error_ty =
      failed-RolledBack hs f g stash parent w live room (install_error p error_ty)
        (λ v x. install_error-Contained f stash v x p error_ty)
