-- ===== src/EGraph/Collapse.antt =====
-- `collapse_into` of crates/sage-ir/src/check/infer/egraph.rs: what the parent and the other versions
-- see.
use sage_dev.Prelude.{
  ℕ, ◌+◌, ◌<◌, ◌≡◌, ◌≢◌, ◌∙◌, ap, sym, subst, refl, true, false, some, List, [], ◌∷◌, ◌==◌, ==_self,
  arith, get_elem?, get_elem?-lt, get_elem?-set, set, contains, length, length-set, ok,
  if◌then◌else◌,
}
use sage_dev.Version.Tree.{VersionTree, is_live, is_leaf, parent_of, children_of}
use sage_dev.Version.Tree.Wf.{
  parent_in, children_in, Above, here, Above-le, Above-live, SameShape-Shaped,
}
use sage_dev.Version.Tree.Discard.{Removed, remove-Removed}
use sage_dev.Version.Tree.Owners.{Owning}
use sage_dev.Version.Tree.Reown.{Reowned, moved, reown_variables-Reowned}
use sage_dev.Version.Tree.Ancestry.{Upward, step, Upward-Above}
use sage_dev.EGraph.{EGraph, VersionState, default_state}
use sage_dev.EGraph.Lifecycle.{absorb, sort, collapse_into}
use sage_dev.EGraph.Find.{Wf, view, parents_along, Classes}
use sage_dev.EGraph.Writes.{live-state, Upward-head, append_assoc}
use sage_dev.EGraph.Chains.{view-agree, Upward-below}

-- After `child` is collapsed into `p`: the child is dead, `p` sees what the child saw and owns its
-- variables, and the versions that do not see `p` see what they saw.
pub record Collapsed (g g' : EGraph) (child p : ℕ) : Type 0 where
  pub wf : Wf g'
  pub dead : is_live g'.versions child ≡ false
  pub inherited : (ρ : ℕ → ℕ) → Classes g child ρ → Classes g' p ρ
  pub others :
      (u : ℕ) (ρ : ℕ → ℕ)
      → is_live g'.versions u ≡ true
      → (Above g.versions.nodes p u → ⊥)
      → Classes g u ρ
      → Classes g' u ρ
  pub variables_eq :
      (i : ℕ) → get_elem? g'.versions.variables i ≡ moved child p (get_elem? g.versions.variables i)

module _ (g : EGraph) (child p : ℕ) (cs ps : VersionState) (t1 t2 : VersionTree) (out : List ℕ)
    (w : Wf g) (link : parent_in g.versions.nodes child ≡ some p)
    (read_c : get_elem? g.states child ≡ some cs) (read_p : get_elem? g.states p ≡ some ps)
    (o : Reowned g.versions t1 child p) (r : Removed t1 t2 child out) where
  abbrev collapsed : EGraph
  collapsed = record g {
    versions = t2;
    states = set (set g.states child default_state) p (absorb ps cs);
  }

  below : p < child
  below = w.shaped.parent_lt child p link

  parent_eq : (u : ℕ) → parent_in t2.nodes u ≡ parent_in g.versions.nodes u
  parent_eq u = r.parent_eq u ∙ o.same_shape.parent_eq u

  state_length : length collapsed.states ≡ length g.states
  state_length =
      length-set (set g.states child default_state) p (absorb ps cs)
      ∙ length-set g.states child default_state

  reads :
      (u : ℕ)
      → get_elem? collapsed.states u ≡ (
          if p == u
          then some (absorb ps cs)
          else if child == u
          then some default_state
          else get_elem? g.states u)
  reads u =
      get_elem?-set (set g.states child default_state) p (absorb ps cs) u
        (omega (arith, length-set g.states child default_state, get_elem?-lt g.states p read_p))
      ∙ ground
          (arith, get_elem?-set g.states child default_state u (get_elem?-lt g.states child read_c))

  other_reads : (u : ℕ) → p ≢ u → child ≢ u → get_elem? collapsed.states u ≡ get_elem? g.states u
  other_reads u np nc = ground (arith, reads u)

  old_chain : (u : ℕ) (chain : List ℕ) → Upward t2.nodes u chain → Upward g.versions.nodes u chain
  old_chain u chain =
      Upward-below (u + 1) r.shaped.parent_lt (λ x h. sym (parent_eq x)) (omega arith)

  -- Nothing above `p` changed.
  rest_view :
      (rest : List ℕ)
      → Upward g.versions.nodes p (p ∷ rest)
      → contains rest p ≡ false
      → view (λ s. s.parents) collapsed.states rest ≡ view (λ s. s.parents) g.states rest
  rest_view rest path out_p =
      view-agree (λ s. s.parents) g.states collapsed.states rest
        (λ x found.
          let above : Above g.versions.nodes x p = (Upward-Above path x).0 (ground arith) in
          let le = Above-le w.shaped above in
          other_reads x (λ e. ground arith) (omega (arith, below)))

  parent_view :
      (chain : List ℕ)
      → Upward g.versions.nodes p chain
      → parents_along collapsed chain ≡ parents_along g (child ∷ chain)
  unfolding absorb
  parent_view chain path =
      let (rest, q, out_p) = Upward-head w.shaped path in
      let same = rest_view rest (rw q at path) out_p in
      let read : get_elem? collapsed.states p ≡ some (absorb ps cs) =
        ground (arith, reads p, ==_self p) in
      rw (q, read_c, read_p, read, same)
        (append_assoc cs.parents ps.parents (view (λ s. s.parents) g.states rest))

  collapsed-Collapsed : Collapsed g collapsed child p
  collapsed-Collapsed = record {
    wf = record {
      shaped = r.shaped;
      same_length = state_length ∙ w.same_length ∙ sym (r.length_eq ∙ o.same_shape.length_eq);
    };
    dead = r.dead child here;
    inherited = λ ρ classes chain path.
        let path' = old_chain p chain path in
        rw (parent_view chain path') (classes (child ∷ chain) (step link path'));
    others = λ u ρ live apart classes chain path.
        let path' = old_chain u chain path in
        let same =
          view-agree (λ s. s.parents) g.states collapsed.states chain
            (λ x found.
              other_reads x
                (λ e. apart (
                  subst (λ y. Above g.versions.nodes y u) (sym e) ((Upward-Above path' x).0 found)))
                (λ e.
                  let alive = Above-live r.shaped.linked ((Upward-Above path x).0 found) live in
                  let gone = r.dead child here in cc)) in
        rw same (classes chain path');
    variables_eq = λ i. ap (λ vs. get_elem? vs i) r.same_variables ∙ o.variables_eq i;
  }

-- The assertions of `collapse_into`.
module _ (t : VersionTree) (child p : ℕ) (live : is_live t child ≡ true)
    (link : parent_in t.nodes child ≡ some p) where
  reads_parent : parent_of t child ≡ ok (some p)
  unfolding parent_of
  reads_parent = ground arith

  reads_leaf : children_in t.nodes child ≡ [] → is_leaf t child ≡ ok true
  unfolding is_leaf
  reads_leaf leaf = ground arith

reads_children :
    (t : VersionTree) (v : ℕ) (cs : List ℕ)
    → is_live t v ≡ true
    → children_in t.nodes v ≡ cs
    → children_of t v ≡ ok cs
unfolding children_of
reads_children t v cs live e = ground arith

-- In a well-formed graph whose variable tables agree, a live leaf collapses into its parent if it is
-- the only child: the call returns the child's revision and its wakes, sorted; the child dies, the
-- parent sees the child's classes and owns its variables, the live versions that do not see the
-- parent keep their classes, and the graph stays well formed.
pub collapse_into-Collapsed :
    (g : EGraph) (child p : ℕ) (state : VersionState)
    → Wf g
    → Owning g.versions
    → is_live g.versions child ≡ true
    → parent_in g.versions.nodes child ≡ some p
    → children_in g.versions.nodes child ≡ []
    → children_in g.versions.nodes p ≡ child ∷ []
    → get_elem? g.states child ≡ some state
    → (g' : EGraph) × (collapse_into g child p
        ≡ ok (g', record { wakes = sort state.wakes; semantic_revision = state.semantic_revision }))
      × Collapsed g g' child p
unfolding collapse_into
collapse_into-Collapsed g child p cs w own live link leaf only read_c =
    let lt = w.shaped.parent_lt child p link in
    let live_p = w.shaped.parent_live child p live link in
    let (ps, read_p) = live-state g p w live_p in
    let (t1, run1, o) = reown_variables-Reowned g.versions child p w.shaped own live link in
    let live1 : is_live t1 child ≡ true = o.same_shape.live_eq child ∙ live in
    let (t2, out, run2, r) =
      remove-Removed t1 child (SameShape-Shaped o.same_shape w.shaped) live1 (omega arith) in
    let read' : get_elem? (set g.states child default_state) p ≡ some ps =
      ground (
        arith,
        get_elem?-set g.states child default_state p (get_elem?-lt g.states child read_c),
      ) in
    (
      collapsed g child p cs ps t1 t2 out w link read_c read_p o r,
      rw
          (
            live,
            live_p,
            reads_parent g.versions child p live link,
            ==_self p,
            reads_leaf g.versions child p live link leaf,
            reads_children g.versions p (child ∷ []) live_p only,
            ==_self child,
            read_c,
            read',
            run1,
            run2,
          )
          refl,
      collapsed-Collapsed g child p cs ps t1 t2 out w link read_c read_p o r,
    )
