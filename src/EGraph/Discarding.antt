-- ===== src/EGraph/Discarding.antt =====
-- `discard` of crates/sage-ir/src/check/infer/egraph.rs: what the surviving versions see.
use sage_dev.Prelude.{
  ℕ, ◌+◌, ◌<◌, ◌≡◌, ◌≢◌, ◌∙◌, sym, refl, inl, inr, true, false, Bool-cases, some, List, [], ◌∷◌,
  ==_self, arith, get_elem?, get_elem?-some, get_elem?-set, set, contains, length, length-set, ok,
}
use sage_dev.Version.Tree.{VersionNode, VersionTree, is_live}
use sage_dev.Version.Tree.Wf.{Above, Above-trans, here, up}
use sage_dev.Version.Tree.Shape.{parent_in-lt}
use sage_dev.Version.Tree.Reads.{live_in-lt}
use sage_dev.Version.Tree.Discard.{Removed, remove-Removed}
use sage_dev.Version.Tree.Ancestry.{Upward, Upward-Above}
use sage_dev.EGraph.{EGraph, VersionState, default_state}
use sage_dev.EGraph.Lifecycle.{reset_states, discard}
use sage_dev.EGraph.Find.{Wf, parents_along, Classes}
use sage_dev.EGraph.Chains.{view-agree, Upward-below}

-- The loop over the removed versions.
reset_states_lem :
    (out : List ℕ) (states : List VersionState)
    → ((u : ℕ) → contains out u ≡ true → u < length states)
    → (states' : List VersionState) × (reset_states out states ≡ ok states')
      × (length states' ≡ length states)
      × ((u : ℕ) → contains out u ≡ false → get_elem? states' u ≡ get_elem? states u)
      × ((u : ℕ) → contains out u ≡ true → get_elem? states' u ≡ some default_state)
unfolding reset_states
reset_states_lem [] states h = (states, refl, refl, (λ u e. refl), (λ u e. cc))
reset_states_lem (v ∷ rest) states h =
    let lt : v < length states = h v (ground (arith, ==_self v)) in
    let (old, read) = get_elem?-some states v lt in
    let same_length = length-set states v default_state in
    let (states', run, len, keep, reset) =
      reset_states_lem rest (set states v default_state)
        (λ u e. let q : u < length states = h u (ground arith) in omega arith) in
    (
      states',
      rw read run,
      len ∙ same_length,
      λ u e. keep u (ground arith) ∙ ground (arith, get_elem?-set states v default_state u lt),
      λ u e. elim (Bool-cases (contains rest u)) [
        | inl again ↦ reset u again
        | inr last ↦ keep u last ∙ ground (arith, get_elem?-set states v default_state u lt)
      ],
    )

-- After `v` is discarded, it and the versions below it are dead with empty states, and whoever is
-- still live was live and keeps its state and the classes it saw.
pub record Discarded (g g' : EGraph) (v : ℕ) : Type 0 where
  pub wf : Wf g'
  pub out : List ℕ
  pub tree : Removed g.versions g'.versions v out
  pub dead : (u : ℕ) → Above g.versions.nodes v u → is_live g'.versions u ≡ false
  pub emptied :
      (u : ℕ)
      → is_live g.versions u ≡ true
      → Above g.versions.nodes v u
      → get_elem? g'.states u ≡ some default_state
  pub kept :
      (u : ℕ)
      → is_live g.versions u ≡ true
      → (Above g.versions.nodes v u → ⊥)
      → is_live g'.versions u ≡ true
  pub kept_states :
      (u : ℕ) → is_live g'.versions u ≡ true → get_elem? g'.states u ≡ get_elem? g.states u
  pub apart_states :
      (u : ℕ) → (Above g.versions.nodes v u → ⊥) → get_elem? g'.states u ≡ get_elem? g.states u
  pub unrevived : (u : ℕ) → is_live g'.versions u ≡ true → is_live g.versions u ≡ true
  pub variables_eq : g'.versions.variables ≡ g.versions.variables
  pub placeholders_eq : g'.placeholder_universes ≡ g.placeholder_universes
  pub survivors :
      (u : ℕ) (ρ : ℕ → ℕ) → is_live g'.versions u ≡ true → Classes g u ρ → Classes g' u ρ

Above-lt :
    {nodes : List VersionNode} {v u : ℕ} → v < length nodes → Above nodes v u → u < length nodes
Above-lt lt here = lt
Above-lt {nodes} lt (up {v = u} {p} e rest) = parent_in-lt nodes u p e

module _ (g : EGraph) (v : ℕ) (t' : VersionTree) (out : List ℕ) (states : List VersionState)
    (w : Wf g) (r : Removed g.versions t' v out) (len : length states ≡ length g.states)
    (keep : (u : ℕ) → contains out u ≡ false → get_elem? states u ≡ get_elem? g.states u)
    (reset : (u : ℕ) → contains out u ≡ true → get_elem? states u ≡ some default_state) where
  abbrev discarded : EGraph
  discarded = record g { versions = t'; states = states }

  survivor_view :
      (u : ℕ) (chain : List ℕ)
      → is_live t' u ≡ true
      → Upward g.versions.nodes u chain
      → parents_along discarded chain ≡ parents_along g chain
  survivor_view u chain live path =
      view-agree (λ s. s.parents) g.states states chain
        (λ x found. elim (Bool-cases (contains out x)) [
          | inl gone ↦
              let above = Above-trans (r.reported x gone) ((Upward-Above path x).0 found) in
              absurd (let dead = r.dead u above in cc)
          | inr stays ↦ keep x stays
        ])

  discarded-Discarded : Discarded g discarded v
  discarded-Discarded = record {
    wf = record { shaped = r.shaped; same_length = len ∙ w.same_length ∙ sym r.length_eq };
    out = out;
    tree = r;
    dead = r.dead;
    emptied = λ u live above. reset u (r.complete u live above);
    kept = λ u live apart. elim (r.kept u) [
      | inl same ↦ same ∙ live
      | inr above ↦ absurd (apart above)
    ];
    kept_states = λ u live. elim (Bool-cases (contains out u)) [
      | inl gone ↦ absurd (let dead = r.dead u (r.reported u gone) in cc)
      | inr stays ↦ keep u stays
    ];
    apart_states = λ u apart. elim (Bool-cases (contains out u)) [
      | inl gone ↦ absurd (apart (r.reported u gone))
      | inr stays ↦ keep u stays
    ];
    unrevived = λ u live. elim (r.kept u) [
      | inl same ↦ sym same ∙ live
      | inr above ↦ absurd (let dead = r.dead u above in cc)
    ];
    variables_eq = r.same_variables;
    placeholders_eq = refl;
    survivors = λ u ρ live classes chain path.
        let path' : Upward g.versions.nodes u chain =
          Upward-below (u + 1) r.shaped.parent_lt (λ x h. sym (r.parent_eq x)) (omega arith) path in
        rw (survivor_view u chain live path') (classes chain path');
  }

-- Discarding a live version other than the root of a well-formed graph returns: exactly the versions
-- at or below it die, with empty states, every survivor sees the classes it saw, and the graph stays
-- well formed.
pub discard-Discarded :
    (g : EGraph) (v : ℕ)
    → Wf g
    → is_live g.versions v ≡ true
    → v ≢ 0
    → (g' : EGraph) × (discard g v ≡ ok g') × Discarded g g' v
unfolding discard
discard-Discarded g v w live ne =
    let (t', out, run, r) = remove-Removed g.versions v w.shaped live ne in
    let lt = live_in-lt g.versions.nodes v live in
    let (states, run', len, keep, reset) =
      reset_states_lem out g.states
        (λ u e. let below = Above-lt lt (r.reported u e) in omega (arith, w.same_length)) in
    (
      discarded g v t' out states w r len keep reset,
      rw (run, run') refl,
      discarded-Discarded g v t' out states w r len keep reset,
    )
