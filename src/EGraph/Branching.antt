-- ===== src/EGraph/Branching.antt =====
-- `branch_from` of crates/sage-ir/src/check/infer/egraph.rs: what the new version sees.
use sage_dev.Prelude.{
  ℕ, ◌^◌, ◌<◌, ◌≡◌, ◌∙◌, sym, refl, true, some, List, [], ◌∷◌, ◌++◌, ◌==◌, ==_self, ==_iff, arith,
  get_elem?, get_elem?-append_left, get_elem?-append_end, length, length-append, ok,
}
use sage_dev.Version.Tree.{VersionTree, is_live}
use sage_dev.Version.Tree.Wf.{Shaped, parent_in}
use sage_dev.Version.Tree.Reads.{live_in-lt}
use sage_dev.Version.Tree.Branch.{Branched, branch_from-Branched}
use sage_dev.Version.Tree.Shape.{Branched-Shaped}
use sage_dev.Version.Tree.Ancestry.{Upward}
use sage_dev.EGraph.{EGraph, VersionState, default_state, semantic_revision}
use sage_dev.EGraph.Lifecycle.{branch_from}
use sage_dev.EGraph.Find.{Wf, view, InRange, Upward-InRange, parents_along, Classes}
use sage_dev.EGraph.Writes.{live-state}
use sage_dev.EGraph.Chains.{Upward-below, Upward-step}

-- A branch of `parent`: the child is the next version and sees what its parent sees, and every older
-- version keeps its state and sees what it saw.
pub record Forked (g g' : EGraph) (parent child : ℕ) : Type 0 where
  pub wf : Wf g'
  pub fresh : child ≡ length g.versions.nodes
  pub tree : Branched g.versions g'.versions parent child
  pub live : is_live g'.versions child ≡ true
  pub inherited : (ρ : ℕ → ℕ) → Classes g parent ρ → Classes g' child ρ
  pub placeholders_eq : g'.placeholder_universes ≡ g.placeholder_universes
  pub variables_eq : g'.versions.variables ≡ g.versions.variables
  pub parent_eq : parent_in g'.versions.nodes child ≡ some parent
  pub older_live :
      (u : ℕ) → u < length g.versions.nodes → is_live g'.versions u ≡ is_live g.versions u
  pub older_states :
      (u : ℕ) → u < length g.versions.nodes → get_elem? g'.states u ≡ get_elem? g.states u
  pub older : (u : ℕ) (ρ : ℕ → ℕ) → u < length g.versions.nodes → Classes g u ρ → Classes g' u ρ

view-append :
    (states : List VersionState) (extra : VersionState) (chain : List ℕ)
    → InRange (length states) chain
    → view (λ s. s.parents) (states ++ extra ∷ []) chain ≡ view (λ s. s.parents) states chain
view-append states extra [] h = refl
view-append states extra (u ∷ rest) h =
    rw (get_elem?-append_left states (extra ∷ []) u h.0, view-append states extra rest h.1) refl

module _ (g : EGraph) (t' : VersionTree) (parent child revision : ℕ) (w : Wf g)
    (live : is_live g.versions parent ≡ true) (b : Branched g.versions t' parent child) where
  abbrev forked : EGraph
  forked = record g {
    versions = t';
    states = g.states ++ record default_state { semantic_revision = revision } ∷ [];
  }

  shaped : Shaped t'.nodes
  shaped = Branched-Shaped b w.shaped live

  older_chain :
      (u : ℕ) (chain : List ℕ)
      → u < length g.versions.nodes
      → Upward t'.nodes u chain
      → Upward g.versions.nodes u chain
  older_chain u chain lt =
      Upward-below (length g.versions.nodes) shaped.parent_lt
        (λ x h. ground (arith, b.fresh, b.parent_eq x)) lt

  older_view :
      (u : ℕ) (chain : List ℕ)
      → u < length g.versions.nodes
      → Upward g.versions.nodes u chain
      → parents_along forked chain ≡ parents_along g chain
  older_view u chain lt up =
      view-append g.states (record default_state { semantic_revision = revision }) chain
        (Upward-InRange (length g.states) w.shaped (omega (arith, w.same_length)) up)

  older_Classes :
      (u : ℕ) (ρ : ℕ → ℕ) → u < length g.versions.nodes → Classes g u ρ → Classes forked u ρ
  older_Classes u ρ lt classes chain up =
      let up' = older_chain u chain lt up in rw (older_view u chain lt up') (classes chain up')

  child_Classes : (ρ : ℕ → ℕ) → Classes g parent ρ → Classes forked child ρ
  child_Classes ρ classes chain up =
      let above : parent_in t'.nodes child ≡ some parent =
        ground (arith, b.parent_eq child, ==_self child) in
      let (rest, q, up') = Upward-step above up in
      let lt = live_in-lt g.versions.nodes parent live in
      let up'' = older_chain parent rest lt up' in
      let at_end : child ≡ length g.states = b.fresh ∙ sym w.same_length in
      rw
        (
          q,
          at_end,
          get_elem?-append_end g.states (record default_state { semantic_revision = revision }),
          older_view parent rest lt up'',
        )
        (classes rest up'')

  forked-Forked : Forked g forked parent child
  forked-Forked = record {
    wf = record {
      shaped = shaped;
      same_length =
          length-append g.states (record default_state { semantic_revision = revision } ∷ [])
          ∙ omega (arith, w.same_length, b.grown);
    };
    fresh = b.fresh;
    tree = b;
    live = ground (arith, b.live_eq child, ==_self child);
    inherited = child_Classes;
    placeholders_eq = refl;
    variables_eq = b.same_variables;
    parent_eq = ground (arith, b.parent_eq child, ==_self child);
    older_live = λ u lt. ground (arith, b.live_eq u, b.fresh);
    older_states = λ u lt.
        get_elem?-append_left g.states (record default_state { semantic_revision = revision } ∷ [])
          u (omega (arith, w.same_length));
    older = older_Classes;
  }

-- Branching from a live version of a well-formed graph returns while the version counter has room:
-- the child is a fresh live version with the classes of its parent, every older version keeps its
-- classes, and the graph stays well formed.
pub branch_from-Forked :
    (g : EGraph) (parent : ℕ)
    → Wf g
    → is_live g.versions parent ≡ true
    → length g.versions.nodes < 2 ^ 32
    → (g' : EGraph) × (branch_from g parent ≡ ok (g', length g.versions.nodes))
      × Forked g g' parent (length g.versions.nodes)
unfolding branch_from semantic_revision
branch_from-Forked g parent w live room =
    let (state, read) = live-state g parent w live in
    let n : ℕ = length g.versions.nodes in
    let (t', run, b) = branch_from-Branched g.versions parent live room in
    let at_end : (n == length g.states) ≡ true =
      (==_iff n (length g.states)).1 (sym w.same_length) in
    (
      forked g t' parent n state.semantic_revision w live b,
      rw (live, read, run, at_end) refl,
      forked-Forked g t' parent n state.semantic_revision w live b,
    )
