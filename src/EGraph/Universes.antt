-- ===== src/EGraph/Universes.antt =====
-- `lower_universe` and `current_universe` of crates/sage-ir/src/check/infer/egraph.rs.
use sage_dev.Prelude.{
  ℕ, ◌≡◌, ◌≢◌, ◌∙◌, ap, sym, refl, inl, inr, true, false, not, Bool-cases, Option, none, some, List,
  [], ◌∷◌, ◌++◌, ==_self, ==_ne, arith, leb, length, length-set, get_elem?, get_elem?-lt,
  get_elem?-set, set, insert, lookup, ok, if◌then◌else◌,
}
use sage_dev.Version.Tree.{VarInfo, assert_mutable, get_variable}
use sage_dev.Version.Tree
use sage_dev.Version.Tree.Ancestry.{Upward, ancestors-Upward}
use sage_dev.EGraph.{EGraph, VersionState, current_universe, marked, mark_semantic_change}
use sage_dev.EGraph.Facts.{lower_universe}
use sage_dev.EGraph.Find.{Wf, view, InRange, nearest-view, chain_InRange}
use sage_dev.EGraph.Kept.{Same, view-Same}
use sage_dev.EGraph.Writes.{Upward-head, live-state, mutable_live, write, append_assoc, view-else}

-- What a version sees of any map after a write to its state.
pub view-write {ℓ} :
    {V : Type ℓ} (field : VersionState → List (ℕ × V)) (g : EGraph) (v : ℕ)
    (old state : VersionState) (added : List (ℕ × V)) (chain : List ℕ)
    → Wf g
    → get_elem? g.states v ≡ some old
    → field state ≡ added ++ field old
    → Upward g.versions.nodes v chain
    → view field (set g.states v state) chain ≡ added ++ view field g.states chain
view-write field g v old state added chain w read e up =
    let (rest, q, out) = Upward-head w.shaped up in
    let below =
      view-else field g.states (set g.states v state) v rest
        (λ u ne. ground (arith, get_elem?-set g.states v state u (get_elem?-lt g.states v read)))
        out in
    let fresh : get_elem? (set g.states v state) v ≡ some state =
      ground (arith, get_elem?-set g.states v state v (get_elem?-lt g.states v read), ==_self v) in
    rw (q, fresh, read, below, e) (append_assoc added (field old) (view field g.states rest))

-- The universe of a variable as a chain of versions shows it.
abbrev universe_in : EGraph → List ℕ → ℕ → ℕ → ℕ
universe_in g chain creation index =
    elim (lookup index (view (λ s. s.universe_ceilings) g.states chain)) [
      | none ↦ creation
      | some universe ↦ universe
    ]

module _ (g : EGraph) (v : ℕ) (chain : List ℕ) (w : Wf g)
    (found : Tree.ancestors g.versions v ≡ ok chain) (range : InRange (length g.states) chain) where
  current_universe-view :
      (index : ℕ) (info : VarInfo)
      → get_variable g.versions v index ≡ ok info
      → current_universe g v index ≡ ok (universe_in g chain info.creation_universe index)
  unfolding current_universe
  current_universe-view index info known =
      rw (known, found, nearest-view (λ s. s.universe_ceilings) g.states chain index range) refl

abbrev lowering : VersionState → ℕ → ℕ → VersionState
lowering state index ceiling = record state {
  universe_ceilings = insert index ceiling state.universe_ceilings;
}

-- The state after a successful lowering.
abbrev lowered : EGraph → ℕ → VersionState → ℕ → ℕ → EGraph
lowered g v state index ceiling =
    write (write g v (lowering state index ceiling)) v
      (marked (some index) (lowering state index ceiling))

pub mark-run :
    (g : EGraph) (v : ℕ) (state : VersionState) (wake : Option ℕ)
    → get_elem? g.states v ≡ some state
    → mark_semantic_change g v wake ≡ ok (write g v (marked wake state))
unfolding mark_semantic_change
mark-run g v state wake read = rw read refl

module _ (g : EGraph) (v : ℕ) (state : VersionState) (index ceiling : ℕ) (w : Wf g)
    (read : get_elem? g.states v ≡ some state) where
  middle_read :
      get_elem? (set g.states v (lowering state index ceiling)) v
      ≡ some (lowering state index ceiling)
  middle_read = ground (
    arith,
    get_elem?-set g.states v (lowering state index ceiling) v (get_elem?-lt g.states v read),
    ==_self v,
  )

  middle-Wf : Wf (write g v (lowering state index ceiling))
  middle-Wf = record {
    shaped = w.shaped;
    same_length = length-set g.states v (lowering state index ceiling) ∙ w.same_length;
  }

  lowered-Wf : Wf (lowered g v state index ceiling)
  lowered-Wf = record {
    shaped = w.shaped;
    same_length =
        length-set (set g.states v (lowering state index ceiling)) v
          (marked (some index) (lowering state index ceiling))
        ∙ middle-Wf.same_length;
  }

  view-lowered :
      (chain : List ℕ)
      → Upward g.versions.nodes v chain
      → view (λ s. s.universe_ceilings) (lowered g v state index ceiling).states chain
        ≡ (index, ceiling) ∷ view (λ s. s.universe_ceilings) g.states chain
  view-lowered chain up =
      view-write (λ s. s.universe_ceilings) (write g v (lowering state index ceiling)) v
        (lowering state index ceiling) (marked (some index) (lowering state index ceiling)) [] chain
        middle-Wf middle_read refl up
      ∙ view-write (λ s. s.universe_ceilings) g v state (lowering state index ceiling)
          ((index, ceiling) ∷ []) chain w read refl up

  module _ (info : VarInfo) (u : ℕ) (mutable : assert_mutable g.versions v ≡ ok tt)
      (known : get_variable g.versions v index ≡ ok info)
      (now : current_universe g v index ≡ ok u) where
    lower_kept : leb u ceiling ≡ true → lower_universe g v index ceiling ≡ ok (g, false)
    unfolding lower_universe
    lower_kept low = ground arith

    lower_down :
        leb u ceiling ≡ false
        → lower_universe g v index ceiling ≡ ok (lowered g v state index ceiling, true)
    unfolding lower_universe
    lower_down high =
        let marks =
          mark-run (write g v (lowering state index ceiling)) v (lowering state index ceiling)
            (some index) middle_read in
        ground (arith, middle_read)

-- A graph that shows the same ceilings has the same universes.
pub current_universe-Same :
    (g g' : EGraph) (v index : ℕ) (info : VarInfo)
    → Wf g
    → Wf g'
    → assert_mutable g.versions v ≡ ok tt
    → get_variable g.versions v index ≡ ok info
    → Same (λ s. s.universe_ceilings) g g'
    → current_universe g' v index ≡ current_universe g v index
current_universe-Same g g' v index info w w' mutable known same =
    let live = mutable_live g v mutable in
    let live' : Tree.is_live g'.versions v ≡ true = rw same.versions_eq live in
    let (chain, found, up) = ancestors-Upward g.versions v w.shaped live in
    let found' : Tree.ancestors g'.versions v ≡ ok chain = rw same.versions_eq found in
    let up' : Upward g'.versions.nodes v chain = rw same.versions_eq up in
    let known' : get_variable g'.versions v index ≡ ok info = rw same.versions_eq known in
    current_universe-view g' v chain w' found' (chain_InRange g' v w' live' chain up') index info
      known'
    ∙ rw (universe_in, view-Same (λ s. s.universe_ceilings) g g' chain same) refl
    ∙ sym (
        current_universe-view g v chain w found (chain_InRange g v w live chain up) index info
          known)

-- In a mutable version of a well-formed graph that sees a variable, `lower_universe` returns, says
-- whether it lowered the variable's universe, leaves the lower of the universe and the ceiling as the
-- variable's universe, and the universe of every other variable as it was.
pub lower_universe-lowers :
    (g : EGraph) (v index ceiling : ℕ) (info : VarInfo)
    → Wf g
    → assert_mutable g.versions v ≡ ok tt
    → get_variable g.versions v index ≡ ok info
    → (u : ℕ) × (g' : EGraph) × (current_universe g v index ≡ ok u)
      × (lower_universe g v index ceiling ≡ ok (g', not (leb u ceiling)))
      × Wf g'
      × (current_universe g' v index ≡ ok (if leb u ceiling then u else ceiling))
      × ((j : ℕ) (other : VarInfo)
          → index ≢ j
          → get_variable g.versions v j ≡ ok other
          → current_universe g' v j ≡ current_universe g v j)
lower_universe-lowers g v index ceiling info w mutable known =
    let live = mutable_live g v mutable in
    let (state, read) = live-state g v w live in
    let (chain, found, up) = ancestors-Upward g.versions v w.shaped live in
    let range = chain_InRange g v w live chain up in
    let u : ℕ = universe_in g chain info.creation_universe index in
    let now = current_universe-view g v chain w found range index info known in
    let g' : EGraph = lowered g v state index ceiling in
    let w' : Wf g' = lowered-Wf g v state index ceiling w read in
    let range' : InRange (length g'.states) chain = chain_InRange g' v w' live chain up in
    let seen = view-lowered g v state index ceiling w read chain up in
    elim (Bool-cases (leb u ceiling)) [
      | inl low ↦ (
        u,
        g,
        now,
        rw low (lower_kept g v state index ceiling w read info u mutable known now low),
        w,
        rw low now,
        λ j other ne at. refl,
      )
      | inr high ↦ (
        u,
        g',
        now,
        rw high (lower_down g v state index ceiling w read info u mutable known now high),
        w',
        rw high (
            current_universe-view g' v chain w' found range' index info known
            ∙ ap ok (rw (universe_in, seen, ==_self index) refl)),
        λ j other ne at.
            current_universe-view g' v chain w' found range' j other at
            ∙ ap ok (rw (universe_in, seen, ==_ne index j ne) refl)
            ∙ sym (current_universe-view g v chain w found range j other at),
      )
    ]
