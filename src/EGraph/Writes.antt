-- ===== src/EGraph/Writes.antt =====
-- What a write to one version's state in crates/sage-ir/src/check/infer/egraph.rs does to the parents
-- that the versions see.
use sage_dev.Prelude.{
  ℕ, ◌≡◌, ◌≢◌, ◌∙◌, ap, sym, refl, inl, inr, true, false, Bool-cases, Option, some, List, [], ◌∷◌,
  ◌++◌, ◌==◌, ==_self, arith, length, length-set, get_elem?, get_elem?-some, get_elem?-lt,
  get_elem?-set, set, contains, ok, if◌then◌else◌,
}
use sage_dev.Version.Tree.{VersionNode, is_live, assert_mutable}
use sage_dev.Version.Tree.Wf.{Shaped, Above}
use sage_dev.Version.Tree.Reads.{live_in-lt}
use sage_dev.Version.Tree.Ancestry.{Upward, top, step, Upward-Above}
use sage_dev.Version.Tree.Owners.{assert_mutable_lem}
use sage_dev.EGraph.{EGraph, VersionState, set_parent, push_work, marked, mark_semantic_change}
use sage_dev.EGraph.Find.{Wf, view, InRange, Upward-InRange, parents_along, Classes}
use sage_dev.EGraph.Forest.{Forest}

-- Reading a list of states along a chain without the version that changed.
pub view-else {ℓ} :
    {V : Type ℓ} (field : VersionState → List (ℕ × V)) (states states' : List VersionState) (v : ℕ)
    (chain : List ℕ)
    → ((u : ℕ) → v ≢ u → get_elem? states' u ≡ get_elem? states u)
    → contains chain v ≡ false
    → view field states' chain ≡ view field states chain
view-else field states states' v [] same out = refl
view-else field states states' v (u ∷ rest) same out =
    let read : get_elem? states' u ≡ get_elem? states u = same u (ground arith) in
    rw (read, view-else field states states' v rest same (ground arith)) refl

InRange-out : (v : ℕ) (chain : List ℕ) → InRange v chain → contains chain v ≡ false
InRange-out v [] h = refl
InRange-out v (u ∷ rest) h = ground (arith, InRange-out v rest h.1)

-- A chain starts with its version and goes on below it.
pub Upward-head :
    {nodes : List VersionNode} {v : ℕ} {l : List ℕ}
    → Shaped nodes
    → Upward nodes v l
    → (rest : List ℕ) × (l ≡ v ∷ rest) × (contains rest v ≡ false)
Upward-head s (top e) = ([], refl, refl)
Upward-head s (step {v} {p} {rest} e c) =
    (rest, refl, InRange-out v rest (Upward-InRange v s (s.parent_lt v p e) c))

-- `g'` differs from `g` in the state of `v` alone, whose parents `added` now precede.
pub record Step (g g' : EGraph) (v : ℕ) (added : List (ℕ × ℕ)) : Type 0 where
  pub versions_eq : g'.versions ≡ g.versions
  pub length_eq : length g'.states ≡ length g.states
  pub others : (u : ℕ) → v ≢ u → get_elem? g'.states u ≡ get_elem? g.states u
  pub parents_eq :
      (chain : List ℕ)
      → Upward g.versions.nodes v chain
      → parents_along g' chain ≡ added ++ parents_along g chain

pub Step-Wf : {g g' : EGraph} {v : ℕ} {added : List (ℕ × ℕ)} → Step g g' v added → Wf g → Wf g'
Step-Wf {g} {g'} e w = record {
  shaped = rw e.versions_eq w.shaped;
  same_length = e.length_eq ∙ w.same_length ∙ ap (λ t. length t.nodes) (sym e.versions_eq);
}

pub append_assoc {ℓ} : {A : Type ℓ} (xs ys zs : List A) → (xs ++ ys) ++ zs ≡ xs ++ (ys ++ zs)
append_assoc [] ys zs = refl
append_assoc (x ∷ xs) ys zs = ap (◌∷◌ x) (append_assoc xs ys zs)

pub Step-trans :
    {g g' g'' : EGraph} {v : ℕ} {a b : List (ℕ × ℕ)}
    → Step g g' v a
    → Step g' g'' v b
    → Step g g'' v (b ++ a)
Step-trans {g} {g'} {g''} {v} {a} {b} e f = record {
  versions_eq = f.versions_eq ∙ e.versions_eq;
  length_eq = f.length_eq ∙ e.length_eq;
  others = λ u ne. f.others u ne ∙ e.others u ne;
  parents_eq = λ chain up.
      f.parents_eq chain (rw e.versions_eq up)
      ∙ ap (λ l. b ++ l) (e.parents_eq chain up)
      ∙ sym (append_assoc b a (parents_along g chain));
}

pub Step-refl : (g : EGraph) (v : ℕ) → Step g g v []
Step-refl g v = record {
  versions_eq = refl;
  length_eq = refl;
  others = λ u ne. refl;
  parents_eq = λ chain up. refl;
}

abbrev pub write : EGraph → ℕ → VersionState → EGraph
write g v state = record g { states = set g.states v state }

pub Step-write :
    (g : EGraph) (v : ℕ) (old state : VersionState) (added : List (ℕ × ℕ))
    → Wf g
    → get_elem? g.states v ≡ some old
    → state.parents ≡ added ++ old.parents
    → Step g (write g v state) v added
Step-write g v old state added w read e = record {
  versions_eq = refl;
  length_eq = length-set g.states v state;
  others = others_eq;
  parents_eq = λ chain up.
      let (rest, q, out) = Upward-head w.shaped up in
      let below = view-else (λ s. s.parents) g.states (set g.states v state) v rest others_eq out in
      let fresh : get_elem? (set g.states v state) v ≡ some state =
        ground (arith, reads v, ==_self v) in
      rw (q, fresh, read, below, e)
        (append_assoc added old.parents (view (λ s. s.parents) g.states rest));
}
  where
    reads :
        (u : ℕ)
        → get_elem? (set g.states v state) u ≡ (if v == u then some state else get_elem? g.states u)
    reads u = get_elem?-set g.states v state u (get_elem?-lt g.states v read)

    others_eq : (u : ℕ) → v ≢ u → get_elem? (set g.states v state) u ≡ get_elem? g.states u
    others_eq u ne = ground (arith, reads u)

-- A version that does not see `v` keeps its classes when only the state of `v` changes.
pub others-Classes :
    (g g' : EGraph) {v : ℕ} (u : ℕ) (ρ : ℕ → ℕ)
    → g'.versions ≡ g.versions
    → ((x : ℕ) → v ≢ x → get_elem? g'.states x ≡ get_elem? g.states x)
    → (Above g.versions.nodes v u → ⊥)
    → Classes g u ρ
    → Classes g' u ρ
others-Classes g g' {v} u ρ versions_eq others apart classes chain up =
    let up' : Upward g.versions.nodes u chain = rw versions_eq at up in
    let out : contains chain v ≡ false = elim (Bool-cases (contains chain v)) [
      | inl found ↦ absurd (apart ((Upward-Above up' v).0 found))
      | inr missing ↦ missing
    ] in
    let same = view-else (λ s. s.parents) g.states g'.states v chain others out in
    rw same (classes chain up')

pub Step-Classes :
    {g g' : EGraph} {v : ℕ} {added : List (ℕ × ℕ)} (u : ℕ) (ρ : ℕ → ℕ)
    → Step g g' v added
    → (Above g.versions.nodes v u → ⊥)
    → Classes g u ρ
    → Classes g' u ρ
Step-Classes {g} {g'} u ρ e = others-Classes g g' u ρ e.versions_eq e.others

-- The version itself sees the added parents.
pub Step-Forest :
    {g g' : EGraph} {v : ℕ} {added : List (ℕ × ℕ)} (ρ : ℕ → ℕ)
    → Step g g' v added
    → ((chain : List ℕ)
        → Upward g.versions.nodes v chain
        → Forest (added ++ parents_along g chain) ρ)
    → Classes g' v ρ
Step-Forest {g} {g'} {v} ρ e forest chain up =
    let up' : Upward g.versions.nodes v chain = rw e.versions_eq at up in
    rw (e.parents_eq chain up') (forest chain up')

-- A live version has a state.
pub live-state :
    (g : EGraph) (v : ℕ)
    → Wf g
    → is_live g.versions v ≡ true
    → (state : VersionState) × (get_elem? g.states v ≡ some state)
live-state g v w live =
    get_elem?-some g.states v (omega (arith, w.same_length, live_in-lt g.versions.nodes v live))

pub mutable_live :
    (g : EGraph) (v : ℕ) → assert_mutable g.versions v ≡ ok tt → is_live g.versions v ≡ true
mutable_live g v h = ground (arith, assert_mutable_lem g.versions v)

pub set_parent-Step :
    (g : EGraph) (v c r : ℕ)
    → Wf g
    → assert_mutable g.versions v ≡ ok tt
    → (g' : EGraph) × (set_parent g v c r ≡ ok g') × Step g g' v ((c, r) ∷ [])
unfolding set_parent
set_parent-Step g v c r w h =
    let (state, read) = live-state g v w (mutable_live g v h) in
    (
      write g v (record state { parents = (c, r) ∷ state.parents }),
      rw (h, read) refl,
      Step-write g v state (record state { parents = (c, r) ∷ state.parents }) ((c, r) ∷ []) w read
          refl,
    )

pub push_work-Step :
    (g : EGraph) (v p : ℕ)
    → Wf g
    → is_live g.versions v ≡ true
    → (g' : EGraph) × (push_work g v p ≡ ok g') × Step g g' v []
unfolding push_work
push_work-Step g v p w live =
    let (state, read) = live-state g v w live in
    (
      write g v (record state { worklist = state.worklist ++ p ∷ [] }),
      rw read refl,
      Step-write g v state (record state { worklist = state.worklist ++ p ∷ [] }) [] w read refl,
    )

pub mark-Step :
    (g : EGraph) (v : ℕ) (wake : Option ℕ)
    → Wf g
    → is_live g.versions v ≡ true
    → (g' : EGraph) × (mark_semantic_change g v wake ≡ ok g') × Step g g' v []
unfolding mark_semantic_change
mark-Step g v wake w live =
    let (state, read) = live-state g v w live in
    (
      write g v (marked wake state),
      rw read refl,
      Step-write g v state (marked wake state) [] w read refl,
    )
