-- ===== src/EGraph/Find.antt =====
-- `find` of crates/sage-ir/src/check/infer/egraph.rs as a walk in the parents that a version sees.
use sage_dev.Prelude.{
  ℕ, zero, suc, ◌+◌, ◌<◌, ◌≡◌, ◌∙◌, refl, true, none, some, List, [], ◌∷◌, ◌++◌, arith, length,
  length-append, get_elem?, get_elem?-some, ok, lookup, lookup-append,
}
use sage_dev.Version.Tree.{VersionNode, live_in, is_live}
use sage_dev.Version.Tree
use sage_dev.Version.Tree.Wf.{Shaped}
use sage_dev.Version.Tree.Reads.{live_in-lt}
use sage_dev.Version.Tree.Ancestry.{Upward, top, step, ancestors-Upward}
use sage_dev.EGraph.{EGraph, VersionState, nearest, get_parent, parent_bindings, find_loop, find}
use sage_dev.EGraph.Forest.{parent, Forest, chase, chase-root}

-- A well-formed version tree with a state for each version.
pub record Wf (g : EGraph) : Type 0 where
  pub shaped : Shaped g.versions.nodes
  pub same_length : length g.states ≡ length g.versions.nodes

-- The bindings that a chain of versions sees, the nearest first.
abbrev pub view {ℓ} :
    {V : Type ℓ} → (VersionState → List (ℕ × V)) → List VersionState → List ℕ → List (ℕ × V)
view field states [] = []
view field states (v ∷ rest) =
    elim (get_elem? states v) [ none ↦ [] | some state ↦ field state ] ++ view field states rest

abbrev pub InRange : ℕ → List ℕ → Type 0
InRange n [] = Unit {0}
InRange n (v ∷ rest) = (v < n) × InRange n rest

pub nearest-view {ℓ} :
    {V : Type ℓ} (field : VersionState → List (ℕ × V)) (states : List VersionState) (chain : List ℕ)
    (key : ℕ)
    → InRange (length states) chain
    → nearest field states chain key ≡ ok (lookup key (view field states chain))
unfolding nearest
nearest-view field states [] key h = refl
nearest-view field states (v ∷ rest) key h =
    let (state, read) = get_elem?-some states v h.0 in
    ground (
      arith,
      nearest-view field states rest key h.1,
      lookup-append key (field state) (view field states rest),
    )

pub Upward-InRange :
    {nodes : List VersionNode} {v : ℕ} {l : List ℕ} (n : ℕ)
    → Shaped nodes
    → v < n
    → Upward nodes v l
    → InRange n l
Upward-InRange n s lt (top e) = (lt, tt)
Upward-InRange n s lt (step {v} {p} e c) =
    (lt, Upward-InRange n s (omega (arith, s.parent_lt v p e)) c)

pub length-view :
    (states : List VersionState) (chain : List ℕ)
    → length (view (λ s. s.parents) states chain) ≡ parent_bindings states chain
unfolding parent_bindings
length-view states [] = refl
length-view states (v ∷ rest) =
    elim (get_elem? states v)
      as (λ o.
        length
          (elim o [ none ↦ [] | some state ↦ state.parents ] ++ view (λ s. s.parents) states rest)
        ≡ elim o [ none ↦ 0 | some state ↦ length state.parents ] + parent_bindings states rest) [
          | none ↦ omega (arith, length-view states rest)
          | some state ↦ omega (
            arith,
            length-view states rest,
            length-append state.parents (view (λ s. s.parents) states rest),
          )
        ]

-- The parents that version `v` sees, along its chain of ancestors.
abbrev pub parents_along : EGraph → List ℕ → List (ℕ × ℕ)
parents_along g chain = view (λ s. s.parents) g.states chain

-- `ρ` names the root of every class that version `v` sees.
abbrev pub Classes : EGraph → ℕ → (ℕ → ℕ) → Type 0
Classes g v ρ =
    (chain : List ℕ) → Upward g.versions.nodes v chain → Forest (parents_along g chain) ρ

module _ (g : EGraph) (v : ℕ) (w : Wf g) (live : is_live g.versions v ≡ true) where
  pub chain_InRange :
      (chain : List ℕ) → Upward g.versions.nodes v chain → InRange (length g.states) chain
  chain_InRange chain up =
      Upward-InRange (length g.states) w.shaped
        (omega (arith, w.same_length, live_in-lt g.versions.nodes v live)) up

  module _ (chain : List ℕ) (found : Tree.ancestors g.versions v ≡ ok chain)
      (up : Upward g.versions.nodes v chain) where
    pub get_parent_lem : (p : ℕ) → get_parent g v p ≡ ok (parent (parents_along g chain) p)
    unfolding get_parent
    get_parent_lem p =
        rw (found, nearest-view (λ s. s.parents) g.states chain p (chain_InRange chain up)) refl

    find_loop-chase : (f p : ℕ) → find_loop f g v p ≡ chase f (parents_along g chain) p
    unfolding find_loop chase
    find_loop-chase zero p = refl
    find_loop-chase (suc f) p =
        ground (arith, get_parent_lem p, find_loop-chase f (parent (parents_along g chain) p))

    find_along : (ρ : ℕ → ℕ) (p : ℕ) → Forest (parents_along g chain) ρ → find g v p ≡ ok (ρ p)
    unfolding find
    find_along ρ p forest =
        rw (live, found, ← length-view g.states chain)
          (find_loop-chase (suc (length (parents_along g chain))) p
            ∙ chase-root (parents_along g chain) ρ p forest)

  -- In a live version of a well-formed graph in which every class has a root, `find` returns, with
  -- the root of the class.
  pub find-root : (ρ : ℕ → ℕ) (p : ℕ) → Classes g v ρ → find g v p ≡ ok (ρ p)
  find-root ρ p classes =
      let (chain, found, up) = ancestors-Upward g.versions v w.shaped live in
      find_along chain found up ρ p (classes chain up)
