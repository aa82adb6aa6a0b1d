-- ===== src/Version/Tree/Wf.antt =====
-- When the node table of a version tree is well formed, and the order of its versions.
use sage_dev.Prelude.{
  ℕ, zero, suc, ◌≤◌, ◌<◌, ◌≡◌, ◌∙◌, length-set, refl, sym, true, Option, none, some, List, [], ◌∷◌,
  arith, length, get_elem?, set, get_elem?-set, get_elem?-lt, contains, ◌⊎◌, inl, inr,
}
use sage_dev.Version.Tree.{VersionNode, live_in, new, root_node}

-- What a version's node says, with a default out of range.
abbrev pub parent_in : List VersionNode → ℕ → Option ℕ
parent_in nodes v = elim (get_elem? nodes v) [ none ↦ none | some node ↦ node.parent ]

abbrev pub children_in : List VersionNode → ℕ → List ℕ
children_in nodes v = elim (get_elem? nodes v) [ none ↦ [] | some node ↦ node.children ]

abbrev pub owned_in : List VersionNode → ℕ → List ℕ
owned_in nodes v = elim (get_elem? nodes v) [ none ↦ [] | some node ↦ node.owned_variables ]

-- `Above nodes a v`: going up from `v` reaches `a`.
pub data Above (nodes : List VersionNode) (a : ℕ) : ℕ → Type 0 where
  here : Above nodes a a
  up : {v p : ℕ} → parent_in nodes v ≡ some p → Above nodes a p → Above nodes a v

-- Parents have smaller numbers, a live version's parent is live and lists it, and whatever a version
-- lists points back to it.
pub record Linked (nodes : List VersionNode) : Type 0 where
  pub parent_lt : (v p : ℕ) → parent_in nodes v ≡ some p → p < v
  pub parent_live :
      (v p : ℕ) → live_in nodes v ≡ true → parent_in nodes v ≡ some p → live_in nodes p ≡ true
  pub listed :
      (v p : ℕ)
      → live_in nodes v ≡ true
      → parent_in nodes v ≡ some p
      → contains (children_in nodes p) v ≡ true
  pub child : (v c : ℕ) → contains (children_in nodes v) c ≡ true → parent_in nodes c ≡ some v

-- Besides, version 0 is live and is the only one with no parent.
pub record Shaped (nodes : List VersionNode) : Type 0 where
  pub root_live : live_in nodes 0 ≡ true
  pub root_parent : parent_in nodes 0 ≡ none
  pub rooted : (v : ℕ) → v < length nodes → parent_in nodes v ≡ none → v ≡ 0
  pub linked : Linked nodes
  pub open linked use *

pub new-Shaped : Shaped new.nodes
unfolding new
new-Shaped = record {
  root_live = refl;
  root_parent = refl;
  rooted = λ v h e. omega arith;
  linked = record {
    parent_lt = λ v p e. absurd (single_parent v p e);
    parent_live = λ v p l e. absurd (single_parent v p e);
    listed = λ v p l e. absurd (single_parent v p e);
    child = λ v c e. absurd (single_children v c e);
  };
}
  where
    single_parent : (v p : ℕ) → parent_in (root_node ∷ []) v ≡ some p → ⊥
    single_parent zero p e = cc
    single_parent (suc v) p e = cc

    single_children : (v c : ℕ) → contains (children_in (root_node ∷ []) v) c ≡ true → ⊥
    single_children zero c e = cc
    single_children (suc v) c e = cc

-- Two tables that tell the same about every version.
pub record SameShape (nodes nodes' : List VersionNode) : Type 0 where
  pub length_eq : length nodes' ≡ length nodes
  pub live_eq : (v : ℕ) → live_in nodes' v ≡ live_in nodes v
  pub parent_eq : (v : ℕ) → parent_in nodes' v ≡ parent_in nodes v
  pub children_eq : (v : ℕ) → children_in nodes' v ≡ children_in nodes v

pub SameShape-Shaped : {m n : List VersionNode} → SameShape m n → Shaped m → Shaped n
SameShape-Shaped {m} {n} e s = record {
  root_live = e.live_eq 0 ∙ s.root_live;
  root_parent = e.parent_eq 0 ∙ s.root_parent;
  rooted = λ v h k. s.rooted v (omega (arith, e.length_eq)) (sym (e.parent_eq v) ∙ k);
  linked = record {
    parent_lt = λ v p h. s.parent_lt v p (sym (e.parent_eq v) ∙ h);
    parent_live = λ v p l h.
        e.live_eq p ∙ s.parent_live v p (sym (e.live_eq v) ∙ l) (sym (e.parent_eq v) ∙ h);
    listed = λ v p l h.
        rw (e.children_eq p) (s.listed v p (sym (e.live_eq v) ∙ l) (sym (e.parent_eq v) ∙ h));
    child = λ v c h. e.parent_eq c ∙ s.child v c (rw (e.children_eq v) at h);
  };
}

pub Above-le : {nodes : List VersionNode} {a v : ℕ} → Shaped nodes → Above nodes a v → a ≤ v
Above-le s here = omega arith
Above-le s (up {v} {p} e rest) = omega (arith, Above-le s rest, s.parent_lt v p e)

pub Above-trans :
    {nodes : List VersionNode} {a b c : ℕ} → Above nodes a b → Above nodes b c → Above nodes a c
Above-trans r here = r
Above-trans r (up e rest) = up e (Above-trans r rest)

-- A live version has live ancestors.
pub Above-live :
    {nodes : List VersionNode} {a v : ℕ}
    → Linked nodes
    → Above nodes a v
    → live_in nodes v ≡ true
    → live_in nodes a ≡ true
Above-live s here l = l
Above-live s (up {v} {p} e rest) l = Above-live s rest (s.parent_live v p l e)

-- What lies above `v` is `v` or lies above its parent.
pub Above-cases :
    {nodes : List VersionNode} {a v : ℕ}
    → Above nodes a v
    → (a ≡ v) ⊎ ((p : ℕ) × (parent_in nodes v ≡ some p) × Above nodes a p)
Above-cases here = inl refl
Above-cases (up {p} e rest) = inr (p, e, rest)

-- The path from `a` down to `v` leaves `a` by a child of `a`.
pub Above-down :
    {nodes : List VersionNode} {a v : ℕ}
    → Above nodes a v
    → (a ≡ v) ⊎ ((c : ℕ) × (parent_in nodes c ≡ some a) × Above nodes c v)
Above-down here = inl refl
Above-down {nodes} {a} (up {v} {p} e rest) = elim (Above-down rest) [
  | inl q ↦ inr (v, rw q e, here)
  | inr (c, h, below) ↦ inr (c, h, up e below)
]

pub set_owned-SameShape :
    (nodes : List VersionNode) (v : ℕ) (node : VersionNode) (owned : List ℕ)
    → get_elem? nodes v ≡ some node
    → SameShape nodes (set nodes v (record node { owned_variables = owned }))
set_owned-SameShape nodes v node owned e = record {
  length_eq = length-set nodes v changed;
  live_eq = λ u. ground (arith, get_elem?-set nodes v changed u (get_elem?-lt nodes v e));
  parent_eq = λ u. ground (arith, get_elem?-set nodes v changed u (get_elem?-lt nodes v e));
  children_eq = λ u. ground (arith, get_elem?-set nodes v changed u (get_elem?-lt nodes v e));
}
  where
    changed : VersionNode
    changed = record node { owned_variables = owned }
