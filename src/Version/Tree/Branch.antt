-- ===== src/Version/Tree/Branch.antt =====
-- `VersionTree::branch_from` of crates/sage-ir/src/check/infer/version.rs.
use sage_dev.Prelude.{
  ℕ, ◌+◌, ◌^◌, get_elem?-append_left, Bool-cases, Option-cases, inl, inr, ◌<◌, ◌≡◌, ◌∙◌, refl, some,
  List, [], ◌∷◌, ◌++◌, arith, ◌==◌, if◌then◌else◌, length, get_elem?, get_elem?-lt, set, length-set,
  length-append, ok, true, false,
}
use sage_dev.Version.Tree.{
  VersionNode, VersionTree, live_in, VarInfo, is_live, branch_from, child_node, as_u32,
}
use sage_dev.Version.Tree.Wf.{parent_in, children_in, owned_in}
use sage_dev.Version.Tree.Reads.{
  live_in-set, parent_in-set, children_in-set, live_in-snoc, parent_in-snoc, children_in-snoc,
  owned_variables-set, owned_variables-snoc, live_in-node,
}

pub as_u32_small : (n : ℕ) → n < 2 ^ 32 → as_u32 n ≡ n
unfolding as_u32
as_u32_small n h = omega arith

-- What a branch does to the tree, as the functions that read it.
pub record Branched (t t' : VersionTree) (parent child : ℕ) : Type 0 where
  pub fresh : child ≡ length t.nodes
  pub grown : length t'.nodes ≡ length t.nodes + 1
  pub same_variables : t'.variables ≡ t.variables
  pub live_eq : (u : ℕ) → is_live t' u ≡ (if u == child then true else is_live t u)
  pub parent_eq :
      (u : ℕ) → parent_in t'.nodes u ≡ (if u == child then some parent else parent_in t.nodes u)
  pub children_eq :
      (u : ℕ)
      → children_in t'.nodes u ≡ (
          if u == parent
          then children_in t.nodes u ++ child ∷ []
          else if u == child
          then []
          else children_in t.nodes u)
  pub owned_eq : (u : ℕ) → owned_in t'.nodes u ≡ owned_in t.nodes u

-- The table after a branch, read at any version.
module _ (nodes : List VersionNode) (parent : ℕ) (node : VersionNode)
    (read : get_elem? nodes parent ≡ some node) (live : node.removed ≡ false) where
  grown : List VersionNode
  grown = nodes ++ child_node parent ∷ []

  above : VersionNode
  above = record node { children = node.children ++ length nodes ∷ [] }

  length-grown : length grown ≡ length nodes + 1
  unfolding grown
  length-grown = omega (arith, length-append nodes (child_node parent ∷ []))

  read-grown : get_elem? grown parent ≡ some node
  unfolding grown
  read-grown = get_elem?-append_left nodes _ parent (get_elem?-lt nodes parent read) ∙ read

  parent_in_range : parent < length grown
  parent_in_range = get_elem?-lt grown parent read-grown

  live-branched :
      (u : ℕ)
      → live_in (set grown parent above) u ≡ (if u == length nodes then true else live_in nodes u)
  unfolding grown above
  live-branched u = ground (
    arith,
    live_in-set grown parent above u parent_in_range,
    live_in-snoc nodes (child_node parent) u,
    get_elem?-lt nodes parent read,
  )

  parent-branched :
      (u : ℕ)
      → parent_in (set grown parent above) u
        ≡ (if u == length nodes then some parent else parent_in nodes u)
  unfolding grown above
  parent-branched u = ground (
    arith,
    parent_in-set grown parent above u parent_in_range,
    parent_in-snoc nodes (child_node parent) u,
    get_elem?-lt nodes parent read,
  )

  children-branched :
      (u : ℕ)
      → children_in (set grown parent above) u ≡ (
          if u == parent
          then children_in nodes u ++ length nodes ∷ []
          else if u == length nodes
          then []
          else children_in nodes u)
  unfolding grown above
  children-branched u = ground (
    arith,
    children_in-set grown parent above u parent_in_range,
    children_in-snoc nodes (child_node parent) u,
  )

  owned-branched : (u : ℕ) → owned_in (set grown parent above) u ≡ owned_in nodes u
  unfolding grown above
  owned-branched u =
      let over = owned_variables-set grown parent above u parent_in_range in
      let end = owned_variables-snoc nodes (child_node parent) u in
      elim (Bool-cases (parent == u)) [
        | inl same ↦ ground arith
        | inr differ ↦ elim (Option-cases (get_elem? nodes u)) [
          | inl beyond ↦ ground arith
          | inr (old, found) ↦ let lt = get_elem?-lt nodes u found in ground arith
        ]
      ]

  branched_tree : List VarInfo → VersionTree
  branched_tree variables = record { nodes = set grown parent above; variables = variables }

  branched_tree-Branched :
      (variables : List VarInfo)
      → Branched
          (record { nodes = nodes; variables = variables })
          (branched_tree variables)
          parent
          (length nodes)
  unfolding branched_tree
  branched_tree-Branched variables = record {
    fresh = refl;
    grown = length-set grown parent above ∙ length-grown;
    same_variables = refl;
    live_eq = live-branched;
    parent_eq = parent-branched;
    children_eq = children-branched;
    owned_eq = owned-branched;
  }

  branch_from-run :
      (variables : List VarInfo)
      → length nodes < 2 ^ 32
      → branch_from (record { nodes = nodes; variables = variables }) parent
        ≡ ok (branched_tree variables, length nodes)
  unfolding branch_from branched_tree grown above
  branch_from-run variables room =
      ground (arith, read, live, read-grown, as_u32_small (length nodes) room)

-- Branching from a live version returns the next version number while the version counter has room:
-- the child is live with that parent, the parent lists it, and all else reads as before.
pub branch_from-Branched :
    (t : VersionTree) (parent : ℕ)
    → is_live t parent ≡ true
    → length t.nodes < 2 ^ 32
    → (t' : VersionTree) × (branch_from t parent ≡ ok (t', length t.nodes))
      × Branched t t' parent (length t.nodes)
branch_from-Branched t parent live room =
    let (node, read, alive) = live_in-node t.nodes parent live in
    (
      branched_tree t.nodes parent node read alive t.variables,
      branch_from-run t.nodes parent node read alive t.variables room,
      branched_tree-Branched t.nodes parent node read alive t.variables,
    )
