-- ===== src/Version/Tree.antt =====
-- `VersionTree` of crates/sage-ir/src/check/infer/version.rs. A version or a variable is its index.
-- Loops up the tree take one more round than the version's number, since parents have smaller
-- numbers; removal takes as much fuel as there are nodes. A failed assertion or a read out of range
-- is `panicked`.
pub mod Wf
pub mod Reads
pub mod Branch
pub mod Shape
pub mod Ancestry
pub mod Remove
pub mod Discard
pub mod Variables
pub mod Owners
pub mod Reown
use sage_dev.Prelude.{
  ℕ, zero, suc, ◌+◌, ◌%◌, ◌^◌, ◌≡◌, Bool, true, false, not, Option, none, some, List, [], ◌∷◌, ◌++◌,
  ◌==◌, length, get_elem?, set, is_empty, keep, Outcome, ok, panicked, out_of_fuel, ◌>>=◌, ◌>>◌,
  assert, expect, ◌&&◌,
}
use sage_dev.Version.Domain.{InferDomain, any}

-- `as u32`.
unfoldable pub as_u32 : ℕ → ℕ
as_u32 n = n % 2 ^ 32

pub record VarInfo : Type 0 where
  pub owner : ℕ
  pub creation_universe : ℕ
  pub initial_domain : InferDomain

pub record VersionNode : Type 0 where
  pub parent : Option ℕ
  pub children : List ℕ
  pub owned_variables : List ℕ
  pub removed : Bool

pub record VersionTree : Type 0 where
  pub nodes : List VersionNode
  pub variables : List VarInfo

abbrev pub root_node : VersionNode
root_node = record { parent = none; children = []; owned_variables = []; removed = false }

abbrev pub child_node : ℕ → VersionNode
child_node p = record { parent = some p; children = []; owned_variables = []; removed = false }

unfoldable pub new : VersionTree
new = record { nodes = root_node ∷ []; variables = [] }

abbrev pub node_at : List VersionNode → ℕ → Outcome VersionNode
node_at nodes v = expect (get_elem? nodes v)

abbrev pub live_in : List VersionNode → ℕ → Bool
live_in nodes v = elim (get_elem? nodes v) [ none ↦ false | some node ↦ not node.removed ]

abbrev pub is_live : VersionTree → ℕ → Bool
is_live t v = live_in t.nodes v

abbrev pub assert_live : VersionTree → ℕ → Outcome (Unit {0})
assert_live t v = assert (is_live t v)

unfoldable pub is_leaf : VersionTree → ℕ → Outcome Bool
is_leaf t v = do assert_live t v; node ← node_at t.nodes v; ok (is_empty node.children)

unfoldable pub parent_of : VersionTree → ℕ → Outcome (Option ℕ)
parent_of t v = do assert_live t v; node ← node_at t.nodes v; ok node.parent

unfoldable pub children_of : VersionTree → ℕ → Outcome (List ℕ)
children_of t v = do assert_live t v; node ← node_at t.nodes v; ok node.children

-- The loop of `is_ancestor`.
unfoldable pub ancestor_loop : ℕ → List VersionNode → ℕ → ℕ → Outcome Bool
ancestor_loop zero nodes a v = out_of_fuel
ancestor_loop (suc f) nodes a v = elim (a == v) [
  | true ↦ ok true
  | false ↦ elim (get_elem? nodes v) [
    | none ↦ panicked
    | some node ↦ elim node.parent [ none ↦ ok false | some p ↦ ancestor_loop f nodes a p ]
  ]
]

unfoldable pub is_ancestor : VersionTree → ℕ → ℕ → Outcome Bool
is_ancestor t a v = do assert_live t a; assert_live t v; ancestor_loop (suc v) t.nodes a v

-- The versions that `AncestorIter` yields from `v` on.
unfoldable pub ancestors_loop : ℕ → List VersionNode → ℕ → Outcome (List ℕ)
ancestors_loop zero nodes v = out_of_fuel
ancestors_loop (suc f) nodes v = elim (get_elem? nodes v) [
  | none ↦ panicked
  | some node ↦ elim node.parent [
    | none ↦ ok (v ∷ [])
    | some p ↦ ancestors_loop f nodes p >>= λ rest. ok (v ∷ rest)
  ]
]

unfoldable pub ancestors : VersionTree → ℕ → Outcome (List ℕ)
ancestors t v = do assert_live t v; ancestors_loop (suc v) t.nodes v

unfoldable pub branch_from : VersionTree → ℕ → Outcome (VersionTree × ℕ)
branch_from t parent = do
  assert_live t parent
  let child = as_u32 (length t.nodes)
  let nodes = t.nodes ++ child_node parent ∷ []
  node ← node_at nodes parent
  ok (
    record t { nodes = set nodes parent (record node { children = node.children ++ child ∷ [] }) },
    child,
  )

unfoldable pub assert_mutable : VersionTree → ℕ → Outcome (Unit {0})
assert_mutable t v = do assert_live t v; node ← node_at t.nodes v; assert (is_empty node.children)

unfoldable pub alloc_var_in_domain : VersionTree → ℕ → ℕ → InferDomain → Outcome (VersionTree × ℕ)
alloc_var_in_domain t version universe domain = do
  assert_mutable t version
  let index = as_u32 (length t.variables)
  node ← node_at t.nodes version
  ok (
    record {
      nodes =
          set t.nodes version
            (record node { owned_variables = node.owned_variables ++ index ∷ [] });
      variables =
          t.variables
          ++ record { owner = version; creation_universe = universe; initial_domain = domain } ∷ [];
    },
    index,
  )

unfoldable pub alloc_var : VersionTree → ℕ → ℕ → Outcome (VersionTree × ℕ)
alloc_var t version universe = alloc_var_in_domain t version universe any

-- Panics unless the owner is an ancestor of `version`.
unfoldable pub get_variable : VersionTree → ℕ → ℕ → Outcome VarInfo
get_variable t version index = do
  assert_live t version
  info ← expect (get_elem? t.variables index)
  above ← is_ancestor t info.owner version
  assert above
  ok info

-- `&&` in the source does not ask whether a dead owner is an ancestor.
unfoldable pub visible_loop : VersionTree → ℕ → ℕ → List VarInfo → Outcome (List ℕ)
visible_loop t version i [] = ok []
visible_loop t version i (info ∷ rest) = do
  visible ← elim (is_live t info.owner) [
    | true ↦ is_ancestor t info.owner version
    | false ↦ ok false
  ]
  found ← visible_loop t version (suc i) rest
  ok (elim visible [ true ↦ as_u32 i ∷ found | false ↦ found ])

unfoldable pub visible_variables : VersionTree → ℕ → Outcome (List ℕ)
visible_variables t version = do assert_live t version; visible_loop t version 0 t.variables

-- `for index in &variables { self.variables[index].owner = parent }`.
unfoldable pub reown_each : ℕ → List ℕ → List VarInfo → Outcome (List VarInfo)
reown_each parent [] variables = ok variables
reown_each parent (index ∷ rest) variables = do
  info ← expect (get_elem? variables index)
  reown_each parent rest (set variables index (record info { owner = parent }))

abbrev pub is_some_of : Option ℕ → ℕ → Bool
is_some_of none v = false
is_some_of (some p) v = p == v

unfoldable pub reown_variables : VersionTree → ℕ → ℕ → Outcome VersionTree
reown_variables t child parent = do
  assert_live t child
  assert_live t parent
  direct ← parent_of t child
  assert (is_some_of direct parent)
  child_entry ← node_at t.nodes child
  let nodes = set t.nodes child (record child_entry { owned_variables = [] })
  variables ← reown_each parent child_entry.owned_variables t.variables
  entry ← node_at nodes parent
  ok (record {
    nodes =
        set nodes parent
          (record entry { owned_variables = entry.owned_variables ++ child_entry.owned_variables });
    variables = variables;
  })

abbrev pub Removal : Type 0
Removal = List VersionNode × List ℕ

-- `for child in children { self.remove_subtree(child, removed) }`.
unfoldable pub remove_each :
    (List VersionNode → ℕ → List ℕ → Outcome Removal)
    → List ℕ
    → List VersionNode
    → List ℕ
    → Outcome Removal
remove_each sub [] nodes removed = ok (nodes, removed)
remove_each sub (c ∷ cs) nodes removed = sub nodes c removed >>= λ r. remove_each sub cs r.0 r.1

abbrev pub tombstone : VersionNode → VersionNode
tombstone node = record node { children = []; removed = true }

unfoldable pub remove_subtree : ℕ → List VersionNode → ℕ → List ℕ → Outcome Removal
remove_subtree zero nodes v removed = out_of_fuel
remove_subtree (suc f) nodes v removed = node_at nodes v >>= λ node.
    remove_each (remove_subtree f) node.children nodes removed >>= λ r.
    node_at r.0 v >>= λ node'. ok (set r.0 v (tombstone node'), r.1 ++ v ∷ [])

unfoldable pub remove : VersionTree → ℕ → Outcome (VersionTree × List ℕ)
remove t version = do
  assert (not (version == 0))
  assert_live t version
  direct ← parent_of t version
  parent ← expect direct
  r ← remove_subtree (length t.nodes) t.nodes version []
  entry ← node_at r.0 parent
  ok (
    record t {
      nodes =
          set r.0 parent
            (record entry { children = keep (λ c. not (c == version)) entry.children });
    },
    r.1,
  )
