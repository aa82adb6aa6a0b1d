-- ===== src/EGraph.antt =====
-- `VersionedEGraph` of crates/sage-ir/src/check/infer/egraph.rs, and `Bound` of bound.rs: union-find
-- with bounds, domains and universe ceilings, each version holding what differs from its ancestors.
-- Types are read from a stash by `ty_at`. `find` and `compress_path` take one more round than the
-- visible parents have bindings. The chain of ancestors is computed whole, where the source's iterator
-- stops at the first version that has a binding.
pub mod Forest
pub mod Find
pub mod Writes
pub mod Within
pub mod Evolves
pub mod Domains
pub mod Kept
pub mod Union
pub mod Compress
pub mod Chains
pub mod Branching
pub mod Discarding
pub mod Collapse
pub mod Dependents
pub mod Universes
pub mod Examples
pub mod Facts
pub mod Lifecycle
use sage_dev.Prelude.{
  ℕ, zero, suc, ◌+◌, ◌%◌, ◌^◌, Bool, true, false, not, ◌&&◌, ◌||◌, Option, none, some, List, [],
  ◌∷◌, ◌++◌, ◌==◌, if◌then◌else◌, ltb, leb, length, get_elem?, set, lookup, insert, extend,
  set_insert, set_extend, Outcome, ok, panicked, out_of_fuel, ◌>>=◌, ◌>>◌, assert, expect,
}
use sage_dev.Ty.{Ty, infer_var, Cell, ty, ptr}
use sage_dev.Stash.{Stash, read_ptr}
use sage_dev.Version.Domain.{InferDomain, any, intersect, same_domain}
use sage_dev.Version.Tree.{VersionTree, VarInfo}
use sage_dev.Version.Tree

pub data Bound : Type 0 where
  unbounded : Bound
  at_least : ℕ → Bound
  exactly : ℕ → Bound

abbrev pub same_bound : Bound → Bound → Bool
same_bound unbounded unbounded = true
same_bound (at_least p) (at_least q) = p == q
same_bound (exactly p) (exactly q) = p == q
same_bound _ _ = false

unfoldable pub is_none : Bound → Bool
is_none unbounded = true
is_none _ = false

unfoldable pub is_exactly : Bound → Bool
is_exactly (exactly p) = true
is_exactly _ = false

unfoldable pub bound_ty : Bound → Option ℕ
bound_ty unbounded = none
bound_ty (at_least p) = some p
bound_ty (exactly p) = some p

pub record VersionState : Type 0 where
  pub parents : List (ℕ × ℕ)
  pub bounds : List (ℕ × Bound)
  pub domains : List (ℕ × InferDomain)
  pub universe_ceilings : List (ℕ × ℕ)
  pub dependents : List (ℕ × List ℕ)
  pub worklist : List ℕ
  pub wakes : List ℕ
  pub semantic_revision : ℕ

abbrev pub default_state : VersionState
default_state = record {
  parents = [];
  bounds = [];
  domains = [];
  universe_ceilings = [];
  dependents = [];
  worklist = [];
  wakes = [];
  semantic_revision = 0;
}

pub record CommitEffects : Type 0 where
  pub wakes : List ℕ
  pub semantic_revision : ℕ

pub record EGraph : Type 0 where
  pub versions : VersionTree
  pub states : List VersionState
  pub placeholder_universes : List (ℕ × ℕ)

unfoldable pub new : EGraph
new = record { versions = Tree.new; states = default_state ∷ []; placeholder_universes = [] }

-- `stash[ty]`.
unfoldable pub ty_at : Stash Cell → ℕ → Outcome Ty
ty_at stash p = read_ptr stash 0 p >>= λ cell. elim cell [ ty t ↦ ok t | ptr q ↦ panicked ]

-- The variable that a type is, if it is one.
abbrev pub as_infer_var : Ty → Option ℕ
as_infer_var (infer_var index) = some index
as_infer_var _ = none

abbrev pub state_at : EGraph → ℕ → Outcome VersionState
state_at g v = expect (get_elem? g.states v)

-- The nearest binding of `key` along a chain of versions.
unfoldable pub nearest {ℓ} :
    {V : Type ℓ}
    → (VersionState → List (ℕ × V))
    → List VersionState
    → List ℕ
    → ℕ
    → Outcome (Option V)
nearest field states [] key = ok none
nearest field states (v ∷ rest) key = elim (get_elem? states v) [
  | none ↦ panicked
  | some state ↦ elim (lookup key (field state)) [
    | some value ↦ ok (some value)
    | none ↦ nearest field states rest key
  ]
]

unfoldable pub semantic_revision : EGraph → ℕ → Outcome ℕ
semantic_revision g version = do
  Tree.assert_live g.versions version
  state ← state_at g version
  ok state.semantic_revision

unfoldable pub alloc_var_in_domain : EGraph → ℕ → ℕ → InferDomain → Outcome (EGraph × ℕ)
alloc_var_in_domain g version universe domain = do
  r ← Tree.alloc_var_in_domain g.versions version universe domain
  state ← state_at g version
  ok (
    record g {
      versions = r.0;
      states =
          set g.states version
            (record state { universe_ceilings = insert r.1 universe state.universe_ceilings });
    },
    r.1,
  )

unfoldable pub alloc_var : EGraph → ℕ → ℕ → Outcome (EGraph × ℕ)
alloc_var g version universe = alloc_var_in_domain g version universe any

unfoldable pub get_var_info : EGraph → ℕ → ℕ → Outcome VarInfo
get_var_info g version index = Tree.get_variable g.versions version index

unfoldable pub current_universe : EGraph → ℕ → ℕ → Outcome ℕ
current_universe g version index = do
  info ← Tree.get_variable g.versions version index
  chain ← Tree.ancestors g.versions version
  lowered ← nearest (λ s. s.universe_ceilings) g.states chain index
  ok (elim lowered [ none ↦ info.creation_universe | some universe ↦ universe ])

unfoldable pub get_parent : EGraph → ℕ → ℕ → Outcome ℕ
get_parent g version p = do
  chain ← Tree.ancestors g.versions version
  up ← nearest (λ s. s.parents) g.states chain p
  ok (elim up [ none ↦ p | some q ↦ q ])

-- How many parent bindings the versions of a chain hold: the fuel of the loops over parents.
unfoldable pub parent_bindings : List VersionState → List ℕ → ℕ
parent_bindings states [] = 0
parent_bindings states (v ∷ rest) =
    elim (get_elem? states v) [ none ↦ 0 | some state ↦ length state.parents ]
    + parent_bindings states rest

unfoldable pub find_loop : ℕ → EGraph → ℕ → ℕ → Outcome ℕ
find_loop zero g version p = out_of_fuel
find_loop (suc f) g version p =
    get_parent g version p >>= λ q. elim (q == p) [ true ↦ ok p | false ↦ find_loop f g version q ]

unfoldable pub find : EGraph → ℕ → ℕ → Outcome ℕ
find g version p = do
  Tree.assert_live g.versions version
  chain ← Tree.ancestors g.versions version
  find_loop (suc (parent_bindings g.states chain)) g version p

unfoldable pub set_parent : EGraph → ℕ → ℕ → ℕ → Outcome EGraph
set_parent g version p q = do
  Tree.assert_mutable g.versions version
  state ← state_at g version
  ok (record g {
    states = set g.states version (record state { parents = insert p q state.parents });
  })

-- The loop of `compress_path`.
unfoldable pub compress_loop : ℕ → EGraph → ℕ → ℕ → ℕ → Outcome EGraph
compress_loop zero g version p root = out_of_fuel
compress_loop (suc f) g version p root = get_parent g version p >>= λ q.
    elim (q == root || q == p) [
      | true ↦ ok g
      | false ↦ set_parent g version p root >>= λ g'. compress_loop f g' version q root
    ]

unfoldable pub find_mut : EGraph → ℕ → ℕ → Outcome (EGraph × ℕ)
find_mut g version p = do
  Tree.assert_mutable g.versions version
  root ← find g version p
  chain ← Tree.ancestors g.versions version
  g' ← compress_loop (suc (parent_bindings g.states chain)) g version p root
  ok (g', root)

-- `wrapping_add(1)` on a `u64`, and the wake of a variable.
abbrev pub marked : Option ℕ → VersionState → VersionState
marked wake state = record state {
  semantic_revision = (state.semantic_revision + 1) % 2 ^ 64;
  wakes = elim wake [ none ↦ state.wakes | some index ↦ set_insert index state.wakes ];
}

unfoldable pub mark_semantic_change : EGraph → ℕ → Option ℕ → Outcome EGraph
mark_semantic_change g version wake = do
  state ← state_at g version
  ok (record g { states = set g.states version (marked wake state) })

unfoldable pub push_work : EGraph → ℕ → ℕ → Outcome EGraph
push_work g version p = do
  state ← state_at g version
  ok (record g {
    states = set g.states version (record state { worklist = state.worklist ++ p ∷ [] });
  })

-- The two roots of a union, the one that becomes the child first.
abbrev pub oriented : Ty → ℕ → ℕ → ℕ × ℕ
oriented left_ty left_root right_root = elim (as_infer_var left_ty) [
  | some index ↦ (left_root, right_root)
  | none ↦ (right_root, left_root)
]

unfoldable pub union : EGraph → Stash Cell → ℕ → ℕ → ℕ → Outcome (EGraph × ℕ)
union g stash version left right = do
  Tree.assert_mutable g.versions version
  left_root ← find g version left
  right_root ← find g version right
  elim (left_root == right_root) [
    | true ↦ ok (g, left_root)
    | false ↦ do
      left_ty ← ty_at stash left_root
      right_ty ← ty_at stash right_root
      let pair = oriented left_ty left_root right_root
      g1 ← set_parent g version pair.0 pair.1
      g2 ← push_work g1 version pair.0
      child_ty ← ty_at stash pair.0
      g3 ← mark_semantic_change g2 version (as_infer_var child_ty)
      ok (g3, pair.1)
  ]
