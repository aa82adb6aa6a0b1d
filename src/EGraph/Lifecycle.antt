-- ===== src/EGraph/Lifecycle.antt =====
-- The life of a version in crates/sage-ir/src/check/infer/egraph.rs: branch, collapse into the parent,
-- discard. The debug assertion on what a collapse removes is left out.
use sage_dev.Prelude.{
  ℕ, Bool, false, ◌&&◌, none, some, List, [], ◌∷◌, ◌++◌, ◌==◌, leb, length, get_elem?, set, lookup,
  insert, extend, set_extend, is_empty, Outcome, ok, ◌>>=◌, ◌>>◌, assert, expect, if◌then◌else◌,
}
use sage_dev.Version.Tree.{is_some_of}
use sage_dev.Version.Tree
use sage_dev.EGraph.{
  EGraph, VersionState, CommitEffects, default_state, state_at, semantic_revision,
}

unfoldable pub branch_from : EGraph → ℕ → Outcome (EGraph × ℕ)
branch_from g parent = do
  revision ← semantic_revision g parent
  r ← Tree.branch_from g.versions parent
  assert (r.1 == length g.states)
  ok (
    record g {
      versions = r.0;
      states = g.states ++ record default_state { semantic_revision = revision } ∷ [];
    },
    r.1,
  )

-- `dependents.entry(ty).or_default().extend(…)` for every binding of the child.
unfoldable pub join_dependents : List (ℕ × List ℕ) → List (ℕ × List ℕ) → List (ℕ × List ℕ)
join_dependents m [] = m
join_dependents m ((ty, found) ∷ rest) =
    join_dependents
      (insert ty (set_extend (elim (lookup ty m) [ none ↦ [] | some old ↦ old ]) found) m) rest

-- `sort_unstable` on the wakes: insertion into a sorted list.
unfoldable pub insert_sorted : ℕ → List ℕ → List ℕ
insert_sorted n [] = n ∷ []
insert_sorted n (x ∷ xs) = if leb n x then n ∷ x ∷ xs else x ∷ insert_sorted n xs

unfoldable pub sort : List ℕ → List ℕ
sort [] = []
sort (x ∷ xs) = insert_sorted x (sort xs)

-- The parent's state with the child's taken in.
unfoldable pub absorb : VersionState → VersionState → VersionState
absorb parent child = record {
  parents = extend parent.parents child.parents;
  bounds = extend parent.bounds child.bounds;
  domains = extend parent.domains child.domains;
  universe_ceilings = extend parent.universe_ceilings child.universe_ceilings;
  dependents = join_dependents parent.dependents child.dependents;
  worklist = parent.worklist ++ child.worklist;
  wakes = set_extend parent.wakes child.wakes;
  semantic_revision = child.semantic_revision;
}

abbrev pub is_only : List ℕ → ℕ → Bool
is_only [] child = false
is_only (c ∷ cs) child = c == child && is_empty cs

unfoldable pub collapse_into : EGraph → ℕ → ℕ → Outcome (EGraph × CommitEffects)
collapse_into g child parent = do
  Tree.assert_live g.versions child
  Tree.assert_live g.versions parent
  direct ← Tree.parent_of g.versions child
  assert (is_some_of direct parent)
  leaf ← Tree.is_leaf g.versions child
  assert leaf
  siblings ← Tree.children_of g.versions parent
  assert (is_only siblings child)
  child_state ← state_at g child
  let states = set g.states child default_state
  parent_state ← expect (get_elem? states parent)
  versions ← Tree.reown_variables g.versions child parent
  r ← Tree.remove versions child
  ok (
    record g { versions = r.0; states = set states parent (absorb parent_state child_state) },
    record { wakes = sort child_state.wakes; semantic_revision = child_state.semantic_revision },
  )

-- `for removed_version in removed { self.states[removed_version] = default }`.
unfoldable pub reset_states : List ℕ → List VersionState → Outcome (List VersionState)
reset_states [] states = ok states
reset_states (v ∷ rest) states =
    expect (get_elem? states v) >>= λ _. reset_states rest (set states v default_state)

unfoldable pub discard : EGraph → ℕ → Outcome EGraph
discard g version = do
  r ← Tree.remove g.versions version
  states ← reset_states r.1 g.states
  ok (record g { versions = r.0; states = states })
