-- ===== src/EGraph/Examples.antt =====
-- A small graph for crates/sage-ir/src/check/infer/egraph.rs: version 1 has bound the variable at
-- pointer 0 to the type at pointer 2.
use sage_dev.Prelude.{
  ℕ, ◌≡◌, refl, sym, subst, inl, inr, arith, Bool-cases, [], ◌∷◌, ok, ◌==◌, ==_iff, if◌then◌else◌,
}
use sage_dev.Ty.{Ty, infer_var, Cell, ty}
use sage_dev.Stash.{Stash, read_ptr, read_slice, key}
use sage_dev.Version.Tree.{assert_mutable}
use sage_dev.Version.Tree.Ancestry.{Upward, top, step, Upward-unique}
use sage_dev.Version.Examples.{family, family-Shaped, family-Owning}
use sage_dev.EGraph.{EGraph, VersionState, default_state, ty_at, find, find_mut, union}
use sage_dev.Prelude.{contains, some, true, ◌||◌, ◌&&◌, ◌≢◌, not, leb, List}
use sage_dev.Version.Domain.{any, integer, intersect}
use sage_dev.Version.Tree.{
  VarInfo, get_variable, is_ancestor, ancestor_loop, ancestors, ancestors_loop,
}
use sage_dev.EGraph.{current_universe, find_loop, get_parent, nearest, parent_bindings}
use sage_dev.EGraph.Facts.{lower_universe, set_domain_in, effective_domain}
use sage_dev.EGraph.Domains.{set_domain_in-narrows}
use sage_dev.EGraph.Universes.{lower_universe-lowers}
use sage_dev.EGraph.Dependents.{add_dependent, collect_dependents}
use sage_dev.EGraph.Dependents.Collect.{add_dependent-collects}
use sage_dev.EGraph.Lifecycle.{branch_from, discard, collapse_into, sort, insert_sorted}
use sage_dev.EGraph.Forest.{Chain, root, link, Forest}
use sage_dev.EGraph.Find.{Wf, Classes, find-root}
use sage_dev.EGraph.Union.{Joined, Rerooted, union-Joined}
use sage_dev.EGraph.Compress.{find_mut-Rerooted}
use sage_dev.EGraph.Branching.{Forked, branch_from-Forked}
use sage_dev.EGraph.Discarding.{Discarded, discard-Discarded}
use sage_dev.EGraph.Collapse.{Collapsed, collapse_into-Collapsed}

abbrev pub cells : Stash Cell
cells = record {
  entries =
      record { type_id = 0; count = 1; inline_hash = 10; contents = ty (infer_var 0) ∷ [] }
      ∷ record { type_id = 0; count = 1; inline_hash = 11; contents = ty (infer_var 1) ∷ [] }
      ∷ record { type_id = 0; count = 1; inline_hash = 12; contents = ty Ty.bool ∷ [] }
      ∷ [];
  intern_map = (key 0 1 12 0, 2) ∷ (key 0 1 11 0, 1) ∷ (key 0 1 10 0, 0) ∷ [];
}

abbrev pub bound_state : VersionState
bound_state = record default_state {
  parents = (0, 2) ∷ [];
  worklist = 0 ∷ [];
  wakes = 0 ∷ [];
  semantic_revision = 1;
}

abbrev pub leaf_state : VersionState
leaf_state = record default_state { wakes = 4 ∷ 1 ∷ []; semantic_revision = 1 }

abbrev pub graph : EGraph
graph = record {
  versions = family;
  states = default_state ∷ bound_state ∷ leaf_state ∷ [];
  placeholder_universes = [];
}

pub graph-Wf : Wf graph
graph-Wf = record { shaped = family-Shaped; same_length = refl }

abbrev pub roots : ℕ → ℕ
roots p = if p == 0 then 2 else p

binding-Forest : Forest ((0, 2) ∷ []) roots
binding-Forest p = elim (Bool-cases (p == 0)) [
  | inl same ↦
      let e : 0 ≡ p = sym ((==_iff p 0).0 same) in
      subst (λ q. (k : ℕ) × Chain ((0, 2) ∷ []) q k (roots q)) e
        (1, link (λ h. omega arith) (root refl))
  | inr differ ↦ (0, rw differ (root (ground arith)))
]

abbrev pub leaf_chain : Upward family.nodes 2 (2 ∷ 1 ∷ 0 ∷ [])
leaf_chain = step refl (step refl (top refl))

abbrev pub middle_chain : Upward family.nodes 1 (1 ∷ 0 ∷ [])
middle_chain = step refl (top refl)

pub leaf-Classes : Classes graph 2 roots
leaf-Classes chain up = rw (sym (Upward-unique (λ u h. refl) leaf_chain up)) binding-Forest

find-root_example : find graph 2 0 ≡ ok 2
find-root_example = find-root graph 2 graph-Wf refl roots 0 leaf-Classes

union-Joined_example :
    (g' : EGraph) × (union graph cells 2 1 0 ≡ ok (g', 2)) × Joined graph g' 2 1 2 roots
unfolding ty_at read_ptr read_slice assert_mutable
union-Joined_example =
    union-Joined graph cells 2 roots 1 0 (infer_var 1) Ty.bool graph-Wf leaf-Classes refl refl refl

find_mut-Rerooted_example :
    (find graph 2 0 ≡ ok 2)
    × (g' : EGraph) × (find_mut graph 2 0 ≡ ok (g', 2))
    × Rerooted graph g' 2 roots
unfolding assert_mutable
find_mut-Rerooted_example = find_mut-Rerooted graph 2 roots 0 graph-Wf leaf-Classes refl

branch_from-Forked_example :
    (g' : EGraph) × (branch_from graph 2 ≡ ok (g', 3)) × Forked graph g' 2 3
branch_from-Forked_example = branch_from-Forked graph 2 graph-Wf refl (omega arith)

discard-Discarded_example : (g' : EGraph) × (discard graph 1 ≡ ok g') × Discarded graph g' 1
discard-Discarded_example = discard-Discarded graph 1 graph-Wf refl (λ e. omega arith)

collapse_into-Collapsed_example :
    (g' : EGraph) × (collapse_into graph 2 1
      ≡ ok (g', record { wakes = 1 ∷ 4 ∷ []; semantic_revision = 1 }))
    × Collapsed graph g' 2 1
unfolding sort insert_sorted
collapse_into-Collapsed_example =
    collapse_into-Collapsed graph 2 1 leaf_state graph-Wf family-Owning refl refl refl refl refl

add_dependent-collects_example :
    (g' : EGraph) × (add_dependent graph 2 0 5 ≡ ok g')
    × Rerooted graph g' 2 roots
    × ((p : ℕ)
        → (l : List ℕ) × (l' : List ℕ) × (collect_dependents graph 2 p ≡ ok l)
          × (collect_dependents g' 2 p ≡ ok l')
          × ((q : ℕ) → contains l' q ≡ (contains l q || (0 == p && 5 == q))))
unfolding assert_mutable
add_dependent-collects_example = add_dependent-collects graph 2 0 5 roots graph-Wf leaf-Classes refl

lower_universe-lowers_example :
    (u : ℕ) × (g' : EGraph) × (current_universe graph 2 1 ≡ ok u)
    × (lower_universe graph 2 1 2 ≡ ok (g', not (leb u 2)))
    × Wf g'
    × (current_universe g' 2 1 ≡ ok (if leb u 2 then u else 2))
    × ((j : ℕ) (other : VarInfo)
        → 1 ≢ j
        → get_variable graph.versions 2 j ≡ ok other
        → current_universe g' 2 j ≡ current_universe graph 2 j)
unfolding assert_mutable get_variable is_ancestor ancestor_loop
lower_universe-lowers_example =
    lower_universe-lowers graph 2 1 2
      (record { owner = 2; creation_universe = 3; initial_domain = integer }) graph-Wf refl refl

-- The same versions with nothing bound.
abbrev pub unbound : EGraph
unbound = record graph { states = default_state ∷ default_state ∷ default_state ∷ [] }

pub unbound-Wf : Wf unbound
unbound-Wf = record { shaped = family-Shaped; same_length = refl }

pub unbound-Classes : Classes unbound 2 (λ p. p)
unbound-Classes chain up =
    rw (sym (Upward-unique (λ u h. refl) leaf_chain up)) (λ p. (0, root (ground arith)))

set_domain_in-narrows_example :
    (g' : EGraph) × (set_domain_in unbound cells 2 0 integer ≡ ok (g', true))
    × (effective_domain g' cells 2 0 ≡ ok (some integer))
    × ((q : ℕ) → q ≢ 0 → effective_domain g' cells 2 q ≡ effective_domain unbound cells 2 q)
unfolding assert_mutable get_variable is_ancestor ancestor_loop ty_at read_ptr read_slice
    effective_domain find find_loop get_parent nearest parent_bindings ancestors ancestors_loop
    intersect
set_domain_in-narrows_example =
    set_domain_in-narrows unbound cells 2 (λ p. p) 0 (infer_var 0) 0
      (record { owner = 0; creation_universe = 0; initial_domain = any }) any integer unbound-Wf
      refl unbound-Classes refl refl refl refl refl
