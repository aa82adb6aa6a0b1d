-- ===== src/Unify/Examples.antt =====
-- Unification in a small graph for crates/sage-ir/src/check/infer/unify.rs: the variable at pointer 1, of
-- the integer domain, the types `bool` and `i32` at 2 and 3, and an error type at 4.
use sage_dev.Prelude.{
  ℕ, ◌≡◌, ◌↔◌, ◌≢◌, refl, out_of_fuel, true, false, some, arith, [], ◌∷◌, ◌++◌, ok,
}
use sage_dev.Ty.{Ty, IntTy, Cell, ty}
use sage_dev.Stash.{Stash, read_ptr, read_slice}
use sage_dev.Version.Domain.{any, integer, intersect, admits}
use sage_dev.Version.Tree
use sage_dev.Version.Tree.{
  assert_mutable, ancestors, ancestors_loop, get_variable, is_ancestor, ancestor_loop,
}
use sage_dev.Version.Examples.{family}
use sage_dev.EGraph.{
  EGraph, default_state, exactly, ty_at, find, find_mut, find_loop, get_parent, nearest,
  parent_bindings, compress_loop, union, set_parent, push_work, mark_semantic_change,
  current_universe, bound_ty, semantic_revision,
}
use sage_dev.EGraph.Facts.{effective_domain, get_bound, set_bound_in}
use sage_dev.EGraph.Lifecycle.{branch_from, discard, reset_states}
use sage_dev.EGraph.Evolves.{Coarsened}
use sage_dev.EGraph.Examples.{
  graph, cells, graph-Wf, roots, leaf-Classes, bound_state, leaf_state, unbound, unbound-Wf,
  unbound-Classes,
}
use sage_dev.Skeleton.{decompose, decompose_ty}
use sage_dev.Skeleton.Examples.{summing}
use sage_dev.Unify.{
  done, failed, reported, unify_in_probe, unify_variable, compatible_domain, bind_variable,
  make_accessible, access_each, occurs_in, occurs_any,
}
use sage_dev.Unify.Variables.{Decided, unify_variables-decides}
use sage_dev.Unify.Joins.{unify_in_probe-joins}
use sage_dev.Unify.Transaction.{try_unify_batch, try_probe, finish, unify_all}
use sage_dev.Unify.Rollback.{RolledBack, try_unify_batch-RolledBack}
use sage_dev.Unify.Occurs.{Occurs}
use sage_dev.Unify.Occurs.Decides.{occurs_in_iff}
use sage_dev.Unify.Occurs.Ends.{occurs_in-returns}

abbrev typed : Stash Cell
typed = record cells {
  entries =
      cells.entries
      ++ record { type_id = 0; count = 1; inline_hash = 13; contents = ty (Ty.int IntTy.i32) ∷ [] }
        ∷ record { type_id = 0; count = 1; inline_hash = 14; contents = ty Ty.error ∷ [] }
        ∷ [];
}

-- The variable bound to `i32`.
abbrev joined : EGraph
joined = record graph {
  states =
      default_state
      ∷ bound_state
      ∷ record leaf_state {
        parents = (1, 3) ∷ [];
        bounds = (1, exactly 3) ∷ [];
        worklist = 1 ∷ [];
        semantic_revision = 3;
      }
      ∷ [];
}

-- The graph after a transaction below version 2 that failed.
abbrev rolled_back : EGraph
rolled_back = record graph {
  versions = record family {
    nodes =
        family.nodes
        ++ record { parent = some 2; children = []; owned_variables = []; removed = true } ∷ [];
  };
  states = graph.states ++ default_state ∷ [];
}

bind_i32 : unify_in_probe 3 typed 2 graph 1 3 ≡ ok (joined, done tt)
unfolding unify_in_probe unify_variable compatible_domain bind_variable occurs_in occurs_any
    make_accessible access_each find_mut find find_loop get_parent nearest parent_bindings
    compress_loop union set_parent push_work mark_semantic_change current_universe bound_ty ty_at
    read_ptr read_slice effective_domain get_bound set_bound_in assert_mutable ancestors
    ancestors_loop get_variable is_ancestor ancestor_loop decompose decompose_ty admits
bind_i32 = refl

-- `i32` is bound in the child, then the error type refuses `bool`.
refuse_error :
    try_unify_batch summing 3 graph typed 2 ((1, 3) ∷ (0, 4) ∷ [])
    ≡ ok (rolled_back, typed, failed reported)
unfolding try_unify_batch try_probe finish unify_all branch_from discard reset_states
    semantic_revision Tree.branch_from Tree.remove Tree.remove_subtree Tree.remove_each
    Tree.parent_of Tree.as_u32 unify_in_probe unify_variable compatible_domain bind_variable
    occurs_in occurs_any make_accessible access_each find_mut find find_loop get_parent nearest
    parent_bindings compress_loop union set_parent push_work mark_semantic_change current_universe
    bound_ty ty_at read_ptr read_slice effective_domain get_bound set_bound_in assert_mutable
    ancestors ancestors_loop get_variable is_ancestor ancestor_loop decompose decompose_ty admits
refuse_error = refl

absent : occurs_in 4 joined typed 2 1 [] 0 ≡ ok (2 ∷ [], false)
unfolding occurs_in occurs_any find find_loop get_parent nearest parent_bindings ty_at read_ptr
    read_slice ancestors ancestors_loop decompose decompose_ty
absent = refl

unify_in_probe-joins_example : (σ : ℕ → ℕ) × Coarsened joined 2 roots σ × (σ 1 ≡ σ 3)
unfolding assert_mutable
unify_in_probe-joins_example =
    unify_in_probe-joins 2 typed 3 graph joined 1 3 roots graph-Wf refl leaf-Classes bind_i32

try_unify_batch-RolledBack_example : (typed ≡ typed) × RolledBack graph rolled_back
try_unify_batch-RolledBack_example =
    try_unify_batch-RolledBack summing 3 graph typed 2 graph-Wf refl (omega arith)
      ((1, 3) ∷ (0, 4) ∷ []) refuse_error

occurs_in_iff_example : (false ≡ true) ↔ Occurs joined typed 2 1 0
occurs_in_iff_example = occurs_in_iff joined typed 2 4 1 0 (2 ∷ [], false) absent

occurs_in-returns_example : occurs_in 6 graph typed 2 1 [] 0 ≢ out_of_fuel
occurs_in-returns_example =
    occurs_in-returns graph typed 2 roots graph-Wf refl leaf-Classes 1 0 6 (omega arith)

-- The integer variable at 1 meets the unrestricted one at 0, which is of a lower universe.
unify_variables-decides_example :
    Decided unbound cells 2 (λ p. p) (1, 0, 1, 0) integer any 0 (some integer)
unfolding assert_mutable get_variable is_ancestor ancestor_loop ty_at read_ptr read_slice
    effective_domain find find_loop get_parent nearest parent_bindings ancestors ancestors_loop
    intersect current_universe
unify_variables-decides_example =
    unify_variables-decides unbound cells 2 (λ p. p) 1 0 1 0
      (record { owner = 2; creation_universe = 3; initial_domain = integer })
      (record { owner = 0; creation_universe = 0; initial_domain = any }) integer any 3 0 unbound-Wf
      refl unbound-Classes refl refl refl refl (λ e. omega arith) refl refl refl refl refl refl
