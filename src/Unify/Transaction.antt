-- ===== src/Unify/Transaction.antt =====
-- The transactions of crates/sage-ir/src/check/infer/unify.rs: an operation runs in a fresh child
-- version, which is then rebuilt and collapsed into its parent, or discarded.
use sage_dev.Prelude.{ℕ, true, false, none, some, List, [], ◌∷◌, contains, Outcome, ok, ◌>>=◌}
use sage_dev.Ty.{Cell, ty, infer_var}
use sage_dev.Stash.{Stash, Hashing, alloc}
use sage_dev.Version.Domain.Lattice.{is_error}
use sage_dev.Version.Tree
use sage_dev.EGraph.{
  EGraph, Bound, unbounded, at_least, exactly, bound_ty, CommitEffects, ty_at, as_infer_var, find,
  union, current_universe,
}
use sage_dev.EGraph.Facts.{set_bound_in}
use sage_dev.EGraph.Lifecycle.{branch_from, collapse_into, discard}
use sage_dev.EGraph.Dependents.{rebuild}
use sage_dev.Unify.{
  UnifyError, mismatch, occurs_check, universe_leak, domain_conflict, reported, Attempt, done,
  failed, Run, ◌>?◌, make_accessible, unify_in_probe,
}

-- What a transaction leaves: the graph and the stash, and its result or its error.
abbrev pub Transaction : Type 0 → Type 0
Transaction A = Outcome (EGraph × Stash Cell × Attempt A)

unfoldable pub unify_all : ℕ → Stash Cell → ℕ → EGraph → List (ℕ × ℕ) → Run (Unit {0})
unify_all f stash version g [] = ok (g, done tt)
unify_all f stash version g ((l, r) ∷ rest) =
    unify_in_probe f stash version g l r >? λ g' _. unify_all f stash version g' rest

-- What a bound asks of the graph before it is set.
unfoldable pub check_bound : ℕ → Stash Cell → ℕ → EGraph → ℕ → ℕ → Bound → Run (Unit {0})
check_bound f stash version g root variable unbounded = ok (g, done tt)
check_bound f stash version g root variable (at_least q) =
    current_universe g version variable >>= λ ceiling.
    make_accessible f stash version variable ceiling g [] q >? λ g' visited. ok (g', done tt)
check_bound f stash version g root variable (exactly q) = unify_in_probe f stash version g root q

-- The operation of `try_set_bound`, in the child.
unfoldable pub set_bound : ℕ → ℕ → Bound → Stash Cell → ℕ → EGraph → Run (Unit {0})
set_bound f p bound stash version g = do
  root ← find g version p
  root_ty ← ty_at stash root
  elim (as_infer_var root_ty) [
    | none ↦ ok (g, failed (mismatch root (elim (bound_ty bound) [ none ↦ root | some q ↦ q ])))
    | some variable ↦ check_bound f stash version g root variable bound >? λ g' _.
        set_bound_in g' stash version root bound >>= λ r. ok (r.0, done tt)
  ]

-- The operation of `install_error_recovery`. Its debug assertion on the domain is left out.
unfoldable pub install_error : ℕ → ℕ → Stash Cell → ℕ → EGraph → Run (Unit {0})
install_error p error_ty stash version g = do
  root ← find g version p
  error_root ← find g version error_ty
  root_ty ← ty_at stash root
  elim (as_infer_var root_ty) [
    | none ↦ ok (g, failed (mismatch root error_root))
    | some index ↦ ty_at stash error_root >>= λ t. elim (is_error t) [
      | false ↦ ok (g, failed (mismatch root error_root))
      | true ↦ set_bound_in g stash version root (exactly error_root) >>= λ bounded.
          union bounded.0 stash version root error_root >>= λ joined. ok (joined.0, done tt)
    ]
  ]

-- The roots of the two conflicting classes that are variables.
unfoldable pub unresolved_roots : EGraph → Stash Cell → ℕ → List ℕ → Outcome (List ℕ)
unresolved_roots g stash version [] = ok []
unresolved_roots g stash version (p ∷ ps) = do
  root ← find g version p
  t ← ty_at stash root
  rest ← unresolved_roots g stash version ps
  ok (elim (as_infer_var t) [ none ↦ rest | some index ↦ root ∷ rest ])

-- `Result<CommitEffects, RequiredUnifyFailure>`.
pub data Required : Type 0 where
  committed : CommitEffects → Required
  refused : UnifyError → List ℕ → Required

module _ (hs : Hashing Cell) where
  unfoldable pub members : EGraph → ℕ → List ℕ → Stash Cell → List ℕ → Outcome (Stash Cell × List ℕ)
  members g version roots stash [] = ok (stash, [])
  members g version roots stash (variable ∷ rest) = do
    handle ← alloc hs stash 0 (ty (infer_var variable))
    root ← find g version handle.1
    r ← members g version roots handle.0 rest
    ok (r.0, elim (contains roots root) [ true ↦ variable ∷ r.1 | false ↦ r.1 ])

  unfoldable pub affected_variables :
      EGraph → Stash Cell → ℕ → ℕ → ℕ → ℕ → Outcome (Stash Cell × List ℕ)
  affected_variables g stash parent child left right = do
    roots ← unresolved_roots g stash child (left ∷ right ∷ [])
    visible ← Tree.visible_variables g.versions parent
    members g child roots stash visible

  -- The end of a transaction, by the result of its operation.
  unfoldable pub finish :
      {A : Type 0} → ℕ → ℕ → ℕ → Stash Cell → EGraph × Attempt A → Transaction (A × CommitEffects)
  finish f parent child stash (g, done value) = do
    built ← rebuild hs f g child stash
    r ← collapse_into built.0 child parent
    ok (r.0, built.1, done (value, r.1))
  finish f parent child stash (g, failed e) = discard g child >>= λ g'. ok (g', stash, failed e)

  unfoldable pub try_probe :
      {A : Type 0}
      → ℕ
      → EGraph
      → Stash Cell
      → ℕ
      → (Stash Cell → ℕ → EGraph → Run A)
      → Transaction (A × CommitEffects)
  try_probe f g stash parent operation = branch_from g parent >>= λ branch.
      operation stash branch.1 branch.0 >>= λ r. finish f parent branch.1 stash r

  unfoldable pub try_unify_batch :
      ℕ → EGraph → Stash Cell → ℕ → List (ℕ × ℕ) → Transaction (Unit {0} × CommitEffects)
  try_unify_batch f g stash parent equalities =
      try_probe f g stash parent (λ stash version g'. unify_all f stash version g' equalities)

  unfoldable pub try_unify :
      ℕ → EGraph → Stash Cell → ℕ → ℕ → ℕ → Transaction (Unit {0} × CommitEffects)
  try_unify f g stash parent left right = try_unify_batch f g stash parent ((left, right) ∷ [])

  unfoldable pub try_set_bound :
      ℕ → EGraph → Stash Cell → ℕ → ℕ → Bound → Transaction (Unit {0} × CommitEffects)
  try_set_bound f g stash parent p bound = try_probe f g stash parent (set_bound f p bound)

  unfoldable pub install_error_recovery :
      ℕ → EGraph → Stash Cell → ℕ → ℕ → ℕ → Transaction (Unit {0} × CommitEffects)
  install_error_recovery f g stash parent p error_ty =
      try_probe f g stash parent (install_error p error_ty)

  -- The variables to recover, after a domain conflict only.
  unfoldable pub affected_by :
      EGraph → Stash Cell → ℕ → ℕ → UnifyError → Outcome (Stash Cell × List ℕ)
  affected_by g stash parent child (domain_conflict left left_domain right right_domain) =
      affected_variables g stash parent child left right
  affected_by g stash parent child (mismatch _ _) = ok (stash, [])
  affected_by g stash parent child (occurs_check _ _) = ok (stash, [])
  affected_by g stash parent child (universe_leak _ _) = ok (stash, [])
  affected_by g stash parent child reported = ok (stash, [])

  unfoldable pub finish_required :
      ℕ
      → ℕ
      → ℕ
      → Stash Cell
      → EGraph × Attempt (Unit {0})
      → Outcome (EGraph × Stash Cell × Required)
  finish_required f parent child stash (g, done value) = do
    built ← rebuild hs f g child stash
    r ← collapse_into built.0 child parent
    ok (r.0, built.1, committed r.1)
  finish_required f parent child stash (g, failed e) = do
    affected ← affected_by g stash parent child e
    g' ← discard g child
    ok (g', affected.0, refused e affected.1)

  unfoldable pub try_unify_required :
      ℕ → EGraph → Stash Cell → ℕ → ℕ → ℕ → Outcome (EGraph × Stash Cell × Required)
  try_unify_required f g stash parent left right = branch_from g parent >>= λ branch.
      unify_in_probe f stash branch.1 branch.0 left right >>= λ r.
      finish_required f parent branch.1 stash r
