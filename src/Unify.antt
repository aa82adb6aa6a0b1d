-- ===== src/Unify.antt =====
-- crates/sage-ir/src/check/infer/unify.rs: unification inside a transaction on the e-graph. The
-- `&mut` graph is passed along on errors too. Unification reads its stash only; `rebuild` and the
-- list of affected variables add to it. Recursions that follow types or bounds take fuel.
pub mod Transaction
pub mod Isolation
pub mod Examples
pub mod Joins
pub mod Meeting
pub mod Variables
pub mod Occurs
pub mod Operations
pub mod Rollback
use sage_dev.Prelude.{
  ℕ, zero, suc, ◌≤◌, Bool, true, false, not, ◌&&◌, ◌||◌, Option, none, some, List, [], ◌∷◌, ◌++◌,
  ◌==◌, ltb, min, length, contains, Outcome, ok, panicked, out_of_fuel, ◌>>=◌, ◌>>◌, assert, expect,
}
use sage_dev.Ty.{Ty, Const, Cell, ty, infer_var}
use sage_dev.Stash.{Stash, Hashing, alloc}
use sage_dev.Version.Domain.{InferDomain, integer, intersect, admits}
use sage_dev.Version.Domain
use sage_dev.Version.Domain.Lattice.{is_error}
use sage_dev.Version.Tree
use sage_dev.EGraph.{
  EGraph, Bound, unbounded, at_least, exactly, bound_ty, CommitEffects, ty_at, as_infer_var, find,
  find_mut, union, current_universe,
}
use sage_dev.EGraph.Facts.{
  effective_domain, set_domain_in, lower_universe, placeholder_universe, get_bound, set_bound_in,
}
use sage_dev.EGraph.Lifecycle.{branch_from, collapse_into, discard}
use sage_dev.EGraph.Dependents.{add_dependent, rebuild}
use sage_dev.Skeleton.{decompose}
use sage_dev.Skeleton.Equality.{same_skeleton}

pub data UnifyError : Type 0 where
  mismatch : ℕ → ℕ → UnifyError
  occurs_check : ℕ → ℕ → UnifyError
  universe_leak : ℕ → ℕ → UnifyError
  domain_conflict : ℕ → Option InferDomain → ℕ → Option InferDomain → UnifyError
  reported : UnifyError

-- A Rust `Result` with a `UnifyError`.
pub data Attempt {ℓ} (A : Type ℓ) : Type ℓ where
  done : A → Attempt A
  failed : UnifyError → Attempt A

-- A run that writes to the graph, and `?` after it: a failure keeps the graph as it is.
abbrev pub Run {ℓ} : Type ℓ → Type ℓ
Run A = Outcome (EGraph × Attempt A)

abbrev pub continue {ℓ κ} :
    {A : Type ℓ} {B : Type κ} → (EGraph → A → Run B) → EGraph × Attempt A → Run B
continue next (g, done value) = next g value
continue next (g, failed e) = ok (g, failed e)

infixl 5 ◌>?◌
abbrev pub ◌>?◌ {ℓ κ} : {A : Type ℓ} {B : Type κ} → Run A → (EGraph → A → Run B) → Run B
run >? next = run >>= continue next

unfoldable pub semantic_domain : EGraph → Stash Cell → ℕ → ℕ → Outcome (Option InferDomain)
semantic_domain g stash version p = do
  root ← find g version p
  known ← effective_domain g stash version root
  root_ty ← ty_at stash root
  ok (elim known [
    | some domain ↦ some domain
    | none ↦ elim root_ty [
      | Ty.int _ ↦ some integer
      | Ty.uint _ ↦ some integer
      | Ty.float _ ↦ some Domain.float
      | _ ↦ none
    ]
  ])

-- The error of two conflicting domains.
unfoldable pub conflict : EGraph → Stash Cell → ℕ → ℕ → ℕ → Outcome UnifyError
conflict g stash version left right = do
  left_domain ← semantic_domain g stash version left
  right_domain ← semantic_domain g stash version right
  ok (domain_conflict left left_domain right right_domain)

abbrev pub or_conflict :
    EGraph
    → Stash Cell
    → ℕ
    → ℕ
    → ℕ
    → Option (Option InferDomain)
    → Outcome (Attempt (Option InferDomain))
or_conflict g stash version left right (some domain) = ok (done domain)
or_conflict g stash version left right none =
    conflict g stash version left right >>= λ e. ok (failed e)

-- The domains of two classes and their root types: what is common, if anything is. `some none`
-- stands for a rigid side that the other side admits.
abbrev pub common_domain :
    Option InferDomain → Option InferDomain → Ty → Ty → Option (Option InferDomain)
common_domain (some a) (some b) left_ty right_ty = elim (intersect a b) [
  | none ↦ none
  | some d ↦ some (some d)
]
common_domain (some a) none left_ty right_ty = elim (admits a right_ty) [
  | true ↦ some none
  | false ↦ none
]
common_domain none (some b) left_ty right_ty = elim (admits b left_ty) [
  | true ↦ some none
  | false ↦ none
]
common_domain none none left_ty right_ty = some none

unfoldable pub compatible_domain :
    EGraph → Stash Cell → ℕ → ℕ → ℕ → Outcome (Attempt (Option InferDomain))
compatible_domain g stash version left right = do
  left_root ← find g version left
  right_root ← find g version right
  left_domain ← effective_domain g stash version left_root
  right_domain ← effective_domain g stash version right_root
  left_ty ← ty_at stash left_root
  right_ty ← ty_at stash right_root
  or_conflict g stash version left_root right_root
      (common_domain left_domain right_domain left_ty right_ty)

-- `Iterator::any` with the set of visited types passed along.
unfoldable pub occurs_any :
    (List ℕ → ℕ → Outcome (List ℕ × Bool)) → List ℕ → List ℕ → Outcome (List ℕ × Bool)
occurs_any sub visited [] = ok (visited, false)
occurs_any sub visited (c ∷ cs) =
    sub visited c >>= λ r. elim r.1 [ true ↦ ok r | false ↦ occurs_any sub r.0 cs ]

-- Whether the variable `needle` occurs in the type.
unfoldable pub occurs_in : ℕ → EGraph → Stash Cell → ℕ → ℕ → List ℕ → ℕ → Outcome (List ℕ × Bool)
occurs_in zero g stash version needle visited p = out_of_fuel
occurs_in (suc f) g stash version needle visited p = find g version p >>= λ root.
    elim (contains visited root) [
      | true ↦ ok (visited, false)
      | false ↦ ty_at stash root >>= λ root_ty. elim (as_infer_var root_ty) [
        | some index ↦ elim (index == needle) [
          | true ↦ ok (root ∷ visited, true)
          | false ↦ get_bound g version root >>= λ bound. elim (bound_ty bound) [
            | none ↦ ok (root ∷ visited, false)
            | some q ↦ occurs_in f g stash version needle (root ∷ visited) q
          ]
        ]
        | none ↦ decompose stash root >>= λ d.
            occurs_any (occurs_in f g stash version needle) (root ∷ visited) d.children
      ]
    ]

-- The parameter that a type names itself, and not by a child.
abbrev pub own_param : Ty → Option ℕ
own_param (Ty.param p) = some p
own_param (Ty.array inner (Const.param p)) = some p
own_param _ = none

-- Whether that parameter lives in a universe above the ceiling.
abbrev pub leaks : EGraph → ℕ → Option ℕ → Bool
leaks g ceiling none = false
leaks g ceiling (some p) = ltb ceiling (placeholder_universe g p)

unfoldable pub access_each :
    (EGraph → List ℕ → ℕ → Run (List ℕ)) → EGraph → List ℕ → List ℕ → Run (List ℕ)
access_each sub g visited [] = ok (g, done visited)
access_each sub g visited (c ∷ cs) =
    sub g visited c >? λ g' visited'. access_each sub g' visited' cs

-- Lowers the variables of a type to `ceiling`; a parameter above it is an error.
unfoldable pub make_accessible : ℕ → Stash Cell → ℕ → ℕ → ℕ → EGraph → List ℕ → ℕ → Run (List ℕ)
make_accessible zero stash version outer ceiling g visited p = out_of_fuel
make_accessible (suc f) stash version outer ceiling g visited p = find g version p >>= λ root.
    elim (contains visited root) [
      | true ↦ ok (g, done visited)
      | false ↦ ty_at stash root >>= λ root_ty. elim (as_infer_var root_ty) [
        | some index ↦ lower_universe g version index ceiling >>= λ lowered.
            get_bound lowered.0 version root >>= λ bound. elim (bound_ty bound) [
              | none ↦ ok (lowered.0, done (root ∷ visited))
              | some q ↦ make_accessible f stash version outer ceiling lowered.0 (root ∷ visited) q
            ]
        | none ↦ elim (leaks g ceiling (own_param root_ty)) [
          | true ↦ ok (g, failed (universe_leak outer ceiling))
          | false ↦ decompose stash root >>= λ d.
              access_each (make_accessible f stash version outer ceiling) g (root ∷ visited)
                d.children
        ]
      ]
    ]

unfoldable pub bind_variable : ℕ → EGraph → Stash Cell → ℕ → ℕ → ℕ → ℕ → Run (Unit {0})
bind_variable f g stash version variable_ty variable value = do
  occurs ← occurs_in f g stash version variable [] value
  elim occurs.1 [
    | true ↦ ok (g, failed (occurs_check variable value))
    | false ↦ current_universe g version variable >>= λ ceiling.
        make_accessible f stash version variable ceiling g [] value >? λ g1 visited.
        set_bound_in g1 stash version variable_ty (exactly value) >>= λ bounded.
        union bounded.0 stash version variable_ty value >>= λ joined. ok (joined.0, done tt)
  ]

unfoldable pub add_dependents : EGraph → ℕ → ℕ → List ℕ → Outcome EGraph
add_dependents g version parent_ty [] = ok g
add_dependents g version parent_ty (c ∷ cs) =
    add_dependent g version c parent_ty >>= λ g'. add_dependents g' version parent_ty cs

unfoldable pub unify_each :
    (EGraph → ℕ → ℕ → Run (Unit {0})) → EGraph → List ℕ → List ℕ → Run (Unit {0})
unify_each sub g (l ∷ ls) (r ∷ rs) = sub g l r >? λ g' _. unify_each sub g' ls rs
unify_each sub g _ _ = ok (g, done tt)

module _ (stash : Stash Cell) (version : ℕ) where
  -- Two variables: the common ceiling, one class, the common domain.
  unfoldable pub unify_variables : EGraph → ℕ → ℕ → ℕ → ℕ → Run (Unit {0})
  unify_variables g left right left_var right_var = do
    compatible ← compatible_domain g stash version left right
    elim compatible [
      | failed e ↦ ok (g, failed e)
      | done common ↦ do
        domain ← expect common
        left_universe ← current_universe g version left_var
        right_universe ← current_universe g version right_var
        g1 ← lower_universe g version left_var (min left_universe right_universe)
        g2 ← lower_universe g1.0 version right_var (min left_universe right_universe)
        joined ← union g2.0 stash version left right
        narrowed ← set_domain_in joined.0 stash version joined.1 domain
        ok (narrowed.0, done tt)
    ]

  -- A variable and a rigid type.
  unfoldable pub unify_variable : ℕ → EGraph → ℕ → ℕ → ℕ → ℕ → ℕ → Run (Unit {0})
  unify_variable f g left right variable_ty variable value =
      compatible_domain g stash version left right >>= λ compatible. elim compatible [
        | failed e ↦ ok (g, failed e)
        | done common ↦ bind_variable f g stash version variable_ty variable value
      ]

  -- Two rigid types: their skeletons must agree, then their children.
  unfoldable pub unify_rigid : (EGraph → ℕ → ℕ → Run (Unit {0})) → EGraph → ℕ → ℕ → Run (Unit {0})
  unify_rigid sub g left right = do
    l ← decompose stash left
    r ← decompose stash right
    elim (same_skeleton l.skeleton r.skeleton && length l.children == length r.children) [
      | false ↦ ok (g, failed (mismatch left right))
      | true ↦ do
        g1 ← add_dependents g version left l.children
        g2 ← add_dependents g1 version right r.children
        unify_each sub g2 l.children r.children >? λ g3 _.
            union g3 stash version left right >>= λ joined. ok (joined.0, done tt)
    ]

unfoldable pub unify_in_probe : ℕ → Stash Cell → ℕ → EGraph → ℕ → ℕ → Run (Unit {0})
unify_in_probe zero stash version g left right = out_of_fuel
unify_in_probe (suc f) stash version g left right = find_mut g version left >>= λ l.
    find_mut l.0 version right >>= λ r. elim (l.1 == r.1) [
      | true ↦ ok (r.0, done tt)
      | false ↦ ty_at stash l.1 >>= λ left_ty. ty_at stash r.1 >>= λ right_ty.
          elim (is_error left_ty || is_error right_ty) [
            | true ↦ ok (r.0, failed reported)
            | false ↦ elim (as_infer_var left_ty) [
              | some i ↦ elim (as_infer_var right_ty) [
                | some j ↦ unify_variables stash version r.0 l.1 r.1 i j
                | none ↦ unify_variable stash version f r.0 l.1 r.1 l.1 i r.1
              ]
              | none ↦ elim (as_infer_var right_ty) [
                | some j ↦ unify_variable stash version f r.0 l.1 r.1 r.1 j l.1
                | none ↦ unify_rigid stash version (unify_in_probe f stash version) r.0 l.1 r.1
              ]
            ]
          ]
    ]
