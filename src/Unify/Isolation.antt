-- ===== src/Unify/Isolation.antt =====
-- The operations of crates/sage-ir/src/check/infer/unify.rs write to the state of
-- their version only, and join classes without splitting any.
use sage_dev.Prelude.{
  ℕ, zero, suc, ◌≡◌, refl, Bool-cases, Option-cases, ◌&&◌, ◌||◌, ◌==◌, min, given, inl, inr, List,
  [], ◌∷◌, length, contains, ok, ◌>>=◌, arith, ◌⊎◌,
}
use sage_dev.Ty.{Cell}
use sage_dev.Stash.{Stash}
use sage_dev.Version.Domain.Lattice.{is_error}
use sage_dev.EGraph.{
  EGraph, exactly, bound_ty, ty_at, as_infer_var, find, find_mut, union, current_universe,
}
use sage_dev.EGraph.Facts.{set_domain_in, lower_universe, get_bound, set_bound_in}
use sage_dev.EGraph.Dependents.{add_dependent}
use sage_dev.EGraph.Within.{
  lower_universe-Quiet, set_domain_in-Quiet, set_bound_in-Quiet, add_dependent-Quiet,
}
use sage_dev.EGraph.Evolves.{
  Evolves, Evolves-refl, Evolves-trans, Quiet-Evolves, find_mut-Evolves, union-Evolves,
}
use sage_dev.Skeleton.{decompose}
use sage_dev.Skeleton.Equality.{same_skeleton}
use sage_dev.Unify.{
  UnifyError, Attempt, done, failed, Run, ◌>?◌, own_param, leaks, access_each, make_accessible,
  occurs_in, bind_variable, compatible_domain, add_dependents, unify_each, unify_variables,
  unify_variable, unify_rigid, unify_in_probe,
}

pub Attempt-cases {ℓ} :
    {A : Type ℓ} (a : Attempt A)
    → ((value : A) × (a ≡ done value)) ⊎ ((e : UnifyError) × (a ≡ failed e))
Attempt-cases (done value) = inl (value, refl)
Attempt-cases (failed e) = inr (e, refl)

module _ (v : ℕ) where
  -- A run from `g` that leaves the other versions alone, whether it fails or not.
  abbrev pub Contained {ℓ} : {A : Type ℓ} → EGraph → Run A → Type ℓ
  Contained {A} g run = (r : EGraph × Attempt A) → run ≡ ok r → Evolves g r.0 v

  pub >?-Contained {ℓ κ} :
      {A : Type ℓ} {B : Type κ} {g : EGraph} (run : Run A) (next : EGraph → A → Run B)
      → Contained g run
      → ((g' : EGraph) (value : A) → Contained g' (next g' value))
      → Contained g (run >? next)
  >?-Contained run next first then r e =
      given run (λ bad. absurd (ground arith))
        λ r1 ran. elim (Attempt-cases r1.1) [
          | inl (value, is_done) ↦ Evolves-trans (first r1 ran) (then r1.0 value r (ground arith))
          | inr (error, is_failed) ↦ let w = first r1 ran in ground arith
        ]

  module _ (stash : Stash Cell) where
    access_each-Contained :
        (sub : EGraph → List ℕ → ℕ → Run (List ℕ))
        → ((g : EGraph) (visited : List ℕ) (p : ℕ) → Contained g (sub g visited p))
        → (g : EGraph) (visited cs : List ℕ) → Contained g (access_each sub g visited cs)
    unfolding access_each
    access_each-Contained sub each g visited [] r e = ground (arith, Evolves-refl g v)
    access_each-Contained sub each g visited (c ∷ cs) r e =
        >?-Contained (sub g visited c) (λ g' visited'. access_each sub g' visited' cs)
          (each g visited c) (λ g' visited'. access_each-Contained sub each g' visited' cs) r e

    module _ (outer ceiling : ℕ) where
      pub make_accessible-Contained :
          (f : ℕ) (g : EGraph) (visited : List ℕ) (p : ℕ)
          → Contained g (make_accessible f stash v outer ceiling g visited p)
      unfolding make_accessible
      make_accessible-Contained zero g visited p r e = cc
      make_accessible-Contained (suc f) g visited p r e =
          given (find g v p) (λ bad. absurd (ground arith))
            λ root found. elim (Bool-cases (contains visited root)) [
              | inl again ↦ ground (arith, Evolves-refl g v)
              | inr new ↦
                  given (ty_at stash root) (λ bad. absurd (ground arith))
                    λ root_ty read. elim (Option-cases (as_infer_var root_ty)) [
                      | inr (index, variable) ↦
                          given (lower_universe g v index ceiling) (λ bad. absurd (ground arith))
                            λ lowered run.
                              let w = Quiet-Evolves (lower_universe-Quiet v g index ceiling run) in
                              given (get_bound lowered.0 v root) (λ bad. absurd (ground arith))
                                λ bound bounded. elim (Option-cases (bound_ty bound)) [
                                  | inl free ↦ ground arith
                                  | inr (q, tied) ↦ Evolves-trans w (
                                      make_accessible-Contained f lowered.0 (root ∷ visited) q r
                                        (ground arith))
                                ]
                      | inl rigid ↦ elim (Bool-cases (leaks g ceiling (own_param root_ty))) [
                        | inl leaking ↦ ground (arith, Evolves-refl g v)
                        | inr safe ↦
                            given (decompose stash root) (λ bad. absurd (ground arith))
                              λ d parts.
                                access_each-Contained (make_accessible f stash v outer ceiling)
                                  (make_accessible-Contained f) g (root ∷ visited) d.children r
                                  (ground arith)
                      ]
                    ]
            ]

    bind_variable-Contained :
        (f : ℕ) (g : EGraph) (variable_ty variable value : ℕ)
        → Contained g (bind_variable f g stash v variable_ty variable value)
    unfolding bind_variable
    bind_variable-Contained f g variable_ty variable value r e =
        given (occurs_in f g stash v variable [] value) (λ bad. absurd (ground arith))
          λ occurs run. elim (Bool-cases occurs.1) [
            | inl inside ↦ ground (arith, Evolves-refl g v)
            | inr outside ↦
                given (current_universe g v variable) (λ bad. absurd (ground arith))
                  λ ceiling top.
                    >?-Contained (make_accessible f stash v variable ceiling g [] value)
                      bound_and_joined (make_accessible-Contained variable ceiling f g [] value)
                      (λ g1 visited. bound_and_joined-Contained g1 visited) r (ground arith)
          ]
      where
        bound_and_joined : EGraph → List ℕ → Run (Unit {0})
        bound_and_joined g1 visited =
            set_bound_in g1 stash v variable_ty (exactly value) >>= λ bounded.
            union bounded.0 stash v variable_ty value >>= λ joined. ok (joined.0, done tt)

        bound_and_joined-Contained :
            (g1 : EGraph) (visited : List ℕ) → Contained g1 (bound_and_joined g1 visited)
        bound_and_joined-Contained g1 visited r' e' =
            given (set_bound_in g1 stash v variable_ty (exactly value))
              (λ bad. absurd (ground arith))
              λ bounded run1.
                given (union bounded.0 stash v variable_ty value) (λ bad. absurd (ground arith))
                  λ joined run2.
                    let w =
                      Evolves-trans
                        (Quiet-Evolves
                          (set_bound_in-Quiet v g1 stash variable_ty (exactly value) run1))
                        (union-Evolves v bounded.0 stash variable_ty value run2) in
                    ground arith

    pub add_dependents-Evolves :
        (g : EGraph) (parent_ty : ℕ) (cs : List ℕ) {g' : EGraph}
        → add_dependents g v parent_ty cs ≡ ok g'
        → Evolves g g' v
    unfolding add_dependents
    add_dependents-Evolves g parent_ty [] e = ground (arith, Evolves-refl g v)
    add_dependents-Evolves g parent_ty (c ∷ cs) e =
        given (add_dependent g v c parent_ty) (λ bad. absurd (ground arith))
          λ g1 run.
            Evolves-trans (Quiet-Evolves (add_dependent-Quiet v g c parent_ty run))
              (add_dependents-Evolves g1 parent_ty cs (ground arith))

    pub unify_each-Contained :
        (sub : EGraph → ℕ → ℕ → Run (Unit {0}))
        → ((g : EGraph) (l r : ℕ) → Contained g (sub g l r))
        → (g : EGraph) (ls rs : List ℕ) → Contained g (unify_each sub g ls rs)
    unfolding unify_each
    unify_each-Contained sub each g (l ∷ ls) (r ∷ rs) q e =
        >?-Contained (sub g l r) (λ g' _. unify_each sub g' ls rs) (each g l r)
          (λ g' _. unify_each-Contained sub each g' ls rs) q e
    unify_each-Contained sub each g [] rs q e = ground (arith, Evolves-refl g v)
    unify_each-Contained sub each g (l ∷ ls) [] q e = ground (arith, Evolves-refl g v)

    unify_variables-Contained :
        (g : EGraph) (left right left_var right_var : ℕ)
        → Contained g (unify_variables stash v g left right left_var right_var)
    unfolding unify_variables
    unify_variables-Contained g left right left_var right_var r e =
        given (compatible_domain g stash v left right) (λ bad. absurd (ground arith))
          λ compatible run. elim (Attempt-cases compatible) [
            | inr (error, refused) ↦ ground (arith, Evolves-refl g v)
            | inl (common, agreed) ↦ elim (Option-cases common) [
              | inl missing ↦ absurd (ground arith)
              | inr (domain, found) ↦
                  given (current_universe g v left_var) (λ bad. absurd (ground arith))
                    λ lu here1.
                      given (current_universe g v right_var) (λ bad. absurd (ground arith))
                        λ ru here2.
                          given (lower_universe g v left_var (min lu ru))
                            (λ bad. absurd (ground arith))
                            λ g1 run1.
                              given (lower_universe g1.0 v right_var (min lu ru))
                                (λ bad. absurd (ground arith))
                                λ g2 run2.
                                  given (union g2.0 stash v left right)
                                    (λ bad. absurd (ground arith))
                                    λ joined run3.
                                      given (set_domain_in joined.0 stash v joined.1 domain)
                                        (λ bad. absurd (ground arith))
                                        λ narrowed run4.
                                          let lowered =
                                            Evolves-trans
                                              (Quiet-Evolves (
                                                lower_universe-Quiet v g left_var (min lu ru) run1))
                                              (Quiet-Evolves (
                                                lower_universe-Quiet v g1.0 right_var (min lu ru)
                                                  run2)) in
                                          let w = Evolves-trans lowered (
                                            Evolves-trans
                                              (union-Evolves v g2.0 stash left right run3)
                                              (Quiet-Evolves (
                                                set_domain_in-Quiet v joined.0 stash joined.1 domain
                                                  run4))) in
                                          ground arith
            ]
          ]

    unify_variable-Contained :
        (f : ℕ) (g : EGraph) (left right variable_ty variable value : ℕ)
        → Contained g (unify_variable stash v f g left right variable_ty variable value)
    unfolding unify_variable
    unify_variable-Contained f g left right variable_ty variable value r e =
        given (compatible_domain g stash v left right) (λ bad. absurd (ground arith))
          λ compatible run. elim (Attempt-cases compatible) [
            | inr (error, refused) ↦ ground (arith, Evolves-refl g v)
            | inl (common, agreed) ↦
                bind_variable-Contained f g variable_ty variable value r (ground arith)
          ]

    unify_rigid-Contained :
        (sub : EGraph → ℕ → ℕ → Run (Unit {0}))
        → ((g : EGraph) (l r : ℕ) → Contained g (sub g l r))
        → (g : EGraph) (left right : ℕ) → Contained g (unify_rigid stash v sub g left right)
    unfolding unify_rigid
    unify_rigid-Contained sub each g left right q e =
        given (decompose stash left) (λ bad. absurd (ground arith))
          λ l taken1.
            given (decompose stash right) (λ bad. absurd (ground arith))
              λ r taken2.
                elim (Bool-cases
                  (same_skeleton l.skeleton r.skeleton && length l.children == length r.children)) [
                    | inr differ ↦ ground (arith, Evolves-refl g v)
                    | inl same ↦
                        given (add_dependents g v left l.children) (λ bad. absurd (ground arith))
                          λ g1 run1.
                            given (add_dependents g1 v right r.children)
                              (λ bad. absurd (ground arith))
                              λ g2 run2.
                                let w =
                                  Evolves-trans (add_dependents-Evolves g left l.children run1)
                                    (add_dependents-Evolves g1 right r.children run2) in
                                Evolves-trans w (
                                  >?-Contained (unify_each sub g2 l.children r.children) joined
                                    (unify_each-Contained sub each g2 l.children r.children)
                                    joined-Contained q (ground arith))
                  ]
      where
        joined : EGraph → Unit {0} → Run (Unit {0})
        joined g3 _ = union g3 stash v left right >>= λ r. ok (r.0, done tt)

        joined-Contained : (g3 : EGraph) (u : Unit {0}) → Contained g3 (joined g3 u)
        joined-Contained g3 u r' e' =
            given (union g3 stash v left right) (λ bad. absurd (ground arith))
              λ end run. let w = union-Evolves v g3 stash left right run in ground arith

    pub unify_in_probe-Contained :
        (f : ℕ) (g : EGraph) (left right : ℕ) → Contained g (unify_in_probe f stash v g left right)
    unfolding unify_in_probe
    unify_in_probe-Contained zero g left right q e = cc
    unify_in_probe-Contained (suc f) g left right q e =
        given (find_mut g v left) (λ bad. absurd (ground arith))
          λ l run1.
            given (find_mut l.0 v right) (λ bad. absurd (ground arith))
              λ r run2.
                let w =
                  Evolves-trans (find_mut-Evolves v g left run1)
                    (find_mut-Evolves v l.0 right run2) in
                elim (Bool-cases (l.1 == r.1)) [
                  | inl same ↦ ground arith
                  | inr differ ↦
                      given (ty_at stash l.1) (λ bad. absurd (ground arith))
                        λ left_ty read1.
                          given (ty_at stash r.1) (λ bad. absurd (ground arith))
                            λ right_ty read2.
                              elim (Bool-cases (is_error left_ty || is_error right_ty)) [
                                | inl broken ↦ ground arith
                                | inr sound ↦
                                    Evolves-trans w (elim (Option-cases (as_infer_var left_ty)) [
                                      | inr (i, left_var) ↦
                                          elim (Option-cases (as_infer_var right_ty)) [
                                            | inr (j, right_var) ↦
                                                unify_variables-Contained r.0 l.1 r.1 i j q
                                                  (ground arith)
                                            | inl right_rigid ↦
                                                unify_variable-Contained f r.0 l.1 r.1 l.1 i r.1 q
                                                  (ground arith)
                                          ]
                                      | inl left_rigid ↦
                                          elim (Option-cases (as_infer_var right_ty)) [
                                            | inr (j, right_var) ↦
                                                unify_variable-Contained f r.0 l.1 r.1 r.1 j l.1 q
                                                  (ground arith)
                                            | inl right_rigid ↦
                                                unify_rigid-Contained (unify_in_probe f stash v)
                                                  (unify_in_probe-Contained f) r.0 l.1 r.1 q
                                                  (ground arith)
                                          ]
                                    ])
                              ]
                ]
