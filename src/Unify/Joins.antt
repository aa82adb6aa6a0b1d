-- ===== src/Unify/Joins.antt =====
-- A unification of crates/sage-ir/src/check/infer/unify.rs that succeeds puts both types in one class.
use sage_dev.Prelude.{
  ℕ, zero, suc, ◌≡◌, ◌∙◌, sym, ap, true, false, Bool-cases, Option-cases, ◌&&◌, ◌||◌, ◌==◌, ==_iff,
  min, given, inl, inr, none, some, [], length, ok, arith, subst,
}
use sage_dev.Ty.{Ty, Cell}
use sage_dev.Stash.{Stash}
use sage_dev.Version.Domain.Lattice.{is_error}
use sage_dev.Version.Tree
use sage_dev.EGraph.{EGraph, exactly, ty_at, as_infer_var, find_mut, union, current_universe}
use sage_dev.EGraph.Find.{Wf, Classes}
use sage_dev.EGraph.Facts.{set_domain_in, lower_universe, set_bound_in}
use sage_dev.EGraph.Within.{
  Within-Wf, find_mut-Within, lower_universe-Quiet, set_domain_in-Quiet, set_bound_in-Quiet,
}
use sage_dev.EGraph.Evolves.{
  Evolves, Evolves-trans, Quiet-Evolves, Coarsened, Coarsened-trans, still_mutable, root_twice,
  find_mut-keeps, union-joins, union-Evolves,
}
use sage_dev.Skeleton.{decompose}
use sage_dev.Skeleton.Equality.{same_skeleton}
use sage_dev.Unify.{
  reported, done, failed, make_accessible, occurs_in, bind_variable, compatible_domain,
  add_dependents, unify_each, unify_variables, unify_variable, unify_rigid, unify_in_probe,
}
use sage_dev.Unify.Isolation.{
  Attempt-cases, make_accessible-Contained, add_dependents-Evolves, unify_each-Contained,
  unify_in_probe-Contained,
}

-- From `g` to `g'` version `v` joins the classes of `a` and `b`, and splits none.
pub record Joins (g g' : EGraph) (v a b : ℕ) : Type 0 where
  pub joined :
      Wf g
      → Tree.assert_mutable g.versions v ≡ ok tt
      → (ρ : ℕ → ℕ) → Classes g v ρ
      → (σ : ℕ → ℕ) × Coarsened g' v ρ σ × (σ a ≡ σ b)

union-Joins :
    (v : ℕ) (g : EGraph) (stash : Stash Cell) (a b : ℕ) {r : EGraph × ℕ}
    → union g stash v a b ≡ ok r
    → Joins g r.0 v a b
union-Joins v g stash a b e = record {
  joined = λ w m ρ classes. union-joins v g stash a b ρ e w m classes;
}

Joins-swap : {g g' : EGraph} {v a b : ℕ} → Joins g g' v a b → Joins g g' v b a
Joins-swap j = record {
  joined = λ w m ρ classes.
      let (σ, coarsened, same) = j.joined w m ρ classes in (σ, coarsened, sym same);
}

Joins-after :
    {g g' g'' : EGraph} {v a b : ℕ} → Evolves g g' v → Joins g' g'' v a b → Joins g g'' v a b
Joins-after first j = record {
  joined = λ w m ρ classes.
      let (σ, coarsened) = first.coarsened w m ρ classes in
      let (τ, coarsened', same) =
        j.joined (Within-Wf first.within w) (still_mutable first.within m) σ coarsened.classes in
      (τ, Coarsened-trans coarsened coarsened', same);
}

Joins-then :
    {g g' g'' : EGraph} {v a b : ℕ}
    → Evolves g g' v
    → Joins g g' v a b
    → Evolves g' g'' v
    → Joins g g'' v a b
Joins-then {a} {b} first j last = record {
  joined = λ w m ρ classes.
      let (σ, coarsened, same) = j.joined w m ρ classes in
      let (τ, coarsened') =
        last.coarsened (Within-Wf first.within w) (still_mutable first.within m) σ
          coarsened.classes in
      (τ, Coarsened-trans coarsened coarsened', coarsened'.together a b same);
}

module _ (v : ℕ) (stash : Stash Cell) where
  bind_variable-Joins :
      (f : ℕ) (g g' : EGraph) (variable_ty variable value : ℕ)
      → bind_variable f g stash v variable_ty variable value ≡ ok (g', done tt)
      → Joins g g' v variable_ty value
  unfolding bind_variable
  bind_variable-Joins f g g' variable_ty variable value e =
      given (occurs_in f g stash v variable [] value) (λ bad. absurd (ground arith))
        λ occurs run. elim (Bool-cases occurs.1) [
          | inl inside ↦ absurd (ground arith)
          | inr outside ↦
              given (current_universe g v variable) (λ bad. absurd (ground arith))
                λ ceiling top.
                  given (make_accessible f stash v variable ceiling g [] value)
                    (λ bad. absurd (ground arith))
                    λ r1 run1. elim (Attempt-cases r1.1) [
                      | inr (error, leaked) ↦ absurd (ground arith)
                      | inl (visited, accessible) ↦
                          given (set_bound_in r1.0 stash v variable_ty (exactly value))
                            (λ bad. absurd (ground arith))
                            λ bounded run2.
                              given (union bounded.0 stash v variable_ty value)
                                (λ bad. absurd (ground arith))
                                λ end run3.
                                  let same : end.0 ≡ g' = ground arith in
                                  let first =
                                    Evolves-trans
                                      (make_accessible-Contained v stash variable ceiling f g []
                                        value r1 run1)
                                      (Quiet-Evolves (
                                        set_bound_in-Quiet v r1.0 stash variable_ty (exactly value)
                                          run2)) in
                                  subst (λ x. Joins g x v variable_ty value) same
                                    (Joins-after first
                                      (union-Joins v bounded.0 stash variable_ty value run3))
                    ]
        ]

  unify_variables-Joins :
      (g g' : EGraph) (left right left_var right_var : ℕ)
      → unify_variables stash v g left right left_var right_var ≡ ok (g', done tt)
      → Joins g g' v left right
  unfolding unify_variables
  unify_variables-Joins g g' left right left_var right_var e =
      given (compatible_domain g stash v left right) (λ bad. absurd (ground arith))
        λ compatible run. elim (Attempt-cases compatible) [
          | inr (error, refused) ↦ absurd (ground arith)
          | inl (common, agreed) ↦ elim (Option-cases common) [
            | inl missing ↦ absurd (ground arith)
            | inr (domain, found) ↦
                given (current_universe g v left_var) (λ bad. absurd (ground arith))
                  λ lu here1.
                    given (current_universe g v right_var) (λ bad. absurd (ground arith))
                      λ ru here2.
                        given (lower_universe g v left_var (min lu ru))
                          (λ bad. absurd (ground arith))
                          λ g1 run1.
                            given (lower_universe g1.0 v right_var (min lu ru))
                              (λ bad. absurd (ground arith))
                              λ g2 run2.
                                given (union g2.0 stash v left right) (λ bad. absurd (ground arith))
                                  λ end run3.
                                    given (set_domain_in end.0 stash v end.1 domain)
                                      (λ bad. absurd (ground arith))
                                      λ narrowed run4.
                                        let lowered =
                                          Evolves-trans
                                            (Quiet-Evolves
                                              (lower_universe-Quiet v g left_var (min lu ru) run1))
                                            (Quiet-Evolves (
                                              lower_universe-Quiet v g1.0 right_var (min lu ru)
                                                run2)) in
                                        let last =
                                          Joins-then (union-Evolves v g2.0 stash left right run3)
                                            (union-Joins v g2.0 stash left right run3)
                                            (Quiet-Evolves (
                                              set_domain_in-Quiet v end.0 stash end.1 domain
                                                run4)) in
                                        let same : narrowed.0 ≡ g' = ground arith in
                                        subst (λ x. Joins g x v left right) same
                                          (Joins-after lowered last)
          ]
        ]

  unify_variable-Joins :
      (f : ℕ) (g g' : EGraph) (left right variable_ty variable value : ℕ)
      → unify_variable stash v f g left right variable_ty variable value ≡ ok (g', done tt)
      → Joins g g' v variable_ty value
  unfolding unify_variable
  unify_variable-Joins f g g' left right variable_ty variable value e =
      given (compatible_domain g stash v left right) (λ bad. absurd (ground arith))
        λ compatible run. elim (Attempt-cases compatible) [
          | inr (error, refused) ↦ absurd (ground arith)
          | inl (common, agreed) ↦
              bind_variable-Joins f g g' variable_ty variable value (ground arith)
        ]

  unify_rigid-Joins :
      (f : ℕ) (g g' : EGraph) (left right : ℕ)
      → unify_rigid stash v (unify_in_probe f stash v) g left right ≡ ok (g', done tt)
      → Joins g g' v left right
  unfolding unify_rigid
  unify_rigid-Joins f g g' left right e =
      given (decompose stash left) (λ bad. absurd (ground arith))
        λ l taken1.
          given (decompose stash right) (λ bad. absurd (ground arith))
            λ r taken2.
              elim (Bool-cases
                (same_skeleton l.skeleton r.skeleton && length l.children == length r.children)) [
                  | inr differ ↦ absurd (ground arith)
                  | inl alike ↦
                      given (add_dependents g v left l.children) (λ bad. absurd (ground arith))
                        λ g1 run1.
                          given (add_dependents g1 v right r.children)
                            (λ bad. absurd (ground arith))
                            λ g2 run2.
                              given (unify_each (unify_in_probe f stash v) g2 l.children r.children)
                                (λ bad. absurd (ground arith))
                                λ r3 run3. elim (Attempt-cases r3.1) [
                                  | inr (error, refused) ↦ absurd (ground arith)
                                  | inl (_, agreed) ↦
                                      given (union r3.0 stash v left right)
                                        (λ bad. absurd (ground arith))
                                        λ end run4.
                                          let first =
                                            Evolves-trans
                                              (Evolves-trans
                                                (add_dependents-Evolves v stash g left l.children
                                                  run1)
                                                (add_dependents-Evolves v stash g1 right r.children
                                                  run2))
                                              (unify_each-Contained v stash
                                                (unify_in_probe f stash v)
                                                (unify_in_probe-Contained v stash f) g2 l.children
                                                r.children r3 run3) in
                                          let same : end.0 ≡ g' = ground arith in
                                          subst (λ x. Joins g x v left right) same
                                            (Joins-after first
                                              (union-Joins v r3.0 stash left right run4))
                                ]
                ]

  -- The types of two roots.
  roots-Joins :
      (f : ℕ) (g g' : EGraph) (l r : ℕ) (lt rt : Ty)
      → (l == r) ≡ false
      → elim (is_error lt || is_error rt) [
        | true ↦ ok (g, failed reported)
        | false ↦ elim (as_infer_var lt) [
          | some i ↦ elim (as_infer_var rt) [
            | some j ↦ unify_variables stash v g l r i j
            | none ↦ unify_variable stash v f g l r l i r
          ]
          | none ↦ elim (as_infer_var rt) [
            | some j ↦ unify_variable stash v f g l r r j l
            | none ↦ unify_rigid stash v (unify_in_probe f stash v) g l r
          ]
        ]
      ]
        ≡ ok (g', done tt)
      → Joins g g' v l r
  roots-Joins f g g' l r lt rt differ e = elim (Bool-cases (is_error lt || is_error rt)) [
    | inl broken ↦ absurd (ground arith)
    | inr sound ↦ elim (Option-cases (as_infer_var lt)) [
      | inr (i, left_var) ↦ elim (Option-cases (as_infer_var rt)) [
        | inr (j, right_var) ↦ unify_variables-Joins g g' l r i j (ground arith)
        | inl right_rigid ↦ unify_variable-Joins f g g' l r l i r (ground arith)
      ]
      | inl left_rigid ↦ elim (Option-cases (as_infer_var rt)) [
        | inr (j, right_var) ↦ Joins-swap (unify_variable-Joins f g g' l r r j l (ground arith))
        | inl right_rigid ↦ unify_rigid-Joins f g g' l r (ground arith)
      ]
    ]
  ]

  -- In a mutable version of a well-formed graph in which every class has a root, a unification that
  -- succeeds joins the classes of both types: classes have roots again, types that were of one class still
  -- are, and the two types now have the same root.
  pub unify_in_probe-joins :
      (f : ℕ) (g g' : EGraph) (left right : ℕ) (ρ : ℕ → ℕ)
      → Wf g
      → Tree.assert_mutable g.versions v ≡ ok tt
      → Classes g v ρ
      → unify_in_probe f stash v g left right ≡ ok (g', done tt)
      → (σ : ℕ → ℕ) × Coarsened g' v ρ σ × (σ left ≡ σ right)
  unfolding unify_in_probe
  unify_in_probe-joins zero g g' left right ρ w m classes e = absurd (cc)
  unify_in_probe-joins (suc f) g g' left right ρ w m classes e =
      given (find_mut g v left) (λ bad. absurd (ground arith))
        λ l run1.
          given (find_mut l.0 v right) (λ bad. absurd (ground arith))
            λ r run2.
              let within1 = find_mut-Within v g left run1 in
              let within2 = find_mut-Within v l.0 right run2 in
              let w1 = Within-Wf within1 w in
              let m1 = still_mutable within1 m in
              let (kept1, root1) = find_mut-keeps v g left ρ run1 w m classes in
              let (kept2, root2) = find_mut-keeps v l.0 right ρ run2 w1 m1 kept1 in
              elim (Bool-cases (l.1 == r.1)) [
                | inl same ↦
                    let ends : r.0 ≡ g' = ground arith in
                    (
                      ρ,
                      record {
                        classes = subst (λ x. Classes x v ρ) ends kept2;
                        together = λ p q h. h;
                      },
                      sym root1 ∙ (==_iff l.1 r.1).0 same ∙ root2,
                    )
                | inr differ ↦
                    given (ty_at stash l.1) (λ bad. absurd (ground arith))
                      λ lt read1.
                        given (ty_at stash r.1) (λ bad. absurd (ground arith))
                          λ rt read2.
                            let j = roots-Joins f r.0 g' l.1 r.1 lt rt differ (ground arith) in
                            let (σ, coarsened, together) =
                              j.joined (Within-Wf within2 w1) (still_mutable within2 m1) ρ kept2 in
                            let of_left =
                              coarsened.together (ρ left) left
                                (root_twice g v ρ left w m classes) in
                            let of_right =
                              coarsened.together (ρ right) right
                                (root_twice g v ρ right w m classes) in
                            (
                              σ,
                              coarsened,
                              sym of_left ∙ ap σ (sym root1) ∙ together ∙ ap σ root2 ∙ of_right,
                            )
              ]
