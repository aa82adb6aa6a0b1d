-- ===== src/Unify/Operations.antt =====
-- The operations that crates/sage-ir/src/check/infer/unify.rs runs in a transaction write to the state
-- of their version only.
use sage_dev.Prelude.{ℕ, Option-cases, Bool-cases, inl, inr, given, List, [], ◌∷◌, ok, ◌>>=◌, arith}
use sage_dev.Ty.{Cell}
use sage_dev.Stash.{Stash}
use sage_dev.Version.Domain.Lattice.{is_error}
use sage_dev.EGraph.{
  EGraph, Bound, unbounded, at_least, exactly, ty_at, as_infer_var, find, union, current_universe,
}
use sage_dev.EGraph.Facts.{set_bound_in}
use sage_dev.EGraph.Within.{set_bound_in-Quiet}
use sage_dev.EGraph.Evolves.{Evolves-refl, Evolves-trans, union-Evolves, Quiet-Evolves}
use sage_dev.Unify.{Run, done, make_accessible, unify_in_probe}
use sage_dev.Unify.Isolation.{
  Contained, >?-Contained, make_accessible-Contained, unify_in_probe-Contained,
}
use sage_dev.Unify.Transaction.{unify_all, check_bound, set_bound, install_error}

module _ (f : ℕ) (stash : Stash Cell) (v : ℕ) where
  pub unify_all-Contained :
      (g : EGraph) (equalities : List (ℕ × ℕ)) → Contained v g (unify_all f stash v g equalities)
  unfolding unify_all
  unify_all-Contained g [] q e = ground (arith, Evolves-refl g v)
  unify_all-Contained g ((l, r) ∷ rest) q e =
      >?-Contained v (unify_in_probe f stash v g l r) (λ g' _. unify_all f stash v g' rest)
        (unify_in_probe-Contained v stash f g l r) (λ g' _. unify_all-Contained g' rest) q e

  check_bound-Contained :
      (g : EGraph) (root variable : ℕ) (bound : Bound)
      → Contained v g (check_bound f stash v g root variable bound)
  unfolding check_bound
  check_bound-Contained g root variable unbounded q e = ground (arith, Evolves-refl g v)
  check_bound-Contained g root variable (at_least p) q e =
      given (current_universe g v variable) (λ bad. absurd (ground arith))
        λ ceiling top.
          >?-Contained v (make_accessible f stash v variable ceiling g [] p)
            (λ g' _. ok (g', done tt)) (make_accessible-Contained v stash variable ceiling f g [] p)
            (λ g' _ q' e'. ground (arith, Evolves-refl g' v)) q (ground arith)
  check_bound-Contained g root variable (exactly p) q e =
      unify_in_probe-Contained v stash f g root p q e

  pub set_bound-Contained :
      (g : EGraph) (p : ℕ) (bound : Bound) → Contained v g (set_bound f p bound stash v g)
  unfolding set_bound
  set_bound-Contained g p bound q e =
      given (find g v p) (λ bad. absurd (ground arith))
        λ root found.
          given (ty_at stash root) (λ bad. absurd (ground arith))
            λ root_ty read. elim (Option-cases (as_infer_var root_ty)) [
              | inl rigid ↦ ground (arith, Evolves-refl g v)
              | inr (variable, flexible) ↦
                  >?-Contained v (check_bound f stash v g root variable bound) (bounded root)
                    (check_bound-Contained g root variable bound) (bounded-Contained root) q
                    (ground arith)
            ]
    where
      bounded : ℕ → EGraph → Unit {0} → Run (Unit {0})
      bounded root g' _ = set_bound_in g' stash v root bound >>= λ r. ok (r.0, done tt)

      bounded-Contained :
          (root : ℕ) (g' : EGraph) (u : Unit {0}) → Contained v g' (bounded root g' u)
      bounded-Contained root g' u q' e' =
          given (set_bound_in g' stash v root bound) (λ bad. absurd (ground arith))
            λ r run.
              let w = Quiet-Evolves (set_bound_in-Quiet v g' stash root bound run) in ground arith

  pub install_error-Contained :
      (g : EGraph) (p error_ty : ℕ) → Contained v g (install_error p error_ty stash v g)
  unfolding install_error
  install_error-Contained g p error_ty q e =
      given (find g v p) (λ bad. absurd (ground arith))
        λ root found1.
          given (find g v error_ty) (λ bad. absurd (ground arith))
            λ error_root found2.
              given (ty_at stash root) (λ bad. absurd (ground arith))
                λ root_ty read1. elim (Option-cases (as_infer_var root_ty)) [
                  | inl rigid ↦ ground (arith, Evolves-refl g v)
                  | inr (index, flexible) ↦
                      given (ty_at stash error_root) (λ bad. absurd (ground arith))
                        λ t read2. elim (Bool-cases (is_error t)) [
                          | inr other ↦ ground (arith, Evolves-refl g v)
                          | inl broken ↦
                              given (set_bound_in g stash v root (exactly error_root))
                                (λ bad. absurd (ground arith))
                                λ bounded run1.
                                  given (union bounded.0 stash v root error_root)
                                    (λ bad. absurd (ground arith))
                                    λ joined run2.
                                      let w =
                                        Evolves-trans
                                          (Quiet-Evolves (
                                            set_bound_in-Quiet v g stash root (exactly error_root)
                                              run1))
                                          (union-Evolves v bounded.0 stash root error_root run2) in
                                      ground arith
                        ]
                ]
