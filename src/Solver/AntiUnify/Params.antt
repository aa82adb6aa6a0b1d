-- ===== src/Solver/AntiUnify/Params.antt =====
-- The searches for parameters in types of crates/sage-ir/src/check/solve/anti_unify.rs.
use sage_dev.Prelude.{ℕ, zero, suc, ◌<◌, ◌≡◌, refl, inl, inr, Option, List, [], ◌∷◌, ok, arith}
use sage_dev.Ty.{Cell}
use sage_dev.Stash.{Stash}
use sage_dev.Solver.Subst.{SubstEntry}
use sage_dev.Solver.AntiUnify.{as_param, collect_own, collect_params, collect_used_witnesses}
use sage_dev.Solver.AntiUnify.Occurs.{
  Gains, Gains-trans, collect_each-Gains, Layered, here, below, Occurs-cases, decompose_run, Wanted,
  collect_own-Gains, Used, IsTy, AllBelow,
}

module _ (alpha_equiv : ℕ → Option ℕ) (stash : Stash Cell) where
  module _ (layered : Layered stash) where
    -- Let every type of the stash have its children at earlier entries, as storing leaves them. From a type,
    -- with more fuel than the handle's number, `collect_params` returns what was there and the candidates that stand in the type, and
    -- no more.
    pub collect_params-Gains :
        (candidates : List ℕ) (f p : ℕ) (output : List ℕ)
        → IsTy stash p
        → p < f
        → (new : List ℕ) × (collect_params alpha_equiv f stash candidates output p ≡ ok new)
          × Gains output (Wanted alpha_equiv stash candidates p) new
    unfolding collect_params
    collect_params-Gains candidates zero p output h fuel = absurd (omega arith)
    collect_params-Gains candidates (suc f) p output (t, read) fuel =
        let (d, parts, lower) = layered.parts p t read in
        let run = decompose_run alpha_equiv stash p t d read parts in
        let first =
          collect_own-Gains alpha_equiv stash candidates output (as_param alpha_equiv t) in
        let (new, runs, rest) =
          collect_each-Gains (collect_params alpha_equiv f stash candidates)
            (Wanted alpha_equiv stash candidates) d.children
            (collect_own candidates output (as_param alpha_equiv t))
            (λ c old inside.
              collect_params-Gains candidates f c old (lower c inside).1
                (let low = (lower c inside).0 in omega arith)) in
        (
          new,
          ground arith,
          Gains-trans first rest (λ k (inside, e). (inside, here t read e))
              (λ k (c, among, (inside, o)). (inside, below d c run among o))
              (λ k (inside, o). elim (Occurs-cases alpha_equiv stash t d read run o) [
                | inl own ↦ inl (inside, own)
                | inr (c, among, deeper) ↦ inr (c, among, (inside, deeper))
              ]),
        )

    -- Let every type of the stash be such that it can be taken apart into types at earlier entries, as storing
    -- leaves them, and let the values of a substitution be types. With more fuel than the handle of any of
    -- these values, `collect_used_witnesses` returns, beside what was there, exactly the witnesses
    -- that stand in the value of some entry of the substitution.
    pub collect_used_witnesses-Gains :
        (witnesses : List ℕ) (f : ℕ) (entries : List SubstEntry) (output : List ℕ)
        → AllBelow stash f entries
        → (new : List ℕ) × (collect_used_witnesses alpha_equiv f stash witnesses entries output
            ≡ ok new)
          × Gains output (Used alpha_equiv stash witnesses entries) new
    unfolding collect_used_witnesses
    collect_used_witnesses-Gains witnesses f [] output inside =
        (output, refl, record { kept = λ k h. h; gained = λ k q. absurd q; only = λ k h. inl h })
    collect_used_witnesses-Gains witnesses f (e ∷ entries) output (low, of, inside) =
        let (mid, run, first) = collect_params-Gains witnesses f e.value output of low in
        let (new, runs, rest) = collect_used_witnesses-Gains witnesses f entries mid inside in
        (new, ground arith, Gains-trans first rest (λ k q. inl q) (λ k q. inr q) (λ k q. q))
