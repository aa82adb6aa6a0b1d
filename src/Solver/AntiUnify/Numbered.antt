-- ===== src/Solver/AntiUnify/Numbered.antt =====
-- The witnesses that `merge_types` of crates/sage-ir/src/check/solve/anti_unify.rs makes.
use sage_dev.Prelude.{
  ℕ, zero, suc, ◌+◌, ◌^◌, ◌≡◌, ◌∙◌, ap, subst, refl, inl, inr, Bool, Bool-cases, ◌&&◌, Option, List,
  [], ◌∷◌, ◌++◌, ltb, length, length-append, get_elem?, Outcome, ok, given, expect, arith,
}
use sage_dev.Ty.{Ty, Cell, ty}
use sage_dev.Stash.{Hashing, alloc}
use sage_dev.Version.Domain.{InferDomain}
use sage_dev.EGraph.Writes.{append_assoc}
use sage_dev.Skeleton.{Decomposed, recompose}
use sage_dev.Solver.Subst.{type}
use sage_dev.Solver.AntiUnify.Merge.{
  ResponseVarInfo, AntiUnifier, all_equal, all_alike, all_arity, decompose_all, column,
  merge_children, explicit_parameter_domain, reduce_domains, fresh_witness, merge_types,
}

module _ (new_param : ℕ → ℕ) where
  -- Witnesses of a universe whose parameters are numbered from `n` on.
  abbrev pub Consecutive : ℕ → ℕ → List ResponseVarInfo → Type 0
  Consecutive universe n [] = Unit {0}
  Consecutive universe n (info ∷ rest) =
      (info.param ≡ new_param n)
      × (info.relative_universe ≡ universe)
      × Consecutive universe (suc n) rest

  Consecutive-append :
      (universe n m : ℕ) (xs ys : List ResponseVarInfo)
      → Consecutive universe n xs
      → m ≡ n + length xs
      → Consecutive universe m ys
      → Consecutive universe n (xs ++ ys)
  Consecutive-append universe n m [] ys c e d =
      let same : m ≡ n = ground arith in subst (λ x. Consecutive universe x ys) same d
  Consecutive-append universe n m (x ∷ xs) ys (at, of, c) e d =
      (at, of, Consecutive-append universe (suc n) m xs ys c (ground arith) d)

  -- From `u` to `u'` witnesses are added, each with the next number.
  pub record Numbered (u u' : AntiUnifier) : Type 0 where
    pub fresh : List ResponseVarInfo
    pub universe_eq : u'.key_universe ≡ u.key_universe
    pub witnesses_eq : u'.witnesses ≡ u.witnesses ++ fresh
    pub next_eq : u'.next_param ≡ u.next_param + length fresh
    pub consecutive : Consecutive u.key_universe u.next_param fresh

  append_nil : (xs : List ResponseVarInfo) → xs ≡ xs ++ []
  append_nil [] = refl
  append_nil (x ∷ xs) = ap (λ t. x ∷ t) (append_nil xs)

  Numbered-refl :
      (u u' : AntiUnifier)
      → u'.key_universe ≡ u.key_universe
      → u'.witnesses ≡ u.witnesses
      → u'.next_param ≡ u.next_param
      → Numbered u u'
  Numbered-refl u u' a b c = record {
    fresh = [];
    universe_eq = a;
    witnesses_eq = b ∙ append_nil u.witnesses;
    next_eq = ground arith;
    consecutive = tt;
  }

  Numbered-trans : {u u' u'' : AntiUnifier} → Numbered u u' → Numbered u' u'' → Numbered u u''
  Numbered-trans {u} {u'} {u''} a b = record {
    fresh = a.fresh ++ b.fresh;
    universe_eq = b.universe_eq ∙ a.universe_eq;
    witnesses_eq =
        b.witnesses_eq
        ∙ ap (λ t. t ++ b.fresh) a.witnesses_eq
        ∙ append_assoc u.witnesses a.fresh b.fresh;
    next_eq = ground (arith, a.next_eq, b.next_eq, length-append a.fresh b.fresh);
    consecutive =
        Consecutive-append u.key_universe u.next_param u'.next_param a.fresh b.fresh a.consecutive
          a.next_eq (subst (λ x. Consecutive x u'.next_param b.fresh) a.universe_eq b.consecutive);
  }

  merge_children-Numbered :
      (sub : AntiUnifier → List ℕ → Outcome (AntiUnifier × ℕ × Bool))
      → ((u : AntiUnifier) (values : List ℕ) (r : AntiUnifier × ℕ × Bool)
          → sub u values ≡ ok r
          → Numbered u r.0)
      → (u : AntiUnifier) (items : List Decomposed) (index count : ℕ) (r : AntiUnifier × List ℕ)
      → merge_children sub u items index count ≡ ok r
      → Numbered u r.0
  unfolding merge_children
  merge_children-Numbered sub numbers u items index zero r e =
      ground (arith, Numbered-refl u u refl refl refl)
  merge_children-Numbered sub numbers u items index (suc count) r e =
      given (column index items) (λ bad. absurd (ground arith))
        λ values run1.
          given (sub u values) (λ bad. absurd (ground arith))
            λ merged run2.
              given (merge_children sub merged.0 items (suc index) count)
                (λ bad. absurd (ground arith))
                λ rest run3.
                  let w = Numbered-trans (numbers u values merged run2) (
                    merge_children-Numbered sub numbers merged.0 items (suc index) count rest
                      run3) in
                  ground arith

module _ (hs : Hashing Cell) (alpha_equiv : ℕ → Option ℕ) (new_param generic : ℕ → ℕ)
    (domains : List (ℕ × InferDomain)) where
  fresh_witness-Numbered :
      (u : AntiUnifier) (v : ℕ) (vs : List ℕ) (r : AntiUnifier × ℕ × Bool)
      → fresh_witness hs alpha_equiv new_param generic domains u v vs ≡ ok r
      → Numbered new_param u r.0
  unfolding fresh_witness
  fresh_witness-Numbered u v vs r e =
      given (explicit_parameter_domain hs alpha_equiv new_param generic domains u.stash v)
        (λ bad. absurd (ground arith))
        λ first run1.
          given (reduce_domains hs alpha_equiv new_param generic domains u.stash first vs)
            (λ bad. absurd (ground arith))
            λ domain run2. elim (Bool-cases (ltb (u.next_param + 1) (2 ^ 32))) [
              | inr overflow ↦ absurd (ground arith)
              | inl fits ↦
                  given (alloc hs u.stash 0 (ty (Ty.param (generic (new_param u.next_param)))))
                    (λ bad. absurd (ground arith))
                    λ built run3.
                      let info : ResponseVarInfo = record {
                        param = new_param u.next_param;
                        kind = type;
                        relative_universe = u.key_universe;
                        domain = domain;
                      } in
                      let w : Numbered new_param u (record u {
                        stash = built.0;
                        next_param = u.next_param + 1;
                        witnesses = u.witnesses ++ info ∷ [];
                      }) =
                        record {
                          fresh = info ∷ [];
                          universe_eq = refl;
                          witnesses_eq = refl;
                          next_eq = refl;
                          consecutive = (refl, refl, tt);
                        } in
                      ground arith
            ]

  -- A merge that succeeds only adds witnesses: each is of the key's universe, and their parameters are
  -- numbered on from the next number without a gap.
  pub merge_types-Numbered :
      (f : ℕ) (u : AntiUnifier) (values : List ℕ) (r : AntiUnifier × ℕ × Bool)
      → merge_types hs alpha_equiv new_param generic domains f u values ≡ ok r
      → Numbered new_param u r.0
  unfolding merge_types
  merge_types-Numbered zero u values r e = absurd (cc)
  merge_types-Numbered (suc f) u [] r e = absurd (cc)
  merge_types-Numbered (suc f) u (v ∷ vs) r e = elim (Bool-cases (all_equal v vs)) [
    | inl same ↦ ground (arith, Numbered-refl new_param u u refl refl refl)
    | inr differ ↦
        given (decompose_all u.stash (v ∷ vs)) (λ bad. absurd (ground arith))
          λ items run1.
            given (expect (get_elem? items 0)) (λ bad. absurd (ground arith))
              λ first run2.
                elim (Bool-cases (
                  all_alike first items
                  && (ltb 0 (length first.children) && all_arity (length first.children) items))) [
                    | inr apart ↦ fresh_witness-Numbered u v vs r (ground arith)
                    | inl alike ↦
                        let sub = merge_types hs alpha_equiv new_param generic domains f in
                        given (merge_children sub u items 0 (length first.children))
                          (λ bad. absurd (ground arith))
                          λ merged run3.
                            given (recompose hs merged.0.stash first.skeleton merged.1)
                              (λ bad. absurd (ground arith))
                              λ built run4.
                                let w =
                                  merge_children-Numbered new_param sub
                                    (λ u' values' r' e'. merge_types-Numbered f u' values' r' e') u
                                    items 0 (length first.children) merged run3 in
                                let w' = Numbered-trans new_param w (
                                  Numbered-refl new_param merged.0
                                    (record merged.0 { stash = built.0 }) refl refl refl) in
                                ground arith
                  ]
  ]
