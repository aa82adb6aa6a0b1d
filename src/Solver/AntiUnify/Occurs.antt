-- ===== src/Solver/AntiUnify/Occurs.antt =====
-- What a type holds and what a search through its children gathers, for
-- crates/sage-ir/src/check/solve/anti_unify.rs.
use sage_dev.Prelude.{
  ℕ, ◌<◌, ◌≡◌, ◌↔◌, ◌⊎◌, refl, sym, ap, subst, inl, inr, Bool, true, false, Bool-cases, Option,
  none, some, List, [], ◌∷◌, contains, set_insert, Outcome, ok, arith,
}
use sage_dev.Ty.{Ty, Cell}
use sage_dev.Stash.{Stash}
use sage_dev.EGraph.{ty_at}
use sage_dev.EGraph.Dependents.Collect.{contains-set_insert}
use sage_dev.Skeleton.{Decomposed, decompose, decompose_ty}
use sage_dev.Solver.Subst.{SubstEntry}
use sage_dev.Solver.AntiUnify.{as_param, above_key, any_child, collect_each, collect_own}

-- `new` holds what `old` holds and what `Q` says, and no more.
pub record Gains (old : List ℕ) (Q : ℕ → Type 0) (new : List ℕ) : Type 0 where
  pub kept : (k : ℕ) → contains old k ≡ true → contains new k ≡ true
  pub gained : (k : ℕ) → Q k → contains new k ≡ true
  pub only : (k : ℕ) → contains new k ≡ true → (contains old k ≡ true) ⊎ Q k

pub Gains-trans :
    {a b c : List ℕ} {P Q R : ℕ → Type 0}
    → Gains a P b
    → Gains b Q c
    → ((k : ℕ) → P k → R k)
    → ((k : ℕ) → Q k → R k)
    → ((k : ℕ) → R k → P k ⊎ Q k)
    → Gains a R c
Gains-trans first second left right split = record {
  kept = λ k h. second.kept k (first.kept k h);
  gained = λ k r. elim (split k r) [
    | inl p ↦ second.kept k (first.gained k p)
    | inr q ↦ second.gained k q
  ];
  only = λ k h. elim (second.only k h) [
    | inr q ↦ inr (right k q)
    | inl b ↦ elim (first.only k b) [ inl a ↦ inl a | inr p ↦ inr (left k p) ]
  ];
}

-- A parameter among the children.
abbrev pub Among : (ℕ → ℕ → Type 0) → List ℕ → ℕ → Type 0
Among Q cs k = (c : ℕ) × (contains cs c ≡ true) × Q c k

pub contains_head : (c : ℕ) (cs : List ℕ) → contains (c ∷ cs) c ≡ true
contains_head c cs = ground arith

contains_tail : (c d : ℕ) (cs : List ℕ) → contains cs d ≡ true → contains (c ∷ cs) d ≡ true
contains_tail c d cs h = ground arith

contains_cons :
    (c d : ℕ) (cs : List ℕ) → contains (c ∷ cs) d ≡ true → (c ≡ d) ⊎ (contains cs d ≡ true)
contains_cons c d cs h = elim (Bool-cases (contains cs d)) [
  | inl inside ↦ inr inside
  | inr outside ↦ inl (ground arith)
]

pub collect_each-Gains :
    (sub : List ℕ → ℕ → Outcome (List ℕ)) (Q : ℕ → ℕ → Type 0) (cs output : List ℕ)
    → ((c : ℕ) (old : List ℕ)
        → contains cs c ≡ true
        → (new : List ℕ) × (sub old c ≡ ok new) × Gains old (Q c) new)
    → (new : List ℕ) × (collect_each sub output cs ≡ ok new) × Gains output (Among Q cs) new
unfolding collect_each
collect_each-Gains sub Q [] output each = (
  output,
  refl,
  record {
    kept = λ k h. h;
    gained = λ k (c, inside, q). absurd (ground arith);
    only = λ k h. inl h;
  },
)
collect_each-Gains sub Q (c ∷ cs) output each =
    let (mid, run, first) = each c output (contains_head c cs) in
    let (new, runs, rest) =
      collect_each-Gains sub Q cs mid (λ d old h. each d old (contains_tail c d cs h)) in
    (
      new,
      ground arith,
      Gains-trans first rest (λ k q. (c, contains_head c cs, q))
          (λ k (d, inside, q). (d, contains_tail c d cs inside, q))
          (λ k (d, inside, q). elim (contains_cons c d cs inside) [
            | inl same ↦ inl (subst (λ x. Q x k) (sym same) q)
            | inr later ↦ inr (d, later, q)
          ]),
    )

pub any_child_lem :
    (sub : ℕ → Outcome Bool) (Q : ℕ → Type 0) (cs : List ℕ)
    → ((c : ℕ) → contains cs c ≡ true → (b : Bool) × (sub c ≡ ok b) × ((b ≡ true) ↔ Q c))
    → (b : Bool) × (any_child sub cs ≡ ok b)
      × ((b ≡ true) ↔ ((c : ℕ) × (contains cs c ≡ true) × Q c))
unfolding any_child
any_child_lem sub Q [] each =
    (false, refl, (λ e. absurd (cc), λ (c, inside, q). absurd (ground arith)))
any_child_lem sub Q (c ∷ cs) each =
    let (b, run, iff) = each c (contains_head c cs) in
    elim (Bool-cases b) [
      | inl found ↦ (true, ground arith, (λ e. (c, contains_head c cs, iff.0 found), λ h. refl))
      | inr missing ↦
          let (b', run', iff') = any_child_lem sub Q cs (λ d h. each d (contains_tail c d cs h)) in
          (
            b',
            ground arith,
            (
              λ e. let (d, inside, q) = iff'.0 e in (d, contains_tail c d cs inside, q),
              λ (d, inside, q). elim (contains_cons c d cs inside) [
                | inr later ↦ iff'.1 (d, later, q)
                | inl same ↦
                    let here : b ≡ true = iff.1 (subst Q (sym same) q) in absurd (ground arith)
              ],
            ),
          )
    ]

-- A handle of a type.
abbrev pub IsTy : Stash Cell → ℕ → Type 0
IsTy stash p = (t : Ty) × (ty_at stash p ≡ ok t)

-- A type at `p` can be taken apart into types at earlier entries.
abbrev pub Parts : Stash Cell → ℕ → Ty → Type 0
Parts stash p t =
    (d : Decomposed) × (decompose_ty stash t ≡ ok d)
    × ((c : ℕ) → contains d.children c ≡ true → (c < p) × IsTy stash c)

-- Every type of the stash can be taken apart, and its children are types at earlier entries. Other entries,
-- such as the slices of arguments, may stand anywhere.
pub record Layered (stash : Stash Cell) : Type 0 where
  pub parts : (p : ℕ) (t : Ty) → ty_at stash p ≡ ok t → Parts stash p t

-- Entries whose values are types below `m`.
abbrev pub AllBelow : Stash Cell → ℕ → List SubstEntry → Type 0
AllBelow stash m [] = Unit {0}
AllBelow stash m (e ∷ entries) = (e.value < m) × IsTy stash e.value × AllBelow stash m entries

module _ (alpha_equiv : ℕ → Option ℕ) (stash : Stash Cell) where
  -- The parameter `n` stands in the type `p`.
  pub data Occurs : ℕ → ℕ → Type 0 where
    here : {p n : ℕ} (t : Ty) → ty_at stash p ≡ ok t → as_param alpha_equiv t ≡ some n → Occurs p n
    below :
        {p n : ℕ} (d : Decomposed) (c : ℕ)
        → decompose stash p ≡ ok d
        → contains d.children c ≡ true
        → Occurs c n
        → Occurs p n

  -- What a type holds: itself, or what its children hold.
  pub Occurs-cases :
      {p n : ℕ} (t : Ty) (d : Decomposed)
      → ty_at stash p ≡ ok t
      → decompose stash p ≡ ok d
      → Occurs p n
      → (as_param alpha_equiv t ≡ some n) ⊎ Among Occurs d.children n
  Occurs-cases t d read run (here t' read' e) = inl (ground arith)
  Occurs-cases t d read run (below d' c run' inside o) =
      let same : d' ≡ d = ground arith in
      inr (c, subst (λ x. contains x.children c ≡ true) same inside, o)

  pub decompose_run :
      (p : ℕ) (t : Ty) (d : Decomposed)
      → ty_at stash p ≡ ok t
      → decompose_ty stash t ≡ ok d
      → decompose stash p ≡ ok d
  unfolding decompose
  decompose_run p t d read run = rw read run

  -- A witness of the candidates in a type.
  abbrev pub Wanted : List ℕ → ℕ → ℕ → Type 0
  Wanted candidates p k = (contains candidates k ≡ true) × Occurs p k

  set_insert-cases :
      (n : ℕ) (xs : List ℕ) (k : ℕ)
      → contains (set_insert n xs) k ≡ true
      → (contains xs k ≡ true) ⊎ (n ≡ k)
  set_insert-cases n xs k h = elim (Bool-cases (contains xs k)) [
    | inl old ↦ inl old
    | inr new ↦ inr (ground (arith, contains-set_insert n xs k))
  ]

  pub collect_own-Gains :
      (candidates output : List ℕ) (own : Option ℕ)
      → Gains output
          (λ k. (contains candidates k ≡ true) × (own ≡ some k))
          (collect_own candidates output own)
  collect_own-Gains candidates output none = record {
    kept = λ k h. h;
    gained = λ k (_, e). absurd (ground arith);
    only = λ k h. inl h;
  }
  collect_own-Gains candidates output (some param) = elim (Bool-cases (contains candidates param)) [
    | inr outside ↦
        rw (collect_own, outside)
          (record {
            kept = λ k h. h;
            gained = λ k (inside, e). absurd (ground arith);
            only = λ k h. inl h;
          })
    | inl inside ↦
        rw (collect_own, inside)
          (record {
            kept = λ k h. ground (arith, contains-set_insert param output k);
            gained = λ k (_, e). ground (arith, contains-set_insert param output k);
            only = λ k h. elim (set_insert-cases param output k h) [
              | inl old ↦ inl old
              | inr same ↦ inr (subst (λ x. contains candidates x ≡ true) same inside, ap some same)
            ];
          })
  ]

  -- A parameter has no children.
  pub param_has_none :
      (t : Ty) (d : Decomposed) (param : ℕ)
      → decompose_ty stash t ≡ ok d
      → as_param alpha_equiv t ≡ some param
      → (c : ℕ) → contains d.children c ≡ true
      → ⊥
  unfolding decompose_ty
  param_has_none (Ty.param p) d param parts own c inside = ground arith
  param_has_none _ d param parts own c inside = ground arith

  -- What the values of the entries hold of the witnesses.
  abbrev pub Used : List ℕ → List SubstEntry → ℕ → Type 0
  Used witnesses [] k = ⊥
  Used witnesses (e ∷ entries) k = Wanted witnesses e.value k ⊎ Used witnesses entries k

  -- A parameter of a type that is an input of a universe above the key's.
  abbrev pub Inaccessible : ℕ → List (ℕ × ℕ) → ℕ → Type 0
  Inaccessible key_universe universes p =
      (k : ℕ) × Occurs p k × (above_key key_universe universes k ≡ true)
