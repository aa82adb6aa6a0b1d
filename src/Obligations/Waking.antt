-- ===== src/Obligations/Waking.antt =====
-- Which obligations of crates/sage-ir/src/check/infer/obligations.rs are listed, and which `wake` readies.
use sage_dev.Prelude.{
  ℕ, zero, suc, ◌+◌, ◌≤◌, ◌≡◌, ◌∙◌, ap, sym, refl, inl, inr, Bool, true, false, not, Bool-cases,
  Option-cases, none, some, List, [], ◌∷◌, ◌==◌, ==_ne, ==_self, ==_iff, ◌↔◌, arith, get_elem?,
  contains, any, is_empty, if◌then◌else◌,
}
use sage_dev.Obligations.{
  Obligation, ObligationState, ready, stalled, terminal, same_state, has_pending, indices_from,
  ready_indices, pending_indices, woken_by, wake_each, wake,
}

-- Position `k` holds an obligation that passes the test.
abbrev pub passes : (Obligation → Bool) → List Obligation → ℕ → Bool
passes p obligations k = elim (get_elem? obligations k) [ none ↦ false | some o ↦ p o ]

indices_from-low :
    (p : Obligation → Bool) (i : ℕ) (os : List Obligation) (k : ℕ)
    → contains (indices_from p i os) k ≡ true
    → i ≤ k
unfolding indices_from
indices_from-low p i [] k h = cc
indices_from-low p i (o ∷ rest) k h =
    let ih = indices_from-low p (suc i) rest k in
    elim (Bool-cases (p o)) [ inl yes' ↦ ground arith | inr no' ↦ ground arith ]

indices_from-passes :
    (p : Obligation → Bool) (i : ℕ) (os : List Obligation) (k : ℕ)
    → contains (indices_from p i os) (i + k) ≡ passes p os k
unfolding indices_from
indices_from-passes p i [] k = refl
indices_from-passes p i (o ∷ rest) zero =
    let low = indices_from-low p (suc i) rest (i + zero) in
    elim (Bool-cases (contains (indices_from p (suc i) rest) (i + zero))) [
      | inl found ↦ absurd (let le = low found in omega arith)
      | inr out ↦ elim (Bool-cases (p o)) [ inl t ↦ ground arith | inr t ↦ ground arith ]
    ]
indices_from-passes p i (o ∷ rest) (suc k) =
    let q : i + suc k ≡ suc i + k = omega arith in
    let ih : contains (indices_from p (suc i) rest) (i + suc k) ≡ passes p rest k =
      rw q (indices_from-passes p (suc i) rest k) in
    let ne : (i == i + suc k) ≡ false = ==_ne i (i + suc k) (λ e. omega arith) in
    elim (Bool-cases (p o)) [ inl t ↦ rw (t, ne) ih | inr t ↦ rw t ih ]

at_zero :
    (p : Obligation → Bool) (os : List Obligation) (k : ℕ)
    → contains (indices_from p 0 os) k ≡ passes p os k
at_zero p os k =
    let q : 0 + k ≡ k = omega arith in
    ap (contains (indices_from p 0 os)) (sym q) ∙ indices_from-passes p 0 os k

any-indices :
    (p : Obligation → Bool) (i : ℕ) (os : List Obligation)
    → any p os ≡ not (is_empty (indices_from p i os))
unfolding indices_from
any-indices p i [] = refl
any-indices p i (o ∷ rest) = elim (Bool-cases (p o)) [
  | inl t ↦ rw t refl
  | inr t ↦ rw t (any-indices p (suc i) rest)
]

-- `ready_indices` and `pending_indices` list exactly the positions of the obligations that are ready and
-- that are not terminal, and `has_pending` says whether there is one of the latter.
pub indices_iff :
    (obligations : List Obligation)
    → ((k : ℕ)
        → (contains (ready_indices obligations) k
            ≡ passes (λ o. same_state o.state ready) obligations k)
          × (contains (pending_indices obligations) k
              ≡ passes (λ o. not (same_state o.state terminal)) obligations k))
      × (has_pending obligations ≡ not (is_empty (pending_indices obligations)))
unfolding ready_indices pending_indices has_pending
indices_iff obligations = (
  λ k. (
    at_zero (λ o. same_state o.state ready) obligations k,
    at_zero (λ o. not (same_state o.state terminal)) obligations k,
  ),
  any-indices (λ o. not (same_state o.state terminal)) 0 obligations,
)

-- The obligation after a wake.
abbrev pub woken : List ℕ → Obligation → Obligation
woken variables o = if woken_by variables o then record o { state = ready } else o

none_shared : (us : List ℕ) → any (λ variable. contains [] variable) us ≡ false
none_shared [] = refl
none_shared (u ∷ us) = none_shared us

wake_each-reads :
    (variables : List ℕ) (os : List Obligation) (k : ℕ)
    → get_elem? (wake_each variables os) k
      ≡ elim (get_elem? os k) [ none ↦ none | some o ↦ some (woken variables o) ]
unfolding wake_each
wake_each-reads variables [] k = refl
wake_each-reads variables (o ∷ rest) zero = refl
wake_each-reads variables (o ∷ rest) (suc k) = wake_each-reads variables rest k

-- `wake` readies exactly the stalled obligations that wait on one of the variables, and leaves every
-- other obligation, and the order, alone.
pub wake-reads :
    (obligations : List Obligation) (variables : List ℕ) (k : ℕ)
    → get_elem? (wake obligations variables) k
      ≡ elim (get_elem? obligations k) [ none ↦ none | some o ↦ some (woken variables o) ]
unfolding wake
wake-reads os (v ∷ vs) k = wake_each-reads (v ∷ vs) os k
wake-reads os [] k = elim (Option-cases (get_elem? os k)) [
  | inl missing ↦ rw missing refl
  | inr (o, found) ↦
      let idle : woken_by [] o ≡ false = ground (arith, none_shared o.stalled_on) in
      rw (found, idle) refl
]

-- What makes an obligation ready once the variables have changed: it was ready, or it was stalled on one of
-- them. A terminal one never is.
pub data Roused (variables : List ℕ) (o : Obligation) : Type 0 where
  already : o.state ≡ ready → Roused variables o
  by_variable :
      (variable : ℕ)
      → o.state ≡ stalled
      → contains o.stalled_on variable ≡ true
      → contains variables variable ≡ true
      → Roused variables o

shared_from :
    (variables us : List ℕ)
    → any (λ u. contains variables u) us ≡ true
    → (variable : ℕ) × (contains us variable ≡ true) × (contains variables variable ≡ true)
shared_from variables [] h = absurd (cc h)
shared_from variables (u ∷ us) h = elim (Bool-cases (contains variables u)) [
  | inl shared ↦ (u, ground (arith, ==_self u), shared)
  | inr other ↦
      let (w, listed, shared) = shared_from variables us (ground arith) in (w, ground arith, shared)
]

shared_to :
    (variables us : List ℕ) (w : ℕ)
    → contains us w ≡ true
    → contains variables w ≡ true
    → any (λ u. contains variables u) us ≡ true
shared_to variables [] w listed shared = absurd (cc listed)
shared_to variables (u ∷ us) w listed shared = elim (Bool-cases (u == w)) [
  | inl same ↦
      let e : u ≡ w = (==_iff u w).0 same in
      let first : contains variables u ≡ true = rw e shared in ground arith
  | inr differ ↦ let rest = shared_to variables us w (ground arith) shared in ground arith
]

ready_state : (s : ObligationState) → same_state s ready ≡ true → s ≡ ready
ready_state ready h = refl
ready_state stalled h = absurd (cc h)
ready_state terminal h = absurd (cc h)

stalled_state : (s : ObligationState) → same_state s stalled ≡ true → s ≡ stalled
stalled_state stalled h = refl
stalled_state ready h = absurd (cc h)
stalled_state terminal h = absurd (cc h)

woken-Roused :
    (variables : List ℕ) (o : Obligation)
    → (same_state (woken variables o).state ready ≡ true) ↔ Roused variables o
woken-Roused variables o = (
  λ h. elim (Bool-cases (woken_by variables o)) [
    | inl woke ↦
        let (w, listed, shared) = shared_from variables o.stalled_on (ground arith) in
        by_variable w (stalled_state o.state (ground arith)) listed shared
    | inr slept ↦ already (ready_state o.state (rw slept at h))
  ],
  back,
)
  where
    back : Roused variables o → same_state (woken variables o).state ready ≡ true
    back (already is) = elim (Bool-cases (woken_by variables o)) [
      | inl woke ↦ rw woke refl
      | inr slept ↦ rw (slept, is) refl
    ]
    back (by_variable w is listed shared) =
        let some_shared = shared_to variables o.stalled_on w listed shared in
        let woke : woken_by variables o ≡ true = ground (arith, is) in rw woke refl

woken-terminal :
    (variables : List ℕ) (o : Obligation)
    → same_state (woken variables o).state terminal ≡ same_state o.state terminal
woken-terminal variables o = elim (Bool-cases (woken_by variables o)) [
  | inr slept ↦ rw slept refl
  | inl woke ↦ let is = stalled_state o.state (ground arith) in rw (woke, is) refl
]

-- After a wake, exactly those obligations are listed as ready that were ready, or that were stalled on
-- one of the variables. The same obligations are pending as before, so that a terminal one stays
-- terminal.
pub wake-ready_indices :
    (obligations : List Obligation) (variables : List ℕ) (k : ℕ) (o : Obligation)
    → get_elem? obligations k ≡ some o
    → ((contains (ready_indices (wake obligations variables)) k ≡ true) ↔ Roused variables o)
      × (contains (pending_indices (wake obligations variables)) k
          ≡ contains (pending_indices obligations) k)
wake-ready_indices os variables k o found =
    let now : get_elem? (wake os variables) k ≡ some (woken variables o) =
      wake-reads os variables k ∙ rw found refl in
    let (listed, pending) = (indices_iff (wake os variables)).0 k in
    let (_, pending_before) = (indices_iff os).0 k in
    let listed' : contains (ready_indices (wake os variables)) k
        ≡ same_state (woken variables o).state ready =
      listed ∙ rw (passes, now) refl in
    let (forth, back) = woken-Roused variables o in
    let pending' : contains (pending_indices (wake os variables)) k
        ≡ not (same_state (woken variables o).state terminal) =
      pending ∙ rw (passes, now) refl in
    let before' : contains (pending_indices os) k ≡ not (same_state o.state terminal) =
      pending_before ∙ rw (passes, found) refl in
    (
      (λ h. forth (sym listed' ∙ h), λ r. listed' ∙ back r),
      pending' ∙ ap not (woken-terminal variables o) ∙ sym before',
    )
