-- ===== src/Solver/Subst/Validation.antt =====
-- What `validate_and_alloc_subst` of crates/sage-ir/src/check/solve/result.rs accepts, and what it stores.
use sage_dev.Prelude.{
  ℕ, suc, ◌+◌, ◌≤◌, ◌≡◌, ◌≢◌, ◌∙◌, sym, refl, ap, subst, ◌⊎◌, inl, inr, true, false, Bool-cases,
  Option-cases, Option, none, some, List, [], ◌∷◌, ◌==◌, ==_self, ==_iff, leb, if◌then◌else◌,
  contains, get_elem?, arith,
}
use sage_dev.Solver.Subst.{
  type, existential_input, CanonicalVarInfo, SubstEntry, SubstitutionError, Checked, accepted,
  rejected, find_var, check_key, Placed, validate, insert_placed, sort_placed, entries_of,
  substitution,
}

-- The value that a substitution gives to a key: that of the first entry with the key.
abbrev pub value_of : ℕ → List SubstEntry → Option ℕ
value_of key [] = none
value_of key (e ∷ rest) = if e.key == key then some e.value else value_of key rest

-- The variable at a position is the key's, and may be bound to a type.
pub record Usable (vars : List CanonicalVarInfo) (key position : ℕ) : Type 0 where
  pub info : CanonicalVarInfo
  pub at : get_elem? vars position ≡ some info
  pub named : info.param ≡ key
  pub existential : info.role ≡ existential_input
  pub of_type : info.kind ≡ type

-- Every key is usable at a position beyond that of the entry before it.
abbrev pub Ordered : List CanonicalVarInfo → ℕ → List SubstEntry → Type 0
Ordered vars from [] = Unit {0}
Ordered vars from (e ∷ rest) =
    (position : ℕ) × (from ≤ position)
    × Usable vars e.key position
    × Ordered vars (suc position) rest

pub Checked-cases {ℓ} :
    {A : Type ℓ} (c : Checked A)
    → ((value : A) × (c ≡ accepted value)) ⊎ ((e : SubstitutionError) × (c ≡ rejected e))
Checked-cases (accepted value) = inl (value, refl)
Checked-cases (rejected e) = inr (e, refl)

some_inj {ℓ} : {A : Type ℓ} {a b : A} → some a ≡ some b → a ≡ b
some_inj h = cc

pub find_var-get_elem? :
    (key i : ℕ) (vars : List CanonicalVarInfo) {position : ℕ} {info : CanonicalVarInfo}
    → find_var key i vars ≡ some (position, info)
    → (k : ℕ) × (position ≡ i + k) × (get_elem? vars k ≡ some info) × (info.param ≡ key)
unfolding find_var
find_var-get_elem? key i [] h = absurd (cc)
find_var-get_elem? key i (v ∷ vars) {position} {info} h = elim (Bool-cases (v.param == key)) [
  | inl here ↦
      let same : v ≡ info = ground arith in
      let at : i ≡ position = ground arith in
      (
        0,
        omega arith,
        ap (λ x. some x) same,
        sym (ap (λ x. x.param) same) ∙ (==_iff v.param key).0 here,
      )
  | inr later ↦
      let (k, at, found, named) =
        find_var-get_elem? key (suc i) vars {position = position} {info = info} (ground arith) in
      (suc k, omega arith, found, named)
]

pub check_key-Usable :
    (vars : List CanonicalVarInfo) (seen : List ℕ) (key : ℕ) {position : ℕ}
    → check_key vars seen key ≡ accepted position
    → Usable vars key position × (contains seen key ≡ false)
unfolding check_key
check_key-Usable vars seen key {position} h = elim (Option-cases (find_var key 0 vars)) [
  | inl missing ↦ absurd (ground arith)
  | inr ((p, info), found) ↦
      let (k, at, here, named) = find_var-get_elem? key 0 vars found in
      let existential : info.role ≡ existential_input = ground arith in
      let of_type : info.kind ≡ type = ground arith in
      let new : contains seen key ≡ false = ground arith in
      let same : k ≡ position = ground arith in
      (
        record {
          info = info;
          at = rw same at here;
          named = named;
          existential = existential;
          of_type = of_type;
        },
        new,
      )
]

-- What a validated list is: its keys are usable at its positions, and none was seen before.
abbrev Validated : List CanonicalVarInfo → List ℕ → List Placed → Type 0
Validated vars seen [] = Unit {0}
Validated vars seen ((position, e) ∷ l) =
    Usable vars e.key position × (contains seen e.key ≡ false) × Validated vars (e.key ∷ seen) l

validate-Validated :
    (vars : List CanonicalVarInfo) (seen : List ℕ) (entries : List SubstEntry) (l : List Placed)
    → validate vars seen entries ≡ accepted l
    → Validated vars seen l × (entries_of l ≡ entries)
unfolding validate
validate-Validated vars seen [] l h = let same : l ≡ [] = ground arith in rw same (tt, refl)
validate-Validated vars seen (e ∷ rest) l h = elim (Checked-cases (check_key vars seen e.key)) [
  | inr (error, refused) ↦ absurd (ground arith)
  | inl (position, fine) ↦ elim (Checked-cases (validate vars (e.key ∷ seen) rest)) [
    | inr (error, refused) ↦ absurd (ground arith)
    | inl (l', fine') ↦
        let (usable, new) = check_key-Usable vars seen e.key fine in
        let (validated, same) = validate-Validated vars (e.key ∷ seen) rest l' fine' in
        let is_list : l ≡ (position, e) ∷ l' = ground arith in
        rw is_list ((usable, new, validated), ap (λ t. e ∷ t) same)
  ]
]

-- Keys and positions of a validated list are those of other variables than `key` at `p`.
abbrev Apart : ℕ → ℕ → List Placed → Type 0
Apart key p [] = Unit {0}
Apart key p ((position, e) ∷ l) = (e.key ≢ key) × (position ≢ p) × Apart key p l

Validated-Apart :
    (vars : List CanonicalVarInfo) (seen : List ℕ) (key p : ℕ) (l : List Placed)
    → contains seen key ≡ true
    → Usable vars key p
    → Validated vars seen l
    → Apart key p l
Validated-Apart vars seen key p [] there u v = tt
Validated-Apart vars seen key p ((position, e) ∷ l) there u v =
    let other : e.key ≢ key = λ h. let new = v.1 in ground arith in
    (
      other,
      λ h.
          let at = v.0.at in
          let at' = u.at in
          let named = v.0.named in
          let named' = u.named in
          other (
            sym named
            ∙ ap (λ x. x.param) (some_inj (sym at ∙ ap (λ t. get_elem? vars t) h ∙ at'))
            ∙ named'),
      Validated-Apart vars (e.key ∷ seen) key p l (ground arith) u v.2,
    )

-- The same for keys and positions of a list in order.
abbrev PlacedOrdered : List CanonicalVarInfo → ℕ → List Placed → Type 0
PlacedOrdered vars from [] = Unit {0}
PlacedOrdered vars from ((position, e) ∷ l) =
    (from ≤ position) × Usable vars e.key position × PlacedOrdered vars (suc position) l

insert_placed-Apart :
    (key p q : ℕ) (e : SubstEntry) (l : List Placed)
    → e.key ≢ key
    → q ≢ p
    → Apart key p l
    → Apart key p (insert_placed (q, e) l)
unfolding insert_placed
insert_placed-Apart key p q e [] ne np a = (ne, np, tt)
insert_placed-Apart key p q e ((r, f) ∷ l) ne np a = elim (Bool-cases (leb q r)) [
  | inl first ↦ rw first (ne, np, a)
  | inr later ↦ rw later (a.0, a.1, insert_placed-Apart key p q e l ne np a.2)
]

insert_placed-Ordered :
    (vars : List CanonicalVarInfo) (from p : ℕ) (e : SubstEntry) (l : List Placed)
    → from ≤ p
    → Usable vars e.key p
    → Apart e.key p l
    → PlacedOrdered vars from l
    → PlacedOrdered vars from (insert_placed (p, e) l)
unfolding insert_placed
insert_placed-Ordered vars from p e [] le u a o = (le, u, tt)
insert_placed-Ordered vars from p e ((q, f) ∷ l) le u a o = elim (Bool-cases (leb p q)) [
  | inl first ↦
      let ne = a.1 in let lt : suc p ≤ q = ground arith in rw first (le, u, (lt, o.1, o.2))
  | inr later ↦
      rw later (o.0, o.1, insert_placed-Ordered vars (suc q) p e l (ground arith) u a.2 o.2)
]

insert_placed-value_of :
    (key p : ℕ) (e : SubstEntry) (l : List Placed)
    → Apart e.key p l
    → value_of key (entries_of (insert_placed (p, e) l))
      ≡ (if e.key == key then some e.value else value_of key (entries_of l))
unfolding insert_placed
insert_placed-value_of key p e [] a = refl
insert_placed-value_of key p e ((q, f) ∷ l) a = elim (Bool-cases (leb p q)) [
  | inl first ↦ rw first refl
  | inr later ↦
      let rest = insert_placed-value_of key p e l a.2 in let ne = a.0 in rw later (ground arith)
]

sort_placed-Apart : (key p : ℕ) (l : List Placed) → Apart key p l → Apart key p (sort_placed l)
unfolding sort_placed
sort_placed-Apart key p [] a = tt
sort_placed-Apart key p ((q, e) ∷ l) a =
    insert_placed-Apart key p q e (sort_placed l) a.0 a.1 (sort_placed-Apart key p l a.2)

sort_placed-Ordered :
    (vars : List CanonicalVarInfo) (seen : List ℕ) (l : List Placed)
    → Validated vars seen l
    → PlacedOrdered vars 0 (sort_placed l)
      × ((key : ℕ) → value_of key (entries_of (sort_placed l)) ≡ value_of key (entries_of l))
unfolding sort_placed
sort_placed-Ordered vars seen [] v = (tt, λ key. refl)
sort_placed-Ordered vars seen ((p, e) ∷ l) v =
    let (ordered, same) = sort_placed-Ordered vars (e.key ∷ seen) l v.2 in
    let apart =
      sort_placed-Apart e.key p l
        (Validated-Apart vars (e.key ∷ seen) e.key p l (ground (arith, ==_self e.key)) v.0 v.2) in
    (
      insert_placed-Ordered vars 0 p e (sort_placed l) (omega arith) v.0 apart ordered,
      λ key.
          let inserted = insert_placed-value_of key p e (sort_placed l) apart in
          let rest = same key in ground arith,
    )

PlacedOrdered-Ordered :
    (vars : List CanonicalVarInfo) (from : ℕ) (l : List Placed)
    → PlacedOrdered vars from l
    → Ordered vars from (entries_of l)
PlacedOrdered-Ordered vars from [] o = tt
PlacedOrdered-Ordered vars from ((p, e) ∷ l) o =
    (p, o.0, o.1, PlacedOrdered-Ordered vars (suc p) l o.2)

-- What is accepted is in normal form: every key belongs to an existential type variable, each stands at a
-- later position than the one before it, so that no key repeats, and each key has the value that the given
-- entries have for it.
pub substitution-Ordered :
    (vars : List CanonicalVarInfo) (entries sorted : List SubstEntry)
    → substitution vars entries ≡ accepted sorted
    → Ordered vars 0 sorted × ((key : ℕ) → value_of key sorted ≡ value_of key entries)
unfolding substitution
substitution-Ordered vars entries sorted h = elim (Checked-cases (validate vars [] entries)) [
  | inr (error, refused) ↦ absurd (ground arith)
  | inl (l, fine) ↦
      let (validated, same) = validate-Validated vars [] entries l fine in
      let (ordered, values) = sort_placed-Ordered vars [] l validated in
      let is_sorted : entries_of (sort_placed l) ≡ sorted = ground arith in
      (
        subst (λ t. Ordered vars 0 t) is_sorted
            (PlacedOrdered-Ordered vars 0 (sort_placed l) ordered),
        λ key.
            ap (λ t. value_of key t) (sym is_sorted) ∙ values key ∙ ap (λ t. value_of key t) same,
      )
]
