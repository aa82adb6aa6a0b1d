-- ===== src/Solver/Subst/Faults.antt =====
-- What `validate_and_alloc_subst` of crates/sage-ir/src/check/solve/result.rs reports.
use sage_dev.Prelude.{
  ℕ, zero, suc, ◌≡◌, ◌≢◌, ◌∙◌, sym, refl, ap, ◌⊎◌, inl, inr, true, Bool-cases, Option-cases, none,
  some, List, [], ◌∷◌, ◌++◌, ◌==◌, ne-of-==, ◌||◌, contains, get_elem?, arith,
}
use sage_dev.Solver.Subst.{
  GenericParamKind, CanonicalVarRole, type, lifetime, const, existential_input, rigid_placeholder,
  CanonicalVarInfo, SubstEntry, SubstitutionError, unknown_key, rigid_key, non_type_key,
  duplicate_key, accepted, rejected, find_var, check_key, Placed, validate, sort_placed, entries_of,
  substitution,
}
use sage_dev.Solver.Subst.Validation.{Checked-cases, find_var-get_elem?}

abbrev pub keys_of : List SubstEntry → List ℕ
keys_of [] = []
keys_of (e ∷ rest) = e.key ∷ keys_of rest

-- A variable with the key.
pub record Named (vars : List CanonicalVarInfo) (key : ℕ) (info : CanonicalVarInfo) : Type 0 where
  pub position : ℕ
  pub at : get_elem? vars position ≡ some info
  pub named : info.param ≡ key

-- Why the key of an entry is refused after entries with the keys `seen`.
abbrev pub Fault : List CanonicalVarInfo → List ℕ → ℕ → SubstitutionError → Type 0
Fault vars seen key (unknown_key k) =
    (k ≡ key)
    × ((i : ℕ) (info : CanonicalVarInfo) → get_elem? vars i ≡ some info → info.param ≢ key)
Fault vars seen key (rigid_key k) =
    (k ≡ key) × (info : CanonicalVarInfo) × Named vars key info × (info.role ≡ rigid_placeholder)
Fault vars seen key (non_type_key k) =
    (k ≡ key)
    × (info : CanonicalVarInfo) × Named vars key info
    × (info.role ≡ existential_input)
    × (info.kind ≢ type)
Fault vars seen key (duplicate_key k) = (k ≡ key) × (contains seen key ≡ true)

Role-cases : (r : CanonicalVarRole) → (r ≡ existential_input) ⊎ (r ≡ rigid_placeholder)
Role-cases existential_input = inl refl
Role-cases rigid_placeholder = inr refl

Kind-cases : (k : GenericParamKind) → (k ≡ type) ⊎ (k ≢ type)
Kind-cases type = inl refl
Kind-cases lifetime = inr (λ e. cc)
Kind-cases const = inr (λ e. cc)

find_var-none :
    (key i j : ℕ) (vars : List CanonicalVarInfo) (info : CanonicalVarInfo)
    → find_var key i vars ≡ none
    → get_elem? vars j ≡ some info
    → info.param ≢ key
unfolding find_var
find_var-none key i j [] info h at = absurd (cc)
find_var-none key i zero (v ∷ vars) info h at = elim (Bool-cases (v.param == key)) [
  | inl here ↦ absurd (ground arith)
  | inr later ↦
      let same : v ≡ info = cc in λ e. ne-of-== v.param key later (ap (λ x. x.param) same ∙ e)
]
find_var-none key i (suc j) (v ∷ vars) info h at = elim (Bool-cases (v.param == key)) [
  | inl here ↦ absurd (ground arith)
  | inr later ↦ find_var-none key (suc i) j vars info (ground arith) at
]

check_key-Fault :
    (vars : List CanonicalVarInfo) (seen : List ℕ) (key : ℕ) (error : SubstitutionError)
    → check_key vars seen key ≡ rejected error
    → Fault vars seen key error
unfolding check_key
check_key-Fault vars seen key error h = elim (Option-cases (find_var key 0 vars)) [
  | inl missing ↦
      let same : error ≡ unknown_key key = ground arith in
      rw same (refl, λ i info at. find_var-none key 0 i vars info missing at)
  | inr ((p, info), found) ↦
      let (k, at, here, named) = find_var-get_elem? key 0 vars found in
      let the_var : Named vars key info = record { position = k; at = here; named = named } in
      elim (Role-cases info.role) [
        | inr rigid ↦
            let same : error ≡ rigid_key key = ground arith in rw same (refl, info, the_var, rigid)
        | inl existential ↦ elim (Kind-cases info.kind) [
          | inr other ↦
              let same : error ≡ non_type_key key = ground arith in
              rw same (refl, info, the_var, existential, other)
          | inl of_type ↦ elim (Bool-cases (contains seen key)) [
            | inl again ↦
                let same : error ≡ duplicate_key key = ground arith in rw same (refl, again)
            | inr new ↦ absurd (ground arith)
          ]
        ]
      ]
]

-- The keys seen after the entries before.
abbrev seen_after : List ℕ → List SubstEntry → List ℕ
seen_after seen [] = seen
seen_after seen (e ∷ rest) = seen_after (e.key ∷ seen) rest

contains-seen_after :
    (key : ℕ) (before : List SubstEntry) (seen : List ℕ)
    → contains (seen_after seen before) key ≡ (contains seen key || contains (keys_of before) key)
contains-seen_after key [] seen = ground arith
contains-seen_after key (e ∷ before) seen =
    ground (arith, contains-seen_after key before (e.key ∷ seen))

Fault-seen :
    (vars : List CanonicalVarInfo) (seen seen' : List ℕ) (key : ℕ) (error : SubstitutionError)
    → contains seen key ≡ contains seen' key
    → Fault vars seen key error
    → Fault vars seen' key error
Fault-seen vars seen seen' key (unknown_key k) same f = f
Fault-seen vars seen seen' key (rigid_key k) same f = f
Fault-seen vars seen seen' key (non_type_key k) same f = f
Fault-seen vars seen seen' key (duplicate_key k) same f = (f.0, sym same ∙ f.1)

validate_more :
    (vars : List CanonicalVarInfo) (seen : List ℕ) (e : SubstEntry) (before : List SubstEntry)
    {position : ℕ} {l : List Placed}
    → check_key vars seen e.key ≡ accepted position
    → validate vars (e.key ∷ seen) before ≡ accepted l
    → validate vars seen (e ∷ before) ≡ accepted ((position, e) ∷ l)
unfolding validate
validate_more vars seen e before fine more = ground arith

accepted_sorted :
    (vars : List CanonicalVarInfo) (before : List SubstEntry) {l : List Placed}
    → validate vars [] before ≡ accepted l
    → substitution vars before ≡ accepted (entries_of (sort_placed l))
unfolding substitution
accepted_sorted vars before fine = ground arith

validate-Fault :
    (vars : List CanonicalVarInfo) (seen : List ℕ) (entries : List SubstEntry)
    (error : SubstitutionError)
    → validate vars seen entries ≡ rejected error
    → (before : List SubstEntry) × (e : SubstEntry) × (rest : List SubstEntry) × (l : List Placed)
      × (entries ≡ before ++ (e ∷ rest))
      × (validate vars seen before ≡ accepted l)
      × Fault vars (seen_after seen before) e.key error
unfolding validate
validate-Fault vars seen [] error h = absurd (cc)
validate-Fault vars seen (e ∷ rest) error h = elim (Checked-cases (check_key vars seen e.key)) [
  | inr (error', refused) ↦
      let same : error' ≡ error = ground arith in
      ([], e, rest, [], refl, refl, rw same at (check_key-Fault vars seen e.key error' refused))
  | inl (position, fine) ↦ elim (Checked-cases (validate vars (e.key ∷ seen) rest)) [
    | inl (l, valid) ↦ absurd (ground arith)
    | inr (error', invalid) ↦
        let same : error' ≡ error = ground arith in
        let (before, f, after, l, split, accepted_before, fault) =
          validate-Fault vars (e.key ∷ seen) rest error (invalid ∙ ap (λ x. rejected x) same) in
        (
          e ∷ before,
          f,
          after,
          (position, e) ∷ l,
          ap (λ t. e ∷ t) split,
          validate_more vars seen e before fine accepted_before,
          fault,
        )
  ]
]

-- A rejection names the first entry at fault and why: the entries before it are accepted by themselves,
-- and its key is not a canonical variable, or names a rigid one, or one that is no type, or stands among the
-- keys before it.
pub substitution-Fault :
    (vars : List CanonicalVarInfo) (entries : List SubstEntry) (error : SubstitutionError)
    → substitution vars entries ≡ rejected error
    → (before : List SubstEntry) × (e : SubstEntry) × (rest : List SubstEntry) × (sorted : List
        SubstEntry)
      × (entries ≡ before ++ (e ∷ rest))
      × (substitution vars before ≡ accepted sorted)
      × Fault vars (keys_of before) e.key error
unfolding substitution
substitution-Fault vars entries error h = elim (Checked-cases (validate vars [] entries)) [
  | inl (l, fine) ↦ absurd (ground arith)
  | inr (error', refused) ↦
      let same : error' ≡ error = ground arith in
      let (before, e, rest, l, split, fine, fault) =
        validate-Fault vars [] entries error (refused ∙ ap (λ x. rejected x) same) in
      (
        before,
        e,
        rest,
        entries_of (sort_placed l),
        split,
        accepted_sorted vars before fine,
        Fault-seen vars (seen_after [] before) (keys_of before) e.key error
            (contains-seen_after e.key before []) fault,
      )
]
