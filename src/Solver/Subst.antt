-- ===== src/Solver/Subst.antt =====
-- `validate_and_alloc_subst` of crates/sage-ir/src/check/solve/result.rs, with the canonical variables of
-- goal.rs. A parameter is the number of its identity; the stash is taken as one of substitution entries.
pub mod Validation
pub mod Faults
pub mod Examples
use sage_dev.Prelude.{
  ℕ, zero, suc, Bool, true, false, Option, none, some, List, [], ◌∷◌, ◌==◌, if◌then◌else◌, leb,
  contains, Outcome, ok, ◌>>=◌,
}
use sage_dev.Version.Domain.{InferDomain}
use sage_dev.Stash.{Stash, Hashing, alloc_slice}

pub data GenericParamKind : Type 0 where
  type lifetime const : GenericParamKind

pub data CanonicalVarRole : Type 0 where
  rigid_placeholder existential_input : CanonicalVarRole

pub record CanonicalVarInfo : Type 0 where
  pub param : ℕ
  pub kind : GenericParamKind
  pub role : CanonicalVarRole
  pub relative_universe : ℕ
  pub domain : InferDomain

pub record SubstEntry : Type 0 where
  pub key : ℕ
  pub value : ℕ

pub data SubstitutionError : Type 0 where
  unknown_key : ℕ → SubstitutionError
  rigid_key : ℕ → SubstitutionError
  non_type_key : ℕ → SubstitutionError
  duplicate_key : ℕ → SubstitutionError

pub data Checked {ℓ} (A : Type ℓ) : Type ℓ where
  accepted : A → Checked A
  rejected : SubstitutionError → Checked A

-- `enumerate` and `find`.
unfoldable pub find_var : ℕ → ℕ → List CanonicalVarInfo → Option (ℕ × CanonicalVarInfo)
find_var key i [] = none
find_var key i (info ∷ rest) =
    if info.param == key then some (i, info) else find_var key (suc i) rest

-- The position of an entry's key, if the key may be bound.
unfoldable pub check_key : List CanonicalVarInfo → List ℕ → ℕ → Checked ℕ
check_key vars seen key = elim (find_var key 0 vars) [
  | none ↦ rejected (unknown_key key)
  | some (position, info) ↦ elim info.role [
    | rigid_placeholder ↦ rejected (rigid_key key)
    | existential_input ↦ elim info.kind [
      | type ↦ elim (contains seen key) [
        | true ↦ rejected (duplicate_key key)
        | false ↦ accepted position
      ]
      | lifetime ↦ rejected (non_type_key key)
      | const ↦ rejected (non_type_key key)
    ]
  ]
]

-- A validated entry with the position of its key.
abbrev pub Placed : Type 0
Placed = ℕ × SubstEntry

abbrev pub add_placed : SubstEntry → ℕ → Checked (List Placed) → Checked (List Placed)
add_placed e position (accepted rest) = accepted ((position, e) ∷ rest)
add_placed e position (rejected error) = rejected error

unfoldable pub validate : List CanonicalVarInfo → List ℕ → List SubstEntry → Checked (List Placed)
validate vars seen [] = accepted []
validate vars seen (e ∷ rest) = elim (check_key vars seen e.key) [
  | rejected error ↦ rejected error
  | accepted position ↦ add_placed e position (validate vars (e.key ∷ seen) rest)
]

-- `sort_by_key` keeps the order of entries with one position.
unfoldable pub insert_placed : Placed → List Placed → List Placed
insert_placed t [] = t ∷ []
insert_placed t (u ∷ l) = if leb t.0 u.0 then t ∷ u ∷ l else u ∷ insert_placed t l

unfoldable pub sort_placed : List Placed → List Placed
sort_placed [] = []
sort_placed (t ∷ l) = insert_placed t (sort_placed l)

abbrev pub entries_of : List Placed → List SubstEntry
entries_of [] = []
entries_of ((position, e) ∷ l) = e ∷ entries_of l

unfoldable pub substitution : List CanonicalVarInfo → List SubstEntry → Checked (List SubstEntry)
substitution vars entries = elim (validate vars [] entries) [
  | rejected error ↦ rejected error
  | accepted placed ↦ accepted (entries_of (sort_placed placed))
]

unfoldable pub validate_and_alloc_subst :
    Hashing SubstEntry
    → Stash SubstEntry
    → List CanonicalVarInfo
    → List SubstEntry
    → Outcome (Stash SubstEntry × Checked ℕ)
validate_and_alloc_subst hs stash vars entries = elim (substitution vars entries) [
  | rejected error ↦ ok (stash, rejected error)
  | accepted sorted ↦ alloc_slice hs stash 0 sorted >>= λ r. ok (r.0, accepted r.1)
]
