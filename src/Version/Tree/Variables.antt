-- ===== src/Version/Tree/Variables.antt =====
-- Which variables a version sees: `get_variable` and `visible_variables` of
-- crates/sage-ir/src/check/infer/version.rs.
use sage_dev.Prelude.{
  ℕ, zero, suc, ◌+◌, ◌^◌, ◌≤◌, ◌≡◌, ◌∙◌, ap, refl, ◌⊎◌, ◌↔◌, inl, inr, some, none, Option,
  Option-cases, true, List, [], ◌∷◌, length, contains, arith, Bool-cases, ◌==◌, ok, panicked,
  get_elem?,
}
use sage_dev.Version.Tree.{
  VersionTree, VarInfo, is_live, is_ancestor, get_variable, visible_loop, visible_variables, as_u32,
}
use sage_dev.Version.Tree.Wf.{Shaped, Above, Above-live}
use sage_dev.Version.Tree.Branch.{as_u32_small}
use sage_dev.Version.Tree.Ancestry.{is_ancestor-Above}

-- The owner of a variable.
abbrev pub owner_in : List VarInfo → ℕ → Option ℕ
owner_in variables i = elim (get_elem? variables i) [ none ↦ none | some info ↦ some info.owner ]

module _ (t : VersionTree) (v : ℕ) (s : Shaped t.nodes) (live : is_live t v ≡ true) where
  get_variable-granted :
      (i : ℕ) (info : VarInfo)
      → get_elem? t.variables i ≡ some info
      → Above t.nodes info.owner v
      → get_variable t v i ≡ ok info
  unfolding get_variable
  get_variable-granted i info read above =
      let owner_live : is_live t info.owner ≡ true = Above-live s.linked above live in
      let (b, run, decide) = is_ancestor-Above t info.owner v s owner_live live in
      let e : b ≡ true = decide.1 above in ground arith

  get_variable-owned :
      (i : ℕ) (info : VarInfo)
      → get_variable t v i ≡ ok info
      → (get_elem? t.variables i ≡ some info) × Above t.nodes info.owner v
  unfolding get_variable
  get_variable-owned i info h = elim (Option-cases (get_elem? t.variables i)) [
    | inl missing ↦ absurd (ground arith)
    | inr (found, read) ↦ elim (Bool-cases (is_live t found.owner)) [
      | inl l ↦
          let (b, run, decide) = is_ancestor-Above t found.owner v s l live in
          let granted : b ≡ true = ground arith in
          let same : found ≡ info = ground arith in
          (read ∙ ap some same, rw same at (decide.0 granted))
      | inr l ↦
          let stuck : is_ancestor t found.owner v ≡ panicked = unfold is_ancestor in ground arith in
          absurd (ground arith)
    ]
  ]

-- In a well-formed tree a live version sees a variable exactly if the variable's owner is the
-- version or lies above it; otherwise `get_variable` does not return.
pub get_variable_iff :
    (t : VersionTree) (v i : ℕ) (info : VarInfo)
    → Shaped t.nodes
    → is_live t v ≡ true
    → (get_variable t v i ≡ ok info)
      ↔ ((get_elem? t.variables i ≡ some info) × Above t.nodes info.owner v)
get_variable_iff t v i info s live =
    (get_variable-owned t v s live i info, λ h. get_variable-granted t v s live i info h.0 h.1)

-- Variable `k` is the one at `d` of the rest from number `i` on, and its owner lies above `v`.
abbrev pub Seen : VersionTree → ℕ → ℕ → List VarInfo → ℕ → Type 0
Seen t v i rest k =
    (d : ℕ) × (info : VarInfo) × (k ≡ i + d)
    × (get_elem? rest d ≡ some info)
    × Above t.nodes info.owner v

module _ (t : VersionTree) (v i k : ℕ) (info : VarInfo) (rest : List VarInfo) where
  Seen-later : Seen t v (suc i) rest k → Seen t v i (info ∷ rest) k
  Seen-later (d, found, e, read, above) = (suc d, found, omega arith, read, above)

  Seen-first : k ≡ i → Above t.nodes info.owner v → Seen t v i (info ∷ rest) k
  Seen-first e above = (zero, info, omega arith, refl, above)

  Seen-cases :
      Seen t v i (info ∷ rest) k → ((k ≡ i) × Above t.nodes info.owner v) ⊎ Seen t v (suc i) rest k
  Seen-cases (zero, found, e, read, above) =
      inl (omega arith, let q : found ≡ info = cc in rw q at above)
  Seen-cases (suc d, found, e, read, above) = inr (d, found, omega arith, read, above)

abbrev Lists : VersionTree → ℕ → ℕ → List VarInfo → List ℕ → Type 0
Lists t v i rest l = (k : ℕ) → (contains l k ≡ true) ↔ Seen t v i rest k

module _ (t : VersionTree) (v i : ℕ) (info : VarInfo) (rest : List VarInfo) (l : List ℕ)
    (ih : Lists t v (suc i) rest l) where
  Lists-seen : Above t.nodes info.owner v → Lists t v i (info ∷ rest) (i ∷ l)
  Lists-seen above k = (
    λ h. elim (Bool-cases (i == k)) [
      | inl same ↦ Seen-first t v i k info rest (ground arith) above
      | inr differ ↦ Seen-later t v i k info rest ((ih k).0 (ground arith))
    ],
    λ h. elim (Seen-cases t v i k info rest h) [
      | inl (e, _) ↦ ground arith
      | inr later ↦ let found = (ih k).1 later in ground arith
    ],
  )

  Lists-unseen : (Above t.nodes info.owner v → ⊥) → Lists t v i (info ∷ rest) l
  Lists-unseen hidden k = (
    λ h. Seen-later t v i k info rest ((ih k).0 h),
    λ h. elim (Seen-cases t v i k info rest h) [
      | inl (_, above) ↦ absurd (hidden above)
      | inr later ↦ (ih k).1 later
    ],
  )

visible_loop-Lists :
    (t : VersionTree) (v i : ℕ) (rest : List VarInfo)
    → Shaped t.nodes
    → is_live t v ≡ true
    → i + length rest ≤ 2 ^ 32
    → (l : List ℕ) × (visible_loop t v i rest ≡ ok l) × Lists t v i rest l
unfolding visible_loop
visible_loop-Lists t v i [] s live room = ([], refl, λ k. (λ h. cc, λ h. absurd (cc h.3)))
visible_loop-Lists t v i (info ∷ rest) s live room =
    let (l, run, ih) = visible_loop-Lists t v (suc i) rest s live (omega arith) in
    let small : as_u32 i ≡ i = as_u32_small i (omega arith) in
    elim (Bool-cases (is_live t info.owner)) [
      | inl owner_live ↦
          let (b, asked, decide) = is_ancestor-Above t info.owner v s owner_live live in
          elim (Bool-cases b) [
            | inl granted ↦
                (i ∷ l, ground arith, Lists-seen t v i info rest l ih (decide.0 granted))
            | inr refused ↦ (
              l,
              ground arith,
              Lists-unseen t v i info rest l ih (λ above. let e = decide.1 above in cc),
            )
          ]
      | inr owner_dead ↦ (
        l,
        ground arith,
        Lists-unseen t v i info rest l ih (λ above. let e = Above-live s.linked above live in cc),
      )
    ]

-- In a well-formed tree with at most 2^32 variables `visible_variables` returns on a live version,
-- and lists exactly the variables that the version may read with `get_variable`.
pub visible_variables_iff :
    (t : VersionTree) (v : ℕ)
    → Shaped t.nodes
    → is_live t v ≡ true
    → length t.variables ≤ 2 ^ 32
    → (l : List ℕ) × (visible_variables t v ≡ ok l)
      × ((k : ℕ) → (contains l k ≡ true) ↔ ((info : VarInfo) × (get_variable t v k ≡ ok info)))
unfolding visible_variables
visible_variables_iff t v s live room =
    let (l, run, lists) = visible_loop-Lists t v 0 t.variables s live (omega arith) in
    (
      l,
      ground arith,
      λ k. (
        λ h.
            let (d, info, e, read, above) = (lists k).0 h in
            let same : k ≡ d = omega arith in
            (info, get_variable-granted t v s live k info (rw same read) above),
        λ h.
            let (read, above) = get_variable-owned t v s live k h.0 h.1 in
            (lists k).1 (k, h.0, omega arith, read, above),
      ),
    )
