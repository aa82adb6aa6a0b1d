-- ===== src/Skeleton/Examples.antt =====
-- A stash with a one-element tuple type for crates/sage-ir/src/check/infer/skeleton.rs.
use sage_dev.Prelude.{
  ℕ, zero, suc, ◌+◌, ◌≡◌, ◌↔◌, refl, Bool, true, false, some, List, [], ◌∷◌, get_elem?, ok, arith,
  ◌⊎◌, inl, inr, Bool-cases, length,
}
use sage_dev.Ty.{Ty, Cell, ty, ptr}
use sage_dev.Stash.{
  same_key, Stash, Entry, InternKey, Hashing, Token, word, entry, key, lookup_key, words,
  value_tokens, read_slice, read_ptr,
}
use sage_dev.Stash.Wf.{Wf}
use sage_dev.Ty.Equality.{Cell-discrete}
use sage_dev.EGraph.{ty_at}
use sage_dev.Skeleton.{
  Skeleton, with_children, pointers, slice_at, decompose_ty, decompose, recompose,
}
use sage_dev.Skeleton.Canonical.{Canonical}
use sage_dev.Prelude.{◌<◌, ◌^◌}
use sage_dev.Stash.{alloc}
use sage_dev.Skeleton.{cells_of, store_slice}
use sage_dev.Skeleton.Stored.{stored-Canonical}
use sage_dev.Skeleton.Roundtrip.{recompose-decompose}

unfoldable pub same_cell : Cell → Cell → Bool
same_cell a b = elim (Cell-discrete a b) [ yes e ↦ true | no ne ↦ false ]

pub same_cell_iff : (a b : Cell) → (same_cell a b ≡ true) ↔ (a ≡ b)
unfolding same_cell
same_cell_iff a b =
    elim (Cell-discrete a b) as (λ d. (elim d [ yes e ↦ true | no ne ↦ false ] ≡ true) ↔ (a ≡ b)) [
      | yes e ↦ (λ h. e, λ h. refl)
      | no ne ↦ (λ h. absurd (cc), λ h. absurd (ne h))
    ]

abbrev pub cell_tokens : Cell → List Token
cell_tokens (ptr p) = entry p ∷ []
cell_tokens (ty Ty.bool) = word 1 ∷ []
cell_tokens (ty (Ty.tuple elems)) = word 2 ∷ entry elems ∷ []
cell_tokens (ty _) = word 3 ∷ []

abbrev pub sum : List ℕ → ℕ
sum [] = 0
sum (n ∷ ns) = n + sum ns

abbrev pub summing : Hashing Cell
summing = record { tokens = cell_tokens; same = same_cell; same_iff = same_cell_iff; fx = sum }

abbrev bool_entry : Entry Cell
bool_entry = record { type_id = 0; count = 1; inline_hash = 1; contents = ty Ty.bool ∷ [] }

abbrev elems_entry : Entry Cell
elems_entry = record { type_id = 1; count = 1; inline_hash = 2; contents = ptr 0 ∷ [] }

abbrev tuple_entry : Entry Cell
tuple_entry = record { type_id = 0; count = 1; inline_hash = 4; contents = ty (Ty.tuple 1) ∷ [] }

abbrev tuple_stash : Stash Cell
tuple_stash = record {
  entries = bool_entry ∷ elems_entry ∷ tuple_entry ∷ [];
  intern_map = (key 0 1 4 0, 2) ∷ (key 1 1 2 0, 1) ∷ (key 0 1 1 0, 0) ∷ [];
}

-- The hashes of the three entries differ.
tuple_stash-hash :
    (i : ℕ) (e : Entry Cell)
    → get_elem? tuple_stash.entries i ≡ some e
    → ((i ≡ 0) × (e ≡ bool_entry)) ⊎ (((i ≡ 1) × (e ≡ elems_entry)) ⊎ ((i ≡ 2) × (e ≡ tuple_entry)))
tuple_stash-hash zero e h = inl (refl, cc)
tuple_stash-hash (suc zero) e h = inr (inl (refl, cc))
tuple_stash-hash (suc (suc zero)) e h = inr (inr (refl, cc))
tuple_stash-hash (suc (suc (suc i))) e h = cc

tuple_stash-Wf : Wf tuple_stash
tuple_stash-Wf = record {
  keyed = keying;
  entered = entering;
  dense = λ t n h c e. ground arith;
  unique = distinct;
}
  where
    keying :
        (k : InternKey) (i : ℕ)
        → lookup_key k tuple_stash.intern_map ≡ some i
        → (e : Entry Cell) × (get_elem? tuple_stash.entries i ≡ some e)
          × (e.type_id ≡ k.type_id)
          × (length e.contents ≡ k.count)
          × (e.inline_hash ≡ k.content_hash)
    keying k i h = elim (Bool-cases (same_key (key 0 1 4 0) k)) [
      | inl third ↦ (tuple_entry, ground arith, ground arith, ground arith, ground arith)
      | inr other ↦ elim (Bool-cases (same_key (key 1 1 2 0) k)) [
        | inl second ↦ (elems_entry, ground arith, ground arith, ground arith, ground arith)
        | inr last ↦ (bool_entry, ground arith, ground arith, ground arith, ground arith)
      ]
    ]

    entering :
        (i : ℕ) (e : Entry Cell)
        → get_elem? tuple_stash.entries i ≡ some e
        → (c : ℕ) × (lookup_key
              (key e.type_id (length e.contents) e.inline_hash c)
              tuple_stash.intern_map
            ≡ some i)
    entering i e h = elim (tuple_stash-hash i e h) [
      | inl (q, f) ↦ (0, rw (q, f) refl)
      | inr (inl (q, f)) ↦ (0, rw (q, f) refl)
      | inr (inr (q, f)) ↦ (0, rw (q, f) refl)
    ]

    distinct :
        (i j : ℕ) (d e : Entry Cell)
        → get_elem? tuple_stash.entries i ≡ some d
        → get_elem? tuple_stash.entries j ≡ some e
        → d.type_id ≡ e.type_id
        → d.inline_hash ≡ e.inline_hash
        → d.contents ≡ e.contents
        → i ≡ j
    distinct i j d e h h' et eh ev = ground (arith, tuple_stash-hash i d h, tuple_stash-hash j e h')

tuple_stash-Canonical : Canonical summing tuple_stash
unfolding words value_tokens
tuple_stash-Canonical = record {
  wf = tuple_stash-Wf;
  room = omega arith;
  scalar = λ i e h t. elim (tuple_stash-hash i e h) [
    | inl (q, f) ↦ (Ty.bool, 1 ∷ [], rw f refl, refl, rw f refl)
    | inr (inl (q, f)) ↦ absurd (cc)
    | inr (inr (q, f)) ↦ (Ty.tuple 1, 2 ∷ 2 ∷ [], rw f refl, refl, rw f refl)
  ];
  sliced = λ i e h t. elim (tuple_stash-hash i e h) [
    | inl (q, f) ↦ absurd (cc)
    | inr (inl (q, f)) ↦ (1 ∷ 1 ∷ [], rw f refl, rw f refl, rw f (omega arith))
    | inr (inr (q, f)) ↦ absurd (cc)
  ];
}

recompose-decompose_example :
    recompose summing tuple_stash (Skeleton.tuple 1) (0 ∷ []) ≡ ok (tuple_stash, 2)
unfolding decompose decompose_ty slice_at pointers ty_at read_ptr read_slice
recompose-decompose_example =
    recompose-decompose summing tuple_stash 2 (with_children (Skeleton.tuple 1) (0 ∷ []))
      tuple_stash-Canonical refl

stored-Canonical_example :
    ((t : Ty) (ns : List ℕ)
      → words tuple_stash.entries (summing.tokens (ty t)) ≡ ok ns
      → (s' : Stash Cell) × (i : ℕ) × (alloc summing tuple_stash 0 (ty t) ≡ ok (s', i))
        × Canonical summing s'
        × (ty_at s' i ≡ ok t))
    × ((ps ns : List ℕ)
        → length ps < 2 ^ 32
        → words tuple_stash.entries (word (length ps) ∷ value_tokens summing.tokens (cells_of ps))
          ≡ ok ns
        → (s' : Stash Cell) × (i : ℕ) × (store_slice summing tuple_stash ps ≡ ok (s', i))
          × Canonical summing s'
          × (slice_at s' i ≡ ok ps))
stored-Canonical_example = stored-Canonical summing tuple_stash tuple_stash-Canonical (omega arith)
