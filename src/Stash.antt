-- ===== src/Stash.antt =====
-- crates/sage-stash/src/lib.rs: hash-consing storage. An entry keeps the values that the source
-- writes to its byte buffer at the entry's offset; alignment, padding and the debug-only owner check
-- are left out. A type's identity is a number. The external hash function `fx` gets the words that a
-- value writes to the hasher, each pointer standing for the hash stored in its entry.
pub mod Buffer
pub mod Wf
pub mod Intern
pub mod Alloc
pub mod Handles
pub mod Examples
use sage_dev.Prelude.{
  ℕ, zero, suc, ◌+◌, ◌^◌, ◌%◌, Bool, true, false, ◌&&◌, Option, none, some, List, [], ◌∷◌, ◌++◌,
  ◌==◌, if◌then◌else◌, length, get_elem?, Outcome, ok, panicked, out_of_fuel, ◌>>=◌, ◌>>◌, assert,
  expect, ◌≡◌, ◌↔◌, ltb,
}

-- What a value writes to a `StashHasher`: a word, or a pointer to an entry.
pub data Token : Type 0 where
  word : ℕ → Token
  entry : ℕ → Token

-- The derived `StashHash` and `PartialEq` of the stored values, and the external hasher.
pub record Hashing (V : Type 0) : Type 0 where
  pub tokens : V → List Token
  pub same : V → V → Bool
  pub same_iff : (a b : V) → (same a b ≡ true) ↔ (a ≡ b)
  pub fx : List ℕ → ℕ

pub record Entry (V : Type 0) : Type 0 where
  pub type_id : ℕ
  pub count : ℕ
  pub inline_hash : ℕ
  pub contents : List V

pub record InternKey : Type 0 where
  pub type_id : ℕ
  pub count : ℕ
  pub content_hash : ℕ
  pub collision : ℕ

pub record Stash (V : Type 0) : Type 0 where
  pub entries : List (Entry V)
  pub intern_map : List (InternKey × ℕ)

abbrev pub same_key : InternKey → InternKey → Bool
same_key a b =
    a.type_id == b.type_id
    && (a.count == b.count && (a.content_hash == b.content_hash && a.collision == b.collision))

abbrev pub lookup_key : InternKey → List (InternKey × ℕ) → Option ℕ
lookup_key k [] = none
lookup_key k ((j, i) ∷ m) = if same_key j k then some i else lookup_key k m

-- The number of the next entry; `EntryIndex::new` refuses the last 32-bit number.
unfoldable pub entry_index : ℕ → Outcome ℕ
entry_index n = let i = n % 2 ^ 32 in if ltb (i + 1) (2 ^ 32) then ok i else panicked

abbrev pub key : ℕ → ℕ → ℕ → ℕ → InternKey
key type_id count content_hash collision = record {
  type_id = type_id;
  count = count;
  content_hash = content_hash;
  collision = collision;
}

module _ {V : Type 0} where
  unfoldable pub empty : Stash V
  empty = record { entries = []; intern_map = [] }

  -- `stash_hash_ptr` and `stash_hash_slice` of `InternHasher`: the hash stored in the entry.
  unfoldable pub words : List (Entry V) → List Token → Outcome (List ℕ)
  words entries [] = ok []
  words entries (word n ∷ ts) = words entries ts >>= λ ns. ok (n ∷ ns)
  words entries (entry i ∷ ts) =
      expect (get_elem? entries i) >>= λ e. words entries ts >>= λ ns. ok (e.inline_hash ∷ ns)

  unfoldable pub value_tokens : (V → List Token) → List V → List Token
  value_tokens tokens [] = []
  value_tokens tokens (v ∷ vs) = tokens v ++ value_tokens tokens vs

  unfoldable pub same_values : (V → V → Bool) → List V → List V → Bool
  same_values same [] [] = true
  same_values same (a ∷ as') (b ∷ bs) = same a b && same_values same as' bs
  same_values same _ _ = false

  unfoldable pub push_raw : Stash V → List V → ℕ → ℕ → Outcome (Stash V × ℕ)
  unfolding entry_index
  push_raw s values type_id inline_hash = do
    index ← entry_index (length s.entries)
    ok (
      record s {
        entries =
            s.entries
            ++ record {
              type_id = type_id;
              count = length values % 2 ^ 32;
              inline_hash = inline_hash;
              contents = values;
            }
              ∷ [];
      },
      index,
    )

  -- The loop over collision numbers, shared by `alloc` and `alloc_slice`.
  unfoldable pub intern_loop :
      (V → V → Bool) → ℕ → Stash V → ℕ → List V → ℕ → ℕ → Outcome (Stash V × ℕ)
  unfolding push_raw same_values
  intern_loop same zero s type_id values content_hash collision = out_of_fuel
  intern_loop same (suc f) s type_id values content_hash collision =
      elim (lookup_key (key type_id (length values) content_hash collision) s.intern_map) [
        | none ↦ push_raw s values type_id content_hash >>= λ r. ok (
          record r.0 {
            intern_map = (key type_id (length values) content_hash collision, r.1) ∷ s.intern_map;
          },
          r.1,
        )
        | some i ↦ elim (get_elem? s.entries i) [
          | none ↦ panicked
          | some e ↦ elim (same_values same e.contents values) [
            | true ↦ ok (s, i)
            | false ↦ intern_loop same f s type_id values content_hash (suc collision)
          ]
        ]
      ]

  unfoldable pub alloc : Hashing V → Stash V → ℕ → V → Outcome (Stash V × ℕ)
  unfolding words intern_loop
  alloc h s type_id value = do
    ns ← words s.entries (h.tokens value)
    intern_loop h.same (suc (length s.intern_map)) s type_id (value ∷ []) (h.fx ns) 0

  unfoldable pub alloc_slice : Hashing V → Stash V → ℕ → List V → Outcome (Stash V × ℕ)
  unfolding words value_tokens intern_loop
  alloc_slice h s type_id values = do
    ns ← words s.entries (word (length values) ∷ value_tokens h.tokens values)
    intern_loop h.same (suc (length s.intern_map)) s type_id values (h.fx ns) 0

  -- Indexing by a slice handle checks the entry's type.
  unfoldable pub read_slice : Stash V → ℕ → ℕ → Outcome (List V)
  read_slice s type_id i = do
    e ← expect (get_elem? s.entries i)
    assert (e.type_id == type_id)
    ok e.contents

  -- Indexing by a pointer handle.
  unfoldable pub read_ptr : Stash V → ℕ → ℕ → Outcome V
  unfolding read_slice
  read_ptr s type_id i =
      read_slice s type_id i >>= λ vs. elim vs [ [] ↦ panicked | v ∷ rest ↦ ok v ]

  -- `append_one`.
  unfoldable pub append_one : Hashing V → Stash V → ℕ → ℕ → V → Outcome (Stash V × ℕ)
  unfolding read_slice alloc_slice
  append_one h s type_id existing element = do
    old ← read_slice s type_id existing
    alloc_slice h s type_id (old ++ element ∷ [])
