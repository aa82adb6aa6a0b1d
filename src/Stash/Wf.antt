-- ===== src/Stash/Wf.antt =====
-- When a stash of crates/sage-stash/src/lib.rs is well formed, and what growing it leaves alone.
use sage_dev.Prelude.{ℕ, zero, suc, ◌+◌, ◌≡◌, refl, ◌↔◌, true, none, some, arith, length, get_elem?}
use sage_dev.Stash.{Entry, InternKey, Stash, same_key, lookup_key, key, empty}

pub same_key_iff : (a b : InternKey) → (same_key a b ≡ true) ↔ (a ≡ b)
same_key_iff a b = (λ h. ground arith, λ e. ground arith)

pub record Wf {V : Type 0} (s : Stash V) : Type 0 where
  -- A key leads to an entry of its type, count and hash.
  pub keyed :
      (k : InternKey) (i : ℕ)
      → lookup_key k s.intern_map ≡ some i
      → (e : Entry V) × (get_elem? s.entries i ≡ some e)
        × (e.type_id ≡ k.type_id)
        × (length e.contents ≡ k.count)
        × (e.inline_hash ≡ k.content_hash)
  -- Every entry has a key.
  pub entered :
      (i : ℕ) (e : Entry V)
      → get_elem? s.entries i ≡ some e
      → (c : ℕ) × (lookup_key (key e.type_id (length e.contents) e.inline_hash c) s.intern_map
          ≡ some i)
  -- Collision numbers are given out from 0 on.
  pub dense :
      (t n h c : ℕ)
      → lookup_key (key t n h c) s.intern_map ≡ none
      → lookup_key (key t n h (suc c)) s.intern_map ≡ none
  -- No content is stored twice.
  pub unique :
      (i j : ℕ) (d e : Entry V)
      → get_elem? s.entries i ≡ some d
      → get_elem? s.entries j ≡ some e
      → d.type_id ≡ e.type_id
      → d.inline_hash ≡ e.inline_hash
      → d.contents ≡ e.contents
      → i ≡ j

pub empty-Wf : {V : Type 0} → Wf (empty {V = V})
unfolding empty
empty-Wf = record {
  keyed = λ k i h. absurd (cc h);
  entered = λ i e h. absurd (cc h);
  dense = λ t n h c e. refl;
  unique = λ i j d e h. absurd (cc h);
}

-- Above a free collision number all are free.
pub dense_up :
    {V : Type 0} (s : Stash V) (t n h c d : ℕ)
    → Wf s
    → lookup_key (key t n h c) s.intern_map ≡ none
    → lookup_key (key t n h (d + c)) s.intern_map ≡ none
dense_up s t n h c zero w e = let q : zero + c ≡ c = omega arith in rw q e
dense_up s t n h c (suc d) w e =
    let q : suc d + c ≡ suc (d + c) = omega arith in
    rw q (w.dense t n h (d + c) (dense_up s t n h c d w e))
