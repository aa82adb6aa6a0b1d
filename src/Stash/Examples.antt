-- ===== src/Stash/Examples.antt =====
-- A stash of numbers whose hashes all collide, and the theorems on crates/sage-stash/src/lib.rs on it.
use sage_dev.Prelude.{ℕ, zero, suc, ◌≡◌, ◌==◌, ==_iff, refl, arith, [], ◌∷◌, ok}
use sage_dev.Stash.{
  word, Hashing, Entry, Stash, key, empty, words, value_tokens, entry_index, same_values, push_raw,
  intern_loop, alloc, alloc_slice,
}
use sage_dev.Stash.Wf.{Wf, empty-Wf}
use sage_dev.Stash.Alloc.{Extends}
use sage_dev.Stash.Handles.{Stores, alloc-Stores, alloc_again}

abbrev pub numbers : Hashing ℕ
numbers = record {
  tokens = λ n. word n ∷ [];
  same = λ a b. a == b;
  same_iff = ==_iff;
  fx = λ ns. 7;
}

abbrev pub number_entry : ℕ → Entry ℕ
number_entry n = record { type_id = 0; count = 1; inline_hash = 7; contents = n ∷ [] }

abbrev pub one : Stash ℕ
one = record { entries = number_entry 5 ∷ []; intern_map = (key 0 1 7 0, 0) ∷ [] }

abbrev pub two : Stash ℕ
two = record {
  entries = number_entry 5 ∷ number_entry 6 ∷ [];
  intern_map = (key 0 1 7 1, 1) ∷ (key 0 1 7 0, 0) ∷ [];
}

first_run : alloc numbers empty 0 5 ≡ ok (one, 0)
unfolding alloc words intern_loop push_raw same_values entry_index empty
first_run = refl

first_slice_run : alloc_slice numbers empty 0 (5 ∷ []) ≡ ok (one, 0)
unfolding alloc_slice value_tokens words intern_loop push_raw same_values entry_index empty
first_slice_run = refl

second_run : alloc numbers one 0 6 ≡ ok (two, 1)
unfolding alloc words intern_loop push_raw same_values entry_index
second_run = refl

stored_Wf :
    (s t : Stash ℕ) (n i : ℕ)
    → Wf s
    → (s' : Stash ℕ) × (j : ℕ) × (alloc numbers s 0 n ≡ ok (s', j)) × Stores s s' 0 j (n ∷ [])
    → alloc numbers s 0 n ≡ ok (t, i)
    → Wf t
stored_Wf s t n i w (s', j, run, stores) run' = let e : s' ≡ t = cc in rw e at stores.wf

one-Wf : Wf one
unfolding words empty
one-Wf =
    stored_Wf empty one 5 0 empty-Wf
      (alloc-Stores numbers empty 0 5 (5 ∷ []) empty-Wf (omega arith) refl) first_run

two-Wf : Wf two
unfolding words
two-Wf =
    stored_Wf one two 6 1 one-Wf (alloc-Stores numbers one 0 6 (6 ∷ []) one-Wf (omega arith) refl)
      second_run

one-Extends : Extends one two
one-Extends zero e h = h
one-Extends (suc j) e h = cc

alloc-Stores_example :
    (s' : Stash ℕ) × (i : ℕ) × (alloc numbers one 0 6 ≡ ok (s', i)) × Stores one s' 0 i (6 ∷ [])
unfolding words
alloc-Stores_example = alloc-Stores numbers one 0 6 (6 ∷ []) one-Wf (omega arith) refl

alloc_again_example : alloc numbers two 0 5 ≡ ok (two, 0)
unfolding empty
alloc_again_example =
    alloc_again numbers empty 0 5 one two 0 empty-Wf (omega arith) first_run two-Wf one-Extends
      (omega arith)
