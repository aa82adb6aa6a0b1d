-- ===== src/Stash/Handles.antt =====
-- The handles of `alloc` and `alloc_slice` of crates/sage-stash/src/lib.rs, and what is read by them.
use sage_dev.Prelude.{
  ◌≤◌, ◌⊎◌, ◌==◌, ◌≢◌, inl, inr, ap, sym, Bool-cases, none, Bool, >>=-eq-ok, expect, expect-eq-ok,
  ℕ, suc, ◌+◌, ◌^◌, ◌<◌, ◌≡◌, refl, ◌↔◌, true, some, List, [], ◌∷◌, ==_self, arith, length,
  get_elem?, ok,
}
use sage_dev.Stash.{
  key, lookup_key, Hashing, Token, word, entry, Entry, Stash, words, value_tokens, intern_loop,
  alloc, alloc_slice, read_slice,
}
use sage_dev.Stash.Wf.{Wf}
use sage_dev.Stash.Intern.{stored_stash, Looped, found, stored, loop-Looped}
use sage_dev.Stash.Alloc.{stored_length, Extends, new_entry, read_stored, stored-Extends, stored-Wf}

-- Entry `i` holds `values` of type `t` under the hash `h`.
abbrev pub Holds : {V : Type 0} → Stash V → ℕ → ℕ → List V → ℕ → Type 0
Holds {V} s i t values h =
    (e : Entry V) × (get_elem? s.entries i ≡ some e)
    × (e.type_id ≡ t)
    × (e.inline_hash ≡ h)
    × (e.contents ≡ values)

-- The entries of `s'` come from `s` or are the content that was asked for.
pub record Origin {V : Type 0} (s s' : Stash V) (t : ℕ) (values : List V) (h : ℕ) : Type 0 where
  pub older :
      (k : ℕ) (d : Entry V)
      → get_elem? s'.entries k ≡ some d
      → (get_elem? s.entries k ≡ some d)
        ⊎ ((d.type_id ≡ t) × (d.inline_hash ≡ h) × (d.contents ≡ values))
  pub longer : length s'.entries ≤ length s.entries + 1

-- A well-formed stash that keeps every old entry.
pub record Grown {V : Type 0} (s s' : Stash V) : Type 0 where
  pub wf : Wf s'
  pub extends : Extends s s'

module _ {V : Type 0} (same : V → V → Bool) (same_iff : (a b : V) → (same a b ≡ true) ↔ (a ≡ b))
    (s : Stash V) (w : Wf s) (t : ℕ) (values : List V) (h : ℕ)
    (room : length s.entries + 1 < 2 ^ 32) where
  interned : Looped s t values h (intern_loop same (suc (length s.intern_map)) s t values h 0)
  interned =
      loop-Looped same same_iff s w t values h room (suc (length s.intern_map)) s.intern_map 0
        (omega arith) (λ d le. refl) (λ d lt. absurd (omega arith))
        (λ d i e lt. absurd (omega arith))

  pub intern-Handle :
      (s' : Stash V) × (i : ℕ) × (intern_loop same (suc (length s.intern_map)) s t values h 0
        ≡ ok (s', i))
      × Grown s s'
      × Holds s' i t values h
  intern-Handle = elim interned [
    | found i e read et eh ev run ↦
        (s, i, run, record { wf = w; extends = λ j d r. r }, (e, read, et, eh, ev))
    | stored c free occupied new run ↦ (
      stored_stash s t values h c,
      length s.entries,
      run,
      record {
        wf = stored-Wf s w t values h c free occupied new;
        extends = stored-Extends s w t values h c free occupied new;
      },
      (
        new_entry s w t values h c free occupied new,
        ground (arith, read_stored s w t values h c free occupied new (length s.entries)),
        refl,
        refl,
        refl,
      ),
    )
  ]

  -- Whatever the stash holds then, it held before or is the new content.
  pub intern-Origin :
      (s' : Stash V) (i : ℕ)
      → intern_loop same (suc (length s.intern_map)) s t values h 0 ≡ ok (s', i)
      → Origin s s' t values h
  intern-Origin s' i run' = elim interned [
    | found j e read et eh ev run ↦
        let q : s' ≡ s = cc in rw q (record { older = λ k d at. inl at; longer = omega arith })
    | stored c free occupied new run ↦
        let q : s' ≡ stored_stash s t values h c = cc in
        rw q (record {
          older = λ k d at. origin_at c free occupied new k d at;
          longer = stored_length s w t values h c free occupied new;
        })
  ]
    where
      origin_at :
          (c : ℕ) (free : lookup_key (key t (length values) h c) s.intern_map ≡ none)
          (occupied : (d : ℕ) → d < c → lookup_key (key t (length values) h d) s.intern_map ≢ none)
          (new : (j : ℕ) (e : Entry V)
            → get_elem? s.entries j ≡ some e
            → e.type_id ≡ t
            → e.inline_hash ≡ h
            → e.contents ≢ values)
          (k : ℕ) (d : Entry V)
          → get_elem? (stored_stash s t values h c).entries k ≡ some d
          → (get_elem? s.entries k ≡ some d)
            ⊎ ((d.type_id ≡ t) × (d.inline_hash ≡ h) × (d.contents ≡ values))
      origin_at c free occupied new k d at =
          let reads = read_stored s w t values h c free occupied new k in
          elim (Bool-cases (k == length s.entries)) [
            | inl last ↦
                let e : new_entry s w t values h c free occupied new ≡ d = ground arith in
                inr (
                  ap (λ x. x.type_id) (sym e),
                  ap (λ x. x.inline_hash) (sym e),
                  ap (λ x. x.contents) (sym e),
                )
            | inr old ↦ inl (ground arith)
          ]

  -- Content that is stored already is found, whatever else has been stored.
  pub intern-again :
      (i : ℕ)
      → Holds s i t values h
      → intern_loop same (suc (length s.intern_map)) s t values h 0 ≡ ok (s, i)
  intern-again i (e, read, et, eh, ev) = elim interned [
    | found j d read' et' eh' ev' run ↦
        let q : j ≡ i = w.unique j i d e read' read (cc) (cc) (cc) in rw q at run
    | stored c free occupied new run ↦ absurd (new i e read et eh ev)
  ]

-- The words of a value stay the same while the stash grows.
pub words-Extends :
    {V : Type 0} (s s' : Stash V) (ts : List Token) (ns : List ℕ)
    → Extends s s'
    → words s.entries ts ≡ ok ns
    → words s'.entries ts ≡ ok ns
unfolding words
words-Extends s s' [] ns x h = h
words-Extends s s' (word n ∷ ts) ns x h =
    let (rest, run, e) = >>=-eq-ok (words s.entries ts) _ h in
    rw (words-Extends s s' ts rest x run) e
words-Extends s s' (entry i ∷ ts) ns x h =
    let (d, found_d, h') = >>=-eq-ok (expect (get_elem? s.entries i)) _ h in
    let read : get_elem? s'.entries i ≡ some d = x i d (expect-eq-ok _ found_d) in
    let (rest, run, e) = >>=-eq-ok (words s.entries ts) _ h' in
    rw (read, words-Extends s s' ts rest x run) e

module _ {V : Type 0} (hs : Hashing V) (s : Stash V) (w : Wf s) (t : ℕ)
    (room : length s.entries + 1 < 2 ^ 32) where
  -- While entry numbers last, a slice whose parts are in the stash is stored: the handle reads the
  -- same values, and every older handle reads what it read.
  pub alloc_slice-Handle :
      (values : List V) (ns : List ℕ)
      → words s.entries (word (length values) ∷ value_tokens hs.tokens values) ≡ ok ns
      → (s' : Stash V) × (i : ℕ) × (alloc_slice hs s t values ≡ ok (s', i))
        × Grown s s'
        × Holds s' i t values (hs.fx ns)
  unfolding alloc_slice
  alloc_slice-Handle values ns e =
      let (s', i, run, handle, holds) =
        intern-Handle hs.same hs.same_iff s w t values (hs.fx ns) room in
      (s', i, rw (e, alloc_slice) run, handle, holds)

  pub alloc-Handle :
      (value : V) (ns : List ℕ)
      → words s.entries (hs.tokens value) ≡ ok ns
      → (s' : Stash V) × (i : ℕ) × (alloc hs s t value ≡ ok (s', i))
        × Grown s s'
        × Holds s' i t (value ∷ []) (hs.fx ns)
  unfolding alloc
  alloc-Handle value ns e =
      let (s', i, run, grown, holds) =
        intern-Handle hs.same hs.same_iff s w t (value ∷ []) (hs.fx ns) room in
      (s', i, rw (e, alloc) run, grown, holds)

-- Reading an entry.
read-Holds :
    {V : Type 0} (s : Stash V) (i t : ℕ) (values : List V) (h : ℕ)
    → Holds s i t values h
    → read_slice s t i ≡ ok values
unfolding read_slice
read-Holds s i t values h (e, read, et, eh, ev) = ground (arith, ==_self t)

pub read-Extends :
    {V : Type 0} (s s' : Stash V) (u j : ℕ) (vs : List V)
    → Extends s s'
    → read_slice s u j ≡ ok vs
    → read_slice s' u j ≡ ok vs
unfolding read_slice
read-Extends s s' u j vs x h =
    let (e, found_e, rest) = >>=-eq-ok (expect (get_elem? s.entries j)) _ h in
    rw (x j e (expect-eq-ok _ found_e)) rest

-- `values` is stored at handle `i` of `s'`, and every handle of `s` still reads the same.
pub record Stores {V : Type 0} (s s' : Stash V) (t i : ℕ) (values : List V) : Type 0 where
  pub wf : Wf s'
  pub reads : read_slice s' t i ≡ ok values
  pub older : (u j : ℕ) (vs : List V) → read_slice s u j ≡ ok vs → read_slice s' u j ≡ ok vs

Stores-of :
    {V : Type 0} (s s' : Stash V) (t i : ℕ) (values : List V) (h : ℕ)
    → Grown s s'
    → Holds s' i t values h
    → Stores s s' t i values
Stores-of s s' t i values h grown holds = record {
  wf = grown.wf;
  reads = read-Holds s' i t values h holds;
  older = λ u j vs. read-Extends s s' u j vs grown.extends;
}

module _ {V : Type 0} (hs : Hashing V) (s : Stash V) (t : ℕ) where
  -- While entry numbers last, a value whose parts are in a well-formed stash can be stored: the
  -- handle reads it, the stash stays well formed, and every older handle reads what it read.
  pub alloc-Stores :
      (value : V) (ns : List ℕ)
      → Wf s
      → length s.entries + 1 < 2 ^ 32
      → words s.entries (hs.tokens value) ≡ ok ns
      → (s' : Stash V) × (i : ℕ) × (alloc hs s t value ≡ ok (s', i)) × Stores s s' t i (value ∷ [])
  alloc-Stores value ns w room e =
      let (s', i, run, grown, holds) = alloc-Handle hs s w t room value ns e in
      (s', i, run, Stores-of s s' t i (value ∷ []) (hs.fx ns) grown holds)

  -- While entry numbers last, a slice whose parts are in a well-formed stash can be stored: the
  -- handle reads its values, the stash stays well formed, and every older handle reads what it
  -- read.
  pub alloc_slice-Stores :
      (values : List V) (ns : List ℕ)
      → Wf s
      → length s.entries + 1 < 2 ^ 32
      → words s.entries (word (length values) ∷ value_tokens hs.tokens values) ≡ ok ns
      → (s' : Stash V) × (i : ℕ) × (alloc_slice hs s t values ≡ ok (s', i)) × Stores s s' t i values
  alloc_slice-Stores values ns w room e =
      let (s', i, run, grown, holds) = alloc_slice-Handle hs s w t room values ns e in
      (s', i, run, Stores-of s s' t i values (hs.fx ns) grown holds)

  Holds-Extends :
      (s' s'' : Stash V) (i : ℕ) (values : List V) (h : ℕ)
      → Extends s' s''
      → Holds s' i t values h
      → Holds s'' i t values h
  Holds-Extends s' s'' i values h x (e, read, et, eh, ev) = (e, x i e read, et, eh, ev)

  -- Equal content has equal handles: once a value is stored in a well-formed stash, storing it
  -- again in any later, well-formed state of the stash returns the first handle and adds nothing,
  -- while entry numbers last.
  pub alloc_again :
      (value : V) (s' later : Stash V) (i : ℕ)
      → Wf s
      → length s.entries + 1 < 2 ^ 32
      → alloc hs s t value ≡ ok (s', i)
      → Wf later
      → Extends s' later
      → length later.entries + 1 < 2 ^ 32
      → alloc hs later t value ≡ ok (later, i)
  unfolding alloc
  alloc_again value s' later i w room run w' x room' =
      let (ns, fed, _) = >>=-eq-ok (words s.entries (hs.tokens value)) _ run in
      let (s1, i1, run1, grown, holds) = alloc-Handle hs s w t room value ns fed in
      let same_stash : s1 ≡ s' = cc in
      let same_handle : i1 ≡ i = cc in
      let grown' : Grown s s' = rw same_stash at grown in
      let holds' : Holds s' i t (value ∷ []) (hs.fx ns) = rw (same_stash, same_handle) at holds in
      let fed' : words later.entries (hs.tokens value) ≡ ok ns =
        words-Extends s later (hs.tokens value) ns (λ j e r. x j e (grown'.extends j e r)) fed in
      rw (fed', alloc)
        (intern-again hs.same hs.same_iff later w' t (value ∷ []) (hs.fx ns) room' i
          (Holds-Extends s' later i (value ∷ []) (hs.fx ns) x holds'))

  -- Equal slices have equal handles: once a slice is stored in a well-formed stash, storing it
  -- again in any later, well-formed state of the stash returns the first handle and adds nothing,
  -- while entry numbers last.
  pub alloc_slice_again :
      (values : List V) (s' later : Stash V) (i : ℕ)
      → Wf s
      → length s.entries + 1 < 2 ^ 32
      → alloc_slice hs s t values ≡ ok (s', i)
      → Wf later
      → Extends s' later
      → length later.entries + 1 < 2 ^ 32
      → alloc_slice hs later t values ≡ ok (later, i)
  unfolding alloc_slice
  alloc_slice_again values s' later i w room run w' x room' =
      let ts : List Token = word (length values) ∷ value_tokens hs.tokens values in
      let (ns, fed, _) = >>=-eq-ok (words s.entries ts) _ run in
      let (s1, i1, run1, grown, holds) = alloc_slice-Handle hs s w t room values ns fed in
      let same_stash : s1 ≡ s' = cc in
      let same_handle : i1 ≡ i = cc in
      let grown' : Grown s s' = rw same_stash at grown in
      let holds' : Holds s' i t values (hs.fx ns) = rw (same_stash, same_handle) at holds in
      let fed' : words later.entries ts ≡ ok ns =
        words-Extends s later ts ns (λ j e r. x j e (grown'.extends j e r)) fed in
      rw (fed', alloc_slice)
        (intern-again hs.same hs.same_iff later w' t values (hs.fx ns) room' i
          (Holds-Extends s' later i values (hs.fx ns) x holds'))
