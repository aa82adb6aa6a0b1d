-- ===== src/Stash/Alloc.antt =====
-- The stash after `alloc` or `alloc_slice` of crates/sage-stash/src/lib.rs has stored new content.
use sage_dev.Prelude.{
  ◌≤◌, ◌+◌, length-append, [], ◌∷◌, ℕ, suc, ◌^◌, ◌%◌, ◌<◌, ◌≡◌, ◌≢◌, ◌∙◌, ap, refl, inl, inr, true,
  none, some, Bool-cases, List, ◌==◌, if◌then◌else◌, arith, length, get_elem?, get_elem?-lt,
  get_elem?-snoc,
}
use sage_dev.Stash.{Entry, InternKey, Stash, same_key, lookup_key, key}
use sage_dev.Stash.Wf.{Wf, same_key_iff}
use sage_dev.Stash.Intern.{stored_stash}

-- Every entry of `s` is an entry of `s'`.
abbrev pub Extends : {V : Type 0} → Stash V → Stash V → Type 0
Extends {V} s s' =
    (i : ℕ) (e : Entry V) → get_elem? s.entries i ≡ some e → get_elem? s'.entries i ≡ some e

module _ {V : Type 0} (s : Stash V) (w : Wf s) (t : ℕ) (values : List V) (h c : ℕ)
    (free : lookup_key (key t (length values) h c) s.intern_map ≡ none)
    (occupied : (d : ℕ) → d < c → lookup_key (key t (length values) h d) s.intern_map ≢ none)
    (new : (i : ℕ) (e : Entry V)
      → get_elem? s.entries i ≡ some e
      → e.type_id ≡ t
      → e.inline_hash ≡ h
      → e.contents ≢ values) where
  abbrev pub new_entry : Entry V
  new_entry = record {
    type_id = t;
    count = length values % 2 ^ 32;
    inline_hash = h;
    contents = values;
  }

  abbrev new_key : InternKey
  new_key = key t (length values) h c

  pub read_stored :
      (i : ℕ)
      → get_elem? (stored_stash s t values h c).entries i
        ≡ (if i == length s.entries then some new_entry else get_elem? s.entries i)
  unfolding stored_stash
  read_stored i = get_elem?-snoc s.entries _ i

  lookup_stored :
      (k : InternKey)
      → lookup_key k (stored_stash s t values h c).intern_map
        ≡ (if same_key new_key k then some (length s.entries) else lookup_key k s.intern_map)
  unfolding stored_stash
  lookup_stored k = refl

  pub stored_length : length (stored_stash s t values h c).entries ≤ length s.entries + 1
  unfolding stored_stash
  stored_length = omega (arith, length-append s.entries (new_entry ∷ []))

  pub stored-Extends : Extends s (stored_stash s t values h c)
  stored-Extends i e read = ground (arith, read_stored i, get_elem?-lt s.entries i read)

  stored-keyed :
      (k : InternKey) (i : ℕ)
      → lookup_key k (stored_stash s t values h c).intern_map ≡ some i
      → (e : Entry V) × (get_elem? (stored_stash s t values h c).entries i ≡ some e)
        × (e.type_id ≡ k.type_id)
        × (length e.contents ≡ k.count)
        × (e.inline_hash ≡ k.content_hash)
  stored-keyed k i at = elim (Bool-cases (same_key new_key k)) [
    | inl hit ↦
        let q : new_key ≡ k = (same_key_iff new_key k).0 hit in
        (
          new_entry,
          ground (arith, read_stored i, lookup_stored k),
          ap (λ (j : InternKey). j.type_id) q,
          ap (λ (j : InternKey). j.count) q,
          ap (λ (j : InternKey). j.content_hash) q,
        )
    | inr miss ↦
        let (e, read, et, el, eh) = w.keyed k i (rw (lookup_stored k, miss) at at) in
        (e, stored-Extends i e read, et, el, eh)
  ]

  stored-entered :
      (i : ℕ) (e : Entry V)
      → get_elem? (stored_stash s t values h c).entries i ≡ some e
      → (d : ℕ) × (lookup_key
            (key e.type_id (length e.contents) e.inline_hash d)
            (stored_stash s t values h c).intern_map
          ≡ some i)
  stored-entered i e read = elim (Bool-cases (i == length s.entries)) [
    | inl last ↦
        let q : new_entry ≡ e = ground (arith, read_stored i) in
        let same : same_key new_key new_key ≡ true = (same_key_iff new_key new_key).1 refl in
        (c, rw (← q) (ground (arith, lookup_stored new_key)))
    | inr older ↦
        let (d, at) = w.entered i e (ground (arith, read_stored i)) in
        let k : InternKey = key e.type_id (length e.contents) e.inline_hash d in
        (
          d,
          elim (Bool-cases (same_key new_key k)) [
            | inl hit ↦
                let q : new_key ≡ k = (same_key_iff new_key k).0 hit in
                let none_there : lookup_key k s.intern_map ≡ none = rw (← q) free in
                absurd (ground arith)
            | inr miss ↦ lookup_stored k ∙ rw miss at
          ],
        )
  ]

  stored-dense :
      (t' n' h' c' : ℕ)
      → lookup_key (key t' n' h' c') (stored_stash s t values h c).intern_map ≡ none
      → lookup_key (key t' n' h' (suc c')) (stored_stash s t values h c).intern_map ≡ none
  stored-dense t' n' h' c' e =
      let below : lookup_key (key t' n' h' c') s.intern_map ≡ none =
        ground (arith, lookup_stored (key t' n' h' c')) in
      let above : lookup_key (key t' n' h' (suc c')) s.intern_map ≡ none =
        w.dense t' n' h' c' below in
      elim (Bool-cases (same_key new_key (key t' n' h' (suc c')))) [
        | inl hit ↦
            let q : new_key ≡ key t' n' h' (suc c') =
              (same_key_iff new_key (key t' n' h' (suc c'))).0 hit in
            let lt : c' < c = omega (arith, ap (λ (k : InternKey). k.collision) q) in
            let moved : key t (length values) h c' ≡ key t' n' h' c' = cc q in
            absurd (occupied c' lt (rw moved below))
        | inr miss ↦ lookup_stored (key t' n' h' (suc c')) ∙ rw miss above
      ]

  stored_unique :
      (i j : ℕ) (d e : Entry V)
      → get_elem? (stored_stash s t values h c).entries i ≡ some d
      → get_elem? (stored_stash s t values h c).entries j ≡ some e
      → d.type_id ≡ e.type_id
      → d.inline_hash ≡ e.inline_hash
      → d.contents ≡ e.contents
      → i ≡ j
  stored_unique i j d e ri rj et eh ev = elim (Bool-cases (i == length s.entries)) [
    | inl last ↦
        let q : new_entry ≡ d = ground (arith, read_stored i) in
        elim (Bool-cases (j == length s.entries)) [
          | inl last' ↦ ground arith
          | inr older' ↦
              let old : get_elem? s.entries j ≡ some e = ground (arith, read_stored j) in
              absurd (new j e old (cc q) (cc q) (cc q))
        ]
    | inr older ↦
        let old : get_elem? s.entries i ≡ some d = ground (arith, read_stored i) in
        elim (Bool-cases (j == length s.entries)) [
          | inl last' ↦
              let q : new_entry ≡ e = ground (arith, read_stored j) in
              absurd (new i d old (cc q) (cc q) (cc q))
          | inr older' ↦
              let old' : get_elem? s.entries j ≡ some e = ground (arith, read_stored j) in
              w.unique i j d e old old' et eh ev
        ]
  ]

  pub stored-Wf : Wf (stored_stash s t values h c)
  stored-Wf = record {
    keyed = stored-keyed;
    entered = stored-entered;
    dense = stored-dense;
    unique = stored_unique;
  }
