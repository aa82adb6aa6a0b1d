-- ===== src/Stash/Intern.antt =====
-- The collision loop of `alloc` and `alloc_slice` of crates/sage-stash/src/lib.rs.
use sage_dev.Prelude.{
  ℕ, zero, suc, ◌+◌, ◌-◌, ◌^◌, ◌%◌, ◌≤◌, ◌<◌, ◌≡◌, ◌≢◌, ◌∙◌, ap, sym, refl, ◌↔◌, inl, inr, Bool,
  true, false, none, some, Option-cases, Bool-cases, List, [], ◌∷◌, ◌++◌, if◌then◌else◌, arith,
  length, get_elem?, Outcome, ok,
}
use native.Mathlib.Decide.{dec_lt}
use sage_dev.Stash.{Entry, InternKey, Stash, same_key, lookup_key, key, same_values, intern_loop}
use sage_dev.Stash.Wf.{Wf, same_key_iff, dense_up}

without_key : InternKey → List (InternKey × ℕ) → List (InternKey × ℕ)
without_key k [] = []
without_key k ((j, i) ∷ m) = if same_key j k then without_key k m else (j, i) ∷ without_key k m

lookup-without_key :
    (k j : InternKey) (m : List (InternKey × ℕ))
    → k ≢ j
    → lookup_key j (without_key k m) ≡ lookup_key j m
unfolding without_key
lookup-without_key k j [] ne = refl
lookup-without_key k j ((i, v) ∷ m) ne = elim (Bool-cases (same_key i k)) [
  | inl hit ↦
      let e : i ≡ k = (same_key_iff i k).0 hit in
      elim (Bool-cases (same_key i j)) [
        | inl q ↦ absurd (ne (sym e ∙ (same_key_iff i j).0 q))
        | inr miss ↦ rw (hit, miss) (lookup-without_key k j m ne)
      ]
  | inr other ↦ elim (Bool-cases (same_key i j)) [
    | inl q ↦ rw (other, lookup_key, q) refl
    | inr miss ↦ rw (other, lookup_key, miss) (lookup-without_key k j m ne)
  ]
]

length-without_key-le :
    (k : InternKey) (m : List (InternKey × ℕ)) → length (without_key k m) ≤ length m
unfolding without_key
length-without_key-le k [] = omega arith
length-without_key-le k ((j, i) ∷ m) = elim (Bool-cases (same_key j k)) [
  | inl hit ↦ rw hit (omega (arith, length-without_key-le k m))
  | inr miss ↦ rw miss (omega (arith, length-without_key-le k m))
]

length-without_key-lt :
    (k : InternKey) (m : List (InternKey × ℕ)) (i : ℕ)
    → lookup_key k m ≡ some i
    → length (without_key k m) < length m
unfolding without_key
length-without_key-lt k [] i h = cc
length-without_key-lt k ((j, v) ∷ m) i h = elim (Bool-cases (same_key j k)) [
  | inl hit ↦ rw hit (omega (arith, length-without_key-le k m))
  | inr miss ↦
      let rest : lookup_key k m ≡ some i = rw (miss) at h in
      rw miss (omega (arith, length-without_key-lt k m i rest))
]

module _ {V : Type 0} (same : V → V → Bool)
    (same_iff : (a b : V) → (same a b ≡ true) ↔ (a ≡ b)) where
  same_values_iff : (xs ys : List V) → (same_values same xs ys ≡ true) ↔ (xs ≡ ys)
  unfolding same_values
  same_values_iff [] [] = (λ h. refl, λ e. refl)
  same_values_iff [] (y ∷ ys) = (λ h. cc, λ e. cc)
  same_values_iff (x ∷ xs) [] = (λ h. cc, λ e. cc)
  same_values_iff (x ∷ xs) (y ∷ ys) =
      let heads = same_iff x y in
      let tails = same_values_iff xs ys in (λ h. ground arith, λ e. ground arith)

-- The stash with `values` stored under collision number `c`.
unfoldable pub stored_stash : {V : Type 0} → Stash V → ℕ → List V → ℕ → ℕ → Stash V
stored_stash s t values h c = record {
  entries =
      s.entries
      ++ record { type_id = t; count = length values % 2 ^ 32; inline_hash = h; contents = values }
        ∷ [];
  intern_map = (key t (length values) h c, length s.entries) ∷ s.intern_map;
}

-- How the loop ends: at the entry that holds `values`, or with `values` stored as the next entry
-- under the first free collision number, when no entry of their type and hash held them.
pub data Looped {V : Type 0} (s : Stash V) (t : ℕ) (values : List V) (h : ℕ)
    (r : Outcome (Stash V × ℕ)) : Type 0 where
  found :
      (i : ℕ) (e : Entry V)
      → get_elem? s.entries i ≡ some e
      → e.type_id ≡ t
      → e.inline_hash ≡ h
      → e.contents ≡ values
      → r ≡ ok (s, i)
      → Looped s t values h r
  stored :
      (c : ℕ)
      → lookup_key (key t (length values) h c) s.intern_map ≡ none
      → ((d : ℕ) → d < c → lookup_key (key t (length values) h d) s.intern_map ≢ none)
      → ((i : ℕ) (e : Entry V)
          → get_elem? s.entries i ≡ some e
          → e.type_id ≡ t
          → e.inline_hash ≡ h
          → e.contents ≢ values)
      → r ≡ ok (stored_stash s t values h c, length s.entries)
      → Looped s t values h r

module _ {V : Type 0} (same : V → V → Bool) (same_iff : (a b : V) → (same a b ≡ true) ↔ (a ≡ b))
    (s : Stash V) (w : Wf s) (t : ℕ) (values : List V) (h : ℕ)
    (room : length s.entries + 1 < 2 ^ 32) where
  pub key_at : ℕ → InternKey
  key_at c = key t (length values) h c

  key_at-ne : (c d : ℕ) → c ≢ d → key_at c ≢ key_at d
  unfolding key_at
  key_at-ne c d ne e = ne (ap (λ (k : InternKey). k.collision) e)

  at_key :
      (c i : ℕ)
      → lookup_key (key t (length values) h c) s.intern_map ≡ some i
      → lookup_key (key_at c) s.intern_map ≡ some i
  unfolding key_at
  at_key c i e = e

  -- All collision numbers below `c` lead to other content.
  abbrev pub Passed : ℕ → Type 0
  Passed c =
      (d i : ℕ) (e : Entry V)
      → d < c
      → lookup_key (key t (length values) h d) s.intern_map ≡ some i
      → get_elem? s.entries i ≡ some e
      → e.contents ≢ values

  abbrev pub Occupied : ℕ → Type 0
  Occupied c = (d : ℕ) → d < c → lookup_key (key t (length values) h d) s.intern_map ≢ none

  store-run :
      (c : ℕ)
      → lookup_key (key t (length values) h c) s.intern_map ≡ none
      → (f : ℕ)
      → intern_loop same (suc f) s t values h c ≡ ok (stored_stash s t values h c, length s.entries)
  unfolding intern_loop stored_stash
  store-run c free f =
      let small : length s.entries % 2 ^ 32 ≡ length s.entries = omega arith in
      ground (arith, free, small)

  nowhere :
      (c : ℕ)
      → lookup_key (key t (length values) h c) s.intern_map ≡ none
      → Passed c
      → (i : ℕ) (e : Entry V) → get_elem? s.entries i ≡ some e
      → e.type_id ≡ t
      → e.inline_hash ≡ h
      → e.contents ≢ values
  nowhere c free passed i e read et eh ev =
      let (d, at) = w.entered i e read in
      let here : lookup_key (key t (length values) h d) s.intern_map ≡ some i =
        rw (← et, ← eh, ← ev) at in
      elim (dec_lt d c) [
        | yes below ↦ passed d i e below here read ev
        | no above ↦
            let q : d - c + c ≡ d = omega arith in
            cc (rw q at (dense_up s t (length values) h c (d - c) w free))
      ]

  module _ (f c i : ℕ) (e : Entry V)
      (at : lookup_key (key t (length values) h c) s.intern_map ≡ some i)
      (read : get_elem? s.entries i ≡ some e) where
    hit-run :
        same_values same e.contents values ≡ true
        → intern_loop same (suc f) s t values h c ≡ ok (s, i)
    unfolding intern_loop
    hit-run hit = ground arith

    miss-run :
        same_values same e.contents values ≡ false
        → intern_loop same (suc f) s t values h c ≡ intern_loop same f s t values h (suc c)
    unfolding intern_loop
    miss-run miss = ground arith

    Occupied-next : Occupied c → Occupied (suc c)
    Occupied-next occupied d lt = elim (dec_lt d c) [
      | yes below ↦ occupied d below
      | no above ↦ let q : d ≡ c = omega arith in rw q (λ free. cc)
    ]

    Passed-next : e.contents ≢ values → Passed c → Passed (suc c)
    Passed-next differ passed d j e' lt at' read' = elim (dec_lt d c) [
      | yes below ↦ passed d j e' below at' read'
      | no above ↦
          let q : d ≡ c = omega arith in
          let at'' : lookup_key (key t (length values) h c) s.intern_map ≡ some j = rw q at at' in
          let same_entry : e' ≡ e = cc in rw same_entry differ
    ]

  -- Fuel above the number of keys is enough: each round that goes on uses up a key.
  pub loop-Looped :
      (f : ℕ) (m : List (InternKey × ℕ)) (c : ℕ)
      → length m < f
      → ((d : ℕ) → c ≤ d → lookup_key (key_at d) m ≡ lookup_key (key_at d) s.intern_map)
      → Occupied c
      → Passed c
      → Looped s t values h (intern_loop same f s t values h c)
  loop-Looped zero m c small agree occupied passed = absurd (omega arith)
  loop-Looped (suc f) m c small agree occupied passed =
      elim (Option-cases (lookup_key (key t (length values) h c) s.intern_map)) [
        | inl free ↦ stored c free occupied (nowhere c free passed) (store-run c free f)
        | inr (i, at) ↦
            let (e, read, et, el, eh) = w.keyed (key t (length values) h c) i at in
            elim (Bool-cases (same_values same e.contents values)) [
              | inl hit ↦
                  found i e read et eh ((same_values_iff same same_iff e.contents values).0 hit)
                    (hit-run f c i e at read hit)
              | inr miss ↦
                  let here : lookup_key (key_at c) m ≡ some i =
                    agree c (omega arith) ∙ at_key c i at in
                  let differ : e.contents ≢ values =
                    λ q. cc ((same_values_iff same same_iff e.contents values).1 q) in
                  rw (miss-run f c i e at read miss) (
                    loop-Looped f (without_key (key_at c) m) (suc c)
                      (omega (arith, length-without_key-lt (key_at c) m i here))
                      (λ d le.
                        lookup-without_key (key_at c) (key_at d) m (key_at-ne c d (omega arith))
                        ∙ agree d (omega arith))
                      (Occupied-next f c i e at read occupied)
                      (Passed-next f c i e at read differ passed))
            ]
      ]
