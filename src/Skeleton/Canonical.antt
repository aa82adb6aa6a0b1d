-- ===== src/Skeleton/Canonical.antt =====
-- Stashes of types as crates/sage-ir/src/check/infer/skeleton.rs meets them: every entry is stored under
-- the hash of its content.
use sage_dev.Prelude.{
  ℕ, suc, ◌+◌, ◌^◌, ◌<◌, ◌≡◌, ◌∙◌, ap, sym, refl, some, List, [], ◌∷◌, length, get_elem?, ok,
  >>=-eq-ok, arith,
}
use sage_dev.Ty.{Ty, Cell, ty, ptr}
use sage_dev.Stash.{
  Stash, Entry, Hashing, word, words, value_tokens, alloc, alloc_slice, read_slice, read_ptr,
}
use sage_dev.Stash.Wf.{Wf}
use sage_dev.Stash.Handles.{Holds, intern-again}
use sage_dev.EGraph.{ty_at}
use sage_dev.Skeleton.{pointers, cells_of, slice_at, store_slice}

-- Types are stored one by one, pointers in slices, each under its hash.
pub record Canonical (hs : Hashing Cell) (s : Stash Cell) : Type 0 where
  pub wf : Wf s
  pub room : length s.entries + 1 < 2 ^ 32
  pub scalar :
      (i : ℕ) (e : Entry Cell)
      → get_elem? s.entries i ≡ some e
      → e.type_id ≡ 0
      → (t : Ty) × (ns : List ℕ) × (e.contents ≡ ty t ∷ [])
        × (words s.entries (hs.tokens (ty t)) ≡ ok ns)
        × (e.inline_hash ≡ hs.fx ns)
  pub sliced :
      (i : ℕ) (e : Entry Cell)
      → get_elem? s.entries i ≡ some e
      → e.type_id ≡ 1
      → (ns : List ℕ) × (words s.entries
            (word (length e.contents) ∷ value_tokens hs.tokens e.contents)
          ≡ ok ns)
        × (e.inline_hash ≡ hs.fx ns)
        × (length e.contents < 2 ^ 32)

-- What a read says of the entry.
read_slice-entry :
    (s : Stash Cell) (t i : ℕ) (values : List Cell)
    → read_slice s t i ≡ ok values
    → (e : Entry Cell) × (get_elem? s.entries i ≡ some e) × (e.type_id ≡ t) × (e.contents ≡ values)
unfolding read_slice
read_slice-entry s t i values h = ground arith

pointers-cells_of : (vs : List Cell) (ps : List ℕ) → pointers vs ≡ ok ps → vs ≡ cells_of ps
unfolding pointers
pointers-cells_of [] ps h = cc
pointers-cells_of (ty t ∷ vs) ps h = cc
pointers-cells_of (ptr p ∷ vs) ps h =
    let (qs, run, e) = >>=-eq-ok (pointers vs) _ h in
    let same : ps ≡ p ∷ qs = cc in rw same (ap (◌∷◌ (ptr p)) (pointers-cells_of vs qs run))

pub length-cells_of : (ps : List ℕ) → length (cells_of ps) ≡ length ps
length-cells_of [] = refl
length-cells_of (p ∷ ps) = ap suc (length-cells_of ps)

module _ (hs : Hashing Cell) (s : Stash Cell) (c : Canonical hs s) where
  slice-entry :
      (i : ℕ) (ps : List ℕ)
      → slice_at s i ≡ ok ps
      → (e : Entry Cell) × (get_elem? s.entries i ≡ some e)
        × (e.type_id ≡ 1)
        × (e.contents ≡ cells_of ps)
  unfolding slice_at
  slice-entry i ps h =
      let (vs, run, e) = >>=-eq-ok (read_slice s 1 i) _ h in
      let (d, read, et, ev) = read_slice-entry s 1 i vs run in
      (d, read, et, ev ∙ pointers-cells_of vs ps e)

  pub slice-lt : (i : ℕ) (ps : List ℕ) → slice_at s i ≡ ok ps → length ps < 2 ^ 32
  slice-lt i ps h =
      let (e, read, et, ev) = slice-entry i ps h in
      let (ns, fed, eh, lt) = c.sliced i e read et in
      let same : length e.contents ≡ length ps = ap length ev ∙ length-cells_of ps in omega arith

  -- Storing a slice again returns its handle.
  pub store_slice-again :
      (i : ℕ) (ps : List ℕ) → slice_at s i ≡ ok ps → store_slice hs s ps ≡ ok (s, i)
  unfolding store_slice alloc_slice
  store_slice-again i ps h =
      let (e, read, et, ev) = slice-entry i ps h in
      let (ns, fed, eh, lt) = c.sliced i e read et in
      let fed' : words s.entries
            (word (length (cells_of ps)) ∷ value_tokens hs.tokens (cells_of ps))
          ≡ ok ns =
        rw ev at fed in
      rw fed' (
        intern-again hs.same hs.same_iff s c.wf 1 (cells_of ps) (hs.fx ns) c.room i
          (e, read, et, eh, ev))

  -- Storing a type again returns its handle.
  pub alloc_ty-again : (p : ℕ) (t : Ty) → ty_at s p ≡ ok t → alloc hs s 0 (ty t) ≡ ok (s, p)
  unfolding ty_at alloc read_ptr
  alloc_ty-again p t h =
      let (cell, run, e) = >>=-eq-ok (read_ptr s 0 p) _ h in
      let (vs, run', e') = >>=-eq-ok (read_slice s 0 p) _ run in
      let (d, read, et, ev) = read_slice-entry s 0 p vs run' in
      let (u, ns, eu, fed, eh) = c.scalar p d read et in
      let list : vs ≡ ty u ∷ [] = sym ev ∙ eu in
      let same : u ≡ t = ground arith in
      let fed' : words s.entries (hs.tokens (ty t)) ≡ ok ns = rw same at fed in
      let holds : Holds s p 0 (ty t ∷ []) (hs.fx ns) = (d, read, et, eh, rw same at eu) in
      rw fed' (intern-again hs.same hs.same_iff s c.wf 0 (ty t ∷ []) (hs.fx ns) c.room p holds)
