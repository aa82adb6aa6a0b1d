-- ===== src/Skeleton/Stored.antt =====
-- Canonical stashes, as crates/sage-ir/src/check/infer/skeleton.rs meets them, when types and slices are
-- stored.
use sage_dev.Prelude.{ℕ, ◌+◌, ◌^◌, ◌<◌, ◌≡◌, refl, inl, inr, List, [], ◌∷◌, length, ok, arith}
use sage_dev.Ty.{Ty, Cell, ty}
use sage_dev.Stash.{
  Stash, Hashing, word, words, value_tokens, alloc, alloc_slice, read_slice, read_ptr,
}
use sage_dev.Stash.Handles.{Grown, Holds, Origin, intern-Handle, intern-Origin, words-Extends}
use sage_dev.EGraph.{ty_at}
use sage_dev.Skeleton.{cells_of, slice_at, pointers, store_slice}
use sage_dev.Skeleton.Canonical.{Canonical, length-cells_of}

module _ (hs : Hashing Cell) (s s' : Stash Cell) (c : Canonical hs s) (grown : Grown s s')
    (room : length s.entries + 2 < 2 ^ 32) where
  type_Canonical :
      (t : Ty) (ns : List ℕ)
      → words s.entries (hs.tokens (ty t)) ≡ ok ns
      → Origin s s' 0 (ty t ∷ []) (hs.fx ns)
      → Canonical hs s'
  type_Canonical t ns fed o = record {
    wf = grown.wf;
    room = let le = o.longer in omega arith;
    scalar = λ i e at t0. elim (o.older i e at) [
      | inl before ↦
          let (u, ms, ev, fed', eh) = c.scalar i e before t0 in
          (u, ms, ev, words-Extends s s' (hs.tokens (ty u)) ms grown.extends fed', eh)
      | inr (et, eh, ev) ↦
          (t, ns, ev, words-Extends s s' (hs.tokens (ty t)) ns grown.extends fed, eh)
    ];
    sliced = λ i e at t1. elim (o.older i e at) [
      | inl before ↦
          let (ms, fed', eh, lt) = c.sliced i e before t1 in
          (
            ms,
            words-Extends s s' (word (length e.contents) ∷ value_tokens hs.tokens e.contents) ms
                grown.extends fed',
            eh,
            lt,
          )
      | inr (et, eh, ev) ↦ absurd (omega arith)
    ];
  }

  slice_Canonical :
      (cells : List Cell) (ns : List ℕ)
      → length cells < 2 ^ 32
      → words s.entries (word (length cells) ∷ value_tokens hs.tokens cells) ≡ ok ns
      → Origin s s' 1 cells (hs.fx ns)
      → Canonical hs s'
  slice_Canonical cells ns short fed o = record {
    wf = grown.wf;
    room = let le = o.longer in omega arith;
    scalar = λ i e at t0. elim (o.older i e at) [
      | inl before ↦
          let (u, ms, ev, fed', eh) = c.scalar i e before t0 in
          (u, ms, ev, words-Extends s s' (hs.tokens (ty u)) ms grown.extends fed', eh)
      | inr (et, eh, ev) ↦ absurd (omega arith)
    ];
    sliced = λ i e at t1. elim (o.older i e at) [
      | inl before ↦
          let (ms, fed', eh, lt) = c.sliced i e before t1 in
          (
            ms,
            words-Extends s s' (word (length e.contents) ∷ value_tokens hs.tokens e.contents) ms
                grown.extends fed',
            eh,
            lt,
          )
      | inr (et, eh, ev) ↦
          let fed' =
            words-Extends s s' (word (length cells) ∷ value_tokens hs.tokens cells) ns grown.extends
              fed in
          (ns, rw ev fed', eh, rw ev short)
    ];
  }

ty_at-Holds :
    (s : Stash Cell) (i : ℕ) (t : Ty) (h : ℕ) → Holds s i 0 (ty t ∷ []) h → ty_at s i ≡ ok t
unfolding ty_at read_ptr read_slice
ty_at-Holds s i t h (e, at, et, eh, ev) = rw (at, et, ev) refl

pointers-cells : (ps : List ℕ) → pointers (cells_of ps) ≡ ok ps
unfolding pointers
pointers-cells [] = refl
pointers-cells (p ∷ ps) = rw (pointers-cells ps) refl

slice_at-Holds :
    (s : Stash Cell) (i : ℕ) (ps : List ℕ) (h : ℕ)
    → Holds s i 1 (cells_of ps) h
    → slice_at s i ≡ ok ps
unfolding slice_at read_slice
slice_at-Holds s i ps h (e, at, et, eh, ev) = rw (at, et, ev) (pointers-cells ps)

-- While entry numbers last, storing a type whose parts are in a canonical stash returns a handle that
-- reads it, and so does storing a slice of pointers into the stash; the stash stays canonical.
pub stored-Canonical :
    (hs : Hashing Cell) (s : Stash Cell)
    → Canonical hs s
    → length s.entries + 2 < 2 ^ 32
    → ((t : Ty) (ns : List ℕ)
        → words s.entries (hs.tokens (ty t)) ≡ ok ns
        → (s' : Stash Cell) × (i : ℕ) × (alloc hs s 0 (ty t) ≡ ok (s', i))
          × Canonical hs s'
          × (ty_at s' i ≡ ok t))
      × ((ps ns : List ℕ)
          → length ps < 2 ^ 32
          → words s.entries (word (length ps) ∷ value_tokens hs.tokens (cells_of ps)) ≡ ok ns
          → (s' : Stash Cell) × (i : ℕ) × (store_slice hs s ps ≡ ok (s', i))
            × Canonical hs s'
            × (slice_at s' i ≡ ok ps))
unfolding alloc store_slice alloc_slice
stored-Canonical hs s c room = (
  λ t ns fed.
      let (s', i, run, grown, holds) =
        intern-Handle hs.same hs.same_iff s c.wf 0 (ty t ∷ []) (hs.fx ns) c.room in
      let o = intern-Origin hs.same hs.same_iff s c.wf 0 (ty t ∷ []) (hs.fx ns) c.room s' i run in
      (
        s',
        i,
        rw fed run,
        type_Canonical hs s s' c grown room t ns fed o,
        ty_at-Holds s' i t (hs.fx ns) holds,
      ),
  λ ps ns short fed.
      let n : length (cells_of ps) ≡ length ps = length-cells_of ps in
      let fed' : words s.entries
            (word (length (cells_of ps)) ∷ value_tokens hs.tokens (cells_of ps))
          ≡ ok ns =
        rw n fed in
      let (s', i, run, grown, holds) =
        intern-Handle hs.same hs.same_iff s c.wf 1 (cells_of ps) (hs.fx ns) c.room in
      let o = intern-Origin hs.same hs.same_iff s c.wf 1 (cells_of ps) (hs.fx ns) c.room s' i run in
      (
        s',
        i,
        rw fed' run,
        slice_Canonical hs s s' c grown room (cells_of ps) ns (omega arith) fed' o,
        slice_at-Holds s' i ps (hs.fx ns) holds,
      ),
)
