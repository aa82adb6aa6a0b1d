-- ===== src/Solver/AntiUnify/Layers.antt =====
-- Storing keeps a stash layered, as the stashes of crates/sage-ir/src/check/solve/anti_unify.rs are.
use sage_dev.Prelude.{
  ℕ, ◌+◌, ◌^◌, ◌≤◌, ◌<◌, ◌≡◌, ◌⊎◌, sym, subst, inl, inr, Bool-cases, Option-cases, none, List, [],
  ◌∷◌, ltb, length, get_elem?, get_elem?-some, ok, ◌>>=◌, given, arith,
}
use sage_dev.Ty.{Ty, named, associated, opaque, Cell, ty}
use sage_dev.Stash.{
  Stash, Hashing, words, word, value_tokens, alloc, alloc_slice, empty, read_ptr, read_slice,
}
use sage_dev.Stash.Wf.{Wf}
use sage_dev.Stash.Alloc.{Extends}
use sage_dev.Stash.Handles.{Origin, intern-Handle, intern-Origin, read-Extends}
use sage_dev.EGraph.{ty_at}
use sage_dev.Skeleton.{Decomposed, decompose_ty, slice_at, cells_of, store_slice}
use sage_dev.Solver.AntiUnify.Occurs.{Parts, Layered}

module _ (s s' : Stash Cell) (extends : Extends s s') where
  ty_at-Extends : (p : ℕ) (t : Ty) → ty_at s p ≡ ok t → ty_at s' p ≡ ok t
  unfolding ty_at read_ptr
  ty_at-Extends p t e =
      given (read_slice s 0 p) (λ bad. absurd (ground arith))
        λ vs read. let read' = read-Extends s s' 0 p vs extends read in ground arith

  slice_at-Extends : (i : ℕ) (ps : List ℕ) → slice_at s i ≡ ok ps → slice_at s' i ≡ ok ps
  unfolding slice_at
  slice_at-Extends i ps e =
      given (read_slice s 1 i) (λ bad. absurd (ground arith))
        λ vs read. let read' = read-Extends s s' 1 i vs extends read in ground arith

  one_slice :
      (i : ℕ) (d : Decomposed) (build : List ℕ → Decomposed)
      → (slice_at s i >>= λ cs. ok (build cs)) ≡ ok d
      → (slice_at s' i >>= λ cs. ok (build cs)) ≡ ok d
  one_slice i d build e =
      given (slice_at s i) (λ bad. absurd (ground arith))
        λ cs read. rw (slice_at-Extends i cs read) (rw read at e)

  decompose_ty-Extends :
      (t : Ty) (d : Decomposed) → decompose_ty s t ≡ ok d → decompose_ty s' t ≡ ok d
  unfolding decompose_ty
  decompose_ty-Extends (Ty.adt sym args) d e = one_slice args d _ e
  decompose_ty-Extends (Ty.alias (named alias)) d e = one_slice alias.args d _ e
  decompose_ty-Extends (Ty.alias (associated projection)) d e =
      given (slice_at s projection.trait_ref.args) (λ bad. absurd (ground arith))
        λ cs read.
          rw (slice_at-Extends projection.trait_ref.args cs read)
            (one_slice projection.args d _ (rw read at e))
  decompose_ty-Extends (Ty.alias (opaque alias)) d e = one_slice alias.args d _ e
  decompose_ty-Extends (Ty.tuple elems) d e = one_slice elems d _ e
  decompose_ty-Extends (Ty.fn_ptr params ret) d e = one_slice params d _ e
  decompose_ty-Extends _ d e = e

  Parts-Extends : (p q : ℕ) (t : Ty) → p ≤ q → Parts s p t → Parts s' q t
  Parts-Extends p q t le (d, run, lower) = (
    d,
    decompose_ty-Extends t d run,
    λ c inside. let (low, (u, read)) = lower c inside in (omega arith, (u, ty_at-Extends c u read)),
  )

  -- A type of the larger stash is a type of the smaller one, or is stored past its end.
  older_or_beyond :
      (p : ℕ) (t : Ty)
      → ty_at s' p ≡ ok t
      → (ty_at s p ≡ ok t) ⊎ ((get_elem? s.entries p ≡ none) × (length s.entries ≤ p))
  unfolding ty_at read_ptr read_slice
  older_or_beyond p t e = elim (Option-cases (get_elem? s.entries p)) [
    | inr (old, found) ↦ let found' = extends p old found in inl (ground arith)
    | inl missing ↦ inr (
      missing,
      elim (Bool-cases (ltb p (length s.entries))) [
        | inr beyond ↦ ground arith
        | inl inside ↦
            let (old, found) = get_elem?-some s.entries p (ground arith) in absurd (ground arith)
      ],
    )
  ]

  module _ (layered : Layered s) where
    -- After new content of type number 0, a type whose parts are there.
    stored_type :
        (t : Ty) (h : ℕ) → Origin s s' 0 (ty t ∷ []) h → Parts s (length s.entries) t → Layered s'
    unfolding ty_at read_ptr read_slice
    stored_type t h origin parts = record {
      parts = λ p u read. elim (older_or_beyond p u read) [
        | inl old ↦ Parts-Extends p p u (omega arith) (layered.parts p u old)
        | inr (missing, beyond) ↦ elim (Option-cases (get_elem? s'.entries p)) [
          | inl nothing ↦ absurd (ground arith)
          | inr (e, found) ↦ elim (origin.older p e found) [
            | inl before ↦ absurd (cc)
            | inr (et, eh, ev) ↦
                let same : t ≡ u = ground arith in
                subst (λ x. Parts s' p x) same (Parts-Extends (length s.entries) p t beyond parts)
          ]
        ]
      ];
    }

    -- After new content that is a slice.
    stored_slice : (cells : List Cell) (h : ℕ) → Origin s s' 1 cells h → Layered s'
    unfolding ty_at read_ptr read_slice
    stored_slice cells h origin = record {
      parts = λ p u read. elim (older_or_beyond p u read) [
        | inl old ↦ Parts-Extends p p u (omega arith) (layered.parts p u old)
        | inr (missing, beyond) ↦ elim (Option-cases (get_elem? s'.entries p)) [
          | inl nothing ↦ absurd (ground arith)
          | inr (e, found) ↦ elim (origin.older p e found) [
            | inl before ↦ absurd (cc)
            | inr (et, eh, ev) ↦ absurd (ground arith)
          ]
        ]
      ];
    }

pub empty-Layered : Layered (empty {V = Cell})
unfolding empty ty_at read_ptr read_slice
empty-Layered = record { parts = λ p t read. absurd (ground arith) }

module _ (hs : Hashing Cell) (s s' : Stash Cell) (i : ℕ) (w : Wf s) (layered : Layered s)
    (room : length s.entries + 1 < 2 ^ 32) where
  -- Storing a type whose children are types of the stash keeps it layered.
  pub alloc-Layered :
      (t : Ty) → Parts s (length s.entries) t → alloc hs s 0 (ty t) ≡ ok (s', i) → Layered s'
  unfolding alloc
  alloc-Layered t parts e =
      given (words s.entries (hs.tokens (ty t))) (λ bad. absurd (ground arith))
        λ ns fed.
          let (s1, j, run, grown, holds) =
            intern-Handle hs.same hs.same_iff s w 0 (ty t ∷ []) (hs.fx ns) room in
          let same : s1 ≡ s' = ground arith in
          let origin =
            intern-Origin hs.same hs.same_iff s w 0 (ty t ∷ []) (hs.fx ns) room s1 j run in
          subst (λ x. Layered x) same
            (stored_type s s1 grown.extends layered t (hs.fx ns) origin parts)

  -- Storing a slice of pointers keeps it layered.
  pub store_slice-Layered : (ps : List ℕ) → store_slice hs s ps ≡ ok (s', i) → Layered s'
  unfolding store_slice alloc_slice
  store_slice-Layered ps e =
      given (words s.entries (word (length (cells_of ps)) ∷ value_tokens hs.tokens (cells_of ps)))
        (λ bad. absurd (ground arith))
        λ ns fed.
          let (s1, j, run, grown, holds) =
            intern-Handle hs.same hs.same_iff s w 1 (cells_of ps) (hs.fx ns) room in
          let same : s1 ≡ s' = ground arith in
          let origin =
            intern-Origin hs.same hs.same_iff s w 1 (cells_of ps) (hs.fx ns) room s1 j run in
          subst (λ x. Layered x) same
            (stored_slice s s1 grown.extends layered (cells_of ps) (hs.fx ns) origin)
