-- ===== src/Skeleton/Roundtrip.antt =====
-- `decompose` followed by `recompose` in crates/sage-ir/src/check/infer/skeleton.rs.
use sage_dev.Prelude.{
  ℕ, ◌^◌, ◌<◌, ◌≡◌, sym, refl, List, [], ◌∷◌, ◌++◌, length, get_elem?-append_end, ok, ◌>>=◌,
  >>=-eq-ok, arith,
}
use sage_dev.Ty.{Ty, Cell, named, associated, opaque}
use sage_dev.Stash.{Stash, Hashing}
use sage_dev.EGraph.{ty_at}
use sage_dev.Skeleton.{
  Decomposed, Skeleton, with_children, arity, slice_at, decompose_ty, decompose, child_at, prefix,
  after, store_slice, recompose_ty, recompose, associated_alias, named_alias, opaque_alias,
}
use sage_dev.Skeleton.Canonical.{Canonical, slice-lt, store_slice-again, alloc_ty-again}

prefix-append : (cs ds : List ℕ) → prefix (cs ++ ds) (length cs) ≡ ok cs
unfolding prefix
prefix-append [] ds = refl
prefix-append (c ∷ cs) ds = rw (prefix-append cs ds) refl

after-append : (cs ds : List ℕ) → after (cs ++ ds) (length cs) ≡ ok ds
unfolding after
after-append [] ds = refl
after-append (c ∷ cs) ds = after-append cs ds

prefix_all : (cs : List ℕ) → prefix cs (length cs) ≡ ok cs
unfolding prefix
prefix_all [] = refl
prefix_all (c ∷ cs) = rw (prefix_all cs) refl

arity_small : (cs : List ℕ) → length cs < 2 ^ 32 → arity cs ≡ length cs
arity_small cs h = omega arith

module _ (hs : Hashing Cell) (s : Stash Cell) (c : Canonical hs s) where
  abbrev Undone : Ty → Decomposed → Type 0
  Undone t d = recompose_ty hs s d.skeleton d.children ≡ ok (s, t)

  associated_Undone :
      (associated_ty self_ty trait_sym i j : ℕ) (cs ds : List ℕ)
      → slice_at s i ≡ ok cs
      → slice_at s j ≡ ok ds
      → recompose_ty hs s
          (associated_alias associated_ty trait_sym (arity cs) (arity ds))
          (self_ty ∷ cs ++ ds)
        ≡ ok (
          s,
          Ty.alias (
              associated (record {
                associated_ty = associated_ty;
                self_ty = self_ty;
                trait_ref = record { trait_sym = trait_sym; args = i };
                args = j;
              })),
        )
  unfolding recompose_ty child_at after
  associated_Undone associated_ty self_ty trait_sym i j cs ds hc hd =
      rw
        (
          arity_small cs (slice-lt hs s c i cs hc),
          arity_small ds (slice-lt hs s c j ds hd),
          prefix-append cs ds,
          after-append cs ds,
          prefix_all ds,
          store_slice-again hs s c i cs hc,
          store_slice-again hs s c j ds hd,
        )
        refl

  fn_ptr_Undone :
      (params ret : ℕ) (cs : List ℕ)
      → slice_at s params ≡ ok cs
      → recompose_ty hs s (Skeleton.fn_ptr (arity cs)) (cs ++ ret ∷ [])
        ≡ ok (s, Ty.fn_ptr params ret)
  unfolding recompose_ty child_at
  fn_ptr_Undone params ret cs h =
      rw
        (
          arity_small cs (slice-lt hs s c params cs h),
          prefix-append cs (ret ∷ []),
          store_slice-again hs s c params cs h,
          get_elem?-append_end cs ret,
        )
        refl

  -- A type whose arguments are one slice.
  sliced_Undone :
      (t : Ty) (i : ℕ) (skeleton : ℕ → Skeleton) (make : ℕ → Ty) (d : Decomposed)
      → ((n : ℕ) (cs : List ℕ)
          → recompose_ty hs s (skeleton n) cs ≡ (store_slice hs s cs >>= λ r. ok (r.0, make r.1)))
      → make i ≡ t
      → (slice_at s i >>= λ cs. ok (with_children (skeleton (arity cs)) cs)) ≡ ok d
      → Undone t d
  sliced_Undone t i skeleton make d run e h =
      let (cs, read, q) = >>=-eq-ok (slice_at s i) _ h in
      let same : d ≡ with_children (skeleton (arity cs)) cs = cc in
      rw (same, run (arity cs) cs, store_slice-again hs s c i cs read, e) refl

  decompose_ty-Undone : (t : Ty) (d : Decomposed) → decompose_ty s t ≡ ok d → Undone t d
  unfolding decompose_ty recompose_ty child_at
  decompose_ty-Undone Ty.bool d h = cc
  decompose_ty-Undone Ty.char d h = cc
  decompose_ty-Undone Ty.str d h = cc
  decompose_ty-Undone Ty.never d h = cc
  decompose_ty-Undone Ty.error d h = cc
  decompose_ty-Undone (Ty.int i) d h = cc
  decompose_ty-Undone (Ty.uint u) d h = cc
  decompose_ty-Undone (Ty.float f) d h = cc
  decompose_ty-Undone (Ty.param p) d h = cc
  decompose_ty-Undone (Ty.infer_var index) d h = cc
  decompose_ty-Undone (Ty.adt sym args) d h =
      sliced_Undone (Ty.adt sym args) args (Skeleton.adt sym) (Ty.adt sym) d (λ n cs. refl) refl h
  decompose_ty-Undone (Ty.alias (named alias)) d h =
      sliced_Undone (Ty.alias (named alias)) alias.args (named_alias alias.def)
        (λ i. Ty.alias (named (record { def = alias.def; args = i }))) d (λ n cs. refl) refl h
  decompose_ty-Undone (Ty.alias (associated projection)) d h =
      let (cs, read, h') = >>=-eq-ok (slice_at s projection.trait_ref.args) _ h in
      let (ds, read', q) = >>=-eq-ok (slice_at s projection.args) _ h' in
      let same : d
          ≡ with_children
              (associated_alias projection.associated_ty projection.trait_ref.trait_sym (arity cs)
                (arity ds))
              (projection.self_ty ∷ cs ++ ds) =
        cc in
      rw same (
        associated_Undone projection.associated_ty projection.self_ty projection.trait_ref.trait_sym
          projection.trait_ref.args projection.args cs ds read read')
  decompose_ty-Undone (Ty.alias (opaque alias)) d h =
      sliced_Undone (Ty.alias (opaque alias)) alias.args (opaque_alias alias.def)
        (λ i. Ty.alias (opaque (record { def = alias.def; args = i }))) d (λ n cs. refl) refl h
  decompose_ty-Undone (Ty.ref inner m lt) d h = cc
  decompose_ty-Undone (Ty.tuple elems) d h =
      sliced_Undone (Ty.tuple elems) elems Skeleton.tuple Ty.tuple d (λ n cs. refl) refl h
  decompose_ty-Undone (Ty.slice inner) d h = cc
  decompose_ty-Undone (Ty.array inner k) d h = cc
  decompose_ty-Undone (Ty.fn_ptr params ret) d h =
      let (cs, read, q) = >>=-eq-ok (slice_at s params) _ h in
      let same : d ≡ with_children (Skeleton.fn_ptr (arity cs)) (cs ++ ret ∷ []) = cc in
      rw same (fn_ptr_Undone params ret cs read)

-- In a canonical stash, whatever type `decompose` takes apart, `recompose` puts together again as the
-- same handle, and adds nothing to the stash.
pub recompose-decompose :
    (hs : Hashing Cell) (s : Stash Cell) (p : ℕ) (d : Decomposed)
    → Canonical hs s
    → decompose s p ≡ ok d
    → recompose hs s d.skeleton d.children ≡ ok (s, p)
unfolding decompose recompose
recompose-decompose hs s p d c h =
    let (t, read, q) = >>=-eq-ok (ty_at s p) _ h in
    rw (decompose_ty-Undone hs s c t d q) (alloc_ty-again hs s c p t read)
