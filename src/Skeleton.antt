-- ===== src/Skeleton.antt =====
-- crates/sage-ir/src/check/infer/skeleton.rs: a type taken apart into its rigid part and its children,
-- and put together again in a stash. Types have the type number 0 in the stash, slices of pointers 1.
pub mod Canonical
pub mod Equality
pub mod Roundtrip
pub mod Stored
pub mod Examples
use sage_dev.Prelude.{
  ℕ, zero, suc, ◌+◌, ◌%◌, ◌^◌, Bool, Option, none, some, List, [], ◌∷◌, ◌++◌, length, get_elem?,
  Outcome, ok, panicked, ◌>>=◌, expect,
}
use sage_dev.Ty.{
  Ty, IntTy, UintTy, FloatTy, Mutability, Lifetime, Const, AliasTy, named, associated, opaque, Cell,
  ty, ptr,
}
use sage_dev.Stash.{Stash, Hashing, alloc, alloc_slice, read_slice}
use sage_dev.EGraph.{ty_at}

pub data Skeleton : Type 0 where
  bool char str never error : Skeleton
  int : IntTy → Skeleton
  uint : UintTy → Skeleton
  float : FloatTy → Skeleton
  param : ℕ → Skeleton
  infer_var : ℕ → Skeleton
  adt : ℕ → ℕ → Skeleton
  named_alias : ℕ → ℕ → Skeleton
  associated_alias : ℕ → ℕ → ℕ → ℕ → Skeleton
  opaque_alias : ℕ → ℕ → Skeleton
  ref : Mutability → Lifetime → Skeleton
  tuple : ℕ → Skeleton
  slice : Skeleton
  array : Const → Skeleton
  fn_ptr : ℕ → Skeleton

pub record Decomposed : Type 0 where
  pub skeleton : Skeleton
  pub children : List ℕ

abbrev pub leaf : Skeleton → Decomposed
leaf s = record { skeleton = s; children = [] }

abbrev pub with_children : Skeleton → List ℕ → Decomposed
with_children s cs = record { skeleton = s; children = cs }

-- The pointers of a slice.
unfoldable pub pointers : List Cell → Outcome (List ℕ)
pointers [] = ok []
pointers (ptr p ∷ cs) = pointers cs >>= λ ps. ok (p ∷ ps)
pointers (ty t ∷ cs) = panicked

abbrev pub cells_of : List ℕ → List Cell
cells_of [] = []
cells_of (p ∷ ps) = ptr p ∷ cells_of ps

-- `stash[slice]`.
unfoldable pub slice_at : Stash Cell → ℕ → Outcome (List ℕ)
slice_at stash i = read_slice stash 1 i >>= pointers

-- `len() as u32`.
abbrev pub arity : List ℕ → ℕ
arity cs = length cs % 2 ^ 32

unfoldable pub decompose_ty : Stash Cell → Ty → Outcome Decomposed
decompose_ty stash Ty.bool = ok (leaf Skeleton.bool)
decompose_ty stash Ty.char = ok (leaf Skeleton.char)
decompose_ty stash Ty.str = ok (leaf Skeleton.str)
decompose_ty stash Ty.never = ok (leaf Skeleton.never)
decompose_ty stash Ty.error = ok (leaf Skeleton.error)
decompose_ty stash (Ty.int i) = ok (leaf (Skeleton.int i))
decompose_ty stash (Ty.uint u) = ok (leaf (Skeleton.uint u))
decompose_ty stash (Ty.float f) = ok (leaf (Skeleton.float f))
decompose_ty stash (Ty.param p) = ok (leaf (Skeleton.param p))
decompose_ty stash (Ty.infer_var index) = ok (leaf (Skeleton.infer_var index))
decompose_ty stash (Ty.adt sym args) =
    slice_at stash args >>= λ cs. ok (with_children (Skeleton.adt sym (arity cs)) cs)
decompose_ty stash (Ty.alias (named alias)) =
    slice_at stash alias.args >>= λ cs. ok (with_children (named_alias alias.def (arity cs)) cs)
decompose_ty stash (Ty.alias (associated projection)) =
    slice_at stash projection.trait_ref.args >>= λ cs. slice_at stash projection.args >>= λ ds. ok (
      with_children
        (associated_alias projection.associated_ty projection.trait_ref.trait_sym (arity cs)
          (arity ds))
        (projection.self_ty ∷ cs ++ ds))
decompose_ty stash (Ty.alias (opaque alias)) =
    slice_at stash alias.args >>= λ cs. ok (with_children (opaque_alias alias.def (arity cs)) cs)
decompose_ty stash (Ty.ref inner m lt) = ok (with_children (Skeleton.ref m lt) (inner ∷ []))
decompose_ty stash (Ty.tuple elems) =
    slice_at stash elems >>= λ cs. ok (with_children (Skeleton.tuple (arity cs)) cs)
decompose_ty stash (Ty.slice inner) = ok (with_children Skeleton.slice (inner ∷ []))
decompose_ty stash (Ty.array inner c) = ok (with_children (Skeleton.array c) (inner ∷ []))
decompose_ty stash (Ty.fn_ptr params ret) =
    slice_at stash params >>= λ cs. ok (with_children (Skeleton.fn_ptr (arity cs)) (cs ++ ret ∷ []))

unfoldable pub decompose : Stash Cell → ℕ → Outcome Decomposed
decompose stash p = ty_at stash p >>= decompose_ty stash

-- `children[i]`, and `children[..n]` and the rest of it: out of range both panic.
unfoldable pub child_at : List ℕ → ℕ → Outcome ℕ
child_at cs i = expect (get_elem? cs i)

unfoldable pub prefix : List ℕ → ℕ → Outcome (List ℕ)
prefix cs zero = ok []
prefix [] (suc n) = panicked
prefix (c ∷ cs) (suc n) = prefix cs n >>= λ ds. ok (c ∷ ds)

unfoldable pub after : List ℕ → ℕ → Outcome (List ℕ)
after cs zero = ok cs
after [] (suc n) = panicked
after (c ∷ cs) (suc n) = after cs n

module _ (hs : Hashing Cell) where
  unfoldable pub store_slice : Stash Cell → List ℕ → Outcome (Stash Cell × ℕ)
  store_slice stash cs = alloc_slice hs stash 1 (cells_of cs)

  unfoldable pub recompose_ty : Stash Cell → Skeleton → List ℕ → Outcome (Stash Cell × Ty)
  recompose_ty stash Skeleton.bool cs = ok (stash, Ty.bool)
  recompose_ty stash Skeleton.char cs = ok (stash, Ty.char)
  recompose_ty stash Skeleton.str cs = ok (stash, Ty.str)
  recompose_ty stash Skeleton.never cs = ok (stash, Ty.never)
  recompose_ty stash Skeleton.error cs = ok (stash, Ty.error)
  recompose_ty stash (Skeleton.int i) cs = ok (stash, Ty.int i)
  recompose_ty stash (Skeleton.uint u) cs = ok (stash, Ty.uint u)
  recompose_ty stash (Skeleton.float f) cs = ok (stash, Ty.float f)
  recompose_ty stash (Skeleton.param p) cs = ok (stash, Ty.param p)
  recompose_ty stash (Skeleton.infer_var index) cs = ok (stash, Ty.infer_var index)
  recompose_ty stash (Skeleton.adt sym n) cs =
      store_slice stash cs >>= λ r. ok (r.0, Ty.adt sym r.1)
  recompose_ty stash (named_alias def n) cs =
      store_slice stash cs >>= λ r. ok (r.0, Ty.alias (named (record { def = def; args = r.1 })))
  recompose_ty stash (associated_alias associated_ty trait_sym trait_count item_count) cs = do
    self_ty ← child_at cs 0
    rest ← after cs 1
    trait_args ← prefix rest trait_count
    from_items ← after rest trait_count
    item_args ← prefix from_items item_count
    r ← store_slice stash trait_args
    q ← store_slice r.0 item_args
    ok (
      q.0,
      Ty.alias (
          associated (record {
            associated_ty = associated_ty;
            self_ty = self_ty;
            trait_ref = record { trait_sym = trait_sym; args = r.1 };
            args = q.1;
          })),
    )
  recompose_ty stash (opaque_alias def n) cs =
      store_slice stash cs >>= λ r. ok (r.0, Ty.alias (opaque (record { def = def; args = r.1 })))
  recompose_ty stash (Skeleton.ref m lt) cs = child_at cs 0 >>= λ c. ok (stash, Ty.ref c m lt)
  recompose_ty stash (Skeleton.tuple n) cs = store_slice stash cs >>= λ r. ok (r.0, Ty.tuple r.1)
  recompose_ty stash Skeleton.slice cs = child_at cs 0 >>= λ c. ok (stash, Ty.slice c)
  recompose_ty stash (Skeleton.array k) cs = child_at cs 0 >>= λ c. ok (stash, Ty.array c k)
  recompose_ty stash (Skeleton.fn_ptr n) cs = do
    params ← prefix cs n
    r ← store_slice stash params
    ret ← child_at cs n
    ok (r.0, Ty.fn_ptr r.1 ret)

  unfoldable pub recompose : Stash Cell → Skeleton → List ℕ → Outcome (Stash Cell × ℕ)
  recompose stash skeleton cs = recompose_ty stash skeleton cs >>= λ r. alloc hs r.0 0 (ty r.1)
