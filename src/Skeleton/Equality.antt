-- ===== src/Skeleton/Equality.antt =====
-- The derived equality of `Skeleton` in crates/sage-ir/src/check/infer/skeleton.rs.
use native.Mathlib.Decide.{ℕ_discrete}
use sage_dev.Prelude.{Bool, true, false}
use sage_dev.Ty.Equality.{
  IntTy-discrete, UintTy-discrete, FloatTy-discrete, Mutability-discrete, Lifetime-discrete,
  Const-discrete,
}
use sage_dev.Skeleton.{Skeleton}

pub Skeleton-discrete : Discrete Skeleton
Skeleton-discrete = hlevel (
  ℕ_discrete, IntTy-discrete, UintTy-discrete, FloatTy-discrete, Mutability-discrete,
  Lifetime-discrete, Const-discrete,
)

unfoldable pub same_skeleton : Skeleton → Skeleton → Bool
same_skeleton a b = elim (Skeleton-discrete a b) [ yes e ↦ true | no ne ↦ false ]
