-- ===== src/Ty/Equality.antt =====
-- The derived equality of the data types of crates/sage-ir/src/ty.rs.
use native.Mathlib.Decide.{ℕ_discrete}
use sage_dev.Ty.{
  Ty, IntTy, UintTy, FloatTy, Mutability, Lifetime, Const, NamedAliasTy, TraitRef, ProjectionTy,
  OpaqueAliasTy, AliasTy, Cell,
}

pub IntTy-discrete : Discrete IntTy
IntTy-discrete = hlevel

pub UintTy-discrete : Discrete UintTy
UintTy-discrete = hlevel

pub FloatTy-discrete : Discrete FloatTy
FloatTy-discrete = hlevel

pub Mutability-discrete : Discrete Mutability
Mutability-discrete = hlevel

pub Lifetime-discrete : Discrete Lifetime
Lifetime-discrete = hlevel

pub Const-discrete : Discrete Const
Const-discrete = hlevel ℕ_discrete

pub NamedAliasTy-discrete : Discrete NamedAliasTy
NamedAliasTy-discrete = hlevel ℕ_discrete

pub TraitRef-discrete : Discrete TraitRef
TraitRef-discrete = hlevel ℕ_discrete

pub ProjectionTy-discrete : Discrete ProjectionTy
ProjectionTy-discrete = hlevel (ℕ_discrete, TraitRef-discrete)

pub OpaqueAliasTy-discrete : Discrete OpaqueAliasTy
OpaqueAliasTy-discrete = hlevel ℕ_discrete

pub AliasTy-discrete : Discrete AliasTy
AliasTy-discrete = hlevel (NamedAliasTy-discrete, ProjectionTy-discrete, OpaqueAliasTy-discrete)

pub Ty-discrete : Discrete Ty
Ty-discrete = hlevel (
  ℕ_discrete, IntTy-discrete, UintTy-discrete, FloatTy-discrete, Mutability-discrete,
  Lifetime-discrete, Const-discrete, AliasTy-discrete,
)

pub Cell-discrete : Discrete Cell
Cell-discrete = hlevel (ℕ_discrete, Ty-discrete)
