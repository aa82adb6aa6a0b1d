-- ===== src/Ty.antt =====
-- crates/sage-ir/src/ty.rs and cst/mod.rs: resolved types. A pointer or a slice is the index of its
-- entry in a stash; symbols and generic parameters are the numbers of their database identities.
pub mod Equality
use sage_dev.Prelude.{ℕ}

pub data IntTy : Type 0 where
  i8 i16 i32 i64 i128 isize : IntTy

pub data UintTy : Type 0 where
  u8 u16 u32 u64 u128 usize : UintTy

pub data FloatTy : Type 0 where
  f32 f64 : FloatTy

pub data Mutability : Type 0 where
  shared mutable : Mutability

pub data Lifetime : Type 0 where
  dummy : Lifetime

pub data Const : Type 0 where
  literal : ℕ → Const
  param : ℕ → Const
  other : ℕ → Const

pub record NamedAliasTy : Type 0 where
  pub def : ℕ
  pub args : ℕ

pub record TraitRef : Type 0 where
  pub trait_sym : ℕ
  pub args : ℕ

pub record ProjectionTy : Type 0 where
  pub associated_ty : ℕ
  pub self_ty : ℕ
  pub trait_ref : TraitRef
  pub args : ℕ

pub record OpaqueAliasTy : Type 0 where
  pub def : ℕ
  pub args : ℕ

pub data AliasTy : Type 0 where
  named : NamedAliasTy → AliasTy
  associated : ProjectionTy → AliasTy
  opaque : OpaqueAliasTy → AliasTy

pub data Ty : Type 0 where
  bool char str never error : Ty
  int : IntTy → Ty
  uint : UintTy → Ty
  float : FloatTy → Ty
  adt : ℕ → ℕ → Ty
  alias : AliasTy → Ty
  ref : ℕ → Mutability → Lifetime → Ty
  tuple : ℕ → Ty
  slice : ℕ → Ty
  array : ℕ → Const → Ty
  fn_ptr : ℕ → ℕ → Ty
  param : ℕ → Ty
  infer_var : ℕ → Ty

-- The values of a checking stash: types, and the pointers that slices hold. Their type numbers are 0
-- and 1.
pub data Cell : Type 0 where
  ty : Ty → Cell
  ptr : ℕ → Cell
