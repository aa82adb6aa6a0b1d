-- ===== src/Version/Domain.antt =====
-- The lattice of inference domains of crates/sage-ir/src/check/infer/version.rs.
pub mod Lattice
use sage_dev.Prelude.{Bool, true, false, Option, none, some}
use sage_dev.Ty.{Ty}

pub data InferDomain : Type 0 where
  any integer float : InferDomain

unfoldable pub intersect : InferDomain → InferDomain → Option InferDomain
intersect any d = some d
intersect d any = some d
intersect integer integer = some integer
intersect float float = some float
intersect integer float = none
intersect float integer = none

admits_integer : Ty → Bool
admits_integer (Ty.int _) = true
admits_integer (Ty.uint _) = true
admits_integer Ty.error = true
admits_integer _ = false

admits_float : Ty → Bool
admits_float (Ty.float _) = true
admits_float Ty.error = true
admits_float _ = false

unfoldable pub admits : InferDomain → Ty → Bool
unfolding admits_integer admits_float
admits any ty = true
admits integer ty = admits_integer ty
admits float ty = admits_float ty

-- Domain equality (the derived `PartialEq`).
abbrev pub same_domain : InferDomain → InferDomain → Bool
same_domain any any = true
same_domain integer integer = true
same_domain float float = true
same_domain _ _ = false
