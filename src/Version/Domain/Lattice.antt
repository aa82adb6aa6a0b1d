-- ===== src/Version/Domain/Lattice.antt =====
-- `InferDomain::intersect` of crates/sage-ir/src/check/infer/version.rs as a meet of domains.
use sage_dev.Prelude.{◌≡◌, refl, sym, arith, Bool, true, false, ◌&&◌, Option, none, some}
use sage_dev.Ty.{Ty, error}
use sage_dev.Version.Domain.{InferDomain, any, integer, float, intersect, admits}

abbrev pub is_error : Ty → Bool
is_error error = true
is_error _ = false

-- The types that an optional domain lets through; without a domain, the error type alone.
abbrev pub admits_meet : Option InferDomain → Ty → Bool
admits_meet none ty = is_error ty
admits_meet (some d) ty = admits d ty

and_true : (b : Bool) → (b && true) ≡ b
and_true true = refl
and_true false = refl

and_self : (b : Bool) → (b && b) ≡ b
and_self true = refl
and_self false = refl

integer_and_float : (ty : Ty) → (admits integer ty && admits float ty) ≡ is_error ty
unfolding admits
integer_and_float error = refl
integer_and_float _ = refl

float_and_integer : (ty : Ty) → (admits float ty && admits integer ty) ≡ is_error ty
unfolding admits
float_and_integer error = refl
float_and_integer _ = refl

-- The intersection of two domains admits exactly the types that both admit; where there is no
-- intersection, the error type is the only type that both admit.
pub admits-intersect :
    (a b : InferDomain) (ty : Ty) → admits_meet (intersect a b) ty ≡ (admits a ty && admits b ty)
unfolding intersect
admits-intersect any b ty = unfold admits in refl
admits-intersect integer any ty = unfold admits in sym (and_true (admits integer ty))
admits-intersect integer integer ty = sym (and_self (admits integer ty))
admits-intersect integer float ty = sym (integer_and_float ty)
admits-intersect float any ty = unfold admits in sym (and_true (admits float ty))
admits-intersect float float ty = sym (and_self (admits float ty))
admits-intersect float integer ty = sym (float_and_integer ty)

-- Intersection with an optional domain, as a chain of `?` computes it.
abbrev pub intersect_option : Option InferDomain → InferDomain → Option InferDomain
intersect_option none d = none
intersect_option (some c) d = intersect c d

-- Intersection is commutative, idempotent and associative, and `Any` is its unit.
pub intersect_laws :
    (a b c : InferDomain)
    → (intersect a b ≡ intersect b a)
      × (intersect a a ≡ some a)
      × (intersect any a ≡ some a)
      × (intersect_option (intersect a b) c ≡ intersect_option (intersect b c) a)
unfolding intersect
intersect_laws any any any = (refl, refl, refl, refl)
intersect_laws _ _ _ = ground arith
