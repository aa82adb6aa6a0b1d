-- ===== src/Solver/AntiUnify/Domains.antt =====
-- `common_domain` of crates/sage-ir/src/check/solve/anti_unify.rs as a join of domains.
use sage_dev.Prelude.{◌≡◌, ◌↔◌, refl, arith, true}
use sage_dev.Ty.{Ty, IntTy, FloatTy}
use sage_dev.Version.Domain.{InferDomain, any, integer, float, admits}
use sage_dev.Solver.AntiUnify.{common_domain}

-- What `a` admits, `c` admits too.
abbrev pub Finer : InferDomain → InferDomain → Type 0
Finer a c = (t : Ty) → admits a t ≡ true → admits c t ≡ true

-- A domain that is `any` admits everything.
above_all : (c a : InferDomain) → c ≡ any → Finer a c
unfolding admits
above_all c a e t h = rw e refl

any_only : (c : InferDomain) → Finer any c → c ≡ any
unfolding admits
any_only any h = refl
any_only integer h = absurd (ground (arith, h Ty.bool refl))
any_only float h = absurd (ground (arith, h Ty.bool refl))

both_only : (c : InferDomain) → Finer integer c → Finer float c → c ≡ any
unfolding admits
both_only any h k = refl
both_only integer h k = absurd (ground (arith, k (Ty.float FloatTy.f32) refl))
both_only float h k = absurd (ground (arith, h (Ty.int IntTy.i8) refl))

under_any : (c : InferDomain) → c ≡ any → Finer any c
under_any c e t h = rw e h

-- The common domain of two domains is the least one that admits all types that either admits: what it
-- admits is admitted by a third domain exactly when that one admits what either of the two admits.
pub common_domain_iff :
    (a b c : InferDomain) → Finer (common_domain a b) c ↔ (Finer a c × Finer b c)
unfolding common_domain
common_domain_iff integer integer c = (λ h. (h, h), λ (h, k). h)
common_domain_iff float float c = (λ h. (h, h), λ (h, k). h)
common_domain_iff any b c = (λ h. (h, above_all c b (any_only c h)), λ (h, k). h)
common_domain_iff integer any c = (λ h. (above_all c integer (any_only c h), h), λ (h, k). k)
common_domain_iff float any c = (λ h. (above_all c float (any_only c h), h), λ (h, k). k)
common_domain_iff integer float c = (
  λ h. (above_all c integer (any_only c h), above_all c float (any_only c h)),
  λ (h, k). under_any c (both_only c h k),
)
common_domain_iff float integer c = (
  λ h. (above_all c float (any_only c h), above_all c integer (any_only c h)),
  λ (h, k). under_any c (both_only c k h),
)
