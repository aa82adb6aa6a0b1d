-- ===== src/Stash/Buffer/Powers.antt =====
-- Powers of two, masks and rounding, as `AlignedBuf` of crates/sage-stash/src/lib.rs uses them.
use Prim.Native.Nat.{digits, bit_and-bitwise}
use native.Mathlib.Nat.{
  pow-suc, mul_assoc, add-mul-mod_self_right, zero-mod, add-zero, mul_right_comm, mod-lt,
  mod-eq_of_lt, div-add-mod', one-le-pow, mul-mod_left,
}
use sage_dev.Prelude.{
  ℕ, zero, suc, ◌+◌, ◌-◌, ◌*◌, ◌/◌, ◌%◌, ◌^◌, ◌≤◌, ◌<◌, ◌≡◌, ◌∙◌, sym, ap, min, bit_and, arith,
}

pub power_pos : (k : ℕ) → 0 < 2 ^ k
power_pos k = one-le-pow k 2 (omega arith)

pub power-suc : (k : ℕ) → 2 ^ suc k ≡ 2 ^ k * 2
power-suc k = pow-suc 2 k

-- A remainder by twice a number, digit by digit.
mod_double : (a m : ℕ) → 0 < m → a % (m * 2) ≡ a / 2 % m * 2 + a % 2
mod_double a m pos =
    let e = div-add-mod' (a / 2) m in
    let q = a / 2 / m in
    let s = a / 2 % m in
    let lt = mod-lt (a / 2) pos in
    let split : a ≡ s * 2 + a % 2 + q * (m * 2) = omega (arith, sym (mul_assoc q m 2)) in
    let small : s * 2 + a % 2 < m * 2 = omega arith in
    ap (λ t. t % (m * 2)) split
    ∙ add-mul-mod_self_right (s * 2 + a % 2) q (m * 2)
    ∙ mod-eq_of_lt small

-- Digit by digit, `and` with `k` ones keeps the remainder by the power.
digits-mask : (n k a : ℕ) → a ≤ n → digits (λ d. zero) min n a (2 ^ k - 1) ≡ a % 2 ^ k
digits-mask zero k zero h = sym (zero-mod (2 ^ k))
digits-mask zero k (suc a) h = absurd (omega arith)
digits-mask (suc n) k zero h = sym (zero-mod (2 ^ k))
digits-mask (suc n) zero (suc a) h =
    let rest = digits-mask n zero (suc a / 2) (omega arith) in omega arith
digits-mask (suc n) (suc k) (suc a) h =
    let p = power-suc k in
    let pos = power_pos k in
    let half : (2 ^ suc k - 1) / 2 ≡ 2 ^ k - 1 = omega arith in
    let odd : (2 ^ suc k - 1) % 2 ≡ 1 = omega arith in
    let rest = digits-mask n k (suc a / 2) (omega arith) in
    let double = mod_double (suc a) (2 ^ k) pos in rw (half, odd, rest, p, double) (omega arith)

pub bit_and-mask : (k a : ℕ) → bit_and a (2 ^ k - 1) ≡ a % 2 ^ k
bit_and-mask k a = bit_and-bitwise a (2 ^ k - 1) ∙ digits-mask a k a (omega arith)

pub power_split : (i d : ℕ) → 2 ^ (i + d) ≡ 2 ^ d * 2 ^ i
power_split i zero = rw (add-zero i) (omega arith)
power_split i (suc d) =
    let step : i + suc d ≡ suc (i + d) = omega arith in
    let twice : 2 ^ d * 2 * 2 ^ i ≡ 2 ^ d * 2 ^ i * 2 = mul_right_comm (2 ^ d) 2 (2 ^ i) in
    rw step (
      power-suc (i + d)
      ∙ ap (λ t. t * 2) (power_split i d)
      ∙ sym twice
      ∙ ap (λ t. t * 2 ^ i) (sym (power-suc d)))

-- A smaller power of two divides a larger one.
pub power-mod-power : (i d : ℕ) → 2 ^ (i + d) % 2 ^ i ≡ 0
power-mod-power i d = ap (λ t. t % 2 ^ i) (power_split i d) ∙ mul-mod_left (2 ^ d) (2 ^ i)
