-- ===== src/Stash/Buffer/Placement.antt =====
-- Where `push_raw` of crates/sage-stash/src/lib.rs puts an entry.
use native.Mathlib.Nat.{
  mod-lt, zero-mod, div-add-mod, mul-mod_right, mul-sub, mul_comm, mul-le-mul_left, mod-mod_of_dvd,
  dvd_of_mod-eq-zero,
}
use sage_dev.Prelude.{
  ◌==◌, ==_iff, ne-of-==, ℕ, suc, ◌+◌, ◌-◌, ◌*◌, ◌/◌, ◌%◌, ◌^◌, ◌≤◌, ◌<◌, ◌≡◌, ◌∙◌, sym, refl, ap,
  inl, inr, Bool-cases, leb, List, ◌++◌, max, length, length-append, ok, arith,
}
use sage_dev.Stash.Buffer.{AlignedBuf, zeros, padding, write_values}
use sage_dev.Stash.Buffer.Powers.{power_pos, power_split, bit_and-mask}
use sage_dev.Stash.Buffer.Growth.{
  IsAlign, Sound, max-IsAlign, length-zeros, resize_zeroed-Extended, extend_from_slice-Extended,
}

-- Two's complement modulo a power of two.
padding-mod : (cur k : ℕ) → padding cur (2 ^ k) ≡ (2 ^ 64 - cur) % 2 ^ 64 % 2 ^ k
unfolding padding
padding-mod cur k = bit_and-mask k ((2 ^ 64 - cur) % 2 ^ 64)

up_to_multiple : (c a x cur : ℕ) → 0 < a → cur + x ≡ a * c → (cur + x % a) % a ≡ 0
up_to_multiple c a x cur pos total =
    let parts = div-add-mod x a in
    let q = x / a in
    let diff = mul-sub a c q in
    let same : cur + x % a ≡ a * (c - q) = omega arith in
    ap (λ t. t % a) same ∙ mul-mod_right a (c - q)

-- No multiple stands between.
least_multiple : (a s o cur : ℕ) → 0 < a → s % a ≡ 0 → o % a ≡ 0 → cur ≤ o → s < cur + a → s ≤ o
least_multiple a s o cur pos hs ho le lt = elim (Bool-cases (leb s o)) [
  | inl fine ↦ ground arith
  | inr over ↦
      let parts_s = div-add-mod s a in
      let parts_o = div-add-mod o a in
      elim (Bool-cases (leb (s / a) (o / a))) [
        | inl small ↦
            let up = mul-le-mul_left {m = s / a} {n = o / a} a (ground arith) in
            ground (arith, parts_s, parts_o)
        | inr large ↦
            let up = mul-le-mul_left {m = suc (o / a)} {n = s / a} a (ground arith) in
            let split : a * suc (o / a) ≡ a * (o / a) + a = omega arith in absurd (omega arith)
      ]
]

word-multiple :
    (cur k : ℕ) → cur ≤ 2 ^ 62 → k ≤ 29 → (c : ℕ) × (cur + (2 ^ 64 - cur) % 2 ^ 64 ≡ 2 ^ k * c)
word-multiple cur k small low = elim (Bool-cases (cur == 0)) [
  | inl at_zero ↦ let e : cur ≡ 0 = (==_iff cur 0).0 at_zero in (0, omega arith)
  | inr after ↦
      let ne = ne-of-== cur 0 after in
      let at : 64 ≡ k + (64 - k) = omega arith in
      let whole : 2 ^ 64 ≡ 2 ^ (64 - k) * 2 ^ k = ap (λ t. 2 ^ t) at ∙ power_split k (64 - k) in
      let swap = mul_comm (2 ^ (64 - k)) (2 ^ k) in (2 ^ (64 - k), omega arith)
]

padding_power :
    (cur k : ℕ)
    → cur ≤ 2 ^ 62
    → k ≤ 29
    → ((cur + padding cur (2 ^ k)) % 2 ^ k ≡ 0)
      × (padding cur (2 ^ k) < 2 ^ k)
      × ((o : ℕ) → cur ≤ o → o % 2 ^ k ≡ 0 → cur + padding cur (2 ^ k) ≤ o)
padding_power cur k small low =
    let pos = power_pos k in
    let (c, whole) = word-multiple cur k small low in
    let at_multiple = up_to_multiple c (2 ^ k) ((2 ^ 64 - cur) % 2 ^ 64) cur pos whole in
    let less = mod-lt ((2 ^ 64 - cur) % 2 ^ 64) pos in
    rw (padding-mod cur k) (
      at_multiple,
      less,
      λ o le multiple.
          least_multiple (2 ^ k) (cur + (2 ^ 64 - cur) % 2 ^ 64 % 2 ^ k) o cur pos at_multiple
            multiple le (omega arith),
    )

-- The padding leads to the next multiple of the alignment.
padding_lem :
    (cur a : ℕ)
    → cur ≤ 2 ^ 62
    → IsAlign a
    → ((cur + padding cur a) % a ≡ 0)
      × (padding cur a < a)
      × ((o : ℕ) → cur ≤ o → o % a ≡ 0 → cur + padding cur a ≤ o)
padding_lem cur a small x = rw x.power (padding_power cur x.exponent small x.low)

-- Where `push_raw` puts bytes of a type with alignment `a`.
pub record Placed (b b' : AlignedBuf) (values : List ℕ) (a offset : ℕ) : Type 0 where
  pub sound : Sound b'
  pub bytes_eq : b'.bytes ≡ (b.bytes ++ zeros (offset - length b.bytes)) ++ values
  pub beyond : length b.bytes ≤ offset
  pub offset_aligned : (offset % a ≡ 0) × (offset % 4 ≡ 0)
  pub address_aligned : b'.align % a ≡ 0
  pub nearest : (o : ℕ) → length b.bytes ≤ o → o % a ≡ 0 → o % 4 ≡ 0 → offset ≤ o

-- A multiple of a multiple.
multiple-multiple : (x m a : ℕ) → x % m ≡ 0 → m % a ≡ 0 → x % a ≡ 0
multiple-multiple x m a hx hm =
    sym (mod-mod_of_dvd a x (dvd_of_mod-eq-zero a hm)) ∙ ap (λ t. t % a) hx ∙ zero-mod a

-- `max` picks one of the two.
max-multiple : (o a c : ℕ) → o % a ≡ 0 → o % c ≡ 0 → o % max a c ≡ 0
max-multiple o a c ha hc = elim (Bool-cases (leb a c)) [
  | inl le ↦ let is_c : max a c ≡ c = ground arith in rw is_c hc
  | inr gt ↦ let is_a : max a c ≡ a = ground arith in rw is_a ha
]

-- While the offsets fit in 32 bits, writing the bytes of values to a sound buffer returns. What was there
-- stays in front, the entry starts at the returned offset, which is the least one past the old bytes that is
-- aligned for the type and for 4 bytes, and the alignment of the allocation serves the type.
pub write_values-Placed :
    (b : AlignedBuf) (values : List ℕ) (a : ℕ)
    → Sound b
    → IsAlign a
    → length b.bytes + max a 4 + length values < 2 ^ 32
    → (b' : AlignedBuf) × (offset : ℕ) × (write_values b values a ≡ ok (b', offset))
      × Placed b b' values a offset
unfolding write_values
write_values-Placed b values a s x fits =
    let four : IsAlign 4 = record { exponent = 2; power = refl; low = omega arith } in
    let (m, divides_a, divides_4) = max-IsAlign a 4 x four in
    let (multiple, short, least) = padding_lem (length b.bytes) (max a 4) (omega arith) m in
    let p : ℕ = padding (length b.bytes) (max a 4) in
    let (padded, run, padding_done) = resize_zeroed-Extended b p s (omega arith) in
    let grown : length padded.bytes ≡ length b.bytes + p =
      ap (λ (t : List ℕ). length t) padding_done.bytes_eq
      ∙ length-append b.bytes (zeros p)
      ∙ ap (λ t. length b.bytes + t) (length-zeros p) in
    let (b', run', written) =
      extend_from_slice-Extended padded values a padding_done.sound x (omega arith) in
    let in_word : length padded.bytes % 2 ^ 32 ≡ length b.bytes + p = omega arith in
    let between : length b.bytes + p - length b.bytes ≡ p = omega arith in
    (
      b',
      length b.bytes + p,
      rw (run, run', in_word) refl,
      record {
        sound = written.sound;
        bytes_eq = rw between (written.bytes_eq ∙ ap (λ t. t ++ values) padding_done.bytes_eq);
        beyond = omega arith;
        offset_aligned = (
          multiple-multiple (length b.bytes + p) (max a 4) a multiple divides_a,
          multiple-multiple (length b.bytes + p) (max a 4) 4 multiple divides_4,
        );
        address_aligned = written.served;
        nearest = λ o le ha h4. least o le (max-multiple o a 4 ha h4);
      },
    )
