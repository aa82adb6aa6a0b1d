-- ===== src/Stash/Buffer/Growth.antt =====
-- How `AlignedBuf` of crates/sage-stash/src/lib.rs grows: it makes room, keeps its bytes, and its
-- alignment serves every type that it has held.
use native.Mathlib.Nat.{pow-le-pow_right, mul-le-mul_left, mul_assoc, mod_self}
use sage_dev.Prelude.{
  ◌⊎◌, ℕ, zero, suc, ◌+◌, ◌-◌, ◌*◌, ◌%◌, ◌^◌, ◌≤◌, ◌<◌, ◌≡◌, ◌∙◌, sym, refl, ap, inl, inr, true,
  not, ◌&&◌, Bool-cases, some, List, [], ◌∷◌, ◌++◌, ◌==◌, ltb, leb, max, length, length-append, ok,
  arith,
}
use sage_dev.Stash.Buffer.{
  AlignedBuf, new, next_power, layout_fits, grown_capacity, reserve, zeros, resize_zeroed,
  extend_from_slice, clone,
}
use sage_dev.Stash.Buffer.Powers.{power-suc, power_pos, power-mod-power}

-- `2 ^ 29` is the largest alignment of a Rust type.
pub record IsAlign (a : ℕ) : Type 0 where
  pub exponent : ℕ
  pub power : a ≡ 2 ^ exponent
  pub low : exponent ≤ 29

pub record Sound (b : AlignedBuf) : Type 0 where
  pub within : length b.bytes ≤ b.capacity
  pub small : b.capacity ≤ 2 ^ 62
  pub aligned : IsAlign b.align

divides : (a c : ℕ) → IsAlign a → IsAlign c → a ≤ c → c % a ≡ 0
divides a c x y le =
    let low : x.exponent ≤ y.exponent = elim (Bool-cases (leb x.exponent y.exponent)) [
      | inl below ↦ ground arith
      | inr over ↦
          let up =
            pow-le-pow_right {n = 2} (omega arith) {i = suc y.exponent} {j = x.exponent}
              (ground arith) in
          let p = power-suc y.exponent in
          let pos = power_pos y.exponent in absurd (omega (arith, x.power, y.power))
    ] in
    let at : y.exponent ≡ x.exponent + (y.exponent - x.exponent) = omega arith in
    rw (x.power, y.power, at) (power-mod-power x.exponent (y.exponent - x.exponent))

next_power_bounds :
    (f j p n : ℕ)
    → j < f
    → n ≤ p * 2 ^ j
    → (q : ℕ) × (next_power f p n ≡ some q) × (n ≤ q) × (q ≤ p * 2 ^ j)
unfolding next_power
next_power_bounds zero j p n lt le = absurd (omega arith)
next_power_bounds (suc f) zero p n lt le =
    let le' : n ≤ p = omega arith in (p, ground arith, le', omega arith)
next_power_bounds (suc f) (suc i) p n lt le = elim (Bool-cases (leb n p)) [
  | inl enough ↦
      let above = mul-le-mul_left p (power_pos (suc i)) in
      (p, ground arith, ground arith, omega arith)
  | inr short ↦
      let same : p * 2 * 2 ^ i ≡ p * 2 ^ suc i =
        mul_assoc p 2 (2 ^ i) ∙ ap (λ t. p * t) (omega (arith, power-suc i)) in
      let (q, run, ge, le') = next_power_bounds f i (p * 2) n (omega arith) (omega arith) in
      (q, ground arith, ge, omega arith)
]

grown_capacity_bounds :
    (capacity required : ℕ)
    → capacity ≤ 2 ^ 62
    → required ≤ 2 ^ 62
    → (required ≤ grown_capacity capacity required)
      × (capacity ≤ grown_capacity capacity required)
      × (grown_capacity capacity required ≤ 2 ^ 62)
unfolding grown_capacity
grown_capacity_bounds capacity required lc lr =
    let (q, run, ge, le) = next_power_bounds 64 62 1 (max capacity 4) (omega arith) (omega arith) in
    let (r, run', ge', le') =
      next_power_bounds 64 62 1 (max required 1) (omega arith) (omega arith) in
    rw (run, run') (omega arith, omega arith, omega arith)

-- What a call of `reserve` leaves behind.
pub record Reserved (b b' : AlignedBuf) (additional a : ℕ) : Type 0 where
  pub sound : Sound b'
  pub bytes_eq : b'.bytes ≡ b.bytes
  pub room : length b.bytes + additional ≤ b'.capacity
  pub kept : b'.align % b.align ≡ 0
  pub served : b'.align % a ≡ 0

-- The larger of two alignments is a multiple of both.
pub max-IsAlign :
    (a c : ℕ) → IsAlign a → IsAlign c → IsAlign (max a c) × (max a c % a ≡ 0) × (max a c % c ≡ 0)
max-IsAlign a c x y = elim (Bool-cases (leb a c)) [
  | inl le ↦
      let is_c : max a c ≡ c = ground arith in
      rw is_c (y, divides a c x y (ground arith), mod_self c)
  | inr gt ↦
      let is_a : max a c ≡ a = ground arith in
      rw is_a (x, mod_self a, divides c a y x (ground arith))
]

IsAlign-le : (a : ℕ) → IsAlign a → a ≤ 2 ^ 29
IsAlign-le a x =
    let up = pow-le-pow_right {n = 2} (omega arith) {i = x.exponent} {j = 29} x.low in
    omega (arith, x.power)

-- A sound buffer that is asked for room for at most `2 ^ 62` bytes in all returns. It keeps its bytes, the
-- room is there, and the new alignment is a multiple of the old one and of the one asked for.
pub reserve-Reserved :
    (b : AlignedBuf) (additional a : ℕ)
    → Sound b
    → IsAlign a
    → length b.bytes + additional ≤ 2 ^ 62
    → (b' : AlignedBuf) × (reserve b additional a ≡ ok b') × Reserved b b' additional a
unfolding reserve
reserve-Reserved b additional a s x fits =
    let small = s.small in
    let required : ℕ = length b.bytes + additional in
    let (aligned, kept, served) = max-IsAlign b.align a s.aligned x in
    let (room, held, top) = grown_capacity_bounds b.capacity required s.small fits in
    let in_word : ltb (length b.bytes + additional) (2 ^ 64) ≡ true = ground arith in
    elim (Bool-cases (
      not (b.capacity == 0)
      && (leb (length b.bytes + additional) b.capacity && max b.align a == b.align))) [
        | inl enough ↦
            let same : max b.align a ≡ b.align = ground arith in
            (
              b,
              ground arith,
              record {
                sound = s;
                bytes_eq = refl;
                room = ground arith;
                kept = mod_self b.align;
                served = rw same at served;
              },
            )
        | inr short ↦
            let low = IsAlign-le (max b.align a) aligned in
            let fits_layout : layout_fits (grown_capacity b.capacity required) (max b.align a)
                ≡ true =
              ground arith in
            (
              record b { capacity = grown_capacity b.capacity required; align = max b.align a },
              rw (in_word, short, fits_layout) refl,
              record {
                sound = record { within = omega arith; small = top; aligned = aligned };
                bytes_eq = refl;
                room = room;
                kept = kept;
                served = served;
              },
            )
      ]

pub length-zeros : (n : ℕ) → length (zeros n) ≡ n
length-zeros zero = refl
length-zeros (suc n) = omega (arith, length-zeros n)

-- What bytes added at the end leave behind.
pub record Extended (b b' : AlignedBuf) (added : List ℕ) (a : ℕ) : Type 0 where
  pub sound : Sound b'
  pub bytes_eq : b'.bytes ≡ b.bytes ++ added
  pub kept : b'.align % b.align ≡ 0
  pub served : b'.align % a ≡ 0

Reserved-Extended :
    (b r : AlignedBuf) (added : List ℕ) (n a : ℕ)
    → length added ≡ n
    → Reserved b r n a
    → Extended b (record r { bytes = r.bytes ++ added }) added a
Reserved-Extended b r added n a len x = record {
  sound = record {
    within =
        omega
          (arith, length-append r.bytes added, x.room, ap (λ (t : List ℕ). length t) x.bytes_eq);
    small = x.sound.small;
    aligned = x.sound.aligned;
  };
  bytes_eq = ap (λ t. t ++ added) x.bytes_eq;
  kept = x.kept;
  served = x.served;
}

pub resize_zeroed-Extended :
    (b : AlignedBuf) (n : ℕ)
    → Sound b
    → length b.bytes + n ≤ 2 ^ 62
    → (b' : AlignedBuf) × (resize_zeroed b (length b.bytes + n) ≡ ok b') × Extended b b' (zeros n) 1
unfolding resize_zeroed
resize_zeroed-Extended b n s fits =
    let one : IsAlign 1 = record { exponent = 0; power = refl; low = omega arith } in
    let (r, run, x) = reserve-Reserved b n 1 s one fits in
    let more : length b.bytes + n - length b.bytes ≡ n = omega arith in
    let grows : leb (length b.bytes) (length b.bytes + n) ≡ true = ground arith in
    (
      record r { bytes = r.bytes ++ zeros n },
      rw (grows, more, run) refl,
      Reserved-Extended b r (zeros n) n 1 (length-zeros n) x,
    )

pub extend_from_slice-Extended :
    (b : AlignedBuf) (values : List ℕ) (a : ℕ)
    → Sound b
    → IsAlign a
    → length b.bytes + length values ≤ 2 ^ 62
    → (b' : AlignedBuf) × (extend_from_slice b values a ≡ ok b') × Extended b b' values a
unfolding extend_from_slice
extend_from_slice-Extended b values a s x fits =
    let (r, run, done) = reserve-Reserved b (length values) a s x fits in
    (
      record r { bytes = r.bytes ++ values },
      rw run refl,
      Reserved-Extended b r values (length values) a refl done,
    )

-- A clone has the bytes of the original, and an alignment that serves the same types.
pub clone-same :
    (b : AlignedBuf)
    → Sound b
    → (b' : AlignedBuf) × (clone b ≡ ok b')
      × Sound b'
      × (b'.bytes ≡ b.bytes)
      × ((b.capacity ≡ 0) ⊎ (b'.align % b.align ≡ 0))
unfolding clone new
clone-same b s = elim (Bool-cases (b.capacity == 0)) [
  | inl unused ↦
      let none_held : b.bytes ≡ [] = empty_of_length b.bytes (ground (arith, s.within)) in
      (
        new,
        rw (unused, clone) refl,
        record {
          within = omega arith;
          small = omega arith;
          aligned = record { exponent = 3; power = refl; low = omega arith };
        },
        sym none_held,
        inl (ground arith),
      )
  | inr used ↦
      let fresh : Sound new = record {
        within = omega arith;
        small = omega arith;
        aligned = record { exponent = 3; power = refl; low = omega arith };
      } in
      let small = s.small in
      let within = s.within in
      let (r, run, x) =
        reserve-Reserved new (length b.bytes) b.align fresh s.aligned (omega arith) in
      (
        record r { bytes = b.bytes },
        rw (used, clone, run) refl,
        record {
          within = let room = x.room in omega arith;
          small = x.sound.small;
          aligned = x.sound.aligned;
        },
        refl,
        inr x.served,
      )
]
  where
    empty_of_length : (l : List ℕ) → length l ≤ 0 → l ≡ []
    empty_of_length [] h = refl
    empty_of_length (n ∷ ns) h = absurd (omega arith)
