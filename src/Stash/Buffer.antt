-- ===== src/Stash/Buffer.antt =====
-- `AlignedBuf` of crates/sage-stash/src/lib.rs and the placement of values by `push_raw`. The buffer is
-- its live bytes, its capacity and its alignment; the pointer and the allocator, which is taken to
-- deliver, are left out. A `usize` has 64 bits.
pub mod Powers
pub mod Growth
pub mod Placement
pub mod Examples
use sage_dev.Prelude.{
  ℕ, zero, suc, ◌+◌, ◌-◌, ◌*◌, ◌%◌, ◌^◌, Bool, true, false, not, ◌&&◌, Option, none, some, List, [],
  ◌∷◌, ◌++◌, ◌==◌, ltb, leb, max, bit_and, length, Outcome, ok, ◌>>=◌, ◌>>◌, assert,
}

pub record AlignedBuf : Type 0 where
  pub bytes : List ℕ
  pub capacity : ℕ
  pub align : ℕ

-- The alignment of `usize`.
unfoldable pub new : AlignedBuf
new = record { bytes = []; capacity = 0; align = 8 }

-- `checked_next_power_of_two`: the 64 powers that a `usize` holds, from 1 on.
unfoldable pub next_power : ℕ → ℕ → ℕ → Option ℕ
next_power zero p n = none
next_power (suc f) p n = elim (leb n p) [ true ↦ some p | false ↦ next_power f (p * 2) n ]

-- `unwrap_or(usize::MAX)`.
abbrev pub or_max : Option ℕ → ℕ
or_max none = 2 ^ 64 - 1
or_max (some p) = p

unfoldable pub grown_capacity : ℕ → ℕ → ℕ
grown_capacity capacity required =
    max (or_max (next_power 64 1 (max capacity 4))) (or_max (next_power 64 1 (max required 1)))

-- `Layout::from_size_align` accepts a size that is at most `isize::MAX` when rounded up to the alignment.
abbrev pub layout_fits : ℕ → ℕ → Bool
layout_fits size align = leb (size + align) (2 ^ 63)

unfoldable pub reserve : AlignedBuf → ℕ → ℕ → Outcome AlignedBuf
reserve b additional required_align = do
  assert (ltb (length b.bytes + additional) (2 ^ 64))
  elim (not (b.capacity == 0)
      && (leb (length b.bytes + additional) b.capacity && max b.align required_align == b.align)) [
        | true ↦ ok b
        | false ↦ do
          assert (
              layout_fits (grown_capacity b.capacity (length b.bytes + additional))
                (max b.align required_align))
          ok (record b {
            capacity = grown_capacity b.capacity (length b.bytes + additional);
            align = max b.align required_align;
          })
      ]

abbrev pub zeros : ℕ → List ℕ
zeros zero = []
zeros (suc n) = 0 ∷ zeros n

unfoldable pub resize_zeroed : AlignedBuf → ℕ → Outcome AlignedBuf
resize_zeroed b new_len = do
  assert (leb (length b.bytes) new_len)
  r ← reserve b (new_len - length b.bytes) 1
  ok (record r { bytes = r.bytes ++ zeros (new_len - length b.bytes) })

-- The values come as their bytes, with the alignment of their type.
unfoldable pub extend_from_slice : AlignedBuf → List ℕ → ℕ → Outcome AlignedBuf
extend_from_slice b values type_align = do
  r ← reserve b (length values) type_align
  ok (record r { bytes = r.bytes ++ values })

unfoldable pub clone : AlignedBuf → Outcome AlignedBuf
clone b = elim (b.capacity == 0) [
  | true ↦ ok new
  | false ↦ reserve new (length b.bytes) b.align >>= λ r. ok (record r { bytes = b.bytes })
]

-- `cur.wrapping_neg() & (align - 1)`.
unfoldable pub padding : ℕ → ℕ → ℕ
padding cur align = bit_and ((2 ^ 64 - cur) % 2 ^ 64) (align - 1)

-- The bytes of `push_raw`, and the offset of the entry.
unfoldable pub write_values : AlignedBuf → List ℕ → ℕ → Outcome (AlignedBuf × ℕ)
write_values b values type_align = do
  padded ← resize_zeroed b (length b.bytes + padding (length b.bytes) (max type_align 4))
  written ← extend_from_slice padded values type_align
  ok (written, length padded.bytes % 2 ^ 32)
