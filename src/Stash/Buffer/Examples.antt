-- ===== src/Stash/Buffer/Examples.antt =====
-- A buffer of five bytes for crates/sage-stash/src/lib.rs.
use sage_dev.Prelude.{ℕ, ◌≡◌, refl, arith, [], ◌∷◌, ok}
use sage_dev.Stash.Buffer.{AlignedBuf, write_values}
use sage_dev.Stash.Buffer.Growth.{IsAlign, Sound}
use sage_dev.Stash.Buffer.Placement.{Placed, write_values-Placed}

abbrev five_bytes : AlignedBuf
five_bytes = record { bytes = 1 ∷ 2 ∷ 3 ∷ 4 ∷ 5 ∷ []; capacity = 8; align = 8 }

five_bytes-Sound : Sound five_bytes
five_bytes-Sound = record {
  within = omega arith;
  small = omega arith;
  aligned = record { exponent = 3; power = refl; low = omega arith };
}

sixteen-IsAlign : IsAlign 16
sixteen-IsAlign = record { exponent = 4; power = refl; low = omega arith }

write_values-Placed_example :
    (b' : AlignedBuf) × (offset : ℕ) × (write_values five_bytes (6 ∷ 7 ∷ []) 16 ≡ ok (b', offset))
    × Placed five_bytes b' (6 ∷ 7 ∷ []) 16 offset
write_values-Placed_example =
    write_values-Placed five_bytes (6 ∷ 7 ∷ []) 16 five_bytes-Sound sixteen-IsAlign (omega arith)
