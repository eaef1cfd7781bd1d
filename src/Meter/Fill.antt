-- ===== src/Meter/Fill.antt =====
-- `fill_random` of src/meter.rs: the splitmix64 generator, eight bytes at a time.
use andri.Common.{
  ℕ, zero, suc, ◌/◌, ◌%◌, ◌^◌, List, [], ◌++◌, length, take, ltb, if◌then◌else◌, add64, mul64,
  bit_xor,
}
use andri.Bytes.{to_le}

-- The generator's state after one call of `next`.
unfoldable pub advance : ℕ → ℕ
advance s = add64 s 0x9E37_79B9_7F4A_7C15

-- What that call returns, from the new state.
unfoldable pub mix : ℕ → ℕ
mix s =
    let z = mul64 (bit_xor s (s / 2 ^ 30)) 0xBF58_476D_1CE4_E5B9 in
    let y = mul64 (bit_xor z (z / 2 ^ 27)) 0x94D0_49BB_1331_11EB in bit_xor y (y / 2 ^ 31)

-- The loop over `chunks_exact_mut(8)`, and then the remainder of `rem` bytes.
unfoldable pub fill_chunks : ℕ → ℕ → ℕ → List ℕ
fill_chunks zero rem s = if ltb 0 rem then take rem (to_le 8 (mix (advance s))) else []
fill_chunks (suc k) rem s = to_le 8 (mix (advance s)) ++ fill_chunks k rem (advance s)

-- The new contents of the buffer: of the old ones only the length matters.
unfoldable pub fill_random : List ℕ → ℕ → List ℕ
fill_random buf seed = fill_chunks (length buf / 8) (length buf % 8) seed
