-- ===== src/Meter/Replay.antt =====
-- The tests of src/meter.rs, on fractions in place of f64.
use Prim.Native.String.{◌++◌, find, len, slice}
use andri.Common.{
  ℕ, ◌+◌, ◌-◌, ◌/◌, ◌%◌, ◌≡◌, refl, true, false, Bool, not, ◌&&◌, ◌||◌, ltb, ◌==◌, List, [], ◌∷◌,
  String, replicate, if◌then◌else◌,
}
use andri.FloatModel.Rational.{Fraction, rational, over, minus, decimal}
use andri.Bytes.{to_le}
use andri.Meter.Counter.{bits_per_sec}
use andri.Meter.Fill.{fill_random, fill_chunks, advance, mix}
use andri.Meter.Preview.{distinct, payload_preview}

abbrev rate : ℕ → Fraction → Fraction
rate bytes secs = bits_per_sec rational bytes secs

abbrev equal : Fraction → Fraction → Bool
equal a b = rational.le a b && rational.le b a

abbrev pub basic_rates : Bool
basic_rates =
    equal (rate 1_000 (over 1 1)) (over 8_000 1)
    && equal (rate 125_000_000 (over 1 1)) (over 1_000_000_000 1)

bits_per_sec_basic : basic_rates ≡ true
unfolding bits_per_sec
bits_per_sec_basic = refl

abbrev pub guarded_rates : Bool
guarded_rates =
    equal (rate 1_000 (over 0 1)) (over 0 1) && equal (rate 1_000 (minus (over 1 1))) (over 0 1)

bits_per_sec_guards_zero_duration : guarded_rates ≡ true
unfolding bits_per_sec
bits_per_sec_guards_zero_duration = refl

abbrev hex_digit : ℕ → String
hex_digit d = slice "0123456789abcdef" d (d + 1)

abbrev hex : ℕ → String
hex b = hex_digit (b / 16) ++ hex_digit (b % 16)

-- Without the blank that ends the bytes.
abbrev trim_end : String → String
trim_end s = slice s 0 (len s - 1)

abbrev preview : List ℕ → String
preview buf = payload_preview hex decimal trim_end buf

abbrev contains : String → String → Bool
contains s t = ltb (find s t) (len s)

abbrev pub previewed : Bool
previewed =
    let s = preview (fill_random (replicate 256 0) 1) in
    contains "0123456789abcdef" (slice s 0 1)
    && contains s "distinct byte values"
    && contains (preview (replicate 64 0)) "1/256 distinct"

payload_preview_format : previewed ≡ true
unfolding payload_preview distinct fill_random fill_chunks advance mix to_le
payload_preview_format = refl

abbrev same : List ℕ → List ℕ → Bool
same [] [] = true
same [] (y ∷ ys) = false
same (x ∷ xs) [] = false
same (x ∷ xs) (y ∷ ys) = if x == y then same xs ys else false

abbrev pub varied : Bool
varied = not (same (fill_random (replicate 4096 0) 1) (fill_random (replicate 4096 0) 2))

fill_random_varies_by_seed : varied ≡ true
unfolding fill_random fill_chunks advance mix to_le
fill_random_varies_by_seed = refl

abbrev pub high_entropy : Bool
high_entropy = ltb 200 (distinct (fill_random (replicate 4096 0) 0x5EED_2026))

fill_random_is_high_entropy : high_entropy ≡ true
unfolding distinct fill_random fill_chunks advance mix to_le
fill_random_is_high_entropy = refl

abbrev any_set : List ℕ → Bool
any_set [] = false
any_set (b ∷ bs) = not (b == 0) || any_set bs

abbrev pub remainder_filled : Bool
remainder_filled = any_set (fill_random (replicate 13 0) 7)

fill_random_handles_remainder : remainder_filled ≡ true
unfolding fill_random fill_chunks advance mix to_le
fill_random_handles_remainder = refl
