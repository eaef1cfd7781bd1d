-- ===== src/Cli/Tests.antt =====
-- Each theorem about the command line at a concrete input.
use andri.Common.{
  ℕ, ◌+◌, ◌-◌, ◌*◌, ◌≡◌, refl, false, ◌&&◌, leb, if◌then◌else◌, Option, none, some, [], ◌∷◌, ◌++◌,
}
use andri.FloatModel.{whole}
use andri.Cli.Bitrate.{Text, Parser, bitrate, parse_bitrate}
use andri.Cli.BitrateLaws.{accepted, Scale, parse_bitrate_case, parse_bitrate_sound}

-- Decimal digits, as the whole numbers among the f64 are read.
abbrev digits : ℕ → Text → Option ℕ
digits n [] = some n
digits n (c ∷ s) = if leb b'0' c && leb c b'9' then digits (n * 10 + (c - b'0')) s else none

abbrev read : Text → Option ℕ
read [] = none
read (c ∷ s) = digits 0 (c ∷ s)

-- Texts without blanks.
abbrev plain : Parser ℕ
plain = record { trim = λ s. s; parse = read }

abbrev five_hundred : Text
five_hundred = b'5' ∷ b'0' ∷ b'0' ∷ []

parse_bitrate_case_example :
    accepted (parse_bitrate whole plain (five_hundred ++ (b'M' ∷ [])))
    ≡ accepted (parse_bitrate whole plain (five_hundred ++ (b'm' ∷ [])))
parse_bitrate_case_example =
    parse_bitrate_case whole plain five_hundred b'M' b'm' 1_000_000 refl refl refl refl

five_hundred_m : parse_bitrate whole plain (five_hundred ++ (b'M' ∷ [])) ≡ bitrate 500_000_000
unfolding parse_bitrate
five_hundred_m = refl

parse_bitrate_sound_example :
    (number : Text) × (m v : ℕ) × Scale (five_hundred ++ (b'M' ∷ [])) number m
    × (read number ≡ some v)
    × (whole.lt v 0 ≡ false)
    × (500_000_000 ≡ v * m)
parse_bitrate_sound_example =
    parse_bitrate_sound whole plain (five_hundred ++ (b'M' ∷ [])) 500_000_000 five_hundred_m
