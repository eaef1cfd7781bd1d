-- ===== src/Cli/Bitrate.antt =====
-- `parse_bitrate` of src/cli.rs, on the characters of a text. `str::trim` and the parsing of an
-- f64 are the standard library's.
use andri.Common.{ℕ, ◌==◌, ◌||◌, if◌then◌else◌, Option, none, some, List, [], ◌∷◌}
use andri.Float.{Float}

abbrev pub Text : Type 0
Text = List ℕ

pub record Parser (F : Type 0) : Type 0 where
  pub trim : Text → Text
  pub parse : Text → Option F

pub data Parsed : Type 0 where
  bitrate : ℕ → Parsed
  -- The text that the message quotes.
  invalid_bitrate : Text → Parsed
  negative_bitrate : Text → Parsed

-- The text without its last character, and that character.
abbrev pub split_last : Text → Option (Text × ℕ)
split_last [] = none
split_last (c ∷ cs) = elim (split_last cs) [
  | none ↦ some ([], c)
  | some (front, last) ↦ some (c ∷ front, last)
]

-- The multiplier that a last character stands for.
abbrev pub scale_of : ℕ → Option ℕ
scale_of c =
    if c == b'K' || c == b'k'
    then some 1_000
    else if c == b'M' || c == b'm'
    then some 1_000_000
    else if c == b'G' || c == b'g'
    then some 1_000_000_000
    else none

-- `match s.chars().last()`: the number's text, and the multiplier.
abbrev pub with_scale : Text → Text → Option ℕ → Text × ℕ
with_scale s front none = (s, 1)
with_scale s front (some m) = (front, m)

abbrev pub with_last : Text → Option (Text × ℕ) → Text × ℕ
with_last s none = (s, 1)
with_last s (some (front, last)) = with_scale s front (scale_of last)

abbrev pub number_and_scale : Text → Text × ℕ
number_and_scale s = with_last s (split_last s)

module _ (fl : Float) (parser : Parser fl.F) where
  open fl use {F, of_u64, mul, lt, to_u64}
  open parser use {trim, parse}

  abbrev pub scaled : Text → ℕ → Option F → Parsed
  scaled s mult none = invalid_bitrate s
  scaled s mult (some value) =
      if lt value (of_u64 0) then negative_bitrate s else bitrate (to_u64 (mul value (of_u64 mult)))

  unfoldable pub parse_bitrate : Text → Parsed
  parse_bitrate text =
      let s = trim text in scaled s (number_and_scale s).1 (parse (trim (number_and_scale s).0))
