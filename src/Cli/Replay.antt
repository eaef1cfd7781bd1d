-- ===== src/Cli/Replay.antt =====
-- The tests of src/cli.rs, on fractions in place of f64 and on texts without blanks.
use andri.Common.{◌≡◌, refl, true, false, Bool, Option, none, some, List, [], ◌∷◌, String, map}
use andri.FloatModel.Rational.{Fraction, rational, fixed, read_number}
use andri.Cli.{Format, Mode, ModeFlags, selected}
use andri.Cli.Show.{mode_name, render}
use andri.Cli.Bitrate.{
  Text, Parser, Parsed, bitrate, invalid_bitrate, negative_bitrate, parse_bitrate,
}

abbrev plain : Parser Fraction
plain = record { trim = λ s. s; parse = read_number }

abbrev one_gbit : Fraction
one_gbit = rational.of_u64 1_000_000_000

abbrev pub rendered_units : List String
rendered_units =
    map (λ f. render rational fixed f one_gbit)
      (Format.bits ∷ Format.bytes ∷ Format.mbps ∷ Format.gbps ∷ [])

format_render_units :
    rendered_units ≡ "1000000000 bit/s" ∷ "125000000 byte/s" ∷ "1000.00 Mbps" ∷ "1.00 Gbps" ∷ []
unfolding render
format_render_units = refl

abbrev flags : Bool → Bool → Option String → ModeFlags
flags tcp udp file = record { tcp = tcp; udp = udp; file = file }

abbrev pub selected_modes : List (Option Mode)
selected_modes = map selected (
    flags false false none
    ∷ flags true false none
    ∷ flags false true none
    ∷ flags false false (some "x.iso")
    ∷ [])

mode_flags_selected : selected_modes ≡ none ∷ some Mode.tcp ∷ some Mode.udp ∷ some Mode.file ∷ []
unfolding selected
mode_flags_selected = refl

abbrev pub displayed_modes : List String
displayed_modes = map mode_name (Mode.tcp ∷ Mode.udp ∷ Mode.file ∷ [])

mode_display_is_uppercase : displayed_modes ≡ "TCP" ∷ "UDP" ∷ "FILE" ∷ []
mode_display_is_uppercase = refl

abbrev parsed : List Text → List Parsed
parsed texts = map (parse_bitrate rational plain) texts

abbrev pub suffixes : List Parsed
suffixes = parsed (
    (b'1' ∷ b'G' ∷ [])
    ∷ (b'5' ∷ b'0' ∷ b'0' ∷ b'M' ∷ [])
    ∷ (b'1' ∷ b'0' ∷ b'M' ∷ [])
    ∷ (b'6' ∷ b'4' ∷ b'K' ∷ [])
    ∷ (b'1' ∷ b'0' ∷ b'0' ∷ b'0' ∷ [])
    ∷ [])

parse_bitrate_suffixes :
    suffixes ≡ map bitrate (1_000_000_000 ∷ 500_000_000 ∷ 10_000_000 ∷ 64_000 ∷ 1_000 ∷ [])
unfolding parse_bitrate
parse_bitrate_suffixes = refl

abbrev pub case_and_fraction : List Parsed
case_and_fraction =
    parsed (
      (b'1' ∷ b'g' ∷ []) ∷ (b'2' ∷ b'.' ∷ b'5' ∷ b'M' ∷ []) ∷ (b'0' ∷ b'.' ∷ b'5' ∷ b'G' ∷ []) ∷ [])

parse_bitrate_case_and_fraction :
    case_and_fraction ≡ map bitrate (1_000_000_000 ∷ 2_500_000 ∷ 500_000_000 ∷ [])
unfolding parse_bitrate
parse_bitrate_case_and_fraction = refl

abbrev letters : Text
letters = b'a' ∷ b'b' ∷ b'c' ∷ []

abbrev minus_five : Text
minus_five = b'-' ∷ b'5' ∷ b'M' ∷ []

abbrev dotted : Text
dotted = b'1' ∷ b'.' ∷ b'2' ∷ b'.' ∷ b'3' ∷ []

abbrev pub bad_input : List Parsed
bad_input = parsed (letters ∷ [] ∷ minus_five ∷ dotted ∷ [])

parse_bitrate_rejects_bad_input :
    bad_input
    ≡ invalid_bitrate letters
      ∷ invalid_bitrate []
      ∷ negative_bitrate minus_five
      ∷ invalid_bitrate dotted
      ∷ []
unfolding parse_bitrate
parse_bitrate_rejects_bad_input = refl
