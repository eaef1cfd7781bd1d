-- ===== src/FloatModel/Rational.antt =====
-- A second model of the interface of f64, without rounding: fractions, as the difference of two
-- numbers over a third. It runs the source's tests whose numbers f64 holds exactly or closely.
use Prim.Native.String.{◌++◌, slice}
use andri.Common.{
  ℕ, zero, suc, ◌+◌, ◌-◌, ◌*◌, ◌/◌, ◌%◌, ◌^◌, Bool, ltb, leb, ◌==◌, if◌then◌else◌, List, [], ◌∷◌,
  String, Option, none, some, ◌&&◌,
}
use andri.Float.{Float}

-- `(pos - neg) / den`.
pub record Fraction : Type 0 where
  pub pos : ℕ
  pub neg : ℕ
  pub den : ℕ

abbrev pub over : ℕ → ℕ → Fraction
over n d = record { pos = n; neg = 0; den = d }

abbrev pub minus : Fraction → Fraction
minus a = record { pos = a.neg; neg = a.pos; den = a.den }

abbrev plus : Fraction → Fraction → Fraction
plus a b = record {
  pos = a.pos * b.den + b.pos * a.den;
  neg = a.neg * b.den + b.neg * a.den;
  den = a.den * b.den;
}

abbrev times : Fraction → Fraction → Fraction
times a b = record {
  pos = a.pos * b.pos + a.neg * b.neg;
  neg = a.pos * b.neg + a.neg * b.pos;
  den = a.den * b.den;
}

abbrev inverse : Fraction → Fraction
inverse a =
    if ltb a.pos a.neg
    then record { pos = 0; neg = a.den; den = a.neg - a.pos }
    else record { pos = a.den; neg = 0; den = a.pos - a.neg }

abbrev below : Fraction → Fraction → Bool
below a b = ltb (a.pos * b.den + b.neg * a.den) (b.pos * a.den + a.neg * b.den)

abbrev at_most : Fraction → Fraction → Bool
at_most a b = leb (a.pos * b.den + b.neg * a.den) (b.pos * a.den + a.neg * b.den)

-- Towards zero; negative numbers become 0.
abbrev whole_part : Fraction → ℕ
whole_part a = (a.pos - a.neg) / a.den

abbrev round_down : Fraction → Fraction
round_down a =
    if ltb a.pos a.neg
    then record { pos = 0; neg = (a.neg - a.pos + a.den - 1) / a.den; den = 1 }
    else over (whole_part a) 1

abbrev pub rational : Float
rational = record {
  F = Fraction;
  of_u64 = λ n. over n 1;
  of_i64 = λ w. if ltb w (2 ^ 63) then over w 1 else record { pos = 0; neg = 2 ^ 64 - w; den = 1 };
  add = plus;
  sub = λ a b. plus a (minus b);
  mul = times;
  div = λ a b. times a (inverse b);
  lt = below;
  le = at_most;
  floor = round_down;
  to_u64 = whole_part;
}

-- The two numbers differ by less than the third.
abbrev pub near : Fraction → Fraction → Fraction → Bool
near a b e = below (plus a (minus b)) e && below (plus b (minus a)) e

-- The last `k` decimal digits of a number.
abbrev pub digits : ℕ → ℕ → String
digits zero n = ""
digits (suc k) n = digits k (n / 10) ++ slice "0123456789" (n % 10) (n % 10 + 1)

-- How many digits a number below 10 ^ `fuel` has, at least one.
abbrev digit_count : ℕ → ℕ → ℕ
digit_count zero n = 1
digit_count (suc fuel) n = let more = digit_count fuel (n / 10) in if ltb n 10 then 1 else suc more

-- Numbers below 10 ^ 20, as every u64 is.
abbrev pub decimal : ℕ → String
decimal n = digits (digit_count 20 n) n

-- `{:.k}` of a number that is not negative.
abbrev pub fixed : ℕ → Fraction → String
fixed k a =
    let scaled = ((a.pos - a.neg) * 10 ^ k * 2 + a.den) / (2 * a.den) in
    if k == 0
    then decimal scaled
    else decimal (scaled / 10 ^ k) ++ "." ++ digits k (scaled % 10 ^ k)

-- Decimal digits, with at most one point between them, after a sign or none, as the tests have
-- them: `n` is what was read before, and `d` the power of ten after the point, 0 while there was none.
abbrev pub read_digits : ℕ → ℕ → List ℕ → Option Fraction
read_digits n d [] = some (over n (if d == 0 then 1 else d))
read_digits n d (c ∷ s) =
    let digit = read_digits (n * 10 + (c - b'0')) (d * 10) s in
    let point = read_digits n 1 s in
    if leb b'0' c && leb c b'9' then digit else if c == b'.' && d == 0 then point else none

abbrev pub read_number : List ℕ → Option Fraction
read_number [] = none
read_number (c ∷ s) =
    if c == b'-'
    then elim (read_digits 0 0 s) [ none ↦ none | some a ↦ some (minus a) ]
    else read_digits 0 0 (c ∷ s)
