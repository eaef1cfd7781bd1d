-- ===== src/Meter/Preview.antt =====
-- `payload_preview` of src/meter.rs. Printing a byte in hexadecimal and a number in decimal, and
-- `str::trim_end`, are the standard library's.
use Prim.Native.String.{◌++◌}
use andri.Common.{
  ℕ, zero, suc, ◌+◌, ◌≤◌, ◌<◌, ◌≡◌, refl, sym, ap, ◌∙◌, List, [], ◌∷◌, String, Bool, true, false,
  ◌==◌, ◌||◌, if◌then◌else◌, min, length, take, All, IsByte, arith, Bool-cases, inl, inr,
}

abbrev pub mem : ℕ → List ℕ → Bool
mem x [] = false
mem x (y ∷ ys) = (x == y) || mem x ys

-- The size of the `HashSet` that the values are collected in.
unfoldable pub distinct : List ℕ → ℕ
distinct [] = 0
distinct (x ∷ xs) = if mem x xs then distinct xs else suc (distinct xs)

module _ (hex decimal : ℕ → String) (trim_end : String → String) where
  abbrev pub hex_bytes : List ℕ → String
  hex_bytes [] = ""
  hex_bytes (b ∷ bs) = hex b ++ " " ++ hex_bytes bs

  unfoldable pub payload_preview : List ℕ → String
  payload_preview buf =
      let n = min (length buf) 16 in
      trim_end (hex_bytes (take n buf))
      ++ "… ("
      ++ decimal (distinct buf)
      ++ "/256 distinct byte values)"

-- How many of the numbers below `k` occur.
abbrev present : ℕ → List ℕ → ℕ
present zero xs = 0
present (suc k) xs = (if mem k xs then 1 else 0) + present k xs

present_le : (k : ℕ) (xs : List ℕ) → present k xs ≤ k
present_le zero xs = omega arith
present_le (suc k) xs = let rest = present_le k xs in ground arith

present_above : (k x : ℕ) (xs : List ℕ) → k ≤ x → present k (x ∷ xs) ≡ present k xs
present_above zero x xs h = refl
present_above (suc k) x xs h =
    let rest = present_above k x xs (omega arith) in
    let other : (k == x) ≡ false = ground arith in rw other (omega (arith, rest))

present_below :
    (k x : ℕ) (xs : List ℕ)
    → x < k
    → present k (x ∷ xs) ≡ present k xs + (if mem x xs then 0 else 1)
present_below zero x xs h = absurd (omega arith)
present_below (suc k) x xs h = elim (Bool-cases (k == x)) [
  | inl here ↦
      let same : k ≡ x = ground arith in
      let rest = present_above k x xs (omega arith) in
      elim (Bool-cases (mem x xs)) [
        | inl again ↦
            let again' : mem k xs ≡ true = ap (λ z. mem z xs) same ∙ again in
            rw (here, again', again) (omega (arith, rest))
        | inr first ↦
            let first' : mem k xs ≡ false = ap (λ z. mem z xs) same ∙ first in
            rw (here, first', first) (omega (arith, rest))
      ]
  | inr other ↦ let rest = present_below k x xs (ground arith) in rw other (omega (arith, rest))
]

present_none : (k : ℕ) → present k [] ≡ 0
present_none zero = refl
present_none (suc k) = omega (arith, present_none k)

distinct-present : (k : ℕ) (xs : List ℕ) → All (λ x. x < k) xs → distinct xs ≡ present k xs
unfolding distinct
distinct-present k [] h = sym (present_none k)
distinct-present k (x ∷ xs) (below, h) =
    let rest = distinct-present k xs h in
    let more = present_below k x xs below in
    elim (Bool-cases (mem x xs)) [
      | inl again ↦ rw again (omega (arith, rest, rw again at more))
      | inr first ↦ rw first (omega (arith, rest, rw first at more))
    ]

-- No buffer of bytes has more than 256 distinct values: what the preview prints as a share of 256
-- is one.
pub distinct-bound : (buf : List ℕ) → All IsByte buf → distinct buf ≤ 256
distinct-bound buf h =
    let e = distinct-present 256 buf h in let le = present_le 256 buf in omega (arith, e, le)

-- A buffer of one value repeated, as of zeros, is shown with one distinct value.
pub distinct-constant : (x : ℕ) (xs : List ℕ) → All (λ y. y ≡ x) xs → distinct (x ∷ xs) ≡ 1
unfolding distinct
distinct-constant x [] h = refl
distinct-constant x (y ∷ ys) (e, h) =
    let same : (x == y) ≡ true = ground arith in
    rw same (ap (λ z. distinct (z ∷ ys)) e ∙ distinct-constant x ys h)
