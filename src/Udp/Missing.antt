-- ===== src/Udp/Missing.antt =====
-- Loss described apart from the accumulator: which sequence numbers of a range did not arrive,
-- and how often one arrived again.
use andri.Common.{
  ℕ, zero, suc, ◌+◌, ◌≤◌, ◌<◌, ◌≡◌, refl, Bool, false, ◌||◌, List, [], ◌∷◌, ◌==◌, if◌then◌else◌,
  arith, length, All, Bool-cases, inl, inr,
}

abbrev pub seen : ℕ → List ℕ → Bool
seen k [] = false
seen k (x ∷ xs) = x == k || seen k xs

-- How many of the `n` numbers from `first` on are not in the list.
abbrev pub missing : ℕ → ℕ → List ℕ → ℕ
missing first zero xs = 0
missing first (suc n) xs = (if seen first xs then 0 else 1) + missing (suc first) n xs

-- How many entries repeat one that stands further on.
abbrev pub duplicates : List ℕ → ℕ
duplicates [] = 0
duplicates (x ∷ xs) = (if seen x xs then 1 else 0) + duplicates xs

abbrev pub InRange : ℕ → ℕ → ℕ → Type 0
InRange first n x = (first ≤ x) × (x < first + n)

missing-nil : (first n : ℕ) → missing first n [] ≡ n
missing-nil first zero = refl
missing-nil first (suc n) = omega (arith, missing-nil (suc first) n)

missing_below :
    (first n x : ℕ) (xs : List ℕ) → x < first → missing first n (x ∷ xs) ≡ missing first n xs
missing_below first zero x xs h = refl
missing_below first (suc n) x xs h = ground (arith, missing_below (suc first) n x xs)

-- One more arrival in the range fills a gap unless its number was there already.
missing-cons :
    (first n x : ℕ) (xs : List ℕ)
    → first ≤ x
    → x < first + n
    → missing first n (x ∷ xs) + (if seen x xs then 0 else 1) ≡ missing first n xs
missing-cons first zero x xs lo hi = absurd (omega arith)
missing-cons first (suc n) x xs lo hi = elim (Bool-cases (x == first)) [
  | inl here ↦ ground (arith, missing_below (suc first) n x xs)
  | inr later ↦ ground (arith, missing-cons (suc first) n x xs)
]

-- Arrivals and gaps make up the range and the repeats.
pub length-missing :
    (first n : ℕ) (xs : List ℕ)
    → All (InRange first n) xs
    → length xs + missing first n xs ≡ n + duplicates xs
length-missing first n [] h = omega (arith, missing-nil first n)
length-missing first n (x ∷ xs) (hx, h) =
    ground (arith, length-missing first n xs h, missing-cons first n x xs)
