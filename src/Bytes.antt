-- ===== src/Bytes.antt =====
-- Byte order: `u64::to_le_bytes`, `u64::from_le_bytes`, `u32::to_be_bytes`, `u32::from_be_bytes`.
use native.Mathlib.Nat.{pow-suc}
use andri.Common.{
  ℕ, zero, suc, ◌+◌, ◌*◌, ◌/◌, ◌%◌, ◌^◌, ◌<◌, ◌≡◌, refl, List, [], ◌∷◌, arith, length, All, IsByte,
}

-- The lowest `k` bytes of `n`, the least significant first.
unfoldable pub to_le : ℕ → ℕ → List ℕ
to_le zero n = []
to_le (suc k) n = (n % 256) ∷ to_le k (n / 256)

unfoldable pub from_le : List ℕ → ℕ
from_le [] = 0
from_le (b ∷ bs) = b + 256 * from_le bs

pub length-to_le : (k n : ℕ) → length (to_le k n) ≡ k
unfolding to_le
length-to_le zero n = refl
length-to_le (suc k) n = omega (arith, length-to_le k (n / 256))

pub from_le-to_le : (k n : ℕ) → n < 256 ^ k → from_le (to_le k n) ≡ n
unfolding to_le from_le
from_le-to_le zero n h = omega arith
from_le-to_le (suc k) n h =
    let p = pow-suc 256 k in omega (arith, from_le-to_le k (n / 256) (omega arith))

unfoldable pub to_be32 : ℕ → List ℕ
to_be32 n = (n / 2 ^ 24 % 256) ∷ (n / 2 ^ 16 % 256) ∷ (n / 2 ^ 8 % 256) ∷ (n % 256) ∷ []

-- On a list of any other length, which the callers never pass, the value is 0.
unfoldable pub from_be32 : List ℕ → ℕ
from_be32 (a ∷ b ∷ c ∷ d ∷ []) = a * 2 ^ 24 + b * 2 ^ 16 + c * 2 ^ 8 + d
from_be32 _ = 0

pub from_be32-to_be32 : (n : ℕ) → n < 2 ^ 32 → from_be32 (to_be32 n) ≡ n
unfolding to_be32 from_be32
from_be32-to_be32 n h = omega arith

pub length-to_be32 : (n : ℕ) → length (to_be32 n) ≡ 4
unfolding to_be32
length-to_be32 n = refl

pub to_le-IsByte : (k n : ℕ) → All IsByte (to_le k n)
unfolding to_le
to_le-IsByte zero n = tt
to_le-IsByte (suc k) n = (omega arith, to_le-IsByte k (n / 256))
