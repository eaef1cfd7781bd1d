-- ===== src/Meter/Counter.antt =====
-- Byte counters and rates of src/meter.rs. A counter is shared between a stream's task and the
-- sampler; its accesses are single atomic operations on one u64.
use andri.Common.{ℕ, List, [], ◌∷◌, if◌then◌else◌, add64}
use andri.Float.{Float}

abbrev pub Counter : Type 0
Counter = ℕ

unfoldable pub new : Counter
new = 0

-- `fetch_add` wraps around.
unfoldable pub add : Counter → ℕ → Counter
add c n = add64 c n

unfoldable pub get : Counter → ℕ
get c = c

-- `sum` over u64, from the left.
unfoldable pub total_from : ℕ → List Counter → ℕ
total_from acc [] = acc
total_from acc (c ∷ cs) = total_from (add64 acc (get c)) cs

unfoldable pub total : List Counter → ℕ
total counters = total_from 0 counters

module _ (fl : Float) where
  open fl use {F, of_u64, mul, div, le}

  unfoldable pub bits_per_sec : ℕ → F → F
  bits_per_sec bytes secs =
      if le secs (of_u64 0) then of_u64 0 else div (mul (of_u64 bytes) (of_u64 8)) secs
