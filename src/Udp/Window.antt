-- ===== src/Udp/Window.antt =====
-- The measured window described apart from the accumulator: which arrivals count, and their
-- totals, as plain sums over the list of arrivals.
use andri.Common.{ℕ, ◌+◌, Option, none, some, List, [], ◌∷◌, min, max, leb, if◌then◌else◌, min}
use andri.Udp.LossJitter.{Arrival}

-- The arrivals after the warm-up, by their sequence numbers.
abbrev pub window : ℕ → List Arrival → List Arrival
window warmup [] = []
window warmup (a ∷ rest) = if leb warmup a.seq then a ∷ window warmup rest else window warmup rest

abbrev pub total_bytes : List Arrival → ℕ
total_bytes [] = 0
total_bytes (a ∷ rest) = a.n + total_bytes rest

-- The smaller of two sequence numbers that may be absent.
abbrev pub least_of : Option ℕ → Option ℕ → Option ℕ
least_of none o = o
least_of (some a) none = some a
least_of (some a) (some b) = some (min a b)

abbrev pub least : List Arrival → Option ℕ
least [] = none
least (a ∷ rest) = least_of (some a.seq) (least rest)

abbrev pub greatest : List Arrival → ℕ
greatest [] = 0
greatest (a ∷ rest) = max a.seq (greatest rest)

abbrev pub seqs : List Arrival → List ℕ
seqs [] = []
seqs (a ∷ rest) = a.seq ∷ seqs rest
