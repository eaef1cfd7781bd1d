-- ===== src/Udp/Loss.antt =====
-- What the receiver reports as lost, against the gaps in the sequence numbers that arrived.
use andri.Common.{
  ℕ, ◌+◌, ◌-◌, ◌^◌, ◌≤◌, ◌<◌, ◌≡◌, refl, Option, none, some, List, [], ◌∷◌, arith, length, All,
}
use andri.Float.{Float}
use andri.Udp.LossJitter.{Arrival, new, observe_all, span, into_result}
use andri.Udp.Window.{window, least_of, least, greatest, seqs}
use andri.Udp.Counts.{observe_all-counts}
use andri.Udp.Missing.{missing, duplicates, InRange, length-missing}

abbrev pub AtLeast : ℕ → Option ℕ → Type 0
AtLeast m none = Unit
AtLeast m (some l) = m ≤ l

least_of-AtLeast : (m : ℕ) (o p : Option ℕ) → AtLeast m (least_of o p) → AtLeast m o × AtLeast m p
least_of-AtLeast m none p h = (tt, h)
least_of-AtLeast m (some a) none h = (h, tt)
least_of-AtLeast m (some a) (some b) h = (omega arith, omega arith)

pub seqs-InRange :
    (m n : ℕ) (ws : List Arrival)
    → AtLeast m (least ws)
    → greatest ws < m + n
    → All (InRange m n) (seqs ws)
seqs-InRange m n [] lo hi = tt
seqs-InRange m n (a ∷ ws) lo hi =
    let (here, later) = least_of-AtLeast m (some a.seq) (least ws) lo in
    ((here, omega arith), seqs-InRange m n ws later (omega arith))

pub length-seqs : (ws : List Arrival) → length (seqs ws) ≡ length ws
length-seqs [] = refl
length-seqs (a ∷ ws) = omega (arith, length-seqs ws)

pub least-le-greatest : (ws : List Arrival) (m : ℕ) → least ws ≡ some m → m ≤ greatest ws
least-le-greatest [] m e = ground arith
least-le-greatest (a ∷ ws) m e = ground arith

module _ (fl : Float) where
  -- The receiver's report when something arrived in the window. The expected packets are the
  -- numbers from the smallest to the largest that arrived, and the lost ones are those of them
  -- that never arrived, less one for each repeated arrival (stopping at 0). The largest number is
  -- below 2^64 - 1 and fewer than 2^64 packets arrive.
  pub lost-missing :
      (w : ℕ) (ps : List Arrival) (secs : fl.F) (first : ℕ)
      → least (window w ps) ≡ some first
      → greatest (window w ps) < 2 ^ 64 - 1
      → length (window w ps) < 2 ^ 64
      → let ws = window w ps in
        let n = greatest ws - first + 1 in
        let r = into_result fl (observe_all fl (new fl w) ps) secs in
        (r.packets_expected ≡ some n)
        × (r.packets_received ≡ some (length ws))
        × (r.packets_lost ≡ some (missing first n (seqs ws) - duplicates (seqs ws)))
  unfolding into_result
  lost-missing w ps secs first el below few =
      let ws = window w ps in
      let n = greatest ws - first + 1 in
      let (_, received, min_seq, max_seq) = observe_all-counts fl w ps in
      let first_le = least-le-greatest ws first el in
      let whole : span (some first) (greatest ws) ≡ n = omega arith in
      let bounded = seqs-InRange first n ws (rw el (omega arith)) (omega arith) in
      let balance = length-missing first n (seqs ws) bounded in
      rw (received, min_seq, max_seq, el, whole)
        (refl, ground arith, ground (arith, balance, length-seqs ws))
