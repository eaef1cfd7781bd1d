-- ===== src/Udp/Counts.antt =====
-- The counters of `LossJitter` against the totals of the window.
use andri.Common.{ℕ, ◌+◌, ◌≡◌, List, [], ◌∷◌, max, u64, IsU64, arith, length}
use andri.Float.{Float}
use andri.Udp.LossJitter.{LossJitter, Arrival, new, observe, observe_all}
use andri.Udp.Window.{window, total_bytes, least_of, least, greatest}

module _ (fl : Float) where
  -- Every arrival has the same threshold to meet.
  pub warmup-observe :
      (acc : LossJitter fl.F) (a : Arrival) → (observe fl acc a).warmup_packets ≡ acc.warmup_packets
  unfolding observe
  warmup-observe acc a = ground arith

  bytes-observe_all :
      (acc : LossJitter fl.F) (ps : List Arrival)
      → IsU64 acc.bytes
      → (observe_all fl acc ps).bytes ≡ u64 (acc.bytes + total_bytes (window acc.warmup_packets ps))
  unfolding observe observe_all
  bytes-observe_all acc [] h = omega arith
  bytes-observe_all acc (a ∷ ps) h = ground (arith, bytes-observe_all (observe fl acc a) ps)

  received-observe_all :
      (acc : LossJitter fl.F) (ps : List Arrival)
      → IsU64 acc.received
      → (observe_all fl acc ps).received
        ≡ u64 (acc.received + length (window acc.warmup_packets ps))
  unfolding observe observe_all
  received-observe_all acc [] h = omega arith
  received-observe_all acc (a ∷ ps) h = ground (arith, received-observe_all (observe fl acc a) ps)

  min_seq-observe_all :
      (acc : LossJitter fl.F) (ps : List Arrival)
      → (observe_all fl acc ps).min_seq
        ≡ least_of acc.min_seq (least (window acc.warmup_packets ps))
  unfolding observe observe_all
  min_seq-observe_all acc [] = ground arith
  min_seq-observe_all acc (a ∷ ps) = ground (arith, min_seq-observe_all (observe fl acc a) ps)

  max_seq-observe_all :
      (acc : LossJitter fl.F) (ps : List Arrival)
      → (observe_all fl acc ps).max_seq ≡ max acc.max_seq (greatest (window acc.warmup_packets ps))
  unfolding observe observe_all
  max_seq-observe_all acc [] = omega arith
  max_seq-observe_all acc (a ∷ ps) = ground (arith, max_seq-observe_all (observe fl acc a) ps)

  -- After any arrivals at a new accumulator: the byte and packet counters are the totals of the
  -- window, as u64, and the extreme sequence numbers are those of the window (0 for the largest
  -- and none for the smallest if nothing arrived in it).
  pub observe_all-counts :
      (w : ℕ) (ps : List Arrival)
      → let acc = observe_all fl (new fl w) ps in
        (acc.bytes ≡ u64 (total_bytes (window w ps)))
        × (acc.received ≡ u64 (length (window w ps)))
        × (acc.min_seq ≡ least (window w ps))
        × (acc.max_seq ≡ greatest (window w ps))
  unfolding new
  observe_all-counts w ps = (
    omega (arith, bytes-observe_all (new fl w) ps (omega arith)),
    omega (arith, received-observe_all (new fl w) ps (omega arith)),
    min_seq-observe_all (new fl w) ps,
    omega (arith, max_seq-observe_all (new fl w) ps),
  )
