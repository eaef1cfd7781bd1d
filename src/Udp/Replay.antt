-- ===== src/Udp/Replay.antt =====
-- The tests of src/modes/udp.rs: pacing on fractions in place of f64, the header, and loss and
-- warm-up for every f64 on a stream in which each packet takes as long as the one before.
use andri.Common.{
  ℕ, zero, suc, ◌+◌, ◌*◌, ◌≡◌, refl, List, [], ◌∷◌, map, Option, none, some, Bool, true, ◌&&◌,
  replicate,
}
use mathlib.Core.Option
use andri.Float.{Float}
use andri.FloatModel.Rational.{Fraction, rational, over, near}
use andri.Bytes.{to_le, from_le}
use andri.Udp.Header.{stamp, unstamp}
use andri.Udp.Drive.{packets_per_tick}
use andri.Proto.Messages.{TestResult}
use andri.Udp.LossJitter.{Arrival, new, observe, observe_all, into_result}
use andri.Udp.EndToEnd.{Counted}

abbrev pub per_tick : ℕ → Fraction
per_tick bitrate = packets_per_tick rational bitrate 1472 1000

-- 84.92 up to 0.01, and the rate of that many packets up to 1 bit/s.
abbrev pub paced : Bool
paced =
    let ppt = per_tick 1_000_000_000 in
    let rate = rational.mul (rational.mul ppt (over (1472 * 8) 1)) (over 1000 1) in
    near ppt (over 8492 100) (over 1 100) && near rate (over 1_000_000_000 1) (over 1 1)

packets_per_tick_math : paced ≡ true
unfolding packets_per_tick
packets_per_tick_math = refl

abbrev pub paced_slowly : Bool
paced_slowly = let ppt = per_tick 64_000 in rational.lt ppt (over 1 1) && rational.lt (over 0 1) ppt

packets_per_tick_low_rate : paced_slowly ≡ true
unfolding packets_per_tick
packets_per_tick_low_rate = refl

abbrev pub restored : Option (ℕ × ℕ)
restored = Option.bind (stamp (replicate 32 0) 12345 678_900_000) unstamp

stamp_unstamp_roundtrip : restored ≡ some (12345, 678_900_000)
unfolding stamp unstamp to_le from_le Option.bind
stamp_unstamp_roundtrip = refl

abbrev pub short_datagram : Option (ℕ × ℕ)
short_datagram = unstamp (replicate 8 0)

unstamp_rejects_short_datagram : short_datagram ≡ none
unfolding unstamp
unstamp_rejects_short_datagram = refl

-- `lj.observe(seq, seq * 1000, seq * 1000 + 500, 100)`.
abbrev pub in_step : ℕ → Arrival
in_step seq = record { seq = seq; send_ns = seq * 1000; recv_ns = seq * 1000 + 500; n = 100 }

-- `from..from + n`.
abbrev pub range : ℕ → ℕ → List ℕ
range from zero = []
range from (suc n) = from ∷ range (from + 1) n

module _ (fl : Float) where
  open fl use {F, of_u64}

  abbrev pub observed : ℕ → List ℕ → TestResult F
  observed warmup seqs =
      into_result fl (observe_all fl (new fl warmup) (map in_step seqs)) (of_u64 1)

  abbrev pub perfect_stream : TestResult F
  perfect_stream = observed 0 (range 0 100)

  abbrev pub sequence_gap : TestResult F
  sequence_gap = observed 0 (0 ∷ 1 ∷ 2 ∷ 5 ∷ 6 ∷ [])

  abbrev pub warmup_stream : TestResult F
  warmup_stream = observed 10 (range 0 20)

  perfect_stream_has_no_loss : Counted perfect_stream 100 100 0
  unfolding new observe observe_all into_result
  perfect_stream_has_no_loss = (refl, refl, refl)

  sequence_gap_is_loss : Counted sequence_gap 7 5 2
  unfolding new observe observe_all into_result
  sequence_gap_is_loss = (refl, refl, refl)

  warmup_packets_excluded : Counted warmup_stream 10 10 0
  unfolding new observe observe_all into_result
  warmup_packets_excluded = (refl, refl, refl)
