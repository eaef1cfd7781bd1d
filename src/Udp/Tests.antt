-- ===== src/Udp/Tests.antt =====
-- Runs of the UDP mode: the source's own tests, and each theorem at a concrete input.
use mathlib.Core.List.Perm
use andri.Common.{
  ℕ, ◌/◌, ◌+◌, ◌-◌, ◌*◌, ◌^◌, ◌≡◌, refl, none, some, List, [], ◌∷◌, length, drop, arith, replicate,
  true, false,
}
use andri.Io.{ErrorKind, IoError, ok}
use andri.FloatModel.{whole}
use andri.Proto.Messages.{Mode, Negotiate, TestResult}
use andri.Udp.Header.{header_len, stamp, unstamp, unstamp-stamp}
use andri.Udp.LossJitter.{Arrival, new, observe, observe_all, snapshot, into_result, observe}
use andri.Udp.Window.{window}
use andri.Udp.Loss.{lost-missing}
use andri.Udp.Jitter.{rfc_jitter, jitter-rfc}
use andri.Udp.Clock.{clock_ahead, HasZero, jitter-clock_ahead}
use andri.Udp.Order.{totals, totals-perm}
use andri.Udp.Serve.{Event, stop, tick, datagram, measured_secs, serve, warmup_threshold}
use andri.Udp.ServeLaws.{heard}
use andri.Udp.Report.{first_measured, serve_stopped}
use andri.Bytes.{to_le}
use andri.Meter.Fill.{fill_random, fill_chunks}
use andri.Udp.Drive.{
  Round, Sender, Driven, finished, running, drive, drive_loop, send_burst, new_sender,
  packets_per_tick,
}
use andri.Udp.Pacing.{Numbered}
use andri.Udp.Sender.{drive-Numbered}

-- `lj.observe(seq, seq * 1000, seq * 1000 + 500, 100)` of the source's tests.
abbrev arrival : ℕ → Arrival
arrival seq = record { seq = seq; send_ns = seq * 1000; recv_ns = seq * 1000 + 500; n = 100 }

abbrev gap : List Arrival
gap = arrival 0 ∷ arrival 1 ∷ arrival 2 ∷ arrival 5 ∷ arrival 6 ∷ []

sequence_gap_is_loss :
    let r = into_result whole (observe_all whole (new whole 0) gap) 1 in
    (r.packets_expected ≡ some 7) × (r.packets_received ≡ some 5) × (r.packets_lost ≡ some 2)
unfolding into_result observe_all observe new
sequence_gap_is_loss = (refl, refl, refl)

-- Number 1 is lost and number 0 arrives twice: the report shows no loss.
abbrev repeated : List Arrival
repeated = arrival 0 ∷ arrival 0 ∷ arrival 2 ∷ []

duplicate_hides_loss :
    (into_result whole (observe_all whole (new whole 0) repeated) 1).packets_lost ≡ some 0
unfolding into_result observe_all observe new
duplicate_hides_loss = refl

lost-missing_example :
    let r = into_result whole (observe_all whole (new whole 1) gap) 1 in
    (r.packets_expected ≡ some 6) × (r.packets_received ≡ some 4) × (r.packets_lost ≡ some 2)
lost-missing_example = lost-missing whole 1 gap 1 1 refl (omega arith) (omega arith)

jitter-rfc_example :
    let ms = rfc_jitter whole (window 1 gap) / 1000000 in
    let acc = observe_all whole (new whole 1) gap in
    ((into_result whole acc 1).jitter_ms ≡ some ms) × ((snapshot whole acc).jitter_ms ≡ ms)
jitter-rfc_example = jitter-rfc whole 1 gap 1 (omega arith)

jitter-clock_ahead_example :
    (observe_all whole (new whole 1) (clock_ahead (2 ^ 64 - 3) gap)).jitter_ns
    ≡ (observe_all whole (new whole 1) gap).jitter_ns
jitter-clock_ahead_example = jitter-clock_ahead whole 1 (2 ^ 64 - 3) gap (omega arith)

whole-HasZero : HasZero whole
whole-HasZero = record {
  of_i64_zero = refl;
  sub_zero = refl;
  mul_gain_zero = refl;
  add_zero = refl;
}

totals-perm_example :
    let p = observe_all whole (new whole 0) (arrival 7 ∷ arrival 3 ∷ []) in
    let q = observe_all whole (new whole 0) (arrival 3 ∷ arrival 7 ∷ []) in
    (totals p ≡ totals q)
    × ((into_result whole p 1).packets_expected ≡ (into_result whole q 1).packets_expected)
    × ((into_result whole p 1).packets_lost ≡ (into_result whole q 1).packets_lost)
totals-perm_example =
    totals-perm whole (new whole 0) (arrival 7 ∷ arrival 3 ∷ []) (arrival 3 ∷ arrival 7 ∷ []) 1
      (Perm.swap (arrival 3) (arrival 7) [])

-- The padding of a datagram, and a datagram: number 3, stamped 70.
abbrev payload : List ℕ
payload = replicate 18 9

abbrev third : List ℕ
third = 3 ∷ 0 ∷ 0 ∷ 0 ∷ 0 ∷ 0 ∷ 0 ∷ 0 ∷ 70 ∷ 0 ∷ 0 ∷ 0 ∷ 0 ∷ 0 ∷ 0 ∷ 0 ∷ 9 ∷ 9 ∷ []

unstamp-stamp_example :
    (out : List ℕ) × (stamp payload 3 70 ≡ some out)
    × (length out ≡ 18)
    × (drop header_len out ≡ 9 ∷ 9 ∷ [])
    × (unstamp out ≡ some (3, 70))
unstamp-stamp_example = unstamp-stamp payload 3 70 (omega arith) (omega arith) (omega arith)

-- 18-byte datagrams at 144000 bits/s: 1000 a second, one each round.
abbrev neg : Negotiate
neg = record {
  mode = Mode.udp;
  duration_secs = 0;
  warmup_secs = 1;
  parallel = 1;
  buffer_bytes = 65536;
  bidir = false;
  bitrate_bps = some 144000;
  packet_bytes = some 18;
  file_len = none;
  null_source = none;
}

abbrev events : List Event
events = tick 1000 ∷ datagram third 1500 1600 ∷ datagram (9 ∷ []) 1700 1800 ∷ stop 2000 ∷ []

serve_stopped_example :
    let w = warmup_threshold neg in
    let secs = measured_secs whole (first_measured w events) 2000 in
    (r : TestResult ℕ) × (serve whole neg 0 events ≡ some (ok r))
    × (record r { samples = [] }
        ≡ into_result whole (observe_all whole (new whole w) (heard 0 events)) secs)
    × (length r.samples ≡ 1)
serve_stopped_example = serve_stopped whole 0 neg events 2000 refl

abbrev refused : IoError
refused = IoError.new ErrorKind.other "connection refused"

abbrev round : ℕ → Round
round at = record { checked = at; clock = λ i. at + i; answer = λ i. ok tt; reported = at }

abbrev rounds : List Round
rounds = round 5 ∷ round 10 ∷ round 2000000000 ∷ []

abbrev sender_of : Driven whole → Sender whole
sender_of (finished st) = st
sender_of (running st) = st
sender_of _ = new_sender whole 18 7

abbrev done : Sender whole
done = sender_of (drive whole 7 neg true rounds)

rounds_end : drive whole 7 neg true rounds ≡ finished done
unfolding drive drive_loop send_burst new_sender packets_per_tick fill_random fill_chunks to_le
rounds_end = refl

sent_two : length (done.burst).sent ≡ 2
unfolding drive drive_loop send_burst new_sender packets_per_tick fill_random fill_chunks to_le
sent_two = refl

drive-Numbered_example :
    ((done.burst).seq ≡ length (done.burst).sent) × Numbered 18 0 (done.burst).sent
drive-Numbered_example =
    drive-Numbered whole 7 neg true rounds done rounds_end (omega (arith, sent_two))
