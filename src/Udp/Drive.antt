-- ===== src/Udp/Drive.antt =====
-- `drive` of src/modes/udp.rs: the paced sender. The clock and the socket are inputs of each
-- round of the loop. The send-side readout on stderr is left out, its state is kept.
use andri.Common.{
  ℕ, zero, suc, ◌+◌, ◌*◌, ◌%◌, ◌^◌, none, some, List, [], ◌∷◌, ◌++◌, replicate, ltb, leb, ◌&&◌, not,
  Bool, true, false, if◌then◌else◌, add64,
}
use mathlib.Core.Option
use andri.Io.{IoError, IoResult, ok, err}
use andri.Float.{Float}
use andri.Proto.Messages.{Negotiate}
use andri.Meter.Fill.{fill_random}
use andri.Udp.Header.{packet_size, stamp}

abbrev pub ticks_per_sec : ℕ
ticks_per_sec = 1000

-- One round: `t0.elapsed()` at the loop's test, before each datagram of the burst and at the
-- report, and what the socket answers to each datagram of the burst, in nanoseconds.
pub record Round : Type 0 where
  pub checked : ℕ
  pub clock : ℕ → ℕ
  pub answer : ℕ → IoResult (Unit {0})
  pub reported : ℕ

-- The number of the next datagram, the buffer, and the datagrams handed to the socket so far.
pub record Burst : Type 0 where
  pub seq : ℕ  -- u64
  pub buf : List ℕ
  pub sent : List (List ℕ)

pub data Sent : Type 0 where
  sent_all : Burst → Sent
  failed : IoError → Sent
  -- `stamp` on a buffer shorter than the header.
  panicked : Sent

abbrev pub answered : IoResult (Unit {0}) → Sent → Sent
answered (ok u) rest = rest
answered (err e) rest = failed e

-- `while to_send > 0`, at the `i`-th datagram of the burst. `send_ns` is truncated to u64.
unfoldable pub send_burst : Round → ℕ → ℕ → Burst → Sent
unfolding stamp
send_burst r i zero b = sent_all b
send_burst r i (suc to_send) b = elim (stamp b.buf b.seq (r.clock i % 2 ^ 64)) [
  | none ↦ panicked
  | some out ↦ answered (r.answer i) (
      send_burst r (suc i) to_send
        (record { seq = add64 b.seq 1; buf = out; sent = b.sent ++ (out ∷ []) }))
]

module _ (fl : Float) where
  open fl use {F, of_u64, add, sub, mul, div, floor, to_u64}

  unfoldable pub packets_per_tick : ℕ → ℕ → ℕ → F
  packets_per_tick bitrate packet_bytes ticks =
      let bits_per_packet = mul (of_u64 packet_bytes) (of_u64 8) in
      div (div (of_u64 bitrate) bits_per_packet) (of_u64 ticks)

  -- The variables that the loop of `drive` changes; `next_report` is in nanoseconds.
  pub record Sender : Type 0 where
    pub burst : Burst
    pub carry : F
    pub next_report : ℕ
    pub last_packets : ℕ

  pub data Driven : Type 0 where
    -- The time is over: `Ok(())`, with the last state.
    finished : Sender → Driven
    -- The loop waits for its next round.
    running : Sender → Driven
    send_failed : IoError → Driven
    panic : Driven

  -- The fractional packets carried from round to round; what is due now is sent.
  abbrev pub due : F → F → ℕ
  due ppt carry = to_u64 (floor (add carry ppt))

  abbrev pub carried : F → F → F
  carried ppt carry = sub (add carry ppt) (of_u64 (due ppt carry))

  -- The report at the end of a round, once a second, unless `quiet`.
  abbrev pub reported : Bool → Round → Sender → Sender
  reported quiet r st =
      if not quiet && leb st.next_report r.reported
      then record st { last_packets = (st.burst).seq; next_report = st.next_report + 1000000000 }
      else st

  abbrev pub after_burst : Sent → (Burst → Driven) → Driven
  after_burst (sent_all b) next = next b
  after_burst (failed e) next = send_failed e
  after_burst panicked next = panic

  unfoldable pub drive_loop : ℕ → F → Bool → Sender → List Round → Driven
  drive_loop total ppt quiet st [] = running st
  drive_loop total ppt quiet st (r ∷ rest) = elim (ltb r.checked total) [
    | false ↦ finished st
    | true ↦ after_burst (send_burst r 0 (due ppt st.carry) st.burst) (λ b.
        drive_loop total ppt quiet
          (reported quiet r (record st { burst = b; carry = carried ppt st.carry })) rest)
  ]

  -- The loop's variables before the first round, with the buffer filled from the seed.
  unfoldable pub new_sender : ℕ → ℕ → Sender
  new_sender packet_bytes server_seed = record {
    burst = record { seq = 0; buf = fill_random (replicate packet_bytes 0) server_seed; sent = [] };
    carry = of_u64 0;
    next_report = 1000000000;
    last_packets = 0;
  }

  unfoldable pub drive : ℕ → Negotiate → Bool → List Round → Driven
  drive server_seed neg quiet rounds =
      let packet_bytes = packet_size neg in
      let bitrate = Option.get_or neg.bitrate_bps 1000000000 in
      let total = add64 neg.duration_secs neg.warmup_secs * 1000000000 in
      drive_loop total (packets_per_tick bitrate packet_bytes ticks_per_sec) quiet
        (new_sender packet_bytes server_seed) rounds
