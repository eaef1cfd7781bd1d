-- ===== src/Udp/Serve.antt =====
-- `serve` of src/modes/udp.rs. `tokio::select!` picks one ready branch at a time: the order in
-- which the branches fire, the clock readings and the datagrams are a list of events. Instants
-- are nanoseconds of the monotonic clock. The live readout on stderr is left out.
use andri.Common.{
  ℕ, ◌-◌, ◌/◌, Option, none, some, List, [], ◌∷◌, ◌++◌, length, max, leb, ◌&&◌, is_none,
  if◌then◌else◌, u64, mul64, saturating_sub,
}
use mathlib.Core.Option
use andri.Io.{IoError, IoResult, ok, err}
use andri.Float.{Float, as_secs_f64}
use andri.Proto.Messages.{Negotiate, Sample, TestResult}
use andri.Udp.Header.{packet_size, unstamp}
use andri.Udp.LossJitter.{LossJitter, Snapshot, new, observe, snapshot, into_result}

pub data Event : Type 0 where
  -- The `stop` future resolved, and the clock when the result is computed.
  stop : ℕ → Event
  -- The one-second ticker, and the clock.
  tick : ℕ → Event
  -- `recv_from` gave a datagram; the clock at `t0.elapsed()`, and again at `Instant::now()`.
  datagram : List ℕ → ℕ → ℕ → Event
  recv_failed : IoError → Event

abbrev pub warmup_threshold : Negotiate → ℕ
warmup_threshold neg =
    let bits_per_packet = mul64 (packet_size neg) 8 in
    let pps = Option.get_or neg.bitrate_bps 0 / max bits_per_packet 1 in mul64 pps neg.warmup_secs

module _ (fl : Float) where
  open fl use {F, of_u64, mul, div, lt}

  pub record Receiver : Type 0 where
    pub acc : LossJitter F
    pub measure_start : Option ℕ
    pub samples : List (Sample F)
    pub last : Snapshot F
    pub last_t : ℕ

  unfoldable pub on_tick : ℕ → Receiver → ℕ → Receiver
  on_tick t0 st now =
      let cur = snapshot fl st.acc in
      let interval_bytes = saturating_sub cur.bytes (st.last).bytes in
      let interval_lost = saturating_sub cur.lost (st.last).lost in
      let secs = as_secs_f64 fl (now - st.last_t) in
      let bps =
        if lt (of_u64 0) secs
        then div (mul (of_u64 interval_bytes) (of_u64 8)) secs
        else of_u64 0 in
      record st {
        samples =
            st.samples
            ++ (record {
              t_secs = as_secs_f64 fl (now - t0);
              bytes = interval_bytes;
              bits_per_sec = bps;
              packets_lost = some interval_lost;
              jitter_ms = some cur.jitter_ms;
            }
                ∷ []);
        last = cur;
        last_t = now;
      }

  -- What a datagram with a header does; one without is skipped by `continue`.
  abbrev pub on_stamped : ℕ → Receiver → ℕ → ℕ → ℕ → Option (ℕ × ℕ) → Receiver
  on_stamped t0 st n now start_at none = st
  on_stamped t0 st n now start_at (some (seq, send_ns)) = record st {
    acc =
        observe fl st.acc
          (record { seq = seq; send_ns = send_ns; recv_ns = u64 (now - t0); n = u64 n });
    measure_start =
        if leb (st.acc).warmup_packets seq && is_none st.measure_start
        then some start_at
        else st.measure_start;
  }

  unfoldable pub on_datagram : ℕ → Receiver → List ℕ → ℕ → ℕ → Receiver
  on_datagram t0 st bytes now start_at =
      on_stamped t0 st (length bytes) now start_at (unstamp bytes)

  unfoldable pub start : Negotiate → ℕ → Receiver
  start neg t0 =
      let acc = new fl (warmup_threshold neg) in
      record { acc = acc; measure_start = none; samples = []; last = snapshot fl acc; last_t = t0 }

  -- The time since the first datagram in the window, 0.0 if there was none.
  abbrev pub measured_secs : Option ℕ → ℕ → F
  measured_secs none end = of_u64 0
  measured_secs (some s) end = as_secs_f64 fl (end - s)

  unfoldable pub finish : Receiver → ℕ → TestResult F
  finish st end =
      let r = into_result fl st.acc (measured_secs st.measure_start end) in
      record r { samples = st.samples }

  -- `none`: the loop still waits for an event.
  unfoldable pub serve_loop : ℕ → Receiver → List Event → Option (IoResult (TestResult F))
  serve_loop t0 st [] = none
  serve_loop t0 st (stop end ∷ rest) = some (ok (finish st end))
  serve_loop t0 st (tick now ∷ rest) = serve_loop t0 (on_tick t0 st now) rest
  serve_loop t0 st (datagram bytes now start_at ∷ rest) =
      serve_loop t0 (on_datagram t0 st bytes now start_at) rest
  serve_loop t0 st (recv_failed e ∷ rest) = some (err e)

  unfoldable pub serve : Negotiate → ℕ → List Event → Option (IoResult (TestResult F))
  serve neg t0 events = serve_loop t0 (start neg t0) events
