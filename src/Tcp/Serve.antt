-- ===== src/Tcp/Serve.antt =====
-- `serve` and `recv_loop` of src/modes/tcp.rs. The tasks of the streams, the sampler, the warm-up
-- task and the stop future run side by side: what they do, in the order in which they do it, is a
-- list of events. Instants are nanoseconds of the monotonic clock.
use andri.Common.{
  ℕ, zero, suc, ◌-◌, ◌*◌, Option, none, some, List, [], ◌∷◌, ◌++◌, Bool, true, false, min, add64,
  ◌==◌, if◌then◌else◌, not, replicate, saturating_sub,
}
use andri.Io.{IoResult, ok, err}
use andri.Float.{Float, as_secs_f64}
use andri.Proto.Messages.{Negotiate, RoleDir, Sample, TestResult}
use andri.Meter.Counter
use andri.Meter.Counter.{Counter, total, bits_per_sec}
use andri.Meter.Sampler.{Tick, run_sampler}

abbrev pub read_buf : ℕ
read_buf = 256 * 1024

-- A data connection: its counter, and whether its receive loop still runs.
pub record Stream : Type 0 where
  pub counter : Counter
  pub reading : Bool

-- What one read adds: it takes at most the buffer of what is ready, and nothing at the end.
abbrev pub read_len : Stream → IoResult ℕ → ℕ
read_len s (err e) = 0
read_len s (ok available) = if s.reading then min available read_buf else 0

-- One round of `recv_loop`; the loop ends at the end of the stream and on an error.
unfoldable pub recv : Stream → IoResult ℕ → Stream
recv s (err e) = record s { reading = false }
recv s (ok available) =
    if not s.reading
    then s
    else if min available read_buf == 0
    then record s { reading = false }
    else record s { counter = Counter.add s.counter (min available read_buf) }

-- The round of the `i`-th stream.
unfoldable pub on_read : ℕ → IoResult ℕ → List Stream → List Stream
on_read i answer [] = []
on_read zero answer (s ∷ rest) = recv s answer ∷ rest
on_read (suc i) answer (s ∷ rest) = s ∷ on_read i answer rest

abbrev pub counters : List Stream → List Counter
counters [] = []
counters (s ∷ rest) = s.counter ∷ counters rest

unfoldable pub sum_bytes : List Stream → ℕ
sum_bytes streams = total (counters streams)

pub data Event : Type 0 where
  read : ℕ → IoResult ℕ → Event
  -- The sampler takes its first total.
  sampling : Event
  -- A later tick of the sampler, and the clock.
  tick : ℕ → Event
  -- The sleep of the warm-up task is over, and the clock when it takes its snapshot.
  warm : ℕ → Event
  -- The control side has read a message, and the clock at the final snapshot.
  stop : ℕ → Event

pub record Receiver : Type 0 where
  pub streams : List Stream
  pub first : Option ℕ
  pub ticks : List Tick
  pub warmup : Option (ℕ × ℕ)
  pub final : Option (ℕ × ℕ)

-- A snapshot is taken once.
abbrev pub once : {A : Type 0} → Option A → A → Option A
once none a = some a
once (some b) a = some b

-- Aborting the receivers acts at their next read: until then they may go on counting.
unfoldable pub step : Receiver → Event → Receiver
step st (read i answer) = record st { streams = on_read i answer st.streams }
step st sampling = record st { first = once st.first (sum_bytes st.streams) }
step st (tick now) = record st {
  ticks = st.ticks ++ (record { now = now; cur = sum_bytes st.streams } ∷ []);
}
step st (warm now) = record st { warmup = once st.warmup (sum_bytes st.streams, now) }
step st (stop now) = record st { final = once st.final (sum_bytes st.streams, now) }

unfoldable pub run : Receiver → List Event → Receiver
run st [] = st
run st (e ∷ rest) = run (step st e) rest

-- `parallel` connections are accepted; `none` while one is missing.
unfoldable pub accept_all : ℕ → List (IoResult (Unit {0})) → Option (IoResult (Unit {0}))
accept_all zero answers = some (ok tt)
accept_all (suc n) [] = none
accept_all (suc n) (ok u ∷ rest) = accept_all n rest
accept_all (suc n) (err e ∷ rest) = some (err e)

unfoldable pub start : ℕ → Receiver
start parallel = record {
  streams = replicate parallel (record { counter = Counter.new; reading = true });
  first = none;
  ticks = [];
  warmup = none;
  final = none;
}

module _ (fl : Float) where
  open fl use {F, of_u64, div, lt}

  unfoldable pub report : ℕ × ℕ → ℕ × ℕ → List (Sample F) → TestResult F
  report (final_bytes, final_at) (warmup_bytes, warmup_at) samples =
      let bytes = saturating_sub final_bytes warmup_bytes in
      let secs = as_secs_f64 fl (final_at - warmup_at) in
      record {
        role = RoleDir.receive;
        bytes = bytes;
        duration_secs = secs;
        bits_per_sec = bits_per_sec fl bytes secs;
        bytes_per_sec = if lt (of_u64 0) secs then div (of_u64 bytes) secs else of_u64 0;
        packets_expected = none;
        packets_received = none;
        packets_lost = none;
        loss_ratio = none;
        jitter_ms = none;
        samples = samples;
      }

  -- The sampler's series, once it has started and ended.
  abbrev pub series : ℕ → ℕ → Option ℕ → List Tick → Option (List (Sample F))
  series t0 window none ticks = none
  series t0 window (some first) ticks = run_sampler fl first t0 window ticks

  -- The result needs the stop, then the sampler and the warm-up task.
  abbrev pub finish :
      Option (ℕ × ℕ) → Option (List (Sample F)) → Option (ℕ × ℕ) → Option (TestResult F)
  finish (some final) (some samples) (some warmup) = some (report final warmup samples)
  finish _ _ _ = none

  abbrev pub after_accept :
      Option (IoResult (Unit {0})) → Option (TestResult F) → Option (IoResult (TestResult F))
  after_accept none r = none
  after_accept (some (err e)) r = some (err e)
  after_accept (some (ok u)) none = none
  after_accept (some (ok u)) (some r) = some (ok r)

  -- `none`: it still waits for a connection or an event.
  unfoldable pub serve :
      Negotiate → ℕ → List (IoResult (Unit {0})) → List Event → Option (IoResult (TestResult F))
  serve neg t0 accepted events =
      let window = add64 neg.duration_secs neg.warmup_secs * 1000000000 in
      let st = run (start neg.parallel) events in
      after_accept (accept_all neg.parallel accepted)
        (finish st.final (series t0 window st.first st.ticks) st.warmup)
