-- ===== src/File/Serve.antt =====
-- `serve` and `sample_until_done` of src/modes/file.rs. A read of the data stream is given by how
-- many bytes are ready for it, 0 at the end of the stream; it takes at most what it asked for.
use andri.Common.{
  ℕ, ◌-◌, ◌*◌, Option, none, some, List, [], ◌∷◌, ◌++◌, true, false, min, ltb, leb, ◌==◌,
  if◌then◌else◌, add64, saturating_sub,
}
use mathlib.Core.Option
use andri.Io.{IoError, IoResult, ok, err}
use andri.Float.{Float, as_secs_f64}
use andri.Proto.Messages.{Negotiate, RoleDir, Sample, TestResult}
use andri.Meter.Counter.{bits_per_sec}
use andri.Meter.Sampler.{Tick}

abbrev pub buf_len : ℕ
buf_len = 256 * 1024

pub data Received : Type 0 where
  -- The loop has ended with this many bytes.
  done : ℕ → Received
  failed : IoError → Received
  -- It waits for its next read.
  waiting : ℕ → Received

-- `while received < expected`, over the reads to come.
unfoldable pub receive : ℕ → ℕ → List (IoResult ℕ) → Received
receive expected received [] = if ltb received expected then waiting received else done received
receive expected received (ready ∷ rest) = elim (ltb received expected) [
  | false ↦ done received
  | true ↦ elim ready [
    | err e ↦ failed e
    | ok available ↦ elim (min available (min (expected - received) buf_len) == 0) [
      | true ↦ done received
      | false ↦
          receive expected (add64 received (min available (min (expected - received) buf_len))) rest
    ]
  ]
]

module _ (fl : Float) where
  open fl use {F, of_u64, mul, div, lt}

  pub record Series : Type 0 where
    pub samples : List (Sample F)
    pub last_bytes : ℕ
    pub last_t : ℕ

  unfoldable pub on_tick : ℕ → Series → Tick → Series
  on_tick t0 st tick =
      let interval = saturating_sub tick.cur st.last_bytes in
      let secs = as_secs_f64 fl (tick.now - st.last_t) in
      let bps =
        if lt (of_u64 0) secs then div (mul (of_u64 interval) (of_u64 8)) secs else of_u64 0 in
      record {
        samples =
            st.samples
            ++ (record {
              t_secs = as_secs_f64 fl (tick.now - t0);
              bytes = interval;
              bits_per_sec = bps;
              packets_lost = none;
              jitter_ms = none;
            }
                ∷ []);
        last_bytes = tick.cur;
        last_t = tick.now;
      }

  -- `none`: the sampler waits for its next tick.
  unfoldable pub sample_loop : ℕ → ℕ → Series → List Tick → Option (List (Sample F))
  sample_loop t0 expected st [] = none
  sample_loop t0 expected st (tick ∷ rest) = elim (leb expected tick.cur) [
    | true ↦ some (on_tick t0 st tick).samples
    | false ↦ sample_loop t0 expected (on_tick t0 st tick) rest
  ]

  unfoldable pub sample_until_done : ℕ → ℕ → List Tick → Option (List (Sample F))
  sample_until_done t0 expected ticks =
      sample_loop t0 expected (record { samples = []; last_bytes = 0; last_t = t0 }) ticks

  unfoldable pub report : ℕ → F → List (Sample F) → TestResult F
  report received secs samples = record {
    role = RoleDir.receive;
    bytes = received;
    duration_secs = secs;
    bits_per_sec = bits_per_sec fl received secs;
    bytes_per_sec = if lt (of_u64 0) secs then div (of_u64 received) secs else of_u64 0;
    packets_expected = none;
    packets_received = none;
    packets_lost = none;
    loss_ratio = none;
    jitter_ms = none;
    samples = samples;
  }

  -- After the receive loop the report waits for the sampler, which runs beside it.
  abbrev pub after_receive : ℕ → ℕ → ℕ → List Tick → Received → Option (IoResult (TestResult F))
  after_receive t0 end expected ticks (waiting n) = none
  after_receive t0 end expected ticks (failed e) = some (err e)
  after_receive t0 end expected ticks (done received) =
      Option.map (λ samples. ok (report received (as_secs_f64 fl (end - t0)) samples))
        (sample_until_done t0 expected ticks)

  -- `?` on accepting the data connection.
  abbrev pub on_accept :
      IoResult (Unit {0}) → Option (IoResult (TestResult F)) → Option (IoResult (TestResult F))
  on_accept (ok u) r = r
  on_accept (err e) r = some (err e)

  -- `none`: the server is still waiting for a read or a tick. `end` is the clock at the end of the
  -- receive loop; the ticks carry the counter as the sampler reads it.
  unfoldable pub serve :
      Negotiate
      → IoResult (Unit {0})
      → ℕ
      → ℕ
      → List (IoResult ℕ)
      → List Tick
      → Option (IoResult (TestResult F))
  serve neg accepted t0 end reads ticks =
      let expected = Option.get_or neg.file_len 0 in
      on_accept accepted (after_receive t0 end expected ticks (receive expected 0 reads))
