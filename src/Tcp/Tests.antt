-- ===== src/Tcp/Tests.antt =====
-- Runs of the TCP mode, and each theorem about it at a concrete input.
use andri.Common.{
  ℕ, ◌-◌, ◌*◌, ◌≡◌, refl, none, some, List, [], ◌∷◌, ◌++◌, arith, replicate, false, true, ◌==◌,
  if◌then◌else◌,
}
use mathlib.Core.Option
use andri.Io.{ErrorKind, IoError, IoResult, ok, err}
use andri.FloatModel.{whole}
use andri.Float.{as_secs_f64}
use andri.Proto.Messages.{Mode, Negotiate, Sample, TestResult}
use andri.Meter.Counter.{new, add, get, total, total_from}
use andri.Meter.Sampler.{run_sampler, sampler_loop, on_tick}
use andri.Tcp.Serve.{
  Event, read, sampling, tick, warm, stop, run, step, on_read, recv, sum_bytes, start, accept_all,
  series, serve,
}
use andri.Tcp.ServeLaws.{arrived}
use andri.Tcp.Report.{warmed, stopped, serve_steady, serve_early}
use andri.Tcp.DriveEnd.{drive_error}
use andri.Tcp.Drive.{
  drive, connect_all, spawn_all, all_ended, write_loop, Link, Round, send_loop, finished,
}
use andri.Tcp.DriveLaws.{payload, copies, send_loop_ends}

-- Two streams, one second of warm-up and one of measurement.
abbrev pub neg : Negotiate
neg = record {
  mode = Mode.tcp;
  duration_secs = 1;
  warmup_secs = 1;
  parallel = 2;
  buffer_bytes = 4;
  bidir = false;
  bitrate_bps = none;
  packet_bytes = none;
  file_len = none;
  null_source = none;
}

abbrev pub second : ℕ
second = 1000000000

abbrev pub accepted : List (IoResult (Unit {0}))
accepted = replicate 2 (ok tt)

pub two_accepted : accept_all 2 accepted ≡ some (ok tt)
unfolding accept_all
two_accepted = refl

-- The slow start, the window with the end of one stream, and what comes after the stop.
abbrev pub slow_start : List Event
slow_start = sampling ∷ read 0 (ok 100) ∷ read 1 (ok 50) ∷ []

abbrev pub in_window : List Event
in_window = tick second ∷ read 1 (ok 70) ∷ read 0 (ok 0) ∷ read 1 (ok 30) ∷ []

abbrev pub afterwards : List Event
afterwards = read 1 (ok 5) ∷ tick (2 * second) ∷ []

abbrev pub steady : List Event
steady = slow_start ++ (warm second ∷ (in_window ++ (stop (2 * second) ∷ afterwards)))

abbrev early : List Event
early = slow_start ++ (stop (2 * second) ∷ (in_window ++ (warm (2 * second) ∷ afterwards)))

-- The series that the sampler gives over a run.
abbrev pub samples_over : List Event → List (Sample ℕ)
samples_over events =
    let st = run (start 2) events in
    Option.get_or (series whole 0 (2 * second) st.first st.ticks) []

pub steady_ends :
    let st = run (start 2) steady in
    series whole 0 (2 * second) st.first st.ticks ≡ some (samples_over steady)
unfolding run step on_read recv sum_bytes start total total_from get add new run_sampler
    sampler_loop on_tick
steady_ends = refl

early_ends :
    let st = run (start 2) early in
    series whole 0 (2 * second) st.first st.ticks ≡ some (samples_over early)
unfolding run step on_read recv sum_bytes start total total_from get add new run_sampler
    sampler_loop on_tick
early_ends = refl

-- 150 bytes come in the warm-up; the result has the 100 bytes of the window.
pub slow_start_bytes : sum_bytes (run (start 2) slow_start).streams ≡ 150
unfolding run step on_read recv sum_bytes start total total_from get add new run_sampler
    sampler_loop on_tick
slow_start_bytes = refl

pub window_bytes : arrived (warmed 2 slow_start second) in_window ≡ 100
unfolding run step on_read recv sum_bytes start total total_from get add new run_sampler
    sampler_loop on_tick
window_bytes = refl

early_bytes : arrived (stopped 2 slow_start (2 * second)) in_window ≡ 100
unfolding run step on_read recv sum_bytes start total total_from get add new run_sampler
    sampler_loop on_tick
early_bytes = refl

serve_steady_example :
    (r : TestResult ℕ) × (serve whole neg 0 accepted steady ≡ some (ok r))
    × (r.bytes ≡ arrived (warmed 2 slow_start second) in_window)
    × (r.duration_secs ≡ as_secs_f64 whole (2 * second - second))
    × (r.samples ≡ samples_over steady)
serve_steady_example =
    serve_steady whole neg 0 second (2 * second) accepted slow_start in_window afterwards
      (samples_over steady) two_accepted tt tt (omega (arith, slow_start_bytes, window_bytes))
      steady_ends

serve_early_example :
    (r : TestResult ℕ) × (serve whole neg 0 accepted early ≡ some (ok r))
    × (r.bytes ≡ 0)
    × (r.duration_secs ≡ as_secs_f64 whole 0)
    × (r.samples ≡ samples_over early)
serve_early_example =
    serve_early whole neg 0 (2 * second) (2 * second) accepted slow_start in_window afterwards
      (samples_over early) two_accepted tt tt (omega arith)
      (omega (arith, slow_start_bytes, early_bytes)) early_ends

abbrev rounds : List Round
rounds = (10, ok tt) ∷ (20, ok tt) ∷ []

send_loop_ends_example :
    (c : ℕ) × (send_loop 30 7 4 (rounds ++ ((30, ok tt) ∷ [])) (ok tt)
      ≡ finished c (copies 2 (payload 7 4)))
send_loop_ends_example =
    send_loop_ends 30 7 4 rounds (30, ok tt) [] (omega arith, (omega arith, tt)) (omega arith)

abbrev refused : IoError
refused = IoError.new ErrorKind.other "connection refused"

-- The second of the two connections fails.
abbrev one_refused : ℕ → IoResult (Unit {0})
one_refused i = if i == 1 then err refused else ok tt

abbrev links : ℕ → Link
links i = record { rounds = (10, ok tt) ∷ (2 * second, ok tt) ∷ []; flushed = ok tt }

refused_error : drive whole 7 neg true 0 one_refused links 0 [] ≡ some (err refused)
unfolding drive connect_all
refused_error = refl

drive_error_example : connect_all 2 one_refused 0 ≡ err refused
drive_error_example = drive_error whole 7 neg true 0 0 one_refused links [] refused refused_error

-- The first stream's connection breaks, and the sender still ends well.
abbrev broken : ℕ → Link
broken i = record {
  rounds = (10, if i == 0 then err refused else ok tt) ∷ (2 * second, ok tt) ∷ [];
  flushed = ok tt;
}

broken_ends_well : drive whole 7 neg true 0 (λ i. ok tt) broken 0 [] ≡ some (ok tt)
unfolding drive connect_all spawn_all all_ended send_loop write_loop
broken_ends_well = refl
