-- ===== src/Tcp/EndToEnd/Tests.antt =====
-- One run of both ends of the TCP mode: two streams, of 160 bytes each and a write that fails.
use andri.Common.{
  ℕ, zero, suc, ◌+◌, ◌*◌, ◌≤◌, ◌≡◌, some, List, [], ◌∷◌, ◌++◌, arith, replicate, IsU64,
}
use andri.Io.{ErrorKind, IoError, ok, err}
use andri.FloatModel.{whole}
use andri.Bytes.{to_le}
use andri.Proto.Messages.{TestResult}
use andri.Meter.Counter.{new, add}
use andri.Meter.Fill.{fill_random, fill_chunks}
use andri.Tcp.Serve.{warm, run, step, on_read, recv, sum_bytes, start, serve}
use andri.Tcp.Bounded.{Carried, sum_to}
use andri.Tcp.Drive.{Link, Sent, spawn_all, send_loop, write_loop}
use andri.Tcp.EndToEnd.{written, drive-serve_bounded}
use andri.Tcp.Tests.{
  neg, second, accepted, two_accepted, slow_start, in_window, afterwards, steady, samples_over,
  steady_ends, slow_start_bytes, window_bytes,
}

abbrev broken : IoError
broken = IoError.new ErrorKind.other "broken pipe"

-- The first stream runs to the end of the test, and a write of the other one fails.
abbrev links : ℕ → Link
links zero = record {
  rounds = replicate 40 (10, ok tt) ++ ((2 * second, ok tt) ∷ []);
  flushed = ok tt;
}
links (suc i) = record {
  rounds = replicate 40 (10, ok tt) ++ ((10, err broken) ∷ []);
  flushed = ok tt;
}

abbrev tasks : List Sent
tasks = spawn_all 7 (2 * second) neg links 2 0

small : (j : ℕ) → IsU64 (written 4 tasks j)
unfolding spawn_all send_loop write_loop fill_random fill_chunks to_le
small zero = omega arith
small (suc zero) = omega arith
small (suc (suc j)) = omega arith

carried : Carried (written 4 tasks) (start 2) (slow_start ++ (warm second ∷ in_window))
unfolding spawn_all send_loop write_loop fill_random fill_chunks to_le run step on_read recv start
    new add
carried = (omega arith, (omega arith, (omega arith, (omega arith, (omega arith, tt)))))

drive-serve_bounded_example :
    (r : TestResult ℕ) × (writes : ℕ) × (serve whole neg 0 accepted steady ≡ some (ok r))
    × (sum_bytes (run (start 2) slow_start).streams + r.bytes ≤ sum_to 2 (written 4 tasks))
    × (sum_to 2 (written 4 tasks) ≡ writes * 4)
drive-serve_bounded_example =
    drive-serve_bounded whole neg 7 (2 * second) links 0 second (2 * second) accepted slow_start
      in_window afterwards (samples_over steady) (small, carried) two_accepted tt tt
      (omega (arith, slow_start_bytes, window_bytes)) steady_ends
