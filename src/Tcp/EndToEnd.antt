-- ===== src/Tcp/EndToEnd.antt =====
-- Both ends of the TCP mode: what the server (`serve` of src/modes/tcp.rs) reports, against what the
-- streams of the client (`drive`) wrote.
mod Tests
use andri.Common.{
  ℕ, zero, suc, ◌+◌, ◌-◌, ◌*◌, ◌^◌, ◌≤◌, ◌<◌, ◌≡◌, refl, sym, ap, ◌∙◌, subst, some, List, [], ◌∷◌,
  ◌++◌, arith, add64, IsU64, length, length-append, length-replicate, replicate,
}
use andri.Io.{IoResult, ok}
use andri.Float.{Float}
use andri.Proto.Messages.{Negotiate, Sample, TestResult}
use andri.Meter.FillLaws.{length-fill_random}
use andri.Tcp.Serve.{
  sum_bytes, Event, warm, stop, Receiver, step, run, start, accept_all, series, serve,
}
use andri.Tcp.ServeLaws.{arrived, sum_bytes-run}
use andri.Tcp.Bounded.{Carried, sum_to, sum_bytes_bounded}
use andri.Tcp.Report.{Quiet, warmed, run-append, serve_steady}
use andri.Tcp.Drive.{stream_seed, Sent, finished, running, failed, Link, spawn_all, send_loop}
use andri.Tcp.DriveLaws.{copies, payload, WholeBuffers, send_loop-WholeBuffers}

-- The bytes that a stream has handed to its connection in buffers of `size`, and that may arrive: of
-- a stream that has failed, also those of the write that failed, of which any part may be sent, and
-- of one that still runs, those of a write that may be under way.
abbrev pub wrote : ℕ → Sent → ℕ
wrote size (finished c out) = length out
wrote size (running c out) = length out + size
wrote size (failed e c out) = length out

-- The same for the `i`-th stream.
abbrev pub written : ℕ → List Sent → ℕ → ℕ
written size [] i = 0
written size (t ∷ ts) zero = wrote size t
written size (t ∷ ts) (suc i) = written size ts i

pub length-copies : (k : ℕ) (buf : List ℕ) → length (copies k buf) ≡ k * length buf
length-copies zero buf = omega arith
length-copies (suc k) buf =
    let rest = length-copies k buf in
    let grown = length-append (copies k buf) buf in omega (arith, grown, rest)

pub length-payload : (seed buffer_bytes : ℕ) → length (payload seed buffer_bytes) ≡ buffer_bytes
length-payload seed buffer_bytes =
    (length-fill_random (replicate buffer_bytes 0) seed).0 ∙ length-replicate {A = ℕ} buffer_bytes 0

wrote-WholeBuffers :
    (buf : List ℕ) (t : Sent)
    → WholeBuffers buf t
    → (k : ℕ) × (wrote (length buf) t ≡ k * length buf)
wrote-WholeBuffers buf (finished c out) (k, e, _) = (k, ap length e ∙ length-copies k buf)
wrote-WholeBuffers buf (running c out) (k, e, _) =
    (suc k, omega (arith, ap length e, length-copies k buf))
wrote-WholeBuffers buf (failed x c out) (k, j, e, _, _, _) = (k, ap length e ∙ length-copies k buf)

-- The streams together write a number of whole buffers.
sum_to-written :
    (server_seed deadline : ℕ) (neg : Negotiate) (links : ℕ → Link) (n i : ℕ)
    → (k : ℕ) × (sum_to n (written neg.buffer_bytes (spawn_all server_seed deadline neg links n i))
        ≡ k * neg.buffer_bytes)
unfolding spawn_all
sum_to-written server_seed deadline neg links zero i = (0, omega arith)
sum_to-written server_seed deadline neg links (suc n) i =
    let seed = stream_seed server_seed i in
    let t = send_loop deadline seed neg.buffer_bytes (links i).rounds (links i).flushed in
    let one =
      wrote-WholeBuffers (payload seed neg.buffer_bytes) t (
        send_loop-WholeBuffers deadline seed neg.buffer_bytes (links i).rounds (links i).flushed) in
    let full = length-payload seed neg.buffer_bytes in
    let rest = sum_to-written server_seed deadline neg links n (suc i) in
    let first : wrote neg.buffer_bytes t ≡ one.0 * neg.buffer_bytes = rw full at one.1 in
    (one.0 + rest.0, omega (arith, first, rest.1))

module _ (fl : Float) where
  -- The reads of each stream find no more than the client's stream of that number has handed to its
  -- connection, with all of a write that failed or is under way, and the receiver works as in a
  -- steady test: what it reports, together with the bytes counted in the warm-up, is at most what the
  -- streams handed over together, and that is a number of whole buffers of the negotiated size.
  pub drive-serve_bounded :
      (neg : Negotiate) (server_seed deadline : ℕ) (links : ℕ → Link) (t0 w s : ℕ)
      (accepted : List (IoResult (Unit {0}))) (before during after : List Event)
      (samples : List (Sample fl.F))
      → (let tasks = spawn_all server_seed deadline neg links neg.parallel 0 in
          ((j : ℕ) → IsU64 (written neg.buffer_bytes tasks j))
          × Carried
              (written neg.buffer_bytes tasks)
              (start neg.parallel)
              (before ++ (warm w ∷ during)))
      → accept_all neg.parallel accepted ≡ some (ok tt)
      → Quiet before
      → Quiet during
      → sum_bytes (run (start neg.parallel) before).streams
          + arrived (warmed neg.parallel before w) during
        < 2 ^ 64
      → (let st = run (start neg.parallel) (before ++ (warm w ∷ (during ++ (stop s ∷ after)))) in
          series fl t0 (add64 neg.duration_secs neg.warmup_secs * 1000000000) st.first st.ticks
          ≡ some samples)
      → (r : TestResult fl.F) × (writes : ℕ) × (serve fl neg t0 accepted
            (before ++ (warm w ∷ (during ++ (stop s ∷ after))))
          ≡ some (ok r))
        × (sum_bytes (run (start neg.parallel) before).streams + r.bytes
            ≤ sum_to neg.parallel (
                written neg.buffer_bytes (spawn_all server_seed deadline neg links neg.parallel 0)))
        × (sum_to neg.parallel
              (written neg.buffer_bytes (spawn_all server_seed deadline neg links neg.parallel 0))
            ≡ writes * neg.buffer_bytes)
  unfolding step run
  drive-serve_bounded neg server_seed deadline links t0 w s accepted before during after samples
        (small, carried) acc hb hd few ended =
      let tasks = spawn_all server_seed deadline neg links neg.parallel 0 in
      let steady =
        serve_steady fl neg t0 w s accepted before during after samples acc hb hd few ended in
      let buffers = sum_to-written server_seed deadline neg links neg.parallel 0 in
      let bound =
        sum_bytes_bounded (written neg.buffer_bytes tasks) neg.parallel
          (before ++ (warm w ∷ during)) small carried in
      let split : run (start neg.parallel) (before ++ (warm w ∷ during))
          ≡ run (warmed neg.parallel before w) during =
        run-append (start neg.parallel) before (warm w ∷ during) in
      let last = rw split at bound in
      let counted = sum_bytes-run (warmed neg.parallel before w) during in
      (steady.0, buffers.0, steady.1, omega (arith, steady.2, last, counted), buffers.1)
