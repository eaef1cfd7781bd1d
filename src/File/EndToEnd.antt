-- ===== src/File/EndToEnd.antt =====
-- Both ends of the file mode: what the server (`serve` of src/modes/file.rs) answers after the
-- client (`drive`) has written all that it writes.
use andri.Common.{
  ℕ, ◌+◌, ◌-◌, ◌≤◌, ◌<◌, ◌≡◌, ap, some, none, Option, List, [], ◌∷◌, ◌++◌, All, min, ltb, ◌==◌,
  arith, length, add64, IsU64, Bool-cases, inl, inr, false, if◌then◌else◌,
}
use andri.Io.{IoResult, ok, err}
use andri.Float.{Float, as_secs_f64}
use andri.Proto.Messages.{Negotiate, TestResult}
use andri.Meter.Sampler.{Tick}
use andri.Meter.Counter.{bits_per_sec}
use andri.File.Serve.{done, receive, buf_len, serve}
use andri.File.Content.{Copies, drive_disk_shrunk}
use andri.File.Drive.{finished, DiskRound, drive}
use andri.File.Stall.{expected_len, serve_stalls}
use andri.Meter.SamplerLaws.{sum_bytes}

-- A stream on which `written` bytes were sent before it was closed, from the byte `received` on: a
-- read finds some of the bytes that are left, and the end of the stream only after all of them.
abbrev pub Carries : ℕ → ℕ → ℕ → List (IoResult ℕ) → Type 0
Carries written expected received [] = Unit
Carries written expected received (err e ∷ rest) = ⊥
Carries written expected received (ok available ∷ rest) =
    (available ≤ written - received)
    × (available ≡ 0 → written ≤ received)
    × Carries written expected (received + min available (min (expected - received) buf_len)) rest

-- The receiver counts all that was written, up to the negotiated length.
receive-Carries :
    (written expected received : ℕ) (reads : List (IoResult ℕ))
    → IsU64 expected
    → received ≤ expected
    → received ≤ written
    → Carries written expected received reads
    → written - received < length reads
    → receive expected received reads ≡ done (min written expected)
unfolding receive
receive-Carries written expected received [] small le some_left h enough = ground arith
receive-Carries written expected received (err e ∷ rest) small le some_left h enough = absurd h
receive-Carries written expected received (ok available ∷ rest) small le some_left (fit, last, h)
      enough =
    elim (Bool-cases (ltb received expected)) [
      | inr over ↦
          let same : received ≡ min written expected = ground arith in
          rw (over, receive) (ap done same)
      | inl more ↦
          let n = min available (min (expected - received) buf_len) in
          let lt : received < expected = ground arith in
          elim (Bool-cases (n == 0)) [
            | inl none_left ↦
                let eof : available ≡ 0 = ground arith in
                let same : received ≡ min written expected = omega (arith, last eof) in
                rw (more, none_left, receive) (ap done same)
            | inr one_left ↦
                let pos : 0 < n = ground arith in
                let sum : add64 received n ≡ received + n = omega arith in
                rw (more, one_left, receive, sum)
                  (receive-Carries written expected (received + n) rest small (omega arith)
                    (omega arith) h (omega arith))
          ]
    ]

module _ (fl : Float) where
  -- The answer to a complete transfer: the negotiated length, the duration, the rate that these
  -- give, no packets, and samples that add up to the counter at the last tick.
  abbrev pub Completes : ℕ → ℕ → Tick → Option (IoResult (TestResult fl.F)) → Type 0
  Completes expected duration final answer =
      (r : TestResult fl.F) × (answer ≡ some (ok r))
      × (r.bytes ≡ expected)
      × (r.duration_secs ≡ as_secs_f64 fl duration)
      × (r.bits_per_sec ≡ (
          if fl.le (as_secs_f64 fl duration) (fl.of_u64 0)
          then fl.of_u64 0
          else fl.div (fl.mul (fl.of_u64 expected) (fl.of_u64 8)) (as_secs_f64 fl duration)))
      × (r.packets_lost ≡ none)
      × (sum_bytes r.samples ≡ final.cur)

  -- A file that has become shorter than negotiated, over the same connection: the client sends all
  -- of it and goes on without an error, and the server, which has counted every byte, does not
  -- answer, however many ticks come that read no more than was sent.
  pub drive-serve_stalls :
      (server_seed : ℕ) (neg : Negotiate) (content : List ℕ) (answers : List (IoResult (Unit {0})))
      (rounds later : List DiskRound) (answer : IoResult (Unit {0})) (t0 end : ℕ)
      (reads : List (IoResult ℕ)) (ticks : List Tick)
      → IsU64 (expected_len neg)
      → length content < expected_len neg
      → Copies content rounds
      → Carries (length content) (expected_len neg) 0 reads
      → length content < length reads
      → All (λ tick. tick.cur ≤ length content) ticks
      → (drive server_seed neg
            (some (ok tt))
            false
            (ok tt)
            answers
            (rounds ++ ((ok [], answer) ∷ later))
            (ok tt)
          ≡ finished (length content) content)
        × (serve fl neg (ok tt) t0 end reads ticks ≡ none)
  drive-serve_stalls server_seed neg content answers rounds later answer t0 end reads ticks small
        short copied carried enough seen =
      let all =
        receive-Carries (length content) (expected_len neg) 0 reads small (omega arith)
          (omega arith) carried (omega arith) in
      let same : min (length content) (expected_len neg) ≡ length content = omega arith in
      (
        drive_disk_shrunk server_seed neg content answers rounds later answer small short copied,
        serve_stalls fl neg t0 end reads ticks (length content) (rw same at all) short seen,
      )
