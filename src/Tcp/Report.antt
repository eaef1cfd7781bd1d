-- ===== src/Tcp/Report.antt =====
-- The result of the TCP receiver (`serve` of src/modes/tcp.rs), over the runs of its tasks.
use andri.Common.{
  ℕ, ◌+◌, ◌-◌, ◌*◌, ◌^◌, ◌≤◌, ◌<◌, ◌≡◌, ap, refl, ◌∙◌, none, some, List, [], ◌∷◌, ◌++◌, arith,
  add64,
}
use andri.Io.{IoResult, ok}
use andri.Float.{Float, as_secs_f64}
use andri.Proto.Messages.{Negotiate, Sample, TestResult}
use andri.Tcp.Serve.{
  sum_bytes, Event, read, sampling, tick, warm, stop, Receiver, step, run, report, start,
  accept_all, series, serve,
}
use andri.Tcp.ServeLaws.{arrived, sum_bytes-run}

-- No snapshot is taken.
abbrev pub Quiet : List Event → Type 0
Quiet [] = Unit
Quiet (warm now ∷ rest) = ⊥
Quiet (stop now ∷ rest) = ⊥
Quiet (_ ∷ rest) = Quiet rest

pub run-append : (st : Receiver) (xs ys : List Event) → run st (xs ++ ys) ≡ run (run st xs) ys
unfolding run
run-append st [] ys = refl
run-append st (x ∷ xs) ys = run-append (step st x) xs ys

run-Quiet :
    (st : Receiver) (events : List Event)
    → Quiet events
    → ((run st events).warmup ≡ st.warmup) × ((run st events).final ≡ st.final)
unfolding run step
run-Quiet st [] h = (refl, refl)
run-Quiet st (read i answer ∷ rest) h = run-Quiet (step st (read i answer)) rest h
run-Quiet st (sampling ∷ rest) h = run-Quiet (step st sampling) rest h
run-Quiet st (tick now ∷ rest) h = run-Quiet (step st (tick now)) rest h
run-Quiet st (warm now ∷ rest) h = absurd h
run-Quiet st (stop now ∷ rest) h = absurd h

-- The first snapshot stays.
run-warmup :
    (st : Receiver) (events : List Event) (snap : ℕ × ℕ)
    → st.warmup ≡ some snap
    → (run st events).warmup ≡ some snap
unfolding run step
run-warmup st [] snap h = h
run-warmup st (read i answer ∷ rest) snap h = run-warmup (step st (read i answer)) rest snap h
run-warmup st (sampling ∷ rest) snap h = run-warmup (step st sampling) rest snap h
run-warmup st (tick now ∷ rest) snap h = run-warmup (step st (tick now)) rest snap h
run-warmup st (warm now ∷ rest) snap h = run-warmup (step st (warm now)) rest snap (rw h refl)
run-warmup st (stop now ∷ rest) snap h = run-warmup (step st (stop now)) rest snap h

run-final :
    (st : Receiver) (events : List Event) (snap : ℕ × ℕ)
    → st.final ≡ some snap
    → (run st events).final ≡ some snap
unfolding run step
run-final st [] snap h = h
run-final st (read i answer ∷ rest) snap h = run-final (step st (read i answer)) rest snap h
run-final st (sampling ∷ rest) snap h = run-final (step st sampling) rest snap h
run-final st (tick now ∷ rest) snap h = run-final (step st (tick now)) rest snap h
run-final st (warm now ∷ rest) snap h = run-final (step st (warm now)) rest snap h
run-final st (stop now ∷ rest) snap h = run-final (step st (stop now)) rest snap (rw h refl)

-- The receiver when the warm-up task has taken its snapshot, and when the window has ended.
abbrev pub warmed : ℕ → List Event → ℕ → Receiver
warmed parallel before at = step (run (start parallel) before) (warm at)

snapshots :
    (parallel : ℕ) (before during after : List Event) (w s : ℕ)
    → Quiet before
    → Quiet during
    → let st = run (start parallel) (before ++ (warm w ∷ (during ++ (stop s ∷ after)))) in
      (st.warmup ≡ some (sum_bytes (run (start parallel) before).streams, w))
      × (st.final ≡ some (sum_bytes (run (warmed parallel before w) during).streams, s))
unfolding run step start
snapshots parallel before during after w s hb hd =
    let a = run (start parallel) before in
    let b = warmed parallel before w in
    let c = run b during in
    let d = step c (stop s) in
    let qa = run-Quiet (start parallel) before hb in
    let qc = run-Quiet b during hd in
    let b_warm : b.warmup ≡ some (sum_bytes a.streams, w) = rw qa.0 refl in
    let c_final : c.final ≡ none = qc.1 ∙ qa.1 in
    let d_final : d.final ≡ some (sum_bytes c.streams, s) = rw c_final refl in
    let split : run (start parallel) (before ++ (warm w ∷ (during ++ (stop s ∷ after))))
        ≡ run d after =
      run-append (start parallel) before (warm w ∷ (during ++ (stop s ∷ after)))
      ∙ run-append b during (stop s ∷ after) in
    (
      ap (λ st. st.warmup) split ∙ run-warmup d after _ (qc.0 ∙ b_warm),
      ap (λ st. st.final) split ∙ run-final d after _ d_final,
    )

abbrev pub stopped : ℕ → List Event → ℕ → Receiver
stopped parallel before at = step (run (start parallel) before) (stop at)

early_snapshots :
    (parallel : ℕ) (before during after : List Event) (w s : ℕ)
    → Quiet before
    → Quiet during
    → let st = run (start parallel) (before ++ (stop s ∷ (during ++ (warm w ∷ after)))) in
      (st.final ≡ some (sum_bytes (run (start parallel) before).streams, s))
      × (st.warmup ≡ some (sum_bytes (run (stopped parallel before s) during).streams, w))
unfolding run step start
early_snapshots parallel before during after w s hb hd =
    let a = run (start parallel) before in
    let b = stopped parallel before s in
    let c = run b during in
    let d = step c (warm w) in
    let qa = run-Quiet (start parallel) before hb in
    let qc = run-Quiet b during hd in
    let b_final : b.final ≡ some (sum_bytes a.streams, s) = rw qa.1 refl in
    let c_warm : c.warmup ≡ none = qc.0 ∙ qa.0 in
    let d_warm : d.warmup ≡ some (sum_bytes c.streams, w) = rw c_warm refl in
    let split : run (start parallel) (before ++ (stop s ∷ (during ++ (warm w ∷ after))))
        ≡ run d after =
      run-append (start parallel) before (stop s ∷ (during ++ (warm w ∷ after)))
      ∙ run-append b during (warm w ∷ after) in
    (
      ap (λ st. st.final) split ∙ run-final d after _ (qc.1 ∙ b_final),
      ap (λ st. st.warmup) split ∙ run-warmup d after _ d_warm,
    )

module _ (fl : Float) where
  -- All connections are accepted; the warm-up task takes its snapshot at `w` and the stop comes at
  -- `s`, after it; the sampler ends with `samples`; fewer than 2^64 bytes arrive until the stop.
  -- Then the server answers with the bytes that arrive between the two snapshots, over all streams
  -- and whatever the order of reads and ticks, over the time from `w` to `s`, with those samples.
  -- Neither the warm-up nor what arrives after the stop counts.
  pub serve_steady :
      (neg : Negotiate) (t0 w s : ℕ) (accepted : List (IoResult (Unit {0})))
      (before during after : List Event) (samples : List (Sample fl.F))
      → accept_all neg.parallel accepted ≡ some (ok tt)
      → Quiet before
      → Quiet during
      → sum_bytes (run (start neg.parallel) before).streams
          + arrived (warmed neg.parallel before w) during
        < 2 ^ 64
      → (let st = run (start neg.parallel) (before ++ (warm w ∷ (during ++ (stop s ∷ after)))) in
          series fl t0 (add64 neg.duration_secs neg.warmup_secs * 1000000000) st.first st.ticks
          ≡ some samples)
      → (r : TestResult fl.F) × (serve fl neg t0 accepted
            (before ++ (warm w ∷ (during ++ (stop s ∷ after))))
          ≡ some (ok r))
        × (r.bytes ≡ arrived (warmed neg.parallel before w) during)
        × (r.duration_secs ≡ as_secs_f64 fl (s - w))
        × (r.samples ≡ samples)
  unfolding serve report step
  serve_steady neg t0 w s accepted before during after samples acc hb hd small ended =
      let (warmup, final) = snapshots neg.parallel before during after w s hb hd in
      let first = sum_bytes (run (start neg.parallel) before).streams in
      let last = sum_bytes (run (warmed neg.parallel before w) during).streams in
      (
        report fl (last, s) (first, w) samples,
        rw (acc, warmup, final, ended) refl,
        omega (arith, sum_bytes-run (warmed neg.parallel before w) during),
        refl,
        refl,
      )

  -- A client that stops during the warm-up: the stop comes at `s`, before the warm-up task takes
  -- its snapshot at `w`, fewer than 2^64 bytes arrive until then, and the sampler ends with
  -- `samples`. Then the server answers with 0 bytes over no time, whatever arrived.
  pub serve_early :
      (neg : Negotiate) (t0 w s : ℕ) (accepted : List (IoResult (Unit {0})))
      (before during after : List Event) (samples : List (Sample fl.F))
      → accept_all neg.parallel accepted ≡ some (ok tt)
      → Quiet before
      → Quiet during
      → s ≤ w
      → sum_bytes (run (start neg.parallel) before).streams
          + arrived (stopped neg.parallel before s) during
        < 2 ^ 64
      → (let st = run (start neg.parallel) (before ++ (stop s ∷ (during ++ (warm w ∷ after)))) in
          series fl t0 (add64 neg.duration_secs neg.warmup_secs * 1000000000) st.first st.ticks
          ≡ some samples)
      → (r : TestResult fl.F) × (serve fl neg t0 accepted
            (before ++ (stop s ∷ (during ++ (warm w ∷ after))))
          ≡ some (ok r))
        × (r.bytes ≡ 0)
        × (r.duration_secs ≡ as_secs_f64 fl 0)
        × (r.samples ≡ samples)
  unfolding serve report step
  serve_early neg t0 w s accepted before during after samples acc hb hd late small ended =
      let (final, warmup) = early_snapshots neg.parallel before during after w s hb hd in
      let last = sum_bytes (run (start neg.parallel) before).streams in
      let first = sum_bytes (run (stopped neg.parallel before s) during).streams in
      let no_time : s - w ≡ 0 = omega arith in
      (
        report fl (last, s) (first, w) samples,
        rw (acc, warmup, final, ended) refl,
        omega (arith, sum_bytes-run (stopped neg.parallel before s) during),
        ap (as_secs_f64 fl) no_time,
        refl,
      )
