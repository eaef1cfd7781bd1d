-- ===== src/Udp/Report.antt =====
-- The report of the UDP server: one theorem for each way the receive loop can end.
use andri.Common.{
  ℕ, ◌+◌, ◌≡◌, refl, ap, ap₂, ◌∙◌, Option, none, some, List, [], ◌∷◌, leb, if◌then◌else◌, length,
  arith, length-append,
}
use andri.Io.{IoError, ok, err}
use andri.Float.{Float}
use andri.Proto.Messages.{Negotiate, Sample, TestResult}
use andri.Udp.Header.{unstamp}
use andri.Udp.LossJitter.{new, observe_all, into_result}
use andri.Udp.Counts.{warmup-observe}
use andri.Udp.Serve.{
  Event, stop, tick, datagram, recv_failed, warmup_threshold, Receiver, on_tick, on_stamped,
  on_datagram, start, measured_secs, finish, serve,
}
use andri.Udp.ServeLaws.{ending, heard, ticks, after, serve_loop-after, acc-after}

abbrev pub or_else : Option ℕ → Option ℕ → Option ℕ
or_else none o = o
or_else (some a) o = some a

abbrev pub mark : ℕ → ℕ → Option (ℕ × ℕ) → Option ℕ → Option ℕ
mark w start_at none rest = rest
mark w start_at (some (seq, send_ns)) rest = if leb w seq then some start_at else rest

-- The clock at the first datagram of the window.
abbrev pub first_measured : ℕ → List Event → Option ℕ
first_measured w [] = none
first_measured w (stop end ∷ rest) = none
first_measured w (recv_failed e ∷ rest) = none
first_measured w (tick now ∷ rest) = first_measured w rest
first_measured w (datagram bytes now start_at ∷ rest) =
    mark w start_at (unstamp bytes) (first_measured w rest)

module _ (fl : Float) (t0 : ℕ) where
  warmup-on_stamped :
      (st : Receiver fl) (n now start_at : ℕ) (o : Option (ℕ × ℕ))
      → (on_stamped fl t0 st n now start_at o).acc.warmup_packets ≡ (st.acc).warmup_packets
  warmup-on_stamped st n now start_at none = refl
  warmup-on_stamped st n now start_at (some (seq, send_ns)) = warmup-observe fl st.acc _

  mark-on_stamped :
      (st : Receiver fl) (n now start_at : ℕ) (o : Option (ℕ × ℕ)) (rest : Option ℕ)
      → or_else (on_stamped fl t0 st n now start_at o).measure_start rest
        ≡ or_else st.measure_start (mark (st.acc).warmup_packets start_at o rest)
  mark-on_stamped st n now start_at none rest = refl
  mark-on_stamped st n now start_at (some (seq, send_ns)) rest = ground arith

  measure_start-after :
      (st : Receiver fl) (events : List Event)
      → (after fl t0 st events).measure_start
        ≡ or_else st.measure_start (first_measured (st.acc).warmup_packets events)
  unfolding after on_tick on_datagram
  measure_start-after st [] = ground arith
  measure_start-after st (stop end ∷ rest) = ground arith
  measure_start-after st (recv_failed e ∷ rest) = ground arith
  measure_start-after st (tick now ∷ rest) = measure_start-after (on_tick fl t0 st now) rest
  measure_start-after st (datagram bytes now start_at ∷ rest) =
      let st' = on_stamped fl t0 st (length bytes) now start_at (unstamp bytes) in
      measure_start-after st' rest
      ∙ ap (λ (w : ℕ). or_else st'.measure_start (first_measured w rest))
          (warmup-on_stamped st (length bytes) now start_at (unstamp bytes))
      ∙ mark-on_stamped st (length bytes) now start_at (unstamp bytes) _

  samples-on_stamped :
      (st : Receiver fl) (n now start_at : ℕ) (o : Option (ℕ × ℕ))
      → (on_stamped fl t0 st n now start_at o).samples ≡ st.samples
  samples-on_stamped st n now start_at none = refl
  samples-on_stamped st n now start_at (some (seq, send_ns)) = refl

  length-samples-after :
      (st : Receiver fl) (events : List Event)
      → length (after fl t0 st events).samples ≡ length st.samples + ticks events
  unfolding after on_tick on_datagram
  length-samples-after st [] = omega arith
  length-samples-after st (stop end ∷ rest) = omega arith
  length-samples-after st (recv_failed e ∷ rest) = omega arith
  length-samples-after st (tick now ∷ rest) =
      omega
        (arith, length-samples-after (on_tick fl t0 st now) rest, length-append {0} st.samples _)
  length-samples-after st (datagram bytes now start_at ∷ rest) =
      length-samples-after (on_stamped fl t0 st (length bytes) now start_at (unstamp bytes)) rest
      ∙ ap (λ (l : List (Sample fl.F)). length l + ticks rest)
          (samples-on_stamped st (length bytes) now start_at (unstamp bytes))

  finish_lem :
      (st : Receiver fl) (end : ℕ)
      → record (finish fl st end) { samples = [] }
        ≡ into_result fl st.acc (measured_secs fl st.measure_start end)
  unfolding finish into_result
  finish_lem st end = refl

  samples-finish :
      (st : Receiver fl) (end : ℕ) → length (finish fl st end).samples ≡ length st.samples
  unfolding finish
  samples-finish st end = refl

  -- When `stop` ends the loop the server reports: all fields but the series are those of the
  -- accumulator over the datagrams with a header that came before, in their order, with the time
  -- from the first datagram of the window to the end (0.0 if there was none); the series has one
  -- sample for each tick.
  pub serve_stopped :
      (neg : Negotiate) (events : List Event) (end : ℕ)
      → ending events ≡ some (ok end)
      → let w = warmup_threshold neg in
        let secs = measured_secs fl (first_measured w events) end in
        (r : TestResult fl.F) × (serve fl neg t0 events ≡ some (ok r))
        × (record r { samples = [] }
            ≡ into_result fl (observe_all fl (new fl w) (heard t0 events)) secs)
        × (length r.samples ≡ ticks events)
  unfolding serve start new
  serve_stopped neg events end e =
      let st = start fl neg t0 in
      let final = after fl t0 st events in
      let secs = ap (λ (m : Option ℕ). measured_secs fl m end) (measure_start-after st events) in
      (
        finish fl final end,
        serve_loop-after fl t0 st events ∙ rw e refl,
        finish_lem final end ∙ ap₂ (into_result fl) (acc-after fl t0 st events) secs,
        samples-finish final end ∙ omega (arith, length-samples-after st events),
      )

  -- A failed `recv_from` ends the loop with its error, whatever was measured before.
  pub serve_failed :
      (neg : Negotiate) (events : List Event) (e : IoError)
      → ending events ≡ some (err e)
      → serve fl neg t0 events ≡ some (err e)
  unfolding serve
  serve_failed neg events e h = serve_loop-after fl t0 (start fl neg t0) events ∙ rw h refl
