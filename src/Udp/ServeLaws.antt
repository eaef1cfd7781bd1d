-- ===== src/Udp/ServeLaws.antt =====
-- The receive loop against the datagrams alone: the ticks and the skipped datagrams between them
-- do not change what is measured.
use andri.Common.{ℕ, suc, ◌-◌, ◌≡◌, refl, ap, ◌∙◌, Option, none, some, List, [], ◌∷◌, length, u64}
use andri.Io.{IoResult, ok, err}
use andri.Float.{Float}
use andri.Udp.Header.{unstamp}
use andri.Udp.LossJitter.{LossJitter, Arrival, observe_all}
use andri.Udp.Serve.{
  Event, stop, tick, datagram, recv_failed, Receiver, on_tick, on_stamped, on_datagram, finish,
  serve_loop,
}

-- How the loop ends: with `stop` at some clock reading, or by a failed `recv_from`.
abbrev pub ending : List Event → Option (IoResult ℕ)
ending [] = none
ending (stop end ∷ rest) = some (ok end)
ending (recv_failed e ∷ rest) = some (err e)
ending (tick now ∷ rest) = ending rest
ending (datagram bytes now start_at ∷ rest) = ending rest

abbrev pub add_stamped : ℕ → ℕ → ℕ → Option (ℕ × ℕ) → List Arrival → List Arrival
add_stamped t0 n now none rest = rest
add_stamped t0 n now (some (seq, send_ns)) rest =
    record { seq = seq; send_ns = send_ns; recv_ns = u64 (now - t0); n = u64 n } ∷ rest

-- The datagrams with a header that come before the loop ends.
abbrev pub heard : ℕ → List Event → List Arrival
heard t0 [] = []
heard t0 (stop end ∷ rest) = []
heard t0 (recv_failed e ∷ rest) = []
heard t0 (tick now ∷ rest) = heard t0 rest
heard t0 (datagram bytes now start_at ∷ rest) =
    add_stamped t0 (length bytes) now (unstamp bytes) (heard t0 rest)

-- The ticks that come before the loop ends.
abbrev pub ticks : List Event → ℕ
ticks [] = 0
ticks (stop end ∷ rest) = 0
ticks (recv_failed e ∷ rest) = 0
ticks (tick now ∷ rest) = suc (ticks rest)
ticks (datagram bytes now start_at ∷ rest) = ticks rest

module _ (fl : Float) (t0 : ℕ) where
  -- The variables of the loop when it ends.
  unfoldable pub after : Receiver fl → List Event → Receiver fl
  after st [] = st
  after st (stop end ∷ rest) = st
  after st (recv_failed e ∷ rest) = st
  after st (tick now ∷ rest) = after (on_tick fl t0 st now) rest
  after st (datagram bytes now start_at ∷ rest) =
      after (on_datagram fl t0 st bytes now start_at) rest

  pub serve_loop-after :
      (st : Receiver fl) (events : List Event)
      → serve_loop fl t0 st events ≡ elim (ending events) [
        | none ↦ none
        | some (ok end) ↦ some (ok (finish fl (after st events) end))
        | some (err e) ↦ some (err e)
      ]
  unfolding serve_loop after
  serve_loop-after st [] = refl
  serve_loop-after st (stop end ∷ rest) = refl
  serve_loop-after st (recv_failed e ∷ rest) = refl
  serve_loop-after st (tick now ∷ rest) = serve_loop-after (on_tick fl t0 st now) rest
  serve_loop-after st (datagram bytes now start_at ∷ rest) =
      serve_loop-after (on_datagram fl t0 st bytes now start_at) rest

  acc-on_tick : (st : Receiver fl) (now : ℕ) → (on_tick fl t0 st now).acc ≡ st.acc
  unfolding on_tick
  acc-on_tick st now = refl

  acc-on_stamped :
      (st : Receiver fl) (n now start_at : ℕ) (o : Option (ℕ × ℕ)) (rest : List Arrival)
      → observe_all fl (on_stamped fl t0 st n now start_at o).acc rest
        ≡ observe_all fl st.acc (add_stamped t0 n now o rest)
  unfolding observe_all
  acc-on_stamped st n now start_at none rest = refl
  acc-on_stamped st n now start_at (some (seq, send_ns)) rest = refl

  pub acc-after :
      (st : Receiver fl) (events : List Event)
      → (after st events).acc ≡ observe_all fl st.acc (heard t0 events)
  unfolding after on_datagram observe_all
  acc-after st [] = refl
  acc-after st (stop end ∷ rest) = refl
  acc-after st (recv_failed e ∷ rest) = refl
  acc-after st (tick now ∷ rest) =
      acc-after (on_tick fl t0 st now) rest
      ∙ ap (λ (a : LossJitter fl.F). observe_all fl a (heard t0 rest)) (acc-on_tick st now)
  acc-after st (datagram bytes now start_at ∷ rest) =
      acc-after (on_stamped fl t0 st (length bytes) now start_at (unstamp bytes)) rest
      ∙ acc-on_stamped st (length bytes) now start_at (unstamp bytes) (heard t0 rest)
