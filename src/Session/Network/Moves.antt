-- ===== src/Session/Network/Moves.antt =====
-- The moves between the worlds of a session: each enabled move, in each of them.
use andri.Common.{◌≡◌, refl, true, false, inl, inr, arith}
use andri.Io.{IoResult-cases}
use andri.Session.Proc.{server_proc, client_proc}
use andri.Proto.Messages.{Msg}
use andri.Session.Network.{Move, enabled, checked}
use andri.Session.Network.Phases.{
  Setting, Phase, Next, env, world_at, bound, driven, measured, finished, opened, greeting,
  welcoming, welcomed, negotiating, negotiated, binding, started, driving, ran, returned, working,
  early, first_measured, stopping, stopped, measuring, waiting, resulting, answered, unsent,
  given_up, unstarted, unheard, sent_unheard, unheard_unsent, cut,
}

no : false ≡ true → ⊥
no h = cc

module _ {F : Type 0} (g : Setting F) where
  open g use {eof, reset, hello_ok, welcome_ok, negotiate_ok, start_ok, run_ok, stop_ok}

  Next-client :
      (ph : Phase g) → enabled (env g) Move.client (world_at g ph) ≡ true → Next g Move.client ph
  unfolding client_proc server_proc
  Next-client opened h = (greeting, rw hello_ok refl, omega arith)
  Next-client welcomed h = (negotiating, refl, omega arith)
  Next-client negotiating h = (negotiated, rw negotiate_ok refl, omega arith)
  Next-client binding h = elim (IoResult-cases (bound g)) [
    | inl (port, b) ↦ absurd (no (rw b at h))
    | inr (e, b) ↦ (unstarted e b, rw b refl, omega arith)
  ]
  Next-client (started port b) h = (driving port b, refl, omega arith)
  Next-client (driving port b) h = (ran port b, rw run_ok refl, omega arith)
  Next-client (ran port b) h = (returned port b, refl, omega arith)
  Next-client (working port b) h = (early port b, refl, omega arith)
  Next-client (first_measured port b) h = (measuring port b, refl, omega arith)
  Next-client (returned port b) h = elim (IoResult-cases (driven g port)) [
    | inl (u, d) ↦ (stopping port b d, rw (d, stop_ok) refl, omega arith)
    | inr (e, d) ↦ absurd (no (rw d at h))
  ]
  Next-client (early port b) h = elim (IoResult-cases (driven g port)) [
    | inl (u, d) ↦ (stopped port b d, rw (d, stop_ok) refl, omega arith)
    | inr (e, d) ↦ absurd (no (rw d at h))
  ]
  Next-client (measuring port b) h = elim (IoResult-cases (driven g port)) [
    | inl (u, d) ↦ (waiting port b d, rw (d, stop_ok) refl, omega arith)
    | inr (e, d) ↦ absurd (no (rw d at h))
  ]
  Next-client (waiting port b d) h = elim (IoResult-cases (measured g)) [
    | inl (r, m) ↦ absurd (no (rw m at h))
    | inr (e, m) ↦ (cut eof e (inl refl) m, rw m refl, omega arith)
  ]
  Next-client (answered port r s fits) h = (finished port r s fits, refl, omega arith)
  Next-client (unsent port r e s n) h = (given_up port r e s n, refl, omega arith)
  Next-client _ h = absurd (no h)

  Next-server :
      (ph : Phase g) → enabled (env g) Move.server (world_at g ph) ≡ true → Next g Move.server ph
  unfolding client_proc server_proc
  Next-server greeting h = (welcoming, refl, omega arith)
  Next-server welcoming h = (welcomed, rw welcome_ok refl, omega arith)
  Next-server negotiated h = (binding, refl, omega arith)
  Next-server binding h = elim (IoResult-cases (bound g)) [
    | inl (port, b) ↦ (started port b, rw (b, start_ok port) refl, omega arith)
    | inr (e, b) ↦ absurd (no (rw b at h))
  ]
  Next-server (ran port b) h = (working port b, refl, omega arith)
  Next-server (returned port b) h = (early port b, refl, omega arith)
  Next-server (stopping port b d) h = (stopped port b d, refl, omega arith)
  Next-server (working port b) h = (first_measured port b, refl, omega arith)
  Next-server (early port b) h = (measuring port b, refl, omega arith)
  Next-server (stopped port b d) h = (waiting port b d, refl, omega arith)
  Next-server (first_measured port b) h = elim (IoResult-cases (measured g)) [
    | inr (e, m) ↦ absurd (no (rw m at h))
    | inl (r, m) ↦ absurd (no (rw m at h))
  ]
  Next-server (measuring port b) h = elim (IoResult-cases (measured g)) [
    | inr (e, m) ↦ absurd (no (rw m at h))
    | inl (r, m) ↦ elim (IoResult-cases (driven g port)) [
      | inl (u, d) ↦ absurd (no (rw (m, d) at h))
      | inr (e, d) ↦ (unheard port e r b d m, rw (m, d) refl, omega arith)
    ]
  ]
  Next-server (waiting port b d) h = elim (IoResult-cases (measured g)) [
    | inl (r, m) ↦ (resulting port r (b, d, m), rw m refl, omega arith)
    | inr (e, m) ↦ absurd (no (rw m at h))
  ]
  Next-server (resulting port r s) h = elim (IoResult-cases (checked g.codec (Msg.result r))) [
    | inl (u, fits) ↦ (answered port r s fits, rw fits refl, omega arith)
    | inr (e, fails) ↦ (unsent port r e s fails, rw fails refl, omega arith)
  ]
  Next-server (unheard port e r b d m) h = elim (IoResult-cases (checked g.codec (Msg.result r))) [
    | inl (u, fits) ↦ (sent_unheard port e r b d m, rw fits refl, omega arith)
    | inr (e', fails) ↦ (unheard_unsent port e e' b d, rw fails refl, omega arith)
  ]
  Next-server _ h = absurd (no h)

  Next-client_reset :
      (ph : Phase g)
      → enabled (env g) Move.client_reset (world_at g ph) ≡ true
      → Next g Move.client_reset ph
  unfolding client_proc server_proc
  Next-client_reset binding h = elim (IoResult-cases (bound g)) [
    | inl (port, b) ↦ absurd (no (rw b at h))
    | inr (e, b) ↦ absurd (no (rw b at h))
  ]
  Next-client_reset (measuring port b) h = elim (IoResult-cases (measured g)) [
    | inl (r, m) ↦ absurd (no (rw m at h))
    | inr (e, m) ↦ absurd (no (rw m at h))
  ]
  Next-client_reset (first_measured port b) h = elim (IoResult-cases (measured g)) [
    | inl (r, m) ↦ absurd (no (rw m at h))
    | inr (e, m) ↦ absurd (no (rw m at h))
  ]
  Next-client_reset (waiting port b d) h = elim (IoResult-cases (measured g)) [
    | inl (r, m) ↦ absurd (no (rw m at h))
    | inr (e, m) ↦ (cut reset e (inr refl) m, rw m refl, omega arith)
  ]
  Next-client_reset _ h = absurd (no h)

  Next-server_reset :
      (ph : Phase g)
      → enabled (env g) Move.server_reset (world_at g ph) ≡ true
      → Next g Move.server_reset ph
  unfolding client_proc server_proc
  Next-server_reset (returned port b) h = elim (IoResult-cases (driven g port)) [
    | inl (u, d) ↦ absurd (no (rw d at h))
    | inr (e, d) ↦ absurd (no (rw d at h))
  ]
  Next-server_reset (early port b) h = elim (IoResult-cases (driven g port)) [
    | inl (u, d) ↦ absurd (no (rw d at h))
    | inr (e, d) ↦ absurd (no (rw d at h))
  ]
  Next-server_reset (measuring port b) h = elim (IoResult-cases (driven g port)) [
    | inl (u, d) ↦ absurd (no (rw d at h))
    | inr (e, d) ↦ absurd (no (rw d at h))
  ]
  Next-server_reset _ h = absurd (no h)

  -- Every move leads from one of these worlds to another one, with fewer moves left.
  pub move-world_at :
      (ph : Phase g) (m : Move) → enabled (env g) m (world_at g ph) ≡ true → Next g m ph
  move-world_at ph Move.client h = Next-client ph h
  move-world_at ph Move.server h = Next-server ph h
  move-world_at ph Move.client_reset h = Next-client_reset ph h
  move-world_at ph Move.server_reset h = Next-server_reset ph h
