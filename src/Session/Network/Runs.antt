-- ===== src/Session/Network/Runs.antt =====
-- What a session does whatever the order of the moves: it ends, and how.
use andri.Common.{
  ℕ, ◌+◌, ◌≤◌, ◌≡◌, refl, sym, ap, ◌∙◌, subst, true, false, Bool-cases, ◌&&◌, [], inl, inr, ◌⊎◌,
  arith,
}
use andri.Io.{IoError, IoResult-cases, ok, err}
use andri.Proto.Messages.{TestResult, Msg}
use andri.Session.Proc.{done, client_proc, server_proc}
use andri.Session.Network.{World, Move, enabled, move, is_done, in_path, checked, Run, start, later}
use andri.Session.Network.Phases.{
  Setting, Phase, Success, env, bound, driven, measured, world_at, left, opened, greeting,
  welcoming, welcomed, negotiating, negotiated, binding, started, driving, ran, returned, working,
  early, first_measured, stopping, stopped, measuring, waiting, resulting, answered, finished,
  unsent, given_up, unstarted, unheard, sent_unheard, unheard_unsent, cut,
}
use andri.Session.Network.Moves.{move-world_at}

no : false ≡ true → ⊥
no h = cc

module _ {F : Type 0} (g : Setting F) where
  open g use {eof, reset, client_returns, server_returns}

  -- The runs of this session, from the open control connection.
  abbrev pub Runs : ℕ → World F → Type 0
  Runs = Run (env g) (world_at g opened)

  Runs-world_at :
      {n : ℕ} {w : World F} → Runs n w → (ph : Phase g) × (w ≡ world_at g ph) × (n + left g ph ≤ 16)
  Runs-world_at start = (opened, refl, omega arith)
  Runs-world_at (later r m h) =
      let (ph, e, le) = Runs-world_at r in
      let (ph', e', less) = move-world_at g ph m (rw e at h) in
      (ph', ap (move (env g) m) e ∙ e', omega arith)

  -- An end runs its data path, and this does not return.
  abbrev pub Hangs : World F → Type 0
  Hangs w =
      ((in_path w.client ≡ true) × (client_returns ≡ false))
      ⊎ ((in_path w.server ≡ true) × (server_returns ≡ false))

  -- Both ends have ended, or one of them can go on, or waits for its data path.
  abbrev pub Live : World F → Type 0
  Live w =
      ((is_done w.client && is_done w.server) ≡ true)
      ⊎ ((m : Move) × (enabled (env g) m w ≡ true))
      ⊎ Hangs w

  client_path-Live :
      (w : World F)
      → in_path w.client ≡ true
      → enabled (env g) Move.client w ≡ client_returns
      → Live w
  client_path-Live w inside e = elim (Bool-cases client_returns) [
    | inl back ↦ inr (inl (Move.client, e ∙ back))
    | inr gone ↦ inr (inr (inl (inside, gone)))
  ]

  server_path-Live :
      (w : World F)
      → in_path w.server ≡ true
      → enabled (env g) Move.server w ≡ server_returns
      → Live w
  server_path-Live w inside e = elim (Bool-cases server_returns) [
    | inl back ↦ inr (inl (Move.server, e ∙ back))
    | inr gone ↦ inr (inr (inr (inside, gone)))
  ]

  world_at-Live : (ph : Phase g) → Live (world_at g ph)
  unfolding client_proc server_proc
  world_at-Live binding = elim (IoResult-cases (bound g)) [
    | inl (port, b) ↦ inr (inl (Move.server, rw b refl))
    | inr (e, b) ↦ inr (inl (Move.client, rw b refl))
  ]
  world_at-Live (measuring port b) = elim (IoResult-cases (driven g port)) [
    | inl (u, d) ↦ inr (inl (Move.client, rw d refl))
    | inr (e, d) ↦ elim (IoResult-cases (measured g)) [
      | inl (r, m) ↦ inr (inl (Move.server, rw (m, d) refl))
      | inr (e', m) ↦ inl (rw (m, d) refl)
    ]
  ]
  world_at-Live (waiting port b d) = elim (IoResult-cases (measured g)) [
    | inl (r, m) ↦ inr (inl (Move.server, rw m refl))
    | inr (e, m) ↦ inr (inl (Move.client, rw m refl))
  ]
  world_at-Live (working port b) = client_path-Live (world_at g (working port b)) refl refl
  world_at-Live (first_measured port b) =
      client_path-Live (world_at g (first_measured port b)) refl refl
  world_at-Live (early port b) = server_path-Live (world_at g (early port b)) refl refl
  world_at-Live (stopped port b d) = server_path-Live (world_at g (stopped port b d)) refl refl
  world_at-Live greeting = inr (inl (Move.server, refl))
  world_at-Live welcoming = inr (inl (Move.server, refl))
  world_at-Live negotiated = inr (inl (Move.server, refl))
  world_at-Live (ran port b) = inr (inl (Move.server, refl))
  world_at-Live (returned port b) = inr (inl (Move.server, refl))
  world_at-Live (stopping port b d) = inr (inl (Move.server, refl))
  world_at-Live (resulting port r s) = inr (inl (Move.server, refl))
  world_at-Live (unheard port e r b d m) = inr (inl (Move.server, refl))
  world_at-Live opened = inr (inl (Move.client, refl))
  world_at-Live welcomed = inr (inl (Move.client, refl))
  world_at-Live negotiating = inr (inl (Move.client, refl))
  world_at-Live (started port b) = inr (inl (Move.client, refl))
  world_at-Live (driving port b) = inr (inl (Move.client, refl))
  world_at-Live (answered port r s fits) = inr (inl (Move.client, refl))
  world_at-Live (unsent port r e s n) = inr (inl (Move.client, refl))
  world_at-Live _ = inl refl

  -- Whatever the order of the moves, whether the data path succeeds, fails or never returns at either
  -- end, and whether or not the result can be sent, in a session whose handshake can be encoded: 16
  -- moves at most are made, and where none is left, either both ends have ended, or one of them runs
  -- a data path that does not return. Neither end waits in vain for a message.
  pub Runs-Live : {n : ℕ} {w : World F} → Runs n w → (n ≤ 16) × Live w
  Runs-Live r =
      let (ph, e, le) = Runs-world_at r in (omega arith, subst Live (sym e) (world_at-Live ph))

  -- How a session has ended, by what the data path gave at both ends.
  pub data Ending (w : World F) : Type 0 where
    agreed :
        (port : ℕ) (r : TestResult F)
        → Success g port r
        → checked g.codec (Msg.result r) ≡ ok tt
        → w ≡ record { client = done (ok r); server = done (ok tt); to_client = []; to_server = [] }
        → Ending w
    not_sent :
        (port : ℕ) (r : TestResult F) (e : IoError)
        → Success g port r
        → checked g.codec (Msg.result r) ≡ err e
        → w.client ≡ done (err eof)
        → w.server ≡ done (err e)
        → Ending w
    no_port :
        (e : IoError)
        → bound g ≡ err e
        → w.client ≡ done (err eof)
        → w.server ≡ done (err e)
        → Ending w
    not_driven :
        (port : ℕ) (e : IoError)
        → bound g ≡ ok port
        → driven g port ≡ err e
        → w.client ≡ done (err e)
        → Ending w
    not_measured :
        (e e' : IoError)
        → measured g ≡ err e'
        → (e ≡ eof) ⊎ (e ≡ reset)
        → w.client ≡ done (err e)
        → w.server ≡ done (err e')
        → Ending w

  world_at-Ending :
      (ph : Phase g)
      → (is_done (world_at g ph).client && is_done (world_at g ph).server) ≡ true
      → Ending (world_at g ph)
  unfolding client_proc server_proc
  world_at-Ending (measuring port b) h = elim (IoResult-cases (driven g port)) [
    | inl (u, d) ↦ absurd (no (rw d at h))
    | inr (e, d) ↦ not_driven port e b d (rw d refl)
  ]
  world_at-Ending (early port b) h = elim (IoResult-cases (driven g port)) [
    | inl (u, d) ↦ absurd (no (rw d at h))
    | inr (e, d) ↦ absurd (no (rw d at h))
  ]
  world_at-Ending (returned port b) h = elim (IoResult-cases (driven g port)) [
    | inl (u, d) ↦ absurd (no (rw d at h))
    | inr (e, d) ↦ absurd (no (rw d at h))
  ]
  world_at-Ending (finished port r s fits) h = agreed port r s fits refl
  world_at-Ending (given_up port r e s fails) h = not_sent port r e s fails refl refl
  world_at-Ending (unheard_unsent port e e' b d) h = not_driven port e b d refl
  world_at-Ending (unstarted e b) h = no_port e b refl refl
  world_at-Ending (sent_unheard port e r b d m) h = not_driven port e b d refl
  world_at-Ending (cut e e' lost m) h = not_measured e e' m lost refl refl
  world_at-Ending _ h = absurd (no h)

  -- How a session ends, once both ends have, depends on the data path and the size of the result
  -- alone, not on the order of the moves; its handshake can be encoded. If the server has a port, the
  -- data path succeeds at both ends and the result passes the checks of `write_msg`, the client has
  -- the server's result, the server has ended well, and nothing is left unread, so that neither end
  -- ever meets a reset connection. A result that does not pass is not sent, and the client finds the
  -- connection closed. If something else fails, the client has an error: its own, or that of a
  -- connection that was closed or reset.
  pub Runs-Ending :
      {n : ℕ} {w : World F} → Runs n w → (is_done w.client && is_done w.server) ≡ true → Ending w
  Runs-Ending r h =
      let (ph, e, le) = Runs-world_at r in subst Ending (sym e) (world_at-Ending ph (rw e at h))
