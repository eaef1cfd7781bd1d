-- ===== src/Session/Accept.antt =====
-- `serve` of src/session.rs: the loop that accepts control connections, one session at a time.
-- Each answer of `accept` gives a connection, by its state, and what the operating system and the
-- data path answer in its session.
use andri.Common.{◌≡◌, ◌≢◌, refl, sym, ap, ◌∙◌, Option, none, some, List, [], ◌∷◌, ◌++◌, map}
use mathlib.Core.List.{append-nil}
use andri.Io.{IoError, IoResult, ok, err}
use andri.Proto.Stream.{Stream, Codec}
use andri.Session.DataPath.{ServerSide}
use andri.Session.Server.{serve_session}

-- What the server has done: how its sessions ended, the errors being printed, and how the loop
-- itself ended, `none` while it waits for a connection.
pub record Served : Type 0 where
  pub sessions : List (IoResult (Unit {0}))
  pub ended : Option (IoResult (Unit {0}))

-- The sessions before go in front.
abbrev pub after_session : IoResult (Unit {0}) → Served → Served
after_session r later = record later { sessions = r ∷ later.sessions }

-- A control connection: its state, and the server's side of its session.
pub record Accepted (F : Type 0) (st : Stream) : Type 0 where
  pub ctrl : st.S
  pub side : ServerSide F

module _ {F : Type 0} (codec : Codec F) (st : Stream) where
  unfoldable pub accept_loop : List (IoResult (Accepted F st)) → Served
  accept_loop [] = record { sessions = []; ended = none }
  accept_loop (err e ∷ rest) = record { sessions = []; ended = some (err e) }
  accept_loop (ok a ∷ rest) =
      after_session (serve_session codec st a.side a.ctrl).0 (accept_loop rest)

  unfoldable pub serve : IoResult (Unit {0}) → List (IoResult (Accepted F st)) → Served
  serve (err e) accepted = record { sessions = []; ended = some (err e) }
  serve (ok u) accepted = accept_loop accepted

  accept_loop-map :
      (ctrls : List (Accepted F st)) (rest : List (IoResult (Accepted F st)))
      → accept_loop (map ok ctrls ++ rest) ≡ record (accept_loop rest) {
        sessions =
            map (λ s. (serve_session codec st s.side s.ctrl).0) ctrls
            ++ (accept_loop rest).sessions;
      }
  unfolding accept_loop
  accept_loop-map [] rest = refl
  accept_loop-map (s ∷ ctrls) rest =
      ap (after_session (serve_session codec st s.side s.ctrl).0) (accept_loop-map ctrls rest)

  -- Once it listens, the server runs one session for each connection that it accepts, in order and
  -- each on its own connection and with its own port and data path, whether the sessions before ended
  -- well or not; only a failed
  -- `accept` ends the loop, with its error, and without one the server waits for more.
  pub serve-sessions :
      (ctrls : List (Accepted F st)) (e : IoError) (rest : List (IoResult (Accepted F st)))
      → let outcomes = map (λ s. (serve_session codec st s.side s.ctrl).0) ctrls in
        (serve (ok tt) (map ok ctrls) ≡ record { sessions = outcomes; ended = none })
        × (serve (ok tt) (map ok ctrls ++ (err e ∷ rest))
            ≡ record { sessions = outcomes; ended = some (err e) })
  unfolding serve accept_loop
  serve-sessions ctrls e rest = (
    ap accept_loop (sym (append-nil (map ok ctrls)))
        ∙ accept_loop-map ctrls []
        ∙ ap (λ l. record { sessions = l; ended = none }) (append-nil _),
    accept_loop-map ctrls (err e ∷ rest)
        ∙ ap (λ l. record { sessions = l; ended = some (err e) }) (append-nil _),
  )

  accept_loop-ended :
      (accepted : List (IoResult (Accepted F st))) → (accept_loop accepted).ended ≢ some (ok tt)
  unfolding accept_loop
  accept_loop-ended [] h = cc
  accept_loop-ended (err e ∷ rest) h = cc
  accept_loop-ended (ok a ∷ rest) h = accept_loop-ended rest h

  -- The server does not return without an error.
  pub serve_runs :
      (bound : IoResult (Unit {0})) (accepted : List (IoResult (Accepted F st)))
      → (serve bound accepted).ended ≢ some (ok tt)
  unfolding serve
  serve_runs (err e) accepted h = cc
  serve_runs (ok u) accepted h = accept_loop-ended accepted h
