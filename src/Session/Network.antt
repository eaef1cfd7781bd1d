-- ===== src/Session/Network.antt =====
-- Both ends of a session (src/session.rs) side by side: two processes, the messages under way in both
-- directions, and moves in any order.
pub mod Phases
pub mod Moves
pub mod Runs
mod Tests
use andri.Common.{
  ℕ, zero, suc, ◌≡◌, Bool, true, false, not, ◌&&◌, ◌||◌, List, [], ◌∷◌, ◌++◌, if◌then◌else◌, ltb,
  length,
}
use andri.Io.{IoError, IoResult, ok, err}
use andri.Cli.{ClientOpts}
use andri.Proto.Messages.{TestResult, Msg, max_frame_bytes}
use andri.Proto.Stream.{Stream, Codec}
use andri.Proto.Frame.{exceeds_cap}
use andri.Session.DataPath.{ServerSide, ClientSide}
use andri.Session.Client.{Plan}
use andri.Session.Proc.{Proc, done, send, recv, drain, path, server_proc, client_proc}

abbrev pub is_done : {F A : Type 0} → Proc F A → Bool
is_done (done r) = true
is_done _ = false

abbrev pub some_left : {A : Type 0} → List A → Bool
some_left [] = false
some_left (x ∷ xs) = true

pub record World (F : Type 0) : Type 0 where
  pub client : Proc F (TestResult F)
  pub server : Proc F (Unit {0})
  -- Sent and not yet read, the oldest first.
  pub to_client : List (Msg F)
  pub to_server : List (Msg F)

-- One end after a move: its process, what is left to read, and what it has sent.
pub record Moved (F A : Type 0) : Type 0 where
  pub proc : Proc F A
  pub inbox : List (Msg F)
  pub sent : List (Msg F)

-- What decides a session beside the messages: how `write_msg` fails on a message before it writes
-- anything, the errors that a closed connection and a reset give, and whether the data paths return.
pub record Env (F : Type 0) : Type 0 where
  pub check : Msg F → IoResult (Unit {0})
  pub eof : IoError
  pub reset : IoError
  pub client_returns : Bool
  pub server_returns : Bool

-- The checks of `write_msg`: the JSON, and the cap.
abbrev pub within_cap : IoResult (List ℕ) → IoResult (Unit {0})
within_cap (err e) = err e
within_cap (ok payload) = if ltb max_frame_bytes (length payload) then err exceeds_cap else ok tt

abbrev pub checked : {F : Type 0} → Codec F → Msg F → IoResult (Unit {0})
checked codec m = within_cap (codec.to_vec m)

abbrev pub in_path : {F A : Type 0} → Proc F A → Bool
in_path (path k) = true
in_path _ = false

-- A message that passes its checks is sent, and another one ends the process with the error.
abbrev pub sent_or :
    {F A : Type 0} → IoResult (Unit {0}) → Msg F → Proc F A → List (Msg F) → Moved F A
sent_or (ok u) m k inbox = record { proc = k; inbox = inbox; sent = m ∷ [] }
sent_or (err e) m k inbox = record { proc = done (err e); inbox = inbox; sent = [] }

-- The connection takes what is written and carries it to the other end; a read takes the oldest message, waits for one, or finds the end of the stream
-- when the other end has closed.
abbrev pub go : {F A : Type 0} → Env F → Proc F A → List (Msg F) → Bool → Moved F A
go env (done r) inbox closed = record { proc = done r; inbox = inbox; sent = [] }
go env (send m k) inbox closed = sent_or (env.check m) m k inbox
go env (recv k) (m ∷ inbox) closed = record { proc = k m; inbox = inbox; sent = [] }
go env (recv k) [] true = record { proc = done (err env.eof); inbox = []; sent = [] }
go env (recv k) [] false = record { proc = recv k; inbox = []; sent = [] }
go env (drain k) (m ∷ inbox) closed = record { proc = k; inbox = inbox; sent = [] }
go env (drain k) [] true = record { proc = k; inbox = []; sent = [] }
go env (drain k) [] false = record { proc = drain k; inbox = []; sent = [] }
go env (path k) inbox closed = record { proc = k; inbox = inbox; sent = [] }

abbrev pub can_go : {F A : Type 0} → Bool → Proc F A → List (Msg F) → Bool → Bool
can_go returns (done r) inbox closed = false
can_go returns (send m k) inbox closed = true
can_go returns (recv k) inbox closed = some_left inbox || closed
can_go returns (drain k) inbox closed = some_left inbox || closed
can_go returns (path k) inbox closed = returns

-- The next read or write fails.
abbrev pub abort : {F A : Type 0} → IoError → Proc F A → Proc F A
abort reset (done r) = done r
abort reset (send m k) = done (err reset)
abort reset (recv k) = done (err reset)
abort reset (drain k) = k
abort reset (path k) = path k

-- An end that closes with messages unread resets the connection: then the other end's next read or
-- write may fail, even if there is something to read. A data path does not use this connection until
-- it has returned.
pub data Move : Type 0 where
  client server client_reset server_reset : Move

module _ {F : Type 0} (env : Env F) where
  abbrev pub enabled : Move → World F → Bool
  enabled Move.client w = can_go env.client_returns w.client w.to_client (is_done w.server)
  enabled Move.server w = can_go env.server_returns w.server w.to_server (is_done w.client)
  enabled Move.client_reset w = is_done w.server && some_left w.to_server && not (is_done w.client)
  enabled Move.server_reset w = is_done w.client && some_left w.to_client && not (is_done w.server)

  abbrev pub move : Move → World F → World F
  move Move.client w =
      let m = go env w.client w.to_client (is_done w.server) in
      record {
        client = m.proc;
        server = w.server;
        to_client = m.inbox;
        to_server = w.to_server ++ m.sent;
      }
  move Move.server w =
      let m = go env w.server w.to_server (is_done w.client) in
      record {
        client = w.client;
        server = m.proc;
        to_client = w.to_client ++ m.sent;
        to_server = m.inbox;
      }
  move Move.client_reset w = record w { client = abort env.reset w.client }
  move Move.server_reset w = record w { server = abort env.reset w.server }

  -- The worlds that `n` moves in some order lead to.
  pub data Run (w : World F) : ℕ → World F → Type 0 where
    start : Run w zero w
    later :
        {n : ℕ} {u : World F}
        → Run w n u
        → (m : Move) → enabled m u ≡ true
        → Run w (suc n) (move m u)

module _ {F : Type 0} (codec : Codec F) (st : Stream) (server : ServerSide F) (client : ClientSide)
    (opts : ClientOpts) where
  -- The control connection is open, and nothing sent.
  abbrev pub connected : Plan → World F
  connected p = record {
    client = client_proc codec st client opts p;
    server = server_proc codec st server;
    to_client = [];
    to_server = [];
  }
