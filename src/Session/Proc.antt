-- ===== src/Session/Proc.antt =====
-- The two ends of a session (`serve_session` and `connect` of src/session.rs) as processes that send
-- and receive messages, apart from how a message travels.
use andri.Common.{ℕ, not, ◌||◌, ◌==◌, if◌then◌else◌}
use andri.Io.{IoResult, Io, ok, err, on_ok}
use andri.Cli
use andri.Cli.{ClientOpts}
use andri.Proto.Messages.{Negotiate, TestResult, ProtoError, Msg, protocol_version}
use andri.Proto.Stream.{Stream, Codec}
use andri.Proto.Frame.{write_msg, read_msg}
use andri.Session.DataPath.{ServerSide, ClientSide}
use andri.Session.Server.{server_seed, rejected, version}
use andri.Session.Client.{client_nonce, failure, Plan, negotiate_for}
use andri.Session.Server
use andri.Session.Client

-- One end of a session, up to its next message.
pub data Proc (F : Type 0) (A : Type 0) : Type 0 where
  done : IoResult A → Proc F A
  send : Msg F → Proc F A → Proc F A
  recv : (Msg F → Proc F A) → Proc F A
  -- A message is read, and the outcome ignored.
  drain : Proc F A → Proc F A
  -- The data path runs, beside the control connection.
  path : Proc F A → Proc F A

-- A process over a framed connection, where each data path returns: an error of the connection ends
-- it.
unfoldable pub interpret : {F A : Type 0} (codec : Codec F) (st : Stream) → Proc F A → Io st.S A
interpret codec st (done r) s = (r, s)
interpret codec st (send m k) s = on_ok (write_msg codec st m s) (λ _ s'. interpret codec st k s')
interpret codec st (recv k) s = on_ok (read_msg codec st s) (λ m s'. interpret codec st (k m) s')
interpret codec st (drain k) s = interpret codec st k (read_msg codec st s).1
interpret codec st (path k) s = interpret codec st k s

-- A call between two messages.
abbrev pub call : {F A B : Type 0} → IoResult B → (B → Proc F A) → Proc F A
call (ok b) k = k b
call (err e) k = done (err e)

module _ {F : Type 0} (codec : Codec F) (st : Stream) (side : ServerSide F) where
  abbrev pub refuse : ProtoError → Proc F (Unit {0})
  refuse e = send (Msg.error e) (done (err (rejected e)))

  -- The one message that is read after the data path, or inside of it in the TCP and UDP modes, is
  -- ignored; a data path that fails on its own has not read it.
  abbrev pub measured_proc : IoResult (TestResult F) → Proc F (Unit {0})
  measured_proc r = call r (λ result. drain (send (Msg.result result) (done (ok tt))))

  abbrev pub run_proc : Negotiate → Msg F → Proc F (Unit {0})
  run_proc neg Msg.run = path (measured_proc (Server.measure codec st side neg neg.mode))
  run_proc neg _ = refuse ProtoError.unexpected_message

  abbrev pub bound_proc : Negotiate → IoResult ℕ → Proc F (Unit {0})
  bound_proc neg r = call r (λ data_port.
      send (Msg.start (record { data_port = data_port; server_seed = server_seed }))
        (recv (run_proc neg)))

  abbrev pub negotiate_proc : Msg F → Proc F (Unit {0})
  negotiate_proc (Msg.negotiate neg) = bound_proc neg (Server.bind codec st side neg.mode)
  negotiate_proc _ = refuse ProtoError.unexpected_message

  abbrev pub hello_proc : Msg F → Proc F (Unit {0})
  hello_proc (Msg.hello h) = send (Msg.welcome (Server.welcome_for codec st h)) (
      if not (h.protocol_version == protocol_version)
      then refuse ProtoError.version_mismatch
      else recv negotiate_proc)
  hello_proc _ = refuse ProtoError.unexpected_message

  unfoldable pub server_proc : Proc F (Unit {0})
  server_proc = recv hello_proc

module _ {F : Type 0} (codec : Codec F) (st : Stream) (side : ClientSide) (opts : ClientOpts) where
  abbrev pub result_proc : Msg F → Proc F (TestResult F)
  result_proc (Msg.result r) = done (ok r)
  result_proc _ = done (err (failure "expected Result"))

  abbrev pub driven_proc : IoResult (Unit {0}) → Proc F (TestResult F)
  driven_proc r = call r (λ _. send Msg.stop (recv result_proc))

  abbrev pub start_proc : Cli.Mode → Negotiate → Msg F → Proc F (TestResult F)
  start_proc mode neg (Msg.start start) =
      send Msg.run (path (driven_proc (Client.drive codec st side opts mode start neg)))
  start_proc mode neg _ = done (err (failure "expected Start"))

  abbrev pub welcome_proc : Plan → Msg F → Proc F (TestResult F)
  welcome_proc p (Msg.welcome w) =
      if not w.accepted || not (w.nonce == client_nonce)
      then done (err (failure "server rejected handshake"))
      else send (Msg.negotiate (negotiate_for opts p))
          (recv (start_proc p.mode (negotiate_for opts p)))
  welcome_proc p _ = done (err (failure "expected Welcome"))

  unfoldable pub client_proc : Plan → Proc F (TestResult F)
  client_proc p =
      send
        (Msg.hello (record {
          protocol_version = protocol_version;
          client_version = version;
          nonce = client_nonce;
        }))
        (recv (welcome_proc p))
