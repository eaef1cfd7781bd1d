-- ===== src/Session/Server.antt =====
-- `serve_session` and `reject` of src/session.rs.
use andri.Common.{ℕ, not, String, ◌==◌, if◌then◌else◌}
use andri.Io.{ErrorKind, IoError, IoResult, Io, ok, ◌>>=◌, ◌>>◌, throw, lift}
use andri.Proto.Messages.{
  Hello, Welcome, Negotiate, TestResult, Mode, ProtoError, Msg, protocol_version,
}
use andri.Proto.Stream.{Stream, Codec}
use andri.Proto.Frame.{write_msg, read_msg}
use andri.Session.DataPath.{ServerSide}

-- CARGO_PKG_VERSION, from Cargo.toml.
abbrev pub version : String
version = "0.1.1"

abbrev pub server_seed : ℕ
server_seed = 0x5EED_2026

-- The `{err:?}` of an error.
abbrev pub debug : ProtoError → String
debug ProtoError.version_mismatch = "rejected: VersionMismatch"
debug ProtoError.invalid_params = "rejected: InvalidParams"
debug ProtoError.unexpected_message = "rejected: UnexpectedMessage"
debug ProtoError.data_connect_failed = "rejected: DataConnectFailed"
debug ProtoError.timeout = "rejected: Timeout"
debug ProtoError.internal = "rejected: Internal"

abbrev pub rejected : ProtoError → IoError
rejected e = IoError.new ErrorKind.invalid_data (debug e)

-- `let _ = …`: the action is done, and its outcome ignored.
abbrev pub ignore : {S A : Type 0} → Io S A → Io S (Unit {0})
ignore action s = (ok tt, (action s).1)

module _ {F : Type 0} (codec : Codec F) (st : Stream) where
  open st use {S}

  unfoldable pub reject : {A : Type 0} → ProtoError → Io S A
  reject e = do write_msg codec st (Msg.error e); throw (rejected e)

  abbrev pub welcome_for : Hello → Welcome
  welcome_for h = record {
    protocol_version = protocol_version;
    server_version = version;
    nonce = h.nonce;
    accepted = h.protocol_version == protocol_version;
  }

  module _ (side : ServerSide F) where
    abbrev pub bind : Mode → IoResult ℕ
    bind Mode.tcp = side.tcp_bind
    bind Mode.file = side.tcp_bind
    bind Mode.udp = side.udp_bind

    -- TCP and UDP run until the control side has read one message, expected to be `Stop`; the file
    -- mode reads it afterwards. Either way it is read once, if the data path succeeds.
    abbrev pub measure : Negotiate → Mode → IoResult (TestResult F)
    measure neg Mode.tcp = side.tcp_serve neg
    measure neg Mode.udp = side.udp_serve neg
    measure neg Mode.file = side.file_serve neg

    -- From the state in which `Run` is expected.
    unfoldable pub on_run : Negotiate → Msg F → Io S (Unit {0})
    on_run neg Msg.run = do
      result ← lift (measure neg neg.mode)
      ignore (read_msg codec st)
      write_msg codec st (Msg.result result)
    on_run neg _ = reject ProtoError.unexpected_message

    unfoldable pub on_negotiate : Msg F → Io S (Unit {0})
    on_negotiate (Msg.negotiate neg) = do
      data_port ← lift (bind neg.mode)
      write_msg codec st (Msg.start (record { data_port = data_port; server_seed = server_seed }))
      msg ← read_msg codec st
      on_run neg msg
    on_negotiate _ = reject ProtoError.unexpected_message

    unfoldable pub on_hello : Msg F → Io S (Unit {0})
    on_hello (Msg.hello h) = do
      write_msg codec st (Msg.welcome (welcome_for h))
      if not (h.protocol_version == protocol_version)
          then reject ProtoError.version_mismatch
          else do msg ← read_msg codec st; on_negotiate msg
    on_hello _ = reject ProtoError.unexpected_message

    unfoldable pub serve_session : Io S (Unit {0})
    serve_session = do msg ← read_msg codec st; on_hello msg
