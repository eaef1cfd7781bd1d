-- ===== src/Session/Client.antt =====
-- `connect` of src/session.rs: the checks before connecting, and the client's side of the session.
-- Print adds what it prints.
use andri.Common.{
  ℕ, Option, none, some, Bool, true, false, not, ◌||◌, String, ◌==◌, if◌then◌else◌, ◌*◌,
}
use andri.Io.{ErrorKind, IoError, IoResult, Io, ok, err, ◌>>=◌, ◌>>◌, return, throw, lift}
use andri.Cli
use andri.Cli.{Cli, ClientOpts, selected}
use andri.Proto.Messages.{Negotiate, Start, TestResult, Mode, Msg, protocol_version}
use andri.Proto.Stream.{Stream, Codec}
use andri.Proto.Frame.{write_msg, read_msg}
use andri.Session.DataPath.{ClientSide}
use andri.Session.Server.{version}

abbrev pub write_buf : ℕ
write_buf = 64 * 1024

abbrev pub warmup_secs : ℕ
warmup_secs = 1

abbrev pub client_nonce : ℕ
client_nonce = 0xA17D_2026

abbrev pub failure : String → IoError
failure text = IoError.new ErrorKind.other text

-- What is known before the control connection is opened.
pub record Plan : Type 0 where
  pub mode : Cli.Mode
  pub udp_bitrate : Option ℕ
  pub file_len : Option ℕ

abbrev pub bind_ok : {A B : Type 0} → IoResult A → (A → IoResult B) → IoResult B
bind_ok (ok a) f = f a
bind_ok (err e) f = err e

abbrev pub ok_or : {A : Type 0} → Option A → String → IoResult A
ok_or none text = err (failure text)
ok_or (some a) text = ok a

module _ (side : ClientSide) where
  abbrev pub plan_for : ClientOpts → Cli.Mode → IoResult Plan
  plan_for opts Cli.Mode.tcp =
      ok (record { mode = Cli.Mode.tcp; udp_bitrate = none; file_len = none })
  plan_for opts Cli.Mode.udp =
      bind_ok (ok_or opts.bitrate "--udp requires --bitrate (e.g. --bitrate 1G, 500M, 10M)")
        (λ b. ok (record { mode = Cli.Mode.udp; udp_bitrate = some b; file_len = none }))
  plan_for opts Cli.Mode.file = bind_ok (ok_or (opts.mode).file "--file requires a path") (λ path.
      bind_ok (side.file_len path)
        (λ n. ok (record { mode = Cli.Mode.file; udp_bitrate = none; file_len = some n })))

  unfoldable pub plan : ClientOpts → IoResult Plan
  plan opts =
      bind_ok
        (ok_or (selected opts.mode)
          "a mode is required: pass one of --tcp, --udp, or --file <path>")
        (plan_for opts)

abbrev pub wire_mode : Cli.Mode → Mode
wire_mode Cli.Mode.tcp = Mode.tcp
wire_mode Cli.Mode.udp = Mode.udp
wire_mode Cli.Mode.file = Mode.file

abbrev pub is_udp : Cli.Mode → Bool
is_udp Cli.Mode.udp = true
is_udp _ = false

abbrev pub is_file : Cli.Mode → Bool
is_file Cli.Mode.file = true
is_file _ = false

-- `bool::then_some`.
abbrev pub then_some : {A : Type 0} → Bool → A → Option A
then_some b a = if b then some a else none

unfoldable pub negotiate_for : ClientOpts → Plan → Negotiate
negotiate_for opts p = record {
  mode = wire_mode p.mode;
  duration_secs = opts.duration;
  warmup_secs = if is_file p.mode then 0 else warmup_secs;
  parallel = opts.parallel;
  buffer_bytes = write_buf;
  bidir = opts.bidir;
  bitrate_bps = p.udp_bitrate;
  packet_bytes = then_some (is_udp p.mode) opts.packet;
  file_len = p.file_len;
  null_source = then_some (is_file p.mode) opts.null_source;
}

module _ {F : Type 0} (codec : Codec F) (st : Stream) (side : ClientSide) (opts : ClientOpts) where
  open st use {S}

  abbrev pub drive : Cli.Mode → Start → Negotiate → IoResult (Unit {0})
  drive Cli.Mode.tcp start neg = side.tcp_drive start neg
  drive Cli.Mode.udp start neg = side.udp_drive start neg
  drive Cli.Mode.file start neg = side.file_drive start neg (opts.mode).file opts.null_source

  -- From the state in which `Result` is expected.
  abbrev pub on_result : Msg F → Io S (TestResult F)
  on_result (Msg.result r) = return r
  on_result _ = throw (failure "expected Result")

  unfoldable pub on_start : Cli.Mode → Negotiate → Msg F → Io S (TestResult F)
  on_start mode neg (Msg.start start) = do
    write_msg codec st Msg.run
    lift (drive mode start neg)
    write_msg codec st Msg.stop
    msg ← read_msg codec st
    on_result msg
  on_start mode neg _ = throw (failure "expected Start")

  unfoldable pub on_welcome : Plan → Msg F → Io S (TestResult F)
  on_welcome p (Msg.welcome w) =
      if not w.accepted || not (w.nonce == client_nonce)
      then throw (failure "server rejected handshake")
      else do
        write_msg codec st (Msg.negotiate (negotiate_for opts p))
        msg ← read_msg codec st
        on_start p.mode (negotiate_for opts p) msg
  on_welcome p _ = throw (failure "expected Welcome")

  -- On the control connection, once it is open; the value is the result that is printed.
  unfoldable pub client_session : Plan → Io S (TestResult F)
  client_session p = do
    write_msg codec st (
        Msg.hello (record {
          protocol_version = protocol_version;
          client_version = version;
          nonce = client_nonce;
        }))
    msg ← read_msg codec st
    on_welcome p msg

  -- The whole of `connect`: no connection is opened where a check fails.
  unfoldable pub connect : IoResult S → IoResult (TestResult F)
  connect opened = bind_ok (plan side opts) (λ p. bind_ok opened (λ s. (client_session p s).0))
