-- ===== src/Session/Sample.antt =====
-- Sample data for runs of a session in memory: the JSON of each message is replaced by one byte.
use andri.Common.{
  ℕ, ◌*◌, ◌≤◌, ◌≡◌, refl, List, [], ◌∷◌, true, false, ◌==◌, none, arith, length, if◌then◌else◌,
}
use andri.Io.{ErrorKind, IoError, IoResult, ok, err}
use andri.Cli
use andri.Cli.{ClientOpts}
use andri.Proto.Messages.{
  Hello, Welcome, Negotiate, Start, TestResult, RoleDir, Msg, ProtoError, protocol_version,
}
use andri.Proto.Stream.{Codec}
use andri.Proto.Memory.{memory}
use andri.Proto.Sequence.{IsSendable}
use andri.Session.DataPath.{ServerSide, ClientSide}
use andri.Session.Server.{welcome_for, server_seed}
use andri.Session.Client.{Plan, negotiate_for}
use andri.Session.ClientLaws.{client_hello}

abbrev pub opts : ClientOpts
opts = record {
  mode = record { tcp = true; udp = false; file = none };
  duration = 10;
  parallel = 1;
  bidir = false;
  bitrate = none;
  packet = 1472;
  null_source = false;
  json = false;
}

abbrev pub plan : Plan
plan = record { mode = Cli.Mode.tcp; udp_bitrate = none; file_len = none }

abbrev pub outcome : TestResult ℕ
outcome = record {
  role = RoleDir.receive;
  bytes = 1250;
  duration_secs = 10;
  bits_per_sec = 1000;
  bytes_per_sec = 125;
  packets_expected = none;
  packets_received = none;
  packets_lost = none;
  loss_ratio = none;
  jitter_ms = none;
  samples = [];
}

abbrev pub start : Start
start = record { data_port = 40000; server_seed = server_seed }

abbrev pub old_hello : Hello
old_hello = record { protocol_version = 0; client_version = "0.0.1"; nonce = 5 }

abbrev pub welcome : Hello → Welcome
welcome h = record {
  protocol_version = protocol_version;
  server_version = "0.1.1";
  nonce = h.nonce;
  accepted = h.protocol_version == protocol_version;
}

abbrev pub byte_of : Msg ℕ → IoResult (List ℕ)
byte_of (Msg.hello h) = ok ((if h.nonce == 5 then 8 else 0) ∷ [])
byte_of (Msg.welcome w) = ok ((if w.nonce == 5 then 9 else 1) ∷ [])
byte_of (Msg.negotiate n) = ok (2 ∷ [])
byte_of (Msg.start s) = ok (3 ∷ [])
byte_of Msg.run = ok (4 ∷ [])
byte_of Msg.stop = ok (5 ∷ [])
byte_of (Msg.result r) = ok (6 ∷ [])
byte_of (Msg.error e) =
    ok (
      elim e [ ProtoError.version_mismatch ↦ 7 | ProtoError.unexpected_message ↦ 10 | _ ↦ 11 ] ∷ [])

abbrev pub unknown : IoError
unknown = IoError.new ErrorKind.invalid_data "unknown"

abbrev pub message : Negotiate → TestResult ℕ → ℕ → IoResult (Msg ℕ)
message neg r b =
    if b == 0
    then ok (Msg.hello client_hello)
    else if b == 1
    then ok (Msg.welcome (welcome client_hello))
    else if b == 2
    then ok (Msg.negotiate neg)
    else if b == 3
    then ok (Msg.start start)
    else if b == 4
    then ok Msg.run
    else if b == 5
    then ok Msg.stop
    else if b == 6
    then ok (Msg.result r)
    else if b == 7
    then ok (Msg.error ProtoError.version_mismatch)
    else if b == 8
    then ok (Msg.hello old_hello)
    else if b == 9
    then ok (Msg.welcome (welcome old_hello))
    else if b == 10
    then ok (Msg.error ProtoError.unexpected_message)
    else err unknown

abbrev pub message_of : Negotiate → TestResult ℕ → List ℕ → IoResult (Msg ℕ)
message_of neg r (b ∷ []) = message neg r b
message_of neg r _ = err unknown

-- The codec in which one negotiation and one result have a byte.
abbrev pub table : Negotiate → TestResult ℕ → Codec ℕ
table neg r = record { to_vec = byte_of; from_slice = message_of neg r }

abbrev pub bytes : Codec ℕ
bytes = table (negotiate_for opts plan) outcome

-- What it takes for a message of the table to be sendable, at its byte.
pub one_fits : (b : ℕ) → length (b ∷ []) ≤ 64 * 1024
one_fits b = omega arith

abbrev pub sendable :
    (neg : Negotiate) (r : TestResult ℕ) (m : Msg ℕ) (b : ℕ)
    → byte_of m ≡ ok (b ∷ [])
    → message neg r b ≡ ok m
    → IsSendable (table neg r) m
sendable neg r m b e d = record { payload = b ∷ []; encodes = e; decodes = d; fits = one_fits b }

abbrev pub hello_ok : IsSendable bytes (Msg.hello client_hello)
hello_ok = sendable (negotiate_for opts plan) outcome (Msg.hello client_hello) 0 refl refl

abbrev pub welcome_ok : IsSendable bytes (Msg.welcome (welcome_for bytes memory client_hello))
welcome_ok =
    sendable (negotiate_for opts plan) outcome (Msg.welcome (welcome client_hello)) 1 refl refl

abbrev pub negotiate_ok : IsSendable bytes (Msg.negotiate (negotiate_for opts plan))
negotiate_ok =
    sendable (negotiate_for opts plan) outcome (Msg.negotiate (negotiate_for opts plan)) 2 refl refl

abbrev pub start_ok : IsSendable bytes (Msg.start start)
start_ok = sendable (negotiate_for opts plan) outcome (Msg.start start) 3 refl refl

abbrev pub run_ok : IsSendable bytes Msg.run
run_ok = sendable (negotiate_for opts plan) outcome Msg.run 4 refl refl

abbrev pub stop_ok : IsSendable bytes Msg.stop
stop_ok = sendable (negotiate_for opts plan) outcome Msg.stop 5 refl refl

abbrev pub result_ok : IsSendable bytes (Msg.result outcome)
result_ok = sendable (negotiate_for opts plan) outcome (Msg.result outcome) 6 refl refl

abbrev pub unexpected_ok : IsSendable bytes (Msg.error ProtoError.unexpected_message)
unexpected_ok =
    sendable (negotiate_for opts plan) outcome (Msg.error ProtoError.unexpected_message) 10 refl
      refl

abbrev pub server : ServerSide ℕ
server = record {
  tcp_bind = ok 40000;
  udp_bind = ok 40001;
  tcp_serve = λ neg. ok outcome;
  udp_serve = λ neg. ok outcome;
  file_serve = λ neg. ok outcome;
}

abbrev pub client : ClientSide
client = record {
  file_len = λ path. ok 0;
  tcp_drive = λ start neg. ok tt;
  udp_drive = λ start neg. ok tt;
  file_drive = λ start neg path null_source. ok tt;
}

-- The frame of a one-byte payload.
abbrev pub one : ℕ → List ℕ
one b = 0 ∷ 0 ∷ 0 ∷ 1 ∷ b ∷ []
