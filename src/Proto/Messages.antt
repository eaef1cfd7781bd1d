-- ===== src/Proto/Messages.antt =====
-- The message types of src/proto.rs. `F` is the type of f64.
use andri.Common.{ℕ, ◌*◌, Bool, Option, List, String}

abbrev pub protocol_version : ℕ
protocol_version = 1

abbrev pub max_frame_bytes : ℕ
max_frame_bytes = 64 * 1024

pub record Hello : Type 0 where
  pub protocol_version : ℕ  -- u16
  pub client_version : String
  pub nonce : ℕ  -- u64

pub record Welcome : Type 0 where
  pub protocol_version : ℕ  -- u16
  pub server_version : String
  pub nonce : ℕ  -- u64
  pub accepted : Bool

pub data Mode : Type 0 where
  tcp udp file : Mode

pub record Negotiate : Type 0 where
  pub mode : Mode
  pub duration_secs : ℕ  -- u64
  pub warmup_secs : ℕ  -- u64
  pub parallel : ℕ  -- u32
  pub buffer_bytes : ℕ  -- usize
  pub bidir : Bool
  pub bitrate_bps : Option ℕ  -- u64
  pub packet_bytes : Option ℕ  -- usize
  pub file_len : Option ℕ  -- u64
  pub null_source : Option Bool

pub record Start : Type 0 where
  pub data_port : ℕ  -- u16
  pub server_seed : ℕ  -- u64

pub data RoleDir : Type 0 where
  send receive : RoleDir

pub record Sample (F : Type 0) : Type 0 where
  pub t_secs : F
  pub bytes : ℕ  -- u64
  pub bits_per_sec : F
  pub packets_lost : Option ℕ  -- u64
  pub jitter_ms : Option F

pub record TestResult (F : Type 0) : Type 0 where
  pub role : RoleDir
  pub bytes : ℕ  -- u64
  pub duration_secs : F
  pub bits_per_sec : F
  pub bytes_per_sec : F
  pub packets_expected : Option ℕ  -- u64
  pub packets_received : Option ℕ  -- u64
  pub packets_lost : Option ℕ  -- u64
  pub loss_ratio : Option F
  pub jitter_ms : Option F
  pub samples : List (Sample F)

pub data ProtoError : Type 0 where
  version_mismatch invalid_params unexpected_message : ProtoError
  data_connect_failed timeout internal : ProtoError

pub data Msg (F : Type 0) : Type 0 where
  hello : Hello → Msg F
  welcome : Welcome → Msg F
  negotiate : Negotiate → Msg F
  start : Start → Msg F
  run : Msg F
  stop : Msg F
  result : TestResult F → Msg F
  error : ProtoError → Msg F
