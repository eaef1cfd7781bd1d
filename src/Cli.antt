-- ===== src/Cli.antt =====
-- The command line (src/cli.rs): its types, as clap fills them in, and the choice of a mode.
pub mod Bitrate
pub mod BitrateLaws
pub mod Show
mod Replay
mod Tests
use andri.Common.{ℕ, Bool, Option, none, some, String, is_some, if◌then◌else◌}

abbrev pub default_port : ℕ
default_port = 5201

pub data Format : Type 0 where
  bits bytes mbps gbps : Format

pub record Role : Type 0 where
  pub server : Bool
  pub client : Option String

pub data Mode : Type 0 where
  tcp udp file : Mode

pub record ModeFlags : Type 0 where
  pub tcp : Bool
  pub udp : Bool
  pub file : Option String

pub record ClientOpts : Type 0 where
  pub mode : ModeFlags
  pub duration : ℕ  -- u64
  pub parallel : ℕ  -- u32
  pub bidir : Bool
  pub bitrate : Option ℕ  -- u64
  pub packet : ℕ  -- usize
  pub null_source : Bool
  pub json : Bool

pub record Cli : Type 0 where
  pub role : Role
  pub client_opts : ClientOpts
  pub port : ℕ  -- u16
  pub format : Format
  pub verbose : Bool

unfoldable pub selected : ModeFlags → Option Mode
selected flags =
    if flags.tcp
    then some Mode.tcp
    else if flags.udp
    then some Mode.udp
    else if is_some flags.file
    then some Mode.file
    else none
