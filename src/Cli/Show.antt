-- ===== src/Cli/Show.antt =====
-- How src/cli.rs shows a rate and a mode. Printing a f64 with a number of decimals is the standard
-- library's.
use Prim.Native.String.{◌++◌}
use andri.Common.{ℕ, String}
use andri.Float.{Float}
use andri.Cli
use andri.Cli.{Format}

abbrev pub mode_name : Cli.Mode → String
mode_name Cli.Mode.tcp = "TCP"
mode_name Cli.Mode.udp = "UDP"
mode_name Cli.Mode.file = "FILE"

module _ (fl : Float) (fixed : ℕ → fl.F → String) where
  open fl use {F, of_u64, div}

  unfoldable pub render : Format → F → String
  render Format.bits bits_per_sec = fixed 0 bits_per_sec ++ " bit/s"
  render Format.bytes bits_per_sec = fixed 0 (div bits_per_sec (of_u64 8)) ++ " byte/s"
  render Format.mbps bits_per_sec = fixed 2 (div bits_per_sec (of_u64 1_000_000)) ++ " Mbps"
  render Format.gbps bits_per_sec = fixed 2 (div bits_per_sec (of_u64 1_000_000_000)) ++ " Gbps"
