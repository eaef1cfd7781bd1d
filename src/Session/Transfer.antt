-- ===== src/Session/Transfer.antt =====
-- A whole file transfer over the modelled data path: the control messages of both ends, the sender
-- that reads the file at the client, and the receiver at the server.
use andri.Common.{ℕ, none, some}
use andri.Float.{Float}
use andri.Cli
use andri.Proto.Stream.{Stream}
use andri.Session.Client.{Plan}

-- What the client has checked before it connects in file mode.
abbrev pub file_plan : ℕ → Plan
file_plan n = record { mode = Cli.Mode.file; udp_bitrate = none; file_len = some n }
