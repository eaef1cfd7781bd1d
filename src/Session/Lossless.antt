-- ===== src/Session/Lossless.antt =====
-- A whole UDP session over the modelled data path: the control messages of both ends, the paced
-- sender at the client, and the receiver at the server.
use andri.Common.{ℕ, ◌≡◌, Option, none, some, List}
use andri.Io.{IoResult, ok}
use andri.Float.{Float}
use andri.Cli
use andri.Proto.Stream.{Stream}
use andri.Session.Client.{Plan}

-- What the client has checked before it connects in UDP mode.
abbrev pub udp_plan : ℕ → Plan
udp_plan bitrate = record { mode = Cli.Mode.udp; udp_bitrate = some bitrate; file_len = none }

pub some_ok_inj :
    {A : Type 0} (a b : A) → Path (Option (IoResult A)) (some (ok a)) (some (ok b)) → a ≡ b
some_ok_inj a b e = cc
