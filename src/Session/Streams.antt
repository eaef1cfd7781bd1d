-- ===== src/Session/Streams.antt =====
-- A whole TCP session over the modelled data path: the control messages of both ends, the streams of
-- the client, and the receivers of the server.
use andri.Common.{ℕ, ◌+◌, ◌*◌, none, List, add64}
use andri.Float.{Float}
use andri.Cli
use andri.Cli.{ClientOpts}
use andri.Proto.Messages.{Negotiate}
use andri.Proto.Stream.{Stream, IsByteStream, Codec}
use andri.Session.DataPath.{ServerSide, ClientSide}
use andri.Session.Server.{server_seed}
use andri.Session.Client.{Plan, negotiate_for}
use andri.Tcp.Drive.{Link, Sent, spawn_all}
use andri.Tcp.EndToEnd.{written as wrote_by}

-- What the client has checked before it connects in TCP mode.
abbrev pub tcp_plan : Plan
tcp_plan = record { mode = Cli.Mode.tcp; udp_bitrate = none; file_len = none }

-- The whole time of a test, in nanoseconds.
abbrev pub window : Negotiate → ℕ
window neg = add64 neg.duration_secs neg.warmup_secs * 1000000000

module _ (fl : Float) (codec : Codec fl.F) (st : Stream) (up : IsByteStream st)
    (server : ServerSide fl.F) (client : ClientSide) (opts : ClientOpts) where
  open up use {pending, written}

  abbrev pub neg : Negotiate
  neg = negotiate_for opts tcp_plan

  -- The tasks of the client's streams, in a test that starts at `t`.
  abbrev pub tasks : ℕ → (ℕ → Link) → List Sent
  tasks t links = spawn_all server_seed (t + window neg) neg links opts.parallel 0
