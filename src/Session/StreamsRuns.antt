-- ===== src/Session/StreamsRuns.antt =====
-- A whole TCP session over the modelled data path: one stream, which writes one buffer, of which 70
-- bytes arrive in the warm-up and 30 in the window.
use andri.Common.{ℕ, ◌+◌, ◌*◌, some, none, List, [], ◌∷◌, ◌++◌, true, false, Option}
use mathlib.Core.Option
use andri.Io.{IoResult, ok}
use andri.FloatModel.{whole}
use andri.Cli.{ClientOpts}
use andri.Proto.Messages.{Negotiate, Sample, TestResult}
use andri.Proto.Memory.{Connection, memory}
use andri.Session.DataPath.{ServerSide}
use andri.Session.Server.{server_seed, serve_session}
use andri.Session.Client.{negotiate_for}
use andri.Session.Streams.{tcp_plan}
use andri.Session.Sample.{table, start, outcome, server, one}
use andri.Tcp.Serve
use andri.Tcp.Serve.{Event, read, sampling, tick, warm, stop, run, series, serve}
use andri.Tcp.Drive.{Link, Sent, spawn_all}

abbrev opts : ClientOpts
opts = record {
  mode = record { tcp = true; udp = false; file = none };
  duration = 1;
  parallel = 1;
  bidir = false;
  bitrate = none;
  packet = 1472;
  null_source = false;
  json = true;
}

abbrev neg : Negotiate
neg = negotiate_for opts tcp_plan

abbrev second : ℕ
second = 1000000000

-- One write before the deadline, and the end of the loop after it.
abbrev links : ℕ → Link
links i = record { rounds = (10, ok tt) ∷ (2 * second, ok tt) ∷ []; flushed = ok tt }

abbrev tasks : List Sent
tasks = spawn_all server_seed (0 + 2 * second) neg links 1 0

-- 70 bytes before the snapshot of the warm-up, 30 after it.
abbrev before : List Event
before = sampling ∷ read 0 (ok 70) ∷ []

abbrev during : List Event
during = tick second ∷ read 0 (ok 30) ∷ tick (2 * second) ∷ []

abbrev events : List Event
events = before ++ (warm second ∷ (during ++ (stop (2 * second) ∷ [])))

abbrev samples : List (Sample ℕ)
samples =
    let st = run (Serve.start 1) events in
    Option.get_or (series whole 0 (2 * second) st.first st.ticks) []

abbrev result_of : Option (IoResult (TestResult ℕ)) → TestResult ℕ
result_of (some (ok r)) = r
result_of _ = outcome

abbrev result : TestResult ℕ
result = result_of (serve whole neg 0 (ok tt ∷ []) events)

abbrev at_server : ServerSide ℕ
at_server = record server { tcp_serve = λ n. ok result }

abbrev from_client : Connection
from_client = record { incoming = one 0 ++ (one 2 ++ (one 4 ++ one 5)); outgoing = [] }

-- The server's session, and the client's connection with what the server has sent.
abbrev replied : IoResult (Unit {0}) × Connection
replied = serve_session (table neg result) memory at_server from_client

abbrev from_server : Connection
from_server = record { incoming = (replied.1).outgoing; outgoing = [] }
