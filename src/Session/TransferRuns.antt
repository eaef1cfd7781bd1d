-- ===== src/Session/TransferRuns.antt =====
-- A whole file transfer over the modelled data path: five bytes, read from the file in two rounds
-- and from the connection in three.
use andri.Common.{ℕ, ◌*◌, some, none, List, [], ◌∷◌, ◌++◌, true, false, Option}
use andri.Io.{IoResult, ok}
use andri.FloatModel.{whole}
use andri.Cli.{ClientOpts}
use andri.Proto.Messages.{Negotiate, TestResult}
use andri.Proto.Memory.{Connection, memory}
use andri.Meter.Sampler.{Tick}
use andri.Session.DataPath.{ServerSide}
use andri.Session.Server.{serve_session}
use andri.Session.Client.{negotiate_for}
use andri.Session.Transfer.{file_plan}
use andri.Session.Sample.{table, outcome, server, one}
use andri.File.Serve.{serve}
use andri.File.Drive.{DiskRound}

abbrev opts : ClientOpts
opts = record {
  mode = record { tcp = false; udp = false; file = some "five.bin" };
  duration = 10;
  parallel = 1;
  bidir = false;
  bitrate = none;
  packet = 1472;
  null_source = false;
  json = true;
}

abbrev neg : Negotiate
neg = negotiate_for opts (file_plan 5)

abbrev content : List ℕ
content = 1 ∷ 2 ∷ 3 ∷ 4 ∷ 5 ∷ []

abbrev rounds : List DiskRound
rounds = (ok (1 ∷ 2 ∷ 3 ∷ []), ok tt) ∷ (ok (4 ∷ 5 ∷ []), ok tt) ∷ []

abbrev reads : List (IoResult ℕ)
reads = ok 2 ∷ ok 1 ∷ ok 2 ∷ ok 0 ∷ ok 0 ∷ ok 0 ∷ []

abbrev second : ℕ
second = 1000000000

abbrev first_tick : Tick
first_tick = record { now = second; cur = 2 }

abbrev last_tick : Tick
last_tick = record { now = 2 * second; cur = 5 }

abbrev result_of : Option (IoResult (TestResult ℕ)) → TestResult ℕ
result_of (some (ok r)) = r
result_of _ = outcome

abbrev result : TestResult ℕ
result = result_of (serve whole neg (ok tt) 0 second reads (first_tick ∷ last_tick ∷ []))

abbrev at_server : ServerSide ℕ
at_server = record server { file_serve = λ n. ok result }

abbrev from_client : Connection
from_client = record { incoming = one 0 ++ (one 2 ++ (one 4 ++ one 5)); outgoing = [] }

-- The server's session, and the client's connection with what the server has sent.
abbrev replied : IoResult (Unit {0}) × Connection
replied = serve_session (table neg result) memory at_server from_client

abbrev from_server : Connection
from_server = record { incoming = (replied.1).outgoing; outgoing = [] }
