-- ===== src/Session/Runs.antt =====
-- A whole UDP session over the modelled data path: three datagrams, one of them in the warm-up,
-- delivered in another order.
use mathlib.Core.List.{Perm}
use mathlib.Core.List.Perm
use andri.Common.{
  ℕ, zero, suc, ◌+◌, ◌-◌, ◌/◌, ◌≡◌, refl, some, none, List, [], ◌∷◌, ◌++◌, true, false, Option,
}
use andri.Io.{IoResult, ok}
use andri.Float.{Float}
use andri.FloatModel.{whole}
use andri.Cli.{ClientOpts}
use andri.Proto.Messages.{Negotiate, TestResult, Msg}
use andri.Proto.Memory.{Connection, memory}
use andri.Proto.Sequence.{IsSendable}
use andri.Session.DataPath.{ServerSide}
use andri.Session.Server.{server_seed, welcome_for, serve_session}
use andri.Session.Client.{negotiate_for}
use andri.Session.ClientLaws.{client_hello}
use andri.Session.Lossless.{udp_plan}
use andri.Session.Sample.{table, sendable, welcome, start, outcome, server, one}
use andri.Udp.Serve.{Event, stop, datagram, serve, serve_loop, finish}
use andri.Udp.Drive.{Round, Sender, Driven, finished, running, drive, new_sender}

-- Whole numbers, with quotients rounded up: one datagram in each round.
abbrev upward : Float
upward = record whole { div = λ a b. (a + b - 1) / b }

abbrev opts : ClientOpts
opts = record {
  mode = record { tcp = false; udp = true; file = none };
  duration = 1;
  parallel = 1;
  bidir = false;
  bitrate = some 144;
  packet = 18;
  null_source = false;
  json = true;
}

abbrev neg : Negotiate
neg = negotiate_for opts (udp_plan 144)

abbrev round : ℕ → Round
round at = record { checked = at; clock = λ i. at + i; answer = λ i. ok tt; reported = at }

abbrev rounds : List Round
rounds = round 5 ∷ round 10 ∷ round 15 ∷ round 2000000000 ∷ []

abbrev sender_of : Driven upward → Sender upward
sender_of (finished st) = st
sender_of (running st) = st
sender_of _ = new_sender upward 18 7

abbrev done : Sender upward
done = sender_of (drive upward server_seed neg true rounds)

abbrev sent : List (List ℕ)
sent = (done.burst).sent

abbrev nth : ℕ → List (List ℕ) → List ℕ
nth i [] = []
nth zero (x ∷ xs) = x
nth (suc i) (x ∷ xs) = nth i xs

abbrev d : ℕ → List ℕ
d i = nth i sent

abbrev shuffled : List Event
shuffled = datagram (d 0) 20 20 ∷ datagram (d 2) 30 30 ∷ datagram (d 1) 40 40 ∷ stop 50 ∷ []

-- The report over these datagrams.
abbrev result_of : Option (IoResult (TestResult ℕ)) → TestResult ℕ
result_of (some (ok r)) = r
result_of _ = outcome

abbrev report : TestResult ℕ
report = result_of (serve upward neg 0 shuffled)

reported : serve upward neg 0 shuffled ≡ some (ok report)
unfolding serve serve_loop finish
reported = refl

abbrev at_server : ServerSide ℕ
at_server = record server { udp_bind = ok 40000; udp_serve = λ n. ok report }

abbrev IsKnown : (m : Msg ℕ) → Type 0
IsKnown = IsSendable (table neg report)

abbrev hello_ok : IsKnown (Msg.hello client_hello)
hello_ok = sendable neg report (Msg.hello client_hello) 0 refl refl

abbrev welcome_ok : IsKnown (Msg.welcome (welcome_for (table neg report) memory client_hello))
welcome_ok = sendable neg report (Msg.welcome (welcome client_hello)) 1 refl refl

abbrev negotiate_ok : IsKnown (Msg.negotiate neg)
negotiate_ok = sendable neg report (Msg.negotiate neg) 2 refl refl

abbrev start_ok : IsKnown (Msg.start start)
start_ok = sendable neg report (Msg.start start) 3 refl refl

abbrev run_ok : IsKnown Msg.run
run_ok = sendable neg report Msg.run 4 refl refl

abbrev stop_ok : IsKnown Msg.stop
stop_ok = sendable neg report Msg.stop 5 refl refl

abbrev result_ok : IsKnown (Msg.result report)
result_ok = sendable neg report (Msg.result report) 6 refl refl

abbrev from_client : Connection
from_client = record { incoming = one 0 ++ (one 2 ++ (one 4 ++ one 5)); outgoing = [] }

-- The server's session, and the client's connection with what the server has sent.
abbrev replied : IoResult (Unit {0}) × Connection
replied = serve_session (table neg report) memory at_server from_client

abbrev from_server : Connection
from_server = record { incoming = (replied.1).outgoing; outgoing = [] }
