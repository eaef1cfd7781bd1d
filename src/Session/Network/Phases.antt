-- ===== src/Session/Network/Phases.antt =====
-- The worlds that a session can come to, whatever the order of the moves and the outcomes of the
-- data path.
use andri.Common.{ℕ, suc, ◌≤◌, ◌≡◌, List, [], ◌∷◌, ◌⊎◌, Bool}
use andri.Io.{IoError, IoResult, ok, err}
use andri.Cli.{ClientOpts}
use andri.Proto.Messages.{Negotiate, Start, TestResult, Msg}
use andri.Proto.Stream.{Stream, Codec}
use andri.Session.DataPath.{ServerSide, ClientSide}
use andri.Session.Server
use andri.Session.Server.{server_seed}
use andri.Session.Client
use andri.Session.Client.{Plan, negotiate_for}
use andri.Session.ClientLaws.{client_hello}
use andri.Session.Proc.{
  Proc, done, send, recv, path, measured_proc, run_proc, bound_proc, negotiate_proc, server_proc,
  result_proc, driven_proc, start_proc, welcome_proc,
}
use andri.Session.Network.{World, Env, Move, move, checked, connected}

-- The two ends of one session, the errors that a closed connection and a reset give, and whether the
-- data paths return. The messages of the handshake can be encoded within the cap; of the result this
-- is not assumed.
pub record Setting (F : Type 0) : Type 1 where
  pub codec : Codec F
  pub st : Stream
  pub at_server : ServerSide F
  pub at_client : ClientSide
  pub opts : ClientOpts
  pub p : Plan
  pub eof : IoError
  pub reset : IoError
  pub client_returns : Bool
  pub server_returns : Bool
  pub hello_ok : checked codec (Msg.hello client_hello) ≡ ok tt
  pub welcome_ok : checked codec (Msg.welcome (Server.welcome_for codec st client_hello)) ≡ ok tt
  pub negotiate_ok : checked codec (Msg.negotiate (negotiate_for opts p)) ≡ ok tt
  pub start_ok :
      (port : ℕ)
      → checked codec (Msg.start (record { data_port = port; server_seed = server_seed })) ≡ ok tt
  pub run_ok : checked codec Msg.run ≡ ok tt
  pub stop_ok : checked codec Msg.stop ≡ ok tt

module _ {F : Type 0} (g : Setting F) where
  open g use {codec, st, at_server, at_client, opts, p, eof, reset}

  abbrev pub env : Env F
  env = record {
    check = checked codec;
    eof = eof;
    reset = reset;
    client_returns = g.client_returns;
    server_returns = g.server_returns;
  }

  abbrev pub neg : Negotiate
  neg = negotiate_for opts p

  abbrev pub start_of : ℕ → Start
  start_of port = record { data_port = port; server_seed = server_seed }

  -- What the session takes from the data path at both ends.
  abbrev pub bound : IoResult ℕ
  bound = Server.bind codec st at_server neg.mode

  abbrev pub measured : IoResult (TestResult F)
  measured = Server.measure codec st at_server neg neg.mode

  abbrev pub driven : ℕ → IoResult (Unit {0})
  driven port = Client.drive codec st at_client opts p.mode (start_of port) neg

  -- Both ends have a data path that succeeds, with this result.
  abbrev pub Success : ℕ → TestResult F → Type 0
  Success port r = (bound ≡ ok port) × (driven port ≡ ok tt) × (measured ≡ ok r)

  pub data Phase : Type 0 where
    opened greeting welcoming welcomed negotiating negotiated binding : Phase
    started driving ran returned working early first_measured measuring :
        (port : ℕ) → bound ≡ ok port → Phase
    stopping stopped waiting : (port : ℕ) → bound ≡ ok port → driven port ≡ ok tt → Phase
    resulting : (port : ℕ) (r : TestResult F) → Success port r → Phase
    answered finished :
        (port : ℕ) (r : TestResult F)
        → Success port r
        → checked codec (Msg.result r) ≡ ok tt
        → Phase
    -- The server's result is not sent.
    unsent given_up :
        (port : ℕ) (r : TestResult F) (e : IoError)
        → Success port r
        → checked codec (Msg.result r) ≡ err e
        → Phase
    -- The server has no port, and the client no `Start`.
    unstarted : (e : IoError) → bound ≡ err e → Phase
    -- The client's data path has failed, and the server sends its result all the same.
    unheard sent_unheard :
        (port : ℕ) (e : IoError) (r : TestResult F)
        → bound ≡ ok port
        → driven port ≡ err e
        → measured ≡ ok r
        → Phase
    unheard_unsent : (port : ℕ) (e e' : IoError) → bound ≡ ok port → driven port ≡ err e → Phase
    -- The server's data path has failed, and the client reads no result, with the first error.
    cut : (e e' : IoError) → (e ≡ eof) ⊎ (e ≡ reset) → measured ≡ err e' → Phase

  abbrev welcome : Msg F
  welcome = Msg.welcome (Server.welcome_for codec st client_hello)

  abbrev start_msg : ℕ → Msg F
  start_msg port = Msg.start (start_of port)

  abbrev awaiting_result : Proc F (TestResult F)
  awaiting_result = recv (result_proc codec st at_client opts)

  abbrev awaiting_welcome : Proc F (TestResult F)
  awaiting_welcome = recv (welcome_proc codec st at_client opts p)

  abbrev awaiting_start : Proc F (TestResult F)
  awaiting_start = recv (start_proc codec st at_client opts p.mode neg)

  abbrev awaiting_negotiate : Proc F (Unit {0})
  awaiting_negotiate = recv (negotiate_proc codec st at_server)

  abbrev awaiting_run : Proc F (Unit {0})
  awaiting_run = recv (run_proc codec st at_server neg)

  abbrev driven_at : ℕ → Proc F (TestResult F)
  driven_at port = driven_proc codec st at_client opts (driven port)

  abbrev measured_at : Proc F (Unit {0})
  measured_at = measured_proc codec st at_server measured

  abbrev bound_at : Proc F (Unit {0})
  bound_at = bound_proc codec st at_server neg bound

  abbrev sending : TestResult F → Proc F (Unit {0})
  sending r = send (Msg.result r) (done (ok tt))

  -- The client's process, what it has to read, the server's process, and what that has to read.
  abbrev world : Proc F (TestResult F) → List (Msg F) → Proc F (Unit {0}) → List (Msg F) → World F
  world c to_client s to_server = record {
    client = c;
    server = s;
    to_client = to_client;
    to_server = to_server;
  }

  abbrev pub world_at : Phase → World F
  world_at opened = connected codec st at_server at_client opts p
  world_at greeting =
      world awaiting_welcome [] (server_proc codec st at_server) (Msg.hello client_hello ∷ [])
  world_at welcoming = world awaiting_welcome [] (send welcome awaiting_negotiate) []
  world_at welcomed = world awaiting_welcome (welcome ∷ []) awaiting_negotiate []
  world_at negotiating = world (send (Msg.negotiate neg) awaiting_start) [] awaiting_negotiate []
  world_at negotiated = world awaiting_start [] awaiting_negotiate (Msg.negotiate neg ∷ [])
  world_at binding = world awaiting_start [] bound_at []
  world_at (started port b) = world awaiting_start (start_msg port ∷ []) awaiting_run []
  world_at (driving port b) = world (send Msg.run (path (driven_at port))) [] awaiting_run []
  world_at (ran port b) = world (path (driven_at port)) [] awaiting_run (Msg.run ∷ [])
  world_at (returned port b) = world (driven_at port) [] awaiting_run (Msg.run ∷ [])
  world_at (working port b) = world (path (driven_at port)) [] (path measured_at) []
  world_at (early port b) = world (driven_at port) [] (path measured_at) []
  world_at (stopped port b d) = world awaiting_result [] (path measured_at) (Msg.stop ∷ [])
  world_at (first_measured port b) = world (path (driven_at port)) [] measured_at []
  world_at (stopping port b d) = world awaiting_result [] awaiting_run (Msg.run ∷ Msg.stop ∷ [])
  world_at (measuring port b) = world (driven_at port) [] measured_at []
  world_at (waiting port b d) = world awaiting_result [] measured_at (Msg.stop ∷ [])
  world_at (resulting port r ok_all) = world awaiting_result [] (sending r) []
  world_at (answered port r ok_all fits) =
      world awaiting_result (Msg.result r ∷ []) (done (ok tt)) []
  world_at (finished port r ok_all fits) = world (done (ok r)) [] (done (ok tt)) []
  world_at (unsent port r e ok_all no_room) = world awaiting_result [] (done (err e)) []
  world_at (given_up port r e ok_all no_room) = world (done (err eof)) [] (done (err e)) []
  world_at (unstarted e b) = world (done (err eof)) [] (done (err e)) []
  world_at (unheard port e r b d m) = world (done (err e)) [] (sending r) []
  world_at (sent_unheard port e r b d m) =
      world (done (err e)) (Msg.result r ∷ []) (done (ok tt)) []
  world_at (unheard_unsent port e e' b d) = world (done (err e)) [] (done (err e')) []
  world_at (cut e e' lost m) = world (done (err e)) [] (done (err e')) (Msg.stop ∷ [])

  -- The moves that are left at most.
  abbrev pub left : Phase → ℕ
  left opened = 16
  left greeting = 15
  left welcoming = 14
  left welcomed = 13
  left negotiating = 12
  left negotiated = 11
  left binding = 10
  left (started port b) = 9
  left (driving port b) = 8
  left (ran port b) = 7
  left (returned port b) = 6
  left (working port b) = 6
  left (early port b) = 5
  left (first_measured port b) = 5
  left (stopping port b d) = 5
  left (stopped port b d) = 4
  left (measuring port b) = 4
  left (waiting port b d) = 3
  left (resulting port r ok_all) = 2
  left (answered port r ok_all fits) = 1
  left (unsent port r e ok_all no_room) = 1
  left (unheard port e r b d m) = 1
  left _ = 0

  abbrev pub Next : Move → Phase → Type 0
  Next m ph = (ph' : Phase) × (move env m (world_at ph) ≡ world_at ph') × (suc (left ph') ≤ left ph)
