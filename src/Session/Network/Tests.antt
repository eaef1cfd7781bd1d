-- ===== src/Session/Network/Tests.antt =====
-- Runs of a session: to a server whose data path does not return, and to one whose data path fails.
use andri.Common.{ℕ, ◌≤◌, refl, List, [], ◌∷◌, ◌++◌, Bool, true, false}
use andri.Io.{ErrorKind, IoError, err}
use andri.Proto.Memory.{memory}
use andri.Session.DataPath.{ServerSide}
use andri.Session.Client.{negotiate_for}
use andri.Session.Proc.{client_proc, server_proc}
use andri.Session.Sample.{bytes, server, client, opts, plan}
use andri.Session.Network.{World, Move, move, start, later}
use andri.Session.Network.Phases.{Setting, env, world_at, opened}
use andri.Session.Network.Runs.{Runs, Live, Ending, Runs-Live, Runs-Ending}

abbrev eof : IoError
eof = IoError.new ErrorKind.unexpected_eof "early eof"

abbrev reset : IoError
reset = IoError.new ErrorKind.other "connection reset"

-- The server's data path fails.
abbrev broken : ServerSide ℕ
broken = record server { tcp_serve = λ neg. err eof }

-- With this server, whose data path returns or not.
abbrev setting : ServerSide ℕ → Bool → Setting ℕ
setting s returns = record {
  codec = bytes;
  st = memory;
  at_server = s;
  at_client = client;
  opts = opts;
  p = plan;
  eof = eof;
  reset = reset;
  client_returns = true;
  server_returns = returns;
  hello_ok = refl;
  welcome_ok = refl;
  negotiate_ok = refl;
  start_ok = λ port. refl;
  run_ok = refl;
  stop_ok = refl;
}

-- The world after these moves.
abbrev after : Setting ℕ → World ℕ → List Move → World ℕ
after g w [] = w
after g w (m ∷ ms) = after g (move (env g) m w) ms

abbrev end_of : Setting ℕ → List Move → World ℕ
end_of g ms = after g (world_at g opened) ms

abbrev c : Move
c = Move.client

abbrev s : Move
s = Move.server

-- The handshake, until the server has read `Run`, and the client's `Stop`.
abbrev stalled : List Move
stalled = c ∷ s ∷ s ∷ c ∷ c ∷ s ∷ s ∷ c ∷ c ∷ s ∷ c ∷ c ∷ []

-- To this point, from where the server's data path does not return.
stalled_run : Runs (setting server false) 12 (end_of (setting server false) stalled)
unfolding client_proc server_proc negotiate_for
stalled_run =
    (later
      (later
        (later
          (later
            (later
              (later
                (later
                  (later (later (later (later (later start c refl) s refl) s refl) c refl) c refl) s
                  refl)
                s refl)
              c refl)
            c refl)
          s refl)
        c refl)
      c refl)

Runs-Live_example : (12 ≤ 16) × Live (setting server false) (end_of (setting server false) stalled)
Runs-Live_example = Runs-Live (setting server false) stalled_run

-- The server's data path fails while `Stop` is under way, and the client meets the reset.
abbrev broken_off : List Move
broken_off = stalled ++ (s ∷ Move.client_reset ∷ [])

broken_off_run : Runs (setting broken true) 14 (end_of (setting broken true) broken_off)
unfolding client_proc server_proc negotiate_for
broken_off_run =
    later
      (later
        (later
          (later
            (later
              (later
                (later
                  (later
                    (later
                      (later (later (later (later (later start c refl) s refl) s refl) c refl) c
                        refl)
                      s refl)
                    s refl)
                  c refl)
                c refl)
              s refl)
            c refl)
          c refl)
        s refl)
      Move.client_reset refl

Runs-Ending_example : Ending (setting broken true) (end_of (setting broken true) broken_off)
unfolding client_proc server_proc negotiate_for
Runs-Ending_example = Runs-Ending (setting broken true) broken_off_run refl
