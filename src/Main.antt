-- ===== src/Main.antt =====
-- `main` of src/main.rs: which role runs, and the exit code. The parsing of the arguments is
-- clap's; what the operating system answers is given.
mod Tests
use andri.Common.{
  ℕ, ◌≡◌, ◌≢◌, refl, Option, none, some, List, Bool, true, false, ◌||◌, is_some, String,
}
use mathlib.Core.Logic.{◌↔◌}
use andri.Io.{IoError, IoResult, ok, err}
use andri.Cli.{Cli}
use andri.Proto.Messages.{TestResult}
use andri.Proto.Stream.{Stream, Codec}
use andri.Session.DataPath.{ClientSide}
use andri.Session.Accept.{Accepted, serve, serve_runs}
use andri.Session.Client.{connect}

pub data Exit : Type 0 where
  success failure : Exit
  -- `unreachable!`.
  panic : Exit

abbrev pub exit_code : {A : Type 0} → IoResult A → Exit
exit_code (ok a) = success
exit_code (err e) = failure

abbrev pub exited : Option (IoResult (Unit {0})) → Option Exit
exited none = none
exited (some r) = some (exit_code r)

module _ {F : Type 0} (codec : Codec F) (st : Stream) (client : ClientSide)
    (bound : ℕ → IoResult (Unit {0})) (accepted : List (IoResult (Accepted F st)))
    (opened : String → ℕ → IoResult st.S) where
  abbrev pub run_client : Cli → Option String → Option Exit
  run_client args none = some panic
  run_client args (some host) =
      some (exit_code (connect codec st client args.client_opts (opened host args.port)))

  -- `none`: the server still runs.
  unfoldable pub main : Cli → Option Exit
  main args = elim (args.role).server [
    | true ↦ exited (serve codec st (bound args.port) accepted).ended
    | false ↦ run_client args (args.role).client
  ]

  exited_runs : (o : Option (IoResult (Unit {0}))) → o ≢ some (ok tt) → exited o ≢ some success
  exited_runs none h e = cc
  exited_runs (some (ok u)) h e = h refl
  exited_runs (some (err x)) h e = cc

  exit_code-success :
      {A : Type 0} (r : IoResult A)
      → Path (Option Exit) (some (exit_code r)) (some success)
      → (a : A) × (r ≡ ok a)
  exit_code-success (ok a) e = (a, refl)
  exit_code-success (err x) e = cc

  exit_code-panic : {A : Type 0} (r : IoResult A) → some (exit_code r) ≢ some panic
  exit_code-panic (ok a) e = cc
  exit_code-panic (err x) e = cc

  exited-panic : (o : Option (IoResult (Unit {0}))) → exited o ≢ some panic
  exited-panic none e = cc
  exited-panic (some r) e = exit_code-panic r e

  -- What a run that exits with success was: a client's, whose `connect` returned a result.
  abbrev pub Succeeded : Cli → Bool → Option String → Type 0
  Succeeded args true host = ⊥
  Succeeded args false none = ⊥
  Succeeded args false (some host) =
      (r : TestResult F) × (connect codec st client args.client_opts (opened host args.port) ≡ ok r)

  role-Succeeded :
      (args : Cli) (is_server : Bool) (host : Option String)
      → (elim is_server [
        | true ↦ exited (serve codec st (bound args.port) accepted).ended
        | false ↦ run_client args host
      ])
        ≡ some success
      → Succeeded args is_server host
  role-Succeeded args true host e =
      exited_runs (serve codec st (bound args.port) accepted).ended
        (serve_runs codec st (bound args.port) accepted) e
  role-Succeeded args false none e = cc
  role-Succeeded args false (some host) e =
      exit_code-success (connect codec st client args.client_opts (opened host args.port)) e

  -- The program exits with success only as a client, and only when its session gave a result: the
  -- server never does, and every failure of a check, a connection or a session shows in the code.
  pub main-Succeeded :
      (args : Cli) → main args ≡ some success → Succeeded args (args.role).server (args.role).client
  unfolding main
  main-Succeeded args e = role-Succeeded args (args.role).server (args.role).client e

  role_panic :
      (args : Cli) (is_server : Bool) (host : Option String)
      → (is_server || is_some host) ≡ true
      → (elim is_server [
        | true ↦ exited (serve codec st (bound args.port) accepted).ended
        | false ↦ run_client args host
      ])
        ≢ some panic
  role_panic args true host h e = exited-panic (serve codec st (bound args.port) accepted).ended e
  role_panic args false none h e = cc
  role_panic args false (some host) h e =
      exit_code-panic (connect codec st client args.client_opts (opened host args.port)) e

  -- With a role, as the parser of the command line requires it, `unreachable!` is not reached.
  pub main_safe :
      (args : Cli)
      → ((args.role).server || is_some (args.role).client) ≡ true
      → main args ≢ some panic
  unfolding main
  main_safe args h e = role_panic args (args.role).server (args.role).client h e
