-- ===== src/Main/Tests.antt =====
-- Runs of the program: as a client whose session gives a result, and as a server that cannot
-- listen.
use andri.Common.{◌≡◌, refl, none, some, [], ◌++◌, true, false}
use andri.Io.{ErrorKind, IoError, ok, err}
use andri.Bytes.{to_be32, from_be32}
use andri.Cli.{Cli, Format, selected}
use andri.Proto.Frame.{read_msg, write_msg}
use andri.Proto.Memory.{Connection, memory}
use andri.Session.Accept.{serve}
use andri.Session.Client.{connect, plan, client_session, on_welcome, on_start, negotiate_for}
use andri.Session.Sample.{opts, bytes, client, one}
use andri.Main.{success, failure, main, main-Succeeded, Succeeded}

abbrev args : Cli
args = record {
  role = record { server = false; client = some "10.0.0.1" };
  client_opts = opts;
  port = 5201;
  format = Format.mbps;
  verbose = false;
}

abbrev from_server : Connection
from_server = record { incoming = one 1 ++ (one 3 ++ one 6); outgoing = [] }

abbrev in_use : IoError
in_use = IoError.new ErrorKind.other "address in use"

client_succeeds :
    main bytes memory client (λ p. ok tt) [] (λ host p. ok from_server) args ≡ some success
unfolding main connect plan selected client_session on_welcome on_start negotiate_for read_msg
    write_msg to_be32 from_be32
client_succeeds = refl

server_fails :
    main bytes memory client
      (λ p. err in_use)
      []
      (λ host p. ok from_server)
      (record args { role = record { server = true; client = none } })
    ≡ some failure
unfolding main serve
server_fails = refl

main-Succeeded_example :
    Succeeded bytes memory client
      (λ p. ok tt)
      []
      (λ host p. ok from_server)
      args
      false
      (some "10.0.0.1")
main-Succeeded_example =
    main-Succeeded bytes memory client (λ p. ok tt) [] (λ host p. ok from_server) args
      client_succeeds
