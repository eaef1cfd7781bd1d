-- ===== src/Session/Tests.antt =====
-- One session in memory, with the JSON of each of its messages replaced by one byte.
use andri.Common.{
  ℕ, ◌*◌, ◌≡◌, refl, List, [], ◌∷◌, ◌++◌, none, some, map, replicate, length-replicate, ◌+◌, arith,
}
use andri.Io.{ErrorKind, IoError, IoResult, ok, err}
use andri.Proto.Messages.{Msg, ProtoError}
use andri.Proto.Stream.{Codec}
use andri.Proto.Memory.{Connection, memory, memory-IsByteStream}
use andri.Bytes.{to_be32}
use andri.Proto.Frame.{frame}
use andri.Proto.Sequence.{IsSendable}
use andri.Session.Server.{rejected, serve_session}
use andri.Session.Client.{negotiate_for, client_session}
use andri.Session.ClientLaws.{client_hello}
use andri.Session.Dialogue.{dialogue}
use andri.Bytes.{from_be32}
use andri.Proto.Frame.{read_msg, write_msg, exceeds_cap}
use andri.Session.Server.{on_hello, on_negotiate, on_run, reject}
use andri.Session.ClientSafety.{Asked, client_session_safe}
use andri.Session.Safety.{Answer, serve_session_safe}
use andri.Session.Transcript.{Wrote}
use andri.Session.Oversized.{serve_session_oversized}
use andri.Session.Accept.{Accepted, serve, serve-sessions}
use andri.Session.Sample.{
  one_fits, opts, plan, outcome, start, welcome, byte_of, message, bytes, hello_ok, welcome_ok,
  negotiate_ok, start_ok, run_ok, stop_ok, result_ok, server, client, one,
}

abbrev from_client : Connection
from_client = record { incoming = one 0 ++ (one 2 ++ (one 4 ++ one 5)); outgoing = [] }

abbrev from_server : Connection
from_server = record { incoming = one 1 ++ (one 3 ++ one 6); outgoing = [] }

dialogue_example :
    (s' c' : Connection) × (serve_session bytes memory server from_client ≡ (ok tt, s'))
    × (client_session bytes memory client opts plan from_server ≡ (ok outcome, c'))
    × (s'.outgoing ≡ from_server.incoming)
    × (c'.outgoing ≡ from_client.incoming)
unfolding frame to_be32 negotiate_for
dialogue_example =
    dialogue bytes memory memory-IsByteStream server client opts plan 40000 outcome from_client
      from_server hello_ok negotiate_ok run_ok stop_ok welcome_ok start_ok result_ok refl refl refl
      refl refl refl refl

abbrev with_rest : Connection
with_rest = record { incoming = one 0 ++ (one 2 ++ (one 4 ++ (one 5 ++ (99 ∷ [])))); outgoing = [] }

abbrev outdated : Connection
outdated = record { incoming = one 8 ++ (99 ∷ []); outgoing = [] }

client_session_safe_example :
    let r = client_session bytes memory client opts plan from_server in
    (ms : List (Msg ℕ)) × Asked bytes memory memory-IsByteStream client opts plan from_server r.0 ms
    × Wrote bytes [] (r.1).outgoing ms
client_session_safe_example =
    client_session_safe bytes memory memory-IsByteStream client opts plan from_server

serve_session_safe_example :
    let r = serve_session bytes memory server outdated in
    (ms : List (Msg ℕ)) × Answer bytes memory memory-IsByteStream server outdated r.0 ms
    × Wrote bytes [] (r.1).outgoing ms
serve_session_safe_example = serve_session_safe bytes memory memory-IsByteStream server outdated

abbrev refused : IoError
refused = IoError.new ErrorKind.other "too many open files"

-- The session of the outdated client, and one over another port.
abbrev two_sessions : List (Accepted ℕ memory)
two_sessions =
    record { ctrl = outdated; side = server }
    ∷ record { ctrl = from_client; side = record server { tcp_bind = ok 40001 } }
    ∷ []

serve-sessions_example :
    let outcomes =
      map (λ a. (serve_session bytes memory (Accepted.side a) (Accepted.ctrl a)).0) two_sessions in
    (serve bytes memory (ok tt) (map ok two_sessions)
      ≡ record { sessions = outcomes; ended = none })
    × (serve bytes memory (ok tt) (map ok two_sessions ++ (err refused ∷ []))
        ≡ record { sessions = outcomes; ended = some (err refused) })
serve-sessions_example = serve-sessions bytes memory two_sessions refused []

-- The outdated client's session ends with an error, and the next one's well.
one_after_another :
    map (λ s. (serve_session bytes memory server s).0) (outdated ∷ from_client ∷ [])
    ≡ err (rejected ProtoError.version_mismatch) ∷ ok tt ∷ []
unfolding serve_session on_hello on_negotiate on_run reject read_msg write_msg to_be32 from_be32
    negotiate_for
one_after_another = refl

-- The codec in which a result takes one byte more than the cap.
abbrev long_text : List ℕ
long_text = replicate (64 * 1024 + 1) 0

abbrev verbose_of : Msg ℕ → IoResult (List ℕ)
verbose_of (Msg.result r) = ok long_text
verbose_of m = byte_of m

abbrev verbose : Codec ℕ
verbose = record bytes { to_vec = verbose_of }

abbrev verbose_ok :
    (m : Msg ℕ) (b : ℕ)
    → verbose_of m ≡ ok (b ∷ [])
    → message (negotiate_for opts plan) outcome b ≡ ok m
    → IsSendable verbose m
verbose_ok m b e d = record { payload = b ∷ []; encodes = e; decodes = d; fits = one_fits b }

serve_session_oversized_example :
    (s' : Connection) × (serve_session verbose memory server with_rest ≡ (err exceeds_cap, s'))
    × (s'.incoming ≡ 99 ∷ [])
    × (s'.outgoing ≡ one 1 ++ one 3)
unfolding frame to_be32 negotiate_for
serve_session_oversized_example =
    serve_session_oversized verbose memory memory-IsByteStream server client_hello
      (negotiate_for opts plan) Msg.stop 40000 outcome (99 ∷ []) long_text with_rest
      (verbose_ok (Msg.hello client_hello) 0 refl refl)
      (verbose_ok (Msg.negotiate (negotiate_for opts plan)) 2 refl refl)
      (verbose_ok Msg.run 4 refl refl) (verbose_ok Msg.stop 5 refl refl)
      (verbose_ok (Msg.welcome (welcome client_hello)) 1 refl refl)
      (verbose_ok (Msg.start start) 3 refl refl) refl
      (omega (arith, length-replicate {A = ℕ} (64 * 1024 + 1) 0)) refl refl refl refl
