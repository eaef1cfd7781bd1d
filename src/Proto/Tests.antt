-- ===== src/Proto/Tests.antt =====
-- Runs of the framing over a connection in memory, with the JSON of two messages.
use Prim.Native.Char.{code}
use andri.Common.{
  ℕ, ◌≡◌, refl, List, [], ◌∷◌, ◌++◌, length, arith, replicate, ◌==◌, if◌then◌else◌, String,
}
use andri.Io.{ErrorKind, IoError, IoResult, ok, err}
use andri.Bytes.{to_be32}
use andri.Proto.Messages.{Msg, run, stop}
use andri.Proto.Stream.{Codec}
use andri.Proto.Memory.{Connection, memory, memory-IsByteStream}
use andri.Proto.Frame.{write_msg, read_msg, frame}
use andri.Proto.RoundTrip.{read_msg_truncated}
use andri.Proto.Sequence.{IsSendable, frames, write_msgs, read_msgs, read_msgs-write_msgs}

abbrev codes : String → List ℕ
codes String.[] = []
codes (String.◌∷◌ c s) = code c ∷ codes s

abbrev run_json : List ℕ
run_json = codes "{\"type\":\"Run\"}"

abbrev stop_json : List ℕ
stop_json = codes "{\"type\":\"Stop\"}"

abbrev not_json : IoError
not_json = IoError.new ErrorKind.invalid_data "expected value"

-- Two messages have a text; every other one is given a text beyond the cap.
abbrev json_of : Msg ℕ → IoResult (List ℕ)
json_of run = ok run_json
json_of stop = ok stop_json
json_of m = ok (replicate 65537 32)

abbrev json : Codec ℕ
json = record {
  to_vec = json_of;
  from_slice = λ bytes.
      if length bytes == 14 then ok run else if length bytes == 15 then ok stop else err not_json;
}

abbrev idle : Connection
idle = record { incoming = []; outgoing = [] }

run-IsSendable : IsSendable json run
run-IsSendable = record { payload = run_json; encodes = refl; decodes = refl; fits = omega arith }

stop-IsSendable : IsSendable json stop
stop-IsSendable = record { payload = stop_json; encodes = refl; decodes = refl; fits = omega arith }

-- The frame of `Run` as the source's own test writes it.
run_frame : (write_msg json memory run idle).1.outgoing ≡ 0 ∷ 0 ∷ 0 ∷ 14 ∷ run_json
unfolding write_msg to_be32
run_frame = refl

abbrev both : List ℕ
both = frames json (run ∷ stop ∷ []) (run-IsSendable, (stop-IsSendable, tt))

abbrev heard_both : Connection
heard_both = record { incoming = both ++ (7 ∷ []); outgoing = [] }

read_msgs-write_msgs_example :
    (s' r' : Connection) × (write_msgs json memory (run ∷ stop ∷ []) idle ≡ (ok tt, s'))
    × (s'.outgoing ≡ [] ++ both)
    × (read_msgs json memory 2 heard_both ≡ (ok (run ∷ stop ∷ []), r'))
    × (r'.incoming ≡ 7 ∷ [])
unfolding frames
read_msgs-write_msgs_example =
    read_msgs-write_msgs json memory memory-IsByteStream (run ∷ stop ∷ [])
      (run-IsSendable, (stop-IsSendable, tt)) (7 ∷ []) idle heard_both refl

abbrev oversized : Connection
oversized = record { incoming = 0 ∷ 1 ∷ 0 ∷ 1 ∷ 5 ∷ []; outgoing = [] }

abbrev half_frame : Connection
half_frame = record { incoming = 0 ∷ 0 ∷ 0 ∷ 14 ∷ 123 ∷ []; outgoing = [] }

read_msg_truncated_example :
    (s' : Connection) × (text : String) × (read_msg json memory half_frame
      ≡ (err (IoError.new ErrorKind.unexpected_eof text), s'))
    × (s'.outgoing ≡ [])
unfolding frame to_be32
read_msg_truncated_example =
    read_msg_truncated json memory memory-IsByteStream run_json half_frame.incoming
      (codes "\"type\":\"Run\"}") half_frame (omega arith) refl (omega arith) refl
