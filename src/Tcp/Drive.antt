-- ===== src/Tcp/Drive.antt =====
-- `drive` and `send_loop` of src/modes/tcp.rs. Each round of a send loop comes with the clock at
-- its test and the answer of `write_all`.
use andri.Common.{
  ℕ, zero, ◌+◌, ◌*◌, add64, Option, none, some, List, [], ◌∷◌, ◌++◌, Bool, true, false, ltb, mul64,
  bit_xor, length, replicate, suc,
}
use andri.Io.{IoError, IoResult, ok, err}
use andri.Float.{Float}
use andri.Proto.Messages.{Negotiate, Sample}
use andri.Meter.Sampler.{Tick, run_sampler}
use andri.Meter.Counter
use andri.Meter.Counter.{Counter}
use andri.Meter.Fill.{fill_random}

abbrev pub seed_mix : ℕ
seed_mix = 0x9E37_79B9_7F4A_7C15

-- The payload seed of the `i`-th stream.
unfoldable pub stream_seed : ℕ → ℕ → ℕ
stream_seed server_seed i = bit_xor server_seed (mul64 i seed_mix)

-- One round of a send loop.
abbrev pub Round : Type 0
Round = ℕ × IoResult (Unit {0})

-- The counter and the bytes handed to the connection, when the loop has ended, waits, or has failed:
-- a write that fails may have sent any part of its buffer, and its bytes are among these.
pub data Sent : Type 0 where
  finished : Counter → List ℕ → Sent
  running : Counter → List ℕ → Sent
  failed : IoError → Counter → List ℕ → Sent

abbrev pub flush : IoResult (Unit {0}) → Counter → List ℕ → Sent
flush (ok u) counter out = finished counter out
flush (err e) counter out = failed e counter out

unfoldable pub write_loop : ℕ → List ℕ → IoResult (Unit {0}) → Counter → List ℕ → List Round → Sent
write_loop deadline buf flushed counter out [] = running counter out
write_loop deadline buf flushed counter out ((now, answer) ∷ rest) = elim (ltb now deadline) [
  | false ↦ flush flushed counter out
  | true ↦ elim answer [
    | err e ↦ failed e counter (out ++ buf)
    | ok u ↦ write_loop deadline buf flushed (Counter.add counter (length buf)) (out ++ buf) rest
  ]
]

unfoldable pub send_loop : ℕ → ℕ → ℕ → List Round → IoResult (Unit {0}) → Sent
send_loop deadline seed buffer_bytes rounds flushed =
    write_loop deadline (fill_random (replicate buffer_bytes 0) seed) flushed Counter.new [] rounds

-- What the environment gives the task of one stream.
pub record Link : Type 0 where
  pub rounds : List Round
  pub flushed : IoResult (Unit {0})

-- The tasks of `n` streams, spawned in order, from number `i` on.
unfoldable pub spawn_all : ℕ → ℕ → Negotiate → (ℕ → Link) → ℕ → ℕ → List Sent
spawn_all server_seed deadline neg links zero i = []
spawn_all server_seed deadline neg links (suc n) i =
    send_loop deadline (stream_seed server_seed i) neg.buffer_bytes (links i).rounds
      (links i).flushed
    ∷ spawn_all server_seed deadline neg links n (suc i)

-- Each task is awaited, and what it returned ignored.
unfoldable pub all_ended : List Sent → Bool
all_ended [] = true
all_ended (running counter out ∷ rest) = false
all_ended (finished counter out ∷ rest) = all_ended rest
all_ended (failed e counter out ∷ rest) = all_ended rest

-- `parallel` connections are opened, each with the answer of `connect` and `set_nodelay`.
unfoldable pub connect_all : ℕ → (ℕ → IoResult (Unit {0})) → ℕ → IoResult (Unit {0})
connect_all zero connected i = ok tt
connect_all (suc n) connected i = elim (connected i) [
  | ok u ↦ connect_all n connected (suc i)
  | err e ↦ err e
]

-- The buffer that the send loop reuses, for the preview under `--verbose`.
unfoldable pub payload_sample : ℕ → ℕ → List ℕ
payload_sample server_seed buffer_bytes = fill_random (replicate buffer_bytes 0) server_seed

module _ (fl : Float) where
  abbrev pub awaited : Bool → Bool → Option (List (Sample fl.F)) → Option (IoResult (Unit {0}))
  awaited false quiet series = none
  awaited true true series = some (ok tt)
  awaited true false none = none
  awaited true false (some samples) = some (ok tt)

  abbrev pub after_connect :
      IoResult (Unit {0}) → Option (IoResult (Unit {0})) → Option (IoResult (Unit {0}))
  after_connect (err e) rest = some (err e)
  after_connect (ok u) rest = rest

  -- `none`: a stream or, unless `quiet`, the sampler has not ended. `first` and `ticks` are what
  -- the sampler reads of the counters.
  unfoldable pub drive :
      ℕ
      → Negotiate
      → Bool
      → ℕ
      → (ℕ → IoResult (Unit {0}))
      → (ℕ → Link)
      → ℕ
      → List Tick
      → Option (IoResult (Unit {0}))
  drive server_seed neg quiet t0 connected links first ticks =
      let total = add64 neg.duration_secs neg.warmup_secs * 1000000000 in
      let tasks = spawn_all server_seed (t0 + total) neg links neg.parallel 0 in
      after_connect (connect_all neg.parallel connected 0)
        (awaited (all_ended tasks) quiet (run_sampler fl first t0 total ticks))
