-- ===== src/Tcp/DriveEnd.antt =====
-- How the TCP sender ends: `drive` of src/modes/tcp.rs over all its streams.
use andri.Common.{
  ℕ, zero, suc, ◌+◌, ◌*◌, ◌≤◌, ◌<◌, ◌≡◌, ◌≢◌, refl, ◌∙◌, Option, none, some, List, ◌∷◌, Bool, true,
  false, arith, add64,
}
use andri.Io.{IoError, IoResult, ok, err}
use andri.Float.{Float}
use andri.Proto.Messages.{Negotiate, Sample}
use andri.Meter.Sampler.{Tick}
use andri.Tcp.Drive.{
  Sent, finished, running, failed, send_loop, stream_seed, Link, spawn_all, all_ended, connect_all,
  awaited, after_connect, drive,
}

-- The task of a stream is over, well or not.
abbrev pub Ended : Sent → Type 0
Ended (running counter out) = ⊥
Ended _ = Unit

abbrev pub task : ℕ → ℕ → Negotiate → (ℕ → Link) → ℕ → Sent
task server_seed deadline neg links i =
    send_loop deadline (stream_seed server_seed i) neg.buffer_bytes (links i).rounds
      (links i).flushed

all_ended-cons : (s : Sent) (rest : List Sent) → Ended s → all_ended (s ∷ rest) ≡ all_ended rest
unfolding all_ended
all_ended-cons (running c out) rest h = absurd h
all_ended-cons (finished c out) rest h = refl
all_ended-cons (failed e c out) rest h = refl

spawn_all-Ended :
    (server_seed deadline : ℕ) (neg : Negotiate) (links : ℕ → Link) (n i : ℕ)
    → ((j : ℕ) → i ≤ j → j < i + n → Ended (task server_seed deadline neg links j))
    → all_ended (spawn_all server_seed deadline neg links n i) ≡ true
unfolding spawn_all all_ended
spawn_all-Ended server_seed deadline neg links zero i h = refl
spawn_all-Ended server_seed deadline neg links (suc n) i h =
    all_ended-cons (task server_seed deadline neg links i)
      (spawn_all server_seed deadline neg links n (suc i)) (h i (omega arith) (omega arith))
    ∙ spawn_all-Ended server_seed deadline neg links n (suc i)
        (λ j lo hi. h j (omega arith) (omega arith))

connect_all-ok :
    (n i : ℕ) (connected : ℕ → IoResult (Unit {0}))
    → ((j : ℕ) → i ≤ j → j < i + n → connected j ≡ ok tt)
    → connect_all n connected i ≡ ok tt
unfolding connect_all
connect_all-ok zero i connected h = refl
connect_all-ok (suc n) i connected h =
    rw (h i (omega arith) (omega arith), connect_all)
      (connect_all-ok n (suc i) connected (λ j lo hi. h j (omega arith) (omega arith)))

module _ (fl : Float) where
  -- Where every connection opens and every stream's task is over, with success or with an error, a
  -- quiet sender ends well: a stream that failed does not show in what `drive` returns.
  pub drive_ends :
      (server_seed : ℕ) (neg : Negotiate) (t0 first : ℕ) (connected : ℕ → IoResult (Unit {0}))
      (links : ℕ → Link) (ticks : List Tick)
      → ((i : ℕ) → i < neg.parallel → connected i ≡ ok tt)
      → (let deadline = t0 + add64 neg.duration_secs neg.warmup_secs * 1000000000 in
          (i : ℕ) → i < neg.parallel → Ended (task server_seed deadline neg links i))
      → drive fl server_seed neg true t0 connected links first ticks ≡ some (ok tt)
  unfolding drive
  drive_ends server_seed neg t0 first connected links ticks up over =
      rw
        (
          connect_all-ok neg.parallel 0 connected (λ i lo hi. up i (omega arith)),
          spawn_all-Ended server_seed (t0 + add64 neg.duration_secs neg.warmup_secs * 1000000000)
              neg links neg.parallel 0 (λ i lo hi. over i (omega arith)),
        )
        refl

  awaited-ok :
      (done quiet : Bool) (series : Option (List (Sample fl.F))) (e : IoError)
      → awaited fl done quiet series ≢ some (err e)
  awaited-ok false quiet series e h = cc
  awaited-ok true true series e h = cc
  awaited-ok true false none e h = cc
  awaited-ok true false (some samples) e h = cc

  -- The only errors that the sender returns are those of opening its connections.
  pub drive_error :
      (server_seed : ℕ) (neg : Negotiate) (quiet : Bool) (t0 first : ℕ)
      (connected : ℕ → IoResult (Unit {0})) (links : ℕ → Link) (ticks : List Tick) (e : IoError)
      → drive fl server_seed neg quiet t0 connected links first ticks ≡ some (err e)
      → connect_all neg.parallel connected 0 ≡ err e
  unfolding drive
  drive_error server_seed neg quiet t0 first connected links ticks e h =
      go (connect_all neg.parallel connected 0) _ h (λ r. awaited-ok _ quiet _ e r)
    where
      go :
          (c : IoResult (Unit {0})) (rest : Option (IoResult (Unit {0})))
          → after_connect fl c rest ≡ some (err e)
          → rest ≢ some (err e)
          → c ≡ err e
      go (ok u) rest h ne = absurd (ne h)
      go (err x) rest h ne = cc
