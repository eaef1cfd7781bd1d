-- ===== src/Tcp/ServeLaws.antt =====
-- The counters of the TCP receiver (src/modes/tcp.rs) over a run of events.
use andri.Common.{ℕ, zero, suc, ◌+◌, ◌%◌, ◌^◌, ◌≡◌, List, [], ◌∷◌, arith, add64, IsU64}
use andri.Io.{IoResult, ok, err}
use andri.Meter.Counter
use andri.Meter.Counter.{Counter, total, total_from}
use andri.Tcp.Serve.{
  Stream, recv, read_len, on_read, counters, sum_bytes, Event, read, sampling, tick, warm, stop,
  Receiver, step, run,
}

-- What a read of the `i`-th stream adds to its counter.
abbrev pub added : ℕ → IoResult ℕ → List Stream → ℕ
added i answer [] = 0
added zero answer (s ∷ rest) = read_len s answer
added (suc i) answer (s ∷ rest) = added i answer rest

-- The bytes that a run of events adds to the counters.
abbrev pub arrived : Receiver → List Event → ℕ
arrived st [] = 0
arrived st (read i answer ∷ rest) =
    added i answer st.streams + arrived (step st (read i answer)) rest
arrived st (sampling ∷ rest) = arrived (step st sampling) rest
arrived st (tick now ∷ rest) = arrived (step st (tick now)) rest
arrived st (warm now ∷ rest) = arrived (step st (warm now)) rest
arrived st (stop now ∷ rest) = arrived (step st (stop now)) rest

-- The exact sum, which a u64 may not hold.
abbrev pub sum : List ℕ → ℕ
sum [] = 0
sum (c ∷ cs) = c + sum cs

total_from-sum :
    (acc : ℕ) (cs : List Counter) → IsU64 acc → total_from acc cs ≡ (acc + sum cs) % 2 ^ 64
unfolding total_from Counter.get
total_from-sum acc [] h = omega arith
total_from-sum acc (c ∷ cs) h = omega (arith, total_from-sum (add64 acc c) cs (omega arith))

recv-counter :
    (s : Stream) (answer : IoResult ℕ)
    → (recv s answer).counter % 2 ^ 64 ≡ (s.counter + read_len s answer) % 2 ^ 64
unfolding recv Counter.add
recv-counter s (err e) = omega arith
recv-counter s (ok available) = ground arith

sum-on_read :
    (i : ℕ) (answer : IoResult ℕ) (ss : List Stream)
    → sum (counters (on_read i answer ss)) % 2 ^ 64
      ≡ (sum (counters ss) + added i answer ss) % 2 ^ 64
unfolding on_read
sum-on_read i answer [] = omega arith
sum-on_read zero answer (s ∷ ss) = omega (arith, recv-counter s answer)
sum-on_read (suc i) answer (s ∷ ss) = omega (arith, sum-on_read i answer ss)

pub sum_bytes-sum : (ss : List Stream) → sum_bytes ss ≡ sum (counters ss) % 2 ^ 64
unfolding sum_bytes total
sum_bytes-sum ss = omega (arith, total_from-sum 0 (counters ss) (omega arith))

sum_bytes-read :
    (i : ℕ) (answer : IoResult ℕ) (ss : List Stream)
    → sum_bytes (on_read i answer ss) ≡ add64 (sum_bytes ss) (added i answer ss)
sum_bytes-read i answer ss =
    omega (arith, sum_bytes-sum ss, sum_bytes-sum (on_read i answer ss), sum-on_read i answer ss)

-- Any events, in whatever order: the counters grow by what arrives.
pub sum_bytes-run :
    (st : Receiver) (events : List Event)
    → sum_bytes (run st events).streams ≡ (sum_bytes st.streams + arrived st events) % 2 ^ 64
unfolding run step
sum_bytes-run st [] = omega (arith, sum_bytes-sum st.streams)
sum_bytes-run st (read i answer ∷ rest) =
    omega (arith, sum_bytes-run (step st (read i answer)) rest, sum_bytes-read i answer st.streams)
sum_bytes-run st (sampling ∷ rest) = sum_bytes-run (step st sampling) rest
sum_bytes-run st (tick now ∷ rest) = sum_bytes-run (step st (tick now)) rest
sum_bytes-run st (warm now ∷ rest) = sum_bytes-run (step st (warm now)) rest
sum_bytes-run st (stop now ∷ rest) = sum_bytes-run (step st (stop now)) rest
