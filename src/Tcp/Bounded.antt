-- ===== src/Tcp/Bounded.antt =====
-- What the TCP receiver (src/modes/tcp.rs) counts of what was written on its streams.
use andri.Common.{ℕ, zero, suc, ◌+◌, ◌≤◌, ◌≡◌, refl, ap, ◌∙◌, List, [], ◌∷◌, arith, IsU64}
use andri.Io.{IoResult, ok, err}
use andri.Meter.Counter
use andri.Meter.Counter.{Counter}
use andri.Tcp.Serve.{
  Stream, recv, on_read, counters, sum_bytes, Event, read, sampling, tick, warm, stop, Receiver,
  step, run, start,
}
use andri.Tcp.ServeLaws.{sum, sum_bytes-sum}

-- What the `i`-th stream has counted.
abbrev pub counted : ℕ → List Stream → ℕ
counted i [] = 0
counted zero (s ∷ ss) = s.counter
counted (suc i) (s ∷ ss) = counted i ss

-- The connections deliver no more than was written: a read finds at most what is left of it.
abbrev pub Carried : (ℕ → ℕ) → Receiver → List Event → Type 0
Carried w st [] = Unit
Carried w st (read i (ok available) ∷ rest) =
    (available + counted i st.streams ≤ w i) × Carried w (step st (read i (ok available))) rest
Carried w st (e ∷ rest) = Carried w (step st e) rest

abbrev Within : (ℕ → ℕ) → List Stream → Type 0
Within w [] = Unit
Within w (s ∷ ss) = (s.counter ≤ w 0) × Within (λ j. w (suc j)) ss

-- The bytes written on the first `n` streams.
abbrev pub sum_to : ℕ → (ℕ → ℕ) → ℕ
sum_to zero w = 0
sum_to (suc n) w = w 0 + sum_to n (λ j. w (suc j))

abbrev count : List Stream → ℕ
count [] = 0
count (s ∷ ss) = suc (count ss)

Within-sum : (w : ℕ → ℕ) (ss : List Stream) → Within w ss → sum (counters ss) ≤ sum_to (count ss) w
Within-sum w [] h = omega arith
Within-sum w (s ∷ ss) (le, h) =
    let rest = Within-sum (λ j. w (suc j)) ss h in omega (arith, le, rest)

recv-Within :
    (s : Stream) (available bound : ℕ)
    → IsU64 bound
    → s.counter ≤ bound
    → available + s.counter ≤ bound
    → (recv s (ok available)).counter ≤ bound
unfolding recv Counter.add
recv-Within s available bound small le fit = ground arith

on_read-Within :
    (w : ℕ → ℕ) (i available : ℕ) (ss : List Stream)
    → ((j : ℕ) → IsU64 (w j))
    → Within w ss
    → available + counted i ss ≤ w i
    → Within w (on_read i (ok available) ss)
unfolding on_read
on_read-Within w i available [] small h fit = tt
on_read-Within w zero available (s ∷ ss) small (le, h) fit =
    (recv-Within s available (w 0) (small 0) le fit, h)
on_read-Within w (suc i) available (s ∷ ss) small (le, h) fit =
    (le, on_read-Within (λ j. w (suc j)) i available ss (λ j. small (suc j)) h fit)

on_read-err :
    (w : ℕ → ℕ) (i : ℕ) (e : _) (ss : List Stream) → Within w ss → Within w (on_read i (err e) ss)
unfolding on_read recv
on_read-err w i e [] h = tt
on_read-err w zero e (s ∷ ss) h = h
on_read-err w (suc i) e (s ∷ ss) (le, h) = (le, on_read-err (λ j. w (suc j)) i e ss h)

count-on_read :
    (i : ℕ) (answer : IoResult ℕ) (ss : List Stream) → count (on_read i answer ss) ≡ count ss
unfolding on_read
count-on_read i answer [] = refl
count-on_read zero answer (s ∷ ss) = refl
count-on_read (suc i) answer (s ∷ ss) = ap suc (count-on_read i answer ss)

run-Within :
    (w : ℕ → ℕ) (n : ℕ) (st : Receiver) (events : List Event)
    → ((j : ℕ) → IsU64 (w j))
    → (count st.streams ≡ n) × Within w st.streams
    → Carried w st events
    → (count (run st events).streams ≡ n) × Within w (run st events).streams
unfolding run step
run-Within w n st [] small h c = h
run-Within w n st (read i (ok a) ∷ rest) small (k, h) (fit, c) =
    run-Within w n (step st (read i (ok a))) rest small
      (count-on_read i (ok a) st.streams ∙ k, on_read-Within w i a st.streams small h fit) c
run-Within w n st (read i (err e) ∷ rest) small (k, h) c =
    run-Within w n (step st (read i (err e))) rest small
      (count-on_read i (err e) st.streams ∙ k, on_read-err w i e st.streams h) c
run-Within w n st (sampling ∷ rest) small h c = run-Within w n (step st sampling) rest small h c
run-Within w n st (tick now ∷ rest) small h c = run-Within w n (step st (tick now)) rest small h c
run-Within w n st (warm now ∷ rest) small h c = run-Within w n (step st (warm now)) rest small h c
run-Within w n st (stop now ∷ rest) small h c = run-Within w n (step st (stop now)) rest small h c

start-Within : (w : ℕ → ℕ) (n : ℕ) → (count (start n).streams ≡ n) × Within w (start n).streams
unfolding start Counter.new
start-Within w zero = (refl, tt)
start-Within w (suc n) =
    let rest = start-Within (λ j. w (suc j)) n in (ap suc rest.0, (omega arith, rest.1))

-- Whatever the order of reads, the counters of all streams together hold at most what was written.
pub sum_bytes_bounded :
    (w : ℕ → ℕ) (n : ℕ) (events : List Event)
    → ((j : ℕ) → IsU64 (w j))
    → Carried w (start n) events
    → sum_bytes (run (start n) events).streams ≤ sum_to n w
sum_bytes_bounded w n events small c =
    let r = run-Within w n (start n) events small (start-Within w n) c in
    let ss = (run (start n) events).streams in
    let le = Within-sum w ss r.1 in
    let total : sum_to (count ss) w ≡ sum_to n w = ap (λ k. sum_to k w) r.0 in
    omega (arith, sum_bytes-sum ss, le, total)
