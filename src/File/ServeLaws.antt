-- ===== src/File/ServeLaws.antt =====
-- The receive loop of `serve` in src/modes/file.rs: what it counts, and when it has everything.
use andri.Common.{
  ℕ, suc, ◌-◌, ◌≤◌, ◌<◌, ◌≡◌, ap, true, false, List, [], ◌∷◌, min, ltb, ◌==◌, arith, length, add64,
  IsU64, Bool-cases, inl, inr,
}
use andri.Io.{IoResult, ok, err}
use andri.File.Serve.{Received, done, failed, waiting, receive, buf_len}

-- How many bytes have been counted, if the loop did not fail.
abbrev pub WithinFile : ℕ → Received → Type 0
WithinFile expected (done n) = n ≤ expected
WithinFile expected (waiting n) = n < expected
WithinFile expected (failed e) = Unit

-- One read takes no more than what is missing.
read_fits :
    (expected received available : ℕ)
    → IsU64 expected
    → received < expected
    → add64 received (min available (min (expected - received) buf_len)) ≤ expected
read_fits expected received available h lt = omega arith

-- The receive loop never counts more than the negotiated length, whatever the stream delivers, and
-- waits for more only below it.
pub receive-WithinFile :
    (expected received : ℕ) (reads : List (IoResult ℕ))
    → IsU64 expected
    → received ≤ expected
    → WithinFile expected (receive expected received reads)
unfolding receive
receive-WithinFile expected received [] h le = ground arith
receive-WithinFile expected received (err e ∷ rest) h le =
    elim (Bool-cases (ltb received expected)) [
      | inr over ↦ rw (over, receive) le
      | inl more ↦ rw (more, receive) tt
    ]
receive-WithinFile expected received (ok available ∷ rest) h le =
    elim (Bool-cases (ltb received expected)) [
      | inr over ↦ rw (over, receive) le
      | inl more ↦
          let n = min available (min (expected - received) buf_len) in
          elim (Bool-cases (n == 0)) [
            | inl none_left ↦ rw (more, none_left, receive) le
            | inr some_left ↦
                rw (more, some_left, receive)
                  (receive-WithinFile expected (add64 received n) rest h
                    (read_fits expected received available h (ground arith)))
          ]
    ]

below : (expected received : ℕ) → ltb received expected ≡ true → received < expected
below expected received more = ground arith

all_received :
    (expected received : ℕ)
    → received ≤ expected
    → ltb received expected ≡ false
    → received ≡ expected
all_received expected received le over = ground arith

read_nonzero :
    (expected received available : ℕ)
    → received < expected
    → 0 < available
    → (min available (min (expected - received) buf_len) == 0) ≡ false
read_nonzero expected received available lt some_ready = ground arith

read_advances :
    (expected received available reads : ℕ)
    → IsU64 expected
    → received < expected
    → 0 < available
    → expected - received ≤ suc reads
    → expected - add64 received (min available (min (expected - received) buf_len)) ≤ reads
read_advances expected received available reads h lt some_ready enough = omega arith

-- Every read finds at least one byte.
abbrev pub Flowing : List (IoResult ℕ) → Type 0
Flowing [] = Unit
Flowing (err e ∷ rest) = ⊥
Flowing (ok available ∷ rest) = (0 < available) × Flowing rest

-- A stream that neither fails nor ends is read until the whole file has arrived: as many reads as
-- bytes are missing are enough.
pub receive_complete :
    (expected received : ℕ) (reads : List (IoResult ℕ))
    → IsU64 expected
    → received ≤ expected
    → Flowing reads
    → expected - received ≤ length reads
    → receive expected received reads ≡ done expected
unfolding receive
receive_complete expected received [] h le flow enough = ground arith
receive_complete expected received (err e ∷ rest) h le flow enough = absurd flow
receive_complete expected received (ok available ∷ rest) h le (some_ready, flow) enough =
    elim (Bool-cases (ltb received expected)) [
      | inr over ↦ rw (over, receive) (ap done (all_received expected received le over))
      | inl more ↦
          let n = min available (min (expected - received) buf_len) in
          let lt = below expected received more in
          rw (more, read_nonzero expected received available lt some_ready, receive)
            (receive_complete expected (add64 received n) rest h
              (read_fits expected received available h lt) flow
              (read_advances expected received available (length rest) h lt some_ready enough))
    ]
