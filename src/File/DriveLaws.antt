-- ===== src/File/DriveLaws.antt =====
-- `drive` of src/modes/file.rs with `null_source`: how many bytes it writes, and when it ends.
use andri.Common.{
  ℕ, suc, ◌-◌, ◌≤◌, ◌<◌, ◌≡◌, ap, refl, ◌∙◌, Option, List, [], ◌∷◌, ◌++◌, true, inl, inr, min, ltb,
  arith, length, length-append, length-take, length-replicate, take, replicate, add64, IsU64,
  Bool-cases,
}
use andri.Io.{IoResult, ok, err}
use andri.Proto.Messages.{Negotiate}
use andri.Meter.Fill.{fill_random}
use andri.Meter.FillLaws.{length-fill_random}
use andri.File.Serve.{buf_len}
use andri.File.Drive.{
  Outcome, finished, running, failed, panicked, null_loop, DiskRound, drive, after_loop,
}
use andri.File.Stall.{expected_len}

-- `sent` counts what was written; `total` bytes when the loop ends, fewer while it runs.
abbrev pub Exact : ℕ → Outcome → Type 0
Exact total (finished sent out) = (sent ≡ total) × (length out ≡ total)
Exact total (running sent out) = (sent < total) × (length out ≡ sent)
Exact total (failed e) = Unit
Exact total panicked = Unit

written :
    (buf out : List ℕ) (sent total : ℕ)
    → IsU64 total
    → sent < total
    → length out ≡ sent
    → (length (out ++ take (min (total - sent) (length buf)) buf)
        ≡ add64 sent (min (total - sent) (length buf)))
      × (add64 sent (min (total - sent) (length buf)) ≤ total)
written buf out sent total small lt e =
    let want = min (total - sent) (length buf) in
    (omega (arith, length-append out (take want buf), length-take want buf), omega arith)

advances :
    (buf : List ℕ) (sent total answers : ℕ)
    → IsU64 total
    → 0 < length buf
    → sent < total
    → total - sent ≤ suc answers
    → total - add64 sent (min (total - sent) (length buf)) ≤ answers
advances buf sent total answers small some_buf lt enough = omega arith

null_loop-Exact :
    (buf : List ℕ) (total sent : ℕ) (out : List ℕ) (answers : List (IoResult (Unit {0})))
    → IsU64 total
    → sent ≤ total
    → length out ≡ sent
    → Exact total (null_loop buf total sent out answers)
unfolding null_loop
null_loop-Exact buf total sent out [] small le e = ground arith
null_loop-Exact buf total sent out (err e' ∷ rest) small le e = ground arith
null_loop-Exact buf total sent out (ok u ∷ rest) small le e = elim (Bool-cases (ltb sent total)) [
  | inr over ↦ rw (over, null_loop) (ground arith, ground arith)
  | inl more ↦
      let (count, le') = written buf out sent total small (ground arith) e in
      rw (more, null_loop)
        (null_loop-Exact buf total (add64 sent (min (total - sent) (length buf)))
          (out ++ take (min (total - sent) (length buf)) buf) rest small le' count)
]

after_loop-Exact :
    (total : ℕ) (flushed : IoResult (Unit {0})) (o : Outcome)
    → Exact total o
    → Exact total (after_loop flushed o)
after_loop-Exact total (ok u) o h = h
after_loop-Exact total (err e) (finished sent out) h = tt
after_loop-Exact total (err e) (running sent out) h = h
after_loop-Exact total (err e) (failed e') h = tt
after_loop-Exact total (err e) panicked h = tt

-- With `null_source` the sender that finishes has written exactly the negotiated number of bytes,
-- and one that still waits has written fewer, as many as it counts; it does this without the file.
pub drive_null-Exact :
    (server_seed : ℕ) (neg : Negotiate) (path : Option (IoResult (Unit {0})))
    (connected : IoResult (Unit {0})) (answers : List (IoResult (Unit {0})))
    (rounds : List DiskRound) (flushed : IoResult (Unit {0}))
    → IsU64 (expected_len neg)
    → Exact (expected_len neg) (drive server_seed neg path true connected answers rounds flushed)
unfolding drive
drive_null-Exact server_seed neg path (err e) answers rounds flushed small = tt
drive_null-Exact server_seed neg path (ok u) answers rounds flushed small =
    after_loop-Exact (expected_len neg) flushed _
      (null_loop-Exact _ (expected_len neg) 0 [] answers small (omega arith) refl)

-- The connection takes every write.
abbrev pub Taken : List (IoResult (Unit {0})) → Type 0
Taken [] = Unit
Taken (ok u ∷ rest) = Taken rest
Taken (err e ∷ rest) = ⊥

null_loop_ends :
    (buf : List ℕ) (total sent : ℕ) (out : List ℕ) (answers : List (IoResult (Unit {0})))
    → IsU64 total
    → 0 < length buf
    → sent ≤ total
    → length out ≡ sent
    → Taken answers
    → total - sent ≤ length answers
    → (bytes : List ℕ) × (null_loop buf total sent out answers ≡ finished total bytes)
unfolding null_loop
null_loop_ends buf total sent out [] small some_buf le e h enough =
    let same : sent ≡ total = omega arith in (out, rw same (ground arith))
null_loop_ends buf total sent out (err e' ∷ rest) small some_buf le e h enough = absurd h
null_loop_ends buf total sent out (ok u ∷ rest) small some_buf le e h enough =
    elim (Bool-cases (ltb sent total)) [
      | inr over ↦
          let same : sent ≡ total = ground arith in
          (out, rw (over, null_loop) (ap (λ n. finished n out) same))
      | inl more ↦
          let (count, le') = written buf out sent total small (ground arith) e in
          let later =
            null_loop_ends buf total (add64 sent (min (total - sent) (length buf)))
              (out ++ take (min (total - sent) (length buf)) buf) rest small some_buf le' count h
              (advances buf sent total (length rest) small some_buf (ground arith) enough) in
          (later.0, rw (more, null_loop) later.1)
    ]

-- A sender with `null_source` whose connection takes everything finishes, after as many writes as
-- there are bytes to send at the latest.
pub drive_null_finishes :
    (server_seed : ℕ) (neg : Negotiate) (path : Option (IoResult (Unit {0})))
    (answers : List (IoResult (Unit {0}))) (rounds : List DiskRound)
    → IsU64 (expected_len neg)
    → Taken answers
    → expected_len neg ≤ length answers
    → (bytes : List ℕ) × (drive server_seed neg path true (ok tt) answers rounds (ok tt)
        ≡ finished (expected_len neg) bytes)
      × (length bytes ≡ expected_len neg)
unfolding drive
drive_null_finishes server_seed neg path answers rounds small h enough =
    let buf = fill_random (replicate buf_len 0) server_seed in
    let full : length buf ≡ buf_len =
      (length-fill_random (replicate buf_len 0) server_seed).0
      ∙ length-replicate {A = ℕ} buf_len 0 in
    let r =
      null_loop_ends buf (expected_len neg) 0 [] answers small (omega (arith, full)) (omega arith)
        refl h (omega arith) in
    let exact = null_loop-Exact buf (expected_len neg) 0 [] answers small (omega arith) refl in
    (r.0, r.1, (rw r.1 at exact).1)
