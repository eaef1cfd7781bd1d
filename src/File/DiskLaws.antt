-- ===== src/File/DiskLaws.antt =====
-- `drive` of src/modes/file.rs when it reads from the disk: how many bytes it writes.
use andri.Common.{
  ℕ, ◌+◌, ◌^◌, ◌≤◌, ◌<◌, ◌≡◌, refl, Option, none, some, List, [], ◌∷◌, ◌++◌, false, inl, inr, All,
  ltb, ◌==◌, arith, length, length-append, add64, Bool-cases,
}
use andri.Io.{IoResult, ok, err}
use andri.Proto.Messages.{Negotiate}
use andri.File.Serve.{buf_len}
use andri.File.Drive.{
  Outcome, finished, running, failed, panicked, disk_loop, DiskRound, drive, after_loop,
}
use andri.File.Stall.{expected_len}

-- A read gives at most a buffer.
abbrev pub ReadFits : DiskRound → Type 0
ReadFits (ok bytes, answer) = length bytes ≤ buf_len
ReadFits (err e, answer) = Unit

-- What was written is what is counted; it exceeds `total` by less than a buffer, and a loop that
-- waits has not reached it.
abbrev pub WithinBuffer : ℕ → Outcome → Type 0
WithinBuffer total (finished sent out) = (length out ≡ sent) × (sent < total + buf_len)
WithinBuffer total (running sent out) = (length out ≡ sent) × (sent < total)
WithinBuffer total (failed e) = Unit
WithinBuffer total panicked = Unit

disk_loop-WithinBuffer :
    (total sent : ℕ) (out : List ℕ) (rounds : List DiskRound)
    → total + buf_len < 2 ^ 64
    → sent < total + buf_len
    → length out ≡ sent
    → All ReadFits rounds
    → WithinBuffer total (disk_loop total sent out rounds)
unfolding disk_loop
disk_loop-WithinBuffer total sent out [] small le e h = ground arith
disk_loop-WithinBuffer total sent out ((err e', a) ∷ rest) small le e h = ground arith
disk_loop-WithinBuffer total sent out ((ok bytes, err e') ∷ rest) small le e h = ground arith
disk_loop-WithinBuffer total sent out ((ok bytes, ok u) ∷ rest) small le e (fit, h) =
    elim (Bool-cases (ltb sent total)) [
      | inr over ↦ rw (over, disk_loop) (e, le)
      | inl more ↦ elim (Bool-cases (length bytes == 0)) [
        | inl eof ↦ rw (more, eof, disk_loop) (e, le)
        | inr some_read ↦
            let below : sent < total = ground arith in
            rw (more, some_read, disk_loop)
              (disk_loop-WithinBuffer total (add64 sent (length bytes)) (out ++ bytes) rest small
                (omega (arith, below)) (omega (arith, length-append out bytes, below)) h)
      ]
    ]

after_loop-WithinBuffer :
    (total : ℕ) (flushed : IoResult (Unit {0})) (o : Outcome)
    → WithinBuffer total o
    → WithinBuffer total (after_loop flushed o)
after_loop-WithinBuffer total (ok u) o h = h
after_loop-WithinBuffer total (err e) (finished sent out) h = tt
after_loop-WithinBuffer total (err e) (running sent out) h = h
after_loop-WithinBuffer total (err e) (failed e') h = tt
after_loop-WithinBuffer total (err e) panicked h = tt

-- Without `null_source`, where every read of the file gives at most the buffer's 256 KiB, the
-- sender counts what it writes, stops less than one buffer above the negotiated length at the
-- latest, and waits for a further round only below that length.
pub drive_disk-WithinBuffer :
    (server_seed : ℕ) (neg : Negotiate) (path : Option (IoResult (Unit {0})))
    (connected : IoResult (Unit {0})) (answers : List (IoResult (Unit {0})))
    (rounds : List DiskRound) (flushed : IoResult (Unit {0}))
    → expected_len neg + buf_len < 2 ^ 64
    → All ReadFits rounds
    → WithinBuffer
        (expected_len neg)
        (drive server_seed neg path false connected answers rounds flushed)
unfolding drive
drive_disk-WithinBuffer server_seed neg path (err e) answers rounds flushed small h = tt
drive_disk-WithinBuffer server_seed neg none (ok u) answers rounds flushed small h =
    after_loop-WithinBuffer (expected_len neg) flushed panicked tt
drive_disk-WithinBuffer server_seed neg (some (err e)) (ok u) answers rounds flushed small h =
    after_loop-WithinBuffer (expected_len neg) flushed (failed e) tt
drive_disk-WithinBuffer server_seed neg (some (ok v)) (ok u) answers rounds flushed small h =
    after_loop-WithinBuffer (expected_len neg) flushed _
      (disk_loop-WithinBuffer (expected_len neg) 0 [] rounds small (omega arith) refl h)

-- The length does not bound a read: a file that has grown beyond a small negotiated length is sent
-- with all that one read gives, and more bytes than negotiated are written.
pub drive_disk_overshoots :
    (server_seed : ℕ) (neg : Negotiate) (bytes : List ℕ) (rest : List DiskRound)
    → 0 < expected_len neg
    → expected_len neg < length bytes
    → length bytes ≤ buf_len
    → (out : List ℕ) × (drive server_seed neg
          (some (ok tt))
          false
          (ok tt)
          []
          ((ok bytes, ok tt) ∷ rest)
          (ok tt)
        ≡ finished (length bytes) out)
      × (expected_len neg < length out)
unfolding drive disk_loop
drive_disk_overshoots server_seed neg bytes [] pos over fit = (bytes, ground arith, over)
drive_disk_overshoots server_seed neg bytes (r ∷ rest) pos over fit = (bytes, ground arith, over)
