-- ===== src/File/Content.antt =====
-- What `drive` of src/modes/file.rs sends of a file that stays as it was when its length was taken.
use andri.Common.{
  ℕ, ◌+◌, ◌<◌, ◌≡◌, refl, ap, ◌∙◌, some, List, [], ◌∷◌, ◌++◌, true, false, IsU64, ltb, ◌==◌, arith,
  length, length-append, add64,
}
use mathlib.Core.List.{append_assoc, append-nil}
use andri.Io.{IoResult, ok, err}
use andri.Proto.Messages.{Negotiate}
use andri.File.Drive.{finished, disk_loop, DiskRound, drive}
use andri.File.Stall.{expected_len}

-- The rounds read these bytes in order, some in each round, and every write succeeds.
abbrev pub Copies : List ℕ → List DiskRound → Type 0
Copies content [] = content ≡ []
Copies content ((ok bytes, ok u) ∷ rest) =
    (0 < length bytes) × (later : List ℕ) × (content ≡ bytes ++ later) × Copies later rest
Copies content ((ok bytes, err e) ∷ rest) = ⊥
Copies content ((err e, answer) ∷ rest) = ⊥

disk_loop-Copies :
    (total sent : ℕ) (out content : List ℕ) (rounds : List DiskRound)
    → IsU64 total
    → length out ≡ sent
    → length out + length content ≡ total
    → Copies content rounds
    → disk_loop total sent out rounds ≡ finished total (out ++ content)
unfolding disk_loop
disk_loop-Copies total sent out content [] small e all h =
    let empty : length content ≡ 0 = ap length h in
    let same : sent ≡ total = omega arith in rw (h, append-nil, same) (ground arith)
disk_loop-Copies total sent out content ((err e', a) ∷ rest) small e all h = absurd h
disk_loop-Copies total sent out content ((ok bytes, err e') ∷ rest) small e all h = absurd h
disk_loop-Copies total sent out content ((ok bytes, ok u) ∷ rest) small e all
      (some_read, later, split, h) =
    let parts : length content ≡ length bytes + length later =
      ap length split ∙ length-append bytes later in
    let more : ltb sent total ≡ true = ground arith in
    let full : (length bytes == 0) ≡ false = ground arith in
    let count : length (out ++ bytes) ≡ length out + length bytes = length-append out bytes in
    let next =
      disk_loop-Copies total (add64 sent (length bytes)) (out ++ bytes) later rest small
        (omega arith) (omega arith) h in
    rw (more, full, disk_loop, split, ← append_assoc) next

disk_loop_shrunk :
    (total sent : ℕ) (out content : List ℕ) (rounds rest : List DiskRound)
    (answer : IoResult (Unit {0}))
    → IsU64 total
    → length out ≡ sent
    → length out + length content < total
    → Copies content rounds
    → disk_loop total sent out (rounds ++ ((ok [], answer) ∷ rest))
      ≡ finished (length out + length content) (out ++ content)
unfolding disk_loop
disk_loop_shrunk total sent out content [] rest answer small e short h =
    let empty : length content ≡ 0 = ap length h in
    let same : length out + length content ≡ sent = omega arith in
    let more : ltb sent total ≡ true = ground arith in
    rw (more, same, h, append-nil, disk_loop) refl
disk_loop_shrunk total sent out content ((err e', a) ∷ rounds) rest answer small e short h =
    absurd h
disk_loop_shrunk total sent out content ((ok bytes, err e') ∷ rounds) rest answer small e short h =
    absurd h
disk_loop_shrunk total sent out content ((ok bytes, ok u) ∷ rounds) rest answer small e short
      (some_read, later, split, h) =
    let parts : length content ≡ length bytes + length later =
      ap length split ∙ length-append bytes later in
    let more : ltb sent total ≡ true = ground arith in
    let full : (length bytes == 0) ≡ false = ground arith in
    let count : length (out ++ bytes) ≡ length out + length bytes = length-append out bytes in
    let next =
      disk_loop_shrunk total (add64 sent (length bytes)) (out ++ bytes) later rounds rest answer
        small (omega arith) (omega arith) h in
    let same : length (out ++ bytes) + length later ≡ length out + length content = omega arith in
    rw (more, full, disk_loop, split, ← append_assoc) (rw (same, split) at next)

-- A file that stays as it is while its bytes are read in order, some by each read, over a
-- connection that takes every write: the sender finishes, and what it has written is the file, byte
-- for byte, no more and no less.
pub drive_disk-Copies :
    (server_seed : ℕ) (neg : Negotiate) (content : List ℕ) (answers : List (IoResult (Unit {0})))
    (rounds : List DiskRound)
    → IsU64 (length content)
    → neg.file_len ≡ some (length content)
    → Copies content rounds
    → drive server_seed neg (some (ok tt)) false (ok tt) answers rounds (ok tt)
      ≡ finished (length content) content
unfolding drive
drive_disk-Copies server_seed neg content answers rounds small len h =
    rw (len, disk_loop-Copies (length content) 0 [] content rounds small refl (omega arith) h)

-- A file that has become shorter than the length that was negotiated: the sender writes what there
-- is, and finishes without an error at the end of the file.
pub drive_disk_shrunk :
    (server_seed : ℕ) (neg : Negotiate) (content : List ℕ) (answers : List (IoResult (Unit {0})))
    (rounds rest : List DiskRound) (answer : IoResult (Unit {0}))
    → IsU64 (expected_len neg)
    → length content < expected_len neg
    → Copies content rounds
    → drive server_seed neg
        (some (ok tt))
        false
        (ok tt)
        answers
        (rounds ++ ((ok [], answer) ∷ rest))
        (ok tt)
      ≡ finished (length content) content
unfolding drive
drive_disk_shrunk server_seed neg content answers rounds rest answer small short h =
    let next =
      disk_loop_shrunk (expected_len neg) 0 [] content rounds rest answer small refl (omega arith)
        h in
    let same : 0 + length content ≡ length content = omega arith in rw (next, same) refl
