-- ===== src/File/Drive.antt =====
-- `drive` of src/modes/file.rs: the sender, from the disk or from memory. Its progress on stderr is
-- in Progress. Each round of a loop comes with what the environment answers.
use andri.Common.{
  ℕ, ◌-◌, List, [], ◌∷◌, ◌++◌, Bool, true, false, min, ltb, ◌==◌, if◌then◌else◌, add64, take,
  length, replicate, Option, none, some,
}
use mathlib.Core.Option
use andri.Io.{IoError, IoResult, ok, err}
use andri.Proto.Messages.{Negotiate}
use andri.Meter.Fill.{fill_random}
use andri.File.Serve.{buf_len}

-- What was written to the stream, how much `sent` counts, and how the loop stands.
pub data Outcome : Type 0 where
  finished : ℕ → List ℕ → Outcome
  running : ℕ → List ℕ → Outcome
  failed : IoError → Outcome
  -- `expect` on a missing path.
  panicked : Outcome

-- `while sent < total` with the buffer from memory, over the answers of `write_all`.
unfoldable pub null_loop : List ℕ → ℕ → ℕ → List ℕ → List (IoResult (Unit {0})) → Outcome
null_loop buf total sent out [] = if ltb sent total then running sent out else finished sent out
null_loop buf total sent out (answer ∷ rest) = elim (ltb sent total) [
  | false ↦ finished sent out
  | true ↦ elim answer [
    | err e ↦ failed e
    | ok u ↦
        let want = min (total - sent) (length buf) in
        null_loop buf total (add64 sent want) (out ++ take want buf) rest
  ]
]

-- One read of the file, at most `buf_len` bytes and empty at its end, and the answer of
-- `write_all` to what was read.
abbrev pub DiskRound : Type 0
DiskRound = IoResult (List ℕ) × IoResult (Unit {0})

-- `while sent < total` with the file's bytes.
unfoldable pub disk_loop : ℕ → ℕ → List ℕ → List DiskRound → Outcome
disk_loop total sent out [] = if ltb sent total then running sent out else finished sent out
disk_loop total sent out ((chunk, answer) ∷ rest) = elim (ltb sent total) [
  | false ↦ finished sent out
  | true ↦ elim chunk [
    | err e ↦ failed e
    | ok bytes ↦ elim (length bytes == 0) [
      | true ↦ finished sent out
      | false ↦ elim answer [
        | err e ↦ failed e
        | ok u ↦ disk_loop total (add64 sent (length bytes)) (out ++ bytes) rest
      ]
    ]
  ]
]

-- `?` on a step without a result, before the loop or after it.
abbrev pub before_loop : IoResult (Unit {0}) → Outcome → Outcome
before_loop (ok u) loop = loop
before_loop (err e) loop = failed e

abbrev pub after_loop : IoResult (Unit {0}) → Outcome → Outcome
after_loop (ok u) loop = loop
after_loop (err e) (finished sent out) = failed e
after_loop (err e) (running sent out) = running sent out
after_loop (err e) (failed e') = failed e'
after_loop (err e) panicked = panicked

abbrev pub on_path : Option (IoResult (Unit {0})) → Outcome → Outcome
on_path none loop = panicked
on_path (some file) loop = before_loop file loop

-- `connected` is the answer of the connection set up with `set_nodelay`, `path` that of opening
-- the file where one was given, `flushed` that of the flush at the end.
unfoldable pub drive :
    ℕ
    → Negotiate
    → Option (IoResult (Unit {0}))
    → Bool
    → IoResult (Unit {0})
    → List (IoResult (Unit {0}))
    → List DiskRound
    → IoResult (Unit {0})
    → Outcome
drive server_seed neg path null_source connected answers rounds flushed =
    let total = Option.get_or neg.file_len 0 in
    let buf = fill_random (replicate buf_len 0) server_seed in
    let from_memory = null_loop buf total 0 [] answers in
    let from_disk = on_path path (disk_loop total 0 [] rounds) in
    before_loop connected (after_loop flushed (if null_source then from_memory else from_disk))
