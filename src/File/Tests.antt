-- ===== src/File/Tests.antt =====
-- Runs of the file mode, and each theorem about it at a concrete input.
use andri.Common.{
  ℕ, ◌+◌, map, ◌*◌, ◌<◌, ◌≡◌, refl, none, some, List, [], ◌∷◌, ◌++◌, true, false, length, arith,
  replicate,
}
use andri.Io.{IoResult, ok}
use andri.Float.{as_secs_f64}
use andri.FloatModel.Rational.{rational, fixed}
use andri.Cli.{Format}
use andri.Cli.Show.{render}
use andri.File.Serve.{buf_len}
use andri.File.Progress.{Line, report, disk_lines, drive_lines}
use andri.File.ProgressLaws.{Shows, drive_lines-Shows}
use andri.FloatModel.{whole}
use andri.Proto.Messages.{Mode, Negotiate}
use andri.Meter.Sampler.{Tick}
use andri.File.Serve.{done, receive, serve}
use andri.File.EndToEnd.{Carries, drive-serve_stalls}
use andri.File.Drive.{finished, DiskRound, drive}
use andri.File.DriveLaws.{drive_null_finishes}
use andri.File.DiskLaws.{drive_disk_overshoots}

-- A file of five bytes.
abbrev neg : Negotiate
neg = record {
  mode = Mode.file;
  duration_secs = 0;
  warmup_secs = 0;
  parallel = 1;
  buffer_bytes = 262144;
  bidir = false;
  bitrate_bps = none;
  packet_bytes = none;
  file_len = some 5;
  null_source = some true;
}

-- Two bytes are ready, then one, then many.
abbrev reads : List (IoResult ℕ)
reads = ok 2 ∷ ok 1 ∷ ok 10 ∷ []

read_all : receive 5 0 reads ≡ done 5
unfolding receive
read_all = refl

-- The client closes after three bytes.
abbrev short_reads : List (IoResult ℕ)
short_reads = ok 2 ∷ ok 1 ∷ ok 0 ∷ []

short_stops : receive 5 0 short_reads ≡ done 3
unfolding receive
short_stops = refl

abbrev second : ℕ
second = 1000000000

abbrev short_ticks : List Tick
short_ticks =
    record { now = second; cur = 2 }
    ∷ record { now = 2 * second; cur = 3 }
    ∷ record { now = 3 * second; cur = 3 }
    ∷ []

abbrev all_reads : List (IoResult ℕ)
all_reads = ok 2 ∷ ok 1 ∷ ok 10 ∷ ok 10 ∷ ok 10 ∷ []

abbrev first_tick : Tick
first_tick = record { now = second; cur = 2 }

abbrev last_tick : Tick
last_tick = record { now = 2 * second; cur = 5 }

abbrev five : List (IoResult (Unit {0}))
five = replicate 5 (ok tt)

drive_null_finishes_example :
    (bytes : List ℕ) × (drive 7 neg none true (ok tt) five [] (ok tt) ≡ finished 5 bytes)
    × (length bytes ≡ 5)
drive_null_finishes_example = drive_null_finishes 7 neg none five [] (omega arith) tt (omega arith)

-- Eight bytes are read from a file that had five.
abbrev grown : List ℕ
grown = replicate 8 1

abbrev rounds : List DiskRound
rounds = (ok grown, ok tt) ∷ []

drive_disk_overshoots_example :
    (out : List ℕ) × (drive 7 neg (some (ok tt)) false (ok tt) [] rounds (ok tt) ≡ finished 8 out)
    × (5 < length out)
drive_disk_overshoots_example =
    drive_disk_overshoots 7 neg grown [] (omega arith) (omega arith) (omega arith)

-- A file of three bytes, where five were negotiated: two are read, then one, then the end.
abbrev shrunk : List ℕ
shrunk = 1 ∷ 2 ∷ 3 ∷ []

abbrev shrunk_rounds : List DiskRound
shrunk_rounds = (ok (1 ∷ 2 ∷ []), ok tt) ∷ (ok (3 ∷ []), ok tt) ∷ []

abbrev shrunk_reads : List (IoResult ℕ)
shrunk_reads = ok 3 ∷ ok 0 ∷ ok 0 ∷ ok 0 ∷ []

shrunk_carried : Carries 3 5 0 shrunk_reads
shrunk_carried = (
  omega arith,
  (λ e. omega (arith, e)),
  (
    omega arith,
    (λ e. omega arith),
    (omega arith, (λ e. omega arith), (omega arith, (λ e. omega arith), tt)),
  ),
)

drive-serve_stalls_example :
    (drive 7 neg (some (ok tt)) false (ok tt) [] (shrunk_rounds ++ ((ok [], ok tt) ∷ [])) (ok tt)
      ≡ finished 3 shrunk)
    × (serve whole neg (ok tt) 0 second shrunk_reads short_ticks ≡ none)
drive-serve_stalls_example =
    drive-serve_stalls whole 7 neg shrunk [] shrunk_rounds [] (ok tt) 0 second shrunk_reads
      short_ticks (omega arith) (omega arith)
      (omega arith, 3 ∷ [], refl, (omega arith, [], refl, refl)) shrunk_carried (omega arith)
      (omega arith, (omega arith, (omega arith, tt)))

abbrev content : List ℕ
content = 1 ∷ 2 ∷ 3 ∷ 4 ∷ 5 ∷ []

abbrev content_rounds : List DiskRound
content_rounds = (ok (1 ∷ 2 ∷ 3 ∷ []), ok tt) ∷ (ok (4 ∷ 5 ∷ []), ok tt) ∷ []

abbrev content_reads : List (IoResult ℕ)
content_reads = ok 3 ∷ ok 2 ∷ ok 0 ∷ ok 0 ∷ ok 0 ∷ ok 0 ∷ []

-- A file of five bytes in three reads, written at one, two and three seconds.
abbrev written_at : List (DiskRound × ℕ)
written_at =
    ((ok (1 ∷ 2 ∷ []), ok tt), second)
    ∷ ((ok (3 ∷ 4 ∷ []), ok tt), 2 * second)
    ∷ ((ok (5 ∷ []), ok tt), 3 * second)
    ∷ []

abbrev lines : List (Line rational)
lines =
    drive_lines rational fixed Format.bits false 7 neg (some (ok tt)) false (ok tt) [] written_at

-- Two bytes in each of the first two seconds: 16 bit/s, and then 8.
progress_rates : map (λ l. l.rate) lines ≡ "16 bit/s" ∷ "8 bit/s" ∷ "3 bit/s" ∷ []
unfolding drive_lines disk_lines report render as_secs_f64
progress_rates = refl

drive_lines-Shows_example :
    Shows rational fixed Format.bits 5 false
      (5 + buf_len)
      (record { next_report = second; last_sent = 0 })
      (drive_lines rational fixed Format.bits false 7 neg
        (some (ok tt))
        false
        (ok tt)
        []
        written_at)
drive_lines-Shows_example =
    drive_lines-Shows rational fixed Format.bits false 7 neg (some (ok tt)) false (ok tt) []
      written_at (omega arith) (omega arith, (omega arith, (omega arith, tt)))
