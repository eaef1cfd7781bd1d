-- ===== src/File/Progress.antt =====
-- The sender's progress on stderr, the closure `report` in `drive` of src/modes/file.rs: what its
-- calls after each write print. Printing a f64 is a parameter, and times are in nanoseconds.
use andri.Common.{
  ℕ, ◌+◌, ◌-◌, Bool, true, false, not, ◌&&◌, ◌||◌, List, [], ◌∷◌, ◌++◌, String, Option, none, some,
  min, ltb, ◌==◌, if◌then◌else◌, add64, sub64, length, replicate,
}
use mathlib.Core.Option
use andri.Io.{IoResult, ok, err}
use andri.Float.{Float, as_secs_f64}
use andri.Cli.{Format}
use andri.Cli.Show.{render}
use andri.Proto.Messages.{Negotiate}
use andri.Meter.Fill.{fill_random}
use andri.File.Serve.{buf_len}
use andri.File.Drive.{DiskRound}

-- The variables that the closure changes.
pub record Progress : Type 0 where
  pub next_report : ℕ
  pub last_sent : ℕ  -- u64

abbrev pub before_first : Progress
before_first = record { next_report = 1000000000; last_sent = 0 }

module _ (fl : Float) where
  open fl use {F}

  -- What one line is printed from.
  pub record Line : Type 0 where
    pub secs : F
    pub rate : String
    pub percent : F
    pub sent : ℕ

module _ (fl : Float) (fixed : ℕ → fl.F → String) (fmt : Format) (total : ℕ) (quiet : Bool) where
  open fl use {F, of_u64, mul, div, lt}

  -- `bps`, from the bytes of the interval and the time since the start.
  abbrev pub interval_rate : ℕ → F → F
  interval_rate interval secs =
      if lt (of_u64 0) secs then div (mul (of_u64 interval) (of_u64 8)) secs else of_u64 0

  abbrev pub percent_sent : ℕ → F
  percent_sent sent =
      if ltb 0 total then mul (div (of_u64 sent) (of_u64 total)) (of_u64 100) else of_u64 100

  abbrev pub line : ℕ → ℕ → Progress → Line fl
  line elapsed sent p =
      let secs = as_secs_f64 fl elapsed in
      record {
        secs = secs;
        rate = render fl fixed fmt (interval_rate (sub64 sent p.last_sent) secs);
        percent = percent_sent sent;
        sent = sent;
      }

  -- One call, at `elapsed` since the start; both loops pass `false` for `force`.
  unfoldable pub report : Bool → ℕ → ℕ → Progress → List (Line fl) × Progress
  report force elapsed sent p =
      if quiet || (not force && ltb elapsed p.next_report) then ([], p) else (
        line elapsed sent p ∷ [],
        record { next_report = elapsed + 1000000000; last_sent = sent },
      )

  -- The lines of the loop from memory; each answer of `write_all` comes with the time after it.
  unfoldable pub null_lines :
      List ℕ → ℕ → Progress → List (IoResult (Unit {0}) × ℕ) → List (Line fl)
  null_lines buf sent p [] = []
  null_lines buf sent p ((answer, elapsed) ∷ rest) = elim (ltb sent total) [
    | false ↦ []
    | true ↦ elim answer [
      | err e ↦ []
      | ok u ↦
          let now = add64 sent (min (total - sent) (length buf)) in
          let called = report false elapsed now p in called.0 ++ null_lines buf now called.1 rest
    ]
  ]

  -- The lines of the loop from the disk; each round comes with the time after its write.
  unfoldable pub disk_lines : ℕ → Progress → List (DiskRound × ℕ) → List (Line fl)
  disk_lines sent p [] = []
  disk_lines sent p (((chunk, answer), elapsed) ∷ rest) = elim (ltb sent total) [
    | false ↦ []
    | true ↦ elim chunk [
      | err e ↦ []
      | ok bytes ↦ elim (length bytes == 0) [
        | true ↦ []
        | false ↦ elim answer [
          | err e ↦ []
          | ok u ↦
              let now = add64 sent (length bytes) in
              let called = report false elapsed now p in called.0 ++ disk_lines now called.1 rest
        ]
      ]
    ]
  ]

module _ (fl : Float) (fixed : ℕ → fl.F → String) (fmt : Format) (quiet : Bool) where
  -- `connected` and `path` are the answers that `drive` takes.
  unfoldable pub drive_lines :
      ℕ
      → Negotiate
      → Option (IoResult (Unit {0}))
      → Bool
      → IoResult (Unit {0})
      → List (IoResult (Unit {0}) × ℕ)
      → List (DiskRound × ℕ)
      → List (Line fl)
  drive_lines server_seed neg path null_source (err e) answers rounds = []
  drive_lines server_seed neg path true (ok u) answers rounds =
      null_lines fl fixed fmt (Option.get_or neg.file_len 0) quiet
        (fill_random (replicate buf_len 0) server_seed) 0 before_first answers
  drive_lines server_seed neg none false (ok u) answers rounds = []
  drive_lines server_seed neg (some (err e)) false (ok u) answers rounds = []
  drive_lines server_seed neg (some (ok v)) false (ok u) answers rounds =
      disk_lines fl fixed fmt (Option.get_or neg.file_len 0) quiet 0 before_first rounds
