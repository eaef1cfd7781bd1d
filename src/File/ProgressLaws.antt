-- ===== src/File/ProgressLaws.antt =====
-- What the progress lines of `drive` in src/modes/file.rs show.
use andri.Common.{
  ℕ, ◌+◌, ◌-◌, ◌^◌, ◌≤◌, ◌<◌, ◌≡◌, refl, Bool, true, false, List, [], ◌∷◌, ◌++◌, String, Option,
  none, some, inl, inr, min, ltb, sub64, ◌||◌, ◌==◌, if◌then◌else◌, add64, length, arith, All,
  Bool-cases, replicate, length-replicate, ◌∙◌,
}
use andri.Io.{IoResult, ok, err}
use andri.Float.{Float, as_secs_f64}
use andri.Cli.{Format}
use andri.Cli.Show.{render}
use andri.Proto.Messages.{Negotiate}
use andri.Meter.Fill.{fill_random}
use andri.Meter.FillLaws.{length-fill_random}
use andri.File.Serve.{buf_len}
use andri.File.Drive.{DiskRound}
use andri.File.DiskLaws.{ReadFits}
use andri.File.Stall.{expected_len}
use andri.File.Progress.{Progress, before_first, Line, report, null_lines, disk_lines, drive_lines}

module _ (fl : Float) (fixed : ℕ → fl.F → String) (fmt : Format) (total : ℕ) (quiet : Bool) where
  -- The lines after `p`: each a second after the last one or later, with more bytes sent and at
  -- most `limit`, and the bytes since the last line over the time since the start as its rate.
  abbrev pub Shows : ℕ → Progress → List (Line fl) → Type 0
  Shows limit p [] = Unit
  Shows limit p (l ∷ ls) =
      (at : ℕ) × (p.next_report ≤ at)
      × (p.last_sent < l.sent)
      × (l.sent ≤ limit)
      × (l.secs ≡ as_secs_f64 fl at)
      × (l.rate
          ≡ render fl fixed fmt (
              if fl.lt (fl.of_u64 0) (as_secs_f64 fl at)
              then fl.div (fl.mul (fl.of_u64 (l.sent - p.last_sent)) (fl.of_u64 8))
                  (as_secs_f64 fl at)
              else fl.of_u64 0))
      × (l.percent ≡ (
          if ltb 0 total
          then fl.mul (fl.div (fl.of_u64 l.sent) (fl.of_u64 total)) (fl.of_u64 100)
          else fl.of_u64 100))
      × Shows limit (record { next_report = at + 1000000000; last_sent = l.sent }) ls

  -- One call, before whatever lines follow it.
  report-Shows :
      (limit elapsed sent : ℕ) (p : Progress) (rest : Progress → List (Line fl))
      → limit < 2 ^ 64
      → p.last_sent < sent
      → sent ≤ limit
      → ((q : Progress) → q.last_sent ≤ sent → Shows limit q (rest q))
      → Shows limit p (
          (report fl fixed fmt total quiet false elapsed sent p).0
          ++ rest (report fl fixed fmt total quiet false elapsed sent p).1)
  unfolding report
  report-Shows limit elapsed sent p rest small more le later =
      let wraps : sub64 sent p.last_sent ≡ sent - p.last_sent = omega arith in
      elim (Bool-cases (quiet || ltb elapsed p.next_report)) [
        | inl silent ↦ rw silent (later p (omega arith))
        | inr due ↦
            let reached : p.next_report ≤ elapsed = ground arith in
            rw due (
              elapsed,
              reached,
              more,
              le,
              refl,
              rw wraps refl,
              refl,
              later (record { next_report = elapsed + 1000000000; last_sent = sent }) (omega arith),
            )
      ]

  null_lines-Shows :
      (buf : List ℕ) (sent : ℕ) (p : Progress) (answers : List (IoResult (Unit {0}) × ℕ))
      → total < 2 ^ 64
      → 0 < length buf
      → p.last_sent ≤ sent
      → Shows total p (null_lines fl fixed fmt total quiet buf sent p answers)
  unfolding null_lines
  null_lines-Shows buf sent p [] small some_buf le = tt
  null_lines-Shows buf sent p ((err e, at) ∷ rest) small some_buf le = ground arith
  null_lines-Shows buf sent p ((ok u, at) ∷ rest) small some_buf le =
      elim (Bool-cases (ltb sent total)) [
        | inr over ↦ rw (over, null_lines) tt
        | inl more ↦
            let below : sent < total = ground arith in
            let now = add64 sent (min (total - sent) (length buf)) in
            rw (more, null_lines)
              (report-Shows total at now p (λ q. null_lines fl fixed fmt total quiet buf now q rest)
                small (omega arith) (omega arith)
                (λ q kept. null_lines-Shows buf now q rest small some_buf kept))
      ]

  disk_lines-Shows :
      (sent : ℕ) (p : Progress) (rounds : List (DiskRound × ℕ))
      → total + buf_len < 2 ^ 64
      → All (λ r. ReadFits r.0) rounds
      → p.last_sent ≤ sent
      → Shows (total + buf_len) p (disk_lines fl fixed fmt total quiet sent p rounds)
  unfolding disk_lines
  disk_lines-Shows sent p [] small h le = tt
  disk_lines-Shows sent p (((err e, answer), at) ∷ rest) small h le = ground arith
  disk_lines-Shows sent p (((ok bytes, err e), at) ∷ rest) small h le = ground arith
  disk_lines-Shows sent p (((ok bytes, ok u), at) ∷ rest) small (fits, h) le =
      elim (Bool-cases (ltb sent total)) [
        | inr over ↦ rw (over, disk_lines) tt
        | inl more ↦ elim (Bool-cases (length bytes == 0)) [
          | inl eof ↦ rw (more, eof, disk_lines) tt
          | inr some_read ↦
              let below : sent < total = ground arith in
              let read : 0 < length bytes = ground arith in
              let now = add64 sent (length bytes) in
              rw (more, some_read, disk_lines)
                (report-Shows (total + buf_len) at now p
                  (λ q. disk_lines fl fixed fmt total quiet now q rest) small (omega arith)
                  (omega arith) (λ q kept. disk_lines-Shows now q rest small h kept))
        ]
      ]

-- The sender's lines: none before the first second, at most one a second, each with more bytes than
-- the one before; from memory never more than negotiated, from the disk (whose reads give at most a
-- buffer) at most a buffer more. Each line's rate is the bytes since the line before over
-- the time since the start, not over the time since the line before.
pub drive_lines-Shows :
    (fl : Float) (fixed : ℕ → fl.F → String) (fmt : Format) (quiet : Bool) (server_seed : ℕ)
    (neg : Negotiate) (path : Option (IoResult (Unit {0}))) (null_source : Bool)
    (connected : IoResult (Unit {0})) (answers : List (IoResult (Unit {0}) × ℕ))
    (rounds : List (DiskRound × ℕ))
    → expected_len neg + buf_len < 2 ^ 64
    → All (λ r. ReadFits r.0) rounds
    → Shows fl fixed fmt
        (expected_len neg)
        quiet
        (if null_source then expected_len neg else expected_len neg + buf_len)
        (record { next_report = 1000000000; last_sent = 0 })
        (drive_lines fl fixed fmt quiet server_seed neg path null_source connected answers rounds)
unfolding drive_lines
drive_lines-Shows fl fixed fmt quiet server_seed neg path true (err e) answers rounds small h = tt
drive_lines-Shows fl fixed fmt quiet server_seed neg path false (err e) answers rounds small h = tt
drive_lines-Shows fl fixed fmt quiet server_seed neg none false (ok u) answers rounds small h = tt
drive_lines-Shows fl fixed fmt quiet server_seed neg (some (err e)) false (ok u) answers rounds
      small h =
    tt
drive_lines-Shows fl fixed fmt quiet server_seed neg (some (ok v)) false (ok u) answers rounds small
      h =
    disk_lines-Shows fl fixed fmt (expected_len neg) quiet 0 before_first rounds small h
      (omega arith)
drive_lines-Shows fl fixed fmt quiet server_seed neg path true (ok u) answers rounds small h =
    let buf = fill_random (replicate buf_len 0) server_seed in
    let full : length buf ≡ buf_len =
      (length-fill_random (replicate buf_len 0) server_seed).0
      ∙ length-replicate {A = ℕ} buf_len 0 in
    null_lines-Shows fl fixed fmt (expected_len neg) quiet buf 0 before_first answers (omega arith)
      (omega (arith, full)) (omega arith)
