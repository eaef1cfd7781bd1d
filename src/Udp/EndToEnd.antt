-- ===== src/Udp/EndToEnd.antt =====
-- The UDP mode from end to end: what the receiver reports of the datagrams of one finished sender,
-- some delivered in any order, the rest dropped.
mod Tests
use mathlib.Core.List.{Perm, append-nil}
use andri.Common.{
  ℕ, ◌+◌, ◌-◌, ◌*◌, ◌^◌, ◌≤◌, ◌<◌, ◌≡◌, refl, ap, sym, ◌∙◌, Option, none, some, List, [], ◌∷◌, ◌++◌,
  length, arith, Bool, max, min, Option-cases, inl, inr,
}
use andri.Io.{IoResult, ok}
use andri.Float.{Float}
use andri.Proto.Messages.{Negotiate, TestResult}
use andri.Udp.Header.{packet_size}
use andri.Udp.LossJitter.{Arrival, new, observe_all, into_result}
use andri.Udp.Window.{window, least, greatest, seqs}
use andri.Udp.Missing.{missing, duplicates, InRange, length-missing}
use andri.Udp.Loss.{AtLeast, lost-missing, length-seqs, seqs-InRange, least-le-greatest}
use andri.Udp.Serve.{Event, serve, warmup_threshold, measured_secs}
use andri.Udp.ServeLaws.{ending, heard}
use andri.Udp.Report.{first_measured, serve_stopped}
use andri.Udp.Pacing.{Numbered}
use andri.Udp.Drive.{Round, Sender, finished, drive}
use andri.Udp.Sender.{drive-Numbered}
use andri.Udp.Tally.{tally, tally-append, tally-perm, at, from, duplicates-zero}
use andri.Udp.Delivery.{
  delivered, number, headless, tally-heard, over, tally-Numbered, headless-Numbered, over-at_once,
  over-at_beyond, over-from, length-window, at-window, least-window, greatest-window,
}
use andri.Udp.Balance.{some-least, window_balance, gaps, counted}

-- What a report says of `expected`, `received` and `lost`.
abbrev pub Counted : {F : Type 0} → TestResult F → ℕ → ℕ → ℕ → Type 0
Counted r expected received lost =
    (r.packets_expected ≡ some expected)
    × (r.packets_received ≡ some received)
    × (r.packets_lost ≡ some lost)

Counted-lossless :
    (size t0 w : ℕ) (sent : List (List ℕ)) (events : List Event)
    → Numbered size 0 sent
    → Perm (delivered events) sent
    → w < length sent
    → length sent < 2 ^ 64
    → (fl : Float) (secs : fl.F)
    → Counted
        (into_result fl (observe_all fl (new fl w) (heard t0 events)) secs)
        (length sent - w)
        (length sent - w)
        0
Counted-lossless size t0 w sent events numbered perm longer few fl secs =
    let perm' : Perm (delivered events ++ []) sent = rw (append-nil (delivered events)) perm in
    let whole = window_balance size t0 w sent [] events numbered perm' in
    let ws = window w (heard t0 events) in
    let (first, el) = some-least ws (omega arith) in
    let (lo, mid, hi, balance) = gaps size t0 w sent [] events numbered perm' first el few in
    let c = counted size t0 w sent [] events numbered perm' first el few fl secs in
    let expected : greatest ws - first + 1 ≡ length sent - w = omega arith in
    let received : length ws ≡ length sent - w = omega arith in
    (
      c.0 ∙ ap (λ (n : ℕ). some n) expected,
      c.1 ∙ ap (λ (n : ℕ). some n) received,
      c.2 ∙ ap (λ (n : ℕ). some n) (omega arith),
    )

module _ (fl : Float) (server_seed t0 : ℕ) (neg : Negotiate) (quiet : Bool) (rounds : List Round)
    (st : Sender fl) (run : drive fl server_seed neg quiet rounds ≡ finished st)
    (few : length (st.burst).sent < 2 ^ 64) (events : List Event) (end : ℕ)
    (stopped : ending events ≡ some (ok end)) where
  -- The report, once its counts over the measured datagrams are known.
  Counted-serve :
      (expected received lost : ℕ)
      → (let w = warmup_threshold neg in
          let secs = measured_secs fl (first_measured w events) end in
          Counted
            (into_result fl (observe_all fl (new fl w) (heard t0 events)) secs)
            expected
            received
            lost)
      → (r : TestResult fl.F) × (serve fl neg t0 events ≡ some (ok r))
        × Counted r expected received lost
  Counted-serve expected received lost c =
      let s = serve_stopped fl t0 neg events end stopped in
      (
        s.0,
        s.1,
        (
          ap (λ r. r.packets_expected) s.2 ∙ c.0,
          ap (λ r. r.packets_received) s.2 ∙ c.1,
          ap (λ r. r.packets_lost) s.2 ∙ c.2,
        ),
      )

  -- A finished sender whose datagrams, more than the warm-up has, all arrive before the stop, once
  -- each and in any order: the receiver expects and has received every datagram after the warm-up,
  -- and reports no loss.
  pub drive-serve_lossless :
      Perm (delivered events) (st.burst).sent
      → warmup_threshold neg < length (st.burst).sent
      → let measured = length (st.burst).sent - warmup_threshold neg in
        (r : TestResult fl.F) × (serve fl neg t0 events ≡ some (ok r))
        × Counted r measured measured 0
  drive-serve_lossless perm longer = Counted-serve _ _ _ (
      Counted-lossless (packet_size neg) t0 (warmup_threshold neg) (st.burst).sent events
        (drive-Numbered fl server_seed neg quiet rounds st run few).1 perm longer few fl _)

  -- A finished sender of whose datagrams some arrive before the stop, once each and in any order,
  -- and the others are dropped. Where the first and the last one after the warm-up are among those
  -- that arrive, the receiver expects every datagram after the warm-up, and reports as lost exactly
  -- as many as were dropped of them.
  pub drive-serve_losses :
      (dropped : List (List ℕ))
      → Perm (delivered events ++ dropped) (st.burst).sent
      → least (window (warmup_threshold neg) (heard t0 events)) ≡ some (warmup_threshold neg)
      → greatest (window (warmup_threshold neg) (heard t0 events)) ≡ length (st.burst).sent - 1
      → let measured = length (st.burst).sent - warmup_threshold neg in
        let lost = tally (λ d. from (warmup_threshold neg) (number d)) dropped in
        (r : TestResult fl.F) × (serve fl neg t0 events ≡ some (ok r))
        × Counted r measured (measured - lost) lost
  drive-serve_losses dropped perm at_first at_last =
      let w = warmup_threshold neg in
      let sent = (st.burst).sent in
      let ws = window w (heard t0 events) in
      let secs = measured_secs fl (first_measured w events) end in
      let size = packet_size neg in
      let numbered = (drive-Numbered fl server_seed neg quiet rounds st run few).1 in
      let balance = window_balance size t0 w sent dropped events numbered perm in
      let (lo, mid, hi, _) = gaps size t0 w sent dropped events numbered perm w at_first few in
      let c = counted size t0 w sent dropped events numbered perm w at_first few fl secs in
      let lost = tally (λ d. from w (number d)) dropped in
      let e : greatest ws - w + 1 ≡ length sent - w = omega arith in
      let r : length ws ≡ length sent - w - lost = omega arith in
      let l : greatest ws - w + 1 - length ws ≡ lost = omega arith in
      Counted-serve _ _ _ (
        c.0 ∙ ap (λ (n : ℕ). some n) e,
        c.1 ∙ ap (λ (n : ℕ). some n) r,
        c.2 ∙ ap (λ (n : ℕ). some n) l,
      )

  -- A finished sender of whose datagrams some arrive before the stop, once each and in any order,
  -- and the others are dropped: where something after the warm-up arrives, the receiver never
  -- reports more losses than datagrams after the warm-up were dropped, and what it expects is what
  -- it has received and what it reports as lost.
  pub drive-serve_at_most :
      (dropped : List (List ℕ)) (first : ℕ)
      → Perm (delivered events ++ dropped) (st.burst).sent
      → least (window (warmup_threshold neg) (heard t0 events)) ≡ some first
      → (r : TestResult fl.F) × (received lost : ℕ) × (serve fl neg t0 events ≡ some (ok r))
        × Counted r (received + lost) received lost
        × (lost ≤ tally (λ d. from (warmup_threshold neg) (number d)) dropped)
  drive-serve_at_most dropped first perm el =
      let w = warmup_threshold neg in
      let sent = (st.burst).sent in
      let ws = window w (heard t0 events) in
      let secs = measured_secs fl (first_measured w events) end in
      let size = packet_size neg in
      let numbered = (drive-Numbered fl server_seed neg quiet rounds st run few).1 in
      let balance = window_balance size t0 w sent dropped events numbered perm in
      let (lo, mid, hi, all) = gaps size t0 w sent dropped events numbered perm first el few in
      let c = counted size t0 w sent dropped events numbered perm first el few fl secs in
      let lost = greatest ws - first + 1 - length ws in
      let e : greatest ws - first + 1 ≡ length ws + lost = omega arith in
      let s = Counted-serve _ _ _ (c.0 ∙ ap (λ (n : ℕ). some n) e, c.1, c.2) in
      (s.0, length ws, lost, s.1, s.2, omega arith)
