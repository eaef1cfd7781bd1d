-- ===== src/Udp/Balance.antt =====
-- What arrives and what is dropped of the datagrams of one sender, against the range of numbers that
-- the receiver expects.
use mathlib.Core.List.{Perm}
use andri.Common.{
  ℕ, ◌+◌, ◌-◌, ◌^◌, ◌≤◌, ◌<◌, ◌≡◌, refl, ap, sym, ◌∙◌, some, List, [], ◌∷◌, ◌++◌, length, arith,
  min, Option-cases, inl, inr,
}
use andri.Float.{Float}
use andri.Udp.LossJitter.{Arrival, new, observe_all, into_result}
use andri.Udp.Window.{window, least, greatest, seqs}
use andri.Udp.Missing.{missing, duplicates, length-missing}
use andri.Udp.Loss.{lost-missing, length-seqs, seqs-InRange, least-le-greatest}
use andri.Udp.Serve.{Event}
use andri.Udp.ServeLaws.{heard}
use andri.Udp.Pacing.{Numbered}
use andri.Udp.Tally.{tally, tally-append, tally-perm, at, from, duplicates-zero}
use andri.Udp.Delivery.{
  delivered, number, headless, tally-heard, over, tally-Numbered, headless-Numbered, over-at_once,
  over-at_beyond, over-from, length-window, at-window, least-window, greatest-window,
}

pub some-least : (ps : List Arrival) → 0 < length ps → (m : ℕ) × (least ps ≡ some m)
some-least [] h = absurd (omega arith)
some-least (a ∷ ps) h = elim (Option-cases (least ps)) [
  | inl none_later ↦ (a.seq, rw none_later refl)
  | inr (m, later) ↦ (min a.seq m, rw later refl)
]

least-some : (ps : List Arrival) (m : ℕ) → least ps ≡ some m → 0 < length ps
least-some [] m e = cc
least-some (a ∷ ps) m e = omega arith

module _ (size t0 w : ℕ) (sent dropped : List (List ℕ)) (events : List Event)
    (numbered : Numbered size 0 sent) (perm : Perm (delivered events ++ dropped) sent) where
  -- A sum over what was sent splits into what arrived and what was dropped.
  split : (f : List ℕ → ℕ) → tally f (delivered events) + tally f dropped ≡ tally f sent
  split f =
      sym (tally-append f (delivered events) dropped)
      ∙ tally-perm f (delivered events ++ dropped) sent perm

  all_headed : tally headless (delivered events) ≡ 0
  all_headed = omega (arith, split headless, headless-Numbered size 0 sent numbered)

  heard_split :
      (f : ℕ → ℕ)
      → tally (λ a. f a.seq) (heard t0 events) + tally (λ d. f (number d)) dropped
        ≡ over f 0 (length sent)
  heard_split f = omega (
    arith,
    tally-heard f t0 events all_headed,
    split (λ d. f (number d)),
    tally-Numbered f size 0 sent numbered,
  )

  -- How many of the dropped datagrams are numbered `w` or more.
  abbrev pub dropped_measured : ℕ
  dropped_measured = tally (λ d. from w (number d)) dropped

  pub window_balance : length (window w (heard t0 events)) + dropped_measured ≡ length sent - w
  window_balance =
      omega (
        arith,
        length-window w (heard t0 events),
        heard_split (from w),
        over-from w 0 (length sent),
      )

  no_duplicates : duplicates (seqs (window w (heard t0 events))) ≡ 0
  no_duplicates = duplicates-zero _ (λ k.
      omega (
        arith,
        at-window k w (heard t0 events),
        heard_split (at k),
        over-at_once k 0 (length sent),
      ))

  below_sent : 0 < length sent → greatest (window w (heard t0 events)) < length sent
  below_sent pos =
      greatest-window w (length sent) (heard t0 events) pos
        (λ k le. omega (arith, heard_split (at k), over-at_beyond k 0 (length sent) (omega arith)))

  module _ (first : ℕ) (el : least (window w (heard t0 events)) ≡ some first)
      (few : length sent < 2 ^ 64) where
    -- The range that the receiver expects, and the gaps in it.
    pub gaps :
        let ws = window w (heard t0 events) in
        (w ≤ first)
        × (first ≤ greatest ws)
        × (greatest ws < length sent)
        × (length ws + missing first (greatest ws - first + 1) (seqs ws) ≡ greatest ws - first + 1)
    gaps =
        let ws = window w (heard t0 events) in
        let n = greatest ws - first + 1 in
        let lo : w ≤ first = rw el at (least-window w (heard t0 events)) in
        let mid = least-le-greatest ws first el in
        let pos : 0 < length sent = omega (arith, window_balance, least-some ws first el) in
        let hi = below_sent pos in
        let bounded = seqs-InRange first n ws (rw el (omega arith)) (omega arith) in
        let balance = length-missing first n (seqs ws) bounded in
        (lo, mid, hi, omega (arith, balance, no_duplicates, length-seqs ws))

    pub counted :
        (fl : Float) (secs : fl.F)
        → let ws = window w (heard t0 events) in
          let r = into_result fl (observe_all fl (new fl w) (heard t0 events)) secs in
          (r.packets_expected ≡ some (greatest ws - first + 1))
          × (r.packets_received ≡ some (length ws))
          × (r.packets_lost ≡ some (greatest ws - first + 1 - length ws))
    counted fl secs =
        let ws = window w (heard t0 events) in
        let (lo, mid, hi, balance) = gaps in
        let r =
          lost-missing fl w (heard t0 events) secs first el (omega arith)
            (omega (arith, window_balance)) in
        let lost : missing first (greatest ws - first + 1) (seqs ws) - duplicates (seqs ws)
            ≡ greatest ws - first + 1 - length ws =
          omega (arith, balance, no_duplicates) in
        (r.0, r.1, r.2 ∙ ap (λ (n : ℕ). some n) lost)
