-- ===== src/Meter/ReadoutLaws.antt =====
-- The readout of `run_sampler` of src/meter.rs beside its time series.
use andri.Common.{
  ℕ, zero, suc, ◌+◌, ◌-◌, ◌*◌, ◌≤◌, ◌<◌, ◌≡◌, refl, sym, ap, ap₂, ◌∙◌, some, List, [], ◌∷◌, ◌++◌,
  String, map, length, leb, true, false, if◌then◌else◌, replicate, arith, Bool-cases, inl, inr,
}
use mathlib.Core.List.{append_assoc, map-append}
use andri.Float.{Float}
use andri.Cli.{Format}
use andri.Cli.Show.{render}
use andri.Proto.Messages.{Sample}
use andri.Meter.Sampler.{Tick, Sampler, on_tick, sampler_loop, run_sampler}
use andri.Meter.Readout.{excluded, tag, Readout, readout, readout_loop, live_readout}

le→leb : (a b : ℕ) → a ≤ b → leb a b ≡ true
le→leb a b h = ground arith

lt→leb : (a b : ℕ) → b < a → leb a b ≡ false
lt→leb a b h = ground arith

abbrev pub second : ℕ
second = 1000000000

-- The ticks after the `k`-th: each at its second after `t0`, or up to a tenth of a second later.
abbrev pub OnTime : ℕ → ℕ → List Tick → Type 0
OnTime t0 k [] = Unit
OnTime t0 k (tick ∷ rest) =
    (t0 + suc k * second ≤ tick.now)
    × (tick.now ≤ t0 + suc k * second + 100000000)
    × OnTime t0 (suc k) rest

-- The marks of `m` lines after the `k`-th, with a warm-up of `warmup` seconds.
abbrev marks : ℕ → ℕ → ℕ → List String
marks warmup k zero = []
marks warmup k (suc m) = (if leb (suc k) warmup then excluded else "") ∷ marks warmup (suc k) m

marks_after : (warmup k m : ℕ) → warmup ≤ k → marks warmup k m ≡ replicate m ""
marks_after warmup k zero h = refl
marks_after warmup k (suc m) h =
    let over : leb (suc k) warmup ≡ false = ground arith in
    rw over (ap (λ l. "" ∷ l) (marks_after warmup (suc k) m (omega arith)))

marks_before :
    (warmup k m w d : ℕ)
    → warmup ≡ k + w
    → m ≡ w + d
    → marks warmup k m ≡ replicate w excluded ++ replicate d ""
marks_before warmup k m zero d h e =
    let same : m ≡ d = omega arith in
    marks_after warmup k m (omega arith) ∙ ap (λ n. replicate n "") same
marks_before warmup k zero (suc w) d h e = absurd (omega arith)
marks_before warmup k (suc m) (suc w) d h e =
    let within : leb (suc k) warmup ≡ true = ground arith in
    rw within
      (ap (λ l. excluded ∷ l) (marks_before warmup (suc k) m w d (omega arith) (omega arith)))

tag_on_time :
    (t0 now k w : ℕ)
    → t0 + suc k * second ≤ now
    → now ≤ t0 + suc k * second + 100000000
    → tag (now - t0) (w * second) ≡ (if leb (suc k) w then excluded else "")
tag_on_time t0 now k w early late = elim (Bool-cases (leb (suc k) w)) [
  | inl within ↦
      let below : suc k ≤ w = ground arith in
      let soon : leb (now - t0) (w * second + 100000000) ≡ true = le→leb _ _ (omega arith) in
      rw (within, soon) refl
  | inr over ↦
      let above : w ≤ k = ground arith in
      let late : leb (now - t0) (w * second + 100000000) ≡ false = lt→leb _ _ (omega arith) in
      rw (over, late) refl
]

module _ (fl : Float) (fixed : ℕ → fl.F → String) (fmt : Format) (t0 w : ℕ) where
  -- The rate of a sample, as it is printed.
  abbrev pub shown : Sample fl.F → String
  shown s = render fl fixed fmt s.bits_per_sec

  abbrev lines : ℕ → Sampler fl → List Tick → List (Readout fl)
  lines window st ticks = readout_loop fl fixed fmt t0 window (w * second) false st ticks

  -- The series returns, and the lines have its rates and these marks.
  abbrev Beside : ℕ → Sampler fl → List Tick → List String → Type 0
  Beside window st ticks expected =
      (samples : List (Sample fl.F)) × (sampler_loop fl t0 window st ticks ≡ some samples)
      × (map shown samples ≡ map shown st.samples ++ map (λ l. l.rate) (lines window st ticks))
      × (map (λ l. l.marked) (lines window st ticks) ≡ expected)

  shown-on_tick :
      (window : ℕ) (st : Sampler fl) (tick : Tick)
      → map shown (on_tick fl t0 st tick).samples
        ≡ map shown st.samples
          ++ ((readout fl fixed fmt t0 window (w * second) false st tick).rate ∷ [])
  unfolding on_tick
  shown-on_tick window st tick = map-append shown st.samples _

  readout_loop-Beside :
      (k m window : ℕ) (st : Sampler fl) (ticks : List Tick)
      → window ≡ (k + suc m) * second
      → OnTime t0 k ticks
      → suc m ≤ length ticks
      → Beside window st ticks (marks w k (suc m))
  unfolding sampler_loop readout_loop
  readout_loop-Beside k m window st [] e h enough = absurd (omega arith)
  readout_loop-Beside k zero window st (tick ∷ rest) e (early, late, h) enough =
      let over : leb window (tick.now - t0) ≡ true = le→leb _ _ (omega arith) in
      (
        (on_tick fl t0 st tick).samples,
        rw (over, sampler_loop) refl,
        rw (over, readout_loop) (shown-on_tick window st tick),
        rw (over, readout_loop) (ap (λ x. x ∷ []) (tag_on_time t0 tick.now k w early late)),
      )
  readout_loop-Beside k (suc m) window st (tick ∷ rest) e (early, late, h) enough =
      let before : leb window (tick.now - t0) ≡ false = lt→leb _ _ (omega arith) in
      let st' = on_tick fl t0 st tick in
      let (samples, ends, rates, marked) =
        readout_loop-Beside (suc k) m window st' rest (omega arith) h (omega arith) in
      (
        samples,
        rw (before, sampler_loop) ends,
        rw (before, readout_loop)
            (rates
              ∙ ap (λ l. l ++ map (λ r. r.rate) (lines window st' rest))
                  (shown-on_tick window st tick)
              ∙ append_assoc (map shown st.samples) _ _),
        rw (before, readout_loop)
            (ap₂ (λ x l. x ∷ l) (tag_on_time t0 tick.now k w early late) marked),
      )

-- Where each tick comes at its second or up to a tenth of a second later, the sampler prints one
-- line for each sample, with its rate: as many as the warm-up and the test have seconds, of which
-- exactly those of the warm-up are marked as excluded.
pub live_readout_lem :
    (fl : Float) (fixed : ℕ → fl.F → String) (fmt : Format) (t0 first w d : ℕ) (ticks : List Tick)
    → 0 < w + d
    → w + d ≤ length ticks
    → OnTime t0 0 ticks
    → let window = (w + d) * second in
      let printed = live_readout fl fixed fmt t0 window (w * second) false first ticks in
      (samples : List (Sample fl.F)) × (run_sampler fl first t0 window ticks ≡ some samples)
      × (map (λ l. l.rate) printed ≡ map (λ s. render fl fixed fmt s.bits_per_sec) samples)
      × (map (λ l. l.marked) printed ≡ replicate w excluded ++ replicate d "")
unfolding run_sampler live_readout
live_readout_lem fl fixed fmt t0 first w d ticks some_line enough h =
    let m = w + d - 1 in
    let sum : suc m ≡ w + d = omega arith in
    let (samples, ends, rates, marked) =
      readout_loop-Beside fl fixed fmt t0 w 0 m ((w + d) * second)
        (record { samples = []; last_bytes = first; last_t = t0 }) ticks (omega arith) h
        (omega arith) in
    (samples, ends, sym rates, marked ∙ marks_before w 0 (suc m) w d (omega arith) sum)
