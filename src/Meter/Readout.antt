-- ===== src/Meter/Readout.antt =====
-- The live readout of `run_sampler` of src/meter.rs, the lines on stderr: one after each sample,
-- marked while the warm-up lasts. Printing a f64 is a parameter.
use andri.Common.{
  ℕ, ◌+◌, ◌-◌, List, [], ◌∷◌, ◌++◌, String, Bool, leb, if◌then◌else◌, saturating_sub,
}
use andri.Float.{Float, as_secs_f64}
use andri.Cli.{Format}
use andri.Cli.Show.{render}
use andri.Meter.Counter.{bits_per_sec}
use andri.Meter.Sampler.{Tick, Sampler, on_tick}

abbrev pub excluded : String
excluded = "  (warm-up, excluded)"

-- The mark of a line, from the time since the start and the warm-up's length, in nanoseconds.
abbrev pub tag : ℕ → ℕ → String
tag elapsed warmup = if leb elapsed (warmup + 100000000) then excluded else ""

module _ (fl : Float) where
  -- What a line is line_at from.
  pub record Readout : Type 0 where
    pub secs : fl.F
    pub rate : String
    pub marked : String

module _ (fl : Float) (fixed : ℕ → fl.F → String) (fmt : Format) (t0 window warmup : ℕ)
    (quiet : Bool) where
  abbrev pub readout : Sampler fl → Tick → Readout fl
  readout st tick =
      let interval_bytes = saturating_sub tick.cur st.last_bytes in
      let interval_secs = as_secs_f64 fl (tick.now - st.last_t) in
      let elapsed = tick.now - t0 in
      record {
        secs = as_secs_f64 fl elapsed;
        rate = render fl fixed fmt (bits_per_sec fl interval_bytes interval_secs);
        marked = tag elapsed warmup;
      }

  abbrev line_at : Sampler fl → Tick → List (Readout fl)
  line_at st tick = if quiet then [] else (readout st tick ∷ [])

  unfoldable pub readout_loop : Sampler fl → List Tick → List (Readout fl)
  readout_loop st [] = []
  readout_loop st (tick ∷ rest) =
      let later = readout_loop (on_tick fl t0 st tick) rest in
      line_at st tick ++ (if leb window (tick.now - t0) then [] else later)

  unfoldable pub live_readout : ℕ → List Tick → List (Readout fl)
  live_readout first ticks =
      readout_loop (record { samples = []; last_bytes = first; last_t = t0 }) ticks
