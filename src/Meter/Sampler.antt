-- ===== src/Meter/Sampler.antt =====
-- `run_sampler` of src/meter.rs. Each tick after the first comes with the clock and the total of
-- the counters as they are read then. Its live readout is in Readout.
use andri.Common.{ℕ, ◌-◌, Option, none, some, List, [], ◌∷◌, ◌++◌, leb, saturating_sub, true, false}
use andri.Float.{Float, as_secs_f64}
use andri.Proto.Messages.{Sample}
use andri.Meter.Counter.{bits_per_sec}

pub record Tick : Type 0 where
  pub now : ℕ  -- nanoseconds
  pub cur : ℕ  -- u64

module _ (fl : Float) where
  open fl use {F}

  pub record Sampler : Type 0 where
    pub samples : List (Sample F)
    pub last_bytes : ℕ
    pub last_t : ℕ

  unfoldable pub on_tick : ℕ → Sampler → Tick → Sampler
  on_tick t0 st tick =
      let interval_bytes = saturating_sub tick.cur st.last_bytes in
      let interval_secs = as_secs_f64 fl (tick.now - st.last_t) in
      record {
        samples =
            st.samples
            ++ (record {
              t_secs = as_secs_f64 fl (tick.now - t0);
              bytes = interval_bytes;
              bits_per_sec = bits_per_sec fl interval_bytes interval_secs;
              packets_lost = none;
              jitter_ms = none;
            }
                ∷ []);
        last_bytes = tick.cur;
        last_t = tick.now;
      }

  -- `none`: the sampler waits for its next tick.
  unfoldable pub sampler_loop : ℕ → ℕ → Sampler → List Tick → Option (List (Sample F))
  sampler_loop t0 window st [] = none
  sampler_loop t0 window st (tick ∷ rest) =
      let st' = on_tick t0 st tick in
      elim (leb window (tick.now - t0)) [
        | true ↦ some st'.samples
        | false ↦ sampler_loop t0 window st' rest
      ]

  -- `first` is the total of the counters when the sampler starts.
  unfoldable pub run_sampler : ℕ → ℕ → ℕ → List Tick → Option (List (Sample F))
  run_sampler first t0 window ticks =
      sampler_loop t0 window (record { samples = []; last_bytes = first; last_t = t0 }) ticks
