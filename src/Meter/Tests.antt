-- ===== src/Meter/Tests.antt =====
-- Runs of the meter, and each theorem about it at a concrete input.
use andri.Common.{ℕ, ◌+◌, ◌*◌, ◌≡◌, refl, some, List, [], ◌∷◌, map, false, length, arith}
use andri.FloatModel.{whole}
use andri.FloatModel.Rational.{Fraction, rational, fixed}
use andri.Cli.{Format}
use andri.Cli.Show.{render}
use andri.Proto.Messages.{Sample}
use andri.Meter.Fill.{advance, mix}
use andri.Meter.Sampler.{Tick, run_sampler}
use andri.Meter.Readout.{excluded, live_readout}
use andri.Meter.ReadoutLaws.{live_readout_lem}
use andri.Meter.SamplerLaws.{sum_bytes, run_sampler_lem}

-- The first number of splitmix64 from the seed 0, as its reference implementation gives it.
splitmix_first : mix (advance 0) ≡ 0xE220_A839_7B1D_CDAF
unfolding mix advance
splitmix_first = refl

abbrev second : ℕ
second = 1000000000

-- Three ticks, the last at the end of a window of three seconds.
abbrev readings : List Tick
readings =
    record { now = second; cur = 150 }
    ∷ record { now = 2 * second; cur = 150 }
    ∷ record { now = 3 * second; cur = 400 }
    ∷ []

run_sampler_example :
    (samples : List (Sample ℕ)) × (run_sampler whole 100 0 (3 * second) readings ≡ some samples)
    × (length samples ≡ 3)
    × (sum_bytes samples + 100 ≡ 400)
run_sampler_example =
    run_sampler_lem whole 0 (3 * second) 100 readings (record { now = 3 * second; cur = 400 }) 2
      refl (omega arith)

live_readout_example :
    let printed =
      live_readout rational fixed Format.bits 0 (3 * second) second false 100 readings in
    (samples : List (Sample Fraction)) × (run_sampler rational 100 0 (3 * second) readings
      ≡ some samples)
    × (map (λ l. l.rate) printed
        ≡ map (λ s. render rational fixed Format.bits s.bits_per_sec) samples)
    × (map (λ l. l.marked) printed ≡ excluded ∷ "" ∷ "" ∷ [])
live_readout_example =
    live_readout_lem rational fixed Format.bits 0 100 1 2 readings (omega arith) (omega arith)
      (omega arith, omega arith, (omega arith, omega arith, (omega arith, omega arith, tt)))
