-- ===== src/Meter/SamplerLaws.antt =====
-- The time series of `run_sampler`: when it ends, and the bytes of its samples.
use andri.Common.{
  ℕ, suc, ◌+◌, ◌-◌, ◌≤◌, ◌≡◌, refl, Option, none, some, List, [], ◌∷◌, ◌++◌, leb, true, false,
  arith, length, length-append, Bool-cases, Option-cases, inl, inr,
}
use andri.Float.{Float}
use andri.Proto.Messages.{Sample}
use andri.Meter.Sampler.{Tick, Sampler, on_tick, sampler_loop, run_sampler}

-- The first tick at or after the end of the window, and how many ticks come before it.
abbrev pub last_tick : ℕ → ℕ → List Tick → Option (Tick × ℕ)
last_tick t0 window [] = none
last_tick t0 window (tick ∷ rest) = elim (leb window (tick.now - t0)) [
  | true ↦ some (tick, 0)
  | false ↦ elim (last_tick t0 window rest) [ none ↦ none | some (final, n) ↦ some (final, suc n) ]
]

-- Byte counters never fall.
abbrev pub Rising : ℕ → List Tick → Type 0
Rising low [] = Unit
Rising low (tick ∷ rest) = (low ≤ tick.cur) × Rising tick.cur rest

abbrev pub sum_bytes : {F : Type 0} → List (Sample F) → ℕ
sum_bytes [] = 0
sum_bytes (s ∷ rest) = s.bytes + sum_bytes rest

pub sum_bytes-append :
    {F : Type 0} (xs ys : List (Sample F)) → sum_bytes (xs ++ ys) ≡ sum_bytes xs + sum_bytes ys
sum_bytes-append [] ys = omega arith
sum_bytes-append (x ∷ xs) ys = omega (arith, sum_bytes-append xs ys)

last_tick_now :
    (t0 window : ℕ) (tick final : Tick) (rest : List Tick) (n : ℕ)
    → leb window (tick.now - t0) ≡ true
    → last_tick t0 window (tick ∷ rest) ≡ some (final, n)
    → (final ≡ tick) × (n ≡ 0)
last_tick_now t0 window tick final rest n over e = ground arith

last_tick_later :
    (t0 window : ℕ) (tick final : Tick) (rest : List Tick) (n : ℕ)
    → leb window (tick.now - t0) ≡ false
    → last_tick t0 window (tick ∷ rest) ≡ some (final, n)
    → (m : ℕ) × (last_tick t0 window rest ≡ some (final, m)) × (n ≡ suc m)
last_tick_later t0 window tick final rest n early e =
    elim (Option-cases (last_tick t0 window rest)) [
      | inl q ↦ absurd (ground arith)
      | inr ((f, m), q) ↦ (m, ground arith, ground arith)
    ]

module _ (fl : Float) (t0 window : ℕ) where
  on_tick_step :
      (st : Sampler fl) (tick : Tick)
      → st.last_bytes ≤ tick.cur
      → (sum_bytes (on_tick fl t0 st tick).samples + st.last_bytes
          ≡ sum_bytes st.samples + tick.cur)
        × (length (on_tick fl t0 st tick).samples ≡ suc (length st.samples))
        × ((on_tick fl t0 st tick).last_bytes ≡ tick.cur)
  unfolding on_tick
  on_tick_step st tick h = (
    omega (arith, sum_bytes-append st.samples _),
    omega (arith, length-append {0} st.samples _),
    refl,
  )

  sampler_loop-last_tick :
      (st : Sampler fl) (ticks : List Tick) (final : Tick) (n : ℕ)
      → last_tick t0 window ticks ≡ some (final, n)
      → Rising st.last_bytes ticks
      → (samples : List (Sample fl.F)) × (sampler_loop fl t0 window st ticks ≡ some samples)
        × (length samples ≡ length st.samples + suc n)
        × (sum_bytes samples + st.last_bytes ≡ sum_bytes st.samples + final.cur)
  unfolding sampler_loop
  sampler_loop-last_tick st [] final n e h = cc
  sampler_loop-last_tick st (tick ∷ rest) final n e (low, h) =
      let (bytes, count, total) = on_tick_step st tick low in
      let st' = on_tick fl t0 st tick in
      elim (Bool-cases (leb window (tick.now - t0))) [
        | inl over ↦
            let (same, first) = last_tick_now t0 window tick final rest n over e in
            (st'.samples, rw (over, sampler_loop), omega arith, rw same bytes)
        | inr early ↦
            let (m, e', n_suc) = last_tick_later t0 window tick final rest n early e in
            let later = sampler_loop-last_tick st' rest final m e' (rw total h) in
            (
              later.0,
              rw (early, sampler_loop) later.1,
              omega (arith, later.2),
              omega (arith, later.3),
            )
      ]

  -- With counters that never fall, the sampler returns at the first tick at or after the end of
  -- its window: it has taken a sample at each tick until then, and the bytes of the samples add up
  -- to what the counters gained since the start.
  pub run_sampler_lem :
      (first : ℕ) (ticks : List Tick) (final : Tick) (n : ℕ)
      → last_tick t0 window ticks ≡ some (final, n)
      → Rising first ticks
      → (samples : List (Sample fl.F)) × (run_sampler fl first t0 window ticks ≡ some samples)
        × (length samples ≡ suc n)
        × (sum_bytes samples + first ≡ final.cur)
  unfolding run_sampler
  run_sampler_lem first ticks final n e h =
      let start : Sampler fl = record { samples = []; last_bytes = first; last_t = t0 } in
      let r = sampler_loop-last_tick start ticks final n e h in
      (r.0, r.1, omega (arith, r.2), omega (arith, r.3))

  sampler_loop_waits :
      (st : Sampler fl) (ticks : List Tick)
      → last_tick t0 window ticks ≡ none
      → sampler_loop fl t0 window st ticks ≡ none
  unfolding sampler_loop
  sampler_loop_waits st [] e = refl
  sampler_loop_waits st (tick ∷ rest) e =
      ground (arith, sampler_loop_waits (on_tick fl t0 st tick) rest)

  -- Until a tick falls at or after the end of the window the sampler does not return.
  pub run_sampler_waits :
      (first : ℕ) (ticks : List Tick)
      → last_tick t0 window ticks ≡ none
      → run_sampler fl first t0 window ticks ≡ none
  unfolding run_sampler
  run_sampler_waits first ticks e = sampler_loop_waits _ ticks e
