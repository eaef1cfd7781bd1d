-- ===== src/Udp/Steady.antt =====
-- The jitter of evenly delayed datagrams.
use andri.Common.{
  ℕ, ◌^◌, ◌<◌, ◌≡◌, refl, ap, ◌∙◌, Option, none, some, List, [], ◌∷◌, ltb, ◌⊎◌, inl, inr, sub64,
  abs64, arith, All, Bool-cases,
}
use andri.Float.{Float}
use andri.Udp.LossJitter.{LossJitter, Arrival, new, observe, observe_all, smooth}
use andri.Udp.Step.{observe_all-cons, observe_early, prev_transit-observe, jitter-observe}
use andri.Udp.Jitter.{gain}
use andri.Udp.Clock.{TransitIs, HasZero}

module _ (fl : Float) (z : HasZero fl) (t : ℕ) (small : t < 2 ^ 64) where
  open fl use {F, of_u64, of_i64, add, sub, mul}

  smooth_zero : (o : Option ℕ) → (o ≡ none) ⊎ (o ≡ some t) → smooth fl o t (of_u64 0) ≡ of_u64 0
  smooth_zero none e = refl
  smooth_zero (some p) e =
      let none_left : abs64 (sub64 t p) ≡ 0 = ground arith in
      let next = λ (d : ℕ). add (of_u64 0) (mul (sub (of_i64 d) (of_u64 0)) (gain fl)) in
      ap next none_left ∙ rw (z.of_i64_zero, z.sub_zero, z.mul_gain_zero) z.add_zero

  steady_from :
      (acc : LossJitter F) (ps : List Arrival)
      → (acc.prev_transit ≡ none) ⊎ (acc.prev_transit ≡ some t)
      → acc.jitter_ns ≡ of_u64 0
      → All (TransitIs t) ps
      → (observe_all fl acc ps).jitter_ns ≡ of_u64 0
  unfolding observe_all
  steady_from acc [] e j h = j
  steady_from acc (a ∷ ps) e j (ha, h) = elim (Bool-cases (ltb a.seq acc.warmup_packets)) [
    | inl early ↦
        rw (observe_all-cons fl acc a ps, observe_early fl acc a early) (steady_from acc ps e j h)
    | inr inside ↦
        let prev = prev_transit-observe fl acc a inside ∙ ap some ha in
        let jitter = jitter-observe fl acc a inside ∙ rw (ha, j) (smooth_zero acc.prev_transit e) in
        steady_from (observe fl acc a) ps (inr prev) jitter h
  ]

  -- Where every datagram takes the same time by the two clocks, whatever their offset, the jitter
  -- is 0.0, for any arrivals and any warm-up threshold.
  pub jitter_steady :
      (w : ℕ) (ps : List Arrival)
      → All (TransitIs t) ps
      → (observe_all fl (new fl w) ps).jitter_ns ≡ of_u64 0
  unfolding new
  jitter_steady w ps h = steady_from (new fl w) ps (inl refl) refl h
