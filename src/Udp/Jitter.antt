-- ===== src/Udp/Jitter.antt =====
-- The jitter estimate: RFC 3550 §6.4.1 as docs/udp.md writes it.
use andri.Common.{
  ℕ, ◌+◌, ◌-◌, ◌<◌, ◌^◌, leb, if◌then◌else◌, ◌≡◌, refl, ap, ap₂, ◌∙◌, some, List, [], ◌∷◌, ltb,
  lt→ltb, le→ltb, ◌≤◌, true, false, sub64, abs64, IsU64, arith, All, Bool-cases, inl, inr,
}
use andri.Float.{Float}
use andri.Udp.LossJitter.{LossJitter, Arrival, new, observe, observe_all, snapshot, into_result}
use andri.Udp.Window.{window}
use andri.Udp.Step.{
  observe_all-cons, observe_early, prev_transit-observe, jitter-observe, window_early,
  window_inside,
}
use andri.Udp.Counts.{warmup-observe}

abbrev pub IsStamped : Arrival → Type 0
IsStamped a = IsU64 a.send_ns × IsU64 a.recv_ns

-- D(i-1, i) = (R_i - R_{i-1}) - (S_i - S_{i-1}), on 64-bit integers.
abbrev pub transit_difference : Arrival → Arrival → ℕ
transit_difference p a = sub64 (sub64 a.recv_ns p.recv_ns) (sub64 a.send_ns p.send_ns)

-- The difference of two transit times is the difference of the two intervals.
sub64-sub64 :
    (r s r' s' : ℕ)
    → IsU64 s
    → IsU64 r'
    → IsU64 s'
    → sub64 (sub64 r s) (sub64 r' s') ≡ sub64 (sub64 r r') (sub64 s s')
sub64-sub64 r s r' s' hs hr hs' = omega arith

-- Both stamps are below 2^62 ns, which is 146 years.
abbrev pub IsNear : Arrival → Type 0
IsNear a = (a.send_ns < 2 ^ 62) × (a.recv_ns < 2 ^ 62)

-- The distance of two numbers.
abbrev pub distance : ℕ → ℕ → ℕ
distance x y = if leb x y then y - x else x - y

-- |D(i-1, i)| = |(R_i - R_{i-1}) - (S_i - S_{i-1})|, by sums that are compared without wrap-around.
abbrev pub transit_distance : Arrival → Arrival → ℕ
transit_distance p a = distance (p.recv_ns + a.send_ns) (a.recv_ns + p.send_ns)

abs64-distance :
    (p a : Arrival) → IsNear p → IsNear a → abs64 (transit_difference p a) ≡ transit_distance p a
abs64-distance p a hp ha =
    let x = p.recv_ns + a.send_ns in
    let y = a.recv_ns + p.send_ns in
    elim (Bool-cases (leb x y)) [
      | inl up ↦
          let le : x ≤ y = ground arith in
          let d : transit_difference p a ≡ y - x = omega (arith, hp.0, hp.1, ha.0, ha.1) in
          let low : ltb (y - x) (2 ^ 63) ≡ true =
            lt→ltb (y - x) (2 ^ 63) (omega (arith, hp.0, hp.1, ha.0, ha.1)) in
          ap abs64 d ∙ rw (up, low) refl
      | inr down ↦
          let gt : y < x = ground arith in
          let d : transit_difference p a ≡ 2 ^ 64 - (x - y) =
            omega (arith, hp.0, hp.1, ha.0, ha.1) in
          let high : ltb (2 ^ 64 - (x - y)) (2 ^ 63) ≡ false =
            le→ltb (2 ^ 64 - (x - y)) (2 ^ 63) (omega (arith, hp.0, hp.1, ha.0, ha.1)) in
          ap abs64 d ∙ rw (down, high) (omega (arith, hp.0, hp.1, ha.0, ha.1))
    ]

module _ (fl : Float) where
  open fl use {F, of_u64, of_i64, add, sub, mul, div}

  -- The gain that the RFC fixes.
  abbrev pub gain : F
  gain = div (of_u64 1) (of_u64 16)

  -- J_i = J_{i-1} + (|D(i-1, i)| - J_{i-1}) / 16 over the later arrivals, `p` the last one, with D
  -- on 64-bit integers.
  unfoldable pub wrapped_jitter_from : F → Arrival → List Arrival → F
  wrapped_jitter_from j p [] = j
  wrapped_jitter_from j p (a ∷ rest) =
      wrapped_jitter_from (add j (mul (sub (of_i64 (abs64 (transit_difference p a))) j) gain)) a
        rest

  -- The first arrival seeds J = 0.
  unfoldable pub wrapped_jitter : List Arrival → F
  wrapped_jitter [] = of_u64 0
  wrapped_jitter (a ∷ rest) = wrapped_jitter_from (of_u64 0) a rest

  jitter_after :
      (acc : LossJitter F) (p : Arrival) (ps : List Arrival)
      → acc.prev_transit ≡ some (sub64 p.recv_ns p.send_ns)
      → IsStamped p
      → All IsStamped ps
      → (observe_all fl acc ps).jitter_ns
        ≡ wrapped_jitter_from acc.jitter_ns p (window acc.warmup_packets ps)
  unfolding observe_all wrapped_jitter_from
  jitter_after acc p [] e hp h = refl
  jitter_after acc p (a ∷ ps) e hp (ha, h) = elim (Bool-cases (ltb a.seq acc.warmup_packets)) [
    | inl early ↦
        rw (observe_all-cons fl acc a ps, observe_early fl acc a early, window_early _ a ps early)
          (jitter_after acc p ps e hp h)
    | inr inside ↦
        let same = sub64-sub64 a.recv_ns a.send_ns p.recv_ns p.send_ns ha.0 hp.1 hp.0 in
        let rest =
          jitter_after (observe fl acc a) a ps (prev_transit-observe fl acc a inside) ha h in
        let smoothed =
          ap (λ (d : ℕ). add acc.jitter_ns (mul (sub (of_i64 (abs64 d)) acc.jitter_ns) gain))
            same in
        let jitter = jitter-observe fl acc a inside ∙ rw e smoothed in
        let carried =
          ap₂ (λ (j : F) (w : ℕ). wrapped_jitter_from j a (window w ps)) jitter
            (warmup-observe fl acc a) in
        rw (window_inside _ a ps inside) (rest ∙ carried)
  ]

  -- The accumulated jitter follows that recurrence over the arrivals in the window, for time stamps
  -- that are u64 values.
  pub jitter_ns-wrapped :
      (w : ℕ) (ps : List Arrival)
      → All IsStamped ps
      → (observe_all fl (new fl w) ps).jitter_ns ≡ wrapped_jitter (window w ps)
  unfolding observe_all wrapped_jitter new
  jitter_ns-wrapped w [] h = refl
  jitter_ns-wrapped w (a ∷ ps) (ha, h) = elim (Bool-cases (ltb a.seq w)) [
    | inl early ↦
        rw
          (
            observe_all-cons fl (new fl w) a ps,
            observe_early fl (new fl w) a early,
            window_early _ a ps early,
          )
          (jitter_ns-wrapped w ps h)
    | inr inside ↦
        let acc = new fl w in
        let rest =
          jitter_after (observe fl acc a) a ps (prev_transit-observe fl acc a inside) ha h in
        let carried =
          ap₂ (λ (j : F) (v : ℕ). wrapped_jitter_from j a (window v ps))
            (jitter-observe fl acc a inside) (warmup-observe fl acc a) in
        rw (window_inside _ a ps inside) (rest ∙ carried)
  ]

  -- RFC 3550: the recurrence with |D| on integers.
  unfoldable pub rfc_jitter_from : F → Arrival → List Arrival → F
  rfc_jitter_from j p [] = j
  rfc_jitter_from j p (a ∷ rest) =
      rfc_jitter_from (add j (mul (sub (of_i64 (transit_distance p a)) j) gain)) a rest

  unfoldable pub rfc_jitter : List Arrival → F
  rfc_jitter [] = of_u64 0
  rfc_jitter (a ∷ rest) = rfc_jitter_from (of_u64 0) a rest

  wrapped-rfc_from :
      (j : F) (p : Arrival) (ps : List Arrival)
      → IsNear p
      → All IsNear ps
      → wrapped_jitter_from j p ps ≡ rfc_jitter_from j p ps
  unfolding wrapped_jitter_from rfc_jitter_from
  wrapped-rfc_from j p [] hp h = refl
  wrapped-rfc_from j p (a ∷ ps) hp (ha, h) =
      let next : F → F = λ d. add j (mul (sub d j) gain) in
      ap (λ d. wrapped_jitter_from (next (of_i64 d)) a ps) (abs64-distance p a hp ha)
      ∙ wrapped-rfc_from (next (of_i64 (transit_distance p a))) a ps ha h

  wrapped-rfc : (ps : List Arrival) → All IsNear ps → wrapped_jitter ps ≡ rfc_jitter ps
  unfolding wrapped_jitter rfc_jitter
  wrapped-rfc [] h = refl
  wrapped-rfc (a ∷ ps) (ha, h) = wrapped-rfc_from (of_u64 0) a ps ha h

  window-IsNear : (w : ℕ) (ps : List Arrival) → All IsNear ps → All IsNear (window w ps)
  window-IsNear w [] h = tt
  window-IsNear w (a ∷ ps) (ha, h) = elim (Bool-cases (ltb a.seq w)) [
    | inl early ↦ rw (window_early w a ps early) (window-IsNear w ps h)
    | inr inside ↦ rw (window_inside w a ps inside) (ha, window-IsNear w ps h)
  ]

  All-IsStamped : (ps : List Arrival) → All IsNear ps → All IsStamped ps
  All-IsStamped [] h = tt
  All-IsStamped (a ∷ ps) ((hs, hr), h) = ((omega arith, omega arith), All-IsStamped ps h)

  -- The jitter that the result reports, in milliseconds, is the RFC 3550 estimate, with its |D|
  -- taken on integers, over the arrivals in the window in the order of their arrival, for time
  -- stamps below 2^62 ns. The snapshot for the samples has the same value.
  pub jitter-rfc :
      (w : ℕ) (ps : List Arrival) (secs : F)
      → All IsNear ps
      → let ms = div (rfc_jitter (window w ps)) (of_u64 1000000) in
        let acc = observe_all fl (new fl w) ps in
        ((into_result fl acc secs).jitter_ms ≡ some ms) × ((snapshot fl acc).jitter_ms ≡ ms)
  unfolding into_result snapshot
  jitter-rfc w ps secs h =
      let ns =
        jitter_ns-wrapped w ps (All-IsStamped ps h)
        ∙ wrapped-rfc (window w ps) (window-IsNear w ps h) in
      let e = ap (λ j. div j (of_u64 1000000)) ns in (ap some e, e)
