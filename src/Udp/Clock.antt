-- ===== src/Udp/Clock.antt =====
-- The two clocks of the UDP mode are not synchronised: what the jitter does not depend on.
use andri.Common.{
  ℕ, ◌≡◌, refl, sym, ap, ◌∙◌, List, [], ◌∷◌, ltb, add64, sub64, abs64, IsU64, arith, All,
  Bool-cases, inl, inr,
}
use andri.Float.{Float}
use andri.Udp.LossJitter.{Arrival, new, observe_all}
use andri.Udp.Window.{window}
use andri.Udp.Step.{window_early, window_inside}
use andri.Udp.Jitter.{
  IsStamped, transit_difference, gain, wrapped_jitter_from, wrapped_jitter, jitter_ns-wrapped,
}

-- The same arrivals by a receiver whose clock is ahead by `o`.
abbrev pub ahead : ℕ → Arrival → Arrival
ahead o a = record a { recv_ns = add64 a.recv_ns o }

abbrev pub clock_ahead : ℕ → List Arrival → List Arrival
clock_ahead o [] = []
clock_ahead o (a ∷ ps) = ahead o a ∷ clock_ahead o ps

sub64-add64 : (r p o : ℕ) → IsU64 r → IsU64 p → sub64 (add64 r o) (add64 p o) ≡ sub64 r p
sub64-add64 r p o hr hp = omega arith

transit_difference-ahead :
    (o : ℕ) (p a : Arrival)
    → IsStamped p
    → IsStamped a
    → transit_difference (ahead o p) (ahead o a) ≡ transit_difference p a
transit_difference-ahead o p a hp ha = rw (sub64-add64 a.recv_ns p.recv_ns o ha.1 hp.1)

window-clock_ahead :
    (w o : ℕ) (ps : List Arrival) → window w (clock_ahead o ps) ≡ clock_ahead o (window w ps)
window-clock_ahead w o [] = refl
window-clock_ahead w o (a ∷ ps) = elim (Bool-cases (ltb a.seq w)) [
  | inl early ↦
      rw (window_early w a ps early, window_early w (ahead o a) (clock_ahead o ps) early)
        (window-clock_ahead w o ps)
  | inr inside ↦
      rw (window_inside w a ps inside, window_inside w (ahead o a) (clock_ahead o ps) inside)
        (ap (◌∷◌ (ahead o a)) (window-clock_ahead w o ps))
]

clock_ahead-IsStamped :
    (o : ℕ) (ps : List Arrival) → All IsStamped ps → All IsStamped (clock_ahead o ps)
clock_ahead-IsStamped o [] h = tt
clock_ahead-IsStamped o (a ∷ ps) (ha, h) = ((ha.0, omega arith), clock_ahead-IsStamped o ps h)

window-IsStamped : (w : ℕ) (ps : List Arrival) → All IsStamped ps → All IsStamped (window w ps)
window-IsStamped w [] h = tt
window-IsStamped w (a ∷ ps) (ha, h) = elim (Bool-cases (ltb a.seq w)) [
  | inl early ↦ rw (window_early w a ps early) (window-IsStamped w ps h)
  | inr inside ↦ rw (window_inside w a ps inside) (ha, window-IsStamped w ps h)
]

module _ (fl : Float) where
  open fl use {F, of_u64, of_i64, add, sub, mul}

  wrapped_jitter_from-ahead :
      (o : ℕ) (j : F) (p : Arrival) (ps : List Arrival)
      → IsStamped p
      → All IsStamped ps
      → wrapped_jitter_from fl j (ahead o p) (clock_ahead o ps) ≡ wrapped_jitter_from fl j p ps
  unfolding wrapped_jitter_from
  wrapped_jitter_from-ahead o j p [] hp h = refl
  wrapped_jitter_from-ahead o j p (a ∷ ps) hp (ha, h) =
      let next = λ (d : ℕ). add j (mul (sub (of_i64 (abs64 d)) j) (gain fl)) in
      let rest =
        wrapped_jitter_from-ahead o (next (transit_difference (ahead o p) (ahead o a))) a ps ha h in
      rest
      ∙ ap (λ (d : ℕ). wrapped_jitter_from fl (next d) a ps) (transit_difference-ahead o p a hp ha)

  wrapped_jitter-ahead :
      (o : ℕ) (ps : List Arrival)
      → All IsStamped ps
      → wrapped_jitter fl (clock_ahead o ps) ≡ wrapped_jitter fl ps
  unfolding wrapped_jitter
  wrapped_jitter-ahead o [] h = refl
  wrapped_jitter-ahead o (a ∷ ps) (ha, h) = wrapped_jitter_from-ahead o (of_u64 0) a ps ha h

  -- The offset between the two clocks cancels: a receiver whose clock is ahead by any amount, and
  -- may wrap around, gets the same jitter from the same arrivals.
  pub jitter-clock_ahead :
      (w o : ℕ) (ps : List Arrival)
      → All IsStamped ps
      → (observe_all fl (new fl w) (clock_ahead o ps)).jitter_ns
        ≡ (observe_all fl (new fl w) ps).jitter_ns
  jitter-clock_ahead w o ps h =
      jitter_ns-wrapped fl w (clock_ahead o ps) (clock_ahead-IsStamped o ps h)
      ∙ ap (wrapped_jitter fl) (window-clock_ahead w o ps)
      ∙ wrapped_jitter-ahead o (window w ps) (window-IsStamped w ps h)
      ∙ sym (jitter_ns-wrapped fl w ps h)

-- Each datagram after the threshold was on its way equally long, by the two clocks.
abbrev pub TransitIs : ℕ → Arrival → Type 0
TransitIs t a = sub64 a.recv_ns a.send_ns ≡ t

-- What the arithmetic of f64 gives at 0.0: the integer 0 converts to it, 0.0 - 0.0 and
-- 0.0 + 0.0 are 0.0, and so is 0.0 * 0.0625.
pub record HasZero (fl : Float) : Type 0 where
  pub of_i64_zero : fl.of_i64 0 ≡ fl.of_u64 0
  pub sub_zero : fl.sub (fl.of_u64 0) (fl.of_u64 0) ≡ fl.of_u64 0
  pub mul_gain_zero : fl.mul (fl.of_u64 0) (gain fl) ≡ fl.of_u64 0
  pub add_zero : fl.add (fl.of_u64 0) (fl.of_u64 0) ≡ fl.of_u64 0
