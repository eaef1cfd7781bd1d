-- ===== src/Udp/Step.antt =====
-- One call of `observe`, by the side of the warm-up threshold on which the packet falls.
use andri.Common.{ℕ, ◌≡◌, refl, some, List, ◌∷◌, true, false, ltb, sub64, arith}
use andri.Float.{Float}
use andri.Udp.LossJitter.{LossJitter, Arrival, observe, observe_all, smooth}
use andri.Udp.Window.{window}

module _ (fl : Float) (acc : LossJitter fl.F) (a : Arrival) where
  pub observe_all-cons :
      (ps : List Arrival) → observe_all fl acc (a ∷ ps) ≡ observe_all fl (observe fl acc a) ps
  unfolding observe_all
  observe_all-cons ps = refl

  pub observe_early : ltb a.seq acc.warmup_packets ≡ true → observe fl acc a ≡ acc
  unfolding observe
  observe_early h = rw h

  module _ (inside : ltb a.seq acc.warmup_packets ≡ false) where
    pub prev_transit-observe : (observe fl acc a).prev_transit ≡ some (sub64 a.recv_ns a.send_ns)
    unfolding observe
    prev_transit-observe = rw inside

    pub jitter-observe :
        (observe fl acc a).jitter_ns
        ≡ smooth fl acc.prev_transit (sub64 a.recv_ns a.send_ns) acc.jitter_ns
    unfolding observe
    jitter-observe = rw inside

pub window_early :
    (w : ℕ) (a : Arrival) (ps : List Arrival) → ltb a.seq w ≡ true → window w (a ∷ ps) ≡ window w ps
window_early w a ps h = ground arith

pub window_inside :
    (w : ℕ) (a : Arrival) (ps : List Arrival)
    → ltb a.seq w ≡ false
    → window w (a ∷ ps) ≡ a ∷ window w ps
window_inside w a ps h = ground arith
