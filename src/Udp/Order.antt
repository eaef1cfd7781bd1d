-- ===== src/Udp/Order.antt =====
-- Reordering: the totals of the accumulator over permuted arrivals.
use Prim.Native.Nat.{ℕ}
use mathlib.Core.List.{Perm, Permᴰ}
use mathlib.Core.Logic.{∥∥₁_elim}
use andri.Common.{
  ◌≡◌, refl, sym, ap, ap₂, ◌∙◌, Option, some, List, [], ◌∷◌, max, ltb, if◌then◌else◌, add64, arith,
}
use andri.Float.{Float}
use andri.Udp.Counts.{warmup-observe}
use andri.Udp.LossJitter.{Arrival, LossJitter, observe, observe_all, min_with, into_result}

-- The part of the accumulator that no clock enters.
pub record Totals : Type 0 where
  pub bytes : ℕ
  pub received : ℕ
  pub min_seq : Option ℕ
  pub max_seq : ℕ

abbrev pub totals : {F : Type 0} → LossJitter F → Totals
totals acc = record {
  bytes = acc.bytes;
  received = acc.received;
  min_seq = acc.min_seq;
  max_seq = acc.max_seq;
}

pub Totals-set : IsSet Totals
Totals-set = hlevel

-- One arrival, on the totals alone.
unfoldable pub tally : ℕ → Totals → Arrival → Totals
tally w t a = if ltb a.seq w then t else record {
  bytes = add64 t.bytes a.n;
  received = add64 t.received 1;
  min_seq = some (min_with t.min_seq a.seq);
  max_seq = max t.max_seq a.seq;
}

unfoldable pub tally_all : ℕ → Totals → List Arrival → Totals
tally_all w t [] = t
tally_all w t (a ∷ ps) = tally_all w (tally w t a) ps

pub tally_comm :
    (w : ℕ) (t : Totals) (a b : Arrival) → tally w (tally w t a) b ≡ tally w (tally w t b) a
unfolding tally
tally_comm w t a b = ground arith

pub tally_all-perm :
    (w : ℕ) (t : Totals) {ps qs : List Arrival} → Permᴰ ps qs → tally_all w t ps ≡ tally_all w t qs
unfolding tally_all
tally_all-perm w t Permᴰ.nil = refl
tally_all-perm w t (Permᴰ.cons {a} {b} {l₁} {l₂} e d) =
    ap (λ (x : Arrival). tally_all w (tally w t x) l₁) e ∙ tally_all-perm w (tally w t b) d
tally_all-perm w t (Permᴰ.swap {a} {b} {a'} {b'} {l} e f) =
    ap₂ (λ (x y : Arrival). tally_all w (tally w (tally w t x) y) l) e f
    ∙ ap (λ (u : Totals). tally_all w u l) (tally_comm w t b' a')
tally_all-perm w t (Permᴰ.trans d e) = tally_all-perm w t d ∙ tally_all-perm w t e

module _ (fl : Float) where
  pub totals-observe :
      (acc : LossJitter fl.F) (a : Arrival)
      → totals (observe fl acc a) ≡ tally acc.warmup_packets (totals acc) a
  unfolding observe tally
  totals-observe acc a = ground arith

  pub totals-observe_all :
      (acc : LossJitter fl.F) (ps : List Arrival)
      → totals (observe_all fl acc ps) ≡ tally_all acc.warmup_packets (totals acc) ps
  unfolding observe_all tally_all
  totals-observe_all acc [] = refl
  totals-observe_all acc (a ∷ ps) =
      totals-observe_all (observe fl acc a) ps
      ∙ ap₂ (λ (w : ℕ) (t : Totals). tally_all w t ps) (warmup-observe fl acc a)
          (totals-observe acc a)

  -- Whatever the accumulator held, the same arrivals in another order give the same byte and
  -- packet counts, the same extreme sequence numbers, and so the same expected and lost packets.
  pub totals-perm :
      (acc : LossJitter fl.F) (ps qs : List Arrival) (secs : fl.F)
      → Perm ps qs
      → let p = observe_all fl acc ps in
        let q = observe_all fl acc qs in
        (totals p ≡ totals q)
        × ((into_result fl p secs).packets_expected ≡ (into_result fl q secs).packets_expected)
        × ((into_result fl p secs).packets_lost ≡ (into_result fl q secs).packets_lost)
  unfolding into_result
  totals-perm acc ps qs secs perm =
      let same = ∥∥₁_elim perm (Totals-set _ _) (λ d.
        totals-observe_all acc ps
        ∙ tally_all-perm acc.warmup_packets (totals acc) d
        ∙ sym (totals-observe_all acc qs)) in
      (same, ground arith, ground arith)
