-- ===== src/Udp/Rate.antt =====
-- The rate of the UDP sender (`drive` of src/modes/udp.rs) where its arithmetic is exact.
use native.Mathlib.Nat.{
  mul_assoc, mul_comm, add-mul, suc-mul, mul-le-mul_right, mul-lt-mul_of_pos_right,
  le_of_mul-le-mul_right, lt_of_mul-lt-mul_right, div-add-mod', mod-lt,
}
use mathlib.Core.Option
use andri.Common.{
  ℕ, suc, ◌+◌, ◌*◌, ◌/◌, ◌%◌, ◌≤◌, ◌<◌, ◌≡◌, ◌≢◌, refl, sym, ap, ap₂, ◌∙◌, subst, List, [], ◌∷◌,
  Bool, All, arith, length, add64, lt→ltb, ltb, true,
}
use andri.Io.{IoError}
use andri.Float.{Float}
use andri.Proto.Messages.{Negotiate}
use andri.Udp.Header.{header_len, packet_size}
use andri.Udp.Drive.{
  Round, Burst, Sent, sent_all, failed, panicked, Sender, Driven, running, due, carried, reported,
  after_burst, drive_loop, drive, new_sender, packets_per_tick, ticks_per_sec,
}
use andri.Udp.Pacing.{IsPaced, Outcome, send_burst-Outcome}
use andri.Udp.Sender.{reported-burst, new_sender-IsPaced}
use andri.Udp.Finish.{Answers, send_burst-ok}

-- The f64 `ppt` is `p` parts of a whole of `d`, and the sender's arithmetic on such parts is exact,
-- as IEEE 754 has it where the results are f64s themselves (`d` a power of two, `p + d` below 2^53).
pub record IsExact (fl : Float) (d p : ℕ) (ppt : fl.F) : Type 0 where
  pub parts : ℕ → fl.F
  pub zero_parts : fl.of_u64 0 ≡ parts 0
  pub add_parts : (k : ℕ) → k < d → fl.add (parts k) ppt ≡ parts (k + p)
  pub floor_parts : (k : ℕ) → k < d → fl.to_u64 (fl.floor (parts (k + p))) ≡ (k + p) / d
  pub sub_parts :
      (k : ℕ) → k < d → fl.sub (parts (k + p)) (fl.of_u64 ((k + p) / d)) ≡ parts ((k + p) % d)

-- `s` whole packets of `bits` bits and `c` parts of one more, after `n` ticks of `p` parts each.
rate_of_parts :
    (s d c n p bits rate : ℕ)
    → s * d + c ≡ n * p
    → c < d
    → p * bits ≡ rate * d
    → 0 < bits
    → (s * bits ≤ n * rate) × (n * rate < suc s * bits)
rate_of_parts s d c n p bits rate e small exact pos =
    let swap : (a : ℕ) → a * d * bits ≡ a * bits * d =
      λ a. mul_assoc a d bits ∙ ap (λ x. a * x) (mul_comm d bits) ∙ sym (mul_assoc a bits d) in
    let key : n * rate * d ≡ (s * d + c) * bits =
      mul_assoc n rate d
      ∙ ap (λ x. n * x) (sym exact)
      ∙ sym (mul_assoc n p bits)
      ∙ ap (λ x. x * bits) (sym e) in
    let low : s * d * bits ≤ (s * d + c) * bits = mul-le-mul_right bits (omega arith) in
    let grown : suc s * d ≡ s * d + d = omega arith in
    let high : (s * d + c) * bits < suc s * d * bits =
      mul-lt-mul_of_pos_right (omega (arith, grown)) pos in
    (
      le_of_mul-le-mul_right {k = d} (omega (arith, low, key, swap s)) (omega arith),
      lt_of_mul-lt-mul_right d (omega (arith, high, key, swap (suc s))),
    )

-- One tick more: `q` whole packets and `m` parts of one.
one_tick : (l q m d c p n : ℕ) → q * d + m ≡ c + p → (l + q) * d + m + n * p ≡ l * d + c + suc n * p
one_tick l q m d c p n e = omega (arith, e, add-mul l q d, suc-mul n p)

module _ (fl : Float) where
  -- The sender waits, having sent `s` datagrams and with `c` parts of one left over.
  abbrev Sends : ℕ → ℕ → Driven fl → Type 0
  Sends d whole driven =
      (last : Sender fl) × (c : ℕ) × (driven ≡ running last)
      × (c < d)
      × (length (last.burst).sent * d + c ≡ whole)

  after_burst-all :
      (size n : ℕ) (s : Sent) (next : Burst → Driven fl) (P : Driven fl → Type 0)
      → Outcome size n s
      → ((e : IoError) → s ≢ failed e)
      → ((b : Burst) → IsPaced size b → length b.sent ≡ n → P (next b))
      → P (after_burst fl s next)
  after_burst-all size n (sent_all b) next P o h go = go b o.0 o.1
  after_burst-all size n (failed e) next P o h go = absurd (h e refl)
  after_burst-all size n panicked next P o h go = absurd o

  reported-carry :
      (quiet : Bool) (r : Round) (st : Sender fl) → (reported fl quiet r st).carry ≡ st.carry
  reported-carry quiet r st = ground arith

  module _ (size total : ℕ) (ppt : fl.F) (quiet : Bool) (fits : header_len ≤ size) (d p : ℕ)
      (exact : IsExact fl d p ppt) where
    open exact use {parts, zero_parts, add_parts, floor_parts, sub_parts}

    drive_loop-Sends :
        (st : Sender fl) (c : ℕ) (rounds : List Round)
        → IsPaced size st.burst
        → st.carry ≡ parts c
        → c < d
        → All Answers rounds
        → All (λ r. r.checked < total) rounds
        → Sends d
            (length (st.burst).sent * d + c + length rounds * p)
            (drive_loop fl total ppt quiet st rounds)
    unfolding drive_loop
    drive_loop-Sends st c [] paced carry small h early = (st, c, refl, small, omega arith)
    drive_loop-Sends st c (r ∷ rest) paced carry small (h, hs) (early, earlies) =
        let more : ltb r.checked total ≡ true = lt→ltb r.checked total early in
        let sum : fl.add st.carry ppt ≡ parts (c + p) = rw carry (add_parts c small) in
        let q = (c + p) / d in
        let n_due : due fl ppt st.carry ≡ q =
          ap (λ x. fl.to_u64 (fl.floor x)) sum ∙ floor_parts c small in
        let left : carried fl ppt st.carry ≡ parts ((c + p) % d) =
          ap₂ (λ x n. fl.sub x (fl.of_u64 n)) sum n_due ∙ sub_parts c small in
        let burst = send_burst-Outcome size fits r 0 (due fl ppt st.carry) st.burst paced in
        rw (more, drive_loop)
          (after_burst-all size _ _ _
            (Sends d (length (st.burst).sent * d + c + suc (length rest) * p)) burst
            (λ e. send_burst-ok r 0 (due fl ppt st.carry) st.burst e h)
            (λ b kept grown.
              let sent : Sender fl = record st { burst = b; carry = carried fl ppt st.carry } in
              let st' = reported fl quiet r sent in
              let same : st'.burst ≡ b = reported-burst fl quiet r sent in
              let later =
                drive_loop-Sends st' ((c + p) % d) rest (subst (IsPaced size) (sym same) kept)
                  (reported-carry quiet r sent ∙ left) (mod-lt (c + p) (omega arith)) hs earlies in
              let count : length (st'.burst).sent ≡ length (st.burst).sent + q =
                ap (λ x. length (Burst.sent x)) same
                ∙ grown
                ∙ ap (λ n. length (st.burst).sent + n) n_due in
              let tick =
                one_tick (length (st.burst).sent) q ((c + p) % d) d c p (length rest)
                  (div-add-mod' (c + p) d) in
              (later.0, later.1, later.2, later.3, rw count at later.4 ∙ tick)))

  -- Where arithmetic is exact and the rate is `p` parts of a `d`-th packet a tick, a sender whose
  -- socket takes every datagram keeps to the negotiated rate: after `n` ticks of a thousandth of a
  -- second it has sent at most what the rate allows in that time, and less than one datagram
  -- short of that.
  pub drive-rate :
      (server_seed : ℕ) (neg : Negotiate) (quiet : Bool) (rounds : List Round) (d p : ℕ)
      → (let bitrate = Option.get_or neg.bitrate_bps 1000000000 in
          IsExact fl d p (packets_per_tick fl bitrate (packet_size neg) ticks_per_sec)
          × (p * (packet_size neg * 8 * 1000) ≡ bitrate * d))
      → 0 < d
      → All Answers rounds
      → All (λ r. r.checked < add64 neg.duration_secs neg.warmup_secs * 1000000000) rounds
      → (last : Sender fl) × (drive fl server_seed neg quiet rounds ≡ running last)
        × (length (last.burst).sent * (packet_size neg * 8 * 1000)
            ≤ length rounds * Option.get_or neg.bitrate_bps 1000000000)
        × (length rounds * Option.get_or neg.bitrate_bps 1000000000
            < suc (length (last.burst).sent) * (packet_size neg * 8 * 1000))
  unfolding drive new_sender
  drive-rate server_seed neg quiet rounds d p (exact, same) pos h early =
      let size = packet_size neg in
      let start = new_sender fl size server_seed in
      let r =
        drive_loop-Sends size _ _ quiet (omega arith) d p exact start 0 rounds
          (new_sender-IsPaced fl size server_seed) exact.zero_parts pos h early in
      let whole : length (r.0.burst).sent * d + r.1 ≡ length rounds * p = r.4 ∙ omega arith in
      let rate =
        rate_of_parts (length (r.0.burst).sent) d r.1 (length rounds) p (size * 8 * 1000)
          (Option.get_or neg.bitrate_bps 1000000000) whole r.3 same (omega arith) in
      (r.0, r.2, rate.0, rate.1)
