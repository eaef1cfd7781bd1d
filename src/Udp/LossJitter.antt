-- ===== src/Udp/LossJitter.antt =====
-- `LossJitter` of src/modes/udp.rs: what the receiver accumulates over the datagrams.
use andri.Common.{
  ℕ, Option, none, some, List, [], ◌∷◌, min, max, ltb, if◌then◌else◌, add64, sub64, abs64,
  saturating_sub,
}
use andri.Float.{Float}
use andri.Proto.Messages.{TestResult, RoleDir}

pub record Snapshot (F : Type 0) : Type 0 where
  pub bytes : ℕ  -- u64
  pub lost : ℕ  -- u64
  pub jitter_ms : F

pub record LossJitter (F : Type 0) : Type 0 where
  pub warmup_packets : ℕ  -- u64
  pub bytes : ℕ  -- u64
  pub received : ℕ  -- u64
  pub min_seq : Option ℕ  -- u64
  pub max_seq : ℕ  -- u64
  pub prev_transit : Option ℕ  -- i64, as its bit pattern
  pub jitter_ns : F

-- The arguments of one call of `observe`.
pub record Arrival : Type 0 where
  pub seq : ℕ  -- u64
  pub send_ns : ℕ  -- u64
  pub recv_ns : ℕ  -- u64
  pub n : ℕ  -- u64

abbrev pub min_with : Option ℕ → ℕ → ℕ
min_with none seq = seq
min_with (some m) seq = min m seq

-- `max_seq - min_seq + 1`, of a window in which something arrived.
abbrev pub span : Option ℕ → ℕ → ℕ
span none last = 0
span (some first) last = add64 (sub64 last first) 1

module _ (fl : Float) where
  open fl use {F, of_u64, of_i64, add, sub, mul, div, lt}

  abbrev pub jitter_gain : F
  jitter_gain = div (of_u64 1) (of_u64 16)

  unfoldable pub new : ℕ → LossJitter F
  new warmup_packets = record {
    warmup_packets = warmup_packets;
    bytes = 0;
    received = 0;
    min_seq = none;
    max_seq = 0;
    prev_transit = none;
    jitter_ns = of_u64 0;
  }

  -- `J += (|D| - J) / 16`, from the second datagram on.
  abbrev pub smooth : Option ℕ → ℕ → F → F
  smooth none transit jitter = jitter
  smooth (some prev) transit jitter =
      add jitter (mul (sub (of_i64 (abs64 (sub64 transit prev))) jitter) jitter_gain)

  unfoldable pub observe : LossJitter F → Arrival → LossJitter F
  observe acc a =
      let transit = sub64 a.recv_ns a.send_ns in
      if ltb a.seq acc.warmup_packets then acc else record acc {
        bytes = add64 acc.bytes a.n;
        received = add64 acc.received 1;
        min_seq = some (min_with acc.min_seq a.seq);
        max_seq = max acc.max_seq a.seq;
        prev_transit = some transit;
        jitter_ns = smooth acc.prev_transit transit acc.jitter_ns;
      }

  -- The calls of the receive loop, in the order of arrival.
  unfoldable pub observe_all : LossJitter F → List Arrival → LossJitter F
  observe_all acc [] = acc
  observe_all acc (a ∷ rest) = observe_all (observe acc a) rest

  unfoldable pub snapshot : LossJitter F → Snapshot F
  snapshot acc =
      let expected = span acc.min_seq acc.max_seq in
      record {
        bytes = acc.bytes;
        lost = saturating_sub expected acc.received;
        jitter_ms = div acc.jitter_ns (of_u64 1000000);
      }

  unfoldable pub into_result : LossJitter F → F → TestResult F
  into_result acc secs =
      let expected = span acc.min_seq acc.max_seq in
      let lost = saturating_sub expected acc.received in
      record {
        role = RoleDir.receive;
        bytes = acc.bytes;
        duration_secs = secs;
        bits_per_sec =
            if lt (of_u64 0) secs then div (mul (of_u64 acc.bytes) (of_u64 8)) secs else of_u64 0;
        bytes_per_sec = if lt (of_u64 0) secs then div (of_u64 acc.bytes) secs else of_u64 0;
        packets_expected = some expected;
        packets_received = some acc.received;
        packets_lost = some lost;
        loss_ratio =
            some (if ltb 0 expected then div (of_u64 lost) (of_u64 expected) else of_u64 0);
        jitter_ms = some (div acc.jitter_ns (of_u64 1000000));
        samples = [];
      }
