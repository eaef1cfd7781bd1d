-- ===== src/Udp/Sender.antt =====
-- The whole run of the UDP sender (`drive` of src/modes/udp.rs).
use andri.Common.{
  ℕ, ◌^◌, ◌≤◌, ◌<◌, ◌≡◌, ◌≢◌, inl, inr, refl, sym, ◌∙◌, subst, List, [], ◌∷◌, Bool, length, arith,
  ltb, replicate, length-replicate, Bool-cases,
}
use andri.Float.{Float}
use andri.Proto.Messages.{Negotiate}
use andri.Meter.FillLaws.{length-fill_random}
use andri.Udp.Header.{header_len, packet_size}
use andri.Udp.Drive.{
  Round, Burst, Sent, sent_all, failed, panicked, Sender, Driven, finished, running, send_failed,
  panic, due, carried, reported, after_burst, drive_loop, drive, new_sender,
}
use andri.Udp.Pacing.{Numbered, IsPaced, Outcome, send_burst-Outcome}

module _ (fl : Float) where
  abbrev WellSent : ℕ → Driven fl → Type 0
  WellSent size (finished st) = IsPaced size st.burst
  WellSent size (running st) = IsPaced size st.burst
  WellSent size (send_failed e) = Unit
  WellSent size panic = ⊥

  after_burst-WellSent :
      (size n : ℕ) (s : Sent) (next : Burst → Driven fl)
      → Outcome size n s
      → ((b : Burst) → IsPaced size b → WellSent size (next b))
      → WellSent size (after_burst fl s next)
  after_burst-WellSent size n (sent_all b) next h go = go b h.0
  after_burst-WellSent size n (failed e) next h go = tt
  after_burst-WellSent size n panicked next h go = h

  pub reported-burst :
      (quiet : Bool) (r : Round) (st : Sender fl) → (reported fl quiet r st).burst ≡ st.burst
  reported-burst quiet r st = ground arith

  module _ (size : ℕ) (fits : header_len ≤ size) (total : ℕ) (ppt : fl.F) (quiet : Bool) where
    drive_loop-WellSent :
        (st : Sender fl) (rounds : List Round)
        → IsPaced size st.burst
        → WellSent size (drive_loop fl total ppt quiet st rounds)
    unfolding drive_loop
    drive_loop-WellSent st [] p = p
    drive_loop-WellSent st (r ∷ rest) p = elim (Bool-cases (ltb r.checked total)) [
      | inr over ↦ rw (over, drive_loop) p
      | inl more ↦
          let burst = send_burst-Outcome size fits r 0 (due fl ppt st.carry) st.burst p in
          rw (more, drive_loop)
            (after_burst-WellSent size _ _ _ burst (λ b q.
              let sent : Sender fl = record st { burst = b; carry = carried fl ppt st.carry } in
              drive_loop-WellSent (reported fl quiet r sent) rest
                (subst (IsPaced size) (sym (reported-burst quiet r sent)) q)))
    ]

  pub new_sender-IsPaced :
      (size server_seed : ℕ) → IsPaced size (new_sender fl size server_seed).burst
  unfolding new_sender
  new_sender-IsPaced size server_seed = record {
    buffer = (length-fill_random (replicate size 0) server_seed).0 ∙ length-replicate size 0;
    next = refl;
    numbered = λ h. tt;
  }

  drive-WellSent :
      (server_seed : ℕ) (neg : Negotiate) (quiet : Bool) (rounds : List Round)
      → WellSent (packet_size neg) (drive fl server_seed neg quiet rounds)
  unfolding drive
  drive-WellSent server_seed neg quiet rounds =
      drive_loop-WellSent (packet_size neg) (omega arith) _ _ quiet
        (new_sender fl (packet_size neg) server_seed) rounds
        (new_sender-IsPaced (packet_size neg) server_seed)

  -- When the sender has finished, with fewer than 2^64 datagrams sent: its counter is their
  -- number, each of them has the negotiated size (1472 bytes by default, 16 at least), and the
  -- k-th one, from 0 on, is read by the receiver as number k.
  pub drive-Numbered :
      (server_seed : ℕ) (neg : Negotiate) (quiet : Bool) (rounds : List Round) (st : Sender fl)
      → drive fl server_seed neg quiet rounds ≡ finished st
      → length (st.burst).sent < 2 ^ 64
      → ((st.burst).seq ≡ length (st.burst).sent) × Numbered (packet_size neg) 0 (st.burst).sent
  drive-Numbered server_seed neg quiet rounds st e few =
      let p = rw e at (drive-WellSent server_seed neg quiet rounds) in
      (omega (arith, p.next), p.numbered few)

  -- Stamping never leaves the buffer: the sender does not panic, whatever was negotiated.
  pub drive_safe :
      (server_seed : ℕ) (neg : Negotiate) (quiet : Bool) (rounds : List Round)
      → drive fl server_seed neg quiet rounds ≢ panic
  drive_safe server_seed neg quiet rounds e = rw e at (drive-WellSent server_seed neg quiet rounds)
