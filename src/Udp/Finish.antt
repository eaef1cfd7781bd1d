-- ===== src/Udp/Finish.antt =====
-- When the UDP sender ends (`drive` of src/modes/udp.rs).
use andri.Common.{
  ℕ, zero, suc, ◌*◌, ◌≤◌, ◌%◌, ◌^◌, ◌≡◌, ◌≢◌, refl, sym, subst, Option-cases, inl, inr, List, [],
  ◌∷◌, ◌++◌, Bool, false, All, arith, add64, ltb, Bool-cases,
}
use andri.Io.{IoError, ok}
use andri.Float.{Float}
use andri.Proto.Messages.{Negotiate}
use andri.Udp.Header.{header_len, packet_size, stamp}
use andri.Udp.Drive.{
  Round, Burst, Sent, sent_all, failed, panicked, send_burst, Sender, Driven, finished, due,
  carried, reported, after_burst, drive_loop, drive, new_sender,
}
use andri.Udp.Pacing.{IsPaced, Outcome, send_burst-Outcome}
use andri.Udp.Sender.{reported-burst, new_sender-IsPaced}

-- The socket takes every datagram of the round.
abbrev pub Answers : Round → Type 0
Answers r = (i : ℕ) → r.answer i ≡ ok tt

pub send_burst-ok :
    (r : Round) (i k : ℕ) (b : Burst) (e : IoError) → Answers r → send_burst r i k b ≢ failed e
unfolding send_burst
send_burst-ok r i zero b e h p = cc
send_burst-ok r i (suc k) b e h p = elim (Option-cases (stamp b.buf b.seq (r.clock i % 2 ^ 64))) [
  | inl short ↦ let q : panicked ≡ failed e = rw (short, send_burst) at p in cc
  | inr (out, stamped) ↦
      send_burst-ok r (suc i) k
        (record { seq = add64 b.seq 1; buf = out; sent = b.sent ++ (out ∷ []) }) e h
        (rw (stamped, send_burst, h i) at p)
]

module _ (fl : Float) where
  -- The sender returns Ok, with some last state.
  abbrev pub Finishes : Driven fl → Type 0
  Finishes d = (last : Sender fl) × (d ≡ finished last)

  after_burst-Finishes :
      (size n : ℕ) (s : Sent) (next : Burst → Driven fl)
      → Outcome size n s
      → ((e : IoError) → s ≢ failed e)
      → ((b : Burst) → IsPaced size b → Finishes (next b))
      → Finishes (after_burst fl s next)
  after_burst-Finishes size n (sent_all b) next o h go = go b o.0
  after_burst-Finishes size n (failed e) next o h go = absurd (h e refl)
  after_burst-Finishes size n panicked next o h go = absurd o

  drive_loop-Finishes :
      (size total : ℕ) (ppt : fl.F) (quiet : Bool) (st : Sender fl) (before rest : List Round)
      (late : Round)
      → header_len ≤ size
      → All Answers before
      → total ≤ late.checked
      → IsPaced size st.burst
      → Finishes (drive_loop fl total ppt quiet st (before ++ (late ∷ rest)))
  unfolding drive_loop
  drive_loop-Finishes size total ppt quiet st [] rest late fits h over p =
      let full : ltb late.checked total ≡ false = ground arith in (st, rw (full, drive_loop))
  drive_loop-Finishes size total ppt quiet st (r ∷ before) rest late fits h over p =
      elim (Bool-cases (ltb r.checked total)) [
        | inr full ↦ (st, rw (full, drive_loop))
        | inl more ↦
            let n = due fl ppt st.carry in
            let burst = send_burst-Outcome size fits r 0 n st.burst p in
            rw (more, drive_loop)
              (after_burst-Finishes size _ _ _ burst (λ e. send_burst-ok r 0 n st.burst e h.0)
                (λ b q.
                  let sent : Sender fl = record st { burst = b; carry = carried fl ppt st.carry } in
                  drive_loop-Finishes size total ppt quiet (reported fl quiet r sent) before rest
                    late fits h.1 over
                    (subst (IsPaced size) (sym (reported-burst fl quiet r sent)) q)))
      ]

  -- The sender comes to its end: when the socket takes every datagram of the rounds before some
  -- round at whose start the elapsed time has reached the duration and the warm-up together (their
  -- u64 sum of seconds), `drive` returns Ok, whatever the rate and the size.
  pub drive-Finishes :
      (server_seed : ℕ) (neg : Negotiate) (quiet : Bool) (before rest : List Round) (late : Round)
      → All Answers before
      → add64 neg.duration_secs neg.warmup_secs * 1000000000 ≤ late.checked
      → Finishes (drive fl server_seed neg quiet (before ++ (late ∷ rest)))
  unfolding drive
  drive-Finishes server_seed neg quiet before rest late h over =
      drive_loop-Finishes (packet_size neg) _ _ quiet (new_sender fl (packet_size neg) server_seed)
        before rest late (omega arith) h over (new_sender-IsPaced fl (packet_size neg) server_seed)
