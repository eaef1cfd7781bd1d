-- ===== src/File/Stall.antt =====
-- When the receiver of the file mode (`serve` of src/modes/file.rs) answers.
use andri.Common.{
  ℕ, suc, ◌+◌, ◌-◌, ◌≤◌, ◌<◌, ◌≡◌, refl, none, some, List, [], ◌∷◌, ◌++◌, leb, true, false, All,
  arith, length, length-append, IsU64,
}
use mathlib.Core.Option
use andri.Io.{IoResult, ok}
use andri.Float.{Float, as_secs_f64}
use andri.Proto.Messages.{Negotiate, Sample}
use andri.Meter.Sampler.{Tick}
use andri.Meter.SamplerLaws.{Rising, sum_bytes, sum_bytes-append}
use andri.File.Serve.{done, receive, Series, on_tick, sample_loop, sample_until_done, report, serve}
use andri.File.ServeLaws.{Flowing, receive_complete}

-- The length that was negotiated, 0 when the client gave none.
abbrev pub expected_len : Negotiate → ℕ
expected_len neg = Option.get_or neg.file_len 0

module _ (fl : Float) where
  module _ (t0 expected : ℕ) where
    sample_loop_waits :
        (st : Series fl) (ticks : List Tick)
        → All (λ tick. tick.cur < expected) ticks
        → sample_loop fl t0 expected st ticks ≡ none
    unfolding sample_loop
    sample_loop_waits st [] h = refl
    sample_loop_waits st (tick ∷ rest) (below, h) =
        let early : leb expected tick.cur ≡ false = ground arith in
        rw (early, sample_loop) (sample_loop_waits (on_tick fl t0 st tick) rest h)

    on_tick_step :
        (st : Series fl) (tick : Tick)
        → st.last_bytes ≤ tick.cur
        → (sum_bytes (on_tick fl t0 st tick).samples + st.last_bytes
            ≡ sum_bytes st.samples + tick.cur)
          × (length (on_tick fl t0 st tick).samples ≡ suc (length st.samples))
          × ((on_tick fl t0 st tick).last_bytes ≡ tick.cur)
    unfolding on_tick
    on_tick_step st tick h = (
      omega (arith, sum_bytes-append st.samples _),
      omega (arith, length-append {0} st.samples _),
      refl,
    )

    pub sample_loop_ends :
        (st : Series fl) (before : List Tick) (final : Tick) (rest : List Tick)
        → All (λ tick. tick.cur < expected) before
        → expected ≤ final.cur
        → Rising st.last_bytes (before ++ (final ∷ []))
        → (samples : List (Sample fl.F)) × (sample_loop fl t0 expected st (before ++ (final ∷ rest))
            ≡ some samples)
          × (length samples ≡ length st.samples + suc (length before))
          × (sum_bytes samples + st.last_bytes ≡ sum_bytes st.samples + final.cur)
    unfolding sample_loop
    sample_loop_ends st [] final rest h over (low, up) =
        let (bytes, count, total) = on_tick_step st final low in
        let full : leb expected final.cur ≡ true = ground arith in
        ((on_tick fl t0 st final).samples, rw (full, sample_loop), omega arith, bytes)
    sample_loop_ends st (tick ∷ before) final rest (below, h) over (low, up) =
        let (bytes, count, total) = on_tick_step st tick low in
        let early : leb expected tick.cur ≡ false = ground arith in
        let later =
          sample_loop_ends (on_tick fl t0 st tick) before final rest h over (rw total up) in
        (later.0, rw (early, sample_loop) later.1, omega (arith, later.2), omega (arith, later.3))

  All-below :
      (ticks : List Tick) (received expected : ℕ)
      → received < expected
      → All (λ tick. tick.cur ≤ received) ticks
      → All (λ tick. tick.cur < expected) ticks
  All-below [] received expected short h = tt
  All-below (tick ∷ rest) received expected short (le, h) =
      (omega arith, All-below rest received expected short h)

  -- A client that connects and closes early: when the receive loop has ended with fewer bytes than
  -- negotiated, and no tick reads more from the counter than the loop has counted, the server does
  -- not answer, however many ticks come.
  pub serve_stalls :
      (neg : Negotiate) (t0 end : ℕ) (reads : List (IoResult ℕ)) (ticks : List Tick) (received : ℕ)
      → receive (expected_len neg) 0 reads ≡ done received
      → received < expected_len neg
      → All (λ tick. tick.cur ≤ received) ticks
      → serve fl neg (ok tt) t0 end reads ticks ≡ none
  unfolding serve sample_until_done
  serve_stalls neg t0 end reads ticks received e short h =
      rw (e, sample_loop_waits t0 (expected_len neg) _ ticks (All-below ticks received _ short h))

  -- A complete transfer: the connection is accepted, the length is a u64, the stream delivers at
  -- least one byte on each read and there are as many reads as the file has bytes, and the
  -- counter, which never falls, reaches the length of the file at the tick `final` and at none
  -- before. The server answers with the negotiated number of bytes and one sample for each tick
  -- until `final`; the bytes of the samples add up to the counter at `final`.
  pub serve_completes :
      (neg : Negotiate) (t0 end : ℕ) (reads : List (IoResult ℕ)) (before : List Tick) (final : Tick)
      (rest : List Tick)
      → IsU64 (expected_len neg)
      → Flowing reads
      → expected_len neg ≤ length reads
      → All (λ tick. tick.cur < expected_len neg) before
      → expected_len neg ≤ final.cur
      → Rising 0 (before ++ (final ∷ []))
      → (samples : List (Sample fl.F)) × (serve fl neg
            (ok tt)
            t0
            end
            reads
            (before ++ (final ∷ rest))
          ≡ some (ok (report fl (expected_len neg) (as_secs_f64 fl (end - t0)) samples)))
        × (length samples ≡ suc (length before))
        × (sum_bytes samples ≡ final.cur)
  unfolding serve sample_until_done
  serve_completes neg t0 end reads before final rest small flow enough early over up =
      let start : Series fl = record { samples = []; last_bytes = 0; last_t = t0 } in
      let r = sample_loop_ends t0 (expected_len neg) start before final rest early over up in
      let all =
        receive_complete (expected_len neg) 0 reads small (omega arith) flow (omega arith) in
      (r.0, rw (all, r.1), omega (arith, r.2), omega (arith, r.3))
