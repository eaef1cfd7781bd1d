-- ===== src/Tcp/DriveLaws.antt =====
-- The TCP sender of src/modes/tcp.rs: the seeds of its streams, and what one `send_loop` writes.
use Prim.Native.Nat.{bit_xor-bitwise, digits, differ}
use andri.Common.{
  ℕ, zero, suc, ◌+◌, ◌/◌, ◌%◌, ◌^◌, ◌≤◌, ◌<◌, ◌≡◌, ◌≢◌, ap, refl, sym, ◌∙◌, List, [], ◌∷◌, ◌++◌,
  true, false, inl, inr, arith, add64, mul64, bit_xor, ltb, length, length-append, replicate, IsU64,
  Bool-cases,
}
use andri.Io.{IoResult, ok, err}
use andri.Meter.Counter
use andri.Meter.Counter.{Counter}
use andri.Meter.Fill.{fill_random}
use andri.Tcp.Drive.{
  seed_mix, stream_seed, Round, Sent, finished, running, failed, flush, write_loop, send_loop,
}

-- The multiplier is odd: it has an inverse modulo 2^64.
mul_seed_mix-mul : (i : ℕ) → IsU64 i → mul64 (mul64 i seed_mix) 0xF1DE_83E1_9937_733D ≡ i
mul_seed_mix-mul i h = omega arith

differ_lt : (d x : ℕ) → d < 2 → x < 2 → differ d x < 2
differ_lt zero x hd hx = hx
differ_lt (suc d) zero hd hx = hd
differ_lt (suc d) (suc x) hd hx = differ_lt d x (omega arith) (omega arith)

differ_inj : (d x y : ℕ) → d < 2 → x < 2 → y < 2 → differ d x ≡ differ d y → x ≡ y
differ_inj zero x y hd hx hy e = e
differ_inj (suc zero) zero zero hd hx hy e = refl
differ_inj (suc zero) zero (suc zero) hd hx hy e = absurd (omega arith)
differ_inj (suc zero) (suc zero) zero hd hx hy e = absurd (omega arith)
differ_inj (suc zero) (suc x) (suc y) hd hx hy e = omega arith
differ_inj (suc zero) zero (suc (suc y)) hd hx hy e = absurd (omega arith)
differ_inj (suc zero) (suc (suc x)) zero hd hx hy e = absurd (omega arith)
differ_inj (suc (suc d)) x y hd hx hy e = absurd (omega arith)

digits_inj : (n a b c : ℕ) → digits (λ x. x) differ n a b ≡ digits (λ x. x) differ n a c → b ≡ c
digits_inj zero a b c e = e
digits_inj (suc n) zero b c e = e
digits_inj (suc n) (suc a) b c e =
    let d = suc a % 2 in
    let low : differ d (b % 2) < 2 = differ_lt d (b % 2) (omega arith) (omega arith) in
    let low' : differ d (c % 2) < 2 = differ_lt d (c % 2) (omega arith) (omega arith) in
    let high = digits_inj n (suc a / 2) (b / 2) (c / 2) (omega (arith, e, low, low')) in
    let bit : b % 2 ≡ c % 2 =
      differ_inj d (b % 2) (c % 2) (omega arith) (omega arith) (omega arith)
        (omega (arith, e, low, low')) in
    omega (arith, high, bit)

bit_xor_inj : (a b c : ℕ) → bit_xor a b ≡ bit_xor a c → b ≡ c
bit_xor_inj a b c e =
    digits_inj a a b c (sym (λ i. bit_xor-bitwise a b i) ∙ e ∙ (λ i. bit_xor-bitwise a c i))

stream_seed_inj :
    (server_seed i j : ℕ)
    → IsU64 i
    → IsU64 j
    → stream_seed server_seed i ≡ stream_seed server_seed j
    → i ≡ j
unfolding stream_seed
stream_seed_inj server_seed i j hi hj e =
    let same : mul64 i seed_mix ≡ mul64 j seed_mix = bit_xor_inj server_seed _ _ e in
    sym (mul_seed_mix-mul i hi)
    ∙ ap (λ x. mul64 x 0xF1DE_83E1_9937_733D) same
    ∙ mul_seed_mix-mul j hj

-- Two streams of one test, by numbers below 2^64, never have the same payload seed.
pub stream_seed_distinct :
    (server_seed i j : ℕ)
    → IsU64 i
    → IsU64 j
    → i ≢ j
    → stream_seed server_seed i ≢ stream_seed server_seed j
stream_seed_distinct server_seed i j hi hj ne e = ne (stream_seed_inj server_seed i j hi hj e)

-- `k` copies of the buffer, one after the other.
abbrev pub copies : ℕ → List ℕ → List ℕ
copies zero buf = []
copies (suc k) buf = copies k buf ++ buf

-- What was handed to the connection is a number of whole buffers. The counter is their length, less
-- the buffer of a write that failed.
abbrev pub WholeBuffers : List ℕ → Sent → Type 0
WholeBuffers buf (finished c out) = (k : ℕ) × (out ≡ copies k buf) × (c ≡ length out % 2 ^ 64)
WholeBuffers buf (running c out) = (k : ℕ) × (out ≡ copies k buf) × (c ≡ length out % 2 ^ 64)
WholeBuffers buf (failed e c out) =
    (k j : ℕ) × (out ≡ copies k buf) × (c ≡ length (copies j buf) % 2 ^ 64) × (j ≤ k) × (k ≤ suc j)

flush-WholeBuffers :
    (buf : List ℕ) (flushed : IoResult (Unit {0})) (c : Counter) (k : ℕ)
    → c ≡ length (copies k buf) % 2 ^ 64
    → WholeBuffers buf (flush flushed c (copies k buf))
flush-WholeBuffers buf (ok u) c k e = (k, refl, e)
flush-WholeBuffers buf (err x) c k e = (k, k, refl, e, omega arith, omega arith)

write_loop-WholeBuffers :
    (deadline : ℕ) (buf : List ℕ) (flushed : IoResult (Unit {0})) (c k : ℕ) (rounds : List Round)
    → c ≡ length (copies k buf) % 2 ^ 64
    → WholeBuffers buf (write_loop deadline buf flushed c (copies k buf) rounds)
unfolding write_loop Counter.add
write_loop-WholeBuffers deadline buf flushed c k [] e = (k, refl, e)
write_loop-WholeBuffers deadline buf flushed c k ((now, err x) ∷ rest) e =
    elim (Bool-cases (ltb now deadline)) [
      | inr over ↦ rw (over, write_loop) (flush-WholeBuffers buf flushed c k e)
      | inl more ↦ rw (more, write_loop) (suc k, k, refl, e, omega arith, omega arith)
    ]
write_loop-WholeBuffers deadline buf flushed c k ((now, ok u) ∷ rest) e =
    elim (Bool-cases (ltb now deadline)) [
      | inr over ↦ rw (over, write_loop) (flush-WholeBuffers buf flushed c k e)
      | inl more ↦
          rw (more, write_loop)
            (write_loop-WholeBuffers deadline buf flushed (add64 c (length buf)) (suc k) rest
              (omega (arith, length-append (copies k buf) buf)))
    ]

-- The stream's buffer: filled once from its seed.
abbrev pub payload : ℕ → ℕ → List ℕ
payload seed buffer_bytes = fill_random (replicate buffer_bytes 0) seed

-- At any time, and on every way out, a stream has handed to its connection a number of whole copies
-- of the one buffer that its seed fixes, and its counter is their length, as a u64, without the copy
-- whose write failed.
pub send_loop-WholeBuffers :
    (deadline seed buffer_bytes : ℕ) (rounds : List Round) (flushed : IoResult (Unit {0}))
    → WholeBuffers (payload seed buffer_bytes) (send_loop deadline seed buffer_bytes rounds flushed)
unfolding send_loop Counter.new
send_loop-WholeBuffers deadline seed buffer_bytes rounds flushed =
    write_loop-WholeBuffers deadline (payload seed buffer_bytes) flushed 0 0 rounds refl

-- Rounds before the deadline whose buffer is taken.
abbrev pub InTime : ℕ → List Round → Type 0
InTime deadline [] = Unit
InTime deadline ((now, ok u) ∷ rest) = (now < deadline) × InTime deadline rest
InTime deadline ((now, err e) ∷ rest) = ⊥

write_loop_ends :
    (deadline : ℕ) (buf : List ℕ) (c k : ℕ) (before : List Round) (last : Round) (rest : List Round)
    → InTime deadline before
    → deadline ≤ last.0
    → (n : ℕ) × (n ≡ k + length before)
      × ((counted : ℕ) × (write_loop deadline buf (ok tt) c (copies k buf) (before ++ (last ∷ rest))
            ≡ finished counted (copies n buf)))
unfolding write_loop Counter.add
write_loop_ends deadline buf c k [] last rest h late =
    let over : ltb last.0 deadline ≡ false = ground arith in
    (k, omega arith, (c, rw (over, write_loop) refl))
write_loop_ends deadline buf c k ((now, err e) ∷ before) last rest h late = absurd h
write_loop_ends deadline buf c k ((now, ok u) ∷ before) last rest (early, h) late =
    let more : ltb now deadline ≡ true = ground arith in
    let later =
      write_loop_ends deadline buf (add64 c (length buf)) (suc k) before last rest h late in
    (later.0, omega (arith, later.1), (later.2.0, rw (more, write_loop) later.2.1))

-- A stream whose connection takes everything ends at the first round at or after the deadline,
-- with one copy of its buffer written for each round before.
pub send_loop_ends :
    (deadline seed buffer_bytes : ℕ) (before : List Round) (last : Round) (rest : List Round)
    → InTime deadline before
    → deadline ≤ last.0
    → (c : ℕ) × (send_loop deadline seed buffer_bytes (before ++ (last ∷ rest)) (ok tt)
        ≡ finished c (copies (length before) (payload seed buffer_bytes)))
unfolding send_loop
send_loop_ends deadline seed buffer_bytes before last rest h late =
    let buf = payload seed buffer_bytes in
    let r = write_loop_ends deadline buf Counter.new 0 before last rest h late in
    let count : r.0 ≡ length before = omega (arith, r.1) in
    (r.2.0, r.2.1 ∙ ap (λ n. finished r.2.0 (copies n buf)) count)
