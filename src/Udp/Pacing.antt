-- ===== src/Udp/Pacing.antt =====
-- What the paced sender puts on the wire: the sizes and numbers of its datagrams.
use andri.Common.{
  ℕ, zero, suc, ◌+◌, ◌%◌, ◌^◌, ◌≤◌, ◌<◌, ◌≡◌, ap, ◌∙◌, some, List, [], ◌∷◌, ◌++◌, length, arith,
  add64, length-append,
}
use andri.Io.{IoResult, ok, err}
use andri.Udp.Header.{header_len, unstamp, unstamp-stamp}
use andri.Udp.Drive.{Round, Burst, Sent, sent_all, failed, panicked, answered, send_burst}

-- A datagram of the given size that the receiver reads as number `k`.
abbrev pub IsNumbered : ℕ → ℕ → List ℕ → Type 0
IsNumbered size k d = (length d ≡ size) × (send_ns : ℕ) × (unstamp d ≡ some (k, send_ns))

abbrev pub Numbered : ℕ → ℕ → List (List ℕ) → Type 0
Numbered size k [] = Unit
Numbered size k (d ∷ ds) = IsNumbered size k d × Numbered size (suc k) ds

Numbered-append :
    (size k : ℕ) (ds : List (List ℕ)) (d : List ℕ)
    → Numbered size k ds
    → IsNumbered size (k + length ds) d
    → Numbered size k (ds ++ (d ∷ []))
Numbered-append size k [] d h new = (rw (← k_zero) new, tt)
  where
    k_zero : k + 0 ≡ k
    k_zero = omega arith
Numbered-append size k (e ∷ ds) d (he, h) new =
    let shift : k + suc (length ds) ≡ suc k + length ds = omega arith in
    (he, Numbered-append size (suc k) ds d h (rw (← shift) new))

-- Between two datagrams: the buffer keeps its size, and the next number is the number of
-- datagrams sent.
pub record IsPaced (size : ℕ) (b : Burst) : Type 0 where
  pub buffer : length b.buf ≡ size
  pub next : b.seq ≡ length b.sent % 2 ^ 64
  pub numbered : length b.sent < 2 ^ 64 → Numbered size 0 b.sent

-- The burst after one more datagram.
abbrev sent_one : Burst → List ℕ → Burst
sent_one b out = record { seq = add64 b.seq 1; buf = out; sent = b.sent ++ (out ∷ []) }

-- What a burst may come to: it goes through with `n` datagrams sent in all, or the socket fails.
abbrev pub Outcome : ℕ → ℕ → Sent → Type 0
Outcome size n (sent_all b) = IsPaced size b × (length b.sent ≡ n)
Outcome size n (failed e) = Unit
Outcome size n panicked = ⊥

answered-Outcome :
    (size n : ℕ) (a : IoResult (Unit {0})) (rest : Sent)
    → Outcome size n rest
    → Outcome size n (answered a rest)
answered-Outcome size n (ok u) rest h = h
answered-Outcome size n (err e) rest h = tt

module _ (size : ℕ) (fits : header_len ≤ size) where
  sent_one-IsPaced :
      (b : Burst) (out : List ℕ) (send_ns : ℕ)
      → IsPaced size b
      → length out ≡ length b.buf
      → unstamp out ≡ some (b.seq, send_ns)
      → IsPaced size (sent_one b out)
  sent_one-IsPaced b out send_ns p len read = record {
    buffer = len ∙ p.buffer;
    next = omega (arith, p.next, length-append {0} b.sent (out ∷ []));
    numbered = λ few.
        let grown : length (b.sent ++ (out ∷ [])) ≡ length b.sent + 1 =
          length-append b.sent (out ∷ []) in
        let before : length b.sent < 2 ^ 64 = omega arith in
        let number : b.seq ≡ 0 + length b.sent = omega (arith, p.next) in
        Numbered-append size 0 b.sent out (p.numbered before)
          (len ∙ p.buffer, send_ns, read ∙ ap (λ (k : ℕ). some (k, send_ns)) number);
  }

  pub send_burst-Outcome :
      (r : Round) (i k : ℕ) (b : Burst)
      → IsPaced size b
      → Outcome size (length b.sent + k) (send_burst r i k b)
  unfolding send_burst
  send_burst-Outcome r i zero b p = (p, omega arith)
  send_burst-Outcome r i (suc k) b p =
      let send_ns = r.clock i % 2 ^ 64 in
      let s =
        unstamp-stamp b.buf b.seq send_ns (omega (arith, p.next)) (omega arith)
          (omega (arith, p.buffer)) in
      let b' = sent_one b s.0 in
      let p' = sent_one-IsPaced b s.0 send_ns p s.2 s.4 in
      let total : length b'.sent + k ≡ length b.sent + suc k =
        omega (arith, length-append {0} b.sent (s.0 ∷ [])) in
      let rest = rw total at (send_burst-Outcome r (suc i) k b' p') in
      rw (s.1, send_burst) (answered-Outcome size _ (r.answer i) _ rest)
