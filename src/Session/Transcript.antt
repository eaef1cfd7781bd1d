-- ===== src/Session/Transcript.antt =====
-- What one end of a session has sent when it ends, step by step: over any connection that stays
-- up, whatever the other end sends.
use andri.Common.{
  ℕ, ◌≡◌, refl, ap, ◌∙◌, subst, List, [], ◌∷◌, ◌++◌, length, take, drop, arith, length-take,
  take-drop, ltb, ◌⊎◌, inl, inr, Bool, true, false, if◌then◌else◌,
}
use native.Mathlib.Decide.{dec_lt}
use andri.Io.{IoError, IoResult, Io, ok, err, on_ok, IoResult-cases}
use andri.Bytes.{from_be32}
use andri.Proto.Messages.{Msg, max_frame_bytes}
use andri.Proto.Stream.{Stream, IsByteStream, Codec}
use andri.Proto.Frame.{write_msg, read_msg, frame, exceeds_cap}
use andri.Proto.RoundTrip.{write_msg-frame, write_msg_oversized}

module _ {F : Type 0} (codec : Codec F) where
  -- `after` is `before` with the frames of these messages behind it.
  abbrev pub Wrote : List ℕ → List ℕ → List (Msg F) → Type 0
  Wrote before after [] = after ≡ before
  Wrote before after (m ∷ ms) =
      (payload : List ℕ) × (codec.to_vec m ≡ ok payload) × Wrote (before ++ frame payload) after ms

module _ {F : Type 0} (codec : Codec F) (st : Stream) (up : IsByteStream st) where
  open codec use {to_vec}
  open up use {pending, written}

  read_exact_quiet : (n : ℕ) (s : st.S) → written (st.read_exact n s).1 ≡ written s
  read_exact_quiet n s = elim (dec_lt (length (pending s)) n) [
    | yes short ↦ let r = up.read_short s n short in ap (λ x. written x.1) r.2 ∙ r.3
    | no long ↦
        let r =
          up.read_full s (take n (pending s)) (drop n (pending s)) (take-drop n (pending s)) in
        let size : length (take n (pending s)) ≡ n = omega (arith, length-take n (pending s)) in
        let run = subst (λ k. st.read_exact k s ≡ (ok (take n (pending s)), r.0)) size r.1 in
        ap (λ x. written x.1) run ∙ r.3
  ]

  on_ok_quiet :
      {A B : Type 0} (w : List ℕ) (r : IoResult A × st.S) (f : A → Io st.S B)
      → written r.1 ≡ w
      → ((a : A) (s : st.S) → written s ≡ w → written (f a s).1 ≡ w)
      → written (on_ok r f).1 ≡ w
  on_ok_quiet w (ok a, s) f h k = k a s h
  on_ok_quiet w (err e, s) f h k = h

  if_quiet :
      {A : Type 0} (w : List ℕ) (b : Bool) (x y : Io st.S A) (s : st.S)
      → written (x s).1 ≡ w
      → written (y s).1 ≡ w
      → written ((if b then x else y) s).1 ≡ w
  if_quiet w true x y s hx hy = hx
  if_quiet w false x y s hx hy = hy

  -- Reading sends nothing, however it ends.
  pub read_msg_quiet : (s : st.S) → written (read_msg codec st s).1 ≡ written s
  unfolding read_msg
  read_msg_quiet s =
      on_ok_quiet (written s) (st.read_exact 4 s) _ (read_exact_quiet 4 s) (λ len_buf s' h.
        if_quiet (written s) (ltb max_frame_bytes (from_be32 len_buf)) _ _ s' h (
          on_ok_quiet (written s) (st.read_exact (from_be32 len_buf) s') _
            (read_exact_quiet (from_be32 len_buf) s' ∙ h) (λ payload s'' h'. h')))

  -- A message is sent whole, or not at all.
  pub write_msg-cases :
      (m : Msg F) (s : st.S)
      → ((payload : List ℕ) × (s' : st.S) × (write_msg codec st m s ≡ (ok tt, s'))
          × (to_vec m ≡ ok payload)
          × (written s' ≡ written s ++ frame payload))
        ⊎ ((e : IoError) × (write_msg codec st m s ≡ (err e, s)))
  unfolding write_msg
  write_msg-cases m s = elim (IoResult-cases (to_vec m)) [
    | inr (e, bad) ↦ inr (e, rw bad refl)
    | inl (payload, good) ↦ elim (dec_lt max_frame_bytes (length payload)) [
      | yes big ↦ inr (exceeds_cap, write_msg_oversized codec st up m payload s good big)
      | no fits ↦
          let r = write_msg-frame codec st up m payload s good (omega arith) in
          inl (payload, r.0, r.1, good, r.3)
    ]
  ]

  -- The step from one state to the next in which this message is read, or sent.
  abbrev pub Reads : Msg F → st.S → st.S → Type 0
  Reads m s s' = read_msg codec st s ≡ (ok m, s')

  abbrev pub Sends : Msg F → st.S → st.S → Type 0
  Sends m s s' = write_msg codec st m s ≡ (ok tt, s')

  -- A run that ends with some messages sent, which `P` allows of its result.
  abbrev pub Ends :
      {A : Type 0} → (IoResult A → List (Msg F) → Type 0) → List ℕ → IoResult A × st.S → Type 0
  Ends P w r = (ms : List (Msg F)) × P r.0 ms × Wrote codec w (written r.1) ms

  module _ {A : Type 0} (P : IoResult A → List (Msg F) → Type 0) (w : List ℕ)
      (fails : (e : IoError) → P (err e) []) where
    Ends-on_ok :
        {B : Type 0} (r : IoResult B × st.S) (f : B → Io st.S A)
        → written r.1 ≡ w
        → ((b : B) (s : st.S) → r ≡ (ok b, s) → written s ≡ w → Ends P w (f b s))
        → Ends P w (on_ok r f)
    Ends-on_ok (ok b, s) f h k = k b s refl h
    Ends-on_ok (err e, s) f h k = ([], fails e, h)

    pub Ends-read :
        (s : st.S) (f : Msg F → Io st.S A)
        → written s ≡ w
        → ((m : Msg F) (s' : st.S) → Reads m s s' → written s' ≡ w → Ends P w (f m s'))
        → Ends P w (on_ok (read_msg codec st s) f)
    Ends-read s f h k = Ends-on_ok (read_msg codec st s) f (read_msg_quiet s ∙ h) k

    pub Ends-lift :
        {B : Type 0} (r : IoResult B) (s : st.S) (f : B → Io st.S A)
        → written s ≡ w
        → ((b : B) → r ≡ ok b → Ends P w (f b s))
        → Ends P w (on_ok (r, s) f)
    Ends-lift (ok b) s f h k = k b refl
    Ends-lift (err e) s f h k = ([], fails e, h)

    -- After a message is sent, what follows is judged with it in front.
    pub Ends-write :
        (m : Msg F) (s : st.S) (f : Io st.S A)
        → written s ≡ w
        → ((payload : List ℕ) (s' : st.S)
            → Sends m s s'
            → written s' ≡ w ++ frame payload
            → Ends (λ r ms. P r (m ∷ ms)) (w ++ frame payload) (f s'))
        → Ends P w (on_ok (write_msg codec st m s) (λ _. f))
    Ends-write m s f h k = elim (write_msg-cases m s) [
      | inr (e, bad) ↦ rw bad ([], fails e, h)
      | inl (payload, s', sent, good, grown) ↦
          let r = k payload s' sent (grown ∙ ap (λ x. x ++ frame payload) h) in
          rw sent (m ∷ r.0, r.1, (payload, good, r.2))
    ]

  pub Ends-last :
      (P : IoResult (Unit {0}) → List (Msg F) → Type 0) (w : List ℕ) (m : Msg F) (s : st.S)
      → ((e : IoError) → P (err e) [])
      → P (ok tt) (m ∷ [])
      → written s ≡ w
      → Ends P w (write_msg codec st m s)
  Ends-last P w m s fails sends h = elim (write_msg-cases m s) [
    | inr (e, bad) ↦ rw bad ([], fails e, h)
    | inl (payload, s', sent, good, grown) ↦
        rw sent (m ∷ [], sends, (payload, good, grown ∙ ap (λ x. x ++ frame payload) h))
  ]
