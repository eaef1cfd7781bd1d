-- ===== src/Proto/RoundTrip.antt =====
-- What `write_msg` puts on a connection, and that `read_msg` takes it off again.
use andri.Common.{
  ℕ, ◌≤◌, ◌<◌, ◌≡◌, sym, ap, subst, ◌∙◌, List, ◌++◌, length, u32, arith, le→ltb, lt→ltb,
  length-append, String, append_split,
}
use mathlib.Core.List.{append_assoc}
use native.Mathlib.Decide.{dec_lt}
use andri.Io.{ErrorKind, IoError, ok, err}
use andri.Bytes.{to_be32, from_be32, from_be32-to_be32, length-to_be32}
use andri.Proto.Messages.{Msg, max_frame_bytes}
use andri.Proto.Stream.{Stream, IsByteStream, Codec}
use andri.Proto.Frame.{write_msg, read_msg, frame, exceeds_cap, declared_exceeds_cap}

module _ {F : Type 0} (codec : Codec F) (st : Stream) (up : IsByteStream st) where
  open codec use {to_vec, from_slice}
  open up use {pending, written}

  -- A message whose JSON fits the cap is sent as one frame, and nothing is read.
  pub write_msg-frame :
      (msg : Msg F) (payload : List ℕ) (s : st.S)
      → to_vec msg ≡ ok payload
      → length payload ≤ max_frame_bytes
      → (s' : st.S) × (write_msg codec st msg s ≡ (ok tt, s'))
        × (pending s' ≡ pending s)
        × (written s' ≡ written s ++ frame payload)
  unfolding write_msg frame
  write_msg-frame msg payload s e fits =
      let same : u32 (length payload) ≡ length payload = omega arith in
      let w₁ = up.write_full s (to_be32 (length payload)) in
      let w₂ = up.write_full w₁.0 payload in
      let w₃ = up.flush_full w₂.0 in
      (
        w₃.0,
        rw (e, le→ltb max_frame_bytes (length payload) fits, same, w₁.1, w₂.1, w₃.1),
        w₃.2 ∙ w₂.2 ∙ w₁.2,
        rw (w₃.3, w₂.3, w₁.3) (append_assoc (written s) (to_be32 (length payload)) payload),
      )

  -- A frame at the front of what the peer sent is read as the message that it carries; what
  -- follows stays.
  pub read_msg-frame :
      (msg : Msg F) (payload rest : List ℕ) (s : st.S)
      → from_slice payload ≡ ok msg
      → length payload ≤ max_frame_bytes
      → pending s ≡ frame payload ++ rest
      → (s' : st.S) × (read_msg codec st s ≡ (ok msg, s'))
        × (pending s' ≡ rest)
        × (written s' ≡ written s)
  unfolding read_msg frame
  read_msg-frame msg payload rest s e fits front =
      let head = to_be32 (length payload) in
      let r₁ = up.read_full s head (payload ++ rest) (front ∙ append_assoc head payload rest) in
      let r₂ = up.read_full r₁.0 payload rest r₁.2 in
      let read_head = rw (length-to_be32 (length payload)) at r₁.1 in
      let read_length = from_be32-to_be32 (length payload) (omega arith) in
      (
        r₂.0,
        rw (read_head, read_length, le→ltb max_frame_bytes (length payload) fits, r₂.1, e),
        r₂.2,
        r₂.3 ∙ r₁.3,
      )

  -- A message whose JSON is larger than the cap is refused before anything is sent.
  pub write_msg_oversized :
      (msg : Msg F) (payload : List ℕ) (s : st.S)
      → to_vec msg ≡ ok payload
      → max_frame_bytes < length payload
      → write_msg codec st msg s ≡ (err exceeds_cap, s)
  unfolding write_msg
  write_msg_oversized msg payload s e big = rw (e, lt→ltb max_frame_bytes (length payload) big)

  -- A declared length over the cap is refused with the body still unread, and nothing is sent.
  pub read_msg_oversized :
      (len_buf body : List ℕ) (s : st.S)
      → length len_buf ≡ 4
      → max_frame_bytes < from_be32 len_buf
      → pending s ≡ len_buf ++ body
      → (s' : st.S) × (read_msg codec st s ≡ (err declared_exceeds_cap, s'))
        × (pending s' ≡ body)
        × (written s' ≡ written s)
  unfolding read_msg
  read_msg_oversized len_buf body s four big front =
      let r = up.read_full s len_buf body front in
      let read_head = rw four at r.1 in
      (r.0, rw (read_head, lt→ltb max_frame_bytes (from_be32 len_buf) big), r.2, r.3)

  -- A connection that ends inside a frame, whether in the length or in the payload, gives
  -- `UnexpectedEof`: no part of a message is ever taken for one.
  pub read_msg_truncated :
      (payload cut rest : List ℕ) (s : st.S)
      → length payload ≤ max_frame_bytes
      → frame payload ≡ cut ++ rest
      → 0 < length rest
      → pending s ≡ cut
      → (s' : st.S) × (text : String) × (read_msg codec st s
          ≡ (err (IoError.new ErrorKind.unexpected_eof text), s'))
        × (written s' ≡ written s)
  unfolding read_msg frame
  read_msg_truncated payload cut rest s fits whole more front = elim (dec_lt (length cut) 4) [
    | yes short ↦ let r = up.read_short s 4 (rw front short) in (r.0, r.1, rw r.2, r.3)
    | no long ↦
        let head = to_be32 (length payload) in
        let four = length-to_be32 (length payload) in
        let (body, eh, eb) = append_split head payload cut rest whole (omega arith) in
        let r₁ = up.read_full s head body (front ∙ eh) in
        let lengths = ap length eb ∙ length-append body rest in
        let body_short : length body < length payload = omega arith in
        let left = subst (λ (l : List ℕ). length l < length payload) (sym r₁.2) body_short in
        let r₂ = up.read_short r₁.0 (length payload) left in
        let read_head = rw four at r₁.1 in
        let read_length = from_be32-to_be32 (length payload) (omega arith) in
        (
          r₂.0,
          r₂.1,
          rw (read_head, read_length, le→ltb max_frame_bytes (length payload) fits, r₂.2),
          r₂.3 ∙ r₁.3,
        )
  ]
