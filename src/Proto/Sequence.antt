-- ===== src/Proto/Sequence.antt =====
-- A conversation: several messages in a row over one connection.
use andri.Common.{ℕ, zero, suc, ◌≤◌, ◌≡◌, refl, sym, ◌∙◌, List, [], ◌∷◌, ◌++◌, length, All}
use mathlib.Core.List.{append_assoc, append-nil}
use andri.Io.{Io, ok, ◌>>=◌, ◌>>◌, return}
use andri.Proto.Messages.{Msg, max_frame_bytes}
use andri.Proto.Stream.{Stream, IsByteStream, Codec}
use andri.Proto.Frame.{write_msg, read_msg, frame}
use andri.Proto.RoundTrip.{write_msg-frame, read_msg-frame}

module _ {F : Type 0} (codec : Codec F) where
  open codec use {to_vec, from_slice}

  -- The JSON library gives the message a text within the cap, and reads that text back as it.
  pub record IsSendable (msg : Msg F) : Type 0 where
    pub payload : List ℕ
    pub encodes : to_vec msg ≡ ok payload
    pub decodes : from_slice payload ≡ ok msg
    pub fits : length payload ≤ max_frame_bytes

  unfoldable pub frames : (msgs : List (Msg F)) → All IsSendable msgs → List ℕ
  frames [] h = []
  frames (m ∷ ms) h = frame (h.0).payload ++ frames ms h.1

module _ {F : Type 0} (codec : Codec F) (st : Stream) where
  unfoldable pub write_msgs : List (Msg F) → Io st.S (Unit {0})
  write_msgs [] = return tt
  write_msgs (m ∷ ms) = do write_msg codec st m; write_msgs ms

  unfoldable pub read_msgs : ℕ → Io st.S (List (Msg F))
  read_msgs zero = return []
  read_msgs (suc n) = do m ← read_msg codec st; ms ← read_msgs n; return (m ∷ ms)

module _ {F : Type 0} (codec : Codec F) (st : Stream) (up : IsByteStream st) where
  open up use {pending, written}

  write_msgs-frames :
      (msgs : List (Msg F)) (h : All (IsSendable codec) msgs) (s : st.S)
      → (s' : st.S) × (write_msgs codec st msgs s ≡ (ok tt, s'))
        × (pending s' ≡ pending s)
        × (written s' ≡ written s ++ frames codec msgs h)
  unfolding write_msgs frames
  write_msgs-frames [] h s = (s, refl, refl, sym (append-nil (written s)))
  write_msgs-frames (m ∷ ms) (g, h) s =
      let w = write_msg-frame codec st up m g.payload s g.encodes g.fits in
      let ws = write_msgs-frames ms h w.0 in
      (
        ws.0,
        rw (w.1, ws.1),
        ws.2 ∙ w.2,
        rw (ws.3, w.3) (append_assoc (written s) (frame g.payload) (frames codec ms h)),
      )

  read_msgs-frames :
      (msgs : List (Msg F)) (h : All (IsSendable codec) msgs) (rest : List ℕ) (s : st.S)
      → pending s ≡ frames codec msgs h ++ rest
      → (s' : st.S) × (read_msgs codec st (length msgs) s ≡ (ok msgs, s'))
        × (pending s' ≡ rest)
        × (written s' ≡ written s)
  unfolding read_msgs frames
  read_msgs-frames [] h rest s front = (s, refl, front, refl)
  read_msgs-frames (m ∷ ms) (g, h) rest s front =
      let tail = frames codec ms h in
      let front' = front ∙ append_assoc (frame g.payload) tail rest in
      let r = read_msg-frame codec st up m g.payload (tail ++ rest) s g.decodes g.fits front' in
      let rs = read_msgs-frames ms h rest r.0 r.2 in (rs.0, rw (r.1, rs.1), rs.2, rs.3 ∙ r.3)

  -- Messages written one after the other on a connection that stays up go out as their frames,
  -- and an end whose unread bytes begin with those frames reads the same messages in the same
  -- order and leaves what follows unread.
  pub read_msgs-write_msgs :
      (msgs : List (Msg F)) (h : All (IsSendable codec) msgs) (rest : List ℕ) (s r : st.S)
      → pending r ≡ frames codec msgs h ++ rest
      → (s' r' : st.S) × (write_msgs codec st msgs s ≡ (ok tt, s'))
        × (written s' ≡ written s ++ frames codec msgs h)
        × (read_msgs codec st (length msgs) r ≡ (ok msgs, r'))
        × (pending r' ≡ rest)
  read_msgs-write_msgs msgs h rest s r front =
      let ws = write_msgs-frames msgs h s in
      let rs = read_msgs-frames msgs h rest r front in (ws.0, rs.0, ws.1, ws.3, rs.1, rs.2)

-- One message either way, as a session uses the connection.
module _ {F : Type 0} (codec : Codec F) (st : Stream) (up : IsByteStream st) where
  open up use {pending, written}

  pub write_sendable :
      (m : Msg F) (g : IsSendable codec m) (s : st.S)
      → (s' : st.S) × (write_msg codec st m s ≡ (ok tt, s'))
        × (pending s' ≡ pending s)
        × (written s' ≡ written s ++ frame g.payload)
  write_sendable m g s = write_msg-frame codec st up m g.payload s g.encodes g.fits

  pub read_sendable :
      (m : Msg F) (g : IsSendable codec m) (rest : List ℕ) (s : st.S)
      → pending s ≡ frame g.payload ++ rest
      → (s' : st.S) × (read_msg codec st s ≡ (ok m, s'))
        × (pending s' ≡ rest)
        × (written s' ≡ written s)
  read_sendable m g rest s front =
      read_msg-frame codec st up m g.payload rest s g.decodes g.fits front
