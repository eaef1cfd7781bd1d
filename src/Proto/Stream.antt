-- ===== src/Proto/Stream.antt =====
-- What src/proto.rs takes from outside: a byte stream (tokio's `AsyncReadExt` and `AsyncWriteExt`)
-- and the JSON of a message (serde_json). Both are parameters of the framing.
use andri.Common.{ℕ, ◌<◌, ◌≡◌, List, ◌++◌, length, String}
use andri.Io.{ErrorKind, IoError, IoResult, Io, ok, err}
use andri.Proto.Messages.{Msg}

pub record Stream : Type 1 where
  pub S : Type 0
  pub read_exact : ℕ → Io S (List ℕ)
  pub write_all : List ℕ → Io S (Unit {0})
  pub flush : Io S (Unit {0})

-- A connection that stays up, as its documentation describes it. `pending` is what the peer has
-- sent and closed with, still unread; `written` is what was sent to the peer.
pub record IsByteStream (st : Stream) : Type 0 where
  pub pending : st.S → List ℕ
  pub written : st.S → List ℕ
  pub read_full :
      (s : st.S) (bs rest : List ℕ)
      → pending s ≡ bs ++ rest
      → (s' : st.S) × (st.read_exact (length bs) s ≡ (ok bs, s'))
        × (pending s' ≡ rest)
        × (written s' ≡ written s)
  pub read_short :
      (s : st.S) (n : ℕ)
      → length (pending s) < n
      → (s' : st.S) × (text : String) × (st.read_exact n s
          ≡ (err (IoError.new ErrorKind.unexpected_eof text), s'))
        × (written s' ≡ written s)
  pub write_full :
      (s : st.S) (bs : List ℕ)
      → (s' : st.S) × (st.write_all bs s ≡ (ok tt, s'))
        × (pending s' ≡ pending s)
        × (written s' ≡ written s ++ bs)
  pub flush_full :
      (s : st.S)
      → (s' : st.S) × (st.flush s ≡ (ok tt, s'))
        × (pending s' ≡ pending s)
        × (written s' ≡ written s)

-- `serde_json::to_vec` and `serde_json::from_slice`, with their errors converted by `?`.
pub record Codec (F : Type 0) : Type 0 where
  pub to_vec : Msg F → IoResult (List ℕ)
  pub from_slice : List ℕ → IoResult (Msg F)
