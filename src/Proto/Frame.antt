-- ===== src/Proto/Frame.antt =====
-- `write_msg` and `read_msg` of src/proto.rs.
use andri.Common.{ℕ, List, ◌++◌, length, ltb, u32, if◌then◌else◌}
use andri.Io.{ErrorKind, IoError, Io, ◌>>=◌, ◌>>◌, return, throw, lift}
use andri.Bytes.{to_be32, from_be32}
use andri.Proto.Messages.{Msg, max_frame_bytes}
use andri.Proto.Stream.{Stream, Codec}

abbrev pub exceeds_cap : IoError
exceeds_cap = IoError.new ErrorKind.invalid_data "control message exceeds MAX_FRAME_BYTES"

abbrev pub declared_exceeds_cap : IoError
declared_exceeds_cap =
    IoError.new ErrorKind.invalid_data "declared frame length exceeds MAX_FRAME_BYTES"

module _ {F : Type 0} (codec : Codec F) (st : Stream) where
  open codec use {to_vec, from_slice}
  open st use {S, read_exact, write_all, flush}

  unfoldable pub write_msg : Msg F → Io S (Unit {0})
  write_msg msg = do
    payload ← lift (to_vec msg)
    if ltb max_frame_bytes (length payload)
        then throw exceeds_cap
        else do write_all (to_be32 (u32 (length payload))); write_all payload; flush; return tt

  unfoldable pub read_msg : Io S (Msg F)
  read_msg = do
    len_buf ← read_exact 4
    let len = from_be32 len_buf
    if ltb max_frame_bytes len
        then throw declared_exceeds_cap
        else do payload ← read_exact len; lift (from_slice payload)

-- The bytes of one frame.
unfoldable pub frame : List ℕ → List ℕ
frame payload = to_be32 (length payload) ++ payload
