-- ===== src/Proto/Memory.antt =====
-- A connection in memory, as the tests of src/proto.rs use one (`Cursor<Vec<u8>>`): both
-- directions are lists of bytes. It shows that the laws of a byte stream can be met.
use andri.Common.{
  ℕ, ◌≤◌, ◌<◌, ◌≡◌, refl, ap, List, ◌++◌, length, take, drop, ltb, if◌then◌else◌, arith, lt→ltb,
  le→ltb, take-append, drop-append, length-append,
}
use andri.Io.{ErrorKind, IoError, Io, ok, err}
use andri.Proto.Stream.{Stream, IsByteStream}

pub record Connection : Type 0 where
  pub incoming : List ℕ
  pub outgoing : List ℕ

abbrev pub memory_read : ℕ → Io Connection (List ℕ)
memory_read n s =
    if ltb (length s.incoming) n
    then (err (IoError.new ErrorKind.unexpected_eof "failed to fill whole buffer"), s)
    else (ok (take n s.incoming), record s { incoming = drop n s.incoming })

abbrev pub memory : Stream
memory = record {
  S = Connection;
  read_exact = memory_read;
  write_all = λ bs s. (ok tt, record s { outgoing = s.outgoing ++ bs });
  flush = λ s. (ok tt, s);
}

pub memory_read_full :
    (s : Connection) (bs rest : List ℕ)
    → s.incoming ≡ bs ++ rest
    → memory_read (length bs) s ≡ (ok bs, record s { incoming = rest })
memory_read_full s bs rest e =
    let fits : length bs ≤ length s.incoming = omega (arith, ap length e, length-append bs rest) in
    rw
      (
        le→ltb (length s.incoming) (length bs) fits,
        e,
        take-append (length bs) bs rest refl,
        drop-append (length bs) bs rest refl,
      )
      refl

pub memory_read_short :
    (s : Connection) (n : ℕ)
    → length s.incoming < n
    → memory_read n s
      ≡ (err (IoError.new ErrorKind.unexpected_eof "failed to fill whole buffer"), s)
memory_read_short s n h = rw (lt→ltb (length s.incoming) n h)

abbrev pub memory-IsByteStream : IsByteStream memory
memory-IsByteStream = record {
  pending = λ s. s.incoming;
  written = λ s. s.outgoing;
  read_full =
      λ s bs rest e. (record s { incoming = rest }, memory_read_full s bs rest e, refl, refl);
  read_short = λ s n h. (s, "failed to fill whole buffer", memory_read_short s n h, refl);
  write_full = λ s bs. (record s { outgoing = s.outgoing ++ bs }, refl, refl, refl);
  flush_full = λ s. (s, refl, refl, refl);
}
