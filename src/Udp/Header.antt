-- ===== src/Udp/Header.antt =====
-- The 16-byte datagram header of src/modes/udp.rs.
use andri.Common.{
  ℕ, ◌≤◌, ◌<◌, ◌≡◌, refl, List, ◌++◌, Option, none, some, length, take, drop, ltb, if◌then◌else◌,
  arith, IsU64, max, le→ltb, take-append, drop-append, length-append, length-drop,
}
use mathlib.Core.List.{append_assoc}
use mathlib.Core.Logic.{◌↔◌}
use mathlib.Core.Option
use andri.Proto.Messages.{Negotiate}
use andri.Bytes.{to_le, from_le, from_le-to_le, length-to_le}

abbrev pub header_len : ℕ
header_len = 16

-- The size of a datagram, the same on both sides.
abbrev pub packet_size : Negotiate → ℕ
packet_size neg = max (Option.get_or neg.packet_bytes 1472) header_len

-- `none` is the panic of a slice out of range.
unfoldable pub stamp : List ℕ → ℕ → ℕ → Option (List ℕ)
stamp buf seq send_ns =
    if ltb (length buf) 16 then none else some (to_le 8 seq ++ (to_le 8 send_ns ++ drop 16 buf))

unfoldable pub unstamp : List ℕ → Option (ℕ × ℕ)
unstamp buf =
    if ltb (length buf) header_len
    then none
    else some (from_le (take 8 buf), from_le (take 8 (drop 8 buf)))

-- A buffer of at least 16 bytes takes the stamp: its length and its bytes from 16 on stay, and
-- the receiver reads the same sequence number and time.
pub unstamp-stamp :
    (buf : List ℕ) (seq send_ns : ℕ)
    → IsU64 seq
    → IsU64 send_ns
    → header_len ≤ length buf
    → (out : List ℕ) × (stamp buf seq send_ns ≡ some out)
      × (length out ≡ length buf)
      × (drop header_len out ≡ drop header_len buf)
      × (unstamp out ≡ some (seq, send_ns))
unfolding stamp unstamp
unstamp-stamp buf seq send_ns hs hn fits =
    let a = to_le 8 seq in
    let b = to_le 8 send_ns in
    let la = length-to_le 8 seq in
    let lb = length-to_le 8 send_ns in
    let out = a ++ (b ++ drop 16 buf) in
    let lab : length (a ++ b) ≡ 16 = omega (arith, length-append a b) in
    let len : length out ≡ length buf = omega (
      arith,
      length-append a (b ++ drop 16 buf),
      length-append b (drop 16 buf),
      length-drop 16 buf,
    ) in
    (
      out,
      rw (le→ltb (length buf) 16 fits),
      len,
      rw (← append_assoc a b (drop 16 buf)) (drop-append 16 (a ++ b) (drop 16 buf) lab),
      rw
          (
            le→ltb (length out) 16 (omega arith),
            take-append 8 a (b ++ drop 16 buf) la,
            drop-append 8 a (b ++ drop 16 buf) la,
            take-append 8 b (drop 16 buf) lb,
            from_le-to_le 8 seq hs,
            from_le-to_le 8 send_ns hn,
          )
          refl,
    )

-- A datagram shorter than the header is never read, and every other one is.
pub unstamp-none_iff : (buf : List ℕ) → (unstamp buf ≡ none) ↔ (length buf < header_len)
unfolding unstamp
unstamp-none_iff buf = ground arith
