-- ===== src/Proto/Replay.antt =====
-- The tests of src/proto.rs: the messages, one of each variant, in f64 of any kind, and frames.
use andri.Common.{
  ℕ, ◌+◌, ◌-◌, ◌≡◌, refl, some, none, List, [], ◌∷◌, ◌++◌, true, All, length, take, drop,
}
use andri.Io.{IoResult, ok, err}
use andri.Bytes.{to_be32, from_be32}
use andri.Proto.Frame.{declared_exceeds_cap, write_msg, read_msg}
use andri.Proto.Memory.{Connection, memory}
use andri.Proto.Messages.{Mode, RoleDir, ProtoError, Msg, protocol_version, max_frame_bytes}
use andri.Proto.Stream.{Stream, IsByteStream, Codec}
use andri.Proto.Sequence.{IsSendable, frames, write_msgs, read_msgs, read_msgs-write_msgs}

module _ {F : Type 0} (number : ℕ → ℕ → F) where
  abbrev pub sample_negotiate : Msg F
  sample_negotiate = Msg.negotiate (record {
    mode = Mode.udp;
    duration_secs = 10;
    warmup_secs = 1;
    parallel = 4;
    buffer_bytes = 65536;
    bidir = true;
    bitrate_bps = some 1_000_000_000;
    packet_bytes = some 1472;
    file_len = none;
    null_source = none;
  })

  -- `number` makes the f64 of a whole part and hundredths.
  abbrev pub sample_result : Msg F
  sample_result = Msg.result (record {
    role = RoleDir.receive;
    bytes = 1234;
    duration_secs = number 10 0;
    bits_per_sec = number 987 60;
    bytes_per_sec = number 123 40;
    packets_expected = some 100;
    packets_received = some 98;
    packets_lost = some 2;
    loss_ratio = some (number 0 2);
    jitter_ms = some (number 0 50);
    samples =
        record {
          t_secs = number 1 0;
          bytes = 100;
          bits_per_sec = number 800 0;
          packets_lost = some 1;
          jitter_ms = some (number 0 40);
        }
        ∷ [];
  })

  abbrev pub all_variants : List (Msg F)
  all_variants =
      Msg.hello
        (record { protocol_version = protocol_version; client_version = "0.1.0"; nonce = 42 })
      ∷ Msg.welcome (record {
        protocol_version = protocol_version;
        server_version = "0.1.0";
        nonce = 42;
        accepted = true;
      })
      ∷ sample_negotiate
      ∷ Msg.start (record { data_port = 5202; server_seed = 7 })
      ∷ Msg.run
      ∷ Msg.stop
      ∷ sample_result
      ∷ Msg.error ProtoError.version_mismatch
      ∷ []

  module _ (codec : Codec F) (st : Stream) (up : IsByteStream st) where
    open up use {pending, written}

    -- Each variant that serde_json encodes and decodes comes back as it was, one after the other.
    roundtrip_all_variants :
        (h : All (IsSendable codec) all_variants) (s r : st.S)
        → pending r ≡ frames codec all_variants h ++ []
        → (s' r' : st.S) × (write_msgs codec st all_variants s ≡ (ok tt, s'))
          × (written s' ≡ written s ++ frames codec all_variants h)
          × (read_msgs codec st 8 r ≡ (ok all_variants, r'))
          × (pending r' ≡ [])
    roundtrip_all_variants h s r front =
        read_msgs-write_msgs codec st up all_variants h [] s r front

-- `{"type":"Run"}`.
abbrev run_json : List ℕ
run_json =
    b'{' ∷ b'"' ∷ b't' ∷ b'y' ∷ b'p' ∷ b'e' ∷ b'"' ∷ b':' ∷ b'"' ∷ b'R' ∷ b'u' ∷ b'n' ∷ b'"' ∷ b'}'
    ∷ []

abbrev nothing : Connection
nothing = record { incoming = []; outgoing = [] }

module _ {F : Type 0} (codec : Codec F) where
  abbrev pub run_framed : List ℕ
  run_framed = (write_msg codec memory Msg.run nothing).1.outgoing

  -- Where serde_json writes `Run` as above, the prefix is the length of the payload after it.
  frame_has_be_length_prefix :
      codec.to_vec Msg.run ≡ ok run_json
      → (from_be32 (take 4 run_framed) ≡ length run_framed - 4) × (drop 4 run_framed ≡ run_json)
  unfolding write_msg to_be32 from_be32
  frame_has_be_length_prefix json = rw json (refl, refl)

  -- The header of a frame one byte too long, and the bytes of "ignored".
  abbrev framed : List ℕ
  framed = to_be32 (max_frame_bytes + 1) ++ (b'i' ∷ b'g' ∷ b'n' ∷ b'o' ∷ b'r' ∷ b'e' ∷ b'd' ∷ [])

  abbrev pub oversized_read : IoResult (Msg F) × Connection
  oversized_read = read_msg codec memory (record { incoming = framed; outgoing = [] })

  oversized_declared_length_is_rejected :
      (oversized_read.0 ≡ err declared_exceeds_cap) × (length (oversized_read.1.incoming) ≡ 7)
  unfolding read_msg to_be32 from_be32
  oversized_declared_length_is_rejected = (refl, refl)
