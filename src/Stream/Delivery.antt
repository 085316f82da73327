-- ===== src/Stream/Delivery.antt =====
-- The packets that a stream writes.
use obscura_proto.Common.{ℕ, ◌<◌, ◌≡◌, refl, List, ◌++◌, none, some, lt→ltb, length}
use obscura_proto.Common.Words.{IsU32}
use obscura_proto.Endian.{Host}
use obscura_proto.Packet.OpCode
use obscura_proto.Packet.Builder
use obscura_proto.Packet.Builder.{add_param, scalar_bytes, uint32, build}
use obscura_proto.Packet.Framing.{frame, extend, add_param-frame}
use obscura_proto.WsServer.Messages.{add_id}
use obscura_proto.Stream.{Stream, write, id_packet}

module _ (w : Host) (s : Stream) (small : IsU32 s.stream_id) where
  -- The frame of the id, which starts the parameters of every packet of the stream.
  abbrev pub id_frame : List ℕ
  id_frame = frame (scalar_bytes w uint32 s.stream_id)

  pub write-sent :
      (bytes : List ℕ)
      → length bytes < 65536
      → write w s bytes
        ≡ some (record { op_code = OpCode.stream_data; parameters = id_frame ++ frame bytes })
  unfolding write Builder.new build
  write-sent bytes fits =
      rw
        (
          add_id w w s.stream_id small (Builder.new OpCode.stream_data),
          add_param-frame w (extend (Builder.new OpCode.stream_data) id_frame) bytes fits,
        )
        refl

  pub id_packet-sent :
      (op_code : ℕ)
      → id_packet w op_code s ≡ some (record { op_code = op_code; parameters = id_frame })
  unfolding id_packet Builder.new build
  id_packet-sent op_code = rw (add_id w w s.stream_id small (Builder.new op_code)) refl

  -- Longer bytes are not sent, and write does not fail.
  pub write-long : (bytes : List ℕ) → 65535 < length bytes → write w s bytes ≡ none
  unfolding write add_param
  write-long bytes long =
      rw
        (
          add_id w w s.stream_id small (Builder.new OpCode.stream_data),
          lt→ltb 65535 (length bytes) long,
        )
        refl
