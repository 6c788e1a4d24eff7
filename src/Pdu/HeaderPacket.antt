-- ===== src/Pdu/HeaderPacket.antt =====
-- pdu/header_packet.go
use go_agentx.Prelude.{ℕ, ◌^◌, ◌%◌, List, ◌++◌, length, Result, ok, ◌>>=◌}
use go_agentx.Pdu.Header
use go_agentx.Pdu.Header.{Header}
use go_agentx.Pdu.Packet
use go_agentx.Pdu.Packet.{Packet}

pub record HeaderPacket : Type 0 where
  pub header : Header
  pub packet : Packet

-- The header as `MarshalBinary` leaves it, for a payload of `n` bytes.
abbrev pub stamped : HeaderPacket → ℕ → Header
stamped hp n = record hp.header {
  version = Header.protocol_version;
  type = Packet.type_of hp.packet;
  payload_length = n % 2 ^ 32;
}

unfoldable pub marshal_binary : HeaderPacket → Result (List ℕ)
marshal_binary hp = do
  payload_bytes ← Packet.marshal_binary hp.packet
  ok (Header.marshal_binary (stamped hp (length payload_bytes)) ++ payload_bytes)
