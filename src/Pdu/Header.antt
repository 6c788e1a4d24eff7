-- ===== src/Pdu/Header.antt =====
-- pdu/header.go: the 20-byte header.
pub mod Wire
use Prim.Native.Nat.{bit_and}
use go_agentx.Prelude.{
  ℕ, ◌+◌, ◌*◌, ◌%◌, ◌^◌, ◌≤◌, ◌<◌, ◌≡◌, List, [], ◌∷◌, ◌++◌, ltb, ◌==◌, if◌then◌else◌, length, drop,
  Result, ok, err, ◌>>=◌, ◌>>◌, byte_at, slice_from, short_buffer, bad_version, bad_alignment,
  payload_too_large,
}
use go_agentx.Prelude.Words.{ByteOrder, little, big, put_uint32, read_uint32}

pub record Header : Type 0 where
  pub version : ℕ
  pub type : ℕ
  pub flags : ℕ
  pub session_id : ℕ
  pub transaction_id : ℕ
  pub packet_id : ℕ
  pub payload_length : ℕ

abbrev pub header_size : ℕ
header_size = 20

abbrev pub protocol_version : ℕ
protocol_version = 1

abbrev pub max_payload_length : ℕ
max_payload_length = 2 ^ 20

abbrev pub flag_network_byte_order : ℕ
flag_network_byte_order = 16

-- `ByteOrder`: the network-byte-order flag chooses.
unfoldable pub byte_order : ℕ → ByteOrder
byte_order flags = if bit_and flags flag_network_byte_order == 0 then little else big

unfoldable pub marshal_binary : Header → List ℕ
marshal_binary h =
    let order = byte_order h.flags in
    h.version
    ∷ h.type
    ∷ h.flags
    ∷ 0
    ∷ (put_uint32 order h.session_id
        ++ (put_uint32 order h.transaction_id
            ++ (put_uint32 order h.packet_id ++ put_uint32 order h.payload_length)))

unfoldable pub validate : Header → Result (Unit {0})
validate h =
    if h.version == protocol_version
    then if h.payload_length % 4 == 0
      then if ltb max_payload_length h.payload_length then err payload_too_large else ok tt
      else err bad_alignment
    else err bad_version

-- The part of `UnmarshalBinary` that fills the header in, before the call of `Validate`.
unfoldable pub unmarshal_fields : List ℕ → Result Header
unmarshal_fields bytes = if ltb (length bytes) header_size then err short_buffer else do
  version ← byte_at bytes 0
  type ← byte_at bytes 1
  flags ← byte_at bytes 2
  buffer ← slice_from bytes 4
  (session_id, buffer) ← read_uint32 (byte_order flags) buffer
  (transaction_id, buffer) ← read_uint32 (byte_order flags) buffer
  (packet_id, buffer) ← read_uint32 (byte_order flags) buffer
  (payload_length, buffer) ← read_uint32 (byte_order flags) buffer
  ok (record {
    version = version;
    type = type;
    flags = flags;
    session_id = session_id;
    transaction_id = transaction_id;
    packet_id = packet_id;
    payload_length = payload_length;
  })

unfoldable pub unmarshal_binary : List ℕ → Result Header
unmarshal_binary bytes = do h ← unmarshal_fields bytes; validate h; ok h
