-- ===== src/Pdu/OctetString.antt =====
-- pdu/octet_string.go. The text is the list of its octets.
pub mod Wire
use go_agentx.Prelude.{
  ℕ, ◌+◌, ◌-◌, ◌%◌, ◌^◌, List, ◌++◌, ltb, if◌then◌else◌, length, replicate, Result, ok, err, ◌>>=◌,
  slice, short_buffer, length_exceeds,
}
use go_agentx.Prelude.Words.{ByteOrder, little, put_uint32, uint32}

pub record OctetString : Type 0 where
  pub text : List ℕ

abbrev pub padding : ℕ → ℕ
padding length = (4 - length % 4) % 4

abbrev pub octet_string_size : ℕ → ℕ
octet_string_size text_length = 4 + text_length + padding text_length

abbrev pub byte_size : OctetString → ℕ
byte_size o = octet_string_size (length o.text)

-- `MarshalBinary`, which never fails; the length is converted to a uint32.
unfoldable pub marshal_binary : OctetString → List ℕ
marshal_binary o =
    put_uint32 little (length o.text % 2 ^ 32) ++ (o.text ++ replicate (padding (length o.text)) 0)

-- The end of the slice `data[4 : 4+length]` is computed as a uint32.
unfoldable pub unmarshal_binary_order : List ℕ → ByteOrder → Result OctetString
unmarshal_binary_order bytes order = if ltb (length bytes) 4 then err short_buffer else do
  length' ← uint32 order bytes
  if ltb (length bytes - 4) length'
      then err length_exceeds
      else do text ← slice bytes 4 ((4 + length') % 2 ^ 32); ok (record { text = text })

-- `UnmarshalBinary`.
abbrev pub unmarshal_binary : List ℕ → Result OctetString
unmarshal_binary bytes = unmarshal_binary_order bytes little
