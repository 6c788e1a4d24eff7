-- ===== src/Pdu/Range.antt =====
-- pdu/range.go
pub mod Wire
use go_agentx.Prelude.{ℕ, ◌+◌, List, ◌++◌, Result, ok, ◌>>=◌, slice_from}
use go_agentx.Prelude.Words.{ByteOrder, little}
use go_agentx.Pdu.ObjectIdentifier
use go_agentx.Pdu.ObjectIdentifier.{ObjectIdentifier}

pub record Range : Type 0 where
  pub from : ObjectIdentifier
  pub to : ObjectIdentifier

abbrev pub byte_size : Range → ℕ
byte_size r = ObjectIdentifier.byte_size r.from + ObjectIdentifier.byte_size r.to

-- The ending OID goes out with its include field cleared.
unfoldable pub marshal_binary : Range → Result (List ℕ)
marshal_binary r = do
  from_bytes ← ObjectIdentifier.marshal_binary r.from
  to_bytes ← ObjectIdentifier.marshal_binary (record r.to { include = 0 })
  ok (from_bytes ++ to_bytes)

unfoldable pub unmarshal_binary_order : List ℕ → ByteOrder → Result Range
unmarshal_binary_order bytes order = do
  from ← ObjectIdentifier.unmarshal_binary_order bytes order
  rest ← slice_from bytes (ObjectIdentifier.byte_size from)
  to ← ObjectIdentifier.unmarshal_binary_order rest order
  ok (record { from = from; to = to })

-- `UnmarshalBinary`.
abbrev pub unmarshal_binary : List ℕ → Result Range
unmarshal_binary bytes = unmarshal_binary_order bytes little
