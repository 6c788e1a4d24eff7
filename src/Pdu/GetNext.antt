-- ===== src/Pdu/GetNext.antt =====
-- pdu/get_next.go, whose payload is that of pdu/ranges.go.
use go_agentx.Prelude.{ℕ, List, Result}
use go_agentx.Prelude.Words.{ByteOrder, little}
use go_agentx.Pdu.Range.{Range}
use go_agentx.Pdu.Ranges

abbrev pub marshal_binary : List Range → Result (List ℕ)
marshal_binary rs = Ranges.marshal_binary rs

abbrev pub unmarshal_binary_order : List ℕ → ByteOrder → Result (List Range)
unmarshal_binary_order bytes order = Ranges.unmarshal_binary_order bytes order

abbrev pub unmarshal_binary : List ℕ → Result (List Range)
unmarshal_binary bytes = unmarshal_binary_order bytes little
