-- ===== src/Pdu/TestSet.antt =====
-- pdu/test_set.go, whose payload is that of pdu/variables.go.
use go_agentx.Prelude.{ℕ, List, Result}
use go_agentx.Prelude.Words.{ByteOrder, little}
use go_agentx.Pdu.Variable.{Variable}
use go_agentx.Pdu.Variables

abbrev pub marshal_binary : List Variable → Result (List ℕ)
marshal_binary vs = Variables.marshal_binary vs

abbrev pub unmarshal_binary_order : List ℕ → ByteOrder → Result (List Variable)
unmarshal_binary_order bytes order = Variables.unmarshal_binary_order bytes order

abbrev pub unmarshal_binary : List ℕ → Result (List Variable)
unmarshal_binary bytes = unmarshal_binary_order bytes little
