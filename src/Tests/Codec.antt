-- ===== src/Tests/Codec.antt =====
-- The encoders and decoders at concrete inputs.
use go_agentx.Prelude.{ℕ, ◌*◌, ◌/◌, ◌≡◌, refl, List, [], ◌∷◌, ◌++◌, arith, ok, Ensures, map}
use go_agentx.Prelude.Int.{pos}
use go_agentx.Prelude.Words.{little}
use go_agentx.Pdu.Header
use go_agentx.Pdu.Header.{Header, header_size, byte_order}
use go_agentx.Pdu.Header.Wire as HeaderWire
use go_agentx.Pdu.ObjectIdentifier
use go_agentx.Pdu.ObjectIdentifier.{ObjectIdentifier, max_subidentifiers}
use go_agentx.Pdu.ObjectIdentifier.Wire as Oi
use go_agentx.Pdu.Range.{Range}
use go_agentx.Pdu.Range.Wire as RangeWire
use go_agentx.Pdu.Ranges
use go_agentx.Pdu.Timeout
use go_agentx.Pdu.Timeout.{Timeout, second}
use go_agentx.Pdu.Variable
use go_agentx.Pdu.Variable.{
  Variable, GoValue, int32, text, oid, integer, type_time_ticks, time_tick, Syntax,
}
use go_agentx.Pdu.Variable.Wire as VariableWire
use go_agentx.Pdu.Variable.Encoded.{IsCarried, variable_encoded}
use go_agentx.Pdu.Variable.Value.{signed, name}
use go_agentx.Pdu.Response
use go_agentx.Pdu.Response.{Response}
use go_agentx.Pdu.Notify
use go_agentx.Pdu.Notify.{Notify, oid_snmp_trap_oid}
use go_agentx.Pdu.Notify.Encoded.{IsReceivedAs, notify_roundtrip}
use go_agentx.Pdu.Administrative.{Open, Registration}
use go_agentx.Pdu.Packet
use go_agentx.Pdu.Packet.{
  HasType, packet_for_type, type_of, packet_for_type-HasType, unmarshal_packet-HasType,
}

abbrev some_name : ObjectIdentifier
some_name = record { prefix = 4; include = 1; subidentifiers = 1 ∷ 20 ∷ 4000000000 ∷ [] }

some_name-IsWire : Oi.IsWire some_name
some_name-IsWire = record {
  count = omega arith;
  prefix = omega arith;
  include = omega arith;
  subidentifiers = (omega arith, (omega arith, (omega arith, tt)));
}

abbrev five_bytes : List ℕ
five_bytes = 1 ∷ 2 ∷ 3 ∷ 4 ∷ 5 ∷ []

abbrev some_header : Header
some_header = record {
  version = 1;
  type = 18;
  flags = 16;
  session_id = 5;
  transaction_id = 6;
  packet_id = 7;
  payload_length = 8;
}

some_header-IsWire : HeaderWire.IsWire some_header
some_header-IsWire = record {
  version = omega arith;
  type = omega arith;
  flags = omega arith;
  session_id = omega arith;
  transaction_id = omega arith;
  packet_id = omega arith;
  payload_length = omega arith;
}

some_header-IsAcceptable : HeaderWire.IsAcceptable some_header
some_header-IsAcceptable = record { version = refl; alignment = refl; size = omega arith }

unmarshal-marshal_example :
    Header.unmarshal_binary (Header.marshal_binary some_header ++ five_bytes) ≡ ok some_header
unmarshal-marshal_example =
    HeaderWire.unmarshal-marshal some_header five_bytes some_header-IsWire some_header-IsAcceptable

some_name_bytes : ObjectIdentifier.marshal_binary some_name ≡ ok (Oi.layout little some_name)
some_name_bytes = Oi.marshal-layout some_name (omega arith)

abbrev some_range : Range
some_range = record { from = some_name; to = ObjectIdentifier.empty }

some_range-IsWire : RangeWire.IsWire some_range
some_range-IsWire = record {
  from = some_name-IsWire;
  to = record {
    count = omega arith;
    prefix = omega arith;
    include = omega arith;
    subidentifiers = tt;
  };
}

ranges_roundtrip_example :
    (bytes : List ℕ) × (Ranges.marshal_binary (some_range ∷ []) ≡ ok bytes)
    × (Ranges.unmarshal_binary_order bytes little ≡ ok (map RangeWire.exclusive (some_range ∷ [])))
ranges_roundtrip_example = Ranges.ranges_roundtrip (some_range ∷ []) (some_range-IsWire, tt)

abbrev some_variable : Variable
some_variable = record { type = 2; name = some_name; value = int32 (pos 7) }

some_variable-IsGoVariable : VariableWire.IsGoVariable some_variable
some_variable-IsGoVariable = record {
  type = omega arith;
  name = some_name-IsWire;
  value = omega arith;
}

abbrev some_response : Response
some_response = record {
  up_time = pos 1234567890;
  error = 5;
  index = 1;
  variables = some_variable ∷ [];
}

some_variable-IsCarried : IsCarried some_variable
unfolding Variable.classify
some_variable-IsCarried = (some_variable-IsGoVariable, signed (pos 7), refl, omega arith)

variable_encoded_example :
    (bytes : List ℕ) × (Variable.marshal_binary some_variable ≡ ok bytes)
    × VariableWire.ReadsBack some_variable bytes
variable_encoded_example = variable_encoded some_variable some_variable-IsCarried

response_encoded_example :
    (bytes : List ℕ) × (Response.marshal_binary some_response ≡ ok bytes)
    × (Response.unmarshal_binary_order bytes little
        ≡ ok (record {
          up_time = pos (1234567890 / time_tick * time_tick);
          error = 5;
          index = 1;
          variables = map VariableWire.received (some_variable ∷ []);
        }))
response_encoded_example =
    Response.response_encoded 1234567890 some_response refl (omega arith) (omega arith)
      (omega arith) (some_variable-IsCarried, tt)

unmarshal_response-Ensures_example :
    Ensures (λ _. Unit) (Response.unmarshal_binary_order five_bytes little)
unmarshal_response-Ensures_example =
    Response.unmarshal_response-Ensures five_bytes little (omega arith)

abbrev trap_variable : Variable
trap_variable = Variable.new_variable oid_snmp_trap_oid 6 (oid (1 ∷ 3 ∷ []))

trap_variable-IsGoVariable : VariableWire.IsGoVariable trap_variable
unfolding Variable.new_variable ObjectIdentifier.set_identifier
trap_variable-IsGoVariable = record {
  type = omega arith;
  name = record {
    count = omega arith;
    prefix = omega arith;
    include = omega arith;
    subidentifiers = ground arith;
  };
  value = (omega arith, (omega arith, tt));
}

trap_variable-IsCarried : IsCarried trap_variable
unfolding Variable.classify Variable.new_variable
trap_variable-IsCarried = (
  trap_variable-IsGoVariable,
  name (1 ∷ 3 ∷ []),
  refl,
  (omega arith, (omega arith, (omega arith, tt))),
)

trap_variable-IsNamed : Notify.IsNamed oid_snmp_trap_oid trap_variable
unfolding Variable.new_variable ObjectIdentifier.set_identifier ObjectIdentifier.get_identifier
trap_variable-IsNamed = refl

abbrev some_notify : Notify
some_notify = record { timestamp = pos 1234567890; variables = trap_variable ∷ [] }

notify_roundtrip_example :
    (bytes : List ℕ) × (m : Notify) × (Notify.marshal_binary some_notify ≡ ok bytes)
    × (Notify.unmarshal_binary_order bytes little ≡ ok m)
    × IsReceivedAs 1234567890 (trap_variable ∷ []) m
notify_roundtrip_example =
    notify_roundtrip some_notify 1234567890 trap_variable [] refl (omega arith) refl
      trap_variable-IsNamed (trap_variable-IsCarried, tt)

unmarshal_notify-Ensures_example :
    Ensures (λ _. Unit) (Notify.unmarshal_binary_order five_bytes little)
unmarshal_notify-Ensures_example = Notify.unmarshal_notify-Ensures five_bytes little (omega arith)

abbrev some_open : Open
some_open = record {
  timeout = record { duration = pos 90500000000; priority = 0 };
  id = some_name;
  description = record { text = 97 ∷ 98 ∷ [] };
}

abbrev some_registration : Registration
some_registration = record {
  timeout = record { duration = pos 90500000000; priority = 127 };
  subtree = some_name;
}

timeout_roundtrip_example :
    (bytes : List ℕ) × (Timeout.marshal_binary
        (record { duration = pos 90500000000; priority = 127 })
      ≡ ok bytes)
    × (Timeout.unmarshal_binary (bytes ++ five_bytes)
        ≡ ok (record { duration = pos (90500000000 / second * second); priority = 127 }))
timeout_roundtrip_example = Timeout.timeout_roundtrip 90500000000 127 five_bytes (omega arith)

unmarshal_packet-HasType_example :
    Ensures
      (HasType (type_of Packet.commit_set))
      (Packet.unmarshal_packet Packet.commit_set five_bytes little)
unmarshal_packet-HasType_example =
    unmarshal_packet-HasType Packet.commit_set five_bytes little tt (omega arith)
