-- ===== src/Tests/Exchange.antt =====
-- A response with one binding, under a header with the ids of a request.
use go_agentx.Prelude.{ℕ, ◌≤◌, ◌≡◌, refl, List, [], ◌∷◌, ◌++◌, ok, arith, length}
use go_agentx.Prelude.Int.{pos, to_uint32, quot}
use go_agentx.Prelude.Words.{put_uint16, put_uint32}
use go_agentx.Pdu.Header
use go_agentx.Pdu.Header.{Header, max_payload_length}
use go_agentx.Pdu.ObjectIdentifier
use go_agentx.Pdu.Variable
use go_agentx.Pdu.Variable.{Variable, int32, int_value}
use go_agentx.Pdu.Variable.Value.{signed}
use go_agentx.Pdu.Variable.Encoded.{IsCarried, ensured}
use go_agentx.Pdu.Sequence.{marshal_all}
use go_agentx.Pdu.Variables
use go_agentx.Pdu.Response
use go_agentx.Pdu.Response.{Response, fixed_part}
use go_agentx.Pdu.Packet.{response}
use go_agentx.Pdu.HeaderPacket
use go_agentx.Pdu.HeaderPacket.{stamped}
use go_agentx.Client.Reader.{packet_read, read_header_packet}
use go_agentx.Client.Reader.Exchange.{IsAnswering, received, read-response}

abbrev answer_header : Header
answer_header = record {
  version = 0;
  type = 0;
  flags = 0;
  session_id = 5;
  transaction_id = 6;
  packet_id = 7;
  payload_length = 0;
}

answer_header-IsAnswering : IsAnswering answer_header
unfolding Header.byte_order
answer_header-IsAnswering = record {
  flags = omega arith;
  order = refl;
  session_id = omega arith;
  transaction_id = omega arith;
  packet_id = omega arith;
}

abbrev one_value : Variable
one_value = record {
  type = 2;
  name = record { prefix = 4; include = 0; subidentifiers = 1 ∷ [] };
  value = int32 (pos 7);
}

one_value-IsCarried : IsCarried one_value
unfolding Variable.classify
one_value-IsCarried = (
  record {
    type = omega arith;
    name = record {
      count = omega arith;
      prefix = omega arith;
      include = omega arith;
      subidentifiers = (omega arith, tt);
    };
    value = omega arith;
  },
  signed (pos 7),
  refl,
  omega arith,
)

abbrev one_answer : Response
one_answer = record { up_time = pos 10000000; error = 0; index = 0; variables = one_value ∷ [] }

one_answer-small :
    (payload : List ℕ)
    → Response.marshal_binary one_answer ≡ ok payload
    → length payload ≤ max_payload_length
unfolding Response.marshal_binary Variables.marshal_binary marshal_all Variable.marshal_binary
    ObjectIdentifier.marshal_binary ObjectIdentifier.subidentifier_bytes Variable.marshal_value
    Variable.classify int_value fixed_part put_uint16 put_uint32 to_uint32 quot
one_answer-small payload e =
    ensured (λ bs. length bs ≤ max_payload_length) (Response.marshal_binary one_answer) payload e
      (omega arith)

read-response_example :
    (payload : List ℕ) × (bytes : List ℕ) × (HeaderPacket.marshal_binary
        (record { header = answer_header; packet = response one_answer })
      ≡ ok bytes)
    × (read_header_packet (bytes ++ (1 ∷ 2 ∷ [])) ≡ (
      packet_read (record {
        header =
            stamped
              (record { header = answer_header; packet = response one_answer })
              (length payload);
        packet = response (received 10000000 one_answer);
      }),
      1 ∷ 2 ∷ [],
    ))
read-response_example =
    read-response answer_header 10000000 one_answer (1 ∷ 2 ∷ []) answer_header-IsAnswering refl
      (omega arith) (omega arith) (omega arith) (one_value-IsCarried, tt) one_answer-small
