-- ===== src/Tests/Serving.antt =====
-- Two GetNexts of one range for a list handler with one item, from their bytes to the answers.
use go_agentx.Prelude.{ok, map, ℕ, ◌≡◌, refl, some, List, [], ◌∷◌, arith}
use go_agentx.Prelude.Int.{pos, to_uint32, quot}
use go_agentx.Prelude.Words.{put_uint16, put_uint32}
use go_agentx.Oid.{to_string, decimals, decimal, digits_onto, join, compare_oids}
use go_agentx.Pdu.Header
use go_agentx.Pdu.Header.{Header}
use go_agentx.Pdu.Header.Wire
use go_agentx.Pdu.ObjectIdentifier
use go_agentx.Pdu.ObjectIdentifier.Wire as OidWire
use go_agentx.Pdu.Range.{Range}
use go_agentx.Pdu.Range.Wire as RangeWire
use go_agentx.Pdu.Ranges
use go_agentx.Pdu.Variable
use go_agentx.Pdu.Variable.{Variable, int32, int_value, type_end_of_mib_view}
use go_agentx.Pdu.Variable.Value.{signed}
use go_agentx.Pdu.Variable.Encoded.{IsCarried}
use go_agentx.Pdu.Sequence.{marshal_all, concat_map}
use go_agentx.Pdu.Variables
use go_agentx.Pdu.Response
use go_agentx.Pdu.Response.{fixed_part}
use go_agentx.Client.Reader.Framing.{IsFrame}
use go_agentx.Client.Serving.{IsSmall}
use go_agentx.Client.Serving.Lists.{next_of}
use go_agentx.Client.Serving.Streams.{
  Asked, IsAsked, run_on, packets_of, request_frame, AreNextAnswers, at_rest,
}
use go_agentx.Client.Serving.Streams.Answers.{requests-AreServed}
use go_agentx.Client.Reader.{receive, stream_end, eof}
use go_agentx.Client.Reader.Loop.{frame_bytes}
use go_agentx.ListHandler.{handler, get_next, get, find_within, oid_within, lookup}
use go_agentx.Prelude.{list_eq}
use go_agentx.Session.Search.{binding_of}
use go_agentx.Tests.Oids.{one_item, one_item-IsValid}

abbrev everything : Range
everything = record { from = ObjectIdentifier.empty; to = ObjectIdentifier.empty }

abbrev ask_header : Header
ask_header = record {
  version = 1;
  type = 6;
  flags = 0;
  session_id = 5;
  transaction_id = 6;
  packet_id = 7;
  payload_length = 8;
}

ask_header-IsFrame :
    IsFrame ask_header (Ranges.layout (Header.byte_order ask_header.flags) (everything ∷ []))
unfolding Header.byte_order Ranges.layout RangeWire.layout OidWire.layout concat_map
    ObjectIdentifier.subidentifier_bytes
ask_header-IsFrame = record {
  wire = record {
    version = omega arith;
    type = omega arith;
    flags = omega arith;
    session_id = omega arith;
    transaction_id = omega arith;
    packet_id = omega arith;
    payload_length = omega arith;
  };
  alignment = refl;
  size = omega arith;
  payload_length = refl;
}

ask_header-IsAcceptable : Wire.IsAcceptable ask_header
ask_header-IsAcceptable = record { version = refl; alignment = refl; size = omega arith }

empty-IsWire : OidWire.IsWire ObjectIdentifier.empty
empty-IsWire = record {
  count = omega arith;
  prefix = omega arith;
  include = omega arith;
  subidentifiers = tt;
}

everything-IsWire : RangeWire.IsWire everything
everything-IsWire = record { from = empty-IsWire; to = empty-IsWire }

-- 1.3 with its item.
abbrev least : Variable
least = record {
  type = 2;
  name = record { prefix = 0; include = 0; subidentifiers = 1 ∷ 3 ∷ [] };
  value = int32 (pos 7);
}

answer-least :
    binding_of type_end_of_mib_view
      (RangeWire.exclusive everything)
      (next_of one_item (RangeWire.exclusive everything))
    ≡ least
unfolding get_next get find_within oid_within lookup to_string decimals decimal digits_onto join
    list_eq compare_oids Variable.new_variable ObjectIdentifier.set_identifier
    ObjectIdentifier.get_identifier ObjectIdentifier.get_include
answer-least = refl

least-IsCarried : IsCarried least
unfolding Variable.classify
least-IsCarried = (
  record {
    type = omega arith;
    name = record {
      count = omega arith;
      prefix = omega arith;
      include = omega arith;
      subidentifiers = (omega arith, (omega arith, tt));
    };
    value = omega arith;
  },
  signed (pos 7),
  refl,
  omega arith,
)

least-IsSmall : IsSmall (least ∷ [])
unfolding Response.marshal_binary Variables.marshal_binary marshal_all Variable.marshal_binary
    ObjectIdentifier.marshal_binary ObjectIdentifier.subidentifier_bytes Variable.marshal_value
    Variable.classify int_value fixed_part put_uint16 put_uint32 to_uint32 quot
least-IsSmall = omega arith

abbrev two_asked : List Asked
two_asked = (ask_header, everything ∷ []) ∷ (ask_header, everything ∷ []) ∷ []

request-IsAsked : IsAsked one_item (ask_header, everything ∷ [])
request-IsAsked = record {
  framed = ask_header-IsFrame;
  acceptable = ask_header-IsAcceptable;
  wire = (everything-IsWire, tt);
  type = refl;
  carried = (rw answer-least least-IsCarried, tt);
  small = rw answer-least least-IsSmall;
}

requests-AreServed_example :
    (frames : List (List ℕ)) × (run_on
        (some handler)
        (at_rest one_item [])
        (packets_of (receive 3 (frame_bytes (map request_frame two_asked))).0)
      ≡ ok frames)
    × AreNextAnswers one_item two_asked (receive 3 (concat_map (λ frame. frame) frames)).0
    × ((receive 3 (concat_map (λ frame. frame) frames)).1 ≡ stream_end eof)
requests-AreServed_example =
    requests-AreServed one_item one_item-IsValid [] two_asked 3
      (request-IsAsked, (request-IsAsked, tt)) (omega arith)
