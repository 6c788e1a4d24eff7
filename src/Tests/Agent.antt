-- ===== src/Tests/Agent.antt =====
-- The reader, the receiver and the searches of a session at concrete inputs.
use go_agentx.Prelude.{
  ◌%◌, ◌^◌, ℕ, zero, suc, ◌+◌, ◌≡◌, refl, none, List, [], ◌∷◌, ◌++◌, arith, length, map,
}
use go_agentx.Prelude.Int.{pos}
use go_agentx.Pdu.Header.{Header}
use go_agentx.Pdu.ObjectIdentifier
use go_agentx.Pdu.Range.{Range}
use go_agentx.Pdu.Variable.{int32, type_no_such_object}
use go_agentx.Pdu.Packet.{test_set}
use go_agentx.Pdu.HeaderPacket.{HeaderPacket}
use go_agentx.Client.Reader.{receive}
use go_agentx.Client.Reader.Framing.{IsFrame}
use go_agentx.Client.Reader.Loop.{
  Frame, frame_bytes, Receives, EndsByStream, receive_ends, receive-frames,
}
use go_agentx.Handler.{Answer, GoError, failed, found, pdu_error}
use go_agentx.Session.{search_loop, bindings}
use go_agentx.Session.Search.{binding_of, IsFailure, search_answers}

abbrev five_bytes : List ℕ
five_bytes = 1 ∷ 2 ∷ 3 ∷ 4 ∷ 5 ∷ []

-- A CommitSet with a payload, which it must not have.
abbrev pub bad_header : Header
bad_header = record {
  version = 1;
  type = 9;
  flags = 0;
  session_id = 5;
  transaction_id = 6;
  packet_id = 7;
  payload_length = 4;
}

abbrev pub bad_payload : List ℕ
bad_payload = 1 ∷ 2 ∷ 3 ∷ 4 ∷ []

pub bad_header-IsFrame : IsFrame bad_header bad_payload
bad_header-IsFrame = record {
  wire = record {
    version = omega arith;
    type = omega arith;
    flags = omega arith;
    session_id = omega arith;
    transaction_id = omega arith;
    packet_id = omega arith;
    payload_length = omega arith;
  };
  alignment = refl;
  size = omega arith;
  payload_length = refl;
}

-- A CommitSet, which has no payload.
abbrev commit_header : Header
commit_header = record bad_header { payload_length = 0 }

commit_header-IsFrame : IsFrame commit_header []
commit_header-IsFrame = record {
  wire = record {
    version = omega arith;
    type = omega arith;
    flags = omega arith;
    session_id = omega arith;
    transaction_id = omega arith;
    packet_id = omega arith;
    payload_length = omega arith;
  };
  alignment = refl;
  size = omega arith;
  payload_length = refl;
}

abbrev two_frames : List Frame
two_frames = (bad_header, bad_payload) ∷ (commit_header, []) ∷ []

receive-frames_example : Receives two_frames (receive 3 (frame_bytes two_frames))
receive-frames_example =
    receive-frames two_frames 3 (bad_header-IsFrame, (commit_header-IsFrame, tt)) (omega arith)

receive_ends_example : EndsByStream (receive 6 five_bytes)
receive_ends_example = receive_ends 6 five_bytes (omega arith)

abbrev whole_range : Range
whole_range = record { from = ObjectIdentifier.empty; to = ObjectIdentifier.empty }

-- A handler that finds ranges whose starting OID is inclusive, and refuses the others.
abbrev answer_of_include : ℕ → Answer
answer_of_include zero = failed (pdu_error 5)
answer_of_include (suc i) = found none 2 (int32 (pos 1))

abbrev answers : Range → Answer
answers r = answer_of_include r.from.include

abbrev including : Range
including = record whole_range { from = record ObjectIdentifier.empty { include = 1 } }

search_answers_example :
    ((search_loop
        (λ r h. (answers r, h))
        type_no_such_object
        (including ∷ including ∷ [])
        0
        []
        five_bytes).0
      ≡ bindings
          (map (λ r. binding_of type_no_such_object r (answers r)) (including ∷ including ∷ [])))
    × ((r : Range) (back : List Range) (err : GoError)
        → answers r ≡ failed err
        → IsFailure err
            ((length (including ∷ including ∷ []) + 1) % 2 ^ 16)
            (search_loop
              (λ x h. (answers x, h))
              type_no_such_object
              ((including ∷ including ∷ []) ++ (r ∷ back))
              0
              []
              five_bytes).0)
search_answers_example =
    search_answers (λ r h. (answers r, h)) type_no_such_object answers five_bytes (λ r. refl)
      (including ∷ including ∷ []) (tt, (tt, tt))

abbrev some_request : HeaderPacket
some_request = record { header = bad_header; packet = test_set [] }
