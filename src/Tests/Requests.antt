-- ===== src/Tests/Requests.antt =====
-- A call of `request` from its start to its end, with the response to it.
use go_agentx.Prelude.{ℕ, true, ◌^◌, ◌≤◌, ◌≡◌, refl, none, some, List, [], ◌∷◌, arith, ok}
use go_agentx.Prelude.Int.{pos}
use go_agentx.Prelude.Dict.{find, insert}
use go_agentx.Prelude.Words.{put_uint32}
use go_agentx.Pdu.Header
use go_agentx.Pdu.Header.{Header}
use go_agentx.Pdu.Administrative
use go_agentx.Pdu.Packet
use go_agentx.Pdu.Packet.{Packet, close, response}
use go_agentx.Pdu.HeaderPacket
use go_agentx.Pdu.HeaderPacket.{HeaderPacket}
use go_agentx.Client.Requests.{
  Requests, none_begun, begin, after_encoding, add_pending, send_frame, match_response,
  take_pending, deliver, receive, leave, with_packet_id, packet_id_of, got, returned, waiting,
  leaving, listed, numbered, Step, begins, encodes, sends, matches, delivers, receives, leaves,
  Reach, start, next, ready,
}
use go_agentx.Client.Requests.Tables.{IsAnswerTo}
use go_agentx.Client.Requests.Kept.{response_matched}
use go_agentx.Client.Requests.Progress.{
  returned-IsAnswerTo, delivery_free, call-Returns, Returns, has_begun,
}

abbrev request_header : Header
request_header = record {
  version = 0;
  type = 2;
  flags = 0;
  session_id = 5;
  transaction_id = 0;
  packet_id = 0;
  payload_length = 0;
}

abbrev request : HeaderPacket
request = record { header = request_header; packet = close 5 }

abbrev answer : HeaderPacket
answer = record {
  header = record request_header { type = 18 };
  packet = response (record { up_time = pos 0; error = 0; index = 0; variables = [] });
}

abbrev frame : List ℕ
frame =
    1 ∷ 2 ∷ 0 ∷ 0 ∷ 5 ∷ 0 ∷ 0 ∷ 0 ∷ 0 ∷ 0 ∷ 0 ∷ 0 ∷ 0 ∷ 0 ∷ 0 ∷ 0 ∷ 4 ∷ 0 ∷ 0 ∷ 0 ∷ 5 ∷ 0 ∷ 0 ∷ 0
    ∷ []

abbrev made : Requests
made = begin request none_begun

abbrev encoded : Requests
encoded = after_encoding 0 (ok frame) made

abbrev in_wait : Requests
in_wait = send_frame 0 frame encoded

abbrev matched : Requests
matched = match_response answer in_wait

abbrev delivered : Requests
delivered = deliver 0 answer matched

abbrev received : Requests
received = receive 0 answer delivered

abbrev ended : Requests
ended = leave 0 (got answer) received

request-frame : HeaderPacket.marshal_binary (with_packet_id (packet_id_of 0) request) ≡ ok frame
unfolding HeaderPacket.marshal_binary Packet.marshal_binary Header.marshal_binary Packet.type_of
    Header.byte_order put_uint32 Administrative.marshal_close
request-frame = refl

made-Reach : Reach made
made-Reach = next start (begins request)

made-call : made.calls 0 ≡ numbered (with_packet_id (packet_id_of 0) request)
unfolding begin
made-call = refl

encoded-Reach : Reach encoded
encoded-Reach =
    rw request-frame at
      (next made-Reach (encodes 0 (with_packet_id (packet_id_of 0) request) made-call))

encoded-call : encoded.calls 0 ≡ listed frame
unfolding begin after_encoding add_pending
encoded-call = refl

encoded-ready : encoded.transmitter ≡ ready
unfolding begin after_encoding add_pending
encoded-ready = refl

in_wait-Reach : Reach in_wait
in_wait-Reach = next encoded-Reach (sends 0 frame encoded-call encoded-ready)

in_wait-free : in_wait.delivering ≡ none
unfolding begin after_encoding add_pending send_frame
in_wait-free = refl

matched-Reach : Reach matched
matched-Reach = next in_wait-Reach (matches answer in_wait-free refl)

matched-hand : matched.delivering ≡ some (0, answer)
unfolding begin after_encoding add_pending send_frame match_response take_pending find insert
matched-hand = refl

matched-room : matched.chans 0 ≡ none
unfolding begin after_encoding add_pending send_frame match_response take_pending find insert
matched-room = refl

delivered-Reach : Reach delivered
delivered-Reach = next matched-Reach (delivers 0 answer matched-hand matched-room)

delivered-call : delivered.calls 0 ≡ waiting
unfolding begin after_encoding add_pending send_frame match_response take_pending find insert
    deliver
delivered-call = refl

delivered-chan : delivered.chans 0 ≡ some answer
unfolding deliver
delivered-chan = refl

received-Reach : Reach received
received-Reach = next delivered-Reach (receives 0 answer delivered-call delivered-chan)

received-call : received.calls 0 ≡ leaving (got answer)
unfolding receive
received-call = refl

ended-Reach : Reach ended
ended-Reach = next received-Reach (leaves 0 (got answer) received-call)

ended-call : ended.calls 0 ≡ returned (got answer)
unfolding leave take_pending
ended-call = refl

made-begun : has_begun (made.calls 0) ≡ true
unfolding begin
made-begun = refl

few : in_wait.begun ≤ 2 ^ 32
unfolding begin after_encoding add_pending send_frame
few = omega arith

in_wait-call : in_wait.calls 0 ≡ waiting
unfolding send_frame
in_wait-call = refl

in_wait-room : in_wait.chans 0 ≡ none
unfolding begin after_encoding add_pending send_frame
in_wait-room = refl

returned-IsAnswerTo_example : IsAnswerTo ended.begun 0 answer
returned-IsAnswerTo_example = returned-IsAnswerTo ended-Reach 0 answer ended-call

delivery_free_example : Step matched (deliver 0 answer matched)
delivery_free_example = delivery_free matched-Reach 0 answer matched-hand

call-Returns_example : Returns 0 5 made
call-Returns_example = call-Returns made-Reach 0 made-begun

response_matched_example : (match_response answer in_wait).delivering ≡ some (0, answer)
response_matched_example =
    response_matched in_wait-Reach few 0 answer in_wait-call in_wait-room in_wait-free refl
