-- ===== src/Tests/Dispatch.antt =====
-- The dispatcher, a session and its answer at concrete inputs.
use go_agentx.Prelude.{
  false, ◌++◌, ℕ, ◌≡◌, refl, Option, some, List, [], ◌∷◌, ok, length, arith, ◌<◌,
}
use go_agentx.Prelude.Dict.{find}
use go_agentx.Pdu.Header.{Header}
use go_agentx.Pdu.Packet.{test_set, response}
use go_agentx.Pdu.HeaderPacket.{HeaderPacket}
use go_agentx.Client.Replies.{reply_header, error_packet}
use go_agentx.Client.Dispatch.{
  Agent, fresh, dispatch, enqueue, run_one, dispatches, enqueues, runs, routes, Reach, start, next,
  incoming_queue_size,
}
use go_agentx.Client.Dispatch.Serial.{at_hand, answers_all, session_serial}
use go_agentx.Client.Dispatch.Answers.{AreRepliesTo, session-AreRepliesTo}
use go_agentx.Session.Transaction.{handle_all}
use go_agentx.Client.Sending.{frame_of, IsEncodingOf, IsFrameFor, reply_framed}
use go_agentx.Handler.{Handler}
use go_agentx.ListHandler.{ListHandler, empty, handler}
use go_agentx.Session.{
  State, handle, handle_packet, respond, handle_test_set, keep_accepted, test_loop,
}

abbrev request_header : Header
request_header = record {
  version = 1;
  type = 8;
  flags = 0;
  session_id = 5;
  transaction_id = 6;
  packet_id = 7;
  payload_length = 0;
}

abbrev request : HeaderPacket
request = record { header = request_header; packet = test_set [] }

abbrev handlers : ℕ → Option (Handler ListHandler)
handlers j = some handler

abbrev starts : ℕ → State ListHandler
starts j = record { handler_state = empty; pending = [] }

abbrev routed : Agent ListHandler
routed = record (fresh handlers starts) { routes = (5, 0) ∷ [] }

abbrev arrived : Agent ListHandler
arrived = dispatch request routed

abbrev queued : Agent ListHandler
queued = enqueue 0 request arrived

abbrev answered : Agent ListHandler
answered = run_one (some handler) 0 request [] queued

routed-Reach : Reach handlers starts routed
routed-Reach = next start (routes ((5, 0) ∷ []))

arrived-Reach : Reach handlers starts arrived
arrived-Reach = next routed-Reach (dispatches request refl refl)

arrived-hand : arrived.hand ≡ some (0, request)
unfolding dispatch find
arrived-hand = refl

arrived-room : length (arrived.queues 0) < incoming_queue_size
unfolding dispatch find
arrived-room = omega arith

queued-Reach : Reach handlers starts queued
queued-Reach = next arrived-Reach (enqueues 0 request arrived-hand arrived-room)

queued-queue : queued.queues 0 ≡ request ∷ []
unfolding dispatch find enqueue
queued-queue = refl

answered-Reach : Reach handlers starts answered
answered-Reach = next queued-Reach (runs 0 request [] queued-queue)

answered-open : answered.ended 0 ≡ false
unfolding dispatch find enqueue run_one
answered-open = refl

answered-undone : answered.requests.done ≡ false
unfolding dispatch find enqueue run_one
answered-undone = refl

session_serial_example :
    (hps : List HeaderPacket) × (answered.arrived 0
      ≡ hps ++ (answered.queues 0 ++ at_hand 0 answered.hand))
    × (answered.states 0 ≡ handle_all (some handler) hps (starts 0))
    × (answered.replies 0 ≡ answers_all (some handler) hps (starts 0))
session_serial_example =
    session_serial handlers starts 0 answered-Reach answered-open answered-undone

session-AreRepliesTo_example :
    (answered.arrived 0 ≡ answered.handled 0 ++ (answered.queues 0 ++ at_hand 0 answered.hand))
    × AreRepliesTo (answered.handled 0) (answered.replies 0)
session-AreRepliesTo_example =
    session-AreRepliesTo handlers starts 0 answered-Reach answered-open answered-undone

abbrev reply : HeaderPacket
reply = record { header = reply_header request_header; packet = response (error_packet 0) }

request-reply : (handle (some handler) request (starts 0)).0 ≡ some reply
unfolding handle handle_packet respond handle_test_set keep_accepted test_loop
request-reply = refl

reply_framed_example :
    (frame : List ℕ) × (frame_of reply ≡ ok (some frame))
    × IsEncodingOf reply frame
    × IsFrameFor request_header frame
reply_framed_example = reply_framed (some handler) request (starts 0) reply request-reply
