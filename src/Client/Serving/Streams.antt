-- ===== src/Client/Serving/Streams.antt =====
-- client.go and session.go from end to end for any number of requests: the stream on which they come, the
-- session, and the stream of its answers.
pub mod Answers
use go_agentx.Prelude.{
  ℕ, zero, suc, ◌+◌, ◌<◌, ◌≡◌, refl, sym, ap, ◌∙◌, Option, none, some, List, [], ◌∷◌, ◌++◌, map,
  length, All, arith, Result, ok, err, crash, ◌>>=◌, append_assoc,
}
use go_agentx.Pdu.Header
use go_agentx.Pdu.Header.{Header}
use go_agentx.Pdu.Header.Wire
use go_agentx.Pdu.Sequence.{concat_map}
use go_agentx.Pdu.Range.{Range}
use go_agentx.Pdu.Range.Wire as RangeWire
use go_agentx.Pdu.Ranges
use go_agentx.Pdu.Variable.{Variable, type_end_of_mib_view}
use go_agentx.Pdu.Variable.Encoded.{IsCarried}
use go_agentx.Pdu.Packet.{get_next, response, type_get_next}
use go_agentx.Pdu.HeaderPacket.{HeaderPacket}
use go_agentx.Pdu.Response.{Response}
use go_agentx.Client.Replies.{reply_header}
use go_agentx.Client.Reader.{
  Read, packet_read, read_header_packet, header_read, read_full, round, Event, delivered, answered,
  End, stream_end, eof, receive,
}
use go_agentx.Client.Reader.Framing.{IsFrame}
use go_agentx.Client.Reader.Loop.{Frame, frame_bytes}
use go_agentx.Client.Reader.Exchange.{read_valid, received}
use go_agentx.Client.Serving.{sent_for, IsSmall, IsAnswered, decode_get_next, sent_for-bindings}
use go_agentx.Client.Serving.Lists.{next_of, AreNextBindings, next-AllFound, next-AreNextBindings}
use go_agentx.Handler.{Handler}
use go_agentx.ListHandler.{ListHandler, handler}
use go_agentx.ListHandler.Next.{IsValid}
use go_agentx.Session.{
  State, PendingSets, handle, handle_packet, respond, context_of, ask_get_next, bindings,
}
use go_agentx.Session.Search.{binding_of, search_loop-AllFound}

-- The packets that the receiver delivers.
abbrev pub packets_of : List Event → List HeaderPacket
packets_of [] = []
packets_of (delivered hp ∷ es) = hp ∷ packets_of es
packets_of (answered r ∷ es) = packets_of es

abbrev pub with_frame : Option (List ℕ) → List (List ℕ) → List (List ℕ)
with_frame none frames = frames
with_frame (some frame) frames = frame ∷ frames

-- The frames that the loop of `run` sends for packets, one after the other.
unfoldable pub run_on :
    {H : Type 0} → Option (Handler H) → State H → List HeaderPacket → Result (List (List ℕ))
run_on h s [] = ok []
run_on h s (hp ∷ hps) =
    let (reply, s') = handle h hp s in
    let rest = run_on h s' hps in
    sent_for reply >>= (λ sent. rest >>= (λ frames. ok (with_frame sent frames)))

-- A GetNext as its header and its search ranges.
abbrev pub Asked : Type 0
Asked = Header × List Range

abbrev pub request_frame : Asked → Frame
request_frame (h, rs) = (h, Ranges.layout (Header.byte_order h.flags) rs)

abbrev pub shown : Asked → HeaderPacket
shown (h, rs) = record { header = h; packet = get_next (map RangeWire.exclusive rs) }

abbrev pub next_bindings : ListHandler → List Range → List Variable
next_bindings l rs =
    map (λ r. binding_of type_end_of_mib_view r (next_of l r)) (map RangeWire.exclusive rs)

-- The request fits the wire, and its answer can be encoded.
pub record IsAsked (l : ListHandler) (q : Asked) : Type 0 where
  pub framed : IsFrame q.0 (request_frame q).1
  pub acceptable : Wire.IsAcceptable q.0
  pub wire : All RangeWire.IsWire q.1
  pub type : q.0.type ≡ type_get_next
  pub carried : All IsCarried (next_bindings l q.1)
  pub small : IsSmall (next_bindings l q.1)

pub receive_next :
    (fuel : ℕ) (stream rest : List ℕ) (hp : HeaderPacket)
    → read_header_packet stream ≡ (packet_read hp, rest)
    → receive (suc fuel) stream ≡ (delivered hp ∷ (receive fuel rest).0, (receive fuel rest).1)
unfolding receive round
receive_next fuel stream rest hp e = rw e refl

pub receive_nothing : (fuel : ℕ) → 0 < fuel → receive fuel [] ≡ ([], stream_end eof)
unfolding receive read_header_packet header_read read_full round
receive_nothing zero n = absurd (omega arith)
receive_nothing (suc fuel) n = refl

pub receive_requests :
    (l : ListHandler) (qs : List Asked) (fuel : ℕ)
    → All (IsAsked l) qs
    → length qs < fuel
    → receive fuel (frame_bytes (map request_frame qs))
      ≡ (map (λ q. delivered (shown q)) qs, stream_end eof)
unfolding frame_bytes
receive_requests l [] fuel w n = receive_nothing fuel n
receive_requests l (q ∷ qs) zero w n = absurd (omega arith)
receive_requests l ((h, rs) ∷ qs) (suc fuel) w n =
    let rest : List ℕ = frame_bytes (map request_frame qs) in
    let payload : List ℕ = Ranges.layout (Header.byte_order h.flags) rs in
    let read : read_header_packet (Header.marshal_binary h ++ (payload ++ rest))
        ≡ (packet_read (shown (h, rs)), rest) =
      ap read_header_packet (sym (append_assoc (Header.marshal_binary h) payload rest))
      ∙ read_valid h payload rest w.0.framed w.0.acceptable
      ∙ ap (λ (r : Read). (r, rest)) (decode_get_next h rs w.0.type w.0.wire) in
    receive_next fuel _ rest (shown (h, rs)) read
    ∙ ap (λ (r : List Event × End). (delivered (shown (h, rs)) ∷ r.0, r.1))
        (receive_requests l qs fuel w.1 (omega arith))

-- What the receiver at the other end has of an answer.
abbrev pub IsNextAnswerEvent : ListHandler → Asked → Event → Type 0
IsNextAnswerEvent l q (answered r) = ⊥
IsNextAnswerEvent l q (delivered hp) =
    (vs : List Variable) × AreNextBindings l (map RangeWire.exclusive q.1) vs
    × (hp.packet ≡ response (received 0 (bindings vs)))
    × (hp.header.session_id ≡ q.0.session_id)
    × (hp.header.transaction_id ≡ q.0.transaction_id)
    × (hp.header.packet_id ≡ q.0.packet_id)

abbrev pub AreNextAnswers : ListHandler → List Asked → List Event → Type 0
AreNextAnswers l [] [] = Unit
AreNextAnswers l [] (e ∷ es) = ⊥
AreNextAnswers l (q ∷ qs) [] = ⊥
AreNextAnswers l (q ∷ qs) (e ∷ es) = IsNextAnswerEvent l q e × AreNextAnswers l qs es

abbrev pub at_rest : ListHandler → PendingSets → State ListHandler
at_rest l pending = record { handler_state = l; pending = pending }
