-- ===== src/Client/Serving.antt =====
-- client.go and session.go from end to end: a request on the stream, the session's handling of it, and
-- the frame of the answer.
pub mod Lists
pub mod Streams
use go_agentx.Prelude.{
  ℕ, ◌≤◌, ◌≡◌, refl, ap, ◌∙◌, Option, none, some, List, [], ◌∷◌, ◌++◌, map, Ensures, Result, ok,
  err, crash, All, arith, length,
}
use go_agentx.Prelude.Int.{pos}
use go_agentx.Prelude.Words.{little}
use go_agentx.Pdu.Header
use go_agentx.Pdu.Header.{Header, max_payload_length}
use go_agentx.Pdu.Header.Wire
use go_agentx.Pdu.Range.{Range}
use go_agentx.Pdu.Range.Wire as RangeWire
use go_agentx.Pdu.Ranges
use go_agentx.Pdu.Variable.{Variable, type_no_such_object, type_end_of_mib_view}
use go_agentx.Pdu.Variable.Encoded.{IsCarried, ensured}
use go_agentx.Pdu.Response
use go_agentx.Pdu.Response.{Response}
use go_agentx.Pdu.Packet.{
  Packet, get, get_next, response, type_get, type_get_next, packet_for_type, unmarshal_packet,
}
use go_agentx.Pdu.HeaderPacket
use go_agentx.Pdu.HeaderPacket.{HeaderPacket, stamped}
use go_agentx.Client.Replies.{reply_header, parse_error_response}
use go_agentx.Client.Reader.{
  Read, packet_read, parse_failed, stopped, crashed, read_header_packet, decode_payload,
}
use go_agentx.Client.Reader.Framing.{IsFrame}
use go_agentx.Client.Reader.Exchange.{IsAnswering, read_valid, read-response, received}
use go_agentx.Client.Sending.{frame_of}
use go_agentx.Handler.{Handler, Answer}
use go_agentx.Session.{
  State, handle, handle_packet, respond, context_of, ask_get, ask_get_next, search_loop, bindings,
}
use go_agentx.Session.Search.{binding_of, AllFound, search_loop-front, all_found}

-- The frame that is sent for an answer, if there is one.
abbrev pub sent_for : Option HeaderPacket → Result (Option (List ℕ))
sent_for none = ok none
sent_for (some reply) = frame_of reply

-- What is sent for the first packet of the stream, which is for a session in the state `s`.
unfoldable pub serve :
    {H : Type 0} → Option (Handler H) → State H → List ℕ → Result (Option (List ℕ))
serve handler s stream = elim (read_header_packet stream).0 [
  | packet_read hp ↦ sent_for (handle handler hp s).0
  | parse_failed h e ↦ sent_for (parse_error_response h)
  | stopped e ↦ ok none
  | crashed c ↦ crash c
]

pub decode_get_next :
    (h : Header) (rs : List Range)
    → h.type ≡ type_get_next
    → All RangeWire.IsWire rs
    → decode_payload h (Ranges.layout (Header.byte_order h.flags) rs)
      ≡ packet_read (record { header = h; packet = get_next (map RangeWire.exclusive rs) })
unfolding decode_payload packet_for_type unmarshal_packet
decode_get_next h rs t w = rw (t, Ranges.unmarshal-layout (Header.byte_order h.flags) rs w) refl

decode_get :
    (h : Header) (rs : List Range)
    → h.type ≡ type_get
    → All RangeWire.IsWire rs
    → decode_payload h (Ranges.layout (Header.byte_order h.flags) rs)
      ≡ packet_read (record { header = h; packet = get (map RangeWire.exclusive rs) })
unfolding decode_payload packet_for_type unmarshal_packet
decode_get h rs t w = rw (t, Ranges.unmarshal-layout (Header.byte_order h.flags) rs w) refl

-- The Response at the other end of the connection, under the ids of the request, with these bindings
-- as they are decoded, and what follows it.
abbrev pub IsAnswered : Header → List Variable → List ℕ → List ℕ → Type 0
IsAnswered h vs frame rest =
    (head : Header) × (read_header_packet (frame ++ rest) ≡ (
      packet_read (record { header = head; packet = response (received 0 (bindings vs)) }),
      rest,
    ))
    × (head.session_id ≡ h.session_id)
    × (head.transaction_id ≡ h.transaction_id)
    × (head.packet_id ≡ h.packet_id)

reply_header-IsAnswering : (h : Header) → Wire.IsWire h → IsAnswering (reply_header h)
unfolding Header.byte_order
reply_header-IsAnswering h w = record {
  flags = omega arith;
  order = refl;
  session_id = w.session_id;
  transaction_id = w.transaction_id;
  packet_id = w.packet_id;
}

-- The payload of the answer is within the limit.
abbrev pub IsSmall : List Variable → Type 0
IsSmall vs =
    Ensures (λ payload. length payload ≤ max_payload_length) (Response.marshal_binary (bindings vs))

pub sent_for-bindings :
    (h : Header) (vs : List Variable) (rest : List ℕ)
    → Wire.IsWire h
    → All IsCarried vs
    → IsSmall vs
    → (frame : List ℕ) × (sent_for
          (some (record { header = reply_header h; packet = response (bindings vs) }))
        ≡ ok (some frame))
      × IsAnswered h vs frame rest
unfolding frame_of
sent_for-bindings h vs rest w c small =
    let (payload, frame, e, back) =
      read-response (reply_header h) 0 (bindings vs) rest (reply_header-IsAnswering h w) refl
        (omega arith) (omega arith) (omega arith) c
        (λ payload m.
          ensured (λ (bs : List ℕ). length bs ≤ max_payload_length) _ payload m small) in
    (frame, rw (e, frame_of) refl, (_, back, refl, refl, refl))

serve_packet :
    {H : Type 0} (handler : Option (Handler H)) (s : State H) (stream : List ℕ) (hp : HeaderPacket)
    → (read_header_packet stream).0 ≡ packet_read hp
    → serve handler s stream ≡ sent_for (handle handler hp s).0
unfolding serve
serve_packet handler s stream hp e = rw (e, serve) refl

module _ {H : Type 0} (handler : Option (Handler H)) (s : State H) (h : Header) (rs : List Range)
    (f : Range → Answer) (rest after : List ℕ) where
  -- The bindings of the answers, one for each range.
  abbrev pub answers : ℕ → List Variable
  answers missing = map (λ r. binding_of missing r (f r)) (map RangeWire.exclusive rs)

  -- The bytes of the request, in the byte order of its flags, and what follows them.
  abbrev pub request_bytes : List ℕ
  request_bytes = (Header.marshal_binary h ++ Ranges.layout (Header.byte_order h.flags) rs) ++ rest

  -- The answer goes out, and at the other end it is a Response with the bindings.
  abbrev pub IsServed : List Variable → Type 0
  IsServed vs =
      (frame : List ℕ) × (serve handler s request_bytes ≡ ok (some frame))
      × IsAnswered h vs frame after

  module _ (framed : IsFrame h (Ranges.layout (Header.byte_order h.flags) rs))
      (acceptable : Wire.IsAcceptable h) (wire : All RangeWire.IsWire rs) where
    -- What is common to the two searches: the packet `p` that is read, and its answer.
    search-IsServed :
        (p : Packet) (vs : List Variable)
        → decode_payload h (Ranges.layout (Header.byte_order h.flags) rs)
          ≡ packet_read (record { header = h; packet = p })
        → (handle handler (record { header = h; packet = p }) s).0
          ≡ some (record { header = reply_header h; packet = response (bindings vs) })
        → All IsCarried vs
        → IsSmall vs
        → IsServed vs
    search-IsServed p vs d answer c small =
        let (frame, e, back) = sent_for-bindings h vs after framed.wire c small in
        let payload : List ℕ = Ranges.layout (Header.byte_order h.flags) rs in
        let read : (read_header_packet request_bytes).0
            ≡ packet_read (record { header = h; packet = p }) =
          ap (λ (r : Read × List ℕ). r.0) (read_valid h payload rest framed acceptable) ∙ d in
        (
          frame,
          serve_packet handler s request_bytes (record { header = h; packet = p }) read
              ∙ ap sent_for answer
              ∙ e,
          back,
        )

    -- A GetNext in the byte order of its flags, with search ranges that fit the wire, for a handler that
    -- answers each range without an error and stays as it is, where the bindings can be encoded and
    -- their payload is within the limit: the session sends one frame, which the master agent reads as
    -- a Response with no error, under the ids of the request, with the binding of every range in order.
    pub get_next-IsServed :
        h.type ≡ type_get_next
        → ((r : Range)
            → ask_get_next handler (context_of h) r s.handler_state ≡ (f r, s.handler_state))
        → AllFound f (map RangeWire.exclusive rs)
        → All IsCarried (answers type_end_of_mib_view)
        → IsSmall (answers type_end_of_mib_view)
        → IsServed (answers type_end_of_mib_view)
    unfolding handle handle_packet respond
    get_next-IsServed t pure found c small =
        let shown : List Range = map RangeWire.exclusive rs in
        let same =
          all_found (ask_get_next handler (context_of h)) type_end_of_mib_view f s.handler_state
            pure shown found in
        search-IsServed (get_next shown) (answers type_end_of_mib_view)
          (decode_get_next h rs t wire) (rw same refl) c small

    -- The same of a Get, where a range without an answer has the type noSuchObject.
    pub get-IsServed :
        h.type ≡ type_get
        → ((r : Range) → ask_get handler (context_of h) r s.handler_state ≡ (f r, s.handler_state))
        → AllFound f (map RangeWire.exclusive rs)
        → All IsCarried (answers type_no_such_object)
        → IsSmall (answers type_no_such_object)
        → IsServed (answers type_no_such_object)
    unfolding handle handle_packet respond
    get-IsServed t pure found c small =
        let shown : List Range = map RangeWire.exclusive rs in
        let same =
          all_found (ask_get handler (context_of h)) type_no_such_object f s.handler_state pure
            shown found in
        search-IsServed (get shown) (answers type_no_such_object) (decode_get h rs t wire)
          (rw same refl) c small
