-- ===== src/Client/Reader/Exchange.antt =====
-- A Response from the one end of a connection to the other: pdu/header_packet.go encodes it, and
-- readHeaderPacket of client.go takes it off the stream.
use go_agentx.Prelude.{
  ℕ, ◌*◌, ◌/◌, ◌≤◌, ◌≡◌, refl, ap, ◌∙◌, List, ◌++◌, ok, arith, length, All, map, append_assoc,
  Ensures, >>=-Ensures,
}
use go_agentx.Prelude.Int.{pos}
use go_agentx.Prelude.Words.{IsByte, IsU16, IsU32, little, put_uint16, put_uint32}
use go_agentx.Pdu.Header
use go_agentx.Pdu.Header.{Header, max_payload_length}
use go_agentx.Pdu.Header.Wire
use go_agentx.Pdu.Variable.{time_tick}
use go_agentx.Pdu.Variable.Wire as VariableWire
use go_agentx.Pdu.Variable.Encoded.{IsCarried, ensured}
use go_agentx.Pdu.Variable.Aligned.{IsAligned, marshal_all-IsAligned}
use go_agentx.Pdu.Variables
use go_agentx.Pdu.Variables.{carried-IsGoVariable}
use go_agentx.Pdu.Response
use go_agentx.Pdu.Response.{Response, fixed_part, response_encoded}
use go_agentx.Pdu.Packet
use go_agentx.Pdu.Packet.{response, type_of, packet_for_type, unmarshal_packet}
use go_agentx.Pdu.HeaderPacket
use go_agentx.Pdu.HeaderPacket.{HeaderPacket, stamped}
use go_agentx.Client.Reader.{Read, packet_read, read_header_packet, read_validated, decode_payload}
use go_agentx.Client.Reader.Framing.{IsFrame, read_header-frame, read_payload-frame}

response-IsAligned :
    (r : Response)
    → All VariableWire.IsGoVariable r.variables
    → Ensures IsAligned (Response.marshal_binary r)
unfolding Response.marshal_binary Variables.marshal_binary fixed_part put_uint32 put_uint16
response-IsAligned r w =
    >>=-Ensures IsAligned IsAligned (Variables.marshal_binary r.variables) _
      (marshal_all-IsAligned r.variables w) (λ bs a _. omega (arith, a))

-- What the other end makes of a response.
abbrev pub received : ℕ → Response → Response
received n r = record {
  up_time = pos (n / time_tick * time_tick);
  error = r.error;
  index = r.index;
  variables = map VariableWire.received r.variables;
}

decode_response :
    (h : Header) (payload : List ℕ) (r : Response)
    → h.type ≡ 18
    → Header.byte_order h.flags ≡ little
    → Response.unmarshal_binary_order payload little ≡ ok r
    → decode_payload h payload ≡ packet_read (record { header = h; packet = response r })
unfolding decode_payload packet_for_type unmarshal_packet
decode_response h payload r t o e = rw (t, o, e) refl

pub read_valid :
    (h : Header) (payload rest : List ℕ)
    → IsFrame h payload
    → Wire.IsAcceptable h
    → read_header_packet ((Header.marshal_binary h ++ payload) ++ rest)
      ≡ (decode_payload h payload, rest)
unfolding read_validated
read_valid h payload rest f a = rw (append_assoc (Header.marshal_binary h) payload rest) (
    rw (read_header-frame h (payload ++ rest) f.wire)
      (rw ((Wire.validate_iff h).1 a) (read_payload-frame h payload rest f)))

-- The header of an answer: ids of 32 bits, and flags that ask for the byte order of the payload.
pub record IsAnswering (h : Header) : Type 0 where
  pub flags : IsByte h.flags
  pub order : Header.byte_order h.flags ≡ little
  pub session_id : IsU32 h.session_id
  pub transaction_id : IsU32 h.transaction_id
  pub packet_id : IsU32 h.packet_id

stamped-IsFrame :
    (h : Header) (r : Response) (payload : List ℕ)
    → IsAnswering h
    → IsAligned payload
    → length payload ≤ max_payload_length
    → IsFrame (stamped (record { header = h; packet = response r }) (length payload)) payload
unfolding type_of
stamped-IsFrame h r payload w a small = record {
  wire = record {
    version = omega arith;
    type = omega arith;
    flags = w.flags;
    session_id = w.session_id;
    transaction_id = w.transaction_id;
    packet_id = w.packet_id;
    payload_length = omega arith;
  };
  alignment = omega (arith, a);
  size = omega arith;
  payload_length = omega arith;
}

stamped-IsAcceptable :
    (h : Header) (r : Response) (payload : List ℕ)
    → IsAligned payload
    → length payload ≤ max_payload_length
    → Wire.IsAcceptable (stamped (record { header = h; packet = response r }) (length payload))
stamped-IsAcceptable h r payload a small = record {
  version = refl;
  alignment = omega (arith, a);
  size = omega arith;
}

-- A response whose fields fit the wire, whose values have contents that fit their syntaxes, and whose
-- payload is not above the limit, is encoded under a header with little-endian flags; the reader takes
-- exactly those bytes off the stream and delivers the packet under the ids of the header, with the
-- uptime rounded down to hundredths of a second and the values in the decoder's Go types.
pub read-response :
    (h : Header) (n : ℕ) (r : Response) (rest : List ℕ)
    → IsAnswering h
    → r.up_time ≡ pos n
    → IsU32 (n / time_tick)
    → IsU16 r.error
    → IsU16 r.index
    → All IsCarried r.variables
    → ((payload : List ℕ)
        → Response.marshal_binary r ≡ ok payload
        → length payload ≤ max_payload_length)
    → (payload : List ℕ) × (bytes : List ℕ) × (HeaderPacket.marshal_binary
          (record { header = h; packet = response r })
        ≡ ok bytes)
      × (read_header_packet (bytes ++ rest) ≡ (
        packet_read (record {
          header = stamped (record { header = h; packet = response r }) (length payload);
          packet = response (received n r);
        }),
        rest,
      ))
unfolding HeaderPacket.marshal_binary Packet.marshal_binary
read-response h n r rest w u ht he hi vs small =
    let (payload, e, back) = response_encoded n r u ht he hi vs in
    let a : IsAligned payload =
      ensured IsAligned _ payload e (response-IsAligned r (carried-IsGoVariable r.variables vs)) in
    let head : Header = stamped (record { header = h; packet = response r }) (length payload) in
    let f : IsFrame head payload = stamped-IsFrame h r payload w a (small payload e) in
    (
      payload,
      Header.marshal_binary head ++ payload,
      rw e refl,
      read_valid head payload rest f (stamped-IsAcceptable h r payload a (small payload e))
          ∙ ap (λ (x : Read). (x, rest))
              (decode_response head payload (received n r) (unfold type_of in refl) w.order back),
    )
