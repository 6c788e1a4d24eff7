-- ===== src/Client/Replies.antt =====
-- client.go: the error responses that the client builds itself.
use go_agentx.Prelude.{
  ℕ, Bool, not, ◌&&◌, Option, none, some, [], ◌==◌, if◌then◌else◌, ◌≡◌, ◌≢◌, ◌⊎◌, inl, inr, refl,
  Bool-cases, ==_iff, arith,
}
use go_agentx.Prelude.Int.{pos}
use go_agentx.Pdu.Header.{Header}
use go_agentx.Pdu.Packet.{response, type_cleanup_set, type_response}
use go_agentx.Pdu.Response.{Response}
use go_agentx.Pdu.HeaderPacket.{HeaderPacket}

abbrev pub error_none : ℕ
error_none = 0

abbrev pub error_gen_err : ℕ
error_gen_err = 5

abbrev pub error_not_open : ℕ
error_not_open = 257

abbrev pub error_parse : ℕ
error_parse = 266

-- `&pdu.Header{SessionID: …, TransactionID: …, PacketID: …}`, the other fields zero.
abbrev pub reply_header : Header → Header
reply_header h = record {
  version = 0;
  type = 0;
  flags = 0;
  session_id = h.session_id;
  transaction_id = h.transaction_id;
  packet_id = h.packet_id;
  payload_length = 0;
}

-- `&pdu.Response{Error: err}`
abbrev pub error_packet : ℕ → Response
error_packet e = record { up_time = pos 0; error = e; index = 0; variables = [] }

-- `errorResponse`
unfoldable pub error_response : Header → ℕ → HeaderPacket
error_response h e = record { header = reply_header h; packet = response (error_packet e) }

-- `expectsResponse`
unfoldable pub expects_response : ℕ → Bool
expects_response t = not (t == type_cleanup_set) && not (t == type_response)

-- `parseErrorResponse`
unfoldable pub parse_error_response : Header → Option HeaderPacket
parse_error_response h =
    if expects_response h.type then some (error_response h error_parse) else none

-- The answer to a packet that cannot be read: a Response with the error parseError and the packet's
-- ids, but none to a Response or a CleanupSet.
abbrev pub IsRefusal : Header → Option HeaderPacket → Type 0
IsRefusal h none = (h.type ≡ type_response) ⊎ (h.type ≡ type_cleanup_set)
IsRefusal h (some r) =
    (h.type ≢ type_response)
    × (h.type ≢ type_cleanup_set)
    × (r.header.session_id ≡ h.session_id)
    × (r.header.transaction_id ≡ h.transaction_id)
    × (r.header.packet_id ≡ h.packet_id)
    × (r.packet ≡ response (record { up_time = pos 0; error = 266; index = 0; variables = [] }))

pub parse_error_response-IsRefusal : (h : Header) → IsRefusal h (parse_error_response h)
unfolding parse_error_response expects_response error_response
parse_error_response-IsRefusal h = elim (Bool-cases (h.type == type_cleanup_set)) [
  | inl c ↦ rw c (inr ((==_iff _ _).0 c))
  | inr c ↦ elim (Bool-cases (h.type == type_response)) [
    | inl r ↦ rw (c, r) (inl ((==_iff _ _).0 r))
    | inr r ↦ rw (c, r) (ground arith, ground arith, refl, refl, refl, refl)
  ]
]
