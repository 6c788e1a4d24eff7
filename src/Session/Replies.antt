-- ===== src/Session/Replies.antt =====
-- Which requests are answered, and under which header.
use go_agentx.Prelude.{◌≡◌, ◌≢◌, refl, Option, none, some}
use go_agentx.Pdu.Header.{Header}
use go_agentx.Pdu.Packet.{Packet, test_set, cleanup_set, type_of, type_response}
use go_agentx.Pdu.HeaderPacket.{HeaderPacket}
use go_agentx.Handler.{Handler, SetHandler, SetRequest, Context, GoError}
use go_agentx.Session.{
  State, handle, context_of, ask_get, ask_get_next, handle_packet, respond, test_one,
  handle_test_set,
}

-- The answer carries the ids of the request and is a Response; CleanupSet alone has none.
abbrev pub IsReplyTo : HeaderPacket → Option HeaderPacket → Type 0
IsReplyTo request none = request.packet ≡ cleanup_set
IsReplyTo request (some reply) =
    (request.packet ≢ cleanup_set)
    × (type_of reply.packet ≡ type_response)
    × (reply.header.session_id ≡ request.header.session_id)
    × (reply.header.transaction_id ≡ request.header.transaction_id)
    × (reply.header.packet_id ≡ request.header.packet_id)

module _ {H : Type 0} (handler : Option (Handler H)) where
  handle_packet-IsReplyTo :
      (header : Header) (p : Packet) (s : State H)
      → IsReplyTo (record { header = header; packet = p }) (handle_packet handler header p s).0
  unfolding handle_packet type_of
  handle_packet-IsReplyTo header cleanup_set s = refl
  handle_packet-IsReplyTo header _ s = ((λ e. cc), refl, refl, refl, refl)

  -- Every request but a CleanupSet is answered by a Response under the session, transaction and
  -- packet ids of the request, and a CleanupSet is not answered.
  pub handle-IsReplyTo :
      (request : HeaderPacket) (s : State H) → IsReplyTo request (handle handler request s).0
  unfolding handle
  handle-IsReplyTo request s = handle_packet-IsReplyTo request.header request.packet s

-- The handler with another `Set`.
abbrev pub with_set :
    {H : Type 0} → (Context → SetRequest → H → Option GoError × H) → Handler H → Handler H
with_set f handler = record handler { set = f }

module _ {H : Type 0} (f : Context → SetRequest → H → Option GoError × H) (handler : Handler H)
    (sh : SetHandler H) (two : handler.two_phase ≡ some sh) where
  test_one-with_set : (ctx : Context) → test_one handler ctx ≡ test_one (with_set f handler) ctx
  unfolding test_one
  test_one-with_set ctx = rw (two, test_one) refl

  packet-with_set :
      (header : Header) (p : Packet) (s : State H)
      → handle_packet (some handler) header p s
        ≡ handle_packet (some (with_set f handler)) header p s
  unfolding handle_packet respond ask_get ask_get_next handle_test_set
  packet-with_set header cleanup_set s = refl
  packet-with_set header (test_set vs) s = rw (test_one-with_set (context_of header)) refl
  packet-with_set header _ s = refl

  -- On a handler with the two-phase interface `Set` is never called: any other `Set` in its place
  -- gives the same answers and states.
  pub set_never_called :
      (request : HeaderPacket) (s : State H)
      → handle (some handler) request s ≡ handle (some (with_set f handler)) request s
  unfolding handle
  set_never_called request s = packet-with_set request.header request.packet s
