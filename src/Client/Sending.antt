-- ===== src/Client/Sending.antt =====
-- client.go: `send`, which encodes an answer, and sends an error in place of one that it cannot
-- encode.
use go_agentx.Prelude.{
  ℕ, ◌%◌, ◌^◌, ◌≡◌, refl, Option, none, some, List, ◌++◌, Result, ok, err, crash, ◌>>=◌, IsSettled,
  >>=-IsSettled, length, ◌⊎◌, Result-cases, inl, inr, Fault,
}
use go_agentx.Pdu.Header
use go_agentx.Pdu.Header.{Header}
use go_agentx.Pdu.Variable.Settled.{marshal_all-IsSettled}
use go_agentx.Pdu.Sequence.{marshal_all}
use go_agentx.Pdu.Variables
use go_agentx.Pdu.Response
use go_agentx.Pdu.Response.{Response}
use go_agentx.Pdu.Packet
use go_agentx.Pdu.Packet.{
  Packet, open_packet, close, register, unregister, get, get_next, test_set, allocate_index,
  deallocate_index, commit_set, undo_set, cleanup_set, notify, response, unsupported, type_of,
}
use go_agentx.Pdu.HeaderPacket
use go_agentx.Pdu.HeaderPacket.{HeaderPacket, stamped}
use go_agentx.Client.Replies.{reply_header, error_response, error_packet, error_gen_err}
use go_agentx.Handler.{Handler}
use go_agentx.Session.{State, handle, handle_packet, respond}

-- The frame that `send` gives to sendBytes, `none` where it sends nothing.
unfoldable pub frame_of : HeaderPacket → Result (Option (List ℕ))
frame_of hp = elim (HeaderPacket.marshal_binary hp) [
  | ok frame ↦ ok (some frame)
  | err e ↦ elim (HeaderPacket.marshal_binary (error_response hp.header error_gen_err)) [
    | ok fallback ↦ ok (some fallback)
    | err e' ↦ ok none
    | crash c ↦ crash c
  ]
  | crash c ↦ crash c
]

-- The frame of a Response under the ids of a header, with the length of its payload.
abbrev pub IsFrameFor : Header → List ℕ → Type 0
IsFrameFor h frame =
    (head : Header) × (payload : List ℕ) × (frame ≡ Header.marshal_binary head ++ payload)
    × (head.type ≡ 18)
    × (head.payload_length ≡ length payload % 2 ^ 32)
    × (head.session_id ≡ h.session_id)
    × (head.transaction_id ≡ h.transaction_id)
    × (head.packet_id ≡ h.packet_id)

-- The frame is the encoding of the answer, or that of a genErr if the answer has none.
abbrev pub IsEncodingOf : HeaderPacket → List ℕ → Type 0
IsEncodingOf reply frame =
    (HeaderPacket.marshal_binary reply ≡ ok frame)
    ⊎ (((e : Fault) × (HeaderPacket.marshal_binary reply ≡ err e))
        × (HeaderPacket.marshal_binary (error_response reply.header error_gen_err) ≡ ok frame))

response_frame :
    (h : Header) (r : Response) (frame : List ℕ)
    → HeaderPacket.marshal_binary (record { header = h; packet = response r }) ≡ ok frame
    → IsFrameFor h frame
unfolding HeaderPacket.marshal_binary type_of
response_frame h r frame e = from (Packet.marshal_binary (response r)) e
  where
    from :
        (m : Result (List ℕ))
        → (do
          bytes ← m
          ok (
              Header.marshal_binary
                (stamped (record { header = h; packet = response r }) (length bytes))
              ++ bytes))
          ≡ ok frame
        → IsFrameFor h frame
    from (ok bytes) q = (
      stamped (record { header = h; packet = response r }) (length bytes),
      bytes,
      cc,
      refl,
      refl,
      refl,
      refl,
      refl,
    )
    from (err x) q = cc
    from (crash x) q = cc

body-IsSettled : (r : Response) → IsSettled (Response.marshal_binary r)
unfolding Response.marshal_binary Variables.marshal_binary
body-IsSettled r =
    >>=-IsSettled (Variables.marshal_binary r.variables) _ (marshal_all-IsSettled r.variables)
      (λ _ _. tt)

response-IsSettled :
    (h : Header) (r : Response)
    → IsSettled (HeaderPacket.marshal_binary (record { header = h; packet = response r }))
unfolding HeaderPacket.marshal_binary Packet.marshal_binary
response-IsSettled h r = >>=-IsSettled (Response.marshal_binary r) _ (body-IsSettled r) (λ _ _. tt)

handle-response :
    {H : Type 0} (handler : Option (Handler H)) (header : Header) (p : Packet) (s : State H)
    (reply : HeaderPacket)
    → (handle_packet handler header p s).0 ≡ some reply
    → (r : Response) × (record { header = reply_header header; packet = response r } ≡ reply)
unfolding handle_packet
handle-response handler header cleanup_set s reply e = cc
handle-response handler header p s reply e = ((respond handler header p s).0, cc)

-- An error response is always encoded.
fallback_encoded :
    (h : Header) (e : ℕ)
    → (frame : List ℕ) × (HeaderPacket.marshal_binary (error_response h e) ≡ ok frame)
unfolding HeaderPacket.marshal_binary error_response Packet.marshal_binary Response.marshal_binary
    Variables.marshal_binary marshal_all
fallback_encoded h e = (_, refl)

framed :
    (h : Header) (r : Response)
    → (frame : List ℕ) × (frame_of (record { header = h; packet = response r }) ≡ ok (some frame))
      × IsEncodingOf (record { header = h; packet = response r }) frame
      × IsFrameFor h frame
unfolding frame_of
framed h r =
    elim (Result-cases (HeaderPacket.marshal_binary (record { header = h; packet = response r }))) [
      | inl (frame, e) ↦ (frame, rw (e, frame_of) refl, inl e, response_frame h r frame e)
      | inr (inl (x, e)) ↦
          let (frame, f) = fallback_encoded h error_gen_err in
          (
            frame,
            rw (e, f, frame_of) refl,
            inr ((x, e), f),
            response_frame (reply_header h) (error_packet error_gen_err) frame
                (unfold error_response in f),
          )
      | inr (inr (c, e)) ↦ absurd (rw e at (response-IsSettled h r))
    ]

-- Every answer of a session is sent, whatever the handler put in it: as it is, or as a genErr in place
-- of one that cannot be encoded, and in both cases as a Response under the session, transaction and
-- packet ids of the request and with the length of its payload.
pub reply_framed :
    {H : Type 0} (handler : Option (Handler H)) (request : HeaderPacket) (s : State H)
    (reply : HeaderPacket)
    → (handle handler request s).0 ≡ some reply
    → (frame : List ℕ) × (frame_of reply ≡ ok (some frame))
      × IsEncodingOf reply frame
      × IsFrameFor request.header frame
unfolding handle
reply_framed handler request s reply e =
    let (r, same) = handle-response handler request.header request.packet s reply e in
    rw (← same) (framed (reply_header request.header) r)
