-- ===== src/Client/Reader/Framing.antt =====
-- The receiver stays framed: whatever a payload holds, the next packet is found.
use go_agentx.Prelude.{
  ℕ, ◌%◌, ◌^◌, ◌≤◌, ◌<◌, ◌≡◌, refl, sym, List, [], ◌++◌, true, ◌==◌, arith, length, Result, ok, err,
  crash, Fault, le→not_ltb, length-append, take-append_at, drop-append_at, append-nil, Ensures,
  ==_iff, ◌⊎◌, inl, inr,
}
use go_agentx.Pdu.Header
use go_agentx.Pdu.Header.{Header, header_size, max_payload_length}
use go_agentx.Pdu.Header.Wire
use go_agentx.Pdu.Packet.{
  packet_for_type, packet_for_type-HasType, unmarshal_packet, unmarshal_packet-HasType, HasType,
  Packet,
}
use go_agentx.Client.Reader.{
  Read, packet_read, parse_failed, stopped, crashed, full, read_full, skip_payload, decoded,
  decode_payload, payload_read, header_read, read_payload, read_validated, read_body,
  read_header_packet,
}

-- A frame: a header whose payload length is plausible, and a payload of that length.
pub record IsFrame (h : Header) (payload : List ℕ) : Type 0 where
  pub wire : Wire.IsWire h
  pub alignment : h.payload_length % 4 ≡ 0
  pub size : h.payload_length ≤ max_payload_length
  pub payload_length : length payload ≡ h.payload_length

-- What the decoder for the type of the header makes of the payload.
abbrev pub read_as : Header → List ℕ → Result Packet
read_as h payload = unmarshal_packet (packet_for_type h.type) payload (Header.byte_order h.flags)

-- The header is acceptable, and the payload is that of the packet `p`, which has its type.
abbrev pub IsRead : Header → List ℕ → Packet → Type 0
IsRead h payload p = Wire.IsAcceptable h × (read_as h payload ≡ ok p) × HasType h.type p

-- The header is not acceptable, or the payload does not decode.
abbrev pub IsUnreadable : Header → List ℕ → Type 0
IsUnreadable h payload = (Wire.IsAcceptable h → ⊥) ⊎ ((e : Fault) × (read_as h payload ≡ err e))

-- The packet was delivered, or could not be read and its header is at hand for the answer.
abbrev pub IsFramed : Header → List ℕ → Read → Type 0
IsFramed h payload (packet_read hp) = (hp.header ≡ h) × IsRead h payload hp.packet
IsFramed h payload (parse_failed k e) = (k ≡ h) × IsUnreadable h payload
IsFramed h payload (stopped e) = ⊥
IsFramed h payload (crashed c) = ⊥

read_full-append :
    (n : ℕ) (front rest : List ℕ) → n ≡ length front → read_full n (front ++ rest) ≡ full front rest
unfolding read_full
read_full-append n front rest e =
    rw (le→not_ltb (length (front ++ rest)) n (omega (arith, length-append front rest)))
      (rw (take-append_at n front rest e, drop-append_at n front rest e))

decoded-IsFramed :
    (h : Header) (payload : List ℕ) (r : Result Packet)
    → Wire.IsAcceptable h
    → read_as h payload ≡ r
    → Ensures (HasType h.type) r
    → IsFramed h payload (decoded h r)
decoded-IsFramed h payload (ok p) a e t = (refl, (a, e, t))
decoded-IsFramed h payload (err x) a e t = (refl, inr (x, e))
decoded-IsFramed h payload (crash c) a e t = t

pub decode_payload-IsFramed :
    (h : Header) (bytes : List ℕ)
    → Wire.IsAcceptable h
    → length bytes < 2 ^ 32
    → IsFramed h bytes (decode_payload h bytes)
unfolding decode_payload
decode_payload-IsFramed h bytes a small =
    let (t, received) = packet_for_type-HasType h.type in
    decoded-IsFramed h bytes _ a refl (
      rw t at (
        unmarshal_packet-HasType (packet_for_type h.type) bytes (Header.byte_order h.flags) received
          small))

skip_payload-IsFramed :
    (h : Header) (e : Fault) (payload rest : List ℕ)
    → IsFrame h payload
    → skip_payload h e (payload ++ rest) ≡ (parse_failed h e, rest)
unfolding skip_payload
skip_payload-IsFramed h e payload rest f =
    let a : (h.payload_length % 4 == 0) ≡ true = (==_iff _ _).1 f.alignment in
    rw (a, le→not_ltb max_payload_length h.payload_length f.size)
      (rw
        (le→not_ltb (length (payload ++ rest)) h.payload_length
          (omega (arith, length-append payload rest)))
        (rw (drop-append_at h.payload_length payload rest (sym f.payload_length))))

pub read_payload-frame :
    (h : Header) (payload rest : List ℕ)
    → IsFrame h payload
    → read_payload h (payload ++ rest) ≡ (decode_payload h payload, rest)
unfolding read_payload payload_read
read_payload-frame h payload rest f =
    rw (read_full-append h.payload_length payload rest (sym f.payload_length))

pub read_header-frame :
    (h : Header) (stream : List ℕ)
    → Wire.IsWire h
    → read_header_packet (Header.marshal_binary h ++ stream)
      ≡ read_validated h (Header.validate h) stream
unfolding read_header_packet header_read read_body
read_header-frame h stream w =
    let head : List ℕ = Header.marshal_binary h in
    let fields : Header.unmarshal_fields head ≡ ok h =
      rw append-nil at (Wire.unmarshal_fields-marshal h [] w) in
    rw (read_full-append header_size head stream (sym (Wire.length-marshal h))) (rw fields)

-- The outcome is about `h` and its payload, and `rest` is what is left of the stream.
abbrev pub Framed : Header → List ℕ → List ℕ → Read × List ℕ → Type 0
Framed h payload rest r = IsFramed h payload r.0 × (r.1 ≡ rest)

read_validated-frame :
    (h : Header) (payload rest : List ℕ) (r : Result (Unit {0}))
    → IsFrame h payload
    → Header.validate h ≡ r
    → Ensures (λ (_ : Unit {0}). Wire.IsAcceptable h) r
    → Framed h payload rest (read_validated h r (payload ++ rest))
unfolding read_validated
read_validated-frame h payload rest (ok u) f e v =
    rw (read_payload-frame h payload rest f)
      (decode_payload-IsFramed h payload v (omega (arith, f.payload_length, f.size)), refl)
read_validated-frame h payload rest (err x) f e v = rw (skip_payload-IsFramed h x payload rest f) (
  (refl, inl (λ a. let accepted : Header.validate h ≡ ok tt = (Wire.validate_iff h).1 a in cc)),
  refl,
)
read_validated-frame h payload rest (crash c) f e v = absurd v

-- Any frame, with a payload that decodes or not and of any version, is taken whole off the stream:
-- the packet that its type's decoder reads is delivered with its header, or, where the header is not
-- acceptable or the payload does not decode, it is refused with its header for the answer, and what
-- follows is left.
pub read-frame :
    (h : Header) (payload rest : List ℕ)
    → IsFrame h payload
    → Framed h payload rest (read_header_packet (Header.marshal_binary h ++ (payload ++ rest)))
read-frame h payload rest f =
    rw (read_header-frame h (payload ++ rest) f.wire)
      (read_validated-frame h payload rest (Header.validate h) f refl (Wire.validate-Ensures h))
