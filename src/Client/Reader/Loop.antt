-- ===== src/Client/Reader/Loop.antt =====
-- The receiver's loop over a whole stream.
use go_agentx.Prelude.{
  ℕ, zero, suc, ◌+◌, ◌<◌, ◌≡◌, inl, inr, refl, List, [], ◌∷◌, ◌++◌, ltb, ◌==◌, not, ◌||◌, ◌%◌,
  arith, tests, length, Result, ok, err, crash, Fault, Bool-cases, length-take, length-drop,
  Ensures,
}
use go_agentx.Pdu.Header
use go_agentx.Pdu.Header.{Header, header_size, max_payload_length}
use go_agentx.Pdu.Header.Wire
use go_agentx.Client.Replies.{IsRefusal, parse_error_response-IsRefusal}
use go_agentx.Client.Reader.{
  eof, Read, packet_read, parse_failed, stopped, crashed, Filled, full, cut, read_full,
  payload_read, header_read, round, zero_header, skip_payload, read_payload, read_validated,
  read_body, read_header_packet, Event, delivered, answered, End, stream_end, crash_end, receive,
}
use go_agentx.Client.Reader.Framing.{
  IsFrame, IsFramed, IsRead, IsUnreadable, read-frame, decode_payload-IsFramed,
}

-- No crash, and unless the stream is finished, less of it is left than `n` bytes.
abbrev Advances : ℕ → Read × List ℕ → Type 0
Advances n (packet_read hp, rest) = length rest < n
Advances n (parse_failed h e, rest) = length rest < n
Advances n (stopped e, rest) = Unit
Advances n (crashed c, rest) = ⊥

framed-Advances :
    (n : ℕ) (h : Header) (payload : List ℕ) (r : Read) (rest : List ℕ)
    → IsFramed h payload r
    → length rest < n
    → Advances n (r, rest)
framed-Advances n h payload (packet_read hp) rest f l = l
framed-Advances n h payload (parse_failed k e) rest f l = l
framed-Advances n h payload (stopped e) rest f l = tt
framed-Advances n h payload (crashed c) rest f l = absurd f

skip-Advances :
    (n : ℕ) (h : Header) (e : Fault) (s : List ℕ) → length s < n → Advances n (skip_payload h e s)
unfolding skip_payload
skip-Advances n h e s l =
    elim (Bool-cases (not (h.payload_length % 4 == 0) || ltb max_payload_length h.payload_length)) [
      | inl bad ↦ rw bad tt
      | inr good ↦ rw good (elim (Bool-cases (ltb (length s) h.payload_length)) [
        | inl short ↦ rw short tt
        | inr long ↦ rw long (omega (arith, length-drop h.payload_length s))
      ])
    ]

-- What `io.ReadFull` gives is what was asked for and the rest.
abbrev Splits : ℕ → List ℕ → Filled → Type 0
Splits n s (full bytes rest) = (length bytes ≡ n) × (length rest + n ≡ length s)
Splits n s (cut e) = Unit

read_full-Splits : (n : ℕ) (s : List ℕ) → Splits n s (read_full n s)
unfolding read_full
read_full-Splits n s = elim (Bool-cases (ltb (length s) n)) [
  | inl short ↦ rw short tt
  | inr long ↦ rw long (omega (tests, length-take n s), omega (tests, length-drop n s))
]

payload-Advances :
    (n : ℕ) (h : Header) (s : List ℕ) (f : Filled)
    → Splits h.payload_length s f
    → Wire.IsAcceptable h
    → length s < n
    → Advances n (payload_read h f)
unfolding payload_read
payload-Advances n h s (cut e) p a l = tt
payload-Advances n h s (full bytes rest) p a l =
    framed-Advances n h bytes _ rest
      (decode_payload-IsFramed h bytes a (omega (arith, p.0, a.size))) (omega (arith, p.1))

validated-Advances :
    (n : ℕ) (h : Header) (r : Result (Unit {0})) (s : List ℕ)
    → Ensures (λ (_ : Unit {0}). Wire.IsAcceptable h) r
    → length s < n
    → Advances n (read_validated h r s)
unfolding read_validated read_payload
validated-Advances n h (ok u) s a l =
    payload-Advances n h s _ (read_full-Splits h.payload_length s) a l
validated-Advances n h (err e) s a l = skip-Advances n h e s l
validated-Advances n h (crash c) s a l = absurd a

body-Advances :
    (n : ℕ) (r : Result Header) (s : List ℕ)
    → Ensures (λ (_ : Header). Unit) r
    → length s < n
    → Advances n (read_body r s)
unfolding read_body
body-Advances n (ok h) s a l =
    validated-Advances n h (Header.validate h) s (Wire.validate-Ensures h) l
body-Advances n (err e) s a l = skip-Advances n zero_header e s l
body-Advances n (crash c) s a l = absurd a

header-Advances :
    (s : List ℕ) (f : Filled) → Splits header_size s f → Advances (length s) (header_read f)
unfolding header_read
header-Advances s (cut e) p = tt
header-Advances s (full bytes rest) p =
    body-Advances (length s) (Header.unmarshal_fields bytes) rest
      (Wire.unmarshal_fields-Ensures bytes) (omega (arith, p.1))

read-Advances : (s : List ℕ) → Advances (length s) (read_header_packet s)
unfolding read_header_packet
read-Advances s = header-Advances s (read_full header_size s) (read_full-Splits header_size s)

abbrev pub EndsByStream : List Event × End → Type 0
EndsByStream (es, stream_end e) = Unit
EndsByStream (es, crash_end c) = ⊥

round_ends :
    (n : ℕ) (next : List ℕ → List Event × End) (r : Read × List ℕ)
    → ((rest : List ℕ) → length rest < n → EndsByStream (next rest))
    → Advances n r
    → EndsByStream (round next r)
unfolding round
round_ends n next (packet_read hp, rest) ih a = ih rest a
round_ends n next (parse_failed h e, rest) ih a = ih rest a
round_ends n next (stopped e, rest) ih a = tt
round_ends n next (crashed c, rest) ih a = absurd a

-- On any bytes whatever the receiver ends with the stream, never by a panic, and a round takes bytes
-- off the stream, so that as many rounds as there are bytes, and one more, are enough.
pub receive_ends : (fuel : ℕ) (s : List ℕ) → length s < fuel → EndsByStream (receive fuel s)
unfolding receive
receive_ends zero s l = absurd (omega arith)
receive_ends (suc fuel) s l =
    round_ends (length s) (receive fuel) (read_header_packet s)
      (λ rest k. receive_ends fuel rest (omega arith)) (read-Advances s)

-- A frame as its header and its payload.
abbrev pub Frame : Type 0
Frame = Header × List ℕ

unfoldable pub frame_bytes : List Frame → List ℕ
frame_bytes [] = []
frame_bytes ((h, payload) ∷ fs) = Header.marshal_binary h ++ (payload ++ frame_bytes fs)

abbrev pub AllFrames : List Frame → Type 0
AllFrames [] = Unit
AllFrames ((h, payload) ∷ fs) = IsFrame h payload × AllFrames fs

-- A packet that can be read is delivered, with its header, and any other is answered.
abbrev pub IsEventOf : Header → List ℕ → Event → Type 0
IsEventOf h payload (delivered hp) = (hp.header ≡ h) × IsRead h payload hp.packet
IsEventOf h payload (answered r) = IsRefusal h r × IsUnreadable h payload

-- One event for each frame, in order.
abbrev pub AreEventsOf : List Frame → List Event → Type 0
AreEventsOf [] [] = Unit
AreEventsOf [] (e ∷ es) = ⊥
AreEventsOf (f ∷ fs) [] = ⊥
AreEventsOf (f ∷ fs) (e ∷ es) = IsEventOf f.0 f.1 e × AreEventsOf fs es

abbrev pub Receives : List Frame → List Event × End → Type 0
Receives fs r = AreEventsOf fs r.0 × (r.1 ≡ stream_end eof)

round-Receives :
    (h : Header) (payload : List ℕ) (fs : List Frame) (next : List ℕ → List Event × End) (r : Read)
    (rest : List ℕ)
    → IsFramed h payload r
    → Receives fs (next rest)
    → Receives ((h, payload) ∷ fs) (round next (r, rest))
unfolding round
round-Receives h payload fs next (packet_read hp) rest f g = ((f, g.0), g.1)
round-Receives h payload fs next (parse_failed k e) rest f g =
    (((rw f.0 (parse_error_response-IsRefusal h), f.1), g.0), g.1)
round-Receives h payload fs next (stopped e) rest f g = absurd f
round-Receives h payload fs next (crashed c) rest f g = absurd f

-- On frames one after the other the receiver has one event for each, in order, and then finds the end
-- of the stream. A frame with an acceptable header and a payload that the decoder of its type reads is
-- delivered as that packet with its header. For any other the answer is a Response with the error
-- parseError and the frame's ids, and no answer if the frame is a Response or a CleanupSet.
pub receive-frames :
    (fs : List Frame) (fuel : ℕ)
    → AllFrames fs
    → length fs < fuel
    → Receives fs (receive fuel (frame_bytes fs))
unfolding receive frame_bytes
receive-frames fs zero w l = absurd (omega arith)
receive-frames [] (suc fuel) w l =
    unfold read_header_packet header_read read_full round in (tt, refl)
receive-frames ((h, payload) ∷ fs) (suc fuel) w l =
    let rest : List ℕ = frame_bytes fs in
    let (framed, left) = read-frame h payload rest w.0 in
    let r : Read × List ℕ = read_header_packet (Header.marshal_binary h ++ (payload ++ rest)) in
    round-Receives h payload fs (receive fuel) r.0 r.1 framed
      (rw left (receive-frames fs fuel w.1 (omega arith)))
