-- ===== src/Client/Connections/Resumed.antt =====
-- client.go: what the receiver delivers when connections break and are made again.
use go_agentx.Prelude.{
  ℕ, zero, suc, ◌%◌, ◌≤◌, ◌<◌, ◌≡◌, refl, true, Option, none, some, List, [], ◌∷◌, ◌++◌, map, ltb,
  length, arith, append_assoc, Result, ok, err, crash, Ensures, le→not_ltb, length-append, ==_iff,
  ◌==◌,
}
use go_agentx.Pdu.Header
use go_agentx.Pdu.Header.{Header, header_size, max_payload_length}
use go_agentx.Pdu.Header.Wire
use go_agentx.Client.Reader.{
  eof, unexpected_eof, bad_header, StreamError, Read, packet_read, parse_failed, stopped, crashed,
  end_of, cut, read_full, skip_payload, payload_read, header_read, read_payload, read_validated,
  read_header_packet, Event, End, stream_end, crash_end, receive, round,
}
use go_agentx.Client.Reader.Framing.{IsFramed, read-frame, read_header-frame}
use go_agentx.Client.Replies.{parse_error_response-IsRefusal}
use go_agentx.Client.Reader.Loop.{Frame, frame_bytes, AllFrames, AreEventsOf}
use go_agentx.Client.Connections.{
  Doing, Ending, goes_on, happened, dial_failed, reopening, closed, after_end, on_connection,
  resume, run_receiver,
}

-- A connection that breaks within a header, or within the payload of a header of plausible length.
pub data IsCut : List ℕ → Type 0 where
  in_header : (bytes : List ℕ) → length bytes < header_size → IsCut bytes
  in_payload :
      (h : Header) (part : List ℕ)
      → Wire.IsWire h
      → h.payload_length % 4 ≡ 0
      → h.payload_length ≤ max_payload_length
      → length part < h.payload_length
      → IsCut (Header.marshal_binary h ++ part)

abbrev pub IsOver : StreamError → Type 0
IsOver eof = Unit
IsOver unexpected_eof = Unit
IsOver (bad_header e) = ⊥

abbrev pub Stops : Read × List ℕ → Type 0
Stops (packet_read hp, rest) = ⊥
Stops (parse_failed h e, rest) = ⊥
Stops (stopped e, rest) = IsOver e
Stops (crashed c, rest) = ⊥

end_of-IsOver : (bytes : List ℕ) → IsOver (end_of bytes)
end_of-IsOver [] = tt
end_of-IsOver (b ∷ bytes) = tt

read_full-short :
    (n : ℕ) (bytes : List ℕ) → length bytes < n → read_full n bytes ≡ cut (end_of bytes)
unfolding read_full
read_full-short n bytes l = ground arith

validated-Stops :
    (h : Header) (part : List ℕ) (r : Result (Unit {0}))
    → h.payload_length % 4 ≡ 0
    → h.payload_length ≤ max_payload_length
    → length part < h.payload_length
    → Ensures (λ (_ : Unit {0}). Wire.IsAcceptable h) r
    → Stops (read_validated h r part)
unfolding read_validated read_payload skip_payload payload_read
validated-Stops h part (ok u) a small short v =
    rw (read_full-short h.payload_length part short) (end_of-IsOver part)
validated-Stops h part (err e) a small short v =
    let whole : (h.payload_length % 4 == 0) ≡ true = (==_iff _ _).1 a in
    let below : ltb (length part) h.payload_length ≡ true = ground arith in
    rw (whole, le→not_ltb max_payload_length h.payload_length small, below) tt
validated-Stops h part (crash c) a small short v = absurd v

read-cut : (bytes : List ℕ) → IsCut bytes → Stops (read_header_packet bytes)
read-cut _ (in_header bytes l) =
    unfold read_header_packet header_read in
    rw (read_full-short header_size bytes l) (end_of-IsOver bytes)
read-cut _ (in_payload h part w a small short) =
    rw (read_header-frame h part w)
      (validated-Stops h part (Header.validate h) a small short (Wire.validate-Ensures h))

abbrev pub EndsOver : End → Type 0
EndsOver (stream_end e) = IsOver e
EndsOver (crash_end c) = ⊥

abbrev pub ReceivesUntil : List Frame → List Event × End → Type 0
ReceivesUntil fs r = AreEventsOf fs r.0 × EndsOver r.1

round-Stops :
    (next : List ℕ → List Event × End) (r : Read × List ℕ)
    → Stops r
    → ReceivesUntil [] (round next r)
unfolding round
round-Stops next (packet_read hp, rest) s = absurd s
round-Stops next (parse_failed h e, rest) s = absurd s
round-Stops next (stopped e, rest) s = (tt, s)
round-Stops next (crashed c, rest) s = absurd s

round-Until :
    (h : Header) (payload : List ℕ) (fs : List Frame) (next : List ℕ → List Event × End) (r : Read)
    (rest : List ℕ)
    → IsFramed h payload r
    → ReceivesUntil fs (next rest)
    → ReceivesUntil ((h, payload) ∷ fs) (round next (r, rest))
unfolding round
round-Until h payload fs next (packet_read hp) rest f g = ((f, g.0), g.1)
round-Until h payload fs next (parse_failed k e) rest f g =
    (((rw f.0 (parse_error_response-IsRefusal h), f.1), g.0), g.1)
round-Until h payload fs next (stopped e) rest f g = absurd f
round-Until h payload fs next (crashed c) rest f g = absurd f

-- Frames and then a part of one: the part is dropped.
receive-cut :
    (fs : List Frame) (tail : List ℕ) (fuel : ℕ)
    → AllFrames fs
    → IsCut tail
    → length fs < fuel
    → ReceivesUntil fs (receive fuel (frame_bytes fs ++ tail))
unfolding receive frame_bytes
receive-cut fs tail zero w c l = absurd (omega arith)
receive-cut [] tail (suc fuel) w c l = round-Stops (receive fuel) _ (read-cut tail c)
receive-cut ((h, payload) ∷ fs) tail (suc fuel) w c l =
    let rest : List ℕ = frame_bytes fs ++ tail in
    let (framed, left) = read-frame h payload rest w.0 in
    let r : Read × List ℕ = read_header_packet (Header.marshal_binary h ++ (payload ++ rest)) in
    rw
      (
        append_assoc (Header.marshal_binary h) (payload ++ frame_bytes fs) tail,
        append_assoc payload (frame_bytes fs) tail,
      )
      (round-Until h payload fs (receive fuel) r.0 r.1 framed
        (rw left (receive-cut fs tail fuel w.1 c (omega arith))))

frames-length : (fs : List Frame) → length fs ≤ length (frame_bytes fs)
unfolding frame_bytes
frames-length [] = omega arith
frames-length ((h, payload) ∷ fs) = omega (
  arith,
  frames-length fs,
  Wire.length-marshal h,
  length-append (Header.marshal_binary h) (payload ++ frame_bytes fs),
  length-append payload (frame_bytes fs),
)

-- A connection: whole frames, and the part of one at which it breaks.
abbrev pub Connection : Type 0
Connection = List Frame × List ℕ × Ending

abbrev pub stream_of : Connection → List ℕ × Ending
stream_of (fs, tail, ending) = (frame_bytes fs ++ tail, ending)

abbrev pub IsBroken : Connection → Type 0
IsBroken (fs, tail, ending) = AllFrames fs × IsCut tail

-- One event for each frame, in order, and then `next`.
abbrev pub Delivers : List Frame → List Doing → List Doing → Type 0
Delivers fs trace next = (es : List Event) × AreEventsOf fs es × (trace ≡ map happened es ++ next)

on_connection-Delivers :
    (c : Connection) (next : List Doing)
    → IsBroken c
    → Delivers c.0 (on_connection (stream_of c) next) (goes_on c.2 next)
on_connection-Delivers (fs, tail, ending) next (w, k) =
    let bytes : List ℕ = frame_bytes fs ++ tail in
    let enough : length fs < suc (length bytes) =
      omega (arith, frames-length fs, length-append (frame_bytes fs) tail) in
    from (receive (suc (length bytes)) bytes) (receive-cut fs tail (suc (length bytes)) w k enough)
  where
    from :
        (r : List Event × End)
        → ReceivesUntil fs r
        → Delivers fs (map happened r.0 ++ after_end ending r.1 next) (goes_on ending next)
    from (es, stream_end eof) (d, o) = (es, d, refl)
    from (es, stream_end unexpected_eof) (d, o) = (es, d, refl)
    from (es, stream_end (bad_header e)) (d, o) = absurd o
    from (es, crash_end c) (d, o) = absurd o

abbrev pub dial_of : Option Connection → Option (List ℕ × Ending)
dial_of none = none
dial_of (some c) = some (stream_of c)

abbrev pub AllBroken : List (Option Connection) → Type 0
AllBroken [] = Unit
AllBroken (none ∷ cs) = AllBroken cs
AllBroken (some c ∷ cs) = IsBroken c × AllBroken cs

-- A report for each dial that fails, and for each one that does not the sessions reopened and the
-- events of its frames.
abbrev pub Resumes : List (Option Connection) → List Doing → Type 0
Resumes [] trace = trace ≡ closed ∷ []
Resumes (none ∷ cs) trace = (later : List Doing) × (trace ≡ dial_failed ∷ later) × Resumes cs later
Resumes (some c ∷ cs) trace =
    (now : List Doing) × (later : List Doing) × (trace ≡ reopening ∷ now)
    × Delivers c.0 now (goes_on c.2 later)
    × Resumes cs later

resume-Resumes :
    (cs : List (Option Connection)) → AllBroken cs → Resumes cs (resume (map dial_of cs))
unfolding resume
resume-Resumes [] w = refl
resume-Resumes (none ∷ cs) w = (resume (map dial_of cs), refl, resume-Resumes cs w)
resume-Resumes (some c ∷ cs) (b, w) =
    let later : List Doing = resume (map dial_of cs) in
    (
      on_connection (stream_of c) later,
      later,
      refl,
      on_connection-Delivers c later b,
      resume-Resumes cs w,
    )

-- Over connections that each break at the end of a frame, within a header or within a payload, the
-- receiver has one event for each whole frame, in order, and drops the part at which a connection
-- breaks; after a connection that came to its end it dials, reports each dial that fails, and reopens
-- the sessions once after the one that does not; at net.ErrClosed, and when the client is closed while
-- it dials, it ends, and at any other error it reports the error and ends.
pub run_receiver-Resumes :
    (c : Connection) (cs : List (Option Connection))
    → IsBroken c
    → AllBroken cs
    → (later : List Doing) × Delivers c.0
        (run_receiver (stream_of c) (map dial_of cs))
        (goes_on c.2 later)
      × Resumes cs later
unfolding run_receiver
run_receiver-Resumes c cs b w =
    let later : List Doing = resume (map dial_of cs) in
    (later, on_connection-Delivers c later b, resume-Resumes cs w)
