-- ===== src/Client/Reader.antt =====
-- client.go: `readHeaderPacket`, and the receiver's loop over a stream of bytes that then ends.
pub mod Framing
pub mod Loop
pub mod Exchange
use go_agentx.Prelude.{
  ℕ, zero, suc, ◌%◌, ◌<◌, List, [], ◌∷◌, Option, none, some, Bool, true, false, ltb, ◌==◌, not,
  ◌||◌, if◌then◌else◌, length, take, drop, Result, ok, err, crash, Fault, Crash, out_of_fuel,
}
use go_agentx.Pdu.Header
use go_agentx.Pdu.Header.{Header, header_size, max_payload_length}
use go_agentx.Pdu.Packet.{Packet, packet_for_type, unmarshal_packet}
use go_agentx.Pdu.HeaderPacket.{HeaderPacket}
use go_agentx.Client.Replies.{parse_error_response}

-- Why the stream cannot be read on.
pub data StreamError : Type 0 where
  eof unexpected_eof : StreamError
  bad_header : Fault → StreamError

pub data Read : Type 0 where
  packet_read : HeaderPacket → Read
  parse_failed : Header → Fault → Read
  stopped : StreamError → Read
  crashed : Crash → Read

-- `io.ReadFull`: the bytes and the rest of the stream, or the error that the end of it gives.
pub data Filled : Type 0 where
  full : List ℕ → List ℕ → Filled
  cut : StreamError → Filled

abbrev pub end_of : List ℕ → StreamError
end_of [] = eof
end_of (b ∷ bs) = unexpected_eof

unfoldable pub read_full : ℕ → List ℕ → Filled
read_full n stream =
    if ltb (length stream) n then cut (end_of stream) else full (take n stream) (drop n stream)

-- The zero value of the struct.
abbrev pub zero_header : Header
zero_header = record {
  version = 0;
  type = 0;
  flags = 0;
  session_id = 0;
  transaction_id = 0;
  packet_id = 0;
  payload_length = 0;
}

-- The header was refused: its payload is skipped if its length is plausible.
unfoldable pub skip_payload : Header → Fault → List ℕ → Read × List ℕ
skip_payload h e stream =
    if not (h.payload_length % 4 == 0) || ltb max_payload_length h.payload_length
    then (stopped (bad_header e), stream)
    else if ltb (length stream) h.payload_length
    then (stopped eof, [])
    else (parse_failed h e, drop h.payload_length stream)

abbrev pub decoded : Header → Result Packet → Read
decoded h (ok p) = packet_read (record { header = h; packet = p })
decoded h (err e) = parse_failed h e
decoded h (crash c) = crashed c

unfoldable pub decode_payload : Header → List ℕ → Read
decode_payload h bytes =
    decoded h (unmarshal_packet (packet_for_type h.type) bytes (Header.byte_order h.flags))

unfoldable pub payload_read : Header → Filled → Read × List ℕ
payload_read h (cut e) = (stopped e, [])
payload_read h (full bytes rest) = (decode_payload h bytes, rest)

unfoldable pub read_payload : Header → List ℕ → Read × List ℕ
read_payload h stream = payload_read h (read_full h.payload_length stream)

-- By what `header.UnmarshalBinary` returned after it filled the header in.
unfoldable pub read_validated : Header → Result (Unit {0}) → List ℕ → Read × List ℕ
read_validated h (ok u) stream = read_payload h stream
read_validated h (err e) stream = skip_payload h e stream
read_validated h (crash c) stream = (crashed c, stream)

unfoldable pub read_body : Result Header → List ℕ → Read × List ℕ
read_body (ok h) stream = read_validated h (Header.validate h) stream
read_body (err e) stream = skip_payload zero_header e stream
read_body (crash c) stream = (crashed c, stream)

unfoldable pub header_read : Filled → Read × List ℕ
header_read (cut e) = (stopped e, [])
header_read (full bytes rest) = read_body (Header.unmarshal_fields bytes) rest

-- One packet off the stream, and the stream behind it.
unfoldable pub read_header_packet : List ℕ → Read × List ℕ
read_header_packet stream = header_read (read_full header_size stream)

-- What the receiver does with one packet: hand it to the dispatcher, or answer its header.
pub data Event : Type 0 where
  delivered : HeaderPacket → Event
  answered : Option HeaderPacket → Event

-- How the loop ends: by the stream's error, or by a crash.
pub data End : Type 0 where
  stream_end : StreamError → End
  crash_end : Crash → End

abbrev prepend : Event → List Event × End → List Event × End
prepend e r = (e ∷ r.0, r.1)

-- One round of the loop; `next` is the loop on the rest of the stream.
unfoldable pub round : (List ℕ → List Event × End) → Read × List ℕ → List Event × End
round next (packet_read hp, rest) = prepend (delivered hp) (next rest)
round next (parse_failed h e, rest) = prepend (answered (parse_error_response h)) (next rest)
round next (stopped e, rest) = ([], stream_end e)
round next (crashed c, rest) = ([], crash_end c)

-- `runReceiver` on an open client up to the end of the connection.
unfoldable pub receive : ℕ → List ℕ → List Event × End
receive zero stream = ([], crash_end out_of_fuel)
receive (suc fuel) stream = round (receive fuel) (read_header_packet stream)
