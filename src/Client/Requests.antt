-- ===== src/Client/Requests.antt =====
-- client.go: `request` and the tables that join it to the dispatcher, as a step relation. Each call
-- of `request` runs on the goroutine of its caller, and the dispatcher and `Close` on others: a step
-- is what one of them does between two points where another may act.
pub mod Tables
pub mod Invariant
pub mod Kept
pub mod Progress
use go_agentx.Prelude.{
  ℕ, ◌+◌, ◌%◌, ◌^◌, ◌≡◌, Bool, true, Option, none, some, List, [], ◌∷◌, ◌++◌, Result, ok, err,
  crash, Fault, Crash,
}
use go_agentx.Prelude.Dict.{find, insert, remove, update}
use go_agentx.Pdu.Header.{Header}
use go_agentx.Pdu.Packet.{type_response}
use go_agentx.Pdu.HeaderPacket
use go_agentx.Pdu.HeaderPacket.{HeaderPacket}

-- What `request` returns: the response, `ErrRequestTimeout`, `ErrClientClosed`, or the error of
-- encoding the packet.
pub data Outcome : Type 0 where
  got : HeaderPacket → Outcome
  timed_out client_closed : Outcome
  not_encoded : Fault → Outcome
  panicked : Crash → Outcome

-- Where a call stands, with the local variables that are live there.
pub data Call : Type 0 where
  idle : Call
  numbered : HeaderPacket → Call  -- the packet id is set
  listed : List ℕ → Call  -- after addPending, in sendBytes
  waiting : Call  -- in the select
  leaving : Outcome → Call  -- before the deferred takePending
  returned : Outcome → Call

-- The goroutine of `runTransmitter`: in its select, in the Write of a frame, or returned.
pub data Transmitting : Type 0 where
  ready in_write gone : Transmitting

-- Calls are named by the order in which they draw their packet ids, so that `begun` is how many have,
-- and `nextPacketID` is `begun` as a uint32. `pending` gives the call that waits for a packet id, and
-- `chans` what is in the buffered channel of a call. `delivering` is the dispatcher between
-- takePending and the send on the channel; `sent` are the frames that the transmitter took.
pub record Requests : Type 0 where
  pub begun : ℕ
  pub pending : List (ℕ × ℕ)
  pub calls : ℕ → Call
  pub chans : ℕ → Option HeaderPacket
  pub delivering : Option (ℕ × HeaderPacket)
  pub sent : List (List ℕ)
  pub transmitter : Transmitting
  pub done : Bool

abbrev pub none_begun : Requests
none_begun = record {
  begun = 0;
  pending = [];
  calls = λ k. idle;
  chans = λ k. none;
  delivering = none;
  sent = [];
  transmitter = ready;
  done = Bool.false;
}

-- `c.nextPacketID.Add(1) - 1`, as a uint32.
abbrev pub packet_id_of : ℕ → ℕ
packet_id_of k = k % 2 ^ 32

abbrev pub set_call : ℕ → Call → Requests → Requests
set_call k c s = record s { calls = update s.calls k c }

-- `addPending` and `takePending`
unfoldable pub add_pending : ℕ → ℕ → Requests → Requests
add_pending id k s = record s { pending = insert id k s.pending }

unfoldable pub take_pending : ℕ → Requests → Option ℕ × Requests
take_pending id s = (find id s.pending, record s { pending = remove id s.pending })

abbrev pub with_packet_id : ℕ → HeaderPacket → HeaderPacket
with_packet_id id hp = record hp { header = record hp.header { packet_id = id } }

-- The call draws its packet id and writes it to the header.
unfoldable pub begin : HeaderPacket → Requests → Requests
begin hp s = record s {
  begun = s.begun + 1;
  calls = update s.calls s.begun (numbered (with_packet_id (packet_id_of s.begun) hp));
}

-- An error of `MarshalBinary` is returned, and otherwise the call is listed.
unfoldable pub after_encoding : ℕ → Result (List ℕ) → Requests → Requests
after_encoding k (ok frame) s = add_pending (packet_id_of k) k (set_call k (listed frame) s)
after_encoding k (err e) s = set_call k (returned (not_encoded e)) s
after_encoding k (crash c) s = set_call k (returned (panicked c)) s

-- `sendBytes`, where the transmitter takes the frame.
unfoldable pub send_frame : ℕ → List ℕ → Requests → Requests
send_frame k frame s = record s {
  calls = update s.calls k waiting;
  sent = s.sent ++ (frame ∷ []);
  transmitter = in_write;
}

-- A receive from the channel of the call.
unfoldable pub receive : ℕ → HeaderPacket → Requests → Requests
receive k hp s = record s {
  calls = update s.calls k (leaving (got hp));
  chans = update s.chans k none;
}

-- The deferred takePending.
unfoldable pub leave : ℕ → Outcome → Requests → Requests
leave k o s = (take_pending (packet_id_of k) (set_call k (returned o) s)).1

-- The dispatcher on a response: one that no call waits for is dropped.
unfoldable pub match_response : HeaderPacket → Requests → Requests
match_response hp s =
    let (owner, s') = take_pending hp.header.packet_id s in
    elim owner [ none ↦ s' | some k ↦ record s' { delivering = some (k, hp) } ]

-- The send on the channel of the call.
unfoldable pub deliver : ℕ → HeaderPacket → Requests → Requests
deliver k hp s = record s { chans = update s.chans k (some hp); delivering = none }

-- A step of some goroutine. A timer may fire as soon as a call waits, and where a select has several
-- cases that are ready, any of them may be taken. A send on a channel needs room in it, and one on
-- `tx` needs the transmitter in its select. The frames of the sessions occupy it too.
pub data Step (s : Requests) : Requests → Type 0 where
  begins : (hp : HeaderPacket) → Step s (begin hp s)
  encodes :
      (k : ℕ) (hp : HeaderPacket)
      → s.calls k ≡ numbered hp
      → Step s (after_encoding k (HeaderPacket.marshal_binary hp) s)
  sends :
      (k : ℕ) (frame : List ℕ)
      → s.calls k ≡ listed frame
      → s.transmitter ≡ ready
      → Step s (send_frame k frame s)
  refuses :
      (k : ℕ) (frame : List ℕ)
      → s.calls k ≡ listed frame
      → s.done ≡ true
      → Step s (set_call k (leaving client_closed) s)
  receives :
      (k : ℕ) (hp : HeaderPacket)
      → s.calls k ≡ waiting
      → s.chans k ≡ some hp
      → Step s (receive k hp s)
  expires : (k : ℕ) → s.calls k ≡ waiting → Step s (set_call k (leaving timed_out) s)
  abandons :
      (k : ℕ) → s.calls k ≡ waiting → s.done ≡ true → Step s (set_call k (leaving client_closed) s)
  leaves : (k : ℕ) (o : Outcome) → s.calls k ≡ leaving o → Step s (leave k o s)
  matches :
      (hp : HeaderPacket)
      → s.delivering ≡ none
      → hp.header.type ≡ type_response
      → Step s (match_response hp s)
  delivers :
      (k : ℕ) (hp : HeaderPacket)
      → s.delivering ≡ some (k, hp)
      → s.chans k ≡ none
      → Step s (deliver k hp s)
  occupies : s.transmitter ≡ ready → Step s (record s { transmitter = in_write })
  writes : s.transmitter ≡ in_write → Step s (record s { transmitter = ready })
  stops : s.transmitter ≡ ready → s.done ≡ true → Step s (record s { transmitter = gone })
  closes : Step s (record s { done = true })

pub data Reach : Requests → Type 0 where
  start : Reach none_begun
  next : {s t : Requests} → Reach s → Step s t → Reach t
