-- ===== src/Lib.antt =====
-- go-agentx: the subagent side of the AgentX protocol (RFC 2741).
--
-- A client keeps a connection to the master agent. Its receiver takes packets off the byte stream,
-- its dispatcher hands them to sessions, and a session answers each request by calling a handler,
-- which is user code; the list handler is the one that comes with the library. The packets are
-- encoded and decoded by the package pdu, over the OIDs of the package value.
--
-- The parts:
--   Prelude: lists, Boolean tests and integers (Tests, Lists, Int), maps (Dict), the result of
--     fallible code (Outcome), encoding/binary in the two byte orders (Words), and the bytes of a text
--     (Text).
--   Oid: value/oid.go. An OID is a list of numbers, a text the list of its bytes. Order and Sort are
--     about CompareOIDs and SortOIDs, Prefix about CommonPrefix, Text about ParseOID and String,
--     Numerals about the texts that ParseOID accepts.
--   Pdu: a module for each file of pdu/. In each, marshal_binary and unmarshal_binary_order are the
--     methods MarshalBinary and UnmarshalBinaryOrder; the modules named Wire have the layout of RFC
--     2741 and the theorems on it. In Variable, Value is about the encoding of
--     values, Encoded and Aligned about which bindings are encoded and in how many bytes. Sequence is
--     the loop that ranges.go and variables.go share.
--     Administrative is open.go, close.go, register.go and unregister.go. Packet has a constructor
--     for each type that implements the interface Packet, with packetForType and unmarshalPacket of
--     client.go; Notify/Encoded is about a notification with its timestamp; Minor has the types with no payload or none that is decoded. Names has the methods
--     String, over what %v of fmt makes of a value; Names/Distinct is about the names of numbers.
--   Marshaler: marshaler/multi.go.
--   Client: client.go, of which each module takes the functions that share a part of the state.
--     Replies has the answers that the client makes itself, Reader the function readHeaderPacket
--     and the loop of runReceiver on one connection; Reader/Framing and Reader/Loop are about what
--     they do on a stream, Reader/Exchange about a response from one end of a connection to the
--     other. Connections has runReceiver and reconnect over all the connections,
--     Connections/Closing their steps among those of Close. Requests has the method request with
--     the table of pending packet ids and whether the transmitter can take a frame, Dispatch the dispatcher with enqueue and run of session.go,
--     Sending the method send, Transmitter the methods sendBytes and runTransmitter, Errors the
--     methods reportError and Close, and Options dial_options.go. Requests/Tables and
--     Requests/Invariant are about the table in every reachable state, Requests/Kept and
--     Requests/Progress about a call; Dispatch/Serial and Dispatch/Answers are about a session
--     among the others; Transmitter/Frames is about what is written, Transmitter/Progress about a
--     call of sendBytes. Serving composes the reader, a session and the encoding of its answer,
--     from the bytes of a request to the frame that is sent; Serving/Lists is about the list
--     handler behind it, and Serving/Streams about any number of requests.
--   Handler: handler.go. A handler is a record of functions over a state of its own, a parameter of
--     all that is said about sessions; two_phase is what the type assertion to SetHandler gives.
--   ListHandler: list_handler.go and list_item.go. Lookup is about Get and Set, Next about GetNext,
--     Walk about a walk by it, Register about Add, and Register/Noncanonical about an OID that
--     is added in another text than String gives it.
--   Session: session.go, the method handle. The state is that of the handler with the pending
--     sets by transaction. Search is about Get and GetNext, Replies about the answers, Pending
--     about the map, and Transaction and Commit about TestSet, CommitSet, UndoSet and CleanupSet.
--     Lifecycle has the other methods: what a session asks of the master agent, and the loop of
--     reopenSessions of client.go; Lifecycle/Replay is about one session and its master agent,
--     Lifecycle/Reopening about the sessions of a client. Lifecycle/Table has the table of sessions
--     under everything that changes it, with Members, Invariant and Kept about what it keeps, and
--     Closing about a session that is closed.
--   Tests: the theorems at concrete inputs.
--
-- How Go is modelled:
--   A byte, uint16, uint32 or uint64 is a natural number, and every conversion is written with its
--   `% 2 ^ w`. A Go int or time.Duration is an integer. A panic is a crash of Outcome.Result, an
--   error one of its faults, one for each message. Indexing and slicing crash out of range, as in
--   Go. What an `interface{}` holds is a GoValue. A method that writes to its receiver returns the
--   new value.
--   net.IP.To4, strconv.ParseUint, strings.Split, fmt's %d, sort.Slice, io.ReadFull, io.CopyN and
--   errors.As are written as they are documented. `SortOIDs` is a stable insertion here; equal OIDs
--   are equal values, so that no other sorting gives another list.
--   A connection is the list of the bytes that it will give before its end, and the way in which it
--   ends.
--
-- Goroutines: Requests, Dispatch, Transmitter, Errors, Connections/Closing and Lifecycle/Table
--   are step relations on the state that the goroutines share. A step is what one of them does
--   between two points where another may act: a section under a mutex, a send or a receive on a
--   channel, a case of a select. Where several cases are ready any of them may be taken, and a
--   timer may fire as soon as it is set, so that what is shown of every run does not rest on a
--   scheduler or on times. A channel is a list with a bound, or a value where it holds one. The
--   mutexes are those of Go's sync, as documented. Dispatch contains the steps of Requests, and
--   lets the table of sessions change at any time and in any way; Lifecycle/Table has the ways in
--   which it does change. Transmitter, Errors and Connections/Closing each have a part of the
--   client's state, and share `done` and the current connection. In Lifecycle `request` is a
--   parameter, a function on a state.
--
-- Fuel: decode_all, the loop of ranges.go and variables.go, runs on the length of its bytes, and each
-- round takes one byte at least. receive, the loop of runReceiver, runs on a number above the length
-- of the stream. Running out is a crash, and the theorems that exclude a panic exclude it too. The
-- digits of a uint32 are written in ten rounds.
--
-- Not modelled: the passing of time; Dial, and what a peer makes of a connection that is closed;
-- logging; the String methods of Timeout and HeaderPacket, which are calls of time and of fmt
-- alone. Buffers of 2 ^ 32 bytes and more are excluded where the code adds 32-bit lengths.
pub mod Prelude
pub mod Oid
pub mod Pdu
pub mod Marshaler
pub mod Client
pub mod Handler
pub mod ListHandler
pub mod Session
pub mod Tests
