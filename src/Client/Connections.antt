-- ===== src/Client/Connections.antt =====
-- client.go: `runReceiver` and `reconnect` over all the connections of a client, one after the other.
pub mod Closing
pub mod Resumed
use go_agentx.Prelude.{ℕ, suc, Option, none, some, List, [], ◌∷◌, ◌++◌, map, length, Fault, Crash}
use go_agentx.Client.Reader.{
  eof, unexpected_eof, bad_header, Event, End, stream_end, crash_end, receive,
}

-- How a connection ends behind its bytes: by io.EOF, by net.ErrClosed, or by another error.
pub data Ending : Type 0 where
  ended shut broken : Ending

-- What the receiver does: a packet, a dial that fails and is reported, a dial that is followed by
-- `go c.reopenSessions()`, and its end: the client is closed, another error of the connection is
-- reported, a header gives no next packet, or a panic.
pub data Doing : Type 0 where
  happened : Event → Doing
  dial_failed reopening closed read_failed : Doing
  header_failed : Fault → Doing
  panicked : Crash → Doing

-- By the error that `io.ReadFull` gives at the end of the bytes: it makes an io.ErrUnexpectedEOF of
-- an io.EOF, and leaves other errors as they are. `next` is `reconnect` and what comes after it.
abbrev pub goes_on : Ending → List Doing → List Doing
goes_on ended next = next
goes_on shut next = closed ∷ []
goes_on broken next = read_failed ∷ []

abbrev pub after_end : Ending → End → List Doing → List Doing
after_end ending (stream_end eof) next = goes_on ending next
after_end ending (stream_end unexpected_eof) next = goes_on ending next
after_end ending (stream_end (bad_header e)) next = header_failed e ∷ []
after_end ending (crash_end c) next = panicked c ∷ []

-- The loop on one connection, which gives the bytes `stream` and then ends.
abbrev pub on_connection : List ℕ × Ending → List Doing → List Doing
on_connection (stream, ending) next =
    let r = receive (suc (length stream)) stream in map happened r.0 ++ after_end ending r.1 next

-- `reconnect` and what follows it. The list has what each `net.Dial` gives: no connection, or one with
-- the bytes that come on it. At the end of the list the client is closed.
unfoldable pub resume : List (Option (List ℕ × Ending)) → List Doing
resume [] = closed ∷ []
resume (none ∷ dials) = dial_failed ∷ resume dials
resume (some c ∷ dials) = let next = resume dials in reopening ∷ on_connection c next

unfoldable pub run_receiver : List ℕ × Ending → List (Option (List ℕ × Ending)) → List Doing
run_receiver c dials = on_connection c (resume dials)
