-- ===== src/Session/Lifecycle.antt =====
-- session.go: what a session asks of the master agent, over the client's `request` as a function on a
-- state of the client; and client.go: the sessions of a client and their reopening.
pub mod Replay
pub mod Reopening
pub mod Table
use go_agentx.Prelude.{
  ℕ, Bool, true, false, Option, none, some, List, [], ◌∷◌, ◌==◌, if◌then◌else◌, Fault, Crash,
}
use go_agentx.Prelude.Int.{ℤ, pos}
use go_agentx.Prelude.Dict.{insert, remove}
use go_agentx.Oid.{Oid}
use go_agentx.Pdu.ObjectIdentifier
use go_agentx.Pdu.Header.{Header}
use go_agentx.Pdu.Variable.{Variable}
use go_agentx.Pdu.Packet.{
  Packet, open_packet, close, register, unregister, notify, response, type_open, type_register,
  type_notify,
}
use go_agentx.Pdu.HeaderPacket.{HeaderPacket}
use go_agentx.Client.Replies.{error_none}
use go_agentx.Client.Requests.{Outcome, got, timed_out, client_closed, not_encoded, panicked}

-- The errors of the methods: those of `request`, the status of a response, and the two of Register
-- and Unregister.
pub data SessionError : Type 0 where
  request_timeout closed_client already_registered not_registered : SessionError
  unencodable : Fault → SessionError
  crashed : Crash → SessionError
  status : ℕ → SessionError

abbrev status_of : Packet → Option SessionError
status_of (response r) = if r.error == error_none then none else some (status r.error)
status_of _ = none

-- `checkError`, on what `request` returned.
unfoldable pub check_error : Outcome → Option SessionError
check_error (got hp) = status_of hp.packet
check_error timed_out = some request_timeout
check_error client_closed = some closed_client
check_error (not_encoded e) = some (unencodable e)
check_error (panicked c) = some (crashed c)

-- The session id of the header of the response.
abbrev pub session_id_of : Outcome → ℕ
session_id_of (got hp) = hp.header.session_id
session_id_of _ = 0

pub record Session : Type 0 where
  pub id : ℕ
  pub timeout : ℤ
  pub open_request : Option Packet
  pub register_request : Option Packet
  pub ended : Bool

-- The header of a request, with the session id that `Session.request` writes to it.
abbrev pub header_for : ℕ → ℕ → Header
header_for type id = record {
  version = 0;
  type = type;
  flags = 0;
  session_id = id;
  transaction_id = 0;
  packet_id = 0;
  payload_length = 0;
}

-- The packets that the methods build.
abbrev pub opening : ℤ → Oid → List ℕ → Packet
opening timeout name_oid name = open_packet (record {
  timeout = record { duration = timeout; priority = 0 };
  id = ObjectIdentifier.set_identifier name_oid ObjectIdentifier.empty;
  description = record { text = name };
})

abbrev pub registering : ℤ → ℕ → Oid → Packet
registering timeout priority oid = register (record {
  timeout = record { duration = timeout; priority = priority };
  subtree = ObjectIdentifier.set_identifier oid ObjectIdentifier.empty;
})

abbrev pub unregistering : ℕ → Oid → Packet
unregistering priority oid = unregister (record {
  timeout = record { duration = pos 0; priority = priority };
  subtree = ObjectIdentifier.set_identifier oid ObjectIdentifier.empty;
})

-- `pdu.ReasonShutdown`
abbrev pub reason_shutdown : ℕ
reason_shutdown = 5

-- A method's error, if any, and the session after it.
abbrev pub Attempt : Type 0
Attempt = Option SessionError × Session

-- The change of the session on success alone.
abbrev pub if_confirmed : Outcome → Session → Session → Attempt
if_confirmed o s s' = elim (check_error o) [ some e ↦ (some e, s) | none ↦ (none, s') ]

-- What `reopenSessions` leaves: the new table, the errors that are reported, and the sessions.
pub record Reopened : Type 0 where
  pub table : List (ℕ × ℕ)
  pub reports : List SessionError
  pub sessions : List (ℕ × Session)

abbrev pub after_reopen : ℕ → Attempt → Reopened → Reopened
after_reopen j (some e, s) r = record r { reports = e ∷ r.reports; sessions = (j, s) ∷ r.sessions }
after_reopen j (none, s) r = record r {
  table = insert s.id j r.table;
  sessions = (j, s) ∷ r.sessions;
}

module _ {C : Type 0} (request : HeaderPacket → C → Outcome × C) where
  -- `Session.request`
  unfoldable pub exchange : Session → ℕ → Packet → C → Outcome × C
  exchange s type p c = request (record { header = header_for type s.id; packet = p }) c

  -- `openSession`; a session that was refused is not kept.
  unfoldable pub open_session : ℤ → Oid → List ℕ → C → Attempt × C
  open_session timeout name_oid name c =
      let p = opening timeout name_oid name in
      let s : Session = record {
        id = 0;
        timeout = timeout;
        open_request = none;
        register_request = none;
        ended = false;
      } in
      let (o, c') = exchange s type_open p c in
      (if_confirmed o s (record s { id = session_id_of o; open_request = some p }), c')

  unfoldable pub register_oid : ℕ → Oid → Session → C → Attempt × C
  register_oid priority oid s c = elim s.register_request [
    | some p ↦ ((some already_registered, s), c)
    | none ↦
        let p = registering s.timeout priority oid in
        let (o, c') = exchange s type_register p c in
        (if_confirmed o s (record s { register_request = some p }), c')
  ]

  unfoldable pub unregister_oid : ℕ → Oid → Session → C → Attempt × C
  unregister_oid priority oid s c = elim s.register_request [
    | none ↦ ((some not_registered, s), c)
    | some q ↦
        let (o, c') = exchange s 0 (unregistering priority oid) c in
        (if_confirmed o s (record s { register_request = none }), c')
  ]

  -- `Close`, with the client's table of sessions: the session ends whatever the answer is.
  unfoldable pub close_session :
      Session → List (ℕ × ℕ) → C → (Option SessionError × Session × List (ℕ × ℕ)) × C
  close_session s table c =
      let (o, c') = exchange s 0 (close reason_shutdown) c in
      ((check_error o, record s { ended = true }, remove s.id table), c')

  unfoldable pub send_trap : ℤ → List Variable → Session → C → Option SessionError × C
  send_trap timestamp vs s c =
      let (o, c') =
        exchange s type_notify (notify (record { timestamp = timestamp; variables = vs })) c in
      (check_error o, c')

  -- The two halves of `reopen`.
  unfoldable pub reopen_open : Session → C → Attempt × C
  reopen_open s c = elim s.open_request [
    | none ↦ ((none, s), c)
    | some p ↦
        let fresh : Session = record s { id = 0 } in
        let (o, c') = exchange fresh type_open p c in
        (if_confirmed o fresh (record s { id = session_id_of o }), c')
  ]

  unfoldable pub reopen_register : Session → C → Attempt × C
  reopen_register s c = elim s.register_request [
    | none ↦ ((none, s), c)
    | some q ↦ let (o, c') = exchange s type_register q c in ((check_error o, s), c')
  ]

  abbrev pub reopen_rest : Attempt × C → Attempt × C
  reopen_rest ((some e, s), c) = ((some e, s), c)
  reopen_rest ((none, s), c) = reopen_register s c

  unfoldable pub reopen : Session → C → Attempt × C
  reopen s c = reopen_rest (reopen_open s c)

  -- The loop of `reopenSessions`, over the named sessions of the old table in some order.
  unfoldable pub reopen_loop : List (ℕ × Session) → C → Reopened → Reopened × C
  reopen_loop [] c r = (r, c)
  reopen_loop ((j, s) ∷ rest) c r =
      let (a, c') = reopen s c in reopen_loop rest c' (after_reopen j a r)

  -- `reopenSessions`: the table, with the session ids of the lost connection, is replaced by an empty
  -- one before the loop.
  unfoldable pub reopen_sessions : List (ℕ × Session) → C → Reopened → Reopened × C
  reopen_sessions ss c r = reopen_loop ss c (record r { table = [] })
