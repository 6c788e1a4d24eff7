-- ===== src/Session/Lifecycle/Replay.antt =====
-- What a session sends over its life, to a master agent that may answer by all that it was sent.
use go_agentx.Prelude.{ℕ, false, ◌≡◌, none, some, List, [], ◌∷◌, ◌++◌}
use go_agentx.Prelude.Int.{ℤ}
use go_agentx.Oid.{Oid}
use go_agentx.Pdu.Packet.{Packet}
use go_agentx.Pdu.HeaderPacket.{HeaderPacket}
use go_agentx.Client.Requests.{Outcome}
use go_agentx.Session.Lifecycle.{
  check_error, Session, header_for, Attempt, open_session, register_oid, reopen,
}

-- The client with a master agent, and the packets that it has sent.
abbrev pub logged :
    (List HeaderPacket → HeaderPacket → Outcome)
    → HeaderPacket
    → List HeaderPacket
    → Outcome × List HeaderPacket
logged master hp log = (master log hp, log ++ (hp ∷ []))

abbrev pub sent : ℕ → ℕ → Packet → HeaderPacket
sent type id p = record { header = header_for type id; packet = p }

-- The session that openSession returns, with the packet kept for `reopen`.
abbrev new_session : ℤ → ℕ → Packet → Session
new_session timeout id p = record {
  id = id;
  timeout = timeout;
  open_request = some p;
  register_request = none;
  ended = false;
}

abbrev after_register : Session → Packet → Session
after_register s q = record s { register_request = some q }

module _ (master : List HeaderPacket → HeaderPacket → Outcome)
    (confirms : (log : List HeaderPacket) (hp : HeaderPacket) → check_error (master log hp) ≡ none)
    (timeout : ℤ) (name_oid : Oid) (name : List ℕ) (priority : ℕ) (oid : Oid) where
  abbrev pub opened : Attempt × List HeaderPacket
  opened = open_session (logged master) timeout name_oid name []

  abbrev pub registered : Attempt × List HeaderPacket
  registered = register_oid (logged master) priority oid opened.0.1 opened.1

  abbrev pub reopened : Attempt × List HeaderPacket
  reopened = reopen (logged master) registered.0.1 registered.1
