-- ===== src/Tests/Lifecycle.antt =====
-- The life of a session, and the reopening of two, at concrete inputs.
use go_agentx.Prelude.{
  ℕ, ◌≡◌, ◌+◌, refl, true, false, none, some, Option, List, [], ◌∷◌, map, length,
}
use go_agentx.Prelude.Int.{pos}
use go_agentx.Prelude.Dict.{find}
use go_agentx.Pdu.Packet.{response, close}
use go_agentx.Pdu.HeaderPacket.{HeaderPacket}
use go_agentx.Client.Replies.{
  reply_header, error_packet, error_response, error_not_open, expects_response,
}
use go_agentx.Client.Requests.{Outcome, got}
use go_agentx.Session.Lifecycle.{
  Reopened, Session, check_error, opening, registering, Attempt, reopen, reopen_open,
  reopen_register, exchange, reopen_sessions,
}
use go_agentx.Session.Lifecycle.Replay.{logged}
use go_agentx.Session.Lifecycle.Reopening.{attempts, NoneGives, reopened_routed, stale_refused}
use go_agentx.Client.Dispatch.{Agent, fresh, dispatch, snoc}
use go_agentx.Handler.{Handler}
use go_agentx.ListHandler.{ListHandler, empty, handler}

-- A master agent that confirms whatever it gets, and numbers its answers.
abbrev ids : List HeaderPacket → ℕ
ids log = length log + 1

abbrev master : List HeaderPacket → HeaderPacket → Outcome
master log hp = got (record {
  header = record (reply_header hp.header) { session_id = ids log };
  packet = response (error_packet 0);
})

abbrev subtree : List ℕ
subtree = 1 ∷ 3 ∷ 6 ∷ 1 ∷ []

abbrev first : Session
first = record {
  id = 4;
  timeout = pos 5;
  open_request = some (opening (pos 5) [] []);
  register_request = some (registering (pos 5) 127 subtree);
  ended = false;
}

abbrev second : Session
second = record first { id = 8; register_request = none }

abbrev sessions : List (ℕ × Session)
sessions = (0, first) ∷ (1, second) ∷ []

abbrev outcome : List (ℕ × Attempt)
outcome = (0, (none, record first { id = 1 })) ∷ (1, (none, record second { id = 3 })) ∷ []

sessions-outcome : attempts (logged master) sessions [] ≡ outcome
unfolding attempts reopen reopen_open reopen_register exchange check_error
sessions-outcome = refl

-- The table of the lost connection.
abbrev lost : Reopened
lost = record { table = (4, 0) ∷ (5, 1) ∷ []; reports = []; sessions = [] }

reopened_routed_example :
    (map (λ (k, a). k) (attempts (logged master) sessions []) ≡ map (λ (k, t). k) sessions)
    × (find 1 (reopen_sessions (logged master) sessions [] lost).0.table ≡ some 0)
reopened_routed_example =
    reopened_routed (logged master) sessions [] lost [] ((1, (none, record second { id = 3 })) ∷ [])
      0 (record first { id = 1 }) sessions-outcome (refl, tt)

-- A request under the old session id of the first session.
abbrev stale : HeaderPacket
stale = record {
  header = record {
    version = 1;
    type = 8;
    flags = 0;
    session_id = 4;
    transaction_id = 6;
    packet_id = 7;
    payload_length = 0;
  };
  packet = close 5;
}

abbrev handlers : ℕ → Option (Handler ListHandler)
handlers j = some handler

abbrev agent : Agent ListHandler
agent = record (fresh handlers (λ j. record { handler_state = empty; pending = [] })) {
  routes = (reopen_sessions (logged master) sessions [] lost).0.table;
}

stale-unknown : NoneGives 4 (attempts (logged master) sessions [])
unfolding attempts reopen reopen_open reopen_register exchange check_error
stale-unknown = (refl, (refl, tt))

stale-expects : expects_response 8 ≡ true
unfolding expects_response
stale-expects = refl

stale_refused_example :
    dispatch stale agent
    ≡ record agent { refusals = snoc agent.refusals (error_response stale.header error_not_open) }
stale_refused_example =
    stale_refused (logged master) sessions [] lost stale agent refl stale-unknown stale-expects
