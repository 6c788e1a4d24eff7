-- ===== src/Session.antt =====
-- session.go: `handle`, which answers one request of the master agent. A session runs it on one
-- goroutine, so that requests are handled one after the other.
pub mod Pending
pub mod Search
pub mod Replies
pub mod Transaction
pub mod Commit
pub mod Lifecycle
use go_agentx.Prelude.{
  ℕ, zero, suc, ◌+◌, ◌%◌, ◌^◌, Bool, true, false, ◌&&◌, Option, none, some, List, [], ◌∷◌, ◌++◌,
  leb, ◌==◌, if◌then◌else◌,
}
use go_agentx.Prelude.Int.{pos}
use go_agentx.Prelude.Dict.{find, insert, remove}
use go_agentx.Oid.{Oid}
use go_agentx.Pdu.ObjectIdentifier
use go_agentx.Pdu.Range.{Range}
use go_agentx.Pdu.Variable.{Variable, GoValue, nil, type_no_such_object, type_end_of_mib_view}
use go_agentx.Pdu.Variables
use go_agentx.Pdu.Response
use go_agentx.Pdu.Response.{Response}
use go_agentx.Pdu.Header.{Header}
use go_agentx.Pdu.Packet.{
  Packet, open_packet, close, register, unregister, get, get_next, test_set, allocate_index,
  deallocate_index, commit_set, undo_set, cleanup_set, notify, response, unsupported,
}
use go_agentx.Pdu.HeaderPacket.{HeaderPacket}
use go_agentx.Client.Replies.{reply_header, error_none, error_gen_err}
use go_agentx.Handler.{
  GoError, errors_as, Context, Answer, failed, found, SetRequest, SetHandler, Handler,
}

abbrev pub error_commit_failed : ℕ
error_commit_failed = 14

abbrev pub error_undo_failed : ℕ
error_undo_failed = 15

abbrev pub error_not_writable : ℕ
error_not_writable = 17

abbrev pub error_processing : ℕ
error_processing = 268

-- The map of pending sets by transaction id; the program never iterates over it.
abbrev pub PendingSets : Type 0
PendingSets = List (ℕ × List SetRequest)

unfoldable pub pending_for : ℕ → PendingSets → Option (List SetRequest)
pending_for t sets = find t sets

unfoldable pub store_pending : ℕ → List SetRequest → PendingSets → PendingSets
store_pending t reqs sets = insert t reqs sets

unfoldable pub delete_pending : ℕ → PendingSets → PendingSets
delete_pending t sets = remove t sets

-- The handler's own state and the pending sets.
pub record State (H : Type 0) : Type 0 where
  pub handler_state : H
  pub pending : PendingSets

-- `setErrorOr`, with the fallback that both of its callers give.
unfoldable pub set_error_or : GoError → ℕ → ℕ
set_error_or err fallback = elim (errors_as err) [
  | none ↦ fallback
  | some e ↦ if e == error_none then fallback else e
]

-- `getError` and `setError`
abbrev pub get_error : GoError → ℕ
get_error err = set_error_or err error_gen_err

-- `unsupportedError`
unfoldable pub unsupported_error : ℕ → ℕ
unsupported_error t = if leb 5 t && leb t 11 then error_gen_err else error_processing

-- `fail(err, index)`: the error and the 1-based index as a uint16, and no bindings.
abbrev pub fail : ℕ → ℕ → Response
fail e index = record { up_time = pos 0; error = e; index = index % 2 ^ 16; variables = [] }

abbrev pub bindings : List Variable → Response
bindings vs = record { up_time = pos 0; error = error_none; index = 0; variables = vs }

-- `&pdu.Response{}` with an error and no index.
abbrev pub with_error : ℕ → Response
with_error e = record { up_time = pos 0; error = e; index = 0; variables = [] }

abbrev pub set_request : Variable → SetRequest
set_request v = record {
  oid = ObjectIdentifier.get_identifier v.name;
  type = v.type;
  value = v.value;
}

-- What the loop of testSet leaves: the response, the accepted requests or nil, and the state.
pub record Tested (H : Type 0) : Type 0 where
  pub answer : Response
  pub accepted : Option (List SetRequest)
  pub state : H

abbrev pub context_of : Header → Context
context_of h = record {
  session_id = h.session_id;
  transaction_id = h.transaction_id;
  packet_id = h.packet_id;
}

module _ {H : Type 0} where
  -- One search range of a Get: with no handler the answer is that of a handler with no such object.
  unfoldable pub ask_get : Option (Handler H) → Context → Range → H → Answer × H
  ask_get none ctx r h = (found none type_no_such_object nil, h)
  ask_get (some handler) ctx r h = handler.get ctx (ObjectIdentifier.get_identifier r.from) h

  unfoldable pub ask_get_next : Option (Handler H) → Context → Range → H → Answer × H
  ask_get_next none ctx r h = (found none type_end_of_mib_view nil, h)
  ask_get_next (some handler) ctx r h =
      handler.get_next ctx (ObjectIdentifier.get_identifier r.from)
        (ObjectIdentifier.get_include r.from) (ObjectIdentifier.get_identifier r.to) h

  -- The body of the loop over the search ranges: an error ends it; an answer with no name is the
  -- starting OID with the type `missing`.
  abbrev pub after_answer :
      ℕ → Range → ℕ → List Variable → (List Variable → H → Response × H) → Answer × H → Response × H
  after_answer missing r index vs next (failed err, h) = (fail (get_error err) (index + 1), h)
  after_answer missing r index vs next (found none t v, h) =
      next (Variables.add (ObjectIdentifier.get_identifier r.from) missing nil vs) h
  after_answer missing r index vs next (found (some name) t v, h) =
      next (Variables.add name t v vs) h

  -- The loop of Get and of GetNext, from the range with the 0-based index on.
  unfoldable pub search_loop :
      (Range → H → Answer × H) → ℕ → List Range → ℕ → List Variable → H → Response × H
  search_loop ask missing [] index vs h = (bindings vs, h)
  search_loop ask missing (r ∷ rs) index vs h =
      after_answer missing r index vs (λ vs' h'. search_loop ask missing rs (index + 1) vs' h')
        (ask r h)

  -- One binding of a testSet: `TestSet` of a two-phase handler, and else `Set`.
  unfoldable pub test_one : Handler H → Context → SetRequest → H → Option GoError × H
  test_one handler ctx req h = elim handler.two_phase [
    | some sh ↦ sh.test_set ctx req h
    | none ↦ handler.set ctx req h
  ]

  abbrev pub after_test :
      SetRequest
      → ℕ
      → List SetRequest
      → (List SetRequest → H → Tested H)
      → Option GoError × H
      → Tested H
  after_test req index accepted next (some err, h) = record {
    answer = fail (get_error err) (index + 1);
    accepted = none;
    state = h;
  }
  after_test req index accepted next (none, h) = next (accepted ++ (req ∷ [])) h

  unfoldable pub test_loop :
      (SetRequest → H → Option GoError × H) → List Variable → ℕ → List SetRequest → H → Tested H
  test_loop test [] index accepted h = record {
    answer = bindings [];
    accepted = some accepted;
    state = h;
  }
  test_loop test (v ∷ vs) index accepted h =
      let req = set_request v in
      after_test req index accepted (λ acc h'. test_loop test vs (index + 1) acc h') (test req h)

  -- The end of the case of testSet: `if twoPhase && accepted != nil`.
  unfoldable pub keep_accepted :
      Option (SetHandler H) → ℕ → PendingSets → Tested H → Response × State H
  keep_accepted (some sh) t pending r = (
    r.answer,
    record {
      handler_state = r.state;
      pending = elim r.accepted [ none ↦ pending | some reqs ↦ store_pending t reqs pending ];
    },
  )
  keep_accepted none t pending r = (r.answer, record { handler_state = r.state; pending = pending })

  unfoldable pub handle_test_set :
      Option (Handler H) → Context → List Variable → State H → Response × State H
  handle_test_set none ctx vs s = (with_error error_not_writable, s)
  handle_test_set (some handler) ctx vs s =
      keep_accepted handler.two_phase ctx.transaction_id s.pending
        (test_loop (test_one handler ctx) vs 0 [] s.handler_state)

  abbrev pub after_apply : ℕ → PendingSets → Option GoError × H → Response × State H
  after_apply e pending (none, h) =
      (with_error error_none, record { handler_state = h; pending = pending })
  after_apply e pending (some err, h) =
      (with_error e, record { handler_state = h; pending = pending })

  -- commitSet and undoSet: what is pending is handed to the handler, unless there is nothing.
  unfoldable pub handle_pending :
      (List SetRequest → H → Option GoError × H) → ℕ → ℕ → State H → Response × State H
  handle_pending apply e t s = elim (pending_for t s.pending) [
    | none ↦ (with_error error_none, s)
    | some reqs ↦ elim reqs [
      | [] ↦ (with_error error_none, s)
      | req ∷ more ↦ after_apply e s.pending (apply (req ∷ more) s.handler_state)
    ]
  ]

  abbrev pub set_handler : Option (Handler H) → Option (SetHandler H)
  set_handler none = none
  set_handler (some handler) = handler.two_phase

  unfoldable pub handle_commit_set : Option (SetHandler H) → Context → State H → Response × State H
  handle_commit_set none ctx s = (with_error error_none, s)
  handle_commit_set (some sh) ctx s =
      handle_pending (sh.commit_set ctx) error_commit_failed ctx.transaction_id s

  unfoldable pub handle_undo_set : Option (SetHandler H) → Context → State H → Response × State H
  handle_undo_set none ctx s = (with_error error_none, s)
  handle_undo_set (some sh) ctx s =
      handle_pending (sh.undo_set ctx) error_undo_failed ctx.transaction_id s

  abbrev of_search : State H → Response × H → Response × State H
  of_search s (r, h) = (r, record s { handler_state = h })

  -- The cases of `handle` that answer.
  unfoldable pub respond : Option (Handler H) → Header → Packet → State H → Response × State H
  respond handler header (get rs) s = of_search s (
      search_loop (ask_get handler (context_of header)) type_no_such_object rs 0 [] s.handler_state)
  respond handler header (get_next rs) s = of_search s (
      search_loop (ask_get_next handler (context_of header)) type_end_of_mib_view rs 0 []
        s.handler_state)
  respond handler header (test_set vs) s = handle_test_set handler (context_of header) vs s
  respond handler header commit_set s =
      handle_commit_set (set_handler handler) (context_of header) s
  respond handler header undo_set s = handle_undo_set (set_handler handler) (context_of header) s
  respond handler header _ s = (with_error (unsupported_error header.type), s)

  abbrev pub answered : Header → Response × State H → Option HeaderPacket × State H
  answered header (r, s) = (some (record { header = reply_header header; packet = response r }), s)

  -- `handle`: a CleanupSet ends its transaction and has no response.
  unfoldable pub handle_packet :
      Option (Handler H) → Header → Packet → State H → Option HeaderPacket × State H
  handle_packet handler header cleanup_set s =
      (none, record s { pending = delete_pending header.transaction_id s.pending })
  handle_packet handler header p s = answered header (respond handler header p s)

  unfoldable pub handle :
      Option (Handler H) → HeaderPacket → State H → Option HeaderPacket × State H
  handle handler request s = handle_packet handler request.header request.packet s
