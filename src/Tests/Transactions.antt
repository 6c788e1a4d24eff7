-- ===== src/Tests/Transactions.antt =====
-- A set transaction over a two-phase handler that keeps what it is told to commit.
use go_agentx.Prelude.{ℕ, ◌≡◌, refl, false, Option, none, some, List, [], ◌∷◌, ◌++◌, map}
use go_agentx.Prelude.Int.{pos}
use go_agentx.Pdu.Header.{Header}
use go_agentx.Pdu.ObjectIdentifier
use go_agentx.Pdu.Variable.{Variable, int32, type_no_such_object, type_end_of_mib_view, nil}
use go_agentx.Pdu.Packet.{commit_set, cleanup_set, test_set}
use go_agentx.Pdu.HeaderPacket.{HeaderPacket}
use go_agentx.Client.Replies.{error_none}
use go_agentx.Handler.{Handler, SetHandler, SetRequest, Context, GoError, plain, found}
use go_agentx.Session.{
  State, respond, handle, handle_packet, set_request, after_apply, answered, context_of, with_error,
  error_commit_failed, handle_test_set, keep_accepted, test_loop, test_one,
}
use go_agentx.Session.Transaction.{handle_all, any_changes, changes_sets}
use go_agentx.Session.Commit.{before_apply, commit_set-pending, cleanup_set-pending}
use go_agentx.Session.Replies.{with_set, set_never_called}

abbrev keeper : SetHandler (List SetRequest)
keeper = record {
  test_set = λ ctx req h. (none, h);
  commit_set = λ ctx reqs h. (none, h ++ reqs);
  undo_set = λ ctx reqs h. (some plain, []);
}

abbrev kept : Handler (List SetRequest)
kept = record {
  get = λ ctx oid h. (found none type_no_such_object nil, h);
  get_next = λ ctx from include_from to h. (found none type_end_of_mib_view nil, h);
  set = λ ctx req h. (some plain, h);
  two_phase = some keeper;
}

abbrev refuse : Context → SetRequest → List SetRequest → Option GoError × List SetRequest
refuse ctx req h = (some plain, [])

abbrev start : State (List SetRequest)
start = record { handler_state = []; pending = [] }

abbrev header_of : ℕ → ℕ → Header
header_of type transaction = record {
  version = 1;
  type = type;
  flags = 0;
  session_id = 5;
  transaction_id = transaction;
  packet_id = 7;
  payload_length = 0;
}

abbrev seven : Variable
seven = record { type = 2; name = ObjectIdentifier.empty; value = int32 (pos 7) }

-- A TestSet of transaction 6, and then a CleanupSet of transaction 4 and a CommitSet of 6.
abbrev between : List HeaderPacket
between =
    record { header = header_of 11 4; packet = cleanup_set }
    ∷ record { header = header_of 9 6; packet = commit_set }
    ∷ []

accepted : (respond (some kept) (header_of 8 6) (test_set (seven ∷ [])) start).0.error ≡ error_none
unfolding respond handle_test_set keep_accepted test_loop test_one
accepted = refl

apart : any_changes 6 between ≡ false
unfolding any_changes changes_sets
apart = refl

abbrev ready : State (List SetRequest)
ready = before_apply kept keeper refl (header_of 8 6) seven [] between start accepted apart

commit_set-pending_example :
    handle_packet (some kept) (header_of 9 6) commit_set ready
    ≡ answered (header_of 9 6) (
        after_apply error_commit_failed ready.pending (
          keeper.commit_set
            (context_of (header_of 9 6))
            (map set_request (seven ∷ []))
            ready.handler_state))
commit_set-pending_example =
    commit_set-pending kept keeper refl (header_of 8 6) seven [] between start accepted apart
      (header_of 9 6) refl

abbrev ended : State (List SetRequest)
ended =
    handle_all (some kept) (record { header = header_of 11 6; packet = cleanup_set } ∷ between)
      start

cleanup_set-pending_example :
    handle_packet (some kept) (header_of 9 6) commit_set ended
    ≡ answered (header_of 9 6) (with_error error_none, ended)
cleanup_set-pending_example =
    cleanup_set-pending kept keeper refl (header_of 11 6) (header_of 9 6) between start apart refl

set_never_called_example :
    handle (some kept) (record { header = header_of 8 6; packet = test_set (seven ∷ []) }) start
    ≡ handle
        (some (with_set refuse kept))
        (record { header = header_of 8 6; packet = test_set (seven ∷ []) })
        start
set_never_called_example =
    set_never_called refuse kept keeper refl
      (record { header = header_of 8 6; packet = test_set (seven ∷ []) }) start
