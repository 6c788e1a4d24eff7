-- ===== src/Session/Commit.antt =====
-- session.go: how a set transaction ends: CommitSet, UndoSet and CleanupSet after a TestSet and the
-- requests between.
use go_agentx.Prelude.{◌≡◌, refl, ◌∙◌, false, none, some, List, ◌∷◌, ==_refl, map}
use go_agentx.Pdu.Header.{Header}
use go_agentx.Pdu.Variable.{Variable}
use go_agentx.Pdu.Packet.{test_set, commit_set, undo_set, cleanup_set}
use go_agentx.Pdu.HeaderPacket.{HeaderPacket}
use go_agentx.Client.Replies.{error_none}
use go_agentx.Handler.{Handler, SetHandler, SetRequest}
use go_agentx.Session.{
  State, pending_for, set_request, handle_pending, after_apply, handle_commit_set, handle_undo_set,
  respond, handle_packet, handle, answered, context_of, with_error, error_commit_failed,
  error_undo_failed,
}
use go_agentx.Session.Pending.{pending-delete}
use go_agentx.Session.Transaction.{any_changes, handle_all, test_set-pending, handle_all-pending}

-- The transaction ran: what a CommitSet or an UndoSet of transaction t does once `reqs` are pending.
module _ {H : Type 0} (handler : Handler H) (sh : SetHandler H)
    (two : handler.two_phase ≡ some sh) where
  commit_with :
      (header : Header) (req : SetRequest) (more : List SetRequest) (s : State H)
      → pending_for header.transaction_id s.pending ≡ some (req ∷ more)
      → handle_packet (some handler) header commit_set s
        ≡ answered header (
            after_apply error_commit_failed s.pending
              (sh.commit_set (context_of header) (req ∷ more) s.handler_state))
  unfolding handle_packet respond handle_commit_set handle_pending
  commit_with header req more s e = rw (two, e, handle_commit_set, handle_pending) refl

  undo_with :
      (header : Header) (req : SetRequest) (more : List SetRequest) (s : State H)
      → pending_for header.transaction_id s.pending ≡ some (req ∷ more)
      → handle_packet (some handler) header undo_set s
        ≡ answered header (
            after_apply error_undo_failed s.pending
              (sh.undo_set (context_of header) (req ∷ more) s.handler_state))
  unfolding handle_packet respond handle_undo_set handle_pending
  undo_with header req more s e = rw (two, e, handle_undo_set, handle_pending) refl

  commit_nothing :
      (header : Header) (s : State H)
      → pending_for header.transaction_id s.pending ≡ none
      → handle_packet (some handler) header commit_set s
        ≡ answered header (with_error error_none, s)
  unfolding handle_packet respond handle_commit_set handle_pending
  commit_nothing header s e = rw (two, e, handle_commit_set, handle_pending) refl

  -- After a CleanupSet, and requests that are no TestSet or CleanupSet of its transaction, a
  -- CommitSet of the transaction is answered with no error and calls no handler: the state is as it
  -- was.
  pub cleanup_set-pending :
      (cleanup header : Header) (between : List HeaderPacket) (s : State H)
      → any_changes cleanup.transaction_id between ≡ false
      → header.transaction_id ≡ cleanup.transaction_id
      → let after : State H =
          handle_all
            (some handler)
            (record { header = cleanup; packet = cleanup_set } ∷ between)
            s in
        handle_packet (some handler) header commit_set after
        ≡ answered header (with_error error_none, after)
  unfolding handle_all handle handle_packet
  cleanup_set-pending cleanup header between s apart same = commit_nothing header _ (
      rw same (
        handle_all-pending (some handler) cleanup.transaction_id between _ apart
        ∙ pending-delete cleanup.transaction_id cleanup.transaction_id s.pending
        ∙ rw (==_refl cleanup.transaction_id) refl))

  -- A TestSet that was accepted, and requests between it and the end of its transaction.
  module _ (tested : Header) (v : Variable) (vs : List Variable) (between : List HeaderPacket)
      (s : State H)
      (accepted : (respond (some handler) tested (test_set (v ∷ vs)) s).0.error ≡ error_none)
      (apart : any_changes tested.transaction_id between ≡ false) where
    abbrev pub before_apply : State H
    before_apply =
        handle_all (some handler) (record { header = tested; packet = test_set (v ∷ vs) } ∷ between)
          s

    pending_between :
        pending_for tested.transaction_id before_apply.pending ≡ some (map set_request (v ∷ vs))
    unfolding handle_all handle handle_packet
    pending_between =
        handle_all-pending (some handler) tested.transaction_id between _ apart
        ∙ test_set-pending handler sh tested (v ∷ vs) s two accepted

    -- On a two-phase handler: after a TestSet with a binding that was answered with no error, and then
    -- requests that are no TestSet or CleanupSet of its transaction, a CommitSet of the transaction
    -- calls the handler's CommitSet with the bindings of the TestSet in their order, and is answered
    -- with no error, or with commitFailed if the handler returns an error.
    pub commit_set-pending :
        (header : Header)
        → header.transaction_id ≡ tested.transaction_id
        → handle_packet (some handler) header commit_set before_apply
          ≡ answered header (
              after_apply error_commit_failed before_apply.pending (
                sh.commit_set
                  (context_of header)
                  (map set_request (v ∷ vs))
                  before_apply.handler_state))
    commit_set-pending header same =
        commit_with header (set_request v) (map set_request vs) before_apply
          (rw same pending_between)

    -- On a two-phase handler: after a TestSet with a binding that was answered with no error, and then
    -- requests that are no TestSet or CleanupSet of its transaction, an UndoSet of the transaction
    -- calls the handler's UndoSet with the bindings of the TestSet in their order, and is answered
    -- with no error, or with undoFailed if the handler returns an error.
    pub undo_set-pending :
        (header : Header)
        → header.transaction_id ≡ tested.transaction_id
        → handle_packet (some handler) header undo_set before_apply
          ≡ answered header (
              after_apply error_undo_failed before_apply.pending (
                sh.undo_set
                  (context_of header)
                  (map set_request (v ∷ vs))
                  before_apply.handler_state))
    undo_set-pending header same =
        undo_with header (set_request v) (map set_request vs) before_apply (rw same pending_between)
