-- ===== src/Session/Transaction.antt =====
-- session.go: what is pending for a set transaction (RFC 2741 7.2.4) over a sequence of requests.
use go_agentx.Prelude.{
  ℕ, ◌+◌, ◌≡◌, ◌≢◌, ◌⊎◌, inl, inr, refl, sym, ap, ◌∙◌, Bool, true, false, Option, none, some, List,
  [], ◌∷◌, ◌++◌, ◌==◌, ==_refl, Option-cases, ◌&&◌, ◌||◌, arith, map, append_assoc, append-nil,
}
use go_agentx.Pdu.Header.{Header}
use go_agentx.Pdu.Variable.{Variable}
use go_agentx.Pdu.Packet.{Packet, get, get_next, test_set, commit_set, undo_set, cleanup_set}
use go_agentx.Pdu.HeaderPacket.{HeaderPacket}
use go_agentx.Client.Replies.{error_none}
use go_agentx.Handler.{Handler, SetHandler, SetRequest, Context, GoError}
use go_agentx.Session.{
  State, PendingSets, pending_for, Tested, set_request, test_one, test_loop, after_test,
  keep_accepted, handle_test_set, handle_pending, after_apply, handle_commit_set, handle_undo_set,
  respond, handle_packet, handle, set_handler, context_of, error_commit_failed, error_undo_failed,
}
use go_agentx.Session.Pending.{pending-store, pending-delete}
use go_agentx.Session.Search.{get_error-ne-zero}

-- The loop of testSet accepts every binding, in order, or ends with an error.
abbrev pub IsTested : {H : Type 0} → List SetRequest → Tested H → Type 0
IsTested reqs r =
    ((r.answer.error ≡ error_none) × (r.accepted ≡ some reqs))
    ⊎ ((r.answer.error ≢ error_none) × (r.accepted ≡ none))

module _ {H : Type 0} (test : SetRequest → H → Option GoError × H) where
  after-IsTested :
      (req : SetRequest) (index : ℕ) (accepted reqs : List SetRequest)
      (next : List SetRequest → H → Tested H) (r : Option GoError × H)
      → ((h : H) → IsTested reqs (next (accepted ++ (req ∷ [])) h))
      → IsTested reqs (after_test req index accepted next r)
  after-IsTested req index accepted reqs next (some err, h) ih = inr (get_error-ne-zero err, refl)
  after-IsTested req index accepted reqs next (none, h) ih = ih h

  test_loop-IsTested :
      (vs : List Variable) (index : ℕ) (accepted : List SetRequest) (h : H)
      → IsTested (accepted ++ map set_request vs) (test_loop test vs index accepted h)
  unfolding test_loop
  test_loop-IsTested [] index accepted h = inl (refl, ap some (sym (append-nil accepted)))
  test_loop-IsTested (v ∷ vs) index accepted h =
      after-IsTested (set_request v) index accepted
        (accepted ++ (set_request v ∷ map set_request vs))
        (λ acc h'. test_loop test vs (index + 1) acc h') (test (set_request v) h)
        (λ h'.
          rw (append_assoc accepted (set_request v ∷ []) (map set_request vs)) at
            (test_loop-IsTested vs (index + 1) (accepted ++ (set_request v ∷ [])) h'))

-- The requests that may change what is pending for a transaction: its TestSet and its CleanupSet.
unfoldable pub changes_sets : Packet → Bool
changes_sets (test_set vs) = true
changes_sets cleanup_set = true
changes_sets _ = false

abbrev pub changes : ℕ → HeaderPacket → Bool
changes t request = (request.header.transaction_id == t) && changes_sets request.packet

unfoldable pub any_changes : ℕ → List HeaderPacket → Bool
any_changes t [] = false
any_changes t (request ∷ rest) = changes t request || any_changes t rest

-- The state after a sequence of requests.
unfoldable pub handle_all :
    {H : Type 0} → Option (Handler H) → List HeaderPacket → State H → State H
handle_all handler [] s = s
handle_all handler (request ∷ rest) s = handle_all handler rest (handle handler request s).1

module _ {H : Type 0} where
  keep_accepted-pending :
      (two_phase : Option (SetHandler H)) (sh : SetHandler H) (t : ℕ) (pending : PendingSets)
      (reqs : List SetRequest) (r : Tested H)
      → two_phase ≡ some sh
      → IsTested reqs r
      → (keep_accepted two_phase t pending r).0.error ≡ error_none
      → pending_for t (keep_accepted two_phase t pending r).1.pending ≡ some reqs
  unfolding keep_accepted
  keep_accepted-pending none sh t pending reqs r two i e = ground arith
  keep_accepted-pending (some sh') sh t pending reqs r two (inl (_, a)) e =
      rw (a, pending-store t t reqs pending, ==_refl t) refl
  keep_accepted-pending (some sh') sh t pending reqs r two (inr (n, _)) e = absurd (n e)

  keep_accepted-other :
      (two_phase : Option (SetHandler H)) (t u : ℕ) (pending : PendingSets) (r : Tested H)
      → (t == u) ≡ false
      → pending_for u (keep_accepted two_phase t pending r).1.pending ≡ pending_for u pending
  unfolding keep_accepted
  keep_accepted-other none t u pending r e = refl
  keep_accepted-other (some sh) t u pending r e = elim (Option-cases r.accepted) [
    | inl n ↦ rw n refl
    | inr (reqs, a) ↦ rw (a, pending-store t u reqs pending, e) refl
  ]

  -- On a two-phase handler a TestSet that is answered with no error leaves its bindings, all of them
  -- and in their order, as what is pending for its transaction.
  pub test_set-pending :
      (handler : Handler H) (sh : SetHandler H) (header : Header) (vs : List Variable) (s : State H)
      → handler.two_phase ≡ some sh
      → (respond (some handler) header (test_set vs) s).0.error ≡ error_none
      → pending_for header.transaction_id (respond (some handler) header (test_set vs) s).1.pending
        ≡ some (map set_request vs)
  unfolding respond handle_test_set
  test_set-pending handler sh header vs s e h =
      keep_accepted-pending handler.two_phase sh header.transaction_id s.pending
        (map set_request vs)
        (test_loop (test_one handler (context_of header)) vs 0 [] s.handler_state) e
        (test_loop-IsTested (test_one handler (context_of header)) vs 0 [] s.handler_state) h

  after_apply-pending :
      (e : ℕ) (pending : PendingSets) (r : Option GoError × H)
      → (after_apply e pending r).1.pending ≡ pending
  after_apply-pending e pending (none, h) = refl
  after_apply-pending e pending (some err, h) = refl

  of_pending-pending :
      (apply : List SetRequest → H → Option GoError × H) (e t : ℕ) (s : State H)
      → (handle_pending apply e t s).1.pending ≡ s.pending
  unfolding handle_pending
  of_pending-pending apply e t s = elim (Option-cases (pending_for t s.pending)) [
    | inl n ↦ rw (n, handle_pending) refl
    | inr ([], a) ↦ rw (a, handle_pending) refl
    | inr (req ∷ more, a) ↦
        rw (a, handle_pending)
          (after_apply-pending e s.pending (apply (req ∷ more) s.handler_state))
  ]

  commit-pending :
      (sh : Option (SetHandler H)) (ctx : Context) (s : State H)
      → (handle_commit_set sh ctx s).1.pending ≡ s.pending
  unfolding handle_commit_set
  commit-pending none ctx s = refl
  commit-pending (some sh) ctx s =
      of_pending-pending (sh.commit_set ctx) error_commit_failed ctx.transaction_id s

  undo-pending :
      (sh : Option (SetHandler H)) (ctx : Context) (s : State H)
      → (handle_undo_set sh ctx s).1.pending ≡ s.pending
  unfolding handle_undo_set
  undo-pending none ctx s = refl
  undo-pending (some sh) ctx s =
      of_pending-pending (sh.undo_set ctx) error_undo_failed ctx.transaction_id s

  test_set-other :
      (handler : Option (Handler H)) (ctx : Context) (vs : List Variable) (s : State H) (u : ℕ)
      → (ctx.transaction_id == u) ≡ false
      → pending_for u (handle_test_set handler ctx vs s).1.pending ≡ pending_for u s.pending
  unfolding handle_test_set
  test_set-other none ctx vs s u e = refl
  test_set-other (some handler) ctx vs s u e =
      keep_accepted-other handler.two_phase ctx.transaction_id u s.pending _ e

  packet-pending :
      (handler : Option (Handler H)) (header : Header) (p : Packet) (t : ℕ) (s : State H)
      → ((header.transaction_id == t) && changes_sets p) ≡ false
      → pending_for t (handle_packet handler header p s).1.pending ≡ pending_for t s.pending
  unfolding handle_packet respond changes_sets
  packet-pending handler header (get rs) t s e = refl
  packet-pending handler header (get_next rs) t s e = refl
  packet-pending handler header commit_set t s e =
      rw (commit-pending (set_handler handler) (context_of header) s) refl
  packet-pending handler header undo_set t s e =
      rw (undo-pending (set_handler handler) (context_of header) s) refl
  packet-pending handler header (test_set vs) t s e =
      test_set-other handler (context_of header) vs s t (ground arith)
  packet-pending handler header cleanup_set t s e =
      ground (arith, pending-delete header.transaction_id t s.pending)
  packet-pending handler header _ t s e = refl

  handle-pending :
      (handler : Option (Handler H)) (t : ℕ) (request : HeaderPacket) (s : State H)
      → changes t request ≡ false
      → pending_for t (handle handler request s).1.pending ≡ pending_for t s.pending
  unfolding handle
  handle-pending handler t request s e = packet-pending handler request.header request.packet t s e

  pub handle_all-pending :
      (handler : Option (Handler H)) (t : ℕ) (requests : List HeaderPacket) (s : State H)
      → any_changes t requests ≡ false
      → pending_for t (handle_all handler requests s).pending ≡ pending_for t s.pending
  unfolding handle_all any_changes
  handle_all-pending handler t [] s e = refl
  handle_all-pending handler t (request ∷ rest) s e =
      handle_all-pending handler t rest (handle handler request s).1 (ground arith)
      ∙ handle-pending handler t request s (ground arith)
