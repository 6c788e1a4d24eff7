-- ===== src/Session/Pending.antt =====
-- The map of pending sets.
use go_agentx.Prelude.{ℕ, ◌≡◌, none, some, List, ◌==◌, if◌then◌else◌}
use go_agentx.Prelude.Dict.{find-insert, find-remove}
use go_agentx.Handler.{SetRequest}
use go_agentx.Session.{PendingSets, pending_for, store_pending, delete_pending}

pub pending-store :
    (t u : ℕ) (reqs : List SetRequest) (m : PendingSets)
    → pending_for u (store_pending t reqs m) ≡ (if t == u then some reqs else pending_for u m)
unfolding pending_for store_pending
pending-store t u reqs m = find-insert t u reqs m

pub pending-delete :
    (t u : ℕ) (m : PendingSets)
    → pending_for u (delete_pending t m) ≡ (if t == u then none else pending_for u m)
unfolding pending_for delete_pending
pending-delete t u m = find-remove t u m
