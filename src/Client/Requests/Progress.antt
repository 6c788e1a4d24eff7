-- ===== src/Client/Requests/Progress.antt =====
-- client.go: what a call of `request` returns, and that it returns.
use go_agentx.Prelude.{
  ℕ, suc, ◌≤◌, ◌≡◌, ◌≢◌, refl, Bool, true, false, some, List, Result, ok, err, crash, arith, ◌==◌,
  ==_refl,
}
use go_agentx.Prelude.Dict.{find}
use go_agentx.Pdu.HeaderPacket
use go_agentx.Pdu.HeaderPacket.{HeaderPacket}
use go_agentx.Client.Requests.{
  Outcome, got, timed_out, not_encoded, panicked, Call, idle, numbered, listed, waiting, leaving,
  returned, Requests, set_call, add_pending, take_pending, after_encoding, send_frame, leave,
  deliver, Step, encodes, sends, refuses, receives, expires, abandons, leaves, matches, delivers,
  writes, stops, Reach, start, next, Transmitting, ready, in_write, gone, client_closed, begin,
  receive, match_response,
}
use go_agentx.Client.Requests.Tables.{IsAnswerTo}
use go_agentx.Client.Requests.Invariant.{Reach-Inv}

-- A response that a call returns is a Response with the packet id that this call drew.
pub returned-IsAnswerTo :
    {s : Requests}
    → Reach s
    → (k : ℕ) (hp : HeaderPacket) → s.calls k ≡ returned (got hp)
    → IsAnswerTo s.begun k hp
returned-IsAnswerTo {s} r k hp e = (Reach-Inv r).result k hp (rw e refl)

-- The dispatcher never waits for a call: whenever it has a response for one, there is room in the
-- channel of the call, also when the call has given up.
pub delivery_free :
    {s : Requests}
    → Reach s
    → (k : ℕ) (hp : HeaderPacket) → s.delivering ≡ some (k, hp)
    → Step s (deliver k hp s)
delivery_free {s} r k hp d = delivers k hp d ((Reach-Inv r).hand k hp d).1

-- No entry of the table outlives its call: a call that has returned has none.
pub returned-unlisted :
    {s : Requests}
    → Reach s
    → (k : ℕ) (o : Outcome) → s.calls k ≡ returned o
    → (i : ℕ) → find i s.pending ≢ some k
returned-unlisted {s} r k o e i f =
    let bad : false ≡ true = rw e at (((Reach-Inv r).entry i k f).2) in cc

-- The transmitter returns only once the client is closed.
abbrev AreStopped : Requests → Type 0
AreStopped s = s.transmitter ≡ gone → s.done ≡ true

Step-AreStopped : {s t : Requests} → Step s t → AreStopped s → AreStopped t
unfolding begin after_encoding add_pending send_frame receive leave take_pending match_response
    deliver
Step-AreStopped {s} (encodes k hp e) v = ground arith
Step-AreStopped {s} (matches hp d ty) v = ground arith
Step-AreStopped {s} (stops r d) v = λ e. d
Step-AreStopped {s} _ v = ground arith

Reach-AreStopped : {s : Requests} → Reach s → AreStopped s
Reach-AreStopped start = λ e. cc
Reach-AreStopped (next r st) = Step-AreStopped st (Reach-AreStopped r)

-- The steps that the call takes itself, its timer included, and the return of the Write that the
-- transmitter is in.
pub is_own : (k : ℕ) {s t : Requests} → Step s t → Bool
is_own k (encodes j hp e) = j == k
is_own k (sends j frame e r) = j == k
is_own k (refuses j frame e d) = j == k
is_own k (receives j hp e c) = j == k
is_own k (expires j e) = j == k
is_own k (abandons j e d) = j == k
is_own k (leaves j o e) = j == k
is_own k (writes r) = true
is_own k _ = false

-- Runs of such steps, with their numbers of steps.
pub data OwnRun (k : ℕ) : Requests → ℕ → Requests → Type 0 where
  stay : {s : Requests} → OwnRun k s 0 s
  step :
      {s t u : Requests} {n : ℕ} (st : Step s t)
      → is_own k st ≡ true
      → OwnRun k t n u
      → OwnRun k s (suc n) u

abbrev pub Returns : ℕ → ℕ → Requests → Type 0
Returns k n s =
    (m : ℕ) × (t : Requests) × (o : Outcome) × (m ≤ n) × OwnRun k s m t × (t.calls k ≡ returned o)

earlier :
    (k n : ℕ) {s t : Requests} (st : Step s t)
    → is_own k st ≡ true
    → Returns k n t
    → Returns k (suc n) s
earlier k n st own (m, u, o, l, run, e) = (suc m, u, o, omega arith, step st own run, e)

within : (n p : ℕ) (k : ℕ) (s : Requests) → n ≤ p → Returns k n s → Returns k p s
within n p k s l (m, t, o, j, run, e) = (m, t, o, omega arith, run, e)

from_leaving : (k : ℕ) (o : Outcome) (s : Requests) → s.calls k ≡ leaving o → Returns k 1 s
unfolding leave take_pending is_own
from_leaving k o s e =
    (1, leave k o s, o, omega arith, step (leaves k o e) (==_refl k) stay, ground arith)

from_waiting : (k : ℕ) (s : Requests) → s.calls k ≡ waiting → Returns k 2 s
unfolding is_own
from_waiting k s e =
    earlier k 1 (expires k e) (==_refl k)
      (from_leaving k timed_out (set_call k (leaving timed_out) s) (ground arith))

from_ready :
    (k : ℕ) (frame : List ℕ) (s : Requests)
    → s.calls k ≡ listed frame
    → s.transmitter ≡ ready
    → Returns k 3 s
unfolding send_frame is_own
from_ready k frame s e r =
    earlier k 2 (sends k frame e r) (==_refl k)
      (from_waiting k (send_frame k frame s) (ground arith))

from_listed :
    (k : ℕ) (frame : List ℕ) (s : Requests)
    → s.calls k ≡ listed frame
    → AreStopped s
    → Returns k 4 s
unfolding is_own
from_listed k frame s e stopped = from s.transmitter refl
  where
    from : (x : Transmitting) → s.transmitter ≡ x → Returns k 4 s
    from ready r = within 3 4 k s (omega arith) (from_ready k frame s e r)
    from in_write r =
        earlier k 3 (writes r) refl (from_ready k frame (record s { transmitter = ready }) e refl)
    from gone r = within 2 4 k s (omega arith) (
        earlier k 1 (refuses k frame e (stopped r)) (==_refl k)
          (from_leaving k client_closed (set_call k (leaving client_closed) s) (ground arith)))

from_encoded :
    (k : ℕ) (r : Result (List ℕ)) (s : Requests) → AreStopped s → Returns k 4 (after_encoding k r s)
unfolding after_encoding add_pending
from_encoded k (ok frame) s v = from_listed k frame (after_encoding k (ok frame) s) (ground arith) v
from_encoded k (err x) s v = (0, _, not_encoded x, omega arith, stay, ground arith)
from_encoded k (crash x) s v = (0, _, panicked x, omega arith, stay, ground arith)

abbrev pub has_begun : Call → Bool
has_begun idle = false
has_begun _ = true

-- In every reachable state a call that has begun can return by at most five steps: its own, of which
-- one may be that its timer fires, and the return of the Write that the transmitter may be in. No
-- answer of the master agent, no Close and no step of another goroutine is needed.
pub call-Returns : {s : Requests} → Reach s → (k : ℕ) → has_begun (s.calls k) ≡ true → Returns k 5 s
unfolding is_own
call-Returns {s} r k p = from (s.calls k) refl p
  where
    from : (c : Call) → s.calls k ≡ c → has_begun c ≡ true → Returns k 5 s
    from idle e q = cc
    from (numbered hp) e q =
        earlier k 4 (encodes k hp e) (==_refl k)
          (from_encoded k (HeaderPacket.marshal_binary hp) s (Reach-AreStopped r))
    from (listed frame) e q =
        within 4 5 k s (omega arith) (from_listed k frame s e (Reach-AreStopped r))
    from waiting e q = within 2 5 k s (omega arith) (from_waiting k s e)
    from (leaving o) e q = within 1 5 k s (omega arith) (from_leaving k o s e)
    from (returned o) e q = (0, s, o, omega arith, stay, e)
