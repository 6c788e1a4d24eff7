-- ===== src/Client/Dispatch.antt =====
-- client.go: the dispatcher, and session.go: `enqueue` and `run`, as a step relation. The dispatcher
-- runs on one goroutine and every session on its own; the calls of `request` are those of Requests.
pub mod Serial
pub mod Answers
use go_agentx.Prelude.{
  ℕ, ◌+◌, ◌<◌, ◌≡◌, Bool, true, false, Option, none, some, List, [], ◌∷◌, ◌++◌, length, ◌==◌,
  if◌then◌else◌,
}
use go_agentx.Prelude.Dict.{find, update}
use go_agentx.Pdu.Header.{Header}
use go_agentx.Pdu.Packet.{type_response}
use go_agentx.Pdu.HeaderPacket.{HeaderPacket}
use go_agentx.Client.Replies.{error_response, expects_response, error_not_open}
use go_agentx.Client.Requests.{Requests, match_response}
use go_agentx.Client.Requests
use go_agentx.Handler.{Handler}
use go_agentx.Session.{State, handle}

abbrev pub incoming_queue_size : ℕ
incoming_queue_size = 16

-- Sessions are named by numbers; `routes` gives the session of a session id. `hand` is the dispatcher
-- in `enqueue`, `queues` what waits in the sessions' channels, and `ended` whether a session's `done`
-- is closed. `refusals` and `replies` are what the dispatcher and each session gave to `send`.
-- `arrived` and `handled` are the requests that the dispatcher took for a session and those that the
-- session has handled; the code does not keep them.
pub record Agent (H : Type 0) : Type 0 where
  pub requests : Requests
  pub routes : List (ℕ × ℕ)
  pub hand : Option (ℕ × HeaderPacket)
  pub queues : ℕ → List HeaderPacket
  pub states : ℕ → State H
  pub ended : ℕ → Bool
  pub refusals : List HeaderPacket
  pub replies : ℕ → List HeaderPacket
  pub arrived : ℕ → List HeaderPacket
  pub handled : ℕ → List HeaderPacket

abbrev pub snoc {ℓ} : {A : Type ℓ} → List A → A → List A
snoc xs x = xs ++ (x ∷ [])

abbrev pub given : Option HeaderPacket → List HeaderPacket
given none = []
given (some hp) = hp ∷ []

module _ {H : Type 0} where
  -- A packet under a session id that no session has.
  unfoldable pub refuse : HeaderPacket → Agent H → Agent H
  refuse hp a =
      if expects_response hp.header.type
      then record a { refusals = snoc a.refusals (error_response hp.header error_not_open) }
      else a

  -- One round of the dispatcher, up to `enqueue` or to the send on a call's channel.
  unfoldable pub dispatch : HeaderPacket → Agent H → Agent H
  dispatch hp a =
      if hp.header.type == type_response
      then record a { requests = match_response hp a.requests }
      else elim (find hp.header.session_id a.routes) [
        | none ↦ refuse hp a
        | some j ↦ record a {
          hand = some (j, hp);
          arrived = update a.arrived j (snoc (a.arrived j) hp);
        }
      ]

  -- `enqueue`, where there is room.
  unfoldable pub enqueue : ℕ → HeaderPacket → Agent H → Agent H
  enqueue j hp a = record a { hand = none; queues = update a.queues j (snoc (a.queues j) hp) }

  -- One round of `run`: the request is handled, and an answer, if there is one, is sent.
  unfoldable pub run_one :
      Option (Handler H) → ℕ → HeaderPacket → List HeaderPacket → Agent H → Agent H
  run_one handler j hp rest a =
      let (reply, s) = handle handler hp (a.states j) in
      record a {
        queues = update a.queues j rest;
        states = update a.states j s;
        replies = update a.replies j (a.replies j ++ given reply);
        handled = update a.handled j (snoc (a.handled j) hp);
      }

  module _ (handlers : ℕ → Option (Handler H)) where
    -- A step of some goroutine, or of the methods that change the routes and end sessions.
    pub data Step (a : Agent H) : Agent H → Type 0 where
      requests : {r : Requests} → Requests.Step a.requests r → Step a (record a { requests = r })
      dispatches :
          (hp : HeaderPacket)
          → a.hand ≡ none
          → a.requests.delivering ≡ none
          → Step a (dispatch hp a)
      enqueues :
          (j : ℕ) (hp : HeaderPacket)
          → a.hand ≡ some (j, hp)
          → length (a.queues j) < incoming_queue_size
          → Step a (enqueue j hp a)
      discards :
          (j : ℕ) (hp : HeaderPacket)
          → a.hand ≡ some (j, hp)
          → a.ended j ≡ true
          → Step a (record a { hand = none })
      disbands :
          (j : ℕ) (hp : HeaderPacket)
          → a.hand ≡ some (j, hp)
          → a.requests.done ≡ true
          → Step a (record a { hand = none })
      runs :
          (j : ℕ) (hp : HeaderPacket) (rest : List HeaderPacket)
          → a.queues j ≡ hp ∷ rest
          → Step a (run_one (handlers j) j hp rest a)
      routes : (m : List (ℕ × ℕ)) → Step a (record a { routes = m })
      ends : (j : ℕ) → Step a (record a { ended = update a.ended j true })

    -- From an agent with no requests yet, and sessions in the states `starts`.
    abbrev pub fresh : (ℕ → State H) → Agent H
    fresh starts = record {
      requests = Requests.none_begun;
      routes = [];
      hand = none;
      queues = λ j. [];
      states = starts;
      ended = λ j. false;
      refusals = [];
      replies = λ j. [];
      arrived = λ j. [];
      handled = λ j. [];
    }

    pub data Reach (starts : ℕ → State H) : Agent H → Type 0 where
      start : Reach starts (fresh starts)
      next : {a b : Agent H} → Reach starts a → Step a b → Reach starts b
