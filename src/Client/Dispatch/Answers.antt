-- ===== src/Client/Dispatch/Answers.antt =====
-- What the master agent gets of a session among the others: its answers.
use go_agentx.Prelude.{ℕ, ◌≡◌, false, Option, none, some, List, [], ◌∷◌, ◌++◌}
use go_agentx.Pdu.HeaderPacket.{HeaderPacket}
use go_agentx.Client.Dispatch.{Agent, given, Reach}
use go_agentx.Client.Dispatch.Serial.{answers_all, at_hand, Reach-IsSerial}
use go_agentx.Handler.{Handler}
use go_agentx.Session.{State, handle}
use go_agentx.Session.Replies.{IsReplyTo, handle-IsReplyTo}

-- One answer for each request but a CleanupSet, in the order of the requests.
pub data AreRepliesTo : List HeaderPacket → List HeaderPacket → Type 0 where
  finished : AreRepliesTo [] []
  answered :
      {request reply : HeaderPacket} {requests replies : List HeaderPacket}
      → IsReplyTo request (some reply)
      → AreRepliesTo requests replies
      → AreRepliesTo (request ∷ requests) (reply ∷ replies)
  unanswered :
      {request : HeaderPacket} {requests replies : List HeaderPacket}
      → IsReplyTo request none
      → AreRepliesTo requests replies
      → AreRepliesTo (request ∷ requests) replies

one-AreRepliesTo :
    (request : HeaderPacket) (reply : Option HeaderPacket) (requests replies : List HeaderPacket)
    → IsReplyTo request reply
    → AreRepliesTo requests replies
    → AreRepliesTo (request ∷ requests) (given reply ++ replies)
one-AreRepliesTo request none requests replies i r = unanswered i r
one-AreRepliesTo request (some reply) requests replies i r = answered i r

module _ {H : Type 0} where
  answers_all-AreRepliesTo :
      (handler : Option (Handler H)) (requests : List HeaderPacket) (s : State H)
      → AreRepliesTo requests (answers_all handler requests s)
  unfolding answers_all
  answers_all-AreRepliesTo handler [] s = finished
  answers_all-AreRepliesTo handler (hp ∷ hps) s =
      one-AreRepliesTo hp (handle handler hp s).0 hps _ (handle-IsReplyTo handler hp s)
        (answers_all-AreRepliesTo handler hps (handle handler hp s).1)

  module _ (handlers : ℕ → Option (Handler H)) (starts : ℕ → State H) where
    -- While a session is not ended nor the client closed, whatever the order of the steps: the requests
    -- that came for it are, in their order, those that it has handled, those that wait in its queue and
    -- the one that the dispatcher has for it; and of those that it has handled it has answered each one
    -- but the CleanupSets, once, in their order, by Responses under their ids.
    pub session-AreRepliesTo :
        {a : Agent H} (j : ℕ)
        → Reach handlers starts a
        → a.ended j ≡ false
        → a.requests.done ≡ false
        → (a.arrived j ≡ a.handled j ++ (a.queues j ++ at_hand j a.hand))
          × AreRepliesTo (a.handled j) (a.replies j)
    session-AreRepliesTo {a} j r o d =
        let v = Reach-IsSerial handlers starts j r in
        (
          v.arrivals o d,
          rw v.replies (answers_all-AreRepliesTo (handlers j) (a.handled j) (starts j)),
        )
