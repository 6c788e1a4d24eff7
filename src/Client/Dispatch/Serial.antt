-- ===== src/Client/Dispatch/Serial.antt =====
-- Sessions among the goroutines of the client: each is as if it were alone and handled its requests
-- one after the other.
use go_agentx.Prelude.{
  ℕ, ◌≤◌, ◌<◌, ◌≡◌, refl, sym, ap, ◌∙◌, true, false, Option, none, some, List, [], ◌∷◌, ◌++◌,
  length, length-append, ◌==◌, ==_iff, ==_refl, if◌then◌else◌, arith, append-nil, append_assoc,
  Bool-cases, Option-cases, ◌⊎◌, inl, inr,
}
use go_agentx.Prelude.Dict.{find, update}
use go_agentx.Pdu.Packet.{type_response}
use go_agentx.Pdu.HeaderPacket.{HeaderPacket}
use go_agentx.Client.Replies.{expects_response}
use go_agentx.Client.Requests
use go_agentx.Client.Requests.{
  Requests, add_pending, take_pending, begin, after_encoding, send_frame, receive, leave,
  match_response, deliver,
}
use go_agentx.Client.Dispatch.{
  Agent, snoc, given, refuse, dispatch, enqueue, run_one, Step, requests, dispatches, enqueues,
  discards, disbands, runs, routes, ends, Reach, start, next, incoming_queue_size,
}
use go_agentx.Handler.{Handler}
use go_agentx.Session.{State, handle}
use go_agentx.Session.Transaction.{handle_all}

-- What a session on its own answers to a list of requests.
unfoldable pub answers_all :
    {H : Type 0} → Option (Handler H) → List HeaderPacket → State H → List HeaderPacket
answers_all handler [] s = []
answers_all handler (hp ∷ hps) s =
    given (handle handler hp s).0 ++ answers_all handler hps (handle handler hp s).1

handle_all-snoc :
    {H : Type 0} (handler : Option (Handler H)) (hps : List HeaderPacket) (hp : HeaderPacket)
    (s : State H)
    → handle_all handler (snoc hps hp) s ≡ (handle handler hp (handle_all handler hps s)).1
unfolding handle_all
handle_all-snoc handler [] hp s = refl
handle_all-snoc handler (x ∷ hps) hp s = handle_all-snoc handler hps hp (handle handler x s).1

answers_all-snoc :
    {H : Type 0} (handler : Option (Handler H)) (hps : List HeaderPacket) (hp : HeaderPacket)
    (s : State H)
    → answers_all handler (snoc hps hp) s
      ≡ answers_all handler hps s ++ given (handle handler hp (handle_all handler hps s)).0
unfolding handle_all answers_all
answers_all-snoc handler [] hp s = append-nil _
answers_all-snoc handler (x ∷ hps) hp s =
    rw (answers_all-snoc handler hps hp (handle handler x s).1) (
      sym (
        append_assoc (given (handle handler x s).0) (answers_all handler hps (handle handler x s).1)
          _))

abbrev pub at_hand : ℕ → Option (ℕ × HeaderPacket) → List HeaderPacket
at_hand j none = []
at_hand j (some (i, hp)) = if i == j then hp ∷ [] else []

requests-done : {s t : Requests} → Requests.Step s t → t.done ≡ false → s.done ≡ false
unfolding begin after_encoding add_pending send_frame receive leave take_pending match_response
    deliver
requests-done {s} (Requests.Step.encodes k hp e) d = ground arith
requests-done {s} (Requests.Step.matches hp e ty) d = ground arith
requests-done {s} _ d = ground arith

module _ {H : Type 0} (handlers : ℕ → Option (Handler H)) (starts : ℕ → State H) where
  -- The session `j` has done what it does alone on the requests that it has handled, and these, with
  -- those that wait, are the requests that came for it, in their order.
  pub record IsSerial (a : Agent H) (j : ℕ) : Type 0 where
    pub state : a.states j ≡ handle_all (handlers j) (a.handled j) (starts j)
    pub replies : a.replies j ≡ answers_all (handlers j) (a.handled j) (starts j)
    pub room : length (a.queues j) ≤ incoming_queue_size
    pub arrivals :
        a.ended j ≡ false
        → a.requests.done ≡ false
        → a.arrived j ≡ a.handled j ++ (a.queues j ++ at_hand j a.hand)

  arrival-IsSerial :
      (i : ℕ) (hp : HeaderPacket) (a : Agent H) (j : ℕ)
      → a.hand ≡ none
      → IsSerial a j
      → IsSerial
          (record a { hand = some (i, hp); arrived = update a.arrived i (snoc (a.arrived i) hp) })
          j
  arrival-IsSerial i hp a j free v = record {
    state = v.state;
    replies = v.replies;
    room = v.room;
    arrivals = λ o d.
        let before : a.arrived j ≡ a.handled j ++ (a.queues j ++ []) =
          rw free at (v.arrivals o d) in
        elim (Bool-cases (i == j)) [
          | inl e ↦
              rw (e, (==_iff i j).0 e, before, append-nil)
                (append_assoc (a.handled j) (a.queues j) (hp ∷ []))
          | inr e ↦ rw e before
        ];
  }

  match-done : (hp : HeaderPacket) (r : Requests) → (match_response hp r).done ≡ r.done
  unfolding match_response take_pending
  match-done hp r = ground arith

  dispatch-IsSerial :
      (hp : HeaderPacket) (a : Agent H) (j : ℕ)
      → a.hand ≡ none
      → IsSerial a j
      → IsSerial (dispatch hp a) j
  unfolding dispatch refuse
  dispatch-IsSerial hp a j free v = elim (Bool-cases (hp.header.type == type_response)) [
    | inl r ↦ rw r (record {
      state = v.state;
      replies = v.replies;
      room = v.room;
      arrivals = λ o d. v.arrivals o (sym (match-done hp a.requests) ∙ d);
    })
    | inr r ↦ elim (Option-cases (find hp.header.session_id a.routes)) [
      | inr (i, f) ↦ rw (r, f, dispatch) (arrival-IsSerial i hp a j free v)
      | inl f ↦ elim (Bool-cases (expects_response hp.header.type)) [
        | inl x ↦
            rw (r, f, x, dispatch, refuse)
              (record {
                state = v.state;
                replies = v.replies;
                room = v.room;
                arrivals = v.arrivals;
              })
        | inr x ↦ rw (r, f, x, dispatch, refuse) v
      ]
    ]
  ]

  enqueue-IsSerial :
      (i : ℕ) (hp : HeaderPacket) (a : Agent H) (j : ℕ)
      → a.hand ≡ some (i, hp)
      → length (a.queues i) < incoming_queue_size
      → IsSerial a j
      → IsSerial (enqueue i hp a) j
  unfolding enqueue
  enqueue-IsSerial i hp a j h room v = elim (Bool-cases (i == j)) [
    | inl e ↦ record {
      state = v.state;
      replies = v.replies;
      room =
          rw (e, (==_iff i j).0 e)
            (omega (arith, length-append (a.queues j) (hp ∷ []), rw ((==_iff i j).0 e) at room));
      arrivals = λ o d.
          let before = v.arrivals o d in rw (e, (==_iff i j).0 e, append-nil) (rw (h, e) at before);
    }
    | inr e ↦ record {
      state = v.state;
      replies = v.replies;
      room = rw e v.room;
      arrivals = λ o d. rw e (rw (h, e) at (v.arrivals o d));
    }
  ]

  run_own-IsSerial :
      (hp : HeaderPacket) (rest : List HeaderPacket) (a : Agent H) (j : ℕ)
      → a.queues j ≡ hp ∷ rest
      → IsSerial a j
      → IsSerial (run_one (handlers j) j hp rest a) j
  unfolding run_one
  run_own-IsSerial hp rest a j q v = record {
    state = rw (==_refl j) (
        ap (λ (s : State H). (handle (handlers j) hp s).1) v.state
        ∙ sym (handle_all-snoc (handlers j) (a.handled j) hp (starts j)));
    replies = rw (==_refl j) (
        ap (λ (s : State H). a.replies j ++ given (handle (handlers j) hp s).0) v.state
        ∙ ap
            (λ (l : List HeaderPacket).
              l
              ++ given
                  (handle (handlers j) hp (handle_all (handlers j) (a.handled j) (starts j))).0)
            v.replies
        ∙ sym (answers_all-snoc (handlers j) (a.handled j) hp (starts j)));
    room = rw (==_refl j) (omega (arith, v.room, ap length q));
    arrivals = λ o d. rw (==_refl j) (
        v.arrivals o d
        ∙ rw q (sym (append_assoc (a.handled j) (hp ∷ []) (rest ++ at_hand j a.hand))));
  }

  run_one-IsSerial :
      (i : ℕ) (hp : HeaderPacket) (rest : List HeaderPacket) (a : Agent H) (j : ℕ)
      → a.queues i ≡ hp ∷ rest
      → IsSerial a j
      → IsSerial (run_one (handlers i) i hp rest a) j
  unfolding run_one
  run_one-IsSerial i hp rest a j q v = elim (Bool-cases (i == j)) [
    | inl e ↦
        let same : i ≡ j = (==_iff i j).0 e in
        rw same (run_own-IsSerial hp rest a j (rw same at q) v)
    | inr e ↦ record {
      state = rw e v.state;
      replies = rw e v.replies;
      room = rw e v.room;
      arrivals = λ o d. rw e (v.arrivals o d);
    }
  ]

  discard-IsSerial :
      (i : ℕ) (hp : HeaderPacket) (a : Agent H) (j : ℕ)
      → a.hand ≡ some (i, hp)
      → (a.ended i ≡ true) ⊎ (a.requests.done ≡ true)
      → IsSerial a j
      → IsSerial (record a { hand = none }) j
  discard-IsSerial i hp a j h why v = record {
    state = v.state;
    replies = v.replies;
    room = v.room;
    arrivals = λ o d. elim (Bool-cases (i == j)) [
      | inl e ↦ elim why [
        | inl x ↦ let bad : false ≡ true = rw ((==_iff i j).0 e, o) at x in cc
        | inr x ↦ cc
      ]
      | inr e ↦ rw (h, e) at (v.arrivals o d)
    ];
  }

  Step-IsSerial : {a b : Agent H} (j : ℕ) → Step handlers a b → IsSerial a j → IsSerial b j
  Step-IsSerial {a} j (requests st) v = record {
    state = v.state;
    replies = v.replies;
    room = v.room;
    arrivals = λ o d. v.arrivals o (requests-done st d);
  }
  Step-IsSerial {a} j (dispatches hp free q) v = dispatch-IsSerial hp a j free v
  Step-IsSerial {a} j (enqueues i hp h room) v = enqueue-IsSerial i hp a j h room v
  Step-IsSerial {a} j (discards i hp h e) v = discard-IsSerial i hp a j h (inl e) v
  Step-IsSerial {a} j (disbands i hp h e) v = discard-IsSerial i hp a j h (inr e) v
  Step-IsSerial {a} j (runs i hp rest q) v = run_one-IsSerial i hp rest a j q v
  Step-IsSerial {a} j (routes m) v = record {
    state = v.state;
    replies = v.replies;
    room = v.room;
    arrivals = v.arrivals;
  }
  Step-IsSerial {a} j (ends i) v = record {
    state = v.state;
    replies = v.replies;
    room = v.room;
    arrivals = λ o d. v.arrivals (ground arith) d;
  }

  pub Reach-IsSerial : {a : Agent H} (j : ℕ) → Reach handlers starts a → IsSerial a j
  Reach-IsSerial j start = record {
    state = unfold handle_all in refl;
    replies = unfold answers_all in refl;
    room = omega arith;
    arrivals = λ o d. refl;
  }
  Reach-IsSerial j (next r st) = Step-IsSerial j st (Reach-IsSerial j r)

  -- While a session is not ended nor the client closed, whatever the order in which the dispatcher, the
  -- calls of `request` and the sessions run: the requests that the dispatcher took for the session are,
  -- in their order, some that are done, those that wait in its queue, and the one that the dispatcher
  -- has for it; and the session is in the state, and has given the answers, that it comes to alone by
  -- handling those that are done one after the other.
  pub session_serial :
      {a : Agent H} (j : ℕ)
      → Reach handlers starts a
      → a.ended j ≡ false
      → a.requests.done ≡ false
      → (hps : List HeaderPacket) × (a.arrived j ≡ hps ++ (a.queues j ++ at_hand j a.hand))
        × (a.states j ≡ handle_all (handlers j) hps (starts j))
        × (a.replies j ≡ answers_all (handlers j) hps (starts j))
  session_serial {a} j r o d =
      let v = Reach-IsSerial j r in (a.handled j, v.arrivals o d, v.state, v.replies)
