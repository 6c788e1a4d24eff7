-- ===== src/Session/Lifecycle/Reopening.antt =====
-- client.go, `reopenSessions`: which session the dispatcher finds for a session id afterwards.
use go_agentx.Prelude.{
  ℕ, ◌≡◌, refl, ap, ◌∙◌, Bool, true, false, Option, none, some, List, [], ◌∷◌, ◌++◌, map, ◌==◌,
  if◌then◌else◌, arith,
}
use go_agentx.Prelude.Dict.{find, find-insert}
use go_agentx.Pdu.Packet.{type_response}
use go_agentx.Pdu.HeaderPacket.{HeaderPacket}
use go_agentx.Client.Replies.{error_response, expects_response, error_not_open}
use go_agentx.Client.Requests.{Outcome}
use go_agentx.Client.Dispatch.{Agent, dispatch, refuse, snoc}
use go_agentx.Session.Lifecycle.{
  Session, Attempt, reopen, Reopened, after_reopen, reopen_loop, reopen_sessions,
}

-- Whether a session got the session id.
abbrev pub gives : ℕ → Attempt → Bool
gives i (none, s) = s.id == i
gives i (some e, s) = false

-- No session got the session id.
abbrev pub NoneGives : ℕ → List (ℕ × Attempt) → Type 0
NoneGives i [] = Unit
NoneGives i ((j, a) ∷ tries) = (gives i a ≡ false) × NoneGives i tries

-- The last session that got the session id.
abbrev owner : ℕ → List (ℕ × Attempt) → Option ℕ → Option ℕ
owner i [] before = before
owner i ((j, a) ∷ tries) before = owner i tries (if gives i a then some j else before)

owner-none :
    (i : ℕ) (tries : List (ℕ × Attempt)) (before : Option ℕ)
    → NoneGives i tries
    → owner i tries before ≡ before
owner-none i [] before h = refl
owner-none i ((j, a) ∷ tries) before (e, h) = rw (e, owner-none i tries before h) refl

owner-split :
    (i j : ℕ) (a : Attempt) (front back : List (ℕ × Attempt)) (before : Option ℕ)
    → gives i a ≡ true
    → NoneGives i back
    → owner i (front ++ ((j, a) ∷ back)) before ≡ some j
owner-split i j a [] back before e h = rw (owner, e) (owner-none i back (some j) h)
owner-split i j a ((k, b) ∷ front) back before e h = owner-split i j a front back _ e h

after_reopen-find :
    (i j : ℕ) (a : Attempt) (r : Reopened)
    → find i (after_reopen j a r).table ≡ (if gives i a then some j else find i r.table)
after_reopen-find i j (none, s) r = find-insert s.id i j r.table
after_reopen-find i j (some e, s) r = refl

expects-no_response : (t : ℕ) → expects_response t ≡ true → (t == type_response) ≡ false
unfolding expects_response
expects-no_response t e = ground arith

dispatch-lost :
    {H : Type 0} (hp : HeaderPacket) (a : Agent H)
    → (hp.header.type == type_response) ≡ false
    → find hp.header.session_id a.routes ≡ none
    → expects_response hp.header.type ≡ true
    → dispatch hp a
      ≡ record a { refusals = snoc a.refusals (error_response hp.header error_not_open) }
unfolding dispatch refuse
dispatch-lost hp a other lost expects = rw (other, lost, expects) refl

module _ {C : Type 0} (request : HeaderPacket → C → Outcome × C) where
  -- What each session's `reopen` comes to, in the order of the loop.
  unfoldable pub attempts : List (ℕ × Session) → C → List (ℕ × Attempt)
  attempts [] c = []
  attempts ((j, s) ∷ rest) c = let (a, c') = reopen request s c in (j, a) ∷ attempts rest c'

  attempted :
      (ss : List (ℕ × Session)) (c : C) → map (λ (j, a). j) (attempts ss c) ≡ map (λ (j, s). j) ss
  unfolding attempts
  attempted [] c = refl
  attempted ((j, s) ∷ rest) c = ap (λ js. j ∷ js) (attempted rest _)

  find-reopen_loop :
      (i : ℕ) (ss : List (ℕ × Session)) (c : C) (r : Reopened)
      → find i (reopen_loop request ss c r).0.table ≡ owner i (attempts ss c) (find i r.table)
  unfolding attempts reopen_loop
  find-reopen_loop i [] c r = refl
  find-reopen_loop i ((j, s) ∷ rest) c r =
      find-reopen_loop i rest (reopen request s c).1 _
      ∙ ap (owner i (attempts rest (reopen request s c).1))
          (after_reopen-find i j (reopen request s c).0 r)

  find-reopen_sessions :
      (i : ℕ) (ss : List (ℕ × Session)) (c : C) (r : Reopened)
      → find i (reopen_sessions request ss c r).0.table ≡ owner i (attempts ss c) none
  unfolding reopen_sessions find
  find-reopen_sessions i ss c r = find-reopen_loop i ss c (record r { table = [] })

  -- Whatever the table was: each session is tried, whatever the others come to, and a session that is
  -- confirmed is the one that its new session id leads to, unless a later one was confirmed under the
  -- same id.
  pub reopened_routed :
      (ss : List (ℕ × Session)) (c : C) (r : Reopened) (front back : List (ℕ × Attempt)) (j : ℕ)
      (s : Session)
      → attempts ss c ≡ front ++ ((j, (none, s)) ∷ back)
      → NoneGives s.id back
      → (map (λ (k, a). k) (attempts ss c) ≡ map (λ (k, t). k) ss)
        × (find s.id (reopen_sessions request ss c r).0.table ≡ some j)
  reopened_routed ss c r front back j s e h = (
    attempted ss c,
    find-reopen_sessions s.id ss c r
        ∙ rw e (owner-split s.id j (none, s) front back _ (ground arith) h),
  )

  -- Whatever the table was: with the table that reopenSessions leaves, a packet of a type that expects an
  -- answer, under a session id that no session was given on the new connection, is answered with
  -- notOpen, and changes nothing else.
  pub stale_refused :
      {H : Type 0} (ss : List (ℕ × Session)) (c : C) (r : Reopened) (hp : HeaderPacket)
      (a : Agent H)
      → a.routes ≡ (reopen_sessions request ss c r).0.table
      → NoneGives hp.header.session_id (attempts ss c)
      → expects_response hp.header.type ≡ true
      → dispatch hp a
        ≡ record a { refusals = snoc a.refusals (error_response hp.header error_not_open) }
  stale_refused ss c r hp a e h expects =
      let lost =
        ap (find hp.header.session_id) e
        ∙ find-reopen_sessions hp.header.session_id ss c r
        ∙ owner-none hp.header.session_id (attempts ss c) none h in
      dispatch-lost hp a (expects-no_response hp.header.type expects) lost expects
