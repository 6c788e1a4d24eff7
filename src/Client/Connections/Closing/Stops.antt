-- ===== src/Client/Connections/Closing/Stops.antt =====
-- client.go: when the receiver of a client that was closed comes to its end, and when it does not.
use go_agentx.Prelude.{
  ℕ, ◌+◌, ◌≤◌, ◌<◌, ◌≡◌, refl, ap, Bool, true, false, ◌==◌, ◌||◌, ==_refl, arith,
}
use go_agentx.Client.Connections.Closing.{
  Receiver, reading, delivering, waiting, dialing, returned, Closer, before, marked, holding,
  behind, Closing, dialled, mark, current_conn, close_conn, Step, reads, delivers, abandons, loses,
  breaks, finds_shut, wakes, gives_up, dial_fails, dials, marks, picks, shuts, Steps, here, next,
  Reach,
}

-- The receiver reads the current connection, or none.
abbrev Reads : ℕ → Receiver → Type 0
Reads c (reading d) = d ≡ c
Reads c (delivering d) = d ≡ c
Reads c _ = Unit

-- `done` is closed by the first step of Close; and unless a Dial was late, what Close closes is the
-- current connection.
abbrev Closes : Closing → Closer → Type 0
Closes s before = s.done ≡ false
Closes s marked = s.done ≡ true
Closes s (holding c) = (s.done ≡ true) × (c ≤ s.conn) × (s.late ≡ false → c ≡ s.conn)
Closes s behind = (s.done ≡ true) × (s.late ≡ false → s.shut s.conn ≡ true)

record Inv (s : Closing) : Type 0 where
  reader : Reads s.conn s.receiver
  closer : Closes s s.closer
  fresh : (c : ℕ) → s.conn < c → s.shut c ≡ false

or_true : (b : Bool) → (b || true) ≡ true
or_true true = refl
or_true false = refl

dialled-Closes : (s : Closing) (x : Closer) → Closes s x → Closes (dialled s) x
unfolding dialled
dialled-Closes s before d = d
dialled-Closes s marked d = d
dialled-Closes s (holding c) (d, l, f) =
    (d, omega arith, (λ n. cc (or_true s.late, ap (λ b. s.late || b) d, n)))
dialled-Closes s behind (d, f) = (d, (λ n. cc (or_true s.late, ap (λ b. s.late || b) d, n)))

at_closer : (s : Closing) (x : Closer) → s.closer ≡ x → Closes s s.closer → Closes s x
at_closer s x e c = rw e at c

at_receiver :
    (s : Closing) (x : Receiver) → s.receiver ≡ x → Reads s.conn s.receiver → Reads s.conn x
at_receiver s x e r = rw e at r

Step-Inv : {s t : Closing} → Inv s → Step s t → Inv t
unfolding dialled mark current_conn close_conn
Step-Inv {s} v (reads c e) = record {
  reader = at_receiver s (reading c) e v.reader;
  closer = v.closer;
  fresh = v.fresh;
}
Step-Inv {s} v (delivers c e) = record {
  reader = at_receiver s (delivering c) e v.reader;
  closer = v.closer;
  fresh = v.fresh;
}
Step-Inv v (abandons c e d) = record { reader = tt; closer = v.closer; fresh = v.fresh }
Step-Inv v (loses c e d n) = record { reader = tt; closer = v.closer; fresh = v.fresh }
Step-Inv v (breaks c e n) = record { reader = tt; closer = v.closer; fresh = v.fresh }
Step-Inv v (finds_shut c e n) = record { reader = tt; closer = v.closer; fresh = v.fresh }
Step-Inv v (wakes e) = record { reader = tt; closer = v.closer; fresh = v.fresh }
Step-Inv v (gives_up e d) = record { reader = tt; closer = v.closer; fresh = v.fresh }
Step-Inv v (dial_fails e) = record { reader = tt; closer = v.closer; fresh = v.fresh }
Step-Inv {s} v (dials e) = record {
  reader = refl;
  closer = dialled-Closes s s.closer v.closer;
  fresh = λ c l. v.fresh c (omega arith);
}
Step-Inv v (marks e) = record { reader = v.reader; closer = refl; fresh = v.fresh }
Step-Inv {s} v (picks e) = record {
  reader = v.reader;
  closer = (at_closer s marked e v.closer, omega arith, (λ l. refl));
  fresh = v.fresh;
}
Step-Inv {s} v (shuts c e) = record {
  reader = v.reader;
  closer = shut_Closes;
  fresh = λ d l. ground (arith, known.1, v.fresh d l);
}
  where
    known : Closes s (holding c)
    known = at_closer s (holding c) e v.closer

    shut_Closes : Closes (close_conn c s) behind
    shut_Closes = (known.0, (λ l. rw (ap (λ d. d == s.conn) (known.2 l), ==_refl s.conn) refl))

Reach-Inv : {s : Closing} → Reach s → Inv s
Reach-Inv here = record { reader = refl; closer = refl; fresh = λ c l. refl }
Reach-Inv (next w p) = Step-Inv (Reach-Inv w) p

-- The steps of the receiver for which it waits for nobody: its selects find `done` closed, its read finds
-- the connection closed from this side, or its Dial fails.
abbrev pub is_own : {s t : Closing} → Step s t → Bool
is_own (abandons c e d) = true
is_own (finds_shut c e n) = true
is_own (gives_up e d) = true
is_own (dial_fails e) = true
is_own _ = false

pub data OwnSteps (s : Closing) : Closing → Type 0 where
  own_here : OwnSteps s s
  own_next : {t u : Closing} → OwnSteps s t → (p : Step t u) → is_own p ≡ true → OwnSteps s u

-- In a state that can be reached, in which Close has ended and no Dial gave a connection after `done` was
-- closed: the receiver has returned, or can return by steps in which it finds `done` or its connection
-- closed, after the failure of a Dial that is going on. No packet, no end of a connection, no room at
-- the dispatcher and no step of another goroutine is needed for it.
pub closed_receiver-Returns :
    {s : Closing}
    → Reach s
    → s.closer ≡ behind
    → s.late ≡ false
    → (t : Closing) × OwnSteps s t × (t.receiver ≡ returned)
closed_receiver-Returns {s} w b l = by s.receiver refl (Reach-Inv w).reader
  where
    known : Closes s behind
    known = at_closer s behind b (Reach-Inv w).closer

    by :
        (x : Receiver)
        → s.receiver ≡ x
        → Reads s.conn x
        → (t : Closing) × OwnSteps s t × (t.receiver ≡ returned)
    by (reading c) e r = (_, own_next own_here (finds_shut c e (rw r (known.1 l))) refl, refl)
    by (delivering c) e r = (_, own_next own_here (abandons c e known.0) refl, refl)
    by waiting e r = (_, own_next own_here (gives_up e known.0) refl, refl)
    by dialing e r =
        (_, own_next (own_next own_here (dial_fails e) refl) (gives_up refl known.0) refl, refl)
    by returned e r = (s, own_here, e)

-- From a state that can be reached in which Close has not begun and the receiver is in net.Dial, steps
-- lead to a state in which Close has ended, and the receiver reads the current connection, which is
-- not closed.
pub dial_leaks :
    {s : Closing}
    → Reach s
    → s.closer ≡ before
    → s.receiver ≡ dialing
    → (t : Closing) × Steps s t
      × (t.closer ≡ behind)
      × (t.receiver ≡ reading t.conn)
      × (t.shut t.conn ≡ false)
unfolding mark current_conn close_conn dialled
dial_leaks {s} w b e = (
  dialled (close_conn s.conn (current_conn (mark s))),
  next (next (next (next here (marks b)) (picks refl)) (shuts s.conn refl)) (dials e),
  refl,
  refl,
  ground (arith, (Reach-Inv w).fresh (s.conn + 1)),
)
