-- ===== src/Session/Lifecycle/Table/Closing.antt =====
-- client.go: when a session that was closed is out of the table for good, and when it is not.
use go_agentx.Prelude.{
  ℕ, ◌≡◌, ◌≢◌, refl, ◌∙◌, true, false, some, List, ◌==◌, ==_refl, Bool-cases, if-either, inl, inr,
  arith,
}
use go_agentx.Prelude.Dict.{find, remove, update, find-insert, find-remove}
use go_agentx.Session.Lifecycle.Table.{
  Reopener, away, between, confirmed, idle, holding, Sessions, member, todo_of, register_new,
  read_id, unregister, end, take_table, set_id, go_on, register_again, Step, opens, reads,
  unregisters, ends, takes, renames, gives_up, confirms, registers, finishes, Steps, here, next,
  Reach,
}
use go_agentx.Session.Lifecycle.Table.Members.{Holds, IsFree, find-either, member-later, AreAt-key}
use go_agentx.Session.Lifecycle.Table.Kept.{Reach-Inv, confirmed-Holds}

-- A session is out of the table, and no run of reopenSessions has it.
record Gone (j : ℕ) (s : Sessions) : Type 0 where
  past : s.opened j ≡ true
  free : IsFree s j
  unrouted : (i : ℕ) → find i s.table ≢ some j

module _ (j : ℕ) (s : Sessions) (g : Gone j s) where
  go_on-Gone :
      (r : ℕ) (p : Reopener)
      → (Holds p j → Holds (s.reopeners r) j)
      → (q : ℕ) → member j (todo_of (update s.reopeners r p q)) ≡ false
  go_on-Gone r p sub q = elim (Bool-cases (member j (todo_of (update s.reopeners r p q)))) [
    | inr h ↦ h
    | inl h ↦ elim (if-either (λ x. Holds x j) (r == q) p (s.reopeners q) h) [
      | inl (t, k) ↦ cc (g.free r, sub k)
      | inr k ↦ cc (g.free q, k)
    ]
  ]

Step-Gone : (j : ℕ) {s t : Sessions} → Gone j s → Step s t → Gone j t
unfolding register_new read_id unregister end take_table set_id go_on register_again find
Step-Gone j {s} g (opens k i n) = record {
  past = elim (Bool-cases (k == j)) [ inl t ↦ rw t refl | inr t ↦ rw t g.past ];
  free = g.free;
  unrouted = λ l e. elim (find-either i l k j s.table e) [
    | inl (t, u) ↦ cc (n, g.past, u)
    | inr f ↦ g.unrouted l f
  ];
}
Step-Gone j g (reads c k o n) = record { past = g.past; free = g.free; unrouted = g.unrouted }
Step-Gone j {s} g (unregisters c k i h) = record {
  past = g.past;
  free = g.free;
  unrouted = λ l e. g.unrouted l (ground (arith, find-remove i l s.table));
}
Step-Gone j g (ends c k i h) = record { past = g.past; free = g.free; unrouted = g.unrouted }
Step-Gone j {s} g (takes r todo a l) = record {
  past = g.past;
  free =
      go_on-Gone j s g r (between todo)
        (λ h. let (i, m, f) = AreAt-key s.table j l.values h in absurd (g.unrouted i f));
  unrouted = λ k e. cc;
}
Step-Gone j g (renames r k i todo e) = record {
  past = g.past;
  free = g.free;
  unrouted = g.unrouted;
}
Step-Gone j {s} g (gives_up r k todo e) = record {
  past = g.past;
  free = go_on-Gone j s g r (between todo) (λ h. rw e (member-later k j todo h));
  unrouted = g.unrouted;
}
Step-Gone j {s} g (confirms r k todo e) = record {
  past = g.past;
  free = go_on-Gone j s g r (confirmed k todo) (λ h. rw e h);
  unrouted = g.unrouted;
}
Step-Gone j {s} g (registers r k todo e) = record {
  past = g.past;
  free = go_on-Gone j s g r (between todo) (λ h. rw e (member-later k j todo h));
  unrouted = λ l f. elim (find-either (s.ids k) l k j s.table f) [
    | inl (t, u) ↦ cc (g.free r, e, u, ==_refl k)
    | inr h ↦ g.unrouted l h
  ];
}
Step-Gone j {s} g (finishes r e) = record {
  past = g.past;
  free = go_on-Gone j s g r away (λ h. cc);
  unrouted = g.unrouted;
}

Steps-Gone : (j : ℕ) {s t : Sessions} → Gone j s → Steps s t → Gone j t
Steps-Gone j g here = g
Steps-Gone j g (next w p) = Step-Gone j (Steps-Gone j g w) p

-- The Close of a session that is in no list to reopen leaves it out of the table.
unregister-Gone :
    {s : Sessions} (c j : ℕ)
    → Reach s
    → s.opened j ≡ true
    → IsFree s j
    → Gone j (unregister c j (s.ids j) s)
unfolding unregister
unregister-Gone {s} c j w o f = record {
  past = o;
  free = f;
  unrouted = λ i e. ground (arith, find-remove (s.ids j) i s.table, e, (Reach-Inv w).routed i j);
}

-- A session is in the table of no later state, whatever the connections and the other sessions do, once
-- its Close takes it out of the table of a state that can be reached, with the id that it has then and
-- while no run of reopenSessions has the session to reopen.
pub closed_unrouted :
    {s t : Sessions} (c j : ℕ)
    → Reach s
    → s.closers c ≡ holding j (s.ids j)
    → IsFree s j
    → Steps (unregister c j (s.ids j) s) t
    → (i : ℕ) → find i t.table ≢ some j
closed_unrouted {s} c j w h f later =
    (Steps-Gone j (unregister-Gone c j w ((Reach-Inv w).known c j (s.ids j) h) f) later).unrouted

-- From a state that can be reached, and in which a run of reopenSessions has a session confirmed and not
-- yet registered and a call of Close has not begun, steps lead to a state in which that session is ended
-- and in the table.
pub closed_while_reopened :
    {s : Sessions} (c r j : ℕ) (todo : List ℕ)
    → Reach s
    → s.closers c ≡ idle
    → s.reopeners r ≡ confirmed j todo
    → (t : Sessions) × Steps s t × (t.ended j ≡ true) × (find (t.ids j) t.table ≡ some j)
unfolding read_id unregister end register_again
closed_while_reopened {s} c r j todo w n e =
    let v = Reach-Inv w in
    let o = v.held r j (confirmed-Holds s v r j todo e) in
    let a = read_id c j s in
    let b = unregister c j (s.ids j) a in
    let d = end c j b in
    (
      register_again r j todo d,
      next
          (next (next (next here (reads c j o n)) (unregisters c j (s.ids j) (rw (==_refl c) refl)))
            (ends c j (s.ids j) (rw (==_refl c) refl)))
          (registers r j todo e),
      rw (==_refl j) refl,
      find-insert (s.ids j) (s.ids j) j (remove (s.ids j) s.table) ∙ rw (==_refl (s.ids j)) refl,
    )
