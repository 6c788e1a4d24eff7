-- ===== src/Session/Lifecycle/Table/Kept.antt =====
-- client.go: every step of the sessions keeps the invariant.
use go_agentx.Prelude.{
  ℕ, ◌≡◌, refl, sym, ap, ◌∙◌, true, false, List, [], ◌∷◌, ◌==◌, ==_refl, Bool-cases, inl, inr,
  arith,
}
use go_agentx.Prelude.Dict.{find, remove, update}
use go_agentx.Session.Lifecycle.Table.{
  Reopener, away, between, confirmed, idle, holding, removed, Sessions, member, distinct, todo_of,
  Lists, register_new, read_id, unregister, end, take_table, set_id, go_on, register_again, Step,
  opens, reads, unregisters, ends, takes, renames, gives_up, confirms, registers, finishes, here,
  next, Reach,
}
use go_agentx.Session.Lifecycle.Table.Members.{
  Holds, IsFree, member-later, distinct-first, AreAt-key, AreAt-distinct,
}
use go_agentx.Session.Lifecycle.Table.Invariant.{
  Inv, Inv-start, Holds-IsOwn, change-Inv, set_id-Inv, route-Inv, open-Inv, closer-Inv, remove-Inv,
  empty-Inv,
}

module _ (s : Sessions) (v : Inv s) where
  take_table-Inv : (r : ℕ) (todo : List ℕ) → Lists s.table todo → Inv (take_table r todo s)
  unfolding take_table find
  take_table-Inv r todo l =
      change-Inv (record s { table = [] }) (empty-Inv s v) r (between todo)
        (λ j h.
          let (i, m, f) = AreAt-key s.table j l.values h in
          let (g, x, o) = v.routed i j f in (o, (λ q k. cc (x q, k)), (λ k n. cc)))
        (AreAt-distinct s.table (λ i k j e f. sym (v.routed i j e).0 ∙ (v.routed k j f).0) l.values
          l.once)

  module _ (r : ℕ) where
    once-at : (p : Reopener) → s.reopeners r ≡ p → distinct (todo_of p) ≡ true
    once-at p e = ap (λ q. distinct (todo_of q)) (sym e) ∙ v.once r

  module _ (r j : ℕ) (todo : List ℕ) where
    module _ (e : s.reopeners r ≡ between (j ∷ todo)) where
      renamed-Inv : (i : ℕ) → Inv (set_id j i s)
      unfolding set_id
      renamed-Inv i = set_id-Inv s v r j i (rw (e, ==_refl j) refl)

      give_up-Inv : Inv (go_on r (between todo) s)
      unfolding go_on
      give_up-Inv =
          change-Inv s v r (between todo)
            (λ k h. Holds-IsOwn s v r k (rw e (member-later j k todo h)))
            (distinct-first j todo (once-at r (between (j ∷ todo)) e)).1

      confirm-Inv : Inv (go_on r (confirmed j todo) s)
      unfolding go_on
      confirm-Inv =
          change-Inv s v r (confirmed j todo) (λ k h. Holds-IsOwn s v r k (rw e h))
            (once-at r (between (j ∷ todo)) e)

    module _ (e : s.reopeners r ≡ confirmed j todo) where
      pub confirmed-Holds : Holds (s.reopeners r) j
      confirmed-Holds = rw (e, ==_refl j) refl

      registered-IsFree : IsFree (record s { reopeners = update s.reopeners r (between todo) }) j
      registered-IsFree q = elim (Bool-cases (r == q)) [
        | inl t ↦ rw t (distinct-first j todo (once-at r (confirmed j todo) e)).0
        | inr t ↦ rw t (elim (Bool-cases (member j (todo_of (s.reopeners q)))) [
          | inr h ↦ h
          | inl h ↦ ground (arith, v.apart r q j confirmed-Holds h)
        ])
      ]

      register_again-Inv : Inv (register_again r j todo s)
      unfolding register_again
      register_again-Inv =
          route-Inv (record s { reopeners = update s.reopeners r (between todo) })
            (change-Inv s v r (between todo)
              (λ k h. Holds-IsOwn s v r k (rw e (member-later j k todo h)))
              (distinct-first j todo (once-at r (confirmed j todo) e)).1)
            (s.ids j) j refl (v.held r j confirmed-Holds) registered-IsFree
            (Holds-IsOwn s v r j confirmed-Holds).2

  register_new-Inv : (j i : ℕ) → s.opened j ≡ false → Inv (register_new j i s)
  unfolding register_new
  register_new-Inv j i n =
      route-Inv (record s { ids = update s.ids j i; opened = update s.opened j true })
        (open-Inv s v j i n) i j (rw (==_refl j) refl) (rw (==_refl j) refl)
        (λ r. elim (Bool-cases (member j (todo_of (s.reopeners r)))) [
          | inr h ↦ h
          | inl h ↦ cc (v.held r j h, n)
        ])
        (λ k e. cc ((v.routed k j e).2, n))

Step-Inv : {s t : Sessions} → Inv s → Step s t → Inv t
unfolding read_id unregister end go_on
Step-Inv {s} v (opens j i n) = register_new-Inv s v j i n
Step-Inv {s} v (reads c j o n) = closer-Inv s v c (holding j (s.ids j)) (λ k i e. cc (e, o))
Step-Inv {s} v (unregisters c j i h) =
    closer-Inv (record s { table = remove i s.table }) (remove-Inv s v i) c (removed j i)
      (λ k l e. cc)
Step-Inv {s} v (ends c j i h) =
    closer-Inv (record s { ended = update s.ended j true })
      (record { routed = v.routed; apart = v.apart; once = v.once; held = v.held; known = v.known })
      c idle (λ k l e. cc)
Step-Inv {s} v (takes r todo a l) = take_table-Inv s v r todo l
Step-Inv {s} v (renames r j i todo e) = renamed-Inv s v r j todo e i
Step-Inv {s} v (gives_up r j todo e) = give_up-Inv s v r j todo e
Step-Inv {s} v (confirms r j todo e) = confirm-Inv s v r j todo e
Step-Inv {s} v (registers r j todo e) = register_again-Inv s v r j todo e
Step-Inv {s} v (finishes r e) = change-Inv s v r away (λ j h. cc) refl

pub Reach-Inv : {s : Sessions} → Reach s → Inv s
Reach-Inv here = Inv-start
Reach-Inv (next w p) = Step-Inv (Reach-Inv w) p
