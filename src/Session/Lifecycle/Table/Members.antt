-- ===== src/Session/Lifecycle/Table/Members.antt =====
-- client.go: what a range over the table of sessions gives, and what a run of reopenSessions has to reopen.
use go_agentx.Prelude.{
  ℕ, ◌≡◌, refl, ap, ◌∙◌, true, false, some, List, ◌∷◌, ◌==◌, ==_iff, ==_refl, Bool-cases, if-either,
  ◌⊎◌, inl, inr, arith,
}
use go_agentx.Prelude.Dict.{find, insert, update, find-insert}
use go_agentx.Session.Lifecycle.Table.{
  Reopener, Sessions, member, distinct, todo_of, AreAt, at_none, at_key,
}

-- A run of reopenSessions has the session to reopen.
abbrev pub Holds : Reopener → ℕ → Type 0
Holds p j = member j (todo_of p) ≡ true

-- No run of reopenSessions has the session to reopen.
abbrev pub IsFree : Sessions → ℕ → Type 0
IsFree s j = (r : ℕ) → member j (todo_of (s.reopeners r)) ≡ false

pub Holds-update :
    (f : ℕ → Reopener) (r : ℕ) (p : Reopener) (q j : ℕ)
    → Holds (update f r p q) j
    → ((r ≡ q) × Holds p j) ⊎ Holds (f q) j
Holds-update f r p q j h = elim (if-either (λ x. Holds x j) (r == q) p (f q) h) [
  | inl (e, k) ↦ inl ((==_iff r q).0 e, k)
  | inr k ↦ inr k
]

pub find-either :
    (k i v w : ℕ) (m : List (ℕ × ℕ))
    → find i (insert k v m) ≡ some w
    → ((k ≡ i) × (v ≡ w)) ⊎ (find i m ≡ some w)
find-either k i v w m e = ground (arith, find-insert k i v m)

pub member-later : (j k : ℕ) (ks : List ℕ) → member k ks ≡ true → member k (j ∷ ks) ≡ true
member-later j k ks h = ground arith

pub distinct-first :
    (j : ℕ) (ks : List ℕ) → distinct (j ∷ ks) ≡ true → (member j ks ≡ false) × (distinct ks ≡ true)
distinct-first j ks d = ground arith

module _ (table : List (ℕ × ℕ)) where
  pub AreAt-key :
      (j : ℕ) {keys todo : List ℕ}
      → AreAt table keys todo
      → member j todo ≡ true
      → (i : ℕ) × (member i keys ≡ true) × (find i table ≡ some j)
  AreAt-key j at_none m = cc
  AreAt-key j (at_key i k keys todo e a) m = elim (Bool-cases (k == j)) [
    | inl t ↦ (i, rw (==_refl i) refl, e ∙ ap some ((==_iff k j).0 t))
    | inr t ↦ (let (l, n, f) = AreAt-key j a (ground arith) in (l, member-later i l keys n, f))
  ]

  pub AreAt-distinct :
      {keys todo : List ℕ}
      → ((i k j : ℕ) → find i table ≡ some j → find k table ≡ some j → i ≡ k)
      → AreAt table keys todo
      → distinct keys ≡ true
      → distinct todo ≡ true
  AreAt-distinct one at_none d = refl
  AreAt-distinct one (at_key i j keys todo e a) d = elim (Bool-cases (member j todo)) [
    | inl m ↦
        (let (l, n, f) = AreAt-key j a m in cc ((distinct-first i keys d).0, one i l j e f, n))
    | inr m ↦ rw m (AreAt-distinct one a (distinct-first i keys d).1)
  ]
