-- ===== src/Session/Lifecycle/Table/Invariant.antt =====
-- client.go: the table of sessions and what is to be reopened, in every run; and the changes that keep it.
use go_agentx.Prelude.{
  ℕ, ◌≡◌, ◌≢◌, refl, sym, ap, ◌∙◌, true, false, some, [], ◌==◌, ==_iff, Bool-cases, if-either, inl,
  inr, arith,
}
use go_agentx.Prelude.Dict.{find, insert, remove, update, find-remove}
use go_agentx.Session.Lifecycle.Table.{
  Reopener, Closer, holding, Sessions, none_opened, member, distinct, todo_of,
}
use go_agentx.Session.Lifecycle.Table.Members.{Holds, IsFree, Holds-update, find-either}

-- The table has each session under its id alone, and none that is to be reopened.
pub record Inv (s : Sessions) : Type 0 where
  pub routed :
      (i j : ℕ) → find i s.table ≡ some j → (s.ids j ≡ i) × IsFree s j × (s.opened j ≡ true)
  pub apart : (r q j : ℕ) → Holds (s.reopeners r) j → Holds (s.reopeners q) j → r ≡ q
  pub once : (r : ℕ) → distinct (todo_of (s.reopeners r)) ≡ true
  pub held : (r j : ℕ) → Holds (s.reopeners r) j → s.opened j ≡ true
  pub known : (c j i : ℕ) → s.closers c ≡ holding j i → s.opened j ≡ true

pub Inv-start : Inv none_opened
unfolding find
Inv-start = record {
  routed = λ i j e. cc;
  apart = λ r q j e f. cc;
  once = λ r. refl;
  held = λ r j e. cc;
  known = λ c j i e. cc;
}

-- What a run of reopenSessions may have to reopen: sessions that have no place in the table and that no
-- other run has.
abbrev pub IsOwn : Sessions → ℕ → ℕ → Type 0
IsOwn s r j =
    (s.opened j ≡ true)
    × ((q : ℕ) → Holds (s.reopeners q) j → q ≡ r)
    × ((i : ℕ) → find i s.table ≢ some j)

module _ (s : Sessions) (v : Inv s) where
  pub Holds-IsOwn : (r j : ℕ) → Holds (s.reopeners r) j → IsOwn s r j
  Holds-IsOwn r j h = (
    v.held r j h,
    (λ q e. v.apart q r j e h),
    (λ i e. let (g, f, o) = v.routed i j e in cc (f r, h)),
  )

  -- A run of reopenSessions goes on to sessions that are its own.
  pub change-Inv :
      (r : ℕ) (p : Reopener)
      → ((j : ℕ) → Holds p j → IsOwn s r j)
      → distinct (todo_of p) ≡ true
      → Inv (record s { reopeners = update s.reopeners r p })
  change-Inv r p own d = record {
    routed = λ i j e.
        let (g, f, o) = v.routed i j e in
        (
          g,
          (λ q. elim (Bool-cases (member j (todo_of (update s.reopeners r p q)))) [
            | inr h ↦ h
            | inl h ↦ elim (Holds-update s.reopeners r p q j h) [
              | inl (t, k) ↦ absurd ((own j k).2 i e)
              | inr k ↦ cc (f q, k)
            ]
          ]),
          o,
        );
    apart = λ q u j e f. elim (Holds-update s.reopeners r p q j e) [
      | inl (t, k) ↦ elim (Holds-update s.reopeners r p u j f) [
        | inl (w, l) ↦ cc
        | inr l ↦ cc ((own j k).1 u l)
      ]
      | inr k ↦ elim (Holds-update s.reopeners r p u j f) [
        | inl (w, l) ↦ cc ((own j l).1 q k)
        | inr l ↦ v.apart q u j k l
      ]
    ];
    once = λ q. elim (Bool-cases (r == q)) [ inl e ↦ rw e d | inr e ↦ rw e (v.once q) ];
    held = λ q j e. elim (Holds-update s.reopeners r p q j e) [
      | inl (t, k) ↦ (own j k).0
      | inr k ↦ v.held q j k
    ];
    known = v.known;
  }

  -- A session that is to be reopened gets an id.
  pub set_id-Inv : (r j i : ℕ) → Holds (s.reopeners r) j → Inv (record s { ids = update s.ids j i })
  set_id-Inv r j i h = record {
    routed = λ k l e.
        let (g, f, o) = v.routed k l e in
        (
          elim (Bool-cases (j == l)) [ inl t ↦ cc (f r, h, (==_iff j l).0 t) | inr t ↦ rw t g ],
          f,
          o,
        );
    apart = v.apart;
    once = v.once;
    held = v.held;
    known = v.known;
  }

  -- A session that is not to be reopened and has no place in the table gets one.
  pub route-Inv :
      (i j : ℕ)
      → s.ids j ≡ i
      → s.opened j ≡ true
      → IsFree s j
      → ((i : ℕ) → find i s.table ≢ some j)
      → Inv (record s { table = insert i j s.table })
  route-Inv i j named o f n = record {
    routed = λ k l e. elim (find-either i k j l s.table e) [
      | inl (t, u) ↦ (
        ap s.ids (sym u) ∙ named ∙ t,
        (λ r. ap (λ m. member m (todo_of (s.reopeners r))) (sym u) ∙ f r),
        ap s.opened (sym u) ∙ o,
      )
      | inr t ↦ v.routed k l t
    ];
    apart = v.apart;
    once = v.once;
    held = v.held;
    known = v.known;
  }

  -- A session that was not opened is neither to be reopened nor in the table.
  pub open-Inv :
      (j i : ℕ)
      → s.opened j ≡ false
      → Inv (record s { ids = update s.ids j i; opened = update s.opened j true })
  open-Inv j i n = record {
    routed = λ k l e.
        let (g, f, o) = v.routed k l e in
        elim (Bool-cases (j == l)) [
          | inl t ↦ cc (n, o, (==_iff j l).0 t)
          | inr t ↦ (rw t g, f, rw t o)
        ];
    apart = v.apart;
    once = v.once;
    held = λ r l e. elim (Bool-cases (j == l)) [ inl t ↦ rw t refl | inr t ↦ rw t (v.held r l e) ];
    known = λ c l k e. elim (Bool-cases (j == l)) [
      | inl t ↦ rw t refl
      | inr t ↦ rw t (v.known c l k e)
    ];
  }

  -- A call of Close goes on.
  pub closer-Inv :
      (c : ℕ) (x : Closer)
      → ((j i : ℕ) → x ≡ holding j i → s.opened j ≡ true)
      → Inv (record s { closers = update s.closers c x })
  closer-Inv c x known = record {
    routed = v.routed;
    apart = v.apart;
    once = v.once;
    held = v.held;
    known = λ d j i e. elim (if-either (λ y. y ≡ holding j i) (c == d) x (s.closers d) e) [
      | inl (t, f) ↦ known j i f
      | inr f ↦ v.known d j i f
    ];
  }

  pub remove-Inv : (i : ℕ) → Inv (record s { table = remove i s.table })
  remove-Inv i = record {
    routed = λ k l e. v.routed k l (ground (arith, find-remove i k s.table));
    apart = v.apart;
    once = v.once;
    held = v.held;
    known = v.known;
  }

  -- The table is taken over by a run of reopenSessions.
  pub empty-Inv : Inv (record s { table = [] })
  unfolding find
  empty-Inv = record {
    routed = λ k m e. cc;
    apart = v.apart;
    once = v.once;
    held = v.held;
    known = v.known;
  }
