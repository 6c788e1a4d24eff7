-- ===== src/Session/Lifecycle/Table.antt =====
-- client.go: the table of sessions, as a step relation over what changes it: `registerSession` in
-- `Session`, `unregisterSession` in the Close of a session, and `reopenSessions`, which runs on a
-- goroutine of its own for each connection that is made again.
pub mod Closing
pub mod Invariant
pub mod Kept
pub mod Members
use go_agentx.Prelude.{
  ℕ, ◌≡◌, Bool, true, false, not, ◌&&◌, Option, none, some, List, [], ◌∷◌, ◌==◌, if◌then◌else◌,
}
use go_agentx.Prelude.Dict.{find, insert, remove, update}

-- Where a run of `reopenSessions` stands, with the sessions that are left: between two rounds of its
-- loop, or with a session that was confirmed and is not yet registered.
pub data Reopener : Type 0 where
  away : Reopener
  between : List ℕ → Reopener
  confirmed : ℕ → List ℕ → Reopener

-- Where a call of the Close of a session stands, behind its request: with the id that it read, or
-- with the session out of the table and not yet ended.
pub data Closer : Type 0 where
  idle : Closer
  holding removed : ℕ → ℕ → Closer

-- Sessions, the runs of `reopenSessions` and the calls of Close are named by numbers. `opened` is
-- whether a session was opened, and `ended` whether its `done` is closed.
pub record Sessions : Type 0 where
  pub table : List (ℕ × ℕ)
  pub ids : ℕ → ℕ
  pub opened : ℕ → Bool
  pub ended : ℕ → Bool
  pub closers : ℕ → Closer
  pub reopeners : ℕ → Reopener

abbrev pub none_opened : Sessions
none_opened = record {
  table = [];
  ids = λ j. 0;
  opened = λ j. false;
  ended = λ j. false;
  closers = λ c. idle;
  reopeners = λ r. away;
}

abbrev pub member : ℕ → List ℕ → Bool
member j [] = false
member j (k ∷ ks) = if k == j then true else member j ks

abbrev pub distinct : List ℕ → Bool
distinct [] = true
distinct (k ∷ ks) = if member k ks then false else distinct ks

abbrev pub todo_of : Reopener → List ℕ
todo_of away = []
todo_of (between todo) = todo
todo_of (confirmed j todo) = j ∷ todo

-- The sessions that stand in the table at some keys.
pub data AreAt (table : List (ℕ × ℕ)) : List ℕ → List ℕ → Type 0 where
  at_none : AreAt table [] []
  at_key :
      (i j : ℕ) (keys todo : List ℕ)
      → find i table ≡ some j
      → AreAt table keys todo
      → AreAt table (i ∷ keys) (j ∷ todo)

-- A range over the map: it comes to each key once, in any order.
pub record Lists (table : List (ℕ × ℕ)) (todo : List ℕ) : Type 0 where
  pub keys : List ℕ
  pub once : distinct keys ≡ true
  pub every : (i j : ℕ) → find i table ≡ some j → member i keys ≡ true
  pub values : AreAt table keys todo

-- `Session`: a session that openSession returned gets into the table under its id.
unfoldable pub register_new : ℕ → ℕ → Sessions → Sessions
register_new j i s = record s {
  table = insert i j s.table;
  ids = update s.ids j i;
  opened = update s.opened j true;
}

-- Close behind its request: the argument `s.ID()`, `unregisterSession`, and the end of the session.
unfoldable pub read_id : ℕ → ℕ → Sessions → Sessions
read_id c j s = record s { closers = update s.closers c (holding j (s.ids j)) }

unfoldable pub unregister : ℕ → ℕ → ℕ → Sessions → Sessions
unregister c j i s = record s {
  table = remove i s.table;
  closers = update s.closers c (removed j i);
}

unfoldable pub end : ℕ → ℕ → Sessions → Sessions
end c j s = record s { ended = update s.ended j true; closers = update s.closers c idle }

-- The first section of `reopenSessions`.
unfoldable pub take_table : ℕ → List ℕ → Sessions → Sessions
take_table r todo s = record s { table = []; reopeners = update s.reopeners r (between todo) }

-- `setID`, which `reopen` calls before its Open and after the answer to it.
unfoldable pub set_id : ℕ → ℕ → Sessions → Sessions
set_id j i s = record s { ids = update s.ids j i }

-- `reopen` returned, with an error or without, or the loop is at its end.
unfoldable pub go_on : ℕ → Reopener → Sessions → Sessions
go_on r p s = record s { reopeners = update s.reopeners r p }

-- `registerSession` in the loop.
unfoldable pub register_again : ℕ → ℕ → List ℕ → Sessions → Sessions
register_again r j todo s = record s {
  table = insert (s.ids j) j s.table;
  reopeners = update s.reopeners r (between todo);
}

pub data Step (s : Sessions) : Sessions → Type 0 where
  opens : (j i : ℕ) → s.opened j ≡ false → Step s (register_new j i s)
  reads : (c j : ℕ) → s.opened j ≡ true → s.closers c ≡ idle → Step s (read_id c j s)
  unregisters : (c j i : ℕ) → s.closers c ≡ holding j i → Step s (unregister c j i s)
  ends : (c j i : ℕ) → s.closers c ≡ removed j i → Step s (end c j s)
  takes :
      (r : ℕ) (todo : List ℕ)
      → s.reopeners r ≡ away
      → Lists s.table todo
      → Step s (take_table r todo s)
  renames : (r j i : ℕ) (todo : List ℕ) → s.reopeners r ≡ between (j ∷ todo) → Step s (set_id j i s)
  gives_up :
      (r j : ℕ) (todo : List ℕ)
      → s.reopeners r ≡ between (j ∷ todo)
      → Step s (go_on r (between todo) s)
  confirms :
      (r j : ℕ) (todo : List ℕ)
      → s.reopeners r ≡ between (j ∷ todo)
      → Step s (go_on r (confirmed j todo) s)
  registers :
      (r j : ℕ) (todo : List ℕ)
      → s.reopeners r ≡ confirmed j todo
      → Step s (register_again r j todo s)
  finishes : (r : ℕ) → s.reopeners r ≡ between [] → Step s (go_on r away s)

-- From one state to another, and from the first one.
pub data Steps (s : Sessions) : Sessions → Type 0 where
  here : Steps s s
  next : {t u : Sessions} → Steps s t → Step t u → Steps s u

abbrev pub Reach : Sessions → Type 0
Reach s = Steps none_opened s
