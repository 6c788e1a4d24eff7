-- ===== src/Client/Errors.antt =====
-- client.go: `reportError`, `runErrorHandler` and `Close`, as a step relation. Any number of goroutines
-- report errors while another closes the client; `errorMu` is held by a report from its start to its
-- end, and by `Close` while it closes the channel.
pub mod Safety
pub mod Progress
use go_agentx.Prelude.{
  ℕ, ◌≡◌, Bool, true, false, List, [], ◌∷◌, ◌++◌, length, ltb, ◌==◌, if◌then◌else◌,
}
use go_agentx.Prelude.Dict.{update}

-- Where a call of `reportError` stands; `checking` holds the read lock.
pub data Report (E : Type 0) : Type 0 where
  away : Report E
  checking : E → Report E
  offering : E → Report E  -- in the select
  unlocking : Report E

-- Where the one call of `Close` that runs the body of `closeOnce` stands.
pub data Closer : Type 0 where
  unclosed : Closer
  entered : Closer  -- `done` is closed
  locked : Closer  -- with the write lock
  marked : Closer  -- `errorClosed` is set
  shut_down : Closer  -- `errorChan` is closed
  unlocked : Closer

abbrev pub is_reading : {E : Type 0} → Report E → Bool
is_reading away = false
is_reading _ = true

abbrev pub is_writing : Closer → Bool
is_writing locked = true
is_writing marked = true
is_writing shut_down = true
is_writing _ = false

abbrev pub error_capacity : ℕ
error_capacity = 10

-- `queue` is what the error channel holds. `accepted` and `handled` are the errors that went into it
-- and out of it, which the code does not keep.
pub record Errors (E : Type 0) : Type 0 where
  pub queue : List E
  pub error_closed : Bool
  pub channel_closed : Bool
  pub done : Bool
  pub reports : ℕ → Report E
  pub closer : Closer
  pub panicked : Bool
  pub accepted : List E
  pub handled : List E

module _ {E : Type 0} where
  abbrev pub unreported : Errors E
  unreported = record {
    queue = [];
    error_closed = false;
    channel_closed = false;
    done = false;
    reports = λ k. away;
    closer = unclosed;
    panicked = false;
    accepted = [];
    handled = [];
  }

  abbrev pub set_report : ℕ → Report E → Errors E → Errors E
  set_report k r s = record s { reports = update s.reports k r }

  -- The test of `errorClosed`.
  unfoldable pub check_closed : ℕ → E → Errors E → Errors E
  check_closed k e s = set_report k (if s.error_closed then unlocking else offering e) s

  -- The select with a default; a send on a closed channel panics.
  unfoldable pub offer : ℕ → E → Errors E → Errors E
  offer k e s =
      if s.channel_closed
      then record s { panicked = true }
      else if ltb (length s.queue) error_capacity
      then record s {
        queue = s.queue ++ (e ∷ []);
        accepted = s.accepted ++ (e ∷ []);
        reports = update s.reports k unlocking;
      }
      else set_report k unlocking s

  -- `close(c.errorChan)`, which panics on a closed channel.
  unfoldable pub close_channel : Errors E → Errors E
  close_channel s =
      if s.channel_closed
      then record s { panicked = true }
      else record s { channel_closed = true; closer = shut_down }

  pub data Step (s : Errors E) : Errors E → Type 0 where
    reads :
        (k : ℕ) (e : E)
        → s.reports k ≡ away
        → is_writing s.closer ≡ false
        → Step s (set_report k (checking e) s)
    checks : (k : ℕ) (e : E) → s.reports k ≡ checking e → Step s (check_closed k e s)
    offers : (k : ℕ) (e : E) → s.reports k ≡ offering e → Step s (offer k e s)
    unlocks : (k : ℕ) → s.reports k ≡ unlocking → Step s (set_report k away s)
    enters : s.closer ≡ unclosed → Step s (record s { done = true; closer = entered })
    locks :
        s.closer ≡ entered
        → ((k : ℕ) → is_reading (s.reports k) ≡ false)
        → Step s (record s { closer = locked })
    marks : s.closer ≡ locked → Step s (record s { error_closed = true; closer = marked })
    shuts : s.closer ≡ marked → Step s (close_channel s)
    releases : s.closer ≡ shut_down → Step s (record s { closer = unlocked })
    takes :
        (e : E) (rest : List E)
        → s.queue ≡ e ∷ rest
        → Step s (record s { queue = rest; handled = s.handled ++ (e ∷ []) })

  pub data Reach : Errors E → Type 0 where
    start : Reach unreported
    next : {s t : Errors E} → Reach s → Step s t → Reach t
