-- ===== src/Client/Connections/Closing.antt =====
-- client.go: `runReceiver` with `reconnect`, and `Close`, as a step relation on what they share: `done`
-- and the current connection. What is read and who takes it is left out.
pub mod Stops
use go_agentx.Prelude.{ℕ, ◌+◌, ◌≡◌, Bool, true, false, List, ◌==◌, ◌||◌, if◌then◌else◌}
use go_agentx.Prelude.Dict.{update}

-- Where the receiver stands: in the read of a connection, with a packet of it for the dispatcher, in the
-- select of `reconnect`, in net.Dial, or returned.
pub data Receiver : Type 0 where
  reading delivering : ℕ → Receiver
  waiting dialing returned : Receiver

-- Where the one call of `Close` that runs the body of `closeOnce` stands: before it, with `done`
-- closed, with what currentConn returned, or behind the Close of that connection.
pub data Closer : Type 0 where
  before marked : Closer
  holding : ℕ → Closer
  behind : Closer

-- Connections are named by numbers, in the order in which they are dialled, and `conn` is the current
-- one. `shut` is whether a connection was closed from this side, and `late` whether a Dial gave a
-- connection after `done` was closed, which the code does not keep.
pub record Closing : Type 0 where
  pub receiver : Receiver
  pub closer : Closer
  pub conn : ℕ
  pub done : Bool
  pub shut : ℕ → Bool
  pub late : Bool

abbrev pub all_open : Closing
all_open = record {
  receiver = reading 0;
  closer = before;
  conn = 0;
  done = false;
  shut = λ c. false;
  late = false;
}

-- A Dial returned a connection: `setConn`, and the read of it.
unfoldable pub dialled : Closing → Closing
dialled s = record s { receiver = reading (s.conn + 1); conn = s.conn + 1; late = s.late || s.done }

unfoldable pub mark : Closing → Closing
mark s = record s { closer = marked; done = true }

unfoldable pub current_conn : Closing → Closing
current_conn s = record s { closer = holding s.conn }

unfoldable pub close_conn : ℕ → Closing → Closing
close_conn c s = record s { closer = behind; shut = update s.shut c true }

-- A read ends with the end of the connection or another error of it, or with net.ErrClosed if it was
-- closed from this side; the first leads to `reconnect` if `done` is not closed.
pub data Step (s : Closing) : Closing → Type 0 where
  reads : (c : ℕ) → s.receiver ≡ reading c → Step s (record s { receiver = delivering c })
  delivers : (c : ℕ) → s.receiver ≡ delivering c → Step s (record s { receiver = reading c })
  abandons :
      (c : ℕ)
      → s.receiver ≡ delivering c
      → s.done ≡ true
      → Step s (record s { receiver = returned })
  loses :
      (c : ℕ)
      → s.receiver ≡ reading c
      → s.done ≡ false
      → s.shut c ≡ false
      → Step s (record s { receiver = waiting })
  breaks :
      (c : ℕ)
      → s.receiver ≡ reading c
      → s.shut c ≡ false
      → Step s (record s { receiver = returned })
  finds_shut :
      (c : ℕ) → s.receiver ≡ reading c → s.shut c ≡ true → Step s (record s { receiver = returned })
  wakes : s.receiver ≡ waiting → Step s (record s { receiver = dialing })
  gives_up : s.receiver ≡ waiting → s.done ≡ true → Step s (record s { receiver = returned })
  dial_fails : s.receiver ≡ dialing → Step s (record s { receiver = waiting })
  dials : s.receiver ≡ dialing → Step s (dialled s)
  marks : s.closer ≡ before → Step s (mark s)
  picks : s.closer ≡ marked → Step s (current_conn s)
  shuts : (c : ℕ) → s.closer ≡ holding c → Step s (close_conn c s)

-- From one state to another, and from the first one.
pub data Steps (s : Closing) : Closing → Type 0 where
  here : Steps s s
  next : {t u : Closing} → Steps s t → Step t u → Steps s u

abbrev pub Reach : Closing → Type 0
Reach s = Steps all_open s
