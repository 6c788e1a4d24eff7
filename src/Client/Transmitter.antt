-- ===== src/Client/Transmitter.antt =====
-- client.go: `sendBytes` and `runTransmitter`, with the connection that `reconnect` replaces by setConn,
-- as a step relation.
pub mod Frames
pub mod Progress
use go_agentx.Prelude.{
  ℕ, ◌+◌, ◌≡◌, Bool, true, false, Option, none, some, List, [], ◌∷◌, ◌++◌, ◌==◌, if◌then◌else◌,
  take,
}
use go_agentx.Prelude.Dict.{update}

-- Where a call of `sendBytes` stands: in the select, or returned with true or with false.
pub data Sending : Type 0 where
  away : Sending
  offering : List ℕ → Sending
  accepted refused : Sending

-- Where the transmitter stands: in the select, with a frame, or in the Write of a frame on the
-- connection that `currentConn` gave.
pub data Phase : Type 0 where
  ready : Phase
  holding : List ℕ → Phase
  writing : ℕ → List ℕ → Phase
  stopped : Phase

-- A Write that returned, on a connection: of the whole frame, or with an error after a number of bytes.
pub record Write : Type 0 where
  pub conn : ℕ
  pub frame : List ℕ
  pub error : Option ℕ

-- Connections are named by numbers, in the order in which they are dialled, and `conn` is the current
-- one. `streams` has the bytes that each was given, and `reports` counts the calls of reportError.
-- `taken` and `writes` are the frames that were received from `tx` and the calls of Write, which the
-- code does not keep.
pub record Transmitter : Type 0 where
  pub calls : ℕ → Sending
  pub phase : Phase
  pub conn : ℕ
  pub streams : ℕ → List ℕ
  pub reports : ℕ
  pub done : Bool
  pub taken : List (List ℕ)
  pub writes : List Write

abbrev pub nothing_sent : Transmitter
nothing_sent = record {
  calls = λ k. away;
  phase = ready;
  conn = 0;
  streams = λ c. [];
  reports = 0;
  done = false;
  taken = [];
  writes = [];
}

-- The transmitter receives the frame of a call from `tx`.
unfoldable pub take_frame : ℕ → List ℕ → Transmitter → Transmitter
take_frame k frame s = record s {
  calls = update s.calls k accepted;
  phase = holding frame;
  taken = s.taken ++ (frame ∷ []);
}

unfoldable pub current_conn : List ℕ → Transmitter → Transmitter
current_conn frame s = record s { phase = writing s.conn frame }

-- Write returns no error, so that it wrote all.
unfoldable pub wrote : ℕ → List ℕ → Transmitter → Transmitter
wrote c frame s = record s {
  phase = ready;
  streams = update s.streams c (s.streams c ++ frame);
  writes = s.writes ++ (record { conn = c; frame = frame; error = none } ∷ []);
}

-- Write returns an error after `n` bytes, which is reported.
unfoldable pub failed : ℕ → List ℕ → ℕ → Transmitter → Transmitter
failed c frame n s = record s {
  phase = ready;
  streams = update s.streams c (s.streams c ++ take n frame);
  reports = s.reports + 1;
  writes = s.writes ++ (record { conn = c; frame = frame; error = some n } ∷ []);
}

pub data Step (s : Transmitter) : Transmitter → Type 0 where
  offers :
      (k : ℕ) (frame : List ℕ)
      → s.calls k ≡ away
      → Step s (record s { calls = update s.calls k (offering frame) })
  takes :
      (k : ℕ) (frame : List ℕ)
      → s.calls k ≡ offering frame
      → s.phase ≡ ready
      → Step s (take_frame k frame s)
  refuses :
      (k : ℕ) (frame : List ℕ)
      → s.calls k ≡ offering frame
      → s.done ≡ true
      → Step s (record s { calls = update s.calls k refused })
  picks : (frame : List ℕ) → s.phase ≡ holding frame → Step s (current_conn frame s)
  writes : (c : ℕ) (frame : List ℕ) → s.phase ≡ writing c frame → Step s (wrote c frame s)
  fails : (c : ℕ) (frame : List ℕ) (n : ℕ) → s.phase ≡ writing c frame → Step s (failed c frame n s)
  replaces : Step s (record s { conn = s.conn + 1 })
  closes : Step s (record s { done = true })
  stops : s.phase ≡ ready → s.done ≡ true → Step s (record s { phase = stopped })

-- From one state to another, and from the first one.
pub data Steps (s : Transmitter) : Transmitter → Type 0 where
  here : Steps s s
  next : {t u : Transmitter} → Steps s t → Step t u → Steps s u

abbrev pub Reach : Transmitter → Type 0
Reach s = Steps nothing_sent s
