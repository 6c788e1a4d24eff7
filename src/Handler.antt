-- ===== src/Handler.antt =====
-- handler.go: what a session asks of user code. The code behind the interface is a parameter: a
-- record of functions over a state of its own.
use go_agentx.Prelude.{ℕ, Bool, List, Option, none, some}
use go_agentx.Oid.{Oid}
use go_agentx.Pdu.Variable.{GoValue}

-- A Go error: a `pdu.Error`, another error, or one that wraps an error.
pub data GoError : Type 0 where
  pdu_error : ℕ → GoError
  plain : GoError
  wrapped : GoError → GoError

-- `errors.As(err, &e)` for a `pdu.Error`.
unfoldable pub errors_as : GoError → Option ℕ
errors_as (pdu_error e) = some e
errors_as plain = none
errors_as (wrapped err) = errors_as err

-- The values of the context: session, transaction and packet id.
pub record Context : Type 0 where
  pub session_id : ℕ
  pub transaction_id : ℕ
  pub packet_id : ℕ

-- The four results of Get and GetNext: an error, or a name (nil for none), a type and a value.
pub data Answer : Type 0 where
  failed : GoError → Answer
  found : Option Oid → ℕ → GoValue → Answer

pub record SetRequest : Type 0 where
  pub oid : Oid
  pub type : ℕ
  pub value : GoValue

pub record SetHandler (H : Type 0) : Type 0 where
  pub test_set : Context → SetRequest → H → Option GoError × H
  pub commit_set : Context → List SetRequest → H → Option GoError × H
  pub undo_set : Context → List SetRequest → H → Option GoError × H

-- `two_phase` is what the type assertion to `SetHandler` gives.
pub record Handler (H : Type 0) : Type 0 where
  pub get : Context → Oid → H → Answer × H
  pub get_next : Context → Oid → Bool → Oid → H → Answer × H
  pub set : Context → SetRequest → H → Option GoError × H
  pub two_phase : Option (SetHandler H)
