-- ===== src/Tests/Connections.antt =====
-- The receiver over two connections and reports of errors at concrete inputs.
use go_agentx.Prelude.{
  ℕ, ◌≡◌, ◌≤◌, refl, false, none, some, List, [], ◌∷◌, ◌++◌, map, length, arith,
}
use go_agentx.Pdu.Header.{Header}
use go_agentx.Client.Reader.Framing.{IsFrame}
use go_agentx.Client.Connections.{Doing, ended, run_receiver}
use go_agentx.Client.Connections.Resumed.{
  Connection, stream_of, dial_of, IsBroken, Delivers, Resumes, in_header, run_receiver-Resumes,
}
use go_agentx.Client.Errors.{
  Errors, away, checking, unreported, set_report, check_closed, offer, error_capacity, Reach, start,
  next, reads, checks, offers,
}
use go_agentx.Client.Errors.Safety.{errors_kept}
use go_agentx.Client.Errors.Progress.{advance, report_returns}

-- A CommitSet.
abbrev header : Header
header = record {
  version = 1;
  type = 9;
  flags = 0;
  session_id = 5;
  transaction_id = 6;
  packet_id = 7;
  payload_length = 0;
}

header-IsFrame : IsFrame header []
header-IsFrame = record {
  wire = record {
    version = omega arith;
    type = omega arith;
    flags = omega arith;
    session_id = omega arith;
    transaction_id = omega arith;
    packet_id = omega arith;
    payload_length = omega arith;
  };
  alignment = refl;
  size = omega arith;
  payload_length = refl;
}

-- A frame, and the first bytes of another.
abbrev connection : Connection
connection = ((header, []) ∷ [], 1 ∷ 9 ∷ [], ended)

connection-IsBroken : IsBroken connection
connection-IsBroken = ((header-IsFrame, tt), in_header (1 ∷ 9 ∷ []) (omega arith))

run_receiver-Resumes_example :
    (later : List Doing) × Delivers connection.0
      (run_receiver (stream_of connection) (map dial_of (none ∷ some connection ∷ [])))
      later
    × Resumes (none ∷ some connection ∷ []) later
run_receiver-Resumes_example =
    run_receiver-Resumes connection (none ∷ some connection ∷ []) connection-IsBroken
      (connection-IsBroken, tt)

-- An error, here a number, that is reported.
abbrev reporting : Errors ℕ
reporting = set_report 0 (checking 7) unreported

abbrev offered : Errors ℕ
offered = offer 0 7 (check_closed 0 7 reporting)

reporting-Reach : Reach reporting
reporting-Reach = next start (reads 0 7 refl refl)

offered-Reach : Reach offered
unfolding check_closed
offered-Reach = next (next reporting-Reach (checks 0 7 refl)) (offers 0 7 refl)

errors_kept_example :
    (offered.panicked ≡ false)
    × (offered.handled ++ offered.queue ≡ offered.accepted)
    × (length offered.queue ≤ error_capacity)
errors_kept_example = errors_kept offered-Reach

report_returns_example :
    Reach (advance 0 (advance 0 (advance 0 reporting)))
    × ((advance 0 (advance 0 (advance 0 reporting))).reports 0 ≡ away)
report_returns_example = report_returns 0 reporting-Reach
