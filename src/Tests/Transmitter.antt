-- ===== src/Tests/Transmitter.antt =====
-- One frame from sendBytes to the other end of the connection.
use go_agentx.Prelude.{ℕ, refl, List, [], ◌∷◌, arith}
use go_agentx.Client.Reader.{receive}
use go_agentx.Client.Reader.Loop.{Receives}
use go_agentx.Client.Transmitter.{
  Transmitter, offering, nothing_sent, take_frame, current_conn, wrote, offers, takes, picks,
  writes, here, next, Reach,
}
use go_agentx.Prelude.Dict.{update}
use go_agentx.Client.Transmitter.Frames.{Sent, one_frame, Reach-Sent, written-Receives}
use go_agentx.Tests.Agent.{bad_header, bad_payload, bad_header-IsFrame}

abbrev sent_frame : List ℕ
sent_frame = one_frame (bad_header, bad_payload)

abbrev offered : Transmitter
offered = record nothing_sent { calls = update nothing_sent.calls 4 (offering sent_frame) }

abbrev written : Transmitter
written = wrote 0 sent_frame (current_conn sent_frame (take_frame 4 sent_frame offered))

offered-Reach : Reach offered
offered-Reach = next here (offers 4 sent_frame refl)

written-Reach : Reach written
unfolding take_frame current_conn
written-Reach =
    next (next (next offered-Reach (takes 4 sent_frame refl refl)) (picks sent_frame refl))
      (writes 0 sent_frame refl)

Reach-Sent_example : Sent written
Reach-Sent_example = Reach-Sent written-Reach

written-Receives_example : Receives ((bad_header, bad_payload) ∷ []) (receive 2 (written.streams 0))
unfolding wrote current_conn take_frame
written-Receives_example =
    written-Receives 0 ((bad_header, bad_payload) ∷ []) 2 written-Reach refl refl
      (bad_header-IsFrame, tt) (omega arith)
