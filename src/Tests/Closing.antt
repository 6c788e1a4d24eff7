-- ===== src/Tests/Closing.antt =====
-- Close of a client whose receiver reads, and of one whose receiver dials.
use go_agentx.Prelude.{◌≡◌, refl, false}
use go_agentx.Client.Connections.Closing.{
  Closing, waiting, dialing, reading, returned, behind, all_open, mark, current_conn, close_conn,
  loses, wakes, marks, picks, shuts, Steps, here, next, Reach,
}
use go_agentx.Client.Connections.Closing.Stops.{OwnSteps, closed_receiver-Returns, dial_leaks}

abbrev closed : Closing
closed = close_conn 0 (current_conn (mark all_open))

closed-Reach : Reach closed
unfolding mark current_conn
closed-Reach = next (next (next here (marks refl)) (picks refl)) (shuts 0 refl)

closed_receiver-Returns_example : (t : Closing) × OwnSteps closed t × (t.receiver ≡ returned)
unfolding mark current_conn close_conn
closed_receiver-Returns_example = closed_receiver-Returns closed-Reach refl refl

abbrev lost : Closing
lost = record all_open { receiver = waiting }

abbrev dialing_again : Closing
dialing_again = record lost { receiver = dialing }

dialing_again-Reach : Reach dialing_again
dialing_again-Reach = next (next here (loses 0 refl refl refl)) (wakes refl)

dial_leaks_example :
    (t : Closing) × Steps dialing_again t
    × (t.closer ≡ behind)
    × (t.receiver ≡ reading t.conn)
    × (t.shut t.conn ≡ false)
dial_leaks_example = dial_leaks dialing_again-Reach refl refl
