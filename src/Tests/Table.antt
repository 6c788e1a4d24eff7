-- ===== src/Tests/Table.antt =====
-- The table of sessions in short runs.
use go_agentx.Prelude.{◌≡◌, ◌≢◌, refl, true, some, [], ◌∷◌, arith}
use go_agentx.Prelude.Dict.{find, insert, remove}
use go_agentx.Session.Lifecycle.Table.{
  Sessions, confirmed, none_opened, register_new, read_id, unregister, take_table, set_id, go_on,
  at_none, at_key, Lists, opens, reads, takes, renames, confirms, Steps, here, next, Reach,
}
use go_agentx.Session.Lifecycle.Table.Members.{IsFree}
use go_agentx.Session.Lifecycle.Table.Closing.{closed_unrouted, closed_while_reopened}

-- Session 7 is opened under the id 3, and a call of its Close has read the id.
abbrev one_session : Sessions
one_session = register_new 7 3 none_opened

abbrev at_close : Sessions
at_close = read_id 0 7 one_session

one_session-Reach : Reach one_session
one_session-Reach = next here (opens 7 3 refl)

at_close-Reach : Reach at_close
unfolding register_new
at_close-Reach = next one_session-Reach (reads 0 7 refl refl)

at_close-IsFree : IsFree at_close 7
unfolding register_new read_id
at_close-IsFree r = refl

abbrev closed : Sessions
closed = unregister 0 7 (at_close.ids 7) at_close

closed-Lists : Lists closed.table []
unfolding register_new read_id unregister insert remove find
closed-Lists = record { keys = []; once = refl; every = λ i j e. cc; values = at_none }

-- The connection is lost after the Close.
closed-Steps : Steps closed (take_table 0 [] closed)
unfolding register_new read_id unregister
closed-Steps = next here (takes 0 [] refl closed-Lists)

closed_unrouted_example : find 3 (take_table 0 [] closed).table ≢ some 7
unfolding register_new read_id
closed_unrouted_example = closed_unrouted 0 7 at_close-Reach refl at_close-IsFree closed-Steps 3

-- The connection is lost, and the session is confirmed on the next one with the id 4.
one_session-Lists : Lists one_session.table (7 ∷ [])
unfolding register_new insert find
one_session-Lists = record {
  keys = 3 ∷ [];
  once = refl;
  every = λ i j e. ground arith;
  values = at_key 3 7 [] [] refl at_none;
}

abbrev taken : Sessions
taken = take_table 0 (7 ∷ []) one_session

abbrev renamed : Sessions
renamed = set_id 7 4 taken

abbrev reopened : Sessions
reopened = go_on 0 (confirmed 7 []) renamed

reopened-Reach : Reach reopened
unfolding register_new take_table set_id
reopened-Reach =
    next
      (next (next one_session-Reach (takes 0 (7 ∷ []) refl one_session-Lists))
        (renames 0 7 4 [] refl))
      (confirms 0 7 [] refl)

closed_while_reopened_example :
    (t : Sessions) × Steps reopened t × (t.ended 7 ≡ true) × (find (t.ids 7) t.table ≡ some 7)
unfolding register_new take_table set_id go_on
closed_while_reopened_example = closed_while_reopened 1 0 7 [] reopened-Reach refl refl
