-- ===== src/Pdu/Minor.antt =====
-- pdu/commit_set.go, undo_set.go and cleanup_set.go, whose packets have no payload,
-- allocate_index.go and deallocate_index.go, which are only encoded, and unsupported.go.
use go_agentx.Prelude.{
  ℕ, List, [], ◌∷◌, Result, ok, err, nonempty_commit_set, nonempty_undo_set, nonempty_cleanup_set,
  no_allocate_index, no_deallocate_index,
}
use go_agentx.Pdu.Variable.{Variable}
use go_agentx.Pdu.Variables

unfoldable pub marshal_commit_set : Result (List ℕ)
marshal_commit_set = ok []

unfoldable pub unmarshal_commit_set : List ℕ → Result (Unit {0})
unmarshal_commit_set [] = ok tt
unmarshal_commit_set (b ∷ bs) = err nonempty_commit_set

unfoldable pub marshal_undo_set : Result (List ℕ)
marshal_undo_set = ok []

unfoldable pub unmarshal_undo_set : List ℕ → Result (Unit {0})
unmarshal_undo_set [] = ok tt
unmarshal_undo_set (b ∷ bs) = err nonempty_undo_set

unfoldable pub marshal_cleanup_set : Result (List ℕ)
marshal_cleanup_set = ok []

unfoldable pub unmarshal_cleanup_set : List ℕ → Result (Unit {0})
unmarshal_cleanup_set [] = ok tt
unmarshal_cleanup_set (b ∷ bs) = err nonempty_cleanup_set

unfoldable pub marshal_allocate_index : List Variable → Result (List ℕ)
marshal_allocate_index vs = Variables.marshal_binary vs

unfoldable pub unmarshal_allocate_index : List ℕ → Result (List Variable)
unmarshal_allocate_index bytes = err no_allocate_index

unfoldable pub marshal_deallocate_index : List Variable → Result (List ℕ)
marshal_deallocate_index vs = Variables.marshal_binary vs

unfoldable pub unmarshal_deallocate_index : List ℕ → Result (List Variable)
unmarshal_deallocate_index bytes = err no_deallocate_index

-- The type that was received is kept.
unfoldable pub marshal_unsupported : ℕ → Result (List ℕ)
marshal_unsupported t = ok []

unfoldable pub unmarshal_unsupported : ℕ → List ℕ → Result ℕ
unmarshal_unsupported t bytes = ok t
