-- ===== src/Pdu/Packet.antt =====
-- pdu/packet.go and pdu/type.go: the packets behind one type, their numbers, encoders and decoders.
-- packetForType and unmarshalPacket of client.go choose among them.
use go_agentx.Prelude.{
  ℕ, ◌^◌, ◌<◌, ◌≡◌, refl, List, [], ◌∷◌, ◌==◌, if◌then◌else◌, length, Result, ok, ◌>>=◌, ◌>>◌,
  Ensures, >>=-Ensures, Bool-cases, inl, inr, ◌∙◌, sym, ==_iff,
}
use go_agentx.Prelude.Int.{pos}
use go_agentx.Prelude.Words.{ByteOrder}
use go_agentx.Pdu.Range.{Range}
use go_agentx.Pdu.Ranges.{unmarshal_ranges-Ensures}
use go_agentx.Pdu.Variable.{Variable}
use go_agentx.Pdu.Variables.{unmarshal_variables-Ensures}
use go_agentx.Pdu.Get
use go_agentx.Pdu.GetNext
use go_agentx.Pdu.TestSet
use go_agentx.Pdu.Response
use go_agentx.Pdu.Response.{Response, unmarshal_response-Ensures}
use go_agentx.Pdu.Notify
use go_agentx.Pdu.Notify.{Notify, unmarshal_notify-Ensures}
use go_agentx.Pdu.Administrative.{
  Open, Registration, marshal_open, unmarshal_open, marshal_close, unmarshal_close,
  marshal_register, unmarshal_register, marshal_unregister, unmarshal_unregister,
}
use go_agentx.Pdu.Minor.{
  marshal_commit_set, unmarshal_commit_set, marshal_undo_set, unmarshal_undo_set,
  marshal_cleanup_set, unmarshal_cleanup_set, marshal_allocate_index, unmarshal_allocate_index,
  marshal_deallocate_index, unmarshal_deallocate_index, marshal_unsupported, unmarshal_unsupported,
}

abbrev pub type_open : ℕ
type_open = 1

abbrev pub type_close : ℕ
type_close = 2

abbrev pub type_register : ℕ
type_register = 3

abbrev pub type_unregister : ℕ
type_unregister = 4

abbrev pub type_get : ℕ
type_get = 5

abbrev pub type_get_next : ℕ
type_get_next = 6

abbrev pub type_test_set : ℕ
type_test_set = 8

abbrev pub type_commit_set : ℕ
type_commit_set = 9

abbrev pub type_undo_set : ℕ
type_undo_set = 10

abbrev pub type_cleanup_set : ℕ
type_cleanup_set = 11

abbrev pub type_notify : ℕ
type_notify = 12

abbrev pub type_index_allocate : ℕ
type_index_allocate = 14

abbrev pub type_index_deallocate : ℕ
type_index_deallocate = 15

abbrev pub type_response : ℕ
type_response = 18

-- One constructor for each type that implements `Packet`. The deprecated Variables fields of
-- CommitSet, UndoSet and CleanupSet, neither encoded nor decoded, are left out.
pub data Packet : Type 0 where
  open_packet : Open → Packet
  close : ℕ → Packet
  register unregister : Registration → Packet
  get get_next : List Range → Packet
  test_set allocate_index deallocate_index : List Variable → Packet
  commit_set undo_set cleanup_set : Packet
  notify : Notify → Packet
  response : Response → Packet
  unsupported : ℕ → Packet

-- `Type`
unfoldable pub type_of : Packet → ℕ
type_of (open_packet o) = type_open
type_of (close r) = type_close
type_of (register r) = type_register
type_of (unregister u) = type_unregister
type_of (get rs) = type_get
type_of (get_next rs) = type_get_next
type_of (test_set vs) = type_test_set
type_of (allocate_index vs) = type_index_allocate
type_of (deallocate_index vs) = type_index_deallocate
type_of commit_set = type_commit_set
type_of undo_set = type_undo_set
type_of cleanup_set = type_cleanup_set
type_of (notify n) = type_notify
type_of (response r) = type_response
type_of (unsupported t) = t

-- `MarshalBinary`
unfoldable pub marshal_binary : Packet → Result (List ℕ)
marshal_binary (open_packet o) = marshal_open o
marshal_binary (close r) = ok (marshal_close r)
marshal_binary (register r) = marshal_register r
marshal_binary (unregister u) = marshal_unregister u
marshal_binary (get rs) = Get.marshal_binary rs
marshal_binary (get_next rs) = GetNext.marshal_binary rs
marshal_binary (test_set vs) = TestSet.marshal_binary vs
marshal_binary (allocate_index vs) = marshal_allocate_index vs
marshal_binary (deallocate_index vs) = marshal_deallocate_index vs
marshal_binary commit_set = marshal_commit_set
marshal_binary undo_set = marshal_undo_set
marshal_binary cleanup_set = marshal_cleanup_set
marshal_binary (notify n) = Notify.marshal_binary n
marshal_binary (response r) = Response.marshal_binary r
marshal_binary (unsupported t) = marshal_unsupported t

-- `packetForType`: the zero value of the packet that a received type is decoded into.
unfoldable pub packet_for_type : ℕ → Packet
packet_for_type t =
    if t == type_response
    then response Response.empty
    else if t == type_get
    then get []
    else if t == type_get_next
    then get_next []
    else if t == type_test_set
    then test_set []
    else if t == type_commit_set
    then commit_set
    else if t == type_undo_set
    then undo_set
    else if t == type_cleanup_set
    then cleanup_set
    else if t == type_notify
    then notify (record { timestamp = pos 0; variables = [] })
    else unsupported t

-- `unmarshalPacket`: `UnmarshalBinaryOrder` where the packet has it, and else `UnmarshalBinary`.
unfoldable pub unmarshal_packet : Packet → List ℕ → ByteOrder → Result Packet
unmarshal_packet (open_packet _) bytes order = do o ← unmarshal_open bytes; ok (open_packet o)
unmarshal_packet (close _) bytes order = do r ← unmarshal_close bytes; ok (close r)
unmarshal_packet (register _) bytes order = do r ← unmarshal_register bytes; ok (register r)
unmarshal_packet (unregister _) bytes order = do u ← unmarshal_unregister bytes; ok (unregister u)
unmarshal_packet (get _) bytes order = do rs ← Get.unmarshal_binary_order bytes order; ok (get rs)
unmarshal_packet (get_next _) bytes order = do
  rs ← GetNext.unmarshal_binary_order bytes order
  ok (get_next rs)
unmarshal_packet (test_set _) bytes order = do
  vs ← TestSet.unmarshal_binary_order bytes order
  ok (test_set vs)
unmarshal_packet (allocate_index _) bytes order = do
  vs ← unmarshal_allocate_index bytes
  ok (allocate_index vs)
unmarshal_packet (deallocate_index _) bytes order = do
  vs ← unmarshal_deallocate_index bytes
  ok (deallocate_index vs)
unmarshal_packet commit_set bytes order = do unmarshal_commit_set bytes; ok commit_set
unmarshal_packet undo_set bytes order = do unmarshal_undo_set bytes; ok undo_set
unmarshal_packet cleanup_set bytes order = do unmarshal_cleanup_set bytes; ok cleanup_set
unmarshal_packet (notify _) bytes order = do
  n ← Notify.unmarshal_binary_order bytes order
  ok (notify n)
unmarshal_packet (response _) bytes order = do
  r ← Response.unmarshal_binary_order bytes order
  ok (response r)
unmarshal_packet (unsupported t) bytes order = do
  u ← unmarshal_unsupported t bytes
  ok (unsupported u)

-- The kinds of packet that `packetForType` gives.
abbrev pub IsReceived : Packet → Type 0
IsReceived (get _) = Unit
IsReceived (get_next _) = Unit
IsReceived (test_set _) = Unit
IsReceived commit_set = Unit
IsReceived undo_set = Unit
IsReceived cleanup_set = Unit
IsReceived (notify _) = Unit
IsReceived (response _) = Unit
IsReceived (unsupported _) = Unit
IsReceived _ = ⊥

abbrev pub HasType : ℕ → Packet → Type 0
HasType t p = (type_of p ≡ t) × IsReceived p

choose : (t k : ℕ) (p q : Packet) → HasType k p → HasType t q → HasType t (if t == k then p else q)
choose t k p q hp hq = elim (Bool-cases (t == k)) [
  | inl e ↦ rw e (hp.0 ∙ sym ((==_iff t k).0 e), hp.1)
  | inr e ↦ rw e hq
]

-- The packet that a received type is decoded into has that type, whatever the byte is, and is of a
-- kind that is received.
pub packet_for_type-HasType : (t : ℕ) → HasType t (packet_for_type t)
unfolding packet_for_type type_of
packet_for_type-HasType t =
    choose t type_response _ _ (refl, tt)
      (choose t type_get _ _ (refl, tt)
        (choose t type_get_next _ _ (refl, tt)
          (choose t type_test_set _ _ (refl, tt)
            (choose t type_commit_set _ _ (refl, tt)
              (choose t type_undo_set _ _ (refl, tt)
                (choose t type_cleanup_set _ _ (refl, tt)
                  (choose t type_notify _ _ (refl, tt) (refl, tt))))))))

into :
    {A : Type 0} (p : Packet) (m : Result A) (f : A → Packet)
    → Ensures (λ _. Unit) m
    → ((a : A) → HasType (type_of p) (f a))
    → Ensures (HasType (type_of p)) (do a ← m; ok (f a))
into p m f h k = >>=-Ensures (λ _. Unit) (HasType (type_of p)) m _ h (λ a _ _. k a)

-- On any payload below 2 ^ 32 bytes, the decoder of a packet of a received kind returns an error or a
-- packet of the same type and of a received kind, and never panics.
pub unmarshal_packet-HasType :
    (p : Packet) (bytes : List ℕ) (order : ByteOrder)
    → IsReceived p
    → length bytes < 2 ^ 32
    → Ensures (HasType (type_of p)) (unmarshal_packet p bytes order)
unfolding unmarshal_packet type_of unmarshal_commit_set unmarshal_undo_set unmarshal_cleanup_set
    unmarshal_unsupported
unmarshal_packet-HasType (get rs) bytes order r small =
    into (get rs) _ get (unmarshal_ranges-Ensures bytes order) (λ _. (refl, tt))
unmarshal_packet-HasType (get_next rs) bytes order r small =
    into (get_next rs) _ get_next (unmarshal_ranges-Ensures bytes order) (λ _. (refl, tt))
unmarshal_packet-HasType (test_set vs) bytes order r small =
    into (test_set vs) _ test_set (unmarshal_variables-Ensures bytes order small) (λ _. (refl, tt))
unmarshal_packet-HasType (notify n) bytes order r small =
    into (notify n) _ notify (unmarshal_notify-Ensures bytes order small) (λ _. (refl, tt))
unmarshal_packet-HasType (response s) bytes order r small =
    into (response s) _ response (unmarshal_response-Ensures bytes order small) (λ _. (refl, tt))
unmarshal_packet-HasType commit_set [] order r small = (refl, tt)
unmarshal_packet-HasType commit_set (b ∷ bs) order r small = tt
unmarshal_packet-HasType undo_set [] order r small = (refl, tt)
unmarshal_packet-HasType undo_set (b ∷ bs) order r small = tt
unmarshal_packet-HasType cleanup_set [] order r small = (refl, tt)
unmarshal_packet-HasType cleanup_set (b ∷ bs) order r small = tt
unmarshal_packet-HasType (unsupported t) bytes order r small = (refl, tt)
unmarshal_packet-HasType _ bytes order r small = absurd r
