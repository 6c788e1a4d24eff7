-- ===== src/Client/Serving/Lists.antt =====
-- A GetNext for the list handler from end to end: list_handler.go behind session.go and client.go.
use go_agentx.Prelude.{ℕ, ◌≡◌, ◌⊎◌, inl, inr, refl, Bool, none, some, List, [], ◌∷◌, map, All}
use go_agentx.Oid.{Oid}
use go_agentx.Pdu.Header
use go_agentx.Pdu.Header.{Header}
use go_agentx.Pdu.Header.Wire
use go_agentx.Pdu.ObjectIdentifier
use go_agentx.Pdu.Range.{Range}
use go_agentx.Pdu.Range.Wire as RangeWire
use go_agentx.Pdu.Ranges
use go_agentx.Pdu.Variable
use go_agentx.Pdu.Variable.{Variable, nil, type_end_of_mib_view}
use go_agentx.Pdu.Variable.Encoded.{IsCarried}
use go_agentx.Pdu.Packet.{type_get_next}
use go_agentx.Client.Reader.Framing.{IsFrame}
use go_agentx.Client.Serving.{IsSmall, IsServed, get_next-IsServed, answers}
use go_agentx.Handler.{Answer, found, failed}
use go_agentx.ListHandler.{ListHandler, ListItem, handler}
use go_agentx.ListHandler as Lists
use go_agentx.ListHandler.Lookup.{item_of}
use go_agentx.ListHandler.Next.{IsValid, IsLeast, HasNoneIn, IsNextAnswer, get_next_least}
use go_agentx.Session.{ask_get_next, PendingSets}
use go_agentx.Session.Search.{binding_of, AllFound, IsFound}

-- The answer of the list handler to a range.
abbrev pub next_of : ListHandler → Range → Answer
next_of l r =
    Lists.get_next l (ObjectIdentifier.get_identifier r.from) (ObjectIdentifier.get_include r.from)
      (ObjectIdentifier.get_identifier r.to)

-- The binding of the least OID of the range with its item, or of the starting OID with the type
-- endOfMibView if the list has no OID in the range.
abbrev pub IsNextBinding : ListHandler → Range → Variable → Type 0
IsNextBinding l r v =
    ((o : Oid) × (item : ListItem) × IsLeast (ObjectIdentifier.get_identifier r.from)
        (ObjectIdentifier.get_include r.from) (ObjectIdentifier.get_identifier r.to) l.oids o
      × (item_of l o ≡ some item)
      × (v ≡ Variable.new_variable o item.type item.value))
    ⊎ (HasNoneIn (ObjectIdentifier.get_identifier r.from) (ObjectIdentifier.get_include r.from)
          (ObjectIdentifier.get_identifier r.to) l.oids
        × (v
            ≡ Variable.new_variable (ObjectIdentifier.get_identifier r.from) type_end_of_mib_view
                nil))

abbrev pub AreNextBindings : ListHandler → List Range → List Variable → Type 0
AreNextBindings l [] [] = Unit
AreNextBindings l [] (v ∷ vs) = ⊥
AreNextBindings l (r ∷ rs) [] = ⊥
AreNextBindings l (r ∷ rs) (v ∷ vs) = IsNextBinding l r v × AreNextBindings l rs vs

answer-IsNextBinding :
    (l : ListHandler) (r : Range) (a : Answer)
    → IsNextAnswer l
        (ObjectIdentifier.get_identifier r.from)
        (ObjectIdentifier.get_include r.from)
        (ObjectIdentifier.get_identifier r.to)
        a
    → IsNextBinding l r (binding_of type_end_of_mib_view r a)
answer-IsNextBinding l r (failed e) n = absurd n
answer-IsNextBinding l r (found none t v) n = inr (n, refl)
answer-IsNextBinding l r (found (some o) t v) n =
    inl (o, record { type = t; value = v }, n.0, n.1, refl)

next-IsFound :
    (l : ListHandler) (from : Oid) (i : Bool) (to : Oid) (a : Answer)
    → IsNextAnswer l from i to a
    → IsFound a
next-IsFound l from i to (failed e) n = n
next-IsFound l from i to (found o t v) n = tt

module _ (l : ListHandler) (valid : IsValid l) where
  pub next-AllFound : (rs : List Range) → AllFound (next_of l) rs
  next-AllFound [] = tt
  next-AllFound (r ∷ rs) =
      (next-IsFound l _ _ _ (next_of l r) (get_next_least l _ _ _ valid), next-AllFound rs)

  pub next-AreNextBindings :
      (rs : List Range)
      → AreNextBindings l rs (map (λ r. binding_of type_end_of_mib_view r (next_of l r)) rs)
  next-AreNextBindings [] = tt
  next-AreNextBindings (r ∷ rs) = (
    answer-IsNextBinding l r (next_of l r) (get_next_least l _ _ _ valid),
    next-AreNextBindings rs,
  )

  -- A GetNext for a valid list handler, in the byte order of its flags and with search ranges that fit
  -- the wire, where the bindings can be encoded and their payload is within the limit: the session
  -- sends one frame, which the master agent reads as a Response with no error under the ids of the
  -- request, with a binding for each range in order: the least OID of the range with its item, or the
  -- starting OID with endOfMibView if the list has no OID in the range.
  pub list-IsServed :
      (pending : PendingSets) (h : Header) (rs : List Range) (rest after : List ℕ)
      → IsFrame h (Ranges.layout (Header.byte_order h.flags) rs)
      → Wire.IsAcceptable h
      → All RangeWire.IsWire rs
      → h.type ≡ type_get_next
      → All IsCarried
          (map (λ r. binding_of type_end_of_mib_view r (next_of l r)) (map RangeWire.exclusive rs))
      → IsSmall
          (map (λ r. binding_of type_end_of_mib_view r (next_of l r)) (map RangeWire.exclusive rs))
      → (vs : List Variable) × AreNextBindings l (map RangeWire.exclusive rs) vs
        × IsServed
            (some handler)
            (record { handler_state = l; pending = pending })
            h
            rs
            (next_of l)
            rest
            after
            vs
  unfolding ask_get_next
  list-IsServed pending h rs rest after framed acceptable wire t c small = (
    answers (some handler) (record { handler_state = l; pending = pending }) h rs (next_of l) rest
        after type_end_of_mib_view,
    next-AreNextBindings (map RangeWire.exclusive rs),
    get_next-IsServed (some handler) (record { handler_state = l; pending = pending }) h rs
        (next_of l) rest after framed acceptable wire t (λ r. refl)
        (next-AllFound (map RangeWire.exclusive rs)) c small,
  )
