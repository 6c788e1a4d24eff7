-- ===== src/Pdu/Variable/Settled.antt =====
-- Encoding a binding or a list of them never panics, whatever a handler put in it.
use go_agentx.Prelude.{
  ℕ, List, [], ◌∷◌, IsSettled, >>=-IsSettled, Ensures-IsSettled, Bool-cases, inl, inr, ltb, length,
  Option-cases,
}
use go_agentx.Prelude.Int.{pos, negsuc}
use go_agentx.Oid.{parse_oid}
use go_agentx.Oid.Text.{IsOid, parse_oid-IsOid}
use go_agentx.Pdu.ObjectIdentifier
use go_agentx.Pdu.ObjectIdentifier.{ObjectIdentifier, max_subidentifiers}
use go_agentx.Pdu.Sequence.{marshal_all}
use go_agentx.Pdu.Variable.{
  Variable, GoValue, Syntax, absent, integer, counter32, counter64, time_ticks, octet_string,
  opaque, ip_address, object_identifier, unhandled, nil, duration, text, octets, ip, classify,
  marshal_value, marshal_binary, to4, address, int_value, word_value, long_value, ticks_value,
  text_value, ip_value, oid_value,
}

name-IsSettled : (o : ObjectIdentifier) → IsSettled (ObjectIdentifier.marshal_binary o)
unfolding ObjectIdentifier.marshal_binary
name-IsSettled o = elim (Bool-cases (ltb max_subidentifiers (length o.subidentifiers))) [
  | inl many ↦ rw many tt
  | inr few ↦ rw few tt
]

address-IsSettled : (b : List ℕ) → IsSettled (address b)
unfolding address
address-IsSettled b = elim (Option-cases (to4 b)) [
  | inl n ↦ rw (n, address) tt
  | inr (v, e) ↦ rw (e, address) tt
]

-- The type switches.
switch-IsSettled :
    (v : GoValue)
    → IsSettled (int_value v)
      × IsSettled (word_value v)
      × IsSettled (long_value v)
      × IsSettled (text_value v)
unfolding int_value word_value long_value text_value
switch-IsSettled nil = (tt, tt, tt, tt)
switch-IsSettled _ = (tt, tt, tt, tt)

ticks-IsSettled : (v : GoValue) → IsSettled (ticks_value v)
unfolding ticks_value
ticks-IsSettled (duration (pos n)) = tt
ticks-IsSettled (duration (negsuc n)) = tt
ticks-IsSettled _ = tt

ip-IsSettled : (v : GoValue) → IsSettled (ip_value v)
unfolding ip_value
ip-IsSettled (ip b) = address-IsSettled b
ip-IsSettled (octets b) = address-IsSettled b
ip-IsSettled (text b) = address-IsSettled b
ip-IsSettled _ = tt

oid-IsSettled : (v : GoValue) → IsSettled (oid_value v)
unfolding oid_value
oid-IsSettled (text t) = Ensures-IsSettled IsOid (parse_oid t) (parse_oid-IsOid t)
oid-IsSettled _ = tt

value-IsSettled : (s : Syntax) (v : GoValue) → IsSettled (marshal_value s v)
unfolding marshal_value
value-IsSettled absent v = tt
value-IsSettled integer v = >>=-IsSettled (int_value v) _ (switch-IsSettled v).0 (λ _ _. tt)
value-IsSettled counter32 v = >>=-IsSettled (word_value v) _ (switch-IsSettled v).1 (λ _ _. tt)
value-IsSettled counter64 v = >>=-IsSettled (long_value v) _ (switch-IsSettled v).2 (λ _ _. tt)
value-IsSettled time_ticks v = >>=-IsSettled (ticks_value v) _ (ticks-IsSettled v) (λ _ _. tt)
value-IsSettled octet_string v = >>=-IsSettled (text_value v) _ (switch-IsSettled v).3 (λ _ _. tt)
value-IsSettled opaque v = >>=-IsSettled (text_value v) _ (switch-IsSettled v).3 (λ _ _. tt)
value-IsSettled ip_address v = >>=-IsSettled (ip_value v) _ (ip-IsSettled v) (λ _ _. tt)
value-IsSettled object_identifier v =
    >>=-IsSettled (oid_value v) _ (oid-IsSettled v)
      (λ o _. name-IsSettled (ObjectIdentifier.set_identifier o ObjectIdentifier.empty))
value-IsSettled unhandled v = tt

marshal-IsSettled : (v : Variable) → IsSettled (marshal_binary v)
unfolding marshal_binary
marshal-IsSettled v =
    >>=-IsSettled (ObjectIdentifier.marshal_binary v.name) _ (name-IsSettled v.name) (λ _ _.
      >>=-IsSettled (marshal_value (classify v.type) v.value) _
        (value-IsSettled (classify v.type) v.value) (λ _ _. tt))

pub marshal_all-IsSettled : (vs : List Variable) → IsSettled (marshal_all marshal_binary vs)
unfolding marshal_all
marshal_all-IsSettled [] = tt
marshal_all-IsSettled (v ∷ vs) =
    >>=-IsSettled (marshal_binary v) _ (marshal-IsSettled v) (λ _ _.
      >>=-IsSettled (marshal_all marshal_binary vs) _ (marshal_all-IsSettled vs) (λ _ _. tt))
