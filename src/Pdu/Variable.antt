-- ===== src/Pdu/Variable.antt =====
-- pdu/variable.go and pdu/variable_type.go: a variable binding, its dynamically typed value and the
-- encoding of both.
pub mod Value
pub mod Wire
pub mod Encoded
pub mod Aligned
pub mod Settled
use go_agentx.Prelude.{
  ℕ, zero, suc, ◌+◌, ◌-◌, ◌*◌, ◌/◌, ◌%◌, ◌^◌, Bool, true, false, ◌&&◌, ◌||◌, Option, none, some,
  List, [], ◌∷◌, ◌++◌, ltb, ◌==◌, list_eq, if◌then◌else◌, length, drop, Result, ok, err, ◌>>=◌,
  slice_from, short_buffer, wrong_go_type, negative_duration, not_ipv4, unhandled_type,
}
use go_agentx.Prelude.Int.{ℤ, pos, negsuc, to_uint32, to_int32}
use go_agentx.Prelude.Words.{
  ByteOrder, little, put_uint16, put_uint32, put_uint64, uint16, uint32, uint64,
}
use go_agentx.Oid.{Oid, parse_oid}
use go_agentx.Pdu.ObjectIdentifier
use go_agentx.Pdu.ObjectIdentifier.{ObjectIdentifier}
use go_agentx.Pdu.OctetString
use go_agentx.Pdu.OctetString.{OctetString}

-- What an `interface{}` holds: the Go types that the package tests for, and any other one.
-- A string, a []byte and a net.IP are their bytes, a time.Duration its nanoseconds.
pub data GoValue : Type 0 where
  nil other : GoValue
  int32 duration : ℤ → GoValue
  uint32_value uint64_value : ℕ → GoValue
  text octets ip : List ℕ → GoValue
  oid uint32s : Oid → GoValue

-- The cases of the two `switch v.Type`.
pub data Syntax : Type 0 where
  absent integer counter32 counter64 time_ticks octet_string opaque ip_address : Syntax
  object_identifier unhandled : Syntax

abbrev pub type_no_such_object : ℕ
type_no_such_object = 128

abbrev pub type_end_of_mib_view : ℕ
type_end_of_mib_view = 130

abbrev pub type_time_ticks : ℕ
type_time_ticks = 67

-- The constants of variable_type.go, by the case that takes them.
unfoldable pub classify : ℕ → Syntax
classify t =
    if t == 5 || t == type_no_such_object || t == 129 || t == type_end_of_mib_view
    then absent
    else if t == 2
    then integer
    else if t == 65 || t == 66
    then counter32
    else if t == 70
    then counter64
    else if t == type_time_ticks
    then time_ticks
    else if t == 4
    then octet_string
    else if t == 68
    then opaque
    else if t == 64
    then ip_address
    else if t == 6
    then object_identifier
    else unhandled

pub record Variable : Type 0 where
  pub type : ℕ
  pub name : ObjectIdentifier
  pub value : GoValue

abbrev pub variable_header_size : ℕ
variable_header_size = 4

-- 10 * time.Millisecond
abbrev pub time_tick : ℕ
time_tick = 10_000_000

-- `Set`, on the zero value of the struct.
unfoldable pub new_variable : Oid → ℕ → GoValue → Variable
new_variable o t v = record {
  type = t;
  name = ObjectIdentifier.set_identifier o ObjectIdentifier.empty;
  value = v;
}

-- `net.IP.To4`: four bytes, or the last four of an IPv4-in-IPv6 address.
abbrev v4_in_v6_prefix : List ℕ
v4_in_v6_prefix = 0 ∷ 0 ∷ 0 ∷ 0 ∷ 0 ∷ 0 ∷ 0 ∷ 0 ∷ 0 ∷ 0 ∷ 255 ∷ 255 ∷ []

unfoldable pub to4 : List ℕ → Option (List ℕ)
to4 (a ∷ b ∷ c ∷ d ∷ []) = some (a ∷ b ∷ c ∷ d ∷ [])
to4 (a ∷ b ∷ c ∷ d ∷ e ∷ f ∷ g ∷ h ∷ i ∷ j ∷ k ∷ l ∷ m ∷ n ∷ o ∷ p ∷ []) =
    if list_eq (a ∷ b ∷ c ∷ d ∷ e ∷ f ∷ g ∷ h ∷ i ∷ j ∷ k ∷ l ∷ []) v4_in_v6_prefix
    then some (m ∷ n ∷ o ∷ p ∷ [])
    else none
to4 _ = none

-- The type switches on the value, one for each case of `marshalValue`.
unfoldable pub int_value : GoValue → Result ℤ
int_value (int32 i) = ok i
int_value _ = err wrong_go_type

unfoldable pub word_value : GoValue → Result ℕ
word_value (uint32_value u) = ok u
word_value _ = err wrong_go_type

unfoldable pub long_value : GoValue → Result ℕ
long_value (uint64_value u) = ok u
long_value _ = err wrong_go_type

-- `uint32(val / (10 * time.Millisecond))`
unfoldable pub ticks_value : GoValue → Result ℕ
ticks_value (duration (pos n)) = ok (n / time_tick % 2 ^ 32)
ticks_value (duration (negsuc n)) = err negative_duration
ticks_value (uint32_value u) = ok u
ticks_value _ = err wrong_go_type

-- `textValue`
unfoldable pub text_value : GoValue → Result (List ℕ)
text_value (text t) = ok t
text_value (octets t) = ok t
text_value _ = err wrong_go_type

unfoldable pub address : List ℕ → Result (List ℕ)
address bytes = elim (to4 bytes) [ some v4 ↦ ok v4 | none ↦ err not_ipv4 ]

unfoldable pub ip_value : GoValue → Result (List ℕ)
ip_value (ip bytes) = address bytes
ip_value (octets bytes) = address bytes
ip_value (text bytes) = address bytes
ip_value _ = err wrong_go_type

-- `oidValue`
unfoldable pub oid_value : GoValue → Result Oid
oid_value (oid o) = ok o
oid_value (uint32s o) = ok o
oid_value (text t) = parse_oid t
oid_value _ = err wrong_go_type

-- `marshalValue`
unfoldable pub marshal_value : Syntax → GoValue → Result (List ℕ)
marshal_value absent v = ok []
marshal_value integer v = do i ← int_value v; ok (put_uint32 little (to_uint32 i))
marshal_value counter32 v = do u ← word_value v; ok (put_uint32 little u)
marshal_value counter64 v = do u ← long_value v; ok (put_uint64 little u)
marshal_value time_ticks v = do u ← ticks_value v; ok (put_uint32 little u)
marshal_value octet_string v = do
  t ← text_value v
  ok (OctetString.marshal_binary (record { text = t }))
marshal_value opaque v = do t ← text_value v; ok (OctetString.marshal_binary (record { text = t }))
marshal_value ip_address v = do
  t ← ip_value v
  ok (OctetString.marshal_binary (record { text = t }))
marshal_value object_identifier v = do
  o ← oid_value v
  ObjectIdentifier.marshal_binary (ObjectIdentifier.set_identifier o ObjectIdentifier.empty)
marshal_value unhandled v = err unhandled_type

unfoldable pub marshal_binary : Variable → Result (List ℕ)
marshal_binary v = do
  name_bytes ← ObjectIdentifier.marshal_binary v.name
  value_bytes ← marshal_value (classify v.type) v.value
  ok (put_uint16 little v.type ++ (0 ∷ 0 ∷ (name_bytes ++ value_bytes)))

-- `ByteSize`: of a variable that cannot be encoded, the size of the fixed part.
unfoldable pub byte_size : Variable → ℕ
byte_size v = elim (marshal_binary v) [
  | ok bytes ↦ length bytes
  | _ ↦ variable_header_size + ObjectIdentifier.byte_size v.name
]

-- `fixed(size)`, followed by the read of that many bytes.
abbrev fixed {ℓ} : {A : Type ℓ} → ℕ → List ℕ → Result A → Result A
fixed size bytes m = if ltb (length bytes) size then err short_buffer else m

-- `unmarshalValue`: the value and the number of bytes that it took.
unfoldable pub unmarshal_value : Syntax → List ℕ → ByteOrder → Result (GoValue × ℕ)
unmarshal_value absent bytes order = ok (nil, 0)
unmarshal_value integer bytes order =
    fixed 4 bytes (do u ← uint32 order bytes; ok (int32 (to_int32 u), 4))
unmarshal_value counter32 bytes order =
    fixed 4 bytes (do u ← uint32 order bytes; ok (uint32_value u, 4))
unmarshal_value time_ticks bytes order =
    fixed 4 bytes (do u ← uint32 order bytes; ok (duration (pos (u * time_tick)), 4))
unmarshal_value counter64 bytes order =
    fixed 8 bytes (do u ← uint64 order bytes; ok (uint64_value u, 8))
unmarshal_value octet_string bytes order = do
  o ← OctetString.unmarshal_binary_order bytes order
  ok (text o.text, OctetString.byte_size o)
unmarshal_value opaque bytes order = do
  o ← OctetString.unmarshal_binary_order bytes order
  ok (octets o.text, OctetString.byte_size o)
unmarshal_value ip_address bytes order = do
  o ← OctetString.unmarshal_binary_order bytes order
  ok (ip o.text, OctetString.byte_size o)
unmarshal_value object_identifier bytes order = do
  o ← ObjectIdentifier.unmarshal_binary_order bytes order
  ok (oid (ObjectIdentifier.get_identifier o), ObjectIdentifier.byte_size o)
unmarshal_value unhandled bytes order = err unhandled_type

-- `unmarshal`: the binding and the number of bytes that it took.
unfoldable pub unmarshal : List ℕ → ByteOrder → Result (Variable × ℕ)
unmarshal bytes order = if ltb (length bytes) variable_header_size then err short_buffer else do
  type ← uint16 order bytes
  rest ← slice_from bytes variable_header_size
  name ← ObjectIdentifier.unmarshal_binary_order rest order
  rest' ← slice_from rest (ObjectIdentifier.byte_size name)
  (value, size) ← unmarshal_value (classify type) rest' order
  ok (
    record { type = type; name = name; value = value },
    variable_header_size + ObjectIdentifier.byte_size name + size,
  )
