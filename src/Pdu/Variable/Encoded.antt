-- ===== src/Pdu/Variable/Encoded.antt =====
-- Which bindings are encoded: those whose value has a content that fits its syntax.
use go_agentx.Prelude.{
  ℕ, ◌≡◌, refl, none, some, List, ◌∷◌, ◌++◌, Result, ok, Ensures, Option-cases, inl, inr,
  Result-cases,
}
use go_agentx.Prelude.Int.{pos}
use go_agentx.Oid.{Oid, parse_oid}
use go_agentx.Prelude.Words.{little, put_uint16}
use go_agentx.Pdu.ObjectIdentifier
use go_agentx.Pdu.ObjectIdentifier.Wire as Oi
use go_agentx.Pdu.OctetString
use go_agentx.Pdu.Variable.{
  Variable, GoValue, Syntax, absent, integer, counter32, counter64, time_ticks, octet_string,
  opaque, ip_address, object_identifier, int32, duration, uint32_value, uint64_value, text, octets,
  ip, oid, uint32s, classify, marshal_value, marshal_binary, to4, address, int_value, word_value,
  long_value, ticks_value, text_value, ip_value, oid_value,
}
use go_agentx.Pdu.Variable.Value.{Content, name, IsContent, content_of}
use go_agentx.Pdu.Variable.Wire as Wire

abbrev IsEncoded : Syntax → GoValue → Type 0
IsEncoded s v = (bytes : List ℕ) × (marshal_value s v ≡ ok bytes)

name-IsEncoded :
    (o : Oid) (c : Content)
    → some (name o) ≡ some c
    → IsContent object_identifier c
    → (bytes : List ℕ) × (ObjectIdentifier.marshal_binary
          (ObjectIdentifier.set_identifier o ObjectIdentifier.empty)
        ≡ ok bytes)
unfolding ObjectIdentifier.set_identifier
name-IsEncoded o (name p) e w =
    let same : o ≡ p = cc in
    (_, Oi.marshal-layout (record { prefix = 0; include = 0; subidentifiers = o }) (rw same w.0))
name-IsEncoded o _ e w = absurd w

address-IsEncoded :
    (b : List ℕ) (c : Content)
    → elim (to4 b) [ some v ↦ some (Content.address_bytes v) | none ↦ none ] ≡ some c
    → (v : List ℕ) × (address b ≡ ok v)
unfolding address
address-IsEncoded b c e = elim (Option-cases (to4 b)) [
  | inl n ↦ let bad : none ≡ some c = rw n at e in cc
  | inr (v, y) ↦ (v, rw (y, address) refl)
]

-- A value whose content fits the syntax is encoded.
marshal_value-IsEncoded :
    (s : Syntax) (v : GoValue) (c : Content)
    → content_of s v ≡ some c
    → IsContent s c
    → IsEncoded s v
unfolding marshal_value int_value word_value long_value ticks_value text_value ip_value oid_value
marshal_value-IsEncoded absent v c e w = (_, refl)
marshal_value-IsEncoded integer (int32 i) c e w = (_, refl)
marshal_value-IsEncoded counter32 (uint32_value u) c e w = (_, refl)
marshal_value-IsEncoded counter64 (uint64_value u) c e w = (_, refl)
marshal_value-IsEncoded time_ticks (uint32_value u) c e w = (_, refl)
marshal_value-IsEncoded time_ticks (duration (pos n)) c e w = (_, refl)
marshal_value-IsEncoded octet_string (text t) c e w = (_, refl)
marshal_value-IsEncoded octet_string (octets t) c e w = (_, refl)
marshal_value-IsEncoded opaque (text t) c e w = (_, refl)
marshal_value-IsEncoded opaque (octets t) c e w = (_, refl)
marshal_value-IsEncoded ip_address (ip b) c e w =
    let (v, y) = address-IsEncoded b c e in
    (OctetString.marshal_binary (record { text = v }), rw y refl)
marshal_value-IsEncoded ip_address (octets b) c e w =
    let (v, y) = address-IsEncoded b c e in
    (OctetString.marshal_binary (record { text = v }), rw y refl)
marshal_value-IsEncoded ip_address (text b) c e w =
    let (v, y) = address-IsEncoded b c e in
    (OctetString.marshal_binary (record { text = v }), rw y refl)
marshal_value-IsEncoded object_identifier (oid o) c e w = name-IsEncoded o c e w
marshal_value-IsEncoded object_identifier (uint32s o) c e w = name-IsEncoded o c e w
marshal_value-IsEncoded object_identifier (text t) c e w = elim (Result-cases (parse_oid t)) [
  | inl (o, p) ↦ let (bytes, m) = name-IsEncoded o c (rw (p, content_of) at e) w in (bytes, rw p m)
  | inr (inl (x, p)) ↦ let bad : none ≡ some c = rw (p, content_of) at e in cc
  | inr (inr (x, p)) ↦ let bad : none ≡ some c = rw (p, content_of) at e in cc
]
marshal_value-IsEncoded _ _ c e w = cc

-- The value has the range of its Go type and a content that fits the syntax of the type.
abbrev pub IsCarried : Variable → Type 0
IsCarried v =
    Wire.IsGoVariable v
    × (c : Content) × (content_of (classify v.type) v.value ≡ some c)
    × IsContent (classify v.type) c

pub ensured :
    (P : List ℕ → Type 0) (r : Result (List ℕ)) (bytes : List ℕ)
    → r ≡ ok bytes
    → Ensures P r
    → P bytes
ensured P r bytes e h = rw e at h

-- A binding whose value has the range of its Go type and a content that fits its syntax is encoded,
-- and the bytes are read back, with whatever follows them, as the same type and name with the value
-- in the decoder's Go type.
pub variable_encoded :
    (v : Variable)
    → IsCarried v
    → (bytes : List ℕ) × (marshal_binary v ≡ ok bytes) × Wire.ReadsBack v bytes
unfolding marshal_binary
variable_encoded v (w, c, e, k) =
    let (value_bytes, m) = marshal_value-IsEncoded (classify v.type) v.value c e k in
    let bytes : List ℕ =
      put_uint16 little v.type ++ (0 ∷ 0 ∷ (Oi.layout little v.name ++ value_bytes)) in
    let encoded : marshal_binary v ≡ ok bytes =
      rw (Oi.marshal-layout v.name w.name.count) (rw m refl) in
    (bytes, encoded, ensured (Wire.ReadsBack v) _ bytes encoded (Wire.variable_roundtrip v w))
