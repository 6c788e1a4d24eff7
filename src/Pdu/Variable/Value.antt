-- ===== src/Pdu/Variable/Value.antt =====
-- The value of a binding on the wire: what is encoded is read back in the type that the decoder
-- gives to the binding's syntax.
use go_agentx.Prelude.{
  ℕ, false, ◌+◌, ◌*◌, ◌/◌, ◌%◌, ◌^◌, ◌≤◌, ◌<◌, ◌≡◌, refl, ◌∙◌, Option, none, some, List, [], ◌∷◌,
  ◌++◌, ltb, arith, tests, length, All, ok, err, crash, ◌>>=◌, Bool-cases, Option-cases, inl, inr,
  length-append, Ensures, >>=-Ensures, le→not_ltb, not_ipv4,
}
use go_agentx.Prelude.Int.{ℤ, pos, negsuc, to_uint32, IsInt32, to_int32-to_uint32, to_uint32_bound}
use go_agentx.Prelude.Words.{
  ByteOrder, little, put_uint32, put_uint64, IsU32, IsU64, uint32-put, uint64-put,
  length-put_uint32, length-put_uint64,
}
use go_agentx.Oid.{Oid, parse_oid}
use go_agentx.Oid.Text.{IsOid, parse_oid-IsOid}
use go_agentx.Pdu.ObjectIdentifier
use go_agentx.Pdu.ObjectIdentifier.Wire as Oi
use go_agentx.Pdu.OctetString
use go_agentx.Pdu.OctetString.Wire as Os
use go_agentx.Pdu.Variable.{
  GoValue, nil, int32, duration, uint32_value, uint64_value, text, octets, ip, oid, uint32s, Syntax,
  absent, integer, counter32, counter64, time_ticks, octet_string, opaque, ip_address,
  object_identifier, unhandled, time_tick, to4, address, int_value, word_value, long_value,
  ticks_value, text_value, ip_value, oid_value, marshal_value, unmarshal_value,
}

-- The content of a value on the wire, whatever Go type it came from and goes to.
pub data Content : Type 0 where
  none_at_all : Content
  word long ticks : ℕ → Content
  signed : ℤ → Content
  string bytes address_bytes : List ℕ → Content
  name : Oid → Content

abbrev pub FitsString : List ℕ → Type 0
FitsString t = length t + 4 < 2 ^ 32

-- The content has a place in the syntax and the width of it.
abbrev pub IsContent : Syntax → Content → Type 0
IsContent absent none_at_all = Unit
IsContent integer (signed i) = IsInt32 i
IsContent counter32 (word u) = IsU32 u
IsContent counter64 (long u) = IsU64 u
IsContent time_ticks (ticks u) = IsU32 u
IsContent octet_string (string t) = FitsString t
IsContent opaque (bytes t) = FitsString t
IsContent ip_address (address_bytes t) = FitsString t
IsContent object_identifier (name o) =
    (length o ≤ ObjectIdentifier.max_subidentifiers) × All IsU32 o
IsContent _ _ = ⊥

-- RFC 2741 5.4 in a byte order.
unfoldable pub layout : ByteOrder → Content → List ℕ
layout order none_at_all = []
layout order (word u) = put_uint32 order u
layout order (long u) = put_uint64 order u
layout order (ticks u) = put_uint32 order u
layout order (signed i) = put_uint32 order (to_uint32 i)
layout order (string t) = Os.layout order (record { text = t })
layout order (bytes t) = Os.layout order (record { text = t })
layout order (address_bytes t) = Os.layout order (record { text = t })
layout order (name o) = Oi.layout order (record { prefix = 0; include = 0; subidentifiers = o })

-- The Go value that the decoder makes of the content.
abbrev pub decoded : Content → GoValue
decoded none_at_all = nil
decoded (word u) = uint32_value u
decoded (long u) = uint64_value u
decoded (ticks u) = duration (pos (u * time_tick))
decoded (signed i) = int32 i
decoded (string t) = text t
decoded (bytes t) = octets t
decoded (address_bytes t) = ip t
decoded (name o) = oid o

abbrev plain : Oid → ObjectIdentifier.ObjectIdentifier
plain o = record { prefix = 0; include = 0; subidentifiers = o }

plain-IsWire : (o : Oid) → IsContent object_identifier (name o) → Oi.IsWire (plain o)
plain-IsWire o w = record {
  count = w.0;
  prefix = omega arith;
  include = omega arith;
  subidentifiers = w.1;
}

get-plain : (o : Oid) → ObjectIdentifier.get_identifier (plain o) ≡ o
unfolding ObjectIdentifier.get_identifier
get-plain o = refl

read_word :
    (order : ByteOrder) (u : ℕ) (rest : List ℕ)
    → (ltb (length (put_uint32 order u ++ rest)) 4) ≡ false
read_word order u rest =
    le→not_ltb _ 4
      (omega (arith, length-append (put_uint32 order u) rest, length-put_uint32 order u))

read_long :
    (order : ByteOrder) (u : ℕ) (rest : List ℕ)
    → (ltb (length (put_uint64 order u ++ rest)) 8) ≡ false
read_long order u rest =
    le→not_ltb _ 8
      (omega (arith, length-append (put_uint64 order u) rest, length-put_uint64 order u))

pub unmarshal_value-layout :
    (order : ByteOrder) (s : Syntax) (c : Content) (rest : List ℕ)
    → IsContent s c
    → unmarshal_value s (layout order c ++ rest) order ≡ ok (decoded c, length (layout order c))
unfolding unmarshal_value layout
unmarshal_value-layout order absent none_at_all rest w = refl
unmarshal_value-layout order integer (signed i) rest w = rw (read_word order (to_uint32 i) rest) (
    rw (uint32-put order (to_uint32 i) rest (to_uint32_bound i))
      (rw (to_int32-to_uint32 i w) (rw (length-put_uint32 order (to_uint32 i)))))
unmarshal_value-layout order counter32 (word u) rest w =
    rw (read_word order u rest) (rw (uint32-put order u rest w) (rw (length-put_uint32 order u)))
unmarshal_value-layout order counter64 (long u) rest w =
    rw (read_long order u rest) (rw (uint64-put order u rest w) (rw (length-put_uint64 order u)))
unmarshal_value-layout order time_ticks (ticks u) rest w =
    rw (read_word order u rest) (rw (uint32-put order u rest w) (rw (length-put_uint32 order u)))
unmarshal_value-layout order octet_string (string t) rest w =
    rw (Os.unmarshal-layout order (record { text = t }) rest w)
      (rw (Os.length-layout order (record { text = t })))
unmarshal_value-layout order opaque (bytes t) rest w =
    rw (Os.unmarshal-layout order (record { text = t }) rest w)
      (rw (Os.length-layout order (record { text = t })))
unmarshal_value-layout order ip_address (address_bytes t) rest w =
    rw (Os.unmarshal-layout order (record { text = t }) rest w)
      (rw (Os.length-layout order (record { text = t })))
unmarshal_value-layout order object_identifier (name o) rest w =
    rw (Oi.unmarshal-layout order (plain o) rest (plain-IsWire o w))
      (rw (get-plain o) (rw (Oi.length-layout order (plain o))))
unmarshal_value-layout _ _ _ rest w = absurd w

-- The value has the range of its Go type, and a string the length of one that the wire can carry.
abbrev pub IsGo : GoValue → Type 0
IsGo (int32 i) = IsInt32 i
IsGo (uint32_value u) = IsU32 u
IsGo (uint64_value u) = IsU64 u
IsGo (text t) = FitsString t
IsGo (octets t) = FitsString t
IsGo (ip t) = FitsString t
IsGo (oid o) = All IsU32 o
IsGo (uint32s o) = All IsU32 o
IsGo _ = Unit

-- The content that a Go value stands for in a syntax, `none` where it has none.
abbrev pub content_of : Syntax → GoValue → Option Content
content_of absent v = some none_at_all
content_of integer (int32 i) = some (signed i)
content_of counter32 (uint32_value u) = some (word u)
content_of counter64 (uint64_value u) = some (long u)
content_of time_ticks (uint32_value u) = some (ticks u)
content_of time_ticks (duration (pos n)) = some (ticks (n / time_tick % 2 ^ 32))
content_of octet_string (text t) = some (string t)
content_of octet_string (octets t) = some (string t)
content_of opaque (text t) = some (bytes t)
content_of opaque (octets t) = some (bytes t)
content_of ip_address (ip b) = elim (to4 b) [ some v ↦ some (address_bytes v) | none ↦ none ]
content_of ip_address (octets b) = elim (to4 b) [ some v ↦ some (address_bytes v) | none ↦ none ]
content_of ip_address (text b) = elim (to4 b) [ some v ↦ some (address_bytes v) | none ↦ none ]
content_of object_identifier (oid o) = some (name o)
content_of object_identifier (uint32s o) = some (name o)
content_of object_identifier (text t) = elim (parse_oid t) [
  | ok o ↦ some (name o)
  | err e ↦ none
  | crash c ↦ none
]
content_of _ _ = none

-- The bytes are the layout of what the value stands for.
abbrev pub Carries : Syntax → GoValue → List ℕ → Type 0
Carries s v bs = (c : Content) × (content_of s v ≡ some c) × (bs ≡ layout little c) × IsContent s c

to4-length : (b v : List ℕ) → to4 b ≡ some v → length v ≡ 4
unfolding to4
to4-length (a ∷ b ∷ c ∷ d ∷ []) v h = ground arith
to4-length (a ∷ b ∷ c ∷ d ∷ e ∷ f ∷ g ∷ h ∷ i ∷ j ∷ k ∷ l ∷ m ∷ n ∷ o ∷ p ∷ []) v q = ground arith
to4-length _ v h = absurd (cc)

octet_bytes-layout :
    (t : List ℕ)
    → FitsString t
    → OctetString.marshal_binary (record { text = t }) ≡ Os.layout little (record { text = t })
octet_bytes-layout t w = Os.marshal-layout (record { text = t }) (omega arith)

address-none : (b : List ℕ) → to4 b ≡ none → address b ≡ err not_ipv4
unfolding address
address-none b h = rw (h, address)

address-some : (b v : List ℕ) → to4 b ≡ some v → address b ≡ ok v
unfolding address
address-some b v h = rw (h, address)

address-Carries :
    (v : GoValue) (b : List ℕ)
    → content_of ip_address v ≡ elim (to4 b) [ some a ↦ some (address_bytes a) | none ↦ none ]
    → Ensures
        (Carries ip_address v)
        (do t ← address b; ok (OctetString.marshal_binary (record { text = t })))
unfolding layout
address-Carries v b e = elim (Option-cases (to4 b)) [
  | inl n ↦ rw (address-none b n) tt
  | inr (a, y) ↦
      let w : FitsString a = omega (arith, to4-length b a y) in
      rw (address-some b a y) (address_bytes a, e ∙ rw y, octet_bytes-layout a w, w)
]

name-Carries :
    (v : GoValue) (o : Oid)
    → content_of object_identifier v ≡ some (name o)
    → All IsU32 o
    → Ensures
        (Carries object_identifier v)
        (ObjectIdentifier.marshal_binary (ObjectIdentifier.set_identifier o ObjectIdentifier.empty))
unfolding ObjectIdentifier.set_identifier layout
name-Carries v o e w = elim (Bool-cases (ltb ObjectIdentifier.max_subidentifiers (length o))) [
  | inl many ↦ unfold ObjectIdentifier.marshal_binary in rw many tt
  | inr few ↦ rw (Oi.marshal-layout (plain o) (omega tests)) (name o, e, refl, (omega tests, w))
]

-- For a value within the range of its Go type, the encoder returns an error, or the wire layout of
-- the content that the value stands for in the syntax, and never panics.
pub marshal_value-Carries :
    (s : Syntax) (v : GoValue) → IsGo v → Ensures (Carries s v) (marshal_value s v)
unfolding marshal_value int_value word_value long_value ticks_value text_value ip_value oid_value
    layout
marshal_value-Carries absent v w = (none_at_all, refl, refl, tt)
marshal_value-Carries integer (int32 i) w = (signed i, refl, refl, w)
marshal_value-Carries integer _ w = tt
marshal_value-Carries counter32 (uint32_value u) w = (word u, refl, refl, w)
marshal_value-Carries counter32 _ w = tt
marshal_value-Carries counter64 (uint64_value u) w = (long u, refl, refl, w)
marshal_value-Carries counter64 _ w = tt
marshal_value-Carries time_ticks (uint32_value u) w = (ticks u, refl, refl, w)
marshal_value-Carries time_ticks (duration (pos n)) w =
    (ticks (n / time_tick % 2 ^ 32), refl, refl, omega arith)
marshal_value-Carries time_ticks (duration (negsuc n)) w = tt
marshal_value-Carries time_ticks _ w = tt
marshal_value-Carries octet_string (text t) w = (string t, refl, octet_bytes-layout t w, w)
marshal_value-Carries octet_string (octets t) w = (string t, refl, octet_bytes-layout t w, w)
marshal_value-Carries octet_string _ w = tt
marshal_value-Carries opaque (text t) w = (bytes t, refl, octet_bytes-layout t w, w)
marshal_value-Carries opaque (octets t) w = (bytes t, refl, octet_bytes-layout t w, w)
marshal_value-Carries opaque _ w = tt
marshal_value-Carries ip_address (ip b) w = address-Carries (ip b) b refl
marshal_value-Carries ip_address (octets b) w = address-Carries (octets b) b refl
marshal_value-Carries ip_address (text b) w = address-Carries (text b) b refl
marshal_value-Carries ip_address _ w = tt
marshal_value-Carries object_identifier (oid o) w = name-Carries (oid o) o refl w
marshal_value-Carries object_identifier (uint32s o) w = name-Carries (uint32s o) o refl w
marshal_value-Carries object_identifier (text t) w =
    >>=-Ensures IsOid (Carries object_identifier (text t)) (parse_oid t) _ (parse_oid-IsOid t)
      (λ o wo e. name-Carries (text t) o (rw (e, content_of)) wo)
marshal_value-Carries object_identifier _ w = tt
marshal_value-Carries unhandled v w = tt
