-- ===== src/Pdu/Variable/Wire.antt =====
-- A whole variable binding on the wire.
use go_agentx.Prelude.{
  ℕ, ◌+◌, ◌-◌, ◌^◌, ◌<◌, ◌≡◌, refl, sym, some, none, List, ◌∷◌, ◌++◌, ltb, if◌then◌else◌, arith,
  tests, length, drop, Result, ok, err, ◌>>=◌, Bool-cases, inl, inr, length-append, length-drop,
  append_assoc, Ensures, >>=-Ensures, Ensures-mono, le→not_ltb, slice_from_ok, drop-append_at,
  short_buffer,
}
use go_agentx.Prelude.Words.{
  ByteOrder, little, big, put_uint16, uint32, IsU16, uint16-put, uint16_total, uint32_total,
  uint64_total, length-put_uint16,
}
use go_agentx.Pdu.ObjectIdentifier
use go_agentx.Pdu.ObjectIdentifier.{ObjectIdentifier}
use go_agentx.Pdu.ObjectIdentifier.Wire as Oi
use go_agentx.Pdu.OctetString
use go_agentx.Pdu.OctetString.Wire as Os
use go_agentx.Pdu.Variable.{
  Variable, nil, Syntax, absent, integer, counter32, counter64, time_ticks, octet_string, opaque,
  ip_address, object_identifier, unhandled, classify, variable_header_size, marshal_value,
  unmarshal_value, marshal_binary, unmarshal,
}
use go_agentx.Pdu.Variable.Value.{
  Content, IsContent, decoded, content_of, IsGo, Carries, unmarshal_value-layout,
  marshal_value-Carries,
}
use go_agentx.Pdu.Variable.Value

-- A binding whose name fits the wire and whose value has the range of its Go type.
pub record IsGoVariable (v : Variable) : Type 0 where
  pub type : IsU16 v.type
  pub name : Oi.IsWire v.name
  pub value : IsGo v.value

-- RFC 2741 5.4 in a byte order.
unfoldable pub layout : ByteOrder → ℕ → ObjectIdentifier → Content → List ℕ
layout order type name c =
    put_uint16 order type ++ (0 ∷ 0 ∷ (Oi.layout order name ++ Value.layout order c))

pub length-layout :
    (order : ByteOrder) (type : ℕ) (name : ObjectIdentifier) (c : Content)
    → length (layout order type name c)
      ≡ variable_header_size + ObjectIdentifier.byte_size name + length (Value.layout order c)
unfolding layout
length-layout order type name c = omega (
  arith,
  length-append (put_uint16 order type) (0 ∷ 0 ∷ (Oi.layout order name ++ Value.layout order c)),
  length-put_uint16 order type,
  length-append (Oi.layout order name) (Value.layout order c),
  Oi.length-layout order name,
)

drop-header :
    (order : ByteOrder) (type : ℕ) (bs : List ℕ)
    → drop variable_header_size (put_uint16 order type ++ (0 ∷ 0 ∷ bs)) ≡ bs
unfolding put_uint16
drop-header little type bs = refl
drop-header big type bs = refl

-- In either byte order a binding is read back from its layout, whatever follows.
pub unmarshal-layout :
    (order : ByteOrder) (type : ℕ) (name : ObjectIdentifier) (c : Content) (rest : List ℕ)
    → IsU16 type
    → Oi.IsWire name
    → IsContent (classify type) c
    → unmarshal (layout order type name c ++ rest) order
      ≡ ok (
        record { type = type; name = name; value = decoded c },
        length (layout order type name c),
      )
unfolding unmarshal layout
unmarshal-layout order type name c rest wt wn wc =
    let head : List ℕ = put_uint16 order type in
    let nm : List ℕ = Oi.layout order name in
    let vl : List ℕ = Value.layout order c in
    let bs : List ℕ = nm ++ (vl ++ rest) in
    let whole : List ℕ = head ++ (0 ∷ 0 ∷ bs) in
    let lw : length whole ≡ 4 + length bs =
      omega (arith, length-append head (0 ∷ 0 ∷ bs), length-put_uint16 order type) in
    let n : ℕ = ObjectIdentifier.byte_size name in
    let l : n ≡ length nm = sym (Oi.length-layout order name) in
    rw (append_assoc head (0 ∷ 0 ∷ (nm ++ vl)) rest) (
      rw (append_assoc nm vl rest) (
        rw (le→not_ltb (length whole) variable_header_size (omega arith)) (
          rw (uint16-put order type (0 ∷ 0 ∷ bs) wt) (
            rw (slice_from_ok whole variable_header_size (omega arith)) (
              rw (drop-header order type bs) (
                rw (Oi.unmarshal-layout order name (vl ++ rest) wn) (
                  rw (slice_from_ok bs n (omega (arith, length-append nm (vl ++ rest)))) (
                    rw (drop-append_at n nm (vl ++ rest) l) (
                      rw (unmarshal_value-layout order (classify type) c rest wc)
                        (rw (length-layout order type name c)))))))))))

-- What `MarshalBinary` returns is the layout of the content that the value stands for.
abbrev pub Encodes : Variable → List ℕ → Type 0
Encodes v bs =
    (c : Content) × (content_of (classify v.type) v.value ≡ some c)
    × (bs ≡ layout little v.type v.name c)
    × IsContent (classify v.type) c

pub marshal-Encodes : (v : Variable) → IsGoVariable v → Ensures (Encodes v) (marshal_binary v)
unfolding marshal_binary layout
marshal-Encodes v w = rw (Oi.marshal-layout v.name w.name.count) (
    >>=-Ensures (Carries (classify v.type) v.value) (Encodes v)
      (marshal_value (classify v.type) v.value) _
      (marshal_value-Carries (classify v.type) v.value w.value)
      λ bs carried _. let (c, e, l, k) = carried in (c, e, rw l, k))

-- The binding as the decoder returns it: the value in the decoder's Go type.
abbrev pub received : Variable → Variable
received v = record v {
  value = elim (content_of (classify v.type) v.value) [ some c ↦ decoded c | none ↦ nil ];
}

-- The bytes are not empty, and with whatever follows they are read back as the binding, and taken
-- exactly.
abbrev pub ReadsBack : Variable → List ℕ → Type 0
ReadsBack v bs =
    (0 < length bs) × ((rest : List ℕ) → unmarshal (bs ++ rest) little ≡ ok (received v, length bs))

-- A binding is encoded or reported as an error, never a panic. What is encoded is read back, with
-- whatever follows it, as the same type and name with the value in the decoder's Go type, and the
-- decoder takes exactly the bytes of the encoding.
pub variable_roundtrip : (v : Variable) → IsGoVariable v → Ensures (ReadsBack v) (marshal_binary v)
variable_roundtrip v w =
    Ensures-mono (Encodes v) (ReadsBack v) (marshal_binary v)
      (λ bs enc.
        let (c, e, l, k) = enc in
        (
          rw l (omega (arith, length-layout little v.type v.name c)),
          λ rest.
              rw (l, e, received) (unmarshal-layout little v.type v.name c rest w.type w.name k),
        ))
      (marshal-Encodes v w)

word-Ensures :
    {A : Type 0} (bs : List ℕ) (order : ByteOrder) (f : ℕ → Result A)
    → ((u : ℕ) → Ensures (λ _. Unit) (f u))
    → Ensures (λ _. Unit) (if ltb (length bs) 4 then err short_buffer else (uint32 order bs >>= f))
word-Ensures bs order f k = elim (Bool-cases (ltb (length bs) 4)) [
  | inl short ↦ rw short tt
  | inr long ↦ let (u, e) = uint32_total order bs (omega tests) in rw (long, e) (k u)
]

octets-Ensures :
    {A : Type 0} (bs : List ℕ) (order : ByteOrder) (f : OctetString.OctetString → Result A)
    → length bs < 2 ^ 32
    → ((o : OctetString.OctetString) → Ensures (λ _. Unit) (f o))
    → Ensures (λ _. Unit) (OctetString.unmarshal_binary_order bs order >>= f)
octets-Ensures bs order f small k =
    >>=-Ensures (Os.Fits bs) (λ _. Unit) (OctetString.unmarshal_binary_order bs order) f
      (Os.unmarshal-Fits bs order small) (λ o _ _. k o)

unmarshal_value-Ensures :
    (s : Syntax) (bs : List ℕ) (order : ByteOrder)
    → length bs < 2 ^ 32
    → Ensures (λ _. Unit) (unmarshal_value s bs order)
unfolding unmarshal_value
unmarshal_value-Ensures absent bs order small = tt
unmarshal_value-Ensures integer bs order small = word-Ensures bs order _ (λ u. tt)
unmarshal_value-Ensures counter32 bs order small = word-Ensures bs order _ (λ u. tt)
unmarshal_value-Ensures time_ticks bs order small = word-Ensures bs order _ (λ u. tt)
unmarshal_value-Ensures counter64 bs order small = elim (Bool-cases (ltb (length bs) 8)) [
  | inl short ↦ rw short tt
  | inr long ↦ let (u, e) = uint64_total order bs (omega tests) in rw (long, e) tt
]
unmarshal_value-Ensures octet_string bs order small = octets-Ensures bs order _ small (λ o. tt)
unmarshal_value-Ensures opaque bs order small = octets-Ensures bs order _ small (λ o. tt)
unmarshal_value-Ensures ip_address bs order small = octets-Ensures bs order _ small (λ o. tt)
unmarshal_value-Ensures object_identifier bs order small =
    >>=-Ensures (Oi.Fits bs) (λ _. Unit) (ObjectIdentifier.unmarshal_binary_order bs order) _
      (Oi.unmarshal-Fits bs order) (λ o _ _. tt)
unmarshal_value-Ensures unhandled bs order small = tt

-- On any bytes a binding is decoded or refused, never a panic, and a decoded one takes bytes.
pub unmarshal-Ensures :
    (bs : List ℕ) (order : ByteOrder)
    → length bs < 2 ^ 32
    → Ensures (λ (r : Variable × ℕ). 0 < r.1) (unmarshal bs order)
unfolding unmarshal
unmarshal-Ensures bs order small = elim (Bool-cases (ltb (length bs) variable_header_size)) [
  | inl short ↦ rw short tt
  | inr long ↦
      let (type, e) = uint16_total order bs (omega tests) in
      let rest : List ℕ = drop variable_header_size bs in
      let l : length rest ≡ length bs - variable_header_size =
        length-drop variable_header_size bs in
      rw (long, e)
        (rw (slice_from_ok bs variable_header_size (omega tests)) (
          >>=-Ensures (Oi.Fits rest) (λ (r : Variable × ℕ). 0 < r.1)
            (ObjectIdentifier.unmarshal_binary_order rest order) _ (Oi.unmarshal-Fits rest order)
            λ name fits _.
              let n : ℕ = ObjectIdentifier.byte_size name in
              let after : List ℕ = drop n rest in
              rw (slice_from_ok rest n fits.0) (
                >>=-Ensures (λ _. Unit) (λ (r : Variable × ℕ). 0 < r.1)
                  (unmarshal_value (classify type) after order) _
                  (unmarshal_value-Ensures (classify type) after order
                    (omega (arith, length-drop n rest)))
                  (λ r _ _. omega arith))))
]
