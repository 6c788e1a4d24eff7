-- ===== src/Pdu/Header/Wire.antt =====
-- The header on the wire: round trip in both byte orders, and what is accepted.
use go_agentx.Prelude.{
  ℕ, ◌%◌, ◌≤◌, ◌<◌, ◌≡◌, refl, List, [], ◌∷◌, ◌++◌, ltb, arith, length, ok, err, byte_at,
  slice_from, append_assoc, length-append, Ensures, >>=-Ensures, ◌↔◌, Bool-cases, tests, inl, inr,
  short_buffer, ◌==◌,
}
use go_agentx.Prelude.Words.{
  ByteOrder, little, big, put_uint32, IsByte, IsU32, length-put_uint32, read_uint32-put,
  read_uint32_total,
}
use go_agentx.Pdu.Header.{
  Header, byte_order, marshal_binary, validate, unmarshal_fields, unmarshal_binary, header_size,
  protocol_version, max_payload_length,
}

-- The fields have the widths of their Go types.
pub record IsWire (h : Header) : Type 0 where
  pub version : IsByte h.version
  pub type : IsByte h.type
  pub flags : IsByte h.flags
  pub session_id : IsU32 h.session_id
  pub transaction_id : IsU32 h.transaction_id
  pub packet_id : IsU32 h.packet_id
  pub payload_length : IsU32 h.payload_length

-- What `Validate` lets through.
pub record IsAcceptable (h : Header) : Type 0 where
  pub version : h.version ≡ protocol_version
  pub alignment : h.payload_length % 4 ≡ 0
  pub size : h.payload_length ≤ max_payload_length

-- `Validate` accepts exactly the headers of version 1 whose payload length is a multiple of 4 and at
-- most the limit.
pub validate_iff : (h : Header) → (validate h ≡ ok tt) ↔ IsAcceptable h
unfolding validate
validate_iff h = ground arith

length-words :
    (o : ByteOrder) (a b c d : ℕ)
    → length (put_uint32 o a ++ (put_uint32 o b ++ (put_uint32 o c ++ put_uint32 o d))) ≡ 16
unfolding put_uint32
length-words little a b c d = refl
length-words big a b c d = refl

pub length-marshal : (h : Header) → length (marshal_binary h) ≡ header_size
unfolding marshal_binary
length-marshal h = omega (
  arith,
  length-words (byte_order h.flags) h.session_id h.transaction_id h.packet_id h.payload_length,
)

-- Four words read one after the other.
append_four :
    (a b c d rest : List ℕ) → (a ++ (b ++ (c ++ d))) ++ rest ≡ a ++ (b ++ (c ++ (d ++ rest)))
append_four a b c d rest = simp append_assoc

pub unmarshal_fields-marshal :
    (h : Header) (rest : List ℕ) → IsWire h → unmarshal_fields (marshal_binary h ++ rest) ≡ ok h
unfolding unmarshal_fields marshal_binary byte_at slice_from
unmarshal_fields-marshal h rest w =
    let o : ByteOrder = byte_order h.flags in
    let w3 : List ℕ = put_uint32 o h.payload_length ++ rest in
    let w2 : List ℕ = put_uint32 o h.packet_id ++ w3 in
    let w1 : List ℕ = put_uint32 o h.transaction_id ++ w2 in
    rw
      (append_four (put_uint32 o h.session_id) (put_uint32 o h.transaction_id)
        (put_uint32 o h.packet_id) (put_uint32 o h.payload_length) rest)
      (ground (
        arith,
        length-append (put_uint32 o h.session_id) w1,
        length-append (put_uint32 o h.transaction_id) w2,
        length-append (put_uint32 o h.packet_id) w3,
        length-append (put_uint32 o h.payload_length) rest,
        length-put_uint32 o h.session_id,
        length-put_uint32 o h.transaction_id,
        length-put_uint32 o h.packet_id,
        length-put_uint32 o h.payload_length,
        read_uint32-put o h.session_id w1,
        read_uint32-put o h.transaction_id w2,
        read_uint32-put o h.packet_id w3,
        read_uint32-put o h.payload_length rest,
      ))

-- A header with fields of their Go widths, in the byte order of its own flags, is read back whole
-- with whatever follows it, and `UnmarshalBinary` accepts it if `Validate` does.
pub unmarshal-marshal :
    (h : Header) (rest : List ℕ)
    → IsWire h
    → IsAcceptable h
    → unmarshal_binary (marshal_binary h ++ rest) ≡ ok h
unfolding unmarshal_binary
unmarshal-marshal h rest w a = rw (unmarshal_fields-marshal h rest w) (rw ((validate_iff h).1 a))

-- `Validate` never panics, and accepts only what is acceptable.
pub validate-Ensures : (h : Header) → Ensures (λ (_ : Unit {0}). IsAcceptable h) (validate h)
unfolding validate
validate-Ensures h = elim (Bool-cases (h.version == protocol_version)) [
  | inr v ↦ rw v tt
  | inl v ↦ elim (Bool-cases (h.payload_length % 4 == 0)) [
    | inr a ↦ rw (v, a) tt
    | inl a ↦ elim (Bool-cases (ltb max_payload_length h.payload_length)) [
      | inl m ↦ rw (v, a, m) tt
      | inr m ↦ rw (v, a, m) (ground arith)
    ]
  ]
]

unmarshal_fields_long :
    (bs : List ℕ) → header_size ≤ length bs → (h : Header) × (unmarshal_fields bs ≡ ok h)
unfolding unmarshal_fields byte_at slice_from
unmarshal_fields_long [] h = absurd (omega arith)
unmarshal_fields_long (a ∷ []) h = absurd (omega arith)
unmarshal_fields_long (a ∷ b ∷ []) h = absurd (omega arith)
unmarshal_fields_long (a ∷ b ∷ c ∷ []) h = absurd (omega arith)
unmarshal_fields_long (a ∷ b ∷ c ∷ d ∷ bs) h =
    let o : ByteOrder = byte_order c in
    let (x, r1, e1, h1) = read_uint32_total o bs 12 (omega arith) in
    let (y, r2, e2, h2) = read_uint32_total o r1 8 (omega arith) in
    let (z, r3, e3, h3) = read_uint32_total o r2 4 (omega arith) in
    let (w, r4, e4, h4) = read_uint32_total o r3 0 (omega arith) in
    (
      record {
        version = a;
        type = b;
        flags = c;
        session_id = x;
        transaction_id = y;
        packet_id = z;
        payload_length = w;
      },
      ground (arith, e1, e2, e3, e4),
    )

unmarshal_fields_short :
    (bs : List ℕ) → length bs < header_size → unmarshal_fields bs ≡ err short_buffer
unfolding unmarshal_fields
unmarshal_fields_short bs h = ground arith

pub unmarshal_fields-Ensures : (bs : List ℕ) → Ensures (λ (_ : Header). Unit) (unmarshal_fields bs)
unmarshal_fields-Ensures bs = elim (Bool-cases (ltb (length bs) header_size)) [
  | inl e ↦ rw (unmarshal_fields_short bs (omega tests)) tt
  | inr e ↦ let (h, d) = unmarshal_fields_long bs (omega tests) in rw d tt
]

-- On any bytes `UnmarshalBinary` returns a header that `Validate` accepts or an error, and never
-- panics. It is an error whenever there are fewer than 20 bytes.
pub unmarshal_header-Ensures :
    (bs : List ℕ) → Ensures (λ h. IsAcceptable h × (header_size ≤ length bs)) (unmarshal_binary bs)
unfolding unmarshal_binary
unmarshal_header-Ensures bs = elim (Bool-cases (ltb (length bs) header_size)) [
  | inl e ↦ rw (unmarshal_fields_short bs (omega tests)) tt
  | inr e ↦
      let long : header_size ≤ length bs = omega tests in
      let (h, d) = unmarshal_fields_long bs long in
      rw d (
        >>=-Ensures (λ (_ : Unit {0}). IsAcceptable h)
          (λ (k : Header). IsAcceptable k × (header_size ≤ length bs)) (validate h) _
          (validate-Ensures h) (λ _ a _. (a, long)))
]
