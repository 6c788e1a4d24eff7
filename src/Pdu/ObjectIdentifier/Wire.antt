-- ===== src/Pdu/ObjectIdentifier/Wire.antt =====
-- The object identifier on the wire.
use go_agentx.Prelude.{
  ℕ, zero, suc, ◌+◌, ◌*◌, ◌%◌, ◌≤◌, ◌≡◌, refl, List, [], ◌∷◌, ◌++◌, ltb, arith, tests, length, All,
  ok, byte_at, slice_from, Bool-cases, inl, inr, append_assoc, length-append, Ensures, le→not_ltb,
}
use go_agentx.Prelude.Words.{
  ByteOrder, little, put_uint32, IsByte, IsU32, read_uint32-put, read_uint32_total,
  length-put_uint32,
}
use go_agentx.Oid.{Oid}
use go_agentx.Pdu.ObjectIdentifier.{
  ObjectIdentifier, empty, max_subidentifiers, set_identifier, get_identifier, byte_size,
  subidentifier_bytes, marshal_binary, read_subidentifiers, unmarshal_binary_order,
}

-- A value that the wire can carry: at most 128 sub-identifiers, each a uint32.
pub record IsWire (o : ObjectIdentifier) : Type 0 where
  pub count : length o.subidentifiers ≤ max_subidentifiers
  pub prefix : IsByte o.prefix
  pub include : IsByte o.include
  pub subidentifiers : All IsU32 o.subidentifiers

-- RFC 2741 5.1 in a byte order.
unfoldable pub layout : ByteOrder → ObjectIdentifier → List ℕ
layout order o =
    length o.subidentifiers ∷ o.prefix ∷ o.include ∷ 0 ∷ subidentifier_bytes order o.subidentifiers

pub length-subidentifier_bytes :
    (order : ByteOrder) (xs : List ℕ) → length (subidentifier_bytes order xs) ≡ length xs * 4
unfolding subidentifier_bytes
length-subidentifier_bytes order [] = refl
length-subidentifier_bytes order (x ∷ xs) = omega (
  arith,
  length-append (put_uint32 order x) (subidentifier_bytes order xs),
  length-put_uint32 order x,
  length-subidentifier_bytes order xs,
)

pub length-layout :
    (order : ByteOrder) (o : ObjectIdentifier) → length (layout order o) ≡ byte_size o
unfolding layout byte_size
length-layout order o = omega (arith, length-subidentifier_bytes order o.subidentifiers)

pub marshal-layout :
    (o : ObjectIdentifier)
    → length o.subidentifiers ≤ max_subidentifiers
    → marshal_binary o ≡ ok (layout little o)
unfolding marshal_binary layout
marshal-layout o h =
    let e : length o.subidentifiers % 256 ≡ length o.subidentifiers = omega arith in
    rw (le→not_ltb max_subidentifiers (length o.subidentifiers) h) (rw e)

read_subidentifiers-bytes :
    (order : ByteOrder) (xs rest : List ℕ)
    → All IsU32 xs
    → read_subidentifiers order (length xs) (subidentifier_bytes order xs ++ rest) ≡ ok xs
unfolding read_subidentifiers subidentifier_bytes
read_subidentifiers-bytes order [] rest w = refl
read_subidentifiers-bytes order (x ∷ xs) rest w =
    rw (append_assoc (put_uint32 order x) (subidentifier_bytes order xs) rest) (
      rw (read_uint32-put order x (subidentifier_bytes order xs ++ rest) w.0)
        (rw (read_subidentifiers-bytes order xs rest w.1)))

-- In either byte order the decoder reads back what the layout says, whatever follows.
pub unmarshal-layout :
    (order : ByteOrder) (o : ObjectIdentifier) (rest : List ℕ)
    → IsWire o
    → unmarshal_binary_order (layout order o ++ rest) order ≡ ok o
unfolding unmarshal_binary_order layout byte_at slice_from
unmarshal-layout order o rest w = ground (
  arith,
  read_subidentifiers-bytes order o.subidentifiers rest w.subidentifiers,
  length-append (subidentifier_bytes order o.subidentifiers) rest,
  length-subidentifier_bytes order o.subidentifiers,
)

-- What a successful decode consumed lies within the bytes that it was given.
abbrev pub Fits : List ℕ → ObjectIdentifier → Type 0
Fits bytes o = (byte_size o ≤ length bytes) × (length o.subidentifiers ≤ max_subidentifiers)

read_subidentifiers-Ensures :
    (order : ByteOrder) (count : ℕ) (bytes : List ℕ)
    → count * 4 ≤ length bytes
    → (xs : List ℕ) × (read_subidentifiers order count bytes ≡ ok xs) × (length xs ≡ count)
unfolding read_subidentifiers
read_subidentifiers-Ensures order zero bytes h = ([], refl, refl)
read_subidentifiers-Ensures order (suc count) bytes h =
    let (x, rest, e, l) = read_uint32_total order bytes (count * 4) (omega arith) in
    let (xs, d, m) = read_subidentifiers-Ensures order count rest l in
    (x ∷ xs, rw e (rw d), omega arith)

pub unmarshal-Fits :
    (bytes : List ℕ) (order : ByteOrder) → Ensures (Fits bytes) (unmarshal_binary_order bytes order)
unfolding unmarshal_binary_order byte_at slice_from byte_size
unmarshal-Fits [] order = tt
unmarshal-Fits (c ∷ []) order = tt
unmarshal-Fits (c ∷ p ∷ []) order = tt
unmarshal-Fits (c ∷ p ∷ i ∷ []) order = tt
unmarshal-Fits (c ∷ p ∷ i ∷ z ∷ bytes) order =
    let n : ℕ = length (c ∷ p ∷ i ∷ z ∷ bytes) in
    rw (le→not_ltb n 4 (omega arith)) (elim (Bool-cases (ltb max_subidentifiers c)) [
      | inl many ↦ rw many tt
      | inr few ↦ rw few (elim (Bool-cases (ltb n (4 + c * 4))) [
        | inl short ↦ rw short tt
        | inr long ↦
            let (xs, e, m) = read_subidentifiers-Ensures order c bytes (omega tests) in
            rw (long, e) (omega tests, omega tests)
      ])
    ])

-- What is marshalled has at most 128 sub-identifiers, and is laid out in little-endian order.
marshal-count :
    (o : ObjectIdentifier) (bytes : List ℕ)
    → marshal_binary o ≡ ok bytes
    → length o.subidentifiers ≤ max_subidentifiers
unfolding marshal_binary
marshal-count o bytes h = ground arith

-- What the encoder returns for an OID is its RFC 2741 layout, and the OID has at most 128
-- sub-identifiers.
pub marshal_inverts :
    (o : ObjectIdentifier) (bytes : List ℕ)
    → marshal_binary o ≡ ok bytes
    → (length o.subidentifiers ≤ max_subidentifiers) × (bytes ≡ layout little o)
marshal_inverts o bytes h =
    let m : length o.subidentifiers ≤ max_subidentifiers = marshal-count o bytes h in
    (m, cc (h, marshal-layout o m))

-- `SetIdentifier` and `GetIdentifier` are inverse on a struct with no prefix.
pub get-set_identifier : (oid : Oid) → get_identifier (set_identifier oid empty) ≡ oid
unfolding get_identifier set_identifier
get-set_identifier oid = refl
