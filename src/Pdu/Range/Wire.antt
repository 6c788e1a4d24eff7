-- ===== src/Pdu/Range/Wire.antt =====
-- The search range on the wire.
use go_agentx.Prelude.{
  ℕ, ◌≤◌, ◌≡◌, List, ◌++◌, ok, slice_from_ok, arith, length, drop, length-append, length-drop,
  append_assoc, Ensures, >>=-Ensures, drop-append_at, sym,
}
use go_agentx.Prelude.Words.{ByteOrder, little}
use go_agentx.Pdu.ObjectIdentifier
use go_agentx.Pdu.ObjectIdentifier.{ObjectIdentifier}
use go_agentx.Pdu.ObjectIdentifier.Wire as Oi
use go_agentx.Pdu.Range.{Range, byte_size, marshal_binary, unmarshal_binary_order}

pub record IsWire (r : Range) : Type 0 where
  pub from : Oi.IsWire r.from
  pub to : Oi.IsWire r.to

-- RFC 2741 5.2 in a byte order.
unfoldable pub layout : ByteOrder → Range → List ℕ
layout order r = Oi.layout order r.from ++ Oi.layout order r.to

-- What the encoder makes of a range: the ending OID is not inclusive.
abbrev pub exclusive : Range → Range
exclusive r = record r { to = record r.to { include = 0 } }

pub exclusive-IsWire : (r : Range) → IsWire r → IsWire (exclusive r)
exclusive-IsWire r w = record {
  from = w.from;
  to = record {
    count = w.to.count;
    prefix = w.to.prefix;
    include = omega arith;
    subidentifiers = w.to.subidentifiers;
  };
}

pub length-layout : (order : ByteOrder) (r : Range) → length (layout order r) ≡ byte_size r
unfolding layout
length-layout order r = omega (
  arith,
  length-append (Oi.layout order r.from) (Oi.layout order r.to),
  Oi.length-layout order r.from,
  Oi.length-layout order r.to,
)

pub marshal-layout : (r : Range) → IsWire r → marshal_binary r ≡ ok (layout little (exclusive r))
unfolding marshal_binary layout
marshal-layout r w =
    rw (Oi.marshal-layout r.from w.from.count)
      (rw (Oi.marshal-layout (record r.to { include = 0 }) w.to.count))

pub unmarshal-layout :
    (order : ByteOrder) (r : Range) (rest : List ℕ)
    → IsWire r
    → unmarshal_binary_order (layout order r ++ rest) order ≡ ok r
unfolding unmarshal_binary_order layout
unmarshal-layout order r rest w =
    let a : List ℕ = Oi.layout order r.from in
    let b : List ℕ = Oi.layout order r.to in
    let n : ℕ = ObjectIdentifier.byte_size r.from in
    let l : n ≡ length a = sym (Oi.length-layout order r.from) in
    rw (append_assoc a b rest) (
      rw (Oi.unmarshal-layout order r.from (b ++ rest) w.from) (
        rw (slice_from_ok (a ++ (b ++ rest)) n (omega (arith, length-append a (b ++ rest))))
          (rw (drop-append_at n a (b ++ rest) l) (rw (Oi.unmarshal-layout order r.to rest w.to)))))

abbrev pub Fits : List ℕ → Range → Type 0
Fits bytes r = byte_size r ≤ length bytes

pub unmarshal-Fits :
    (bytes : List ℕ) (order : ByteOrder) → Ensures (Fits bytes) (unmarshal_binary_order bytes order)
unfolding unmarshal_binary_order
unmarshal-Fits bytes order =
    >>=-Ensures (Oi.Fits bytes) (Fits bytes) (ObjectIdentifier.unmarshal_binary_order bytes order) _
      (Oi.unmarshal-Fits bytes order)
      λ from fits _.
        let n : ℕ = ObjectIdentifier.byte_size from in
        rw (slice_from_ok bytes n fits.0) (
          >>=-Ensures (Oi.Fits (drop n bytes)) (Fits bytes)
            (ObjectIdentifier.unmarshal_binary_order (drop n bytes) order) _
            (Oi.unmarshal-Fits (drop n bytes) order)
            (λ to fits' _. omega (arith, length-drop n bytes)))
