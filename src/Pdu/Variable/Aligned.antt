-- ===== src/Pdu/Variable/Aligned.antt =====
-- The encodings of bindings are multiples of four bytes, as RFC 2741 6.1 asks of every payload.
use go_agentx.Prelude.{
  ℕ, ◌%◌, ◌≡◌, refl, List, [], ◌∷◌, Ensures, Ensures-mono, >>=-Ensures, arith, length,
  length-append, All,
}
use go_agentx.Prelude.Int.{to_uint32}
use go_agentx.Prelude.Words.{ByteOrder, little, length-put_uint32, length-put_uint64}
use go_agentx.Pdu.ObjectIdentifier
use go_agentx.Pdu.ObjectIdentifier.{ObjectIdentifier}
use go_agentx.Pdu.ObjectIdentifier.Wire as Oi
use go_agentx.Pdu.OctetString.Wire as Os
use go_agentx.Pdu.Sequence.{marshal_all}
use go_agentx.Pdu.Variable.{Variable, marshal_binary}
use go_agentx.Pdu.Variable.Value as Value
use go_agentx.Pdu.Variable.Value.{
  Content, none_at_all, signed, word, long, ticks, string, bytes, address_bytes, name,
}
use go_agentx.Pdu.Variable.Wire.{IsGoVariable, Encodes, marshal-Encodes, length-layout}

oid_aligned : (o : ObjectIdentifier) → ObjectIdentifier.byte_size o % 4 ≡ 0
unfolding ObjectIdentifier.byte_size
oid_aligned o = omega arith

content_aligned : (order : ByteOrder) (c : Content) → length (Value.layout order c) % 4 ≡ 0
unfolding Value.layout
content_aligned order none_at_all = refl
content_aligned order (word u) = omega (arith, length-put_uint32 order u)
content_aligned order (long u) = omega (arith, length-put_uint64 order u)
content_aligned order (ticks u) = omega (arith, length-put_uint32 order u)
content_aligned order (signed i) = omega (arith, length-put_uint32 order (to_uint32 i))
content_aligned order (string t) =
    rw (Os.length-layout order (record { text = t })) (Os.byte_size_aligned (record { text = t }))
content_aligned order (bytes t) =
    rw (Os.length-layout order (record { text = t })) (Os.byte_size_aligned (record { text = t }))
content_aligned order (address_bytes t) =
    rw (Os.length-layout order (record { text = t })) (Os.byte_size_aligned (record { text = t }))
content_aligned order (name o) =
    let p : ObjectIdentifier = record { prefix = 0; include = 0; subidentifiers = o } in
    rw (Oi.length-layout order p) (oid_aligned p)

abbrev pub IsAligned : List ℕ → Type 0
IsAligned bs = length bs % 4 ≡ 0

pub marshal-IsAligned : (v : Variable) → IsGoVariable v → Ensures IsAligned (marshal_binary v)
marshal-IsAligned v w =
    Ensures-mono (Encodes v) IsAligned (marshal_binary v)
      (λ bs enc.
        let (c, e, l, k) = enc in
        rw (l, length-layout little v.type v.name c)
          (omega (arith, oid_aligned v.name, content_aligned little c)))
      (marshal-Encodes v w)

pub marshal_all-IsAligned :
    (vs : List Variable) → All IsGoVariable vs → Ensures IsAligned (marshal_all marshal_binary vs)
unfolding marshal_all
marshal_all-IsAligned [] w = refl
marshal_all-IsAligned (v ∷ vs) w =
    >>=-Ensures _ _ (marshal_binary v) _ (marshal-IsAligned v w.0) λ front a _.
      >>=-Ensures _ _ (marshal_all marshal_binary vs) _ (marshal_all-IsAligned vs w.1)
        λ back b _. omega (arith, length-append front back, a, b)
