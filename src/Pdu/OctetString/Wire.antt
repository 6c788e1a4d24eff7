-- ===== src/Pdu/OctetString/Wire.antt =====
-- The octet string on the wire.
use go_agentx.Prelude.{
  ℕ, ◌+◌, ◌-◌, ◌%◌, ◌^◌, ◌≤◌, ◌<◌, ◌≡◌, List, ◌++◌, ltb, arith, tests, length, replicate, ok,
  slice_ok, Bool-cases, inl, inr, append_assoc, length-append, length-replicate, length-take,
  length-drop, Ensures, drop, le→not_ltb, take-append,
}
use go_agentx.Prelude.Words.{
  ByteOrder, little, put_uint32, uint32-put, uint32_total, length-put_uint32, drop-put_uint32,
}
use go_agentx.Pdu.OctetString.{
  OctetString, padding, byte_size, marshal_binary, unmarshal_binary_order,
}

-- RFC 2741 5.3 in a byte order: the length, the octets, zeros up to a multiple of four.
unfoldable pub layout : ByteOrder → OctetString → List ℕ
layout order o =
    put_uint32 order (length o.text) ++ (o.text ++ replicate (padding (length o.text)) 0)

pub length-layout : (order : ByteOrder) (o : OctetString) → length (layout order o) ≡ byte_size o
unfolding layout
length-layout order o = omega (
  arith,
  length-append (put_uint32 order (length o.text))
      (o.text ++ replicate (padding (length o.text)) 0),
  length-put_uint32 order (length o.text),
  length-append o.text (replicate (padding (length o.text)) 0),
  length-replicate {A = ℕ} (padding (length o.text)) 0,
)

-- The padding realigns what follows.
pub byte_size_aligned : (o : OctetString) → byte_size o % 4 ≡ 0
byte_size_aligned o = omega arith

pub marshal-layout : (o : OctetString) → length o.text < 2 ^ 32 → marshal_binary o ≡ layout little o
unfolding marshal_binary layout
marshal-layout o h = let e : length o.text % 2 ^ 32 ≡ length o.text = omega arith in rw e

-- In either byte order the decoder reads back the text, whatever follows.
pub unmarshal-layout :
    (order : ByteOrder) (o : OctetString) (rest : List ℕ)
    → length o.text + 4 < 2 ^ 32
    → unmarshal_binary_order (layout order o ++ rest) order ≡ ok o
unfolding unmarshal_binary_order layout
unmarshal-layout order o rest h =
    let n : ℕ = length o.text in
    let zeros : List ℕ = replicate (padding n) 0 in
    let tail : List ℕ = o.text ++ (zeros ++ rest) in
    let bytes : List ℕ = put_uint32 order n ++ tail in
    let l : length bytes ≡ 4 + length tail =
      omega (arith, length-append (put_uint32 order n) tail, length-put_uint32 order n) in
    let m : n ≤ length tail = omega (arith, length-append o.text (zeros ++ rest)) in
    let e : (4 + n) % 2 ^ 32 ≡ 4 + n = omega arith in
    let k : 4 + n - 4 ≡ n = omega arith in
    rw (append_assoc (put_uint32 order n) (o.text ++ zeros) rest) (
      rw (append_assoc o.text zeros rest) (
        rw (le→not_ltb (length bytes) 4 (omega arith)) (
          rw (uint32-put order n tail (omega arith)) (
            rw (le→not_ltb (length bytes - 4) n (omega arith)) (
              rw e (
                rw (slice_ok bytes 4 (4 + n) (omega arith) (omega arith)) (
                  rw k (
                    rw (drop-put_uint32 order n tail)
                      (rw (take-append o.text (zeros ++ rest)))))))))))

-- What a successful decode consumed, the padding aside, lies within the bytes that it was given.
abbrev pub Fits : List ℕ → OctetString → Type 0
Fits bytes o = 4 + length o.text ≤ length bytes

pub unmarshal-Fits :
    (bytes : List ℕ) (order : ByteOrder)
    → length bytes < 2 ^ 32
    → Ensures (Fits bytes) (unmarshal_binary_order bytes order)
unfolding unmarshal_binary_order
unmarshal-Fits bytes order small = elim (Bool-cases (ltb (length bytes) 4)) [
  | inl short ↦ rw short tt
  | inr long ↦
      let (n, e) = uint32_total order bytes (omega tests) in
      rw (long, e)
        (elim (Bool-cases (ltb (length bytes - 4) n)) [
          | inl past ↦ rw past tt
          | inr within ↦
              let end : (4 + n) % 2 ^ 32 ≡ 4 + n = omega tests in
              rw (within, end)
                (rw (slice_ok bytes 4 (4 + n) (omega arith) (omega tests))
                  (omega (tests, length-take (4 + n - 4) (drop 4 bytes), length-drop 4 bytes)))
        ])
]
