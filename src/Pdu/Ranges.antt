-- ===== src/Pdu/Ranges.antt =====
-- pdu/ranges.go: the SearchRangeList, which is also the whole payload of Get and GetNext.
use go_agentx.Prelude.{
  ℕ, ◌+◌, ◌<◌, ◌≡◌, List, map, Result, ok, ◌>>=◌, arith, length, All, Ensures, >>=-Ensures, ◌++◌,
}
use go_agentx.Prelude.Words.{ByteOrder, little}
use go_agentx.Pdu.Sequence.{
  decode_all, decode_all-Ensures, decode_all-concat, marshal_all, marshal_all-concat, concat_map,
}
use go_agentx.Pdu.ObjectIdentifier
use go_agentx.Pdu.Range
use go_agentx.Pdu.Range.{Range}
use go_agentx.Pdu.Range.Wire

unfoldable pub marshal_binary : List Range → Result (List ℕ)
marshal_binary rs = marshal_all Range.marshal_binary rs

-- One round: a range, and by how much `offset` moves on.
unfoldable pub unmarshal_item : ByteOrder → List ℕ → Result (Range × ℕ)
unmarshal_item order bytes = do
  range ← Range.unmarshal_binary_order bytes order
  ok (range, Range.byte_size range)

-- Each round takes eight bytes at least, so that `len(data)` rounds are enough.
unfoldable pub unmarshal_binary_order : List ℕ → ByteOrder → Result (List Range)
unmarshal_binary_order bytes order = decode_all (unmarshal_item order) (length bytes) bytes

byte_size_pos : (r : Range) → 0 < Range.byte_size r
unfolding ObjectIdentifier.byte_size
byte_size_pos r = omega arith

unmarshal_item-Ensures :
    (order : ByteOrder) (bytes : List ℕ) → Ensures (λ r. 0 < r.1) (unmarshal_item order bytes)
unfolding unmarshal_item
unmarshal_item-Ensures order bytes =
    >>=-Ensures (Wire.Fits bytes) (λ (r : Range × ℕ). 0 < r.1)
      (Range.unmarshal_binary_order bytes order) (λ range. ok (range, Range.byte_size range))
      (Wire.unmarshal-Fits bytes order) (λ r _ _. byte_size_pos r)

-- On any bytes of any length the decoder returns ranges or an error: no panic, and the loop ends.
pub unmarshal_ranges-Ensures :
    (bytes : List ℕ) (order : ByteOrder) → Ensures (λ _. Unit) (unmarshal_binary_order bytes order)
unfolding unmarshal_binary_order
unmarshal_ranges-Ensures bytes order =
    decode_all-Ensures (unmarshal_item order) (length bytes + 1)
      (λ bs _. unmarshal_item-Ensures order bs) (length bytes) bytes (omega arith) (omega arith)

-- The list in a byte order, as the encoder lays it out: ending OIDs are not inclusive.
unfoldable pub layout : ByteOrder → List Range → List ℕ
layout order rs = concat_map (λ r. Wire.layout order (Wire.exclusive r)) rs

unmarshal_item-layout :
    (order : ByteOrder) (r : Range) (rest : List ℕ)
    → Wire.IsWire r
    → unmarshal_item order (Wire.layout order r ++ rest) ≡ ok (r, length (Wire.layout order r))
unfolding unmarshal_item
unmarshal_item-layout order r rest w =
    rw (Wire.unmarshal-layout order r rest w) (rw (Wire.length-layout order r))

pub unmarshal-layout :
    (order : ByteOrder) (rs : List Range)
    → All Wire.IsWire rs
    → unmarshal_binary_order (layout order rs) order ≡ ok (map Wire.exclusive rs)
unfolding unmarshal_binary_order layout
unmarshal-layout order rs w =
    decode_all-concat (unmarshal_item order) (λ r. Wire.layout order (Wire.exclusive r))
      Wire.exclusive Wire.IsWire
      (λ r rest v. (
        unmarshal_item-layout order (Wire.exclusive r) rest (Wire.exclusive-IsWire r v),
        rw (Wire.length-layout order (Wire.exclusive r)) (byte_size_pos (Wire.exclusive r)),
      ))
      rs _ w (omega arith)

pub marshal-layout :
    (rs : List Range) → All Wire.IsWire rs → marshal_binary rs ≡ ok (layout little rs)
unfolding marshal_binary layout
marshal-layout rs w =
    marshal_all-concat Range.marshal_binary (λ r. Wire.layout little (Wire.exclusive r)) Wire.IsWire
      Wire.marshal-layout rs w

-- Search ranges within the limits of the wire are encoded, and the bytes are read back as the same
-- ranges, with the include field of every ending OID cleared.
pub ranges_roundtrip :
    (rs : List Range)
    → All Wire.IsWire rs
    → (bytes : List ℕ) × (marshal_binary rs ≡ ok bytes)
      × (unmarshal_binary_order bytes little ≡ ok (map Wire.exclusive rs))
ranges_roundtrip rs w = (layout little rs, marshal-layout rs w, unmarshal-layout little rs w)
