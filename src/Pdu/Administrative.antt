-- ===== src/Pdu/Administrative.antt =====
-- pdu/open.go, close.go, register.go and unregister.go: what a subagent sends to administer a
-- session. Their decoders read little-endian only, since a subagent never receives them.
use go_agentx.Prelude.{
  ℕ, ◌+◌, ◌*◌, ◌/◌, ◌^◌, ◌≤◌, ◌<◌, ◌≡◌, sym, List, [], ◌∷◌, ◌++◌, ltb, ◌==◌, if◌then◌else◌, length,
  drop, Result, ok, err, ◌>>=◌, byte_at, slice_from, slice_from_ok, short_buffer, timeout_range,
  range_subid, arith, le→not_ltb, append-nil, drop-append_at, length-append,
}
use go_agentx.Prelude.Int.{ℤ, pos, negsuc}
use go_agentx.Prelude.Words.{little}
use go_agentx.Pdu.ObjectIdentifier
use go_agentx.Pdu.ObjectIdentifier.{ObjectIdentifier}
use go_agentx.Pdu.ObjectIdentifier.Wire as Oi
use go_agentx.Pdu.OctetString
use go_agentx.Pdu.OctetString.{OctetString}
use go_agentx.Pdu.OctetString.Wire as Os
use go_agentx.Pdu.Timeout
use go_agentx.Pdu.Timeout.{Timeout, second, max_timeout}

pub record Open : Type 0 where
  pub timeout : Timeout
  pub id : ObjectIdentifier
  pub description : OctetString

-- The test and the conversion of o.timeout.
unfoldable pub open_seconds : ℤ → Result ℕ
open_seconds (negsuc n) = err timeout_range
open_seconds (pos n) = if ltb max_timeout n then err timeout_range else ok (n / second)

unfoldable pub marshal_open : Open → Result (List ℕ)
marshal_open o = do
  seconds ← open_seconds o.timeout.duration
  id_bytes ← ObjectIdentifier.marshal_binary o.id
  ok ((seconds ∷ 0 ∷ 0 ∷ 0 ∷ id_bytes) ++ OctetString.marshal_binary o.description)

unfoldable pub unmarshal_open : List ℕ → Result Open
unmarshal_open bytes = if ltb (length bytes) 4 then err short_buffer else do
  seconds ← byte_at bytes 0
  rest ← slice_from bytes 4
  id ← ObjectIdentifier.unmarshal_binary rest
  rest' ← slice_from bytes (4 + ObjectIdentifier.byte_size id)
  description ← OctetString.unmarshal_binary rest'
  ok (record {
    timeout = record { duration = pos (seconds * second); priority = 0 };
    id = id;
    description = description;
  })

unfoldable pub marshal_close : ℕ → List ℕ
marshal_close reason = reason ∷ 0 ∷ 0 ∷ 0 ∷ []

unfoldable pub unmarshal_close : List ℕ → Result ℕ
unmarshal_close bytes = if ltb (length bytes) 4 then err short_buffer else byte_at bytes 0

-- Register and Unregister have the same fields.
pub record Registration : Type 0 where
  pub timeout : Timeout
  pub subtree : ObjectIdentifier

unfoldable pub marshal_register : Registration → Result (List ℕ)
marshal_register r = do
  timeout_bytes ← Timeout.marshal_binary r.timeout
  subtree_bytes ← ObjectIdentifier.marshal_binary r.subtree
  ok (timeout_bytes ++ subtree_bytes)

unfoldable pub unmarshal_register : List ℕ → Result Registration
unmarshal_register bytes = if ltb (length bytes) 4 then err short_buffer else do
  timeout ← Timeout.unmarshal_binary bytes
  range_subid' ← byte_at bytes 2
  rest ← slice_from bytes 4
  if range_subid' == 0
      then (do
        subtree ← ObjectIdentifier.unmarshal_binary rest
        ok (record { timeout = timeout; subtree = subtree }))
      else err range_subid

unfoldable pub marshal_unregister : Registration → Result (List ℕ)
marshal_unregister u = do
  subtree_bytes ← ObjectIdentifier.marshal_binary u.subtree
  ok (0 ∷ u.timeout.priority ∷ 0 ∷ 0 ∷ subtree_bytes)

unfoldable pub unmarshal_unregister : List ℕ → Result Registration
unmarshal_unregister bytes = if ltb (length bytes) 4 then err short_buffer else do
  priority ← byte_at bytes 1
  rest ← slice_from bytes 4
  subtree ← ObjectIdentifier.unmarshal_binary rest
  ok (record { timeout = record { duration = pos 0; priority = priority }; subtree = subtree })

seconds_of : (n : ℕ) → n ≤ max_timeout → open_seconds (pos n) ≡ ok (n / second)
unfolding open_seconds
seconds_of n h = ground arith

-- An Open with a timeout of 0 to 255 seconds, and an id and a description that fit the wire, is
-- encoded; it is read back with the timeout rounded down to seconds and no priority.
pub open_roundtrip :
    (n : ℕ) (o : Open)
    → o.timeout.duration ≡ pos n
    → n ≤ max_timeout
    → Oi.IsWire o.id
    → length o.description.text + 4 < 2 ^ 32
    → (bytes : List ℕ) × (marshal_open o ≡ ok bytes)
      × (unmarshal_open bytes
          ≡ ok (record o {
            timeout = record { duration = pos (n / second * second); priority = 0 };
          }))
unfolding marshal_open unmarshal_open byte_at
open_roundtrip n o d h w k =
    let id_bytes : List ℕ = Oi.layout little o.id in
    let text : List ℕ = Os.layout little o.description in
    let bytes : List ℕ = (n / second) ∷ 0 ∷ 0 ∷ 0 ∷ (id_bytes ++ text) in
    let sec : open_seconds o.timeout.duration ≡ ok (n / second) = rw d (seconds_of n h) in
    let ls : ObjectIdentifier.byte_size o.id ≡ length id_bytes =
      sym (Oi.length-layout little o.id) in
    let la : length (id_bytes ++ text) ≡ length id_bytes + length text =
      length-append id_bytes text in
    let skip : drop (4 + ObjectIdentifier.byte_size o.id) bytes ≡ text =
      drop-append_at (4 + ObjectIdentifier.byte_size o.id) ((n / second) ∷ 0 ∷ 0 ∷ 0 ∷ id_bytes)
        text (omega arith) in
    let back : OctetString.unmarshal_binary text ≡ ok o.description =
      rw append-nil at (Os.unmarshal-layout little o.description [] k) in
    (
      bytes,
      rw (sec, Oi.marshal-layout o.id w.count) (rw (Os.marshal-layout o.description (omega arith))),
      rw (le→not_ltb (length bytes) 4 (omega arith)) (
          rw (slice_from_ok bytes 4 (omega arith)) (
            rw (Oi.unmarshal-layout little o.id text w) (
              rw (slice_from_ok bytes (4 + ObjectIdentifier.byte_size o.id) (omega arith))
                (rw (skip, back))))),
    )

-- A Register with a timeout of 0 to 255 seconds and a subtree that fits the wire is encoded, and
-- read back with the timeout rounded down to seconds.
pub register_roundtrip :
    (n : ℕ) (r : Registration)
    → r.timeout.duration ≡ pos n
    → n ≤ max_timeout
    → Oi.IsWire r.subtree
    → (bytes : List ℕ) × (marshal_register r ≡ ok bytes)
      × (unmarshal_register bytes
          ≡ ok (record r {
            timeout = record {
              duration = pos (n / second * second);
              priority = r.timeout.priority;
            };
          }))
unfolding marshal_register unmarshal_register byte_at Timeout.marshal_binary
    Timeout.marshal_duration Timeout.unmarshal_binary
register_roundtrip n r d h w =
    let rest : List ℕ = Oi.layout little r.subtree in
    let bytes : List ℕ = (n / second) ∷ r.timeout.priority ∷ 0 ∷ 0 ∷ rest in
    let back : ObjectIdentifier.unmarshal_binary rest ≡ ok r.subtree =
      rw append-nil at (Oi.unmarshal-layout little r.subtree [] w) in
    (
      bytes,
      rw d (rw (le→not_ltb max_timeout n h) (rw (Oi.marshal-layout r.subtree w.count))),
      rw (le→not_ltb (length bytes) 4 (omega arith))
          (rw (slice_from_ok bytes 4 (omega arith)) (rw back)),
    )

-- An Unregister is encoded whatever its timeout, and read back with its priority and subtree.
pub unregister_roundtrip :
    (u : Registration)
    → Oi.IsWire u.subtree
    → (bytes : List ℕ) × (marshal_unregister u ≡ ok bytes)
      × (unmarshal_unregister bytes
          ≡ ok (record u { timeout = record { duration = pos 0; priority = u.timeout.priority } }))
unfolding marshal_unregister unmarshal_unregister byte_at
unregister_roundtrip u w =
    let rest : List ℕ = Oi.layout little u.subtree in
    let bytes : List ℕ = 0 ∷ u.timeout.priority ∷ 0 ∷ 0 ∷ rest in
    let back : ObjectIdentifier.unmarshal_binary rest ≡ ok u.subtree =
      rw append-nil at (Oi.unmarshal-layout little u.subtree [] w) in
    (
      bytes,
      rw (Oi.marshal-layout u.subtree w.count),
      rw (le→not_ltb (length bytes) 4 (omega arith))
          (rw (slice_from_ok bytes 4 (omega arith)) (rw back)),
    )
