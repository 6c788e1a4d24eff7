-- ===== src/Pdu/ObjectIdentifier.antt =====
-- pdu/object_identifier.go
pub mod Wire
use go_agentx.Prelude.{
  ℕ, zero, suc, ◌+◌, ◌*◌, ◌%◌, Bool, List, [], ◌∷◌, ◌++◌, ltb, not, ◌==◌, if◌then◌else◌, length,
  drop, Result, ok, err, ◌>>=◌, byte_at, slice_from, short_buffer, too_many_subidentifiers,
}
use go_agentx.Prelude.Words.{ByteOrder, little, put_uint32, read_uint32}
use go_agentx.Oid.{Oid}

abbrev pub max_subidentifiers : ℕ
max_subidentifiers = 128

pub record ObjectIdentifier : Type 0 where
  pub prefix : ℕ
  pub include : ℕ
  pub subidentifiers : List ℕ

-- The zero value of the struct.
abbrev pub empty : ObjectIdentifier
empty = record { prefix = 0; include = 0; subidentifiers = [] }

unfoldable pub set_include : Bool → ObjectIdentifier → ObjectIdentifier
set_include value o = if value then record o { include = 1 } else record o { include = 0 }

unfoldable pub get_include : ObjectIdentifier → Bool
get_include o = not (o.include == 0)

unfoldable pub set_identifier : Oid → ObjectIdentifier → ObjectIdentifier
set_identifier oid o = record o { subidentifiers = oid }

-- A prefix byte stands for 1.3.6.1.prefix.
unfoldable pub get_identifier : ObjectIdentifier → Oid
get_identifier o =
    if o.prefix == 0 then o.subidentifiers else (1 ∷ 3 ∷ 6 ∷ 1 ∷ o.prefix ∷ []) ++ o.subidentifiers

unfoldable pub byte_size : ObjectIdentifier → ℕ
byte_size o = 4 + length o.subidentifiers * 4

-- The loop of `MarshalBinary`, which writes `binary.LittleEndian`, in either byte order.
unfoldable pub subidentifier_bytes : ByteOrder → List ℕ → List ℕ
subidentifier_bytes order [] = []
subidentifier_bytes order (x ∷ xs) = put_uint32 order x ++ subidentifier_bytes order xs

unfoldable pub marshal_binary : ObjectIdentifier → Result (List ℕ)
marshal_binary o =
    if ltb max_subidentifiers (length o.subidentifiers)
    then err too_many_subidentifiers
    else ok (
        (length o.subidentifiers % 256)
        ∷ o.prefix
        ∷ o.include
        ∷ 0
        ∷ subidentifier_bytes little o.subidentifiers)

-- `for index := 0; index < count; index++` reads `data[4+index*4:]`: the slice moves on by four
-- bytes a round.
unfoldable pub read_subidentifiers : ByteOrder → ℕ → List ℕ → Result (List ℕ)
read_subidentifiers order zero bytes = ok []
read_subidentifiers order (suc count) bytes = do
  (x, rest) ← read_uint32 order bytes
  xs ← read_subidentifiers order count rest
  ok (x ∷ xs)

unfoldable pub unmarshal_binary_order : List ℕ → ByteOrder → Result ObjectIdentifier
unmarshal_binary_order bytes order = if ltb (length bytes) 4 then err short_buffer else do
  count ← byte_at bytes 0
  if ltb max_subidentifiers count
      then err too_many_subidentifiers
      else if ltb (length bytes) (4 + count * 4)
      then err short_buffer
      else do
        prefix ← byte_at bytes 1
        include ← byte_at bytes 2
        rest ← slice_from bytes 4
        subidentifiers ← read_subidentifiers order count rest
        ok (record { prefix = prefix; include = include; subidentifiers = subidentifiers })

-- `UnmarshalBinary`.
abbrev pub unmarshal_binary : List ℕ → Result ObjectIdentifier
unmarshal_binary bytes = unmarshal_binary_order bytes little
