-- ===== src/Pdu/Get.antt =====
-- pdu/get.go: a list of search ranges, and the deprecated accessors of the first.
use go_agentx.Prelude.{◌≡◌, refl, ℕ, List, [], ◌∷◌, ◌++◌, ◌==◌, if◌then◌else◌, Result}
use go_agentx.Prelude.Words.{ByteOrder, little}
use go_agentx.Oid.{Oid}
use go_agentx.Pdu.ObjectIdentifier
use go_agentx.Pdu.Range.{Range}
use go_agentx.Pdu.Ranges

unfoldable pub get_oid : List Range → Oid
get_oid [] = []
get_oid (r ∷ rs) = ObjectIdentifier.get_identifier r.from

unfoldable pub set_oid : Oid → List Range → List Range
set_oid oid [] =
    record {
      from = ObjectIdentifier.set_identifier oid ObjectIdentifier.empty;
      to = ObjectIdentifier.empty;
    }
    ∷ []
set_oid oid (r ∷ rs) = record r { from = ObjectIdentifier.set_identifier oid r.from } ∷ rs

abbrev pub marshal_binary : List Range → Result (List ℕ)
marshal_binary = Ranges.marshal_binary

abbrev pub unmarshal_binary_order : List ℕ → ByteOrder → Result (List Range)
unmarshal_binary_order = Ranges.unmarshal_binary_order

abbrev pub unmarshal_binary : List ℕ → Result (List Range)
unmarshal_binary bytes = unmarshal_binary_order bytes little

-- The prefix of the starting OID of the first range, which SetOID leaves as it is.
abbrev pub first_prefix : List Range → ℕ
first_prefix [] = 0
first_prefix (r ∷ rs) = r.from.prefix

-- After SetOID, GetOID gives the OID that was set if the first range has no prefix, and that OID
-- behind 1.3.6.1 and the prefix if the range has one, as a range that was decoded may.
pub get_oid-set_oid :
    (oid : Oid) (rs : List Range)
    → get_oid (set_oid oid rs)
      ≡ (if first_prefix rs == 0 then oid else (1 ∷ 3 ∷ 6 ∷ 1 ∷ first_prefix rs ∷ []) ++ oid)
unfolding get_oid set_oid ObjectIdentifier.get_identifier ObjectIdentifier.set_identifier
get_oid-set_oid oid [] = refl
get_oid-set_oid oid (r ∷ rs) = refl
