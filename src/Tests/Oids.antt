-- ===== src/Tests/Oids.antt =====
-- OIDs and the list handler at concrete inputs.
use go_agentx.Prelude.{
  ◌⊎◌, ◌↔◌, Bool-cases, sym, ◌∙◌, list_eq→eq, Option, ℕ, ◌≡◌, ◌≢◌, refl, true, false, none, some,
  List, [], ◌∷◌, arith, ok, inl, inr, list_eq,
}
use go_agentx.Oid.{
  Oid, parse_oid, to_string, decimals, decimal, digits_onto, join, parse_parts, parse_uint,
  parse_digits, split,
}
use go_agentx.Oid.Text.{IsOid, parse_oid-to_string}
use go_agentx.Oid.Numerals.{ReadsAs, parse_oid-ReadsAs}
use go_agentx.Pdu.ObjectIdentifier
use go_agentx.Pdu.Range.{Range}
use go_agentx.Pdu.Variable
use go_agentx.Session.{bindings}
use go_agentx.Pdu.Variable.{int32, nil, type_no_such_object, type_end_of_mib_view}
use go_agentx.Prelude.Int.{pos}
use go_agentx.Handler.{Context, found}
use go_agentx.ListHandler.{ListHandler, ListItem, empty, set, get, add, lookup}
use go_agentx.ListHandler.Lookup.{to_string_injective, get-set, item_of, answer_of, written}
use go_agentx.ListHandler.Walk.{Visits, walk, walk-Visits}
use go_agentx.ListHandler.Next.{In, IsValid}
use go_agentx.ListHandler.Register.{IsListed, add-IsValid}
use go_agentx.ListHandler.Register.Noncanonical.{next_response, add_noncanonical}

abbrev pub short_oid : Oid
short_oid = 1 ∷ 3 ∷ []

abbrev long_oid : Oid
long_oid = 1 ∷ 3 ∷ 6 ∷ []

-- "1.03"
abbrev zero_padded : List ℕ
zero_padded = 49 ∷ 46 ∷ 48 ∷ 51 ∷ []

-- "1.3"
abbrev canonical : List ℕ
canonical = 49 ∷ 46 ∷ 51 ∷ []

abbrev pub one_item : ListHandler
one_item = record {
  oids = short_oid ∷ [];
  items = (canonical, record { type = 2; value = int32 (pos 7) }) ∷ [];
}

one_item-item : item_of one_item short_oid ≡ some (record { type = 2; value = int32 (pos 7) })
unfolding lookup to_string decimals decimal digits_onto join list_eq
one_item-item = refl

short_oid-IsOid : IsOid short_oid
short_oid-IsOid = (omega arith, (omega arith, tt))

long_oid-IsOid : IsOid long_oid
long_oid-IsOid = (omega arith, (omega arith, (omega arith, tt)))

pub one_item-IsValid : IsValid one_item
unfolding lookup to_string
one_item-IsValid = record {
  sorted = (tt, tt);
  items = λ o i. elim i [
    | inl e ↦ rw e (record { type = 2; value = int32 (pos 7) }, one_item-item)
    | inr j ↦ absurd j
  ];
}

parse_oid-to_string_example : parse_oid (to_string short_oid) ≡ ok short_oid
parse_oid-to_string_example = parse_oid-to_string 1 (3 ∷ []) short_oid-IsOid

parse_oid-ReadsAs_example : ReadsAs (split zero_padded) (parse_oid zero_padded)
parse_oid-ReadsAs_example = parse_oid-ReadsAs zero_padded

get-set_example :
    (get (set one_item short_oid 2 (int32 (pos 8))) short_oid
      ≡ answer_of short_oid
          (written (record { type = 2; value = int32 (pos 8) }) (item_of one_item short_oid)))
    × (short_oid ≢ long_oid
        → get (set one_item short_oid 2 (int32 (pos 8))) long_oid ≡ get one_item long_oid)
get-set_example =
    get-set one_item short_oid long_oid 2 (int32 (pos 8)) short_oid-IsOid long_oid-IsOid (λ e. cc)
      (λ e. cc)

walk-Visits_example : Visits one_item [] false [] (walk 2 one_item [] false [])
walk-Visits_example = walk-Visits one_item [] false [] 2 one_item-IsValid (omega arith)

canonical-text : canonical ≡ to_string short_oid
unfolding to_string decimals decimal digits_onto join
canonical-text = refl

one_item-IsListed : IsListed one_item
unfolding lookup
one_item-IsListed y ys item w e = elim (Bool-cases (list_eq canonical (to_string (y ∷ ys)))) [
  | inl t ↦ inl (
      sym (
        to_string_injective short_oid (y ∷ ys) short_oid-IsOid w (λ q. cc)
          (sym canonical-text ∙ list_eq→eq canonical (to_string (y ∷ ys)) t) (λ q. cc)))
  | inr t ↦ let nothing : ◌≡◌ {A = Option ListItem} none (some item) = rw t at e in cc
]

add-IsValid_example :
    (l' : ListHandler) × (add one_item (to_string long_oid) ≡ ok l')
    × IsValid l'
    × IsListed l'
    × ((p : Oid) → In p l'.oids ↔ ((p ≡ long_oid) ⊎ In p one_item.oids))
    × (item : ListItem) × (item_of l' long_oid ≡ some item)
add-IsValid_example =
    add-IsValid one_item 1 (3 ∷ 6 ∷ []) long_oid-IsOid one_item-IsValid one_item-IsListed

zero_padded-short_oid : parse_oid zero_padded ≡ ok short_oid
unfolding parse_oid parse_parts parse_uint parse_digits split
zero_padded-short_oid = refl

zero_padded-ne : zero_padded ≢ to_string short_oid
unfolding to_string decimals decimal digits_onto join
zero_padded-ne e = cc

no_item : item_of empty short_oid ≡ none
unfolding lookup
no_item = refl

no_text : lookup zero_padded empty.items ≡ none
unfolding lookup
no_text = refl

-- From 1.3 on, itself included.
abbrev from_short : Range
from_short = record {
  from = record { prefix = 0; include = 1; subidentifiers = short_oid };
  to = ObjectIdentifier.empty;
}

abbrev some_context : Context
some_context = record { session_id = 5; transaction_id = 6; packet_id = 7 }

from_short-included : ObjectIdentifier.get_include from_short.from ≡ true
unfolding ObjectIdentifier.get_include
from_short-included = refl

add_noncanonical_example :
    (l' : ListHandler) × (add empty zero_padded ≡ ok l')
    × In short_oid l'.oids
    × (get l' short_oid ≡ found none type_no_such_object nil)
    × (next_response some_context from_short l'
        ≡ bindings (Variable.new_variable short_oid type_end_of_mib_view nil ∷ []))
unfolding ObjectIdentifier.get_identifier
add_noncanonical_example =
    add_noncanonical empty zero_padded short_oid some_context from_short zero_padded-short_oid
      zero_padded-ne no_item no_text refl from_short-included (inl refl)
