-- ===== src/ListHandler.antt =====
-- list_handler.go and list_item.go. The mutex makes each operation one step. The item that `Add`
-- returns is a pointer into the map: a write through it is `update` at its key.
pub mod Lookup
pub mod Next
pub mod Register
pub mod Walk
use go_agentx.Prelude.{
  ℕ, Bool, true, false, not, ◌&&◌, ◌||◌, Option, none, some, List, [], ◌∷◌, ◌++◌, list_eq,
  if◌then◌else◌, Result, ok, ◌>>=◌,
}
use go_agentx.Oid.{Oid, compare_oids, sort_oids, must_parse_oid, to_string}
use go_agentx.Pdu.Variable.{GoValue, nil, type_no_such_object}
use go_agentx.Handler.{Answer, found, Context, Handler, SetRequest}
use Prim.Native.Nat.{Ordering}

pub record ListItem : Type 0 where
  pub type : ℕ
  pub value : GoValue

-- A Go map with string keys; the program never iterates over it.
abbrev pub Items : Type 0
Items = List (List ℕ × ListItem)

pub record ListHandler : Type 0 where
  pub oids : List Oid
  pub items : Items

abbrev pub empty : ListHandler
empty = record { oids = []; items = [] }

unfoldable pub lookup : List ℕ → Items → Option ListItem
lookup k [] = none
lookup k ((j, item) ∷ rest) = if list_eq j k then some item else lookup k rest

unfoldable pub put : List ℕ → ListItem → Items → Items
put k item [] = (k, item) ∷ []
put k item ((j, old) ∷ rest) = if list_eq j k then (k, item) ∷ rest else (j, old) ∷ put k item rest

-- `Set`, which never returns an error.
unfoldable pub set : ListHandler → Oid → ℕ → GoValue → ListHandler
set l oid t v = elim (lookup (to_string oid) l.items) [
  | none ↦ l
  | some item ↦ record l { items = put (to_string oid) (record { type = t; value = v }) l.items }
]

-- A write through the pointer that `Add` returned for the key.
unfoldable pub update : ListHandler → List ℕ → ListItem → ListHandler
update l key item = record l { items = put key item l.items }

-- `Add`: a panic on a text that is no OID.
unfoldable pub add : ListHandler → List ℕ → Result ListHandler
add l text = elim (lookup text l.items) [
  | some item ↦ ok l
  | none ↦ do
    oid ← must_parse_oid text
    ok (record {
      oids = sort_oids (l.oids ++ (oid ∷ []));
      items = put text (record { type = 0; value = nil }) l.items;
    })
]

unfoldable pub get : ListHandler → Oid → Answer
get l oid = elim (lookup (to_string oid) l.items) [
  | none ↦ found none type_no_such_object nil
  | some item ↦ found (some oid) item.type item.value
]

abbrev is_empty : Oid → Bool
is_empty [] = true
is_empty (x ∷ xs) = false

-- `oidWithin`
unfoldable pub oid_within : Oid → Oid → Bool → Oid → Bool
oid_within oid from include_from to =
    let below_to = is_empty to || elim (compare_oids to oid) [ Ordering.gt ↦ true | _ ↦ false ] in
    elim (compare_oids from oid) [
      | Ordering.gt ↦ false
      | Ordering.eq ↦ include_from && below_to
      | Ordering.lt ↦ below_to
    ]

-- The loop of `GetNext`: the first OID of the list that lies within the range.
unfoldable pub find_within : List Oid → Oid → Bool → Oid → Option Oid
find_within [] from include_from to = none
find_within (o ∷ os) from include_from to =
    if oid_within o from include_from to then some o else find_within os from include_from to

unfoldable pub get_next : ListHandler → Oid → Bool → Oid → Answer
get_next l from include_from to = elim (find_within l.oids from include_from to) [
  | none ↦ found none type_no_such_object nil
  | some oid ↦ get l oid
]

-- The list handler behind the interface: it reads no context and has one phase.
abbrev pub handler : Handler ListHandler
handler = record {
  get = λ ctx oid l. (get l oid, l);
  get_next = λ ctx from include_from to l. (get_next l from include_from to, l);
  set = λ ctx req l. (none, set l req.oid req.type req.value);
  two_phase = none;
}
