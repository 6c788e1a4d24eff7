-- ===== src/ListHandler/Lookup.antt =====
-- What `Get` answers after `Add` and `Set`.
use go_agentx.Prelude.{
  ℕ, ◌≡◌, ◌≢◌, refl, sym, Option, none, some, List, [], ◌∷◌, list_eq, list_eq→eq, list_eq_refl,
  list_eq_iff, if◌then◌else◌, arith, Bool-cases, inl, inr,
}
use go_agentx.Oid.{Oid, to_string}
use go_agentx.Oid.Text.{IsOid, parse_oid-to_string}
use go_agentx.Pdu.Variable.{GoValue, nil, type_no_such_object}
use go_agentx.Handler.{Answer, found}
use go_agentx.ListHandler.{ListItem, Items, ListHandler, lookup, put, set, get}

pub lookup-put :
    (k j : List ℕ) (item : ListItem) (m : Items)
    → lookup j (put k item m) ≡ (if list_eq k j then some item else lookup j m)
unfolding lookup put
lookup-put k j item [] = refl
lookup-put k j item ((i, old) ∷ m) =
    ground (arith, list_eq_iff k j, list_eq_iff i k, list_eq_iff i j, lookup-put k j item m)

-- Two OIDs with the same text are one, the empty one aside.
pub to_string_injective :
    (o p : Oid) → IsOid o → IsOid p → o ≢ [] → to_string o ≡ to_string p → p ≢ [] → o ≡ p
to_string_injective [] p wo wp ho e hp = absurd (ho refl)
to_string_injective (x ∷ xs) [] wo wp ho e hp = absurd (hp refl)
to_string_injective (x ∷ xs) (y ∷ ys) wo wp ho e hp =
    cc (parse_oid-to_string x xs wo, parse_oid-to_string y ys wp, e)

-- The item of an OID.
abbrev pub item_of : ListHandler → Oid → Option ListItem
item_of l o = lookup (to_string o) l.items

abbrev pub answer_of : Oid → Option ListItem → Answer
answer_of o none = found none type_no_such_object nil
answer_of o (some item) = found (some o) item.type item.value

pub get-answer_of : (l : ListHandler) (o : Oid) → get l o ≡ answer_of o (item_of l o)
unfolding get
get-answer_of l o = ground arith

-- `Set` writes the item of an OID that is in the list, and of no other OID.
abbrev pub written : ListItem → Option ListItem → Option ListItem
written item none = none
written item (some old) = some item

pub item_of-set :
    (l : ListHandler) (o p : Oid) (t : ℕ) (v : GoValue)
    → item_of (set l o t v) p ≡ (
        if list_eq (to_string o) (to_string p)
        then written (record { type = t; value = v }) (item_of l o)
        else item_of l p)
unfolding set
item_of-set l o p t v = ground (
  arith,
  list_eq_iff (to_string o) (to_string p),
  lookup-put (to_string o) (to_string p) (record { type = t; value = v }) l.items,
)

-- After a Set, a Get of the same OID answers with the type and the value that were set if the OID is
-- in the list, and with no name if it is not. A Get of any other OID answers as before the Set.
pub get-set :
    (l : ListHandler) (o p : Oid) (t : ℕ) (v : GoValue)
    → IsOid o
    → IsOid p
    → o ≢ []
    → p ≢ []
    → (get (set l o t v) o ≡ answer_of o (written (record { type = t; value = v }) (item_of l o)))
      × (o ≢ p → get (set l o t v) p ≡ get l p)
get-set l o p t v wo wp ho hp = (
  rw (get-answer_of, item_of-set l o o t v, list_eq_refl (to_string o)) refl,
  λ ne. elim (Bool-cases (list_eq (to_string o) (to_string p))) [
    | inl same ↦
        absurd
          (ne (to_string_injective o p wo wp ho (list_eq→eq (to_string o) (to_string p) same) hp))
    | inr apart ↦ rw (get-answer_of, item_of-set l o p t v, apart) (sym (get-answer_of l p))
  ],
)
