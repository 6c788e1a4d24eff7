-- ===== src/ListHandler/Register.antt =====
-- `Add`: what it keeps, and what is in the list and in the map after it.
pub mod Noncanonical
use go_agentx.Prelude.{
  ℕ, ◌≡◌, ◌≢◌, ◌⊎◌, ◌↔◌, Bool-cases, refl, sym, ap, ◌∙◌, list_eq→eq, Bool, true, false, Option,
  none, some, List, [], ◌∷◌, ◌++◌, if◌then◌else◌, arith, inl, inr, ok, Option-cases, list_eq,
  list_eq_iff, list_eq_refl,
}
use go_agentx.Oid.{Oid, is_less, insert_oid, sort_oids, parse_oid, must_parse_oid, to_string}
use go_agentx.Oid.Sort.{IsSorted, sort-IsSorted}
use go_agentx.Oid.Text.{IsOid, parse_oid-to_string}
use go_agentx.Oid.Order.{Precedes}
use go_agentx.Pdu.ObjectIdentifier
use go_agentx.Pdu.Range.{Range}
use go_agentx.Pdu.Response.{Response}
use go_agentx.Pdu.Variable
use go_agentx.Pdu.Variable.{nil, type_no_such_object, type_end_of_mib_view}
use go_agentx.Pdu.Variables
use go_agentx.Session.{ask_get_next, after_answer, search_loop, bindings}
use go_agentx.Handler.{Context, Answer, found}
use go_agentx.ListHandler.{
  handler, ListItem, ListHandler, lookup, put, add, get, find_within, get_next,
}
use go_agentx.ListHandler.Lookup.{to_string_injective, lookup-put, item_of, get-answer_of}
use go_agentx.ListHandler.Next.{In, IsFirst, IsValid, find_within-IsFirst}

In-placed :
    (t : Bool) (x a b : Oid) (bs rest : List Oid)
    → (In x rest → (x ≡ a) ⊎ In x bs)
    → In x (if t then b ∷ rest else a ∷ b ∷ bs)
    → (x ≡ a) ⊎ In x (b ∷ bs)
In-placed true x a b bs rest ih (inl e) = inr (inl e)
In-placed true x a b bs rest ih (inr j) = elim (ih j) [ inl e ↦ inl e | inr k ↦ inr (inr k) ]
In-placed false x a b bs rest ih i = i

In-insert : (x a : Oid) (bs : List Oid) → In x (insert_oid a bs) → (x ≡ a) ⊎ In x bs
unfolding insert_oid
In-insert x a [] i = i
In-insert x a (b ∷ bs) i = In-placed (is_less b a) x a b bs (insert_oid a bs) (In-insert x a bs) i

placed-In :
    (t : Bool) (x a b : Oid) (bs rest : List Oid)
    → ((x ≡ a) ⊎ In x bs → In x rest)
    → (x ≡ a) ⊎ In x (b ∷ bs)
    → In x (if t then b ∷ rest else a ∷ b ∷ bs)
placed-In true x a b bs rest ih (inl e) = inr (ih (inl e))
placed-In true x a b bs rest ih (inr (inl e)) = inl e
placed-In true x a b bs rest ih (inr (inr j)) = inr (ih (inr j))
placed-In false x a b bs rest ih i = i

insert-In : (x a : Oid) (bs : List Oid) → (x ≡ a) ⊎ In x bs → In x (insert_oid a bs)
unfolding insert_oid
insert-In x a [] i = i
insert-In x a (b ∷ bs) i = placed-In (is_less b a) x a b bs (insert_oid a bs) (insert-In x a bs) i

In-sort : (x : Oid) (os : List Oid) → In x (sort_oids os) → In x os
unfolding sort_oids
In-sort x [] i = i
In-sort x (a ∷ as') i = elim (In-insert x a (sort_oids as') i) [
  | inl e ↦ inl e
  | inr j ↦ inr (In-sort x as' j)
]

sort-In : (x : Oid) (os : List Oid) → In x os → In x (sort_oids os)
unfolding sort_oids
sort-In x [] i = i
sort-In x (a ∷ as') (inl e) = insert-In x a (sort_oids as') (inl e)
sort-In x (a ∷ as') (inr j) = insert-In x a (sort_oids as') (inr (sort-In x as' j))

In-snoc : (x a : Oid) (os : List Oid) → In x (os ++ (a ∷ [])) → In x os ⊎ (x ≡ a)
In-snoc x a [] (inl e) = inr e
In-snoc x a [] (inr j) = absurd j
In-snoc x a (o ∷ os) (inl e) = inl (inl e)
In-snoc x a (o ∷ os) (inr j) = elim (In-snoc x a os j) [ inl k ↦ inl (inr k) | inr e ↦ inr e ]

In-snoc_last : (a : Oid) (os : List Oid) → In a (os ++ (a ∷ []))
In-snoc_last a [] = inl refl
In-snoc_last a (o ∷ os) = inr (In-snoc_last a os)

abbrev blank : ListItem
blank = record { type = 0; value = nil }

-- The list handler after `Add` of a text that was not in it and reads as `o`.
abbrev pub added : ListHandler → List ℕ → Oid → ListHandler
added l text o = record { oids = sort_oids (l.oids ++ (o ∷ [])); items = put text blank l.items }

add_new :
    (l : ListHandler) (text : List ℕ) (o : Oid)
    → lookup text l.items ≡ none
    → parse_oid text ≡ ok o
    → add l text ≡ ok (added l text o)
unfolding add must_parse_oid
add_new l text o n e = rw (n, add) (rw (e, must_parse_oid))

add_old :
    (l : ListHandler) (text : List ℕ) (item : ListItem)
    → lookup text l.items ≡ some item
    → add l text ≡ ok l
unfolding add
add_old l text item e = rw (e, add)

item_of-added :
    (l : ListHandler) (text : List ℕ) (o p : Oid)
    → item_of (added l text o) p ≡ (if list_eq text (to_string p) then some blank else item_of l p)
item_of-added l text o p = lookup-put text (to_string p) blank l.items

blank-or :
    (t : Bool) (r : Option ListItem)
    → (t ≡ true) ⊎ ((i : ListItem) × (r ≡ some i))
    → (item : ListItem) × ((if t then some blank else r) ≡ some item)
blank-or true r h = (blank, refl)
blank-or false r (inl e) = absurd (cc)
blank-or false r (inr (i, e)) = (i, e)

added-IsValid : (l : ListHandler) (o : Oid) → IsValid l → IsValid (added l (to_string o) o)
added-IsValid l o v = record {
  sorted = sort-IsSorted (l.oids ++ (o ∷ []));
  items = λ p i. rw (item_of-added l (to_string o) o p) (
      blank-or (list_eq (to_string o) (to_string p)) (item_of l p)
        (elim (In-snoc p o l.oids (In-sort p (l.oids ++ (o ∷ [])) i)) [
          | inl j ↦ inr (v.items p j)
          | inr e ↦ inl (rw e (list_eq_refl (to_string o)))
        ]));
}

-- Each OID that has an item is in the list.
abbrev pub IsListed : ListHandler → Type 0
IsListed l =
    (y : ℕ) (ys : Oid) (item : ListItem)
    → IsOid (y ∷ ys)
    → item_of l (y ∷ ys) ≡ some item
    → In (y ∷ ys) l.oids

snoc-In : (x a : Oid) (os : List Oid) → In x os → In x (os ++ (a ∷ []))
snoc-In x a [] i = absurd i
snoc-In x a (o ∷ os) (inl e) = inl e
snoc-In x a (o ∷ os) (inr j) = inr (snoc-In x a os j)

added-In :
    (l : ListHandler) (text : List ℕ) (o p : Oid)
    → In p (added l text o).oids ↔ ((p ≡ o) ⊎ In p l.oids)
added-In l text o p = (
  λ i. elim (In-snoc p o l.oids (In-sort p (l.oids ++ (o ∷ [])) i)) [
    | inl j ↦ inr j
    | inr e ↦ inl e
  ],
  λ h.
      sort-In p (l.oids ++ (o ∷ []))
        (elim h [ inl e ↦ rw e (In-snoc_last o l.oids) | inr j ↦ snoc-In p o l.oids j ]),
)

added-IsListed :
    (l : ListHandler) (x : ℕ) (xs : Oid)
    → IsOid (x ∷ xs)
    → IsListed l
    → IsListed (added l (to_string (x ∷ xs)) (x ∷ xs))
added-IsListed l x xs w all y ys item wy e =
    elim (Bool-cases (list_eq (to_string (x ∷ xs)) (to_string (y ∷ ys)))) [
      | inl t ↦
          let same : x ∷ xs ≡ y ∷ ys =
            to_string_injective (x ∷ xs) (y ∷ ys) w wy (λ q. cc)
              (list_eq→eq (to_string (x ∷ xs)) (to_string (y ∷ ys)) t) (λ q. cc) in
          (added-In l (to_string (x ∷ xs)) (x ∷ xs) (y ∷ ys)).1 (inl (sym same))
      | inr t ↦ (added-In l (to_string (x ∷ xs)) (x ∷ xs) (y ∷ ys)).1 (
          inr (
            all y ys item wy
              (rw t at (sym (item_of-added l (to_string (x ∷ xs)) (x ∷ xs) (y ∷ ys)) ∙ e))))
    ]

-- Adding a non-empty OID in the text that `OID.String` gives it, once or again, to a handler whose list is
-- sorted, has an item for each OID, and has each OID with an item: it does not panic, keeps the three,
-- and the OIDs of the list are then those that were in it and the new one, which has an item.
pub add-IsValid :
    (l : ListHandler) (x : ℕ) (xs : Oid)
    → IsOid (x ∷ xs)
    → IsValid l
    → IsListed l
    → (l' : ListHandler) × (add l (to_string (x ∷ xs)) ≡ ok l')
      × IsValid l'
      × IsListed l'
      × ((p : Oid) → In p l'.oids ↔ ((p ≡ x ∷ xs) ⊎ In p l.oids))
      × (item : ListItem) × (item_of l' (x ∷ xs) ≡ some item)
add-IsValid l x xs w v all = elim (Option-cases (item_of l (x ∷ xs))) [
  | inr (item, e) ↦ (
    l,
    add_old l (to_string (x ∷ xs)) item e,
    v,
    all,
    (λ p. ((λ i. inr i), (λ h. elim h [ inl q ↦ rw q (all x xs item w e) | inr i ↦ i ]))),
    item,
    e,
  )
  | inl n ↦ (
    added l (to_string (x ∷ xs)) (x ∷ xs),
    add_new l (to_string (x ∷ xs)) (x ∷ xs) n (parse_oid-to_string x xs w),
    added-IsValid l (x ∷ xs) v,
    added-IsListed l x xs w all,
    added-In l (to_string (x ∷ xs)) (x ∷ xs),
    blank,
    rw (item_of-added l (to_string (x ∷ xs)) (x ∷ xs) (x ∷ xs), list_eq_refl (to_string (x ∷ xs)))
        refl,
  )
]
