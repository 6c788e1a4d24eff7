-- ===== src/ListHandler/Next.antt =====
-- `GetNext` answers with the least OID of the range, as an SNMP walk needs.
use go_agentx.Prelude.{
  ◌≡◌, ◌↔◌, ◌⊎◌, refl, Bool, true, Option, none, some, List, [], ◌∷◌, arith, Bool-cases, inl, inr,
}
use go_agentx.Oid.{Oid}
use go_agentx.Oid.Order.{Precedes, compare_lt, compare_eq, compare_gt, Precedes-irrefl}
use go_agentx.Oid.Sort.{IsSorted, AllNotAfter}
use go_agentx.Pdu.Variable.{nil, type_no_such_object}
use go_agentx.Handler.{Answer, found, failed}
use go_agentx.ListHandler.{ListItem, ListHandler, get, oid_within, find_within, get_next}
use go_agentx.ListHandler.Lookup.{item_of, get-answer_of}

-- The range [from, to) of RFC 2741 5.2, or (from, to); an empty `to` is no bound.
abbrev pub InRange : Oid → Bool → Oid → Oid → Type 0
InRange from include_from to o =
    (Precedes from o ⊎ ((include_from ≡ true) × (from ≡ o))) × ((to ≡ []) ⊎ Precedes o to)

-- `oidWithin` accepts exactly the OIDs from `from` on, `from` itself only if it is included, and
-- before `to` if that is not empty.
pub oid_within-InRange :
    (o from : Oid) (include_from : Bool) (to : Oid)
    → (oid_within o from include_from to ≡ true) ↔ InRange from include_from to o
unfolding oid_within
oid_within-InRange o from include_from [] =
    ground (arith, compare_lt from o, compare_eq from o, compare_gt from o, Precedes-irrefl o)
oid_within-InRange o from include_from (t ∷ ts) = ground (
  arith,
  compare_lt from o,
  compare_eq from o,
  compare_gt from o,
  compare_gt (t ∷ ts) o,
  Precedes-irrefl o,
)

abbrev pub In : Oid → List Oid → Type 0
In a [] = ⊥
In a (b ∷ bs) = (a ≡ b) ⊎ In a bs

module _ (from : Oid) (include_from : Bool) (to : Oid) where
  -- `o` is the least entry of the range.
  abbrev pub IsLeast : List Oid → Oid → Type 0
  IsLeast os o =
      In o os
      × InRange from include_from to o
      × ((p : Oid) → In p os → InRange from include_from to p → ¬ Precedes p o)

  abbrev pub HasNoneIn : List Oid → Type 0
  HasNoneIn os = (p : Oid) → In p os → ¬ InRange from include_from to p

  abbrev pub IsFirst : List Oid → Option Oid → Type 0
  IsFirst os none = HasNoneIn os
  IsFirst os (some o) = IsLeast os o

  not_after : (o p : Oid) (os : List Oid) → AllNotAfter o os → In p os → ¬ Precedes p o
  not_after o p [] a i = absurd i
  not_after o p (q ∷ qs) a (inl e) = rw e a.0
  not_after o p (q ∷ qs) a (inr i) = not_after o p qs a.1 i

  IsFirst-cons :
      (o : Oid) (os : List Oid) (r : Option Oid)
      → ¬ InRange from include_from to o
      → IsFirst os r
      → IsFirst (o ∷ os) r
  IsFirst-cons o os none out f = λ p i h. elim i [ inl e ↦ out (rw e at h) | inr j ↦ f p j h ]
  IsFirst-cons o os (some q) out f =
      (inr f.0, f.1, λ p i h. elim i [ inl e ↦ absurd (out (rw e at h)) | inr j ↦ f.2 p j h ])

  pub find_within-IsFirst :
      (os : List Oid) → IsSorted os → IsFirst os (find_within os from include_from to)
  unfolding find_within
  find_within-IsFirst [] s = λ p i. absurd i
  find_within-IsFirst (o ∷ os) s = elim (Bool-cases (oid_within o from include_from to)) [
    | inl yes' ↦ rw yes' (
      inl refl,
      (oid_within-InRange o from include_from to).0 yes',
      λ p i h. elim i [ inl e ↦ rw e (Precedes-irrefl o) | inr j ↦ not_after o p os s.0 j ],
    )
    | inr no' ↦ rw no' (
        IsFirst-cons o os _ (λ h. cc (no', (oid_within-InRange o from include_from to).1 h))
          (find_within-IsFirst os s.1))
  ]

-- The OIDs are in ascending order, and each has an item under its own text.
pub record IsValid (l : ListHandler) : Type 0 where
  pub sorted : IsSorted l.oids
  pub items : (o : Oid) → In o l.oids → (item : ListItem) × (item_of l o ≡ some item)

-- What a walk needs: the least OID of the range with its item, or none if the range has none.
abbrev pub IsNextAnswer : ListHandler → Oid → Bool → Oid → Answer → Type 0
IsNextAnswer l from include_from to (found (some o) t v) =
    IsLeast from include_from to l.oids o × (item_of l o ≡ some (record { type = t; value = v }))
IsNextAnswer l from include_from to (found none t v) = HasNoneIn from include_from to l.oids
IsNextAnswer l from include_from to (failed e) = ⊥

found-IsNextAnswer :
    (l : ListHandler) (from : Oid) (include_from : Bool) (to : Oid) (r : Option Oid)
    → IsValid l
    → IsFirst from include_from to l.oids r
    → IsNextAnswer l from include_from to
        (elim r [ none ↦ found none type_no_such_object nil | some oid ↦ get l oid ])
found-IsNextAnswer l from include_from to none v f = f
found-IsNextAnswer l from include_from to (some o) v f =
    let (item, e) = v.items o f.0 in rw (get-answer_of, e) (f, e)

-- In a valid list GetNext answers with the least OID of the range and its item, and with no name
-- exactly where the list has no OID in the range.
pub get_next_least :
    (l : ListHandler) (from : Oid) (include_from : Bool) (to : Oid)
    → IsValid l
    → IsNextAnswer l from include_from to (get_next l from include_from to)
unfolding get_next
get_next_least l from include_from to v =
    found-IsNextAnswer l from include_from to (find_within l.oids from include_from to) v
      (find_within-IsFirst from include_from to l.oids v.sorted)
