-- ===== src/ListHandler/Walk.antt =====
-- A walk over a list handler: GetNext from the OID of each answer on, as a manager does it.
use go_agentx.Prelude.{
  ℕ, zero, suc, ◌≤◌, ◌<◌, ◌≡◌, ◌↔◌, ◌⊎◌, sym, Bool, true, false, none, some, List, [], ◌∷◌, arith,
  length, Bool-cases, inl, inr, if◌then◌else◌,
}
use go_agentx.Oid.{Oid}
use go_agentx.Oid.Order.{Precedes, Precedes-irrefl, Precedes-trans, Precedes-cases}
use go_agentx.Handler.{Answer, found, failed}
use go_agentx.ListHandler.{ListHandler, oid_within, get_next}
use go_agentx.ListHandler.Next.{
  InRange, oid_within-InRange, In, IsLeast, IsValid, IsNextAnswer, get_next_least,
}

-- The OIDs of the answers: each request begins behind the last of them, up to an answer with no name.
abbrev walked : (Oid → List Oid) → Answer → List Oid
walked next (found (some o) t v) = o ∷ next o
walked next (found none t v) = []
walked next (failed e) = []

unfoldable pub walk : ℕ → ListHandler → Oid → Bool → Oid → List Oid
walk zero l from include_from to = []
walk (suc n) l from include_from to =
    walked (λ o. walk n l o false to) (get_next l from include_from to)

abbrev pub Ascends : List Oid → Type 0
Ascends [] = Unit
Ascends (o ∷ os) = ((p : Oid) → In p os → Precedes o p) × Ascends os

narrows :
    (from : Oid) (include_from : Bool) (to o p : Oid)
    → InRange from include_from to o
    → InRange o false to p
    → InRange from include_from to p
narrows from include_from to o p (inl a, b) (inl c, d) = (inl (Precedes-trans from o p a c), d)
narrows from include_from to o p (inr (i, e), b) (inl c, d) = (inl (rw e c), d)
narrows from include_from to o p r (inr (i, e), d) = let bad : false ≡ true = i in cc

-- How many entries lie in the range.
unfoldable count : List Oid → Oid → Bool → Oid → ℕ
count [] from include_from to = 0
count (o ∷ os) from include_from to =
    let n = count os from include_from to in if oid_within o from include_from to then suc n else n

count_bound : (os : List Oid) (from : Oid) (i : Bool) (to : Oid) → count os from i to ≤ length os
unfolding count
count_bound [] from i to = omega arith
count_bound (o ∷ os) from i to = ground (arith, count_bound os from i to)

module _ (from : Oid) (include_from : Bool) (to o : Oid) (r : InRange from include_from to o) where
  within_narrows :
      (p : Oid) → oid_within p o false to ≡ true → oid_within p from include_from to ≡ true
  within_narrows p e =
      (oid_within-InRange p from include_from to).1
        (narrows from include_from to o p r ((oid_within-InRange p o false to).0 e))

  count_le : (os : List Oid) → count os o false to ≤ count os from include_from to
  unfolding count
  count_le [] = omega arith
  count_le (p ∷ os) = ground (arith, count_le os, within_narrows p)

  own_false : oid_within o o false to ≡ false
  own_false = elim (Bool-cases (oid_within o o false to)) [
    | inl e ↦ elim ((oid_within-InRange o o false to).0 e).0 [
      | inl p ↦ absurd (Precedes-irrefl o p)
      | inr (i, x) ↦ let bad : false ≡ true = i in cc
    ]
    | inr e ↦ e
  ]

  count_lt : (os : List Oid) → In o os → count os o false to < count os from include_from to
  unfolding count
  count_lt [] i = absurd i
  count_lt (p ∷ os) (inl e) =
      let own = own_false in
      let outer = (oid_within-InRange o from include_from to).1 r in
      rw (← e, own, outer) (omega (arith, count_le os))
  count_lt (p ∷ os) (inr i) = ground (arith, count_lt os i, within_narrows p)

-- The OIDs of a walk are in strictly ascending order and are exactly those of the list in the range.
abbrev pub Visits : ListHandler → Oid → Bool → Oid → List Oid → Type 0
Visits l from include_from to os =
    Ascends os × ((p : Oid) → In p os ↔ (In p l.oids × InRange from include_from to p))

behind :
    (from : Oid) (i : Bool) (to o p : Oid)
    → InRange from i to p
    → ¬ Precedes p o
    → (p ≡ o) ⊎ InRange o false to p
behind from i to o p r h = elim (Precedes-cases o p) [
  | inl a ↦ inr (inl a, r.1)
  | inr (inl e) ↦ inl (sym e)
  | inr (inr b) ↦ absurd (h b)
]

visited :
    (l : ListHandler) (from : Oid) (i : Bool) (to o : Oid) (os : List Oid)
    → IsLeast from i to l.oids o
    → Visits l o false to os
    → Visits l from i to (o ∷ os)
visited l from i to o os (m, r, least) (asc, iff) = (
  (λ p j. after p ((iff p).0 j).1.0, asc),
  λ p. (
    (λ j. elim j [
      | inl e ↦ rw e (m, r)
      | inr k ↦ (((iff p).0 k).0, narrows from i to o p r ((iff p).0 k).1)
    ]),
    (λ (k, q). elim (behind from i to o p q (least p k q)) [
      | inl e ↦ inl e
      | inr s ↦ inr ((iff p).1 (k, s))
    ]),
  ),
)
  where
    after : (p : Oid) → Precedes o p ⊎ ((false ≡ true) × (o ≡ p)) → Precedes o p
    after p (inl a) = a
    after p (inr (b, e)) = cc

walk-count :
    (n : ℕ) (l : ListHandler) (from : Oid) (i : Bool) (to : Oid)
    → IsValid l
    → count l.oids from i to < n
    → Visits l from i to (walk n l from i to)
unfolding walk
walk-count zero l from i to v b = absurd (omega arith)
walk-count (suc n) l from i to v b =
    step (get_next l from i to) (get_next_least l from i to v)
      (λ o m r. walk-count n l o false to v (omega (arith, count_lt from i to o r l.oids m)))
  where
    step :
        (a : Answer)
        → IsNextAnswer l from i to a
        → ((o : Oid)
            → In o l.oids
            → InRange from i to o
            → Visits l o false to (walk n l o false to))
        → Visits l from i to (walked (λ o. walk n l o false to) a)
    step (found (some o) t w) (least, e) ih = visited l from i to o _ least (ih o least.0 least.1)
    step (found none t w) h ih = (tt, λ p. ((λ j. absurd j), (λ (k, q). absurd (h p k q))))
    step (failed e) h ih = absurd h

-- A walk of a valid list by GetNext, from the OID of each answer on and with one request more than the
-- list has entries, gives in strictly ascending order exactly the OIDs of the list in the range.
pub walk-Visits :
    (l : ListHandler) (from : Oid) (include_from : Bool) (to : Oid) (n : ℕ)
    → IsValid l
    → length l.oids < n
    → Visits l from include_from to (walk n l from include_from to)
walk-Visits l from i to n v b =
    walk-count n l from i to v (omega (arith, count_bound l.oids from i to))
