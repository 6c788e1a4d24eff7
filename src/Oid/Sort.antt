-- ===== src/Oid/Sort.antt =====
-- `SortOIDs`: the same entries, in ascending order.
use go_agentx.Prelude.{◌≡◌, inl, inr, true, false, List, [], ◌∷◌, arith, Bool-cases}
use go_agentx.Oid.{Oid, is_less, insert_oid, sort_oids}
use go_agentx.Oid.Order.{Precedes, compare_lt, Precedes-irrefl, Precedes-trans, Precedes-cases}
use mathlib.Core.List.{Perm}
use mathlib.Core.List.Perm

-- In ascending order: no entry is followed by one that precedes it.
abbrev pub AllNotAfter : Oid → List Oid → Type 0
AllNotAfter a [] = Unit
AllNotAfter a (b ∷ bs) = (¬ Precedes b a) × AllNotAfter a bs

abbrev pub IsSorted : List Oid → Type 0
IsSorted [] = Unit
IsSorted (a ∷ as') = AllNotAfter a as' × IsSorted as'

is_less→Precedes : (a b : Oid) → is_less a b ≡ true → Precedes a b
is_less→Precedes a b h = ground (arith, compare_lt a b)

not_less→not_Precedes : (a b : Oid) → is_less a b ≡ false → ¬ Precedes a b
not_less→not_Precedes a b h p = ground (arith, compare_lt a b)

Precedes-asymm : (a b : Oid) → Precedes a b → ¬ Precedes b a
Precedes-asymm a b h k = Precedes-irrefl a (Precedes-trans a b a h k)

-- What does not come after `b` does not come after anything that `b` is not after.
not_after_trans : (a b c : Oid) → ¬ Precedes b a → ¬ Precedes c b → ¬ Precedes c a
not_after_trans a b c h k p = elim (Precedes-cases b c) [
  | inl q ↦ h (Precedes-trans b c a q p)
  | inr (inl e) ↦ h (rw e p)
  | inr (inr q) ↦ k q
]

AllNotAfter-trans :
    (a b : Oid) (cs : List Oid) → ¬ Precedes b a → AllNotAfter b cs → AllNotAfter a cs
AllNotAfter-trans a b [] h k = tt
AllNotAfter-trans a b (c ∷ cs) h k = (not_after_trans a b c h k.0, AllNotAfter-trans a b cs h k.1)

insert-AllNotAfter :
    (a b : Oid) (cs : List Oid)
    → ¬ Precedes b a
    → AllNotAfter a cs
    → AllNotAfter a (insert_oid b cs)
unfolding insert_oid
insert-AllNotAfter a b [] h k = (h, tt)
insert-AllNotAfter a b (c ∷ cs) h k = elim (Bool-cases (is_less c b)) [
  | inl e ↦ rw e (k.0, insert-AllNotAfter a b cs h k.1)
  | inr e ↦ rw e (h, k)
]

insert-IsSorted : (a : Oid) (bs : List Oid) → IsSorted bs → IsSorted (insert_oid a bs)
unfolding insert_oid
insert-IsSorted a [] h = (tt, tt)
insert-IsSorted a (b ∷ bs) h = elim (Bool-cases (is_less b a)) [
  | inl e ↦ rw e (
    insert-AllNotAfter b a bs (Precedes-asymm b a (is_less→Precedes b a e)) h.0,
    insert-IsSorted a bs h.1,
  )
  | inr e ↦
      let p : ¬ Precedes b a = not_less→not_Precedes b a e in
      rw e ((p, AllNotAfter-trans a b bs p h.0), h)
]

insert-perm : (a : Oid) (bs : List Oid) → Perm (insert_oid a bs) (a ∷ bs)
unfolding insert_oid
insert-perm a [] = Perm.refl (a ∷ [])
insert-perm a (b ∷ bs) = elim (Bool-cases (is_less b a)) [
  | inl e ↦ rw e (Perm.trans (Perm.cons b (insert-perm a bs)) (Perm.swap a b bs))
  | inr e ↦ rw e (Perm.refl (a ∷ b ∷ bs))
]

pub sort-IsSorted : (os : List Oid) → IsSorted (sort_oids os)
unfolding sort_oids
sort-IsSorted [] = tt
sort-IsSorted (a ∷ as') = insert-IsSorted a (sort_oids as') (sort-IsSorted as')

pub sort-perm : (os : List Oid) → Perm (sort_oids os) os
unfolding sort_oids
sort-perm [] = Perm.refl []
sort-perm (a ∷ as') = Perm.trans (insert-perm a (sort_oids as')) (Perm.cons a (sort-perm as'))

-- `SortOIDs` returns the entries that it was given, in ascending order.
pub sort_oids_lem : (os : List Oid) → IsSorted (sort_oids os) × Perm (sort_oids os) os
sort_oids_lem os = (sort-IsSorted os, sort-perm os)
