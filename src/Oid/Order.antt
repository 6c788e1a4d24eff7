-- ===== src/Oid/Order.antt =====
-- `CompareOIDs` against the lexicographic order, given independently of the code.
use go_agentx.Prelude.{◌<◌, ◌≡◌, refl, ◌↔◌, ◌⊎◌, inl, inr, [], ◌∷◌, arith}
use go_agentx.Oid.{Oid, compare_oids}
use Prim.Native.Nat.{Ordering}

-- The order of RFC 2741: a proper prefix comes first, else the first difference decides.
abbrev pub Precedes : Oid → Oid → Type 0
Precedes [] [] = ⊥
Precedes [] (y ∷ ys) = Unit
Precedes (x ∷ xs) [] = ⊥
Precedes (x ∷ xs) (y ∷ ys) = (x < y) ⊎ ((x ≡ y) × Precedes xs ys)

-- `CompareOIDs` is negative exactly where the first OID comes before the second in the
-- lexicographic order of the sub-identifiers.
pub compare_lt : (a b : Oid) → (compare_oids a b ≡ Ordering.lt) ↔ Precedes a b
unfolding compare_oids
compare_lt [] [] = ground arith
compare_lt [] (y ∷ ys) = ground arith
compare_lt (x ∷ xs) [] = ground arith
compare_lt (x ∷ xs) (y ∷ ys) = ground (arith, compare_lt xs ys)

-- `CompareOIDs` is zero exactly on equal OIDs.
pub compare_eq : (a b : Oid) → (compare_oids a b ≡ Ordering.eq) ↔ (a ≡ b)
unfolding compare_oids
compare_eq [] [] = ground arith
compare_eq [] (y ∷ ys) = ground arith
compare_eq (x ∷ xs) [] = ground arith
compare_eq (x ∷ xs) (y ∷ ys) = ground (arith, compare_eq xs ys)

-- `CompareOIDs` is positive exactly where the second OID comes before the first in the
-- lexicographic order of the sub-identifiers.
pub compare_gt : (a b : Oid) → (compare_oids a b ≡ Ordering.gt) ↔ Precedes b a
unfolding compare_oids
compare_gt [] [] = ground arith
compare_gt [] (y ∷ ys) = ground arith
compare_gt (x ∷ xs) [] = ground arith
compare_gt (x ∷ xs) (y ∷ ys) = ground (arith, compare_gt xs ys)

pub Precedes-irrefl : (a : Oid) → ¬ Precedes a a
Precedes-irrefl [] h = h
Precedes-irrefl (x ∷ xs) (inl h) = absurd (omega arith)
Precedes-irrefl (x ∷ xs) (inr h) = Precedes-irrefl xs h.1

pub Precedes-trans : (a b c : Oid) → Precedes a b → Precedes b c → Precedes a c
Precedes-trans [] [] c h k = absurd h
Precedes-trans [] (y ∷ ys) [] h k = absurd k
Precedes-trans [] (y ∷ ys) (z ∷ zs) h k = tt
Precedes-trans (x ∷ xs) [] c h k = absurd h
Precedes-trans (x ∷ xs) (y ∷ ys) [] h k = absurd k
Precedes-trans (x ∷ xs) (y ∷ ys) (z ∷ zs) h k = ground (arith, Precedes-trans xs ys zs)

-- One of the three holds.
pub Precedes-cases : (a b : Oid) → Precedes a b ⊎ (a ≡ b) ⊎ Precedes b a
Precedes-cases a b =
    elim (compare_oids a b) as (λ o. compare_oids a b ≡ o → Precedes a b ⊎ (a ≡ b) ⊎ Precedes b a) [
      | Ordering.lt ↦ λ e. inl ((compare_lt a b).0 e)
      | Ordering.eq ↦ λ e. inr (inl ((compare_eq a b).0 e))
      | Ordering.gt ↦ λ e. inr (inr ((compare_gt a b).0 e))
    ]
      refl
