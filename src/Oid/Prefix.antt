-- ===== src/Oid/Prefix.antt =====
-- `CommonPrefix` and `First`.
use go_agentx.Prelude.{
  ℕ, zero, suc, ◌≡◌, refl, [], ◌∷◌, arith, ◌==◌, take, Bool-cases, inl, inr, ==_iff, true,
}
use go_agentx.Oid.{Oid, match_count, common_prefix}

-- `p` begins `o`.
abbrev pub IsPrefix : Oid → Oid → Type 0
IsPrefix [] o = Unit
IsPrefix (x ∷ xs) [] = ⊥
IsPrefix (x ∷ xs) (y ∷ ys) = (x ≡ y) × IsPrefix xs ys

take-IsPrefix : (n : ℕ) (o : Oid) → IsPrefix (take n o) o
take-IsPrefix zero o = tt
take-IsPrefix (suc n) [] = tt
take-IsPrefix (suc n) (x ∷ xs) = (refl, take-IsPrefix n xs)

common_prefix-other : (o other : Oid) → IsPrefix (common_prefix o other) other
unfolding common_prefix
common_prefix-other [] other = tt
common_prefix-other (x ∷ xs) [] = tt
common_prefix-other (x ∷ xs) (y ∷ ys) = elim (Bool-cases (x == y)) [
  | inl e ↦ rw e ((==_iff x y).0 e, common_prefix-other xs ys)
  | inr e ↦ rw e tt
]

common_prefix_greatest :
    (o other p : Oid) → IsPrefix p o → IsPrefix p other → IsPrefix p (common_prefix o other)
unfolding common_prefix
common_prefix_greatest o other [] h k = tt
common_prefix_greatest [] other (z ∷ zs) h k = h
common_prefix_greatest (x ∷ xs) [] (z ∷ zs) h k = absurd k
common_prefix_greatest (x ∷ xs) (y ∷ ys) (z ∷ zs) h k =
    let e : (x == y) ≡ true = ground arith in rw e (h.0, common_prefix_greatest xs ys zs h.1 k.1)

-- The result begins both OIDs, and whatever begins both begins the result.
pub common_prefix_lem :
    (o other : Oid)
    → IsPrefix (common_prefix o other) o
      × IsPrefix (common_prefix o other) other
      × ((p : Oid) → IsPrefix p o → IsPrefix p other → IsPrefix p (common_prefix o other))
common_prefix_lem o other = (
  unfold common_prefix in take-IsPrefix (match_count o other) o,
  common_prefix-other o other,
  common_prefix_greatest o other,
)
