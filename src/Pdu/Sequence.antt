-- ===== src/Pdu/Sequence.antt =====
-- The loop that Ranges and Variables share: encoded items one after the other up to the end of the
-- payload, `for offset := 0; offset < len(data); offset += size`.
use go_agentx.Prelude.{
  ℕ, zero, suc, ◌+◌, ◌-◌, ◌≤◌, ◌<◌, ◌≡◌, refl, List, [], ◌∷◌, ◌++◌, arith, length, drop,
  length-drop, length-append, Result, ok, crash, out_of_fuel, ◌>>=◌, Ensures, >>=-Ensures,
  drop-append, map, All,
}

module _ {ℓ} {A : Type ℓ} (item : List ℕ → Result (A × ℕ)) where
  -- The list is `data[offset:]`, and it is empty as soon as `offset` is not below `len(data)`.
  unfoldable pub decode_all : ℕ → List ℕ → Result (List A)
  decode_all fuel [] = ok []
  decode_all zero (b ∷ bs) = crash out_of_fuel
  decode_all (suc fuel) (b ∷ bs) = do
    (a, size) ← item (b ∷ bs)
    more ← decode_all fuel (drop size (b ∷ bs))
    ok (a ∷ more)

  -- An item that never crashes and takes a byte at least leaves fuel for the rest.
  pub decode_all-Ensures :
      (bound : ℕ)
      → ((bs : List ℕ) → length bs < bound → Ensures (λ r. 0 < r.1) (item bs))
      → (fuel : ℕ) (bs : List ℕ) → length bs ≤ fuel
      → length bs < bound
      → Ensures (λ _. Unit) (decode_all fuel bs)
  unfolding decode_all
  decode_all-Ensures bound step fuel [] h k = tt
  decode_all-Ensures bound step zero (b ∷ bs) h k = absurd (omega arith)
  decode_all-Ensures bound step (suc fuel) (b ∷ bs) h k =
      >>=-Ensures (λ r. 0 < r.1) (λ _. Unit) (item (b ∷ bs)) _ (step (b ∷ bs) k)
        λ r pos e.
          let rest : List ℕ = drop r.1 (b ∷ bs) in
          let l : length rest ≡ suc (length bs) - r.1 = length-drop r.1 (b ∷ bs) in
          >>=-Ensures (λ _. Unit) (λ _. Unit) (decode_all fuel rest) _
            (decode_all-Ensures bound step fuel rest (omega arith) (omega arith)) (λ _ _ _. tt)

module _ {ℓ} {A : Type ℓ} where
  -- The encodings of the items, one after the other.
  unfoldable pub concat_map {κ} : {B : Type κ} → (B → List A) → List B → List A
  concat_map f [] = []
  concat_map f (x ∷ xs) = f x ++ concat_map f xs

-- One round of the loop on an item that takes exactly the bytes `front`.
decode_all-step {ℓ} :
    {A : Type ℓ} (item : List ℕ → Result (A × ℕ)) (front rest : List ℕ) (fuel : ℕ) (a : A)
    {as' : List A}
    → item (front ++ rest) ≡ ok (a, length front)
    → 0 < length front
    → 0 < fuel
    → decode_all item (fuel - 1) rest ≡ ok as'
    → decode_all item fuel (front ++ rest) ≡ ok (a ∷ as')
unfolding decode_all
decode_all-step item [] rest fuel a e pos h d = absurd (omega arith)
decode_all-step item (b ∷ bs) rest zero a e pos h d = absurd (omega arith)
decode_all-step item (b ∷ bs) rest (suc fuel) a e pos h d =
    let s : suc fuel - 1 ≡ fuel = omega arith in
    let d' : decode_all item fuel rest ≡ ok _ = rw s at d in rw e (rw (drop-append bs rest) (rw d'))

-- If each item is read back from its encoding, whatever follows, then so is the list of them.
pub decode_all-concat {ℓ κ} :
    {A : Type ℓ} {B : Type κ} (item : List ℕ → Result (A × ℕ)) (encode : B → List ℕ) (view : B → A)
    (P : B → Type 0)
    → ((x : B) (rest : List ℕ)
        → P x
        → (item (encode x ++ rest) ≡ ok (view x, length (encode x))) × (0 < length (encode x)))
    → (xs : List B) (fuel : ℕ) → All P xs
    → length (concat_map encode xs) ≤ fuel
    → decode_all item fuel (concat_map encode xs) ≡ ok (map view xs)
unfolding concat_map
decode_all-concat item encode view P step [] fuel w h = unfold decode_all in refl
decode_all-concat item encode view P step (x ∷ xs) fuel w h =
    let rest : List ℕ = concat_map encode xs in
    let (e, pos) = step x rest w.0 in
    decode_all-step item (encode x) rest fuel (view x) e pos
      (omega (arith, length-append (encode x) rest))
      (decode_all-concat item encode view P step xs (fuel - 1) w.1
        (omega (arith, length-append (encode x) rest)))

-- The encoder's loop, `result = append(result, data...)`: the first item that cannot be encoded ends
-- it with its error.
unfoldable pub marshal_all {ℓ} : {A : Type ℓ} → (A → Result (List ℕ)) → List A → Result (List ℕ)
marshal_all marshal [] = ok []
marshal_all marshal (x ∷ xs) = do
  bytes ← marshal x
  more ← marshal_all marshal xs
  ok (bytes ++ more)

pub marshal_all-concat {ℓ} :
    {A : Type ℓ} (marshal : A → Result (List ℕ)) (encode : A → List ℕ) (P : A → Type 0)
    → ((x : A) → P x → marshal x ≡ ok (encode x))
    → (xs : List A) → All P xs
    → marshal_all marshal xs ≡ ok (concat_map encode xs)
unfolding marshal_all concat_map
marshal_all-concat marshal encode P step [] w = refl
marshal_all-concat marshal encode P step (x ∷ xs) w =
    rw (step x w.0) (rw (marshal_all-concat marshal encode P step xs w.1))

-- If each item is encoded to bytes that are read back whatever follows, or refused, then so is the
-- list of them.
pub marshal_all-decode_all {κ} :
    {A : Type 0} {B : Type κ} (marshal : B → Result (List ℕ)) (item : List ℕ → Result (A × ℕ))
    (view : B → A) (P : B → Type 0)
    → ((x : B)
        → P x
        → Ensures
            (λ bs. (0 < length bs) × ((rest : List ℕ) → item (bs ++ rest) ≡ ok (view x, length bs)))
            (marshal x))
    → (xs : List B) → All P xs
    → Ensures
        (λ bs. (fuel : ℕ) → length bs ≤ fuel → decode_all item fuel bs ≡ ok (map view xs))
        (marshal_all marshal xs)
unfolding marshal_all
marshal_all-decode_all marshal item view P step [] w = λ fuel h. unfold decode_all in refl
marshal_all-decode_all marshal item view P step (x ∷ xs) w =
    >>=-Ensures _ _ (marshal x) _ (step x w.0) λ front good _.
      >>=-Ensures _ _ (marshal_all marshal xs) _
        (marshal_all-decode_all marshal item view P step xs w.1)
        λ rest more _ fuel h.
          let l : length (front ++ rest) ≡ length front + length rest = length-append front rest in
          decode_all-step item front rest fuel (view x) (good.1 rest) good.0 (omega (arith, good.0))
            (more (fuel - 1) (omega (arith, good.0)))
