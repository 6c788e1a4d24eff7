-- ===== src/Marshaler.antt =====
-- marshaler/multi.go. An encoding.BinaryMarshaler is what its method MarshalBinary returns.
use go_agentx.Prelude.{
  ◌≡◌, refl, ap, ◌∙◌, sym, ℕ, List, [], ◌∷◌, ◌++◌, append_assoc, append-nil, map, Result, ok, err,
  crash, ◌>>=◌,
}
use go_agentx.Pdu.Sequence.{marshal_all}

-- `Multi.MarshalBinary`, with `result` as it is before the rounds that are left.
unfoldable pub marshal_from : List ℕ → List (Result (List ℕ)) → Result (List ℕ)
marshal_from result [] = ok result
marshal_from result (ok bytes ∷ more) = marshal_from (result ++ bytes) more
marshal_from result (err e ∷ more) = err e
marshal_from result (crash c ∷ more) = crash c

unfoldable pub marshal_binary : List (Result (List ℕ)) → Result (List ℕ)
marshal_binary m = marshal_from [] m

from_lem :
    {A : Type 0} (encode : A → Result (List ℕ)) (done : List ℕ) (xs : List A)
    → marshal_from done (map encode xs) ≡ (do bytes ← marshal_all encode xs; ok (done ++ bytes))
unfolding marshal_from marshal_all
from_lem encode done [] = ap ok (sym (append-nil done))
from_lem encode done (x ∷ xs) = item (encode x) (λ bytes. from_lem encode (done ++ bytes) xs)
  where
    rest :
        (bytes : List ℕ) (r : Result (List ℕ))
        → (do more ← r; ok ((done ++ bytes) ++ more))
          ≡ (do whole ← (do more ← r; ok (bytes ++ more)); ok (done ++ whole))
    rest bytes (ok more) = ap ok (append_assoc done bytes more)
    rest bytes (err e) = refl
    rest bytes (crash c) = refl

    item :
        (r : Result (List ℕ))
        → ((bytes : List ℕ)
            → marshal_from (done ++ bytes) (map encode xs)
              ≡ (do more ← marshal_all encode xs; ok ((done ++ bytes) ++ more)))
        → marshal_from done (r ∷ map encode xs) ≡ (do
          whole ← (do bytes ← r; more ← marshal_all encode xs; ok (bytes ++ more))
          ok (done ++ whole))
    item (ok bytes) ih = ih bytes ∙ rest bytes (marshal_all encode xs)
    item (err e) ih = refl
    item (crash c) ih = refl

-- A Multi of the encodings of items is encoded as the lists of items of the package pdu are.
pub marshal_binary-map :
    {A : Type 0} (encode : A → Result (List ℕ)) (xs : List A)
    → marshal_binary (map encode xs) ≡ marshal_all encode xs
unfolding marshal_binary
marshal_binary-map encode xs = from_lem encode [] xs ∙ same (marshal_all encode xs)
  where
    same : (r : Result (List ℕ)) → (do bytes ← r; ok ([] ++ bytes)) ≡ r
    same (ok bytes) = refl
    same (err e) = refl
    same (crash c) = refl
