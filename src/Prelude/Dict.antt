-- ===== src/Prelude/Dict.antt =====
-- Maps with numbers as keys, as association lists, and functions of a number changed at one place.
use Prim.Native.Nat.{ℕ}
use mathlib.Core.Path.{◌≡◌, refl}
use mathlib.Core.Option.{Option, none, some}
use mathlib.Core.List.{List, [], ◌∷◌}
use native.Mathlib.Omega.{arith}
use go_agentx.Prelude.Tests.{◌==◌, if◌then◌else◌}

module _ {ℓ} {V : Type ℓ} where
  unfoldable pub find : ℕ → List (ℕ × V) → Option V
  find k [] = none
  find k ((j, v) ∷ m) = if j == k then some v else find k m

  unfoldable pub insert : ℕ → V → List (ℕ × V) → List (ℕ × V)
  insert k v [] = (k, v) ∷ []
  insert k v ((j, old) ∷ m) = if j == k then (k, v) ∷ m else (j, old) ∷ insert k v m

  unfoldable pub remove : ℕ → List (ℕ × V) → List (ℕ × V)
  remove k [] = []
  remove k ((j, old) ∷ m) = let kept = remove k m in if j == k then kept else (j, old) ∷ kept

  pub find-insert :
      (k i : ℕ) (v : V) (m : List (ℕ × V))
      → find i (insert k v m) ≡ (if k == i then some v else find i m)
  unfolding find insert
  find-insert k i v [] = refl
  find-insert k i v ((j, old) ∷ m) = ground (arith, find-insert k i v m)

  pub find-remove :
      (k i : ℕ) (m : List (ℕ × V)) → find i (remove k m) ≡ (if k == i then none else find i m)
  unfolding find remove
  find-remove k i [] = ground arith
  find-remove k i ((j, old) ∷ m) = ground (arith, find-remove k i m)

abbrev pub update {ℓ} : {A : Type ℓ} → (ℕ → A) → ℕ → A → ℕ → A
update f i a j = if i == j then a else f j
