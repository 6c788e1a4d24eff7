-- ===== src/Pdu/Names/Distinct.antt =====
-- No two numbers have the same name.
use go_agentx.Prelude.{
  ℕ, ◌^◌, ◌<◌, ◌≡◌, refl, sym, ap, ◌∙◌, Bool, true, false, not, ◌&&◌, none, some, List, [], ◌∷◌,
  ◌++◌, ◌==◌, if◌then◌else◌, list_eq, list_eq_refl, Option-cases, inl, inr, ok, Result, arith,
}
use go_agentx.Prelude.Dict.{find}
use go_agentx.Prelude.Text.{codes}
use go_agentx.Prelude.Words.{IsU16, IsU32}
use go_agentx.Oid.{decimal, parse_digits}
use go_agentx.Oid.Text.{parse_digits-decimal}
use go_agentx.Pdu.Names.{
  Names, name_or_number, error_names, variable_type_names, reason_names, error_name,
  variable_type_name, reason_name,
}

-- Tests on a table that are run once for each: no name comes twice, and none begins like `unknown`.
absent : List ℕ → Names → Bool
absent name [] = true
absent name ((n, t) ∷ names) =
    let rest = absent name names in if list_eq t name then false else rest

distinct : Names → Bool
distinct [] = true
distinct ((n, t) ∷ names) = absent t names && distinct names

begins : List ℕ → List ℕ → Bool
begins [] t = true
begins (c ∷ cs) [] = false
begins (c ∷ cs) (d ∷ ds) = let rest = begins cs ds in if c == d then rest else false

none_begins : List ℕ → Names → Bool
none_begins unknown [] = true
none_begins unknown ((n, t) ∷ names) = not (begins unknown t) && none_begins unknown names

absent-find :
    (t : List ℕ) (names : Names) (n : ℕ) → absent t names ≡ true → find n names ≡ some t → ⊥
unfolding absent find
absent-find t [] n a e = cc
absent-find t ((j, u) ∷ names) n a e = ground (arith, absent-find t names n, list_eq_refl t)

distinct-find :
    (names : Names) (a b : ℕ) (t : List ℕ)
    → distinct names ≡ true
    → find a names ≡ some t
    → find b names ≡ some t
    → a ≡ b
unfolding distinct find
distinct-find [] a b t d e f = cc
distinct-find ((j, u) ∷ names) a b t d e f =
    ground (arith, distinct-find names a b t, absent-find t names a, absent-find t names b)

begins-append : (unknown rest : List ℕ) → begins unknown (unknown ++ rest) ≡ true
unfolding begins
begins-append [] rest = refl
begins-append (c ∷ cs) rest = ground (arith, begins-append cs rest)

none_begins-find :
    (unknown : List ℕ) (names : Names) (n : ℕ) (rest : List ℕ)
    → none_begins unknown names ≡ true
    → find n names ≡ some (unknown ++ rest)
    → ⊥
unfolding none_begins find
none_begins-find unknown [] n rest b e = cc
none_begins-find unknown ((j, u) ∷ names) n rest b e =
    ground (arith, none_begins-find unknown names n rest, begins-append unknown rest)

cancel_front : (front xs ys : List ℕ) → front ++ xs ≡ front ++ ys → xs ≡ ys
cancel_front [] xs ys e = e
cancel_front (c ∷ cs) xs ys e = cancel_front cs xs ys (cc)

cancel_last : (c : ℕ) (xs ys : List ℕ) → xs ++ (c ∷ []) ≡ ys ++ (c ∷ []) → xs ≡ ys
cancel_last c [] [] e = refl
cancel_last c [] (y ∷ []) e = cc
cancel_last c [] (y ∷ z ∷ ys) e = cc
cancel_last c (x ∷ []) [] e = cc
cancel_last c (x ∷ z ∷ xs) [] e = cc
cancel_last c (x ∷ xs) (y ∷ ys) e =
    let heads : x ≡ y = cc in let tails : xs ≡ ys = cancel_last c xs ys (cc) in cc

decimal_injective : (a b : ℕ) → IsU32 a → IsU32 b → decimal a ≡ decimal b → a ≡ b
decimal_injective a b wa wb e =
    let back : ◌≡◌ {A = Result ℕ} (ok a) (ok b) =
      sym (parse_digits-decimal a wa) ∙ ap (parse_digits 0) e ∙ parse_digits-decimal b wb in
    cc

module _ (names : Names) (unknown : List ℕ) (d : distinct names ≡ true)
    (u : none_begins unknown names ≡ true) where
  number_at : (a : ℕ) → List ℕ
  number_at a = unknown ++ (decimal a ++ (b')' ∷ []))

  of_name : (a : ℕ) (t : List ℕ) → find a names ≡ some t → name_or_number names unknown a ≡ t
  unfolding name_or_number
  of_name a t e = rw (e, name_or_number) refl

  of_number : (a : ℕ) → find a names ≡ none → name_or_number names unknown a ≡ number_at a
  unfolding name_or_number number_at
  of_number a e = rw (e, name_or_number) refl

  name_not_number : (a b : ℕ) (t : List ℕ) → find a names ≡ some t → t ≡ number_at b → ⊥
  unfolding number_at
  name_not_number a b t e f =
      none_begins-find unknown names a (decimal b ++ (b')' ∷ [])) u (rw f at e)

  name_injective :
      (a b : ℕ)
      → IsU32 a
      → IsU32 b
      → name_or_number names unknown a ≡ name_or_number names unknown b
      → a ≡ b
  unfolding number_at
  name_injective a b wa wb e = elim (Option-cases (find a names)) [
    | inl na ↦ elim (Option-cases (find b names)) [
      | inl nb ↦ decimal_injective a b wa wb (
          cancel_last b')' (decimal a) (decimal b)
            (cancel_front unknown _ _ (sym (of_number a na) ∙ e ∙ of_number b nb)))
      | inr (t, fb) ↦
          absurd (name_not_number b a t fb (sym (of_name b t fb) ∙ sym e ∙ of_number a na))
    ]
    | inr (s, fa) ↦ elim (Option-cases (find b names)) [
      | inl nb ↦ absurd (name_not_number a b s fa (sym (of_name a s fa) ∙ e ∙ of_number b nb))
      | inr (t, fb) ↦
          let same : t ≡ s = sym (of_name b t fb) ∙ sym e ∙ of_name a s fa in
          distinct-find names a b s d fa (rw same at fb)
    ]
  ]

-- Two errors, each a uint16, that have the same text are the same error.
pub error_name_injective : (a b : ℕ) → IsU16 a → IsU16 b → error_name a ≡ error_name b → a ≡ b
unfolding error_name distinct absent none_begins begins list_eq
error_name_injective a b wa wb e =
    name_injective error_names (codes "ErrorUnknown (") refl refl a b (omega arith) (omega arith) e

pub variable_type_name_injective :
    (a b : ℕ) → IsU16 a → IsU16 b → variable_type_name a ≡ variable_type_name b → a ≡ b
unfolding variable_type_name distinct absent none_begins begins list_eq
variable_type_name_injective a b wa wb e =
    name_injective variable_type_names (codes "VariableTypeUnknown (") refl refl a b (omega arith)
      (omega arith) e

pub reason_name_injective :
    (a b : ℕ) → a < 2 ^ 8 → b < 2 ^ 8 → reason_name a ≡ reason_name b → a ≡ b
unfolding reason_name distinct absent none_begins begins list_eq
reason_name_injective a b wa wb e =
    name_injective reason_names (codes "ReasonUnknown (") refl refl a b (omega arith) (omega arith)
      e
