-- ===== src/Oid/Text.antt =====
-- `ParseOID` reads back what `OID.String` writes.
use go_agentx.Prelude.{
  ℕ, zero, suc, ◌+◌, ◌-◌, ◌*◌, ◌/◌, ◌%◌, ◌^◌, ◌<◌, ◌≡◌, ◌≢◌, ◌∙◌, refl, ap, List, [], ◌∷◌, ◌++◌,
  arith, ltb, leb, ok, All, Bool-cases, inl, inr, tests, ◌&&◌, Ensures, >>=-Ensures,
}
use go_agentx.Prelude.Words.{IsU32}
use go_agentx.Oid.{
  Oid, dot, split, join, parse_digits, parse_uint, parse_parts, parse_oid, digits_onto, decimal,
  decimals, to_string,
}

-- Each sub-identifier is a uint32.
abbrev pub IsOid : Oid → Type 0
IsOid o = All IsU32 o

-- One digit is read as the value so far times ten and the digit.
parse_digits_step :
    (n d : ℕ) (cs : List ℕ)
    → d < 10
    → n * 10 + d < 2 ^ 32
    → parse_digits n ((b'0' + d) ∷ cs) ≡ parse_digits (n * 10 + d) cs
unfolding parse_digits
parse_digits_step n d cs h k =
    let e : n * 10 + (b'0' + d - b'0') ≡ n * 10 + d = omega arith in rw e (ground arith)

abbrev ten_to : ℕ → ℕ
ten_to zero = 1
ten_to (suc f) = 10 * ten_to f

parse_digits-onto :
    (f x : ℕ) (acc : List ℕ)
    → x < ten_to f
    → IsU32 x
    → parse_digits 0 (digits_onto f x acc) ≡ parse_digits x acc
unfolding digits_onto
parse_digits-onto zero x acc h w = ap (λ (n : ℕ). parse_digits n acc) (omega arith)
parse_digits-onto (suc f) x acc h w = elim (Bool-cases (ltb x 10)) [
  | inl e ↦ rw e (
      parse_digits_step 0 x acc (omega tests) (omega arith)
      ∙ ap (λ (n : ℕ). parse_digits n acc) (omega arith))
  | inr e ↦ rw e (
      parse_digits-onto f (x / 10) ((b'0' + x % 10) ∷ acc) (omega arith) (omega arith)
      ∙ parse_digits_step (x / 10) (x % 10) acc (omega arith) (omega arith)
      ∙ ap (λ (n : ℕ). parse_digits n acc) (omega arith))
]

-- No digit is the separator.
abbrev NoDot : List ℕ → Type 0
NoDot = All (λ c. c ≢ dot)

digits_onto-NoDot : (f x : ℕ) (acc : List ℕ) → NoDot acc → NoDot (digits_onto f x acc)
unfolding digits_onto
digits_onto-NoDot zero x acc h = h
digits_onto-NoDot (suc f) x acc h = elim (Bool-cases (ltb x 10)) [
  | inl e ↦ rw e (omega arith, h)
  | inr e ↦ rw e (digits_onto-NoDot f (x / 10) ((b'0' + x % 10) ∷ acc) (omega arith, h))
]

split-append : (p rest : List ℕ) → NoDot p → split (p ++ (dot ∷ rest)) ≡ p ∷ split rest
unfolding split
split-append [] rest h = refl
split-append (c ∷ cs) rest h = ground (arith, split-append cs rest h.1, h.0)

split_last : (p : List ℕ) → NoDot p → split p ≡ p ∷ []
unfolding split
split_last [] h = refl
split_last (c ∷ cs) h = ground (arith, split_last cs h.1, h.0)

abbrev NonEmpty : List ℕ → Type 0
NonEmpty [] = ⊥
NonEmpty (c ∷ cs) = Unit

digits_onto-NonEmpty : (f x c : ℕ) (acc : List ℕ) → NonEmpty (digits_onto f x (c ∷ acc))
unfolding digits_onto
digits_onto-NonEmpty zero x c acc = tt
digits_onto-NonEmpty (suc f) x c acc = elim (Bool-cases (ltb x 10)) [
  | inl e ↦ rw e tt
  | inr e ↦ rw e (digits_onto-NonEmpty f (x / 10) (b'0' + x % 10) (c ∷ acc))
]

decimal-NonEmpty : (x : ℕ) → NonEmpty (decimal x)
unfolding decimal digits_onto
decimal-NonEmpty x = elim (Bool-cases (ltb x 10)) [
  | inl e ↦ rw e tt
  | inr e ↦ rw e (digits_onto-NonEmpty 9 (x / 10) (b'0' + x % 10) [])
]

decimal-NoDot : (x : ℕ) → NoDot (decimal x)
unfolding decimal
decimal-NoDot x = digits_onto-NoDot 10 x [] tt

parse_uint-NonEmpty : (cs : List ℕ) → NonEmpty cs → parse_uint cs ≡ parse_digits 0 cs
unfolding parse_uint
parse_uint-NonEmpty [] h = absurd h
parse_uint-NonEmpty (c ∷ cs) h = refl

pub parse_digits-decimal : (x : ℕ) → IsU32 x → parse_digits 0 (decimal x) ≡ ok x
unfolding decimal parse_digits
parse_digits-decimal x w = parse_digits-onto 10 x [] (omega arith) w

parse_uint-decimal : (x : ℕ) → IsU32 x → parse_uint (decimal x) ≡ ok x
parse_uint-decimal x w =
    parse_uint-NonEmpty (decimal x) (decimal-NonEmpty x) ∙ parse_digits-decimal x w

split-join : (x : ℕ) (xs : Oid) → split (join (decimals (x ∷ xs))) ≡ decimals (x ∷ xs)
unfolding join decimals
split-join x [] = split_last (decimal x) (decimal-NoDot x)
split-join x (y ∷ ys) =
    split-append (decimal x) (join (decimals (y ∷ ys))) (decimal-NoDot x)
    ∙ ap (λ (ps : List (List ℕ)). decimal x ∷ ps) (split-join y ys)

parse_parts-decimals : (o : Oid) → IsOid o → parse_parts (decimals o) ≡ ok o
unfolding parse_parts decimals
parse_parts-decimals [] w = refl
parse_parts-decimals (x ∷ xs) w =
    let small : x % 2 ^ 32 ≡ x = omega arith in
    rw (parse_uint-decimal x w.0, parse_parts-decimals xs w.1) (ap (λ (y : ℕ). ok (y ∷ xs)) small)

-- A non-empty OID of 32-bit sub-identifiers is read back from its text.
pub parse_oid-to_string :
    (x : ℕ) (xs : Oid) → IsOid (x ∷ xs) → parse_oid (to_string (x ∷ xs)) ≡ ok (x ∷ xs)
unfolding parse_oid to_string
parse_oid-to_string x xs w = rw (split-join x xs) (parse_parts-decimals (x ∷ xs) w)

parse_digits-IsU32 : (n : ℕ) (cs : List ℕ) → IsU32 n → Ensures IsU32 (parse_digits n cs)
unfolding parse_digits
parse_digits-IsU32 n [] h = h
parse_digits-IsU32 n (c ∷ cs) h = elim (Bool-cases (leb b'0' c && leb c b'9')) [
  | inr e ↦ rw e tt
  | inl e ↦ rw e (elim (Bool-cases (ltb (n * 10 + (c - b'0')) (2 ^ 32))) [
    | inr over ↦ rw over tt
    | inl fits ↦ rw fits (parse_digits-IsU32 (n * 10 + (c - b'0')) cs (omega tests))
  ])
]

parse_uint-IsU32 : (cs : List ℕ) → Ensures IsU32 (parse_uint cs)
unfolding parse_uint
parse_uint-IsU32 [] = tt
parse_uint-IsU32 (c ∷ cs) = parse_digits-IsU32 0 (c ∷ cs) (omega arith)

parse_parts-IsOid : (ps : List (List ℕ)) → Ensures IsOid (parse_parts ps)
unfolding parse_parts
parse_parts-IsOid [] = tt
parse_parts-IsOid (p ∷ ps) = >>=-Ensures IsU32 IsOid (parse_uint p) _ (parse_uint-IsU32 p) λ x wx _.
    >>=-Ensures IsOid IsOid (parse_parts ps) (λ xs. ok (x % 2 ^ 32 ∷ xs)) (parse_parts-IsOid ps)
      (λ xs wxs _. (omega arith, wxs))

-- On any text `ParseOID` returns an OID of uint32s or an error.
pub parse_oid-IsOid : (text : List ℕ) → Ensures IsOid (parse_oid text)
unfolding parse_oid
parse_oid-IsOid text = parse_parts-IsOid (split text)
