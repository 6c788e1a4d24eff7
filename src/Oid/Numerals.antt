-- ===== src/Oid/Numerals.antt =====
-- `ParseOID` on any text: which texts it accepts, and as what.
use go_agentx.Prelude.{
  ℕ, ◌+◌, ◌-◌, ◌*◌, ◌%◌, ◌^◌, ◌≤◌, ◌<◌, ◌≡◌, refl, List, [], ◌∷◌, arith, tests, ltb, leb, ◌&&◌,
  Bool-cases, inl, inr, All, Result, ok, err, crash, ◌>>=◌,
}
use go_agentx.Oid.{Oid, split, parse_digits, parse_uint, parse_parts, parse_oid}

abbrev pub IsDigit : ℕ → Type 0
IsDigit c = (b'0' ≤ c) × (c ≤ b'9')

-- The number that decimal digits write, behind the digits of `n`.
abbrev pub value_from : ℕ → List ℕ → ℕ
value_from n [] = n
value_from n (c ∷ cs) = value_from (n * 10 + (c - b'0')) cs

-- One digit or more, which write a number of 32 bits.
abbrev pub IsNumeralOf : List ℕ → ℕ → Type 0
IsNumeralOf [] x = ⊥
IsNumeralOf (c ∷ cs) x = All IsDigit (c ∷ cs) × (value_from 0 (c ∷ cs) ≡ x) × (x < 2 ^ 32)

abbrev pub AreNumeralsOf : List (List ℕ) → Oid → Type 0
AreNumeralsOf [] [] = Unit
AreNumeralsOf [] (x ∷ xs) = ⊥
AreNumeralsOf (p ∷ ps) [] = ⊥
AreNumeralsOf (p ∷ ps) (x ∷ xs) = IsNumeralOf p x × AreNumeralsOf ps xs

-- An OID with these numerals, or an error where there is none.
abbrev pub ReadsAs : List (List ℕ) → Result Oid → Type 0
ReadsAs ps (ok o) = AreNumeralsOf ps o
ReadsAs ps (err e) = (o : Oid) → ¬ AreNumeralsOf ps o
ReadsAs ps (crash c) = ⊥

value_from-le : (n : ℕ) (cs : List ℕ) → n ≤ value_from n cs
value_from-le n [] = omega arith
value_from-le n (c ∷ cs) = omega (arith, value_from-le (n * 10 + (c - b'0')) cs)

abbrev ReadsDigits : ℕ → List ℕ → Result ℕ → Type 0
ReadsDigits n cs (ok x) = All IsDigit cs × (value_from n cs ≡ x) × (x < 2 ^ 32)
ReadsDigits n cs (err e) = All IsDigit cs → value_from n cs < 2 ^ 32 → ⊥
ReadsDigits n cs (crash c) = ⊥

more-ReadsDigits :
    (n c : ℕ) (cs : List ℕ) (r : Result ℕ)
    → IsDigit c
    → ReadsDigits (n * 10 + (c - b'0')) cs r
    → ReadsDigits n (c ∷ cs) r
more-ReadsDigits n c cs (ok x) d (a, e, l) = ((d, a), e, l)
more-ReadsDigits n c cs (err e) d never = λ a l. never a.1 l
more-ReadsDigits n c cs (crash x) d never = never

parse_digits-ReadsDigits : (n : ℕ) (cs : List ℕ) → n < 2 ^ 32 → ReadsDigits n cs (parse_digits n cs)
unfolding parse_digits
parse_digits-ReadsDigits n [] l = (tt, refl, l)
parse_digits-ReadsDigits n (c ∷ cs) l = elim (Bool-cases (leb b'0' c && leb c b'9')) [
  | inr e ↦ rw e (λ a k. ground (arith, a.0))
  | inl e ↦ rw e (elim (Bool-cases (ltb (n * 10 + (c - b'0')) (2 ^ 32))) [
    | inr over ↦ rw over (λ a k. absurd (omega (tests, value_from-le (n * 10 + (c - b'0')) cs)))
    | inl fits ↦ rw fits (
        more-ReadsDigits n c cs _ (ground arith)
          (parse_digits-ReadsDigits (n * 10 + (c - b'0')) cs (omega tests)))
  ])
]

abbrev ReadsPart : List ℕ → Result ℕ → Type 0
ReadsPart p (ok x) = IsNumeralOf p x
ReadsPart p (err e) = (x : ℕ) → ¬ IsNumeralOf p x
ReadsPart p (crash c) = ⊥

part-of-digits :
    (c : ℕ) (cs : List ℕ) (r : Result ℕ) → ReadsDigits 0 (c ∷ cs) r → ReadsPart (c ∷ cs) r
part-of-digits c cs (ok x) d = d
part-of-digits c cs (err e) never = λ x (a, v, l). never a (omega (arith, v))
part-of-digits c cs (crash x) never = never

parse_uint-ReadsPart : (p : List ℕ) → ReadsPart p (parse_uint p)
unfolding parse_uint
parse_uint-ReadsPart [] = λ x n. n
parse_uint-ReadsPart (c ∷ cs) =
    part-of-digits c cs _ (parse_digits-ReadsDigits 0 (c ∷ cs) (omega arith))

IsNumeralOf-small : (p : List ℕ) (x : ℕ) → IsNumeralOf p x → x % 2 ^ 32 ≡ x
IsNumeralOf-small [] x n = absurd n
IsNumeralOf-small (c ∷ cs) x n = omega (arith, n.2)

both-ReadsAs :
    (p : List ℕ) (ps : List (List ℕ)) (r : Result ℕ) (rest : Result Oid)
    → ReadsPart p r
    → ReadsAs ps rest
    → ReadsAs (p ∷ ps) (r >>= (λ x. rest >>= (λ xs. ok (x % 2 ^ 32 ∷ xs))))
both-ReadsAs p ps (ok x) (ok xs) a b = (rw (IsNumeralOf-small p x a) a, b)
both-ReadsAs p ps (ok x) (err e) a b = nothing
  where
    nothing : (o : Oid) → ¬ AreNumeralsOf (p ∷ ps) o
    nothing [] n = n
    nothing (y ∷ ys) n = b ys n.1
both-ReadsAs p ps (ok x) (crash c) a b = b
both-ReadsAs p ps (err e) rest a b = nothing
  where
    nothing : (o : Oid) → ¬ AreNumeralsOf (p ∷ ps) o
    nothing [] n = n
    nothing (y ∷ ys) n = a y n.0
both-ReadsAs p ps (crash c) rest a b = a

parse_parts-ReadsAs : (ps : List (List ℕ)) → ReadsAs ps (parse_parts ps)
unfolding parse_parts
parse_parts-ReadsAs [] = tt
parse_parts-ReadsAs (p ∷ ps) =
    both-ReadsAs p ps (parse_uint p) (parse_parts ps) (parse_uint-ReadsPart p)
      (parse_parts-ReadsAs ps)

-- On any text ParseOID returns an OID exactly where each part of the text between the dots is one decimal
-- digit or more that write a number below 2 ^ 32, and then the OID of these numbers. Otherwise it returns
-- an error, and never panics.
pub parse_oid-ReadsAs : (text : List ℕ) → ReadsAs (split text) (parse_oid text)
unfolding parse_oid
parse_oid-ReadsAs text = parse_parts-ReadsAs (split text)
