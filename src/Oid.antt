-- ===== src/Oid.antt =====
-- value/oid.go. An OID is the list of its sub-identifiers, each a uint32; a nil slice and an empty
-- one are the same list, and what tells them apart (a handler's answer) is an `Option` there.
pub mod Order
pub mod Sort
pub mod Prefix
pub mod Text
pub mod Numerals
use go_agentx.Prelude.{
  ℕ, zero, suc, ◌+◌, ◌-◌, ◌*◌, ◌/◌, ◌%◌, ◌^◌, Bool, true, false, ◌&&◌, List, [], ◌∷◌, ◌++◌, ltb,
  leb, ◌==◌, if◌then◌else◌, take, Result, ok, err, crash, ◌>>=◌, length, Fault, parse_uint_failed,
  user_panic,
}
use go_agentx.Prelude.Int.{ℤ, pos, negsuc}
use Prim.Native.Nat.{Ordering, min}

abbrev pub Oid : Type 0
Oid = List ℕ

-- `CompareOIDs`: -1, 0 and +1 are `lt`, `eq` and `gt`. The index loop walks the two slices in step,
-- and the lengths decide where one of them ends.
unfoldable pub compare_oids : Oid → Oid → Ordering
compare_oids [] [] = Ordering.eq
compare_oids [] (y ∷ ys) = Ordering.lt
compare_oids (x ∷ xs) [] = Ordering.gt
compare_oids (x ∷ xs) (y ∷ ys) =
    let rest = compare_oids xs ys in
    if ltb x y then Ordering.lt else if ltb y x then Ordering.gt else rest

-- The less function that `SortOIDs` hands to `sort.Slice`.
abbrev pub is_less : Oid → Oid → Bool
is_less a b = elim (compare_oids a b) [ Ordering.lt ↦ true | _ ↦ false ]

-- `sort.Slice` with that function. Entries that compare equal are equal slices, so that every
-- sorting of the list is the same list, and the library's choice of algorithm is not observable.
unfoldable pub insert_oid : Oid → List Oid → List Oid
insert_oid a [] = a ∷ []
insert_oid a (b ∷ bs) = let rest = insert_oid a bs in if is_less b a then b ∷ rest else a ∷ b ∷ bs

unfoldable pub sort_oids : List Oid → List Oid
unfolding insert_oid
sort_oids [] = []
sort_oids (a ∷ as') = insert_oid a (sort_oids as')

-- `First`. A negative count gives nil, and one above the length the whole oid.
unfoldable pub first : Oid → ℤ → Oid
first o (negsuc n) = []
first o (pos n) = if ltb (length o) n then take (length o) o else take n o

-- The loop of `CommonPrefix`: the number of leading sub-identifiers that match.
unfoldable pub match_count : Oid → Oid → ℕ
match_count [] other = 0
match_count (x ∷ xs) [] = 0
match_count (x ∷ xs) (y ∷ ys) = let rest = match_count xs ys in if x == y then suc rest else 0

unfoldable pub common_prefix : Oid → Oid → Oid
unfolding match_count
common_prefix o other = take (match_count o other) o

-- `strings.Split(text, ".")` over the bytes of the text.
abbrev pub dot : ℕ
dot = b'.'

abbrev cons_head : ℕ → List (List ℕ) → List (List ℕ)
cons_head c [] = (c ∷ []) ∷ []
cons_head c (p ∷ ps) = (c ∷ p) ∷ ps

unfoldable pub split : List ℕ → List (List ℕ)
split [] = [] ∷ []
split (c ∷ cs) = let rest = split cs in if c == dot then [] ∷ rest else cons_head c rest

-- `strings.Join(parts, ".")`.
unfoldable pub join : List (List ℕ) → List ℕ
join [] = []
join (p ∷ []) = p
join (p ∷ q ∷ ps) = p ++ (dot ∷ join (q ∷ ps))

-- `strconv.ParseUint(part, 10, 32)`: at least one character, digits only, and a value of 32 bits.
unfoldable pub parse_digits : ℕ → List ℕ → Result ℕ
parse_digits n [] = ok n
parse_digits n (c ∷ cs) =
    let n' = n * 10 + (c - b'0') in
    let rest = parse_digits n' cs in
    if leb b'0' c && leb c b'9'
    then if ltb n' (2 ^ 32) then rest else err parse_uint_failed
    else err parse_uint_failed

unfoldable pub parse_uint : List ℕ → Result ℕ
parse_uint [] = err parse_uint_failed
parse_uint (c ∷ cs) = parse_digits 0 (c ∷ cs)

unfoldable pub parse_parts : List (List ℕ) → Result Oid
parse_parts [] = ok []
parse_parts (p ∷ ps) = do
  subidentifier ← parse_uint p
  rest ← parse_parts ps
  ok (subidentifier % 2 ^ 32 ∷ rest)

unfoldable pub parse_oid : List ℕ → Result Oid
parse_oid text = parse_parts (split text)

-- `MustParseOID` panics where `ParseOID` returns an error.
unfoldable pub must_parse_oid : List ℕ → Result Oid
must_parse_oid text = elim (parse_oid text) [
  | ok oid ↦ ok oid
  | err e ↦ crash user_panic
  | crash c ↦ crash c
]

-- `fmt.Sprintf("%d", x)`: the decimal digits, the last one written first. Ten digits hold a uint32.
unfoldable pub digits_onto : ℕ → ℕ → List ℕ → List ℕ
digits_onto zero x acc = acc
digits_onto (suc f) x acc =
    let rest = digits_onto f (x / 10) ((b'0' + x % 10) ∷ acc) in
    if ltb x 10 then (b'0' + x) ∷ acc else rest

unfoldable pub decimal : ℕ → List ℕ
decimal x = digits_onto 10 x []

unfoldable pub decimals : Oid → List (List ℕ)
decimals [] = []
decimals (x ∷ xs) = decimal x ∷ decimals xs

-- `OID.String`.
unfoldable pub to_string : Oid → List ℕ
to_string o = join (decimals o)
