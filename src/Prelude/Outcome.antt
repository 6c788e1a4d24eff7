-- ===== src/Prelude/Outcome.antt =====
-- What a Go function that may fail comes to: a value, an error, or a crash. A crash is no Go value:
-- it is a panic (an index or a slice out of range, or a call of `panic`), or the fuel of a loop running out.
use mathlib.Core.Path.{◌≡◌, refl}
use mathlib.Core.Logic.{◌⊎◌, inl, inr}
use mathlib.Core.List.{List, [], ◌∷◌}
use Prim.Native.Nat.{ℕ, zero, suc, ◌-◌, ◌≤◌}
use native.Mathlib.Omega.{arith}
use go_agentx.Prelude.Tests.{ltb, if◌then◌else◌}
use go_agentx.Prelude.Lists.{length, drop, take}

-- The errors that the code builds, one for each message.
pub data Fault : Type 0 where
  short_buffer too_many_subidentifiers length_exceeds : Fault
  wrong_go_type negative_duration not_ipv4 unhandled_type : Fault
  timeout_range range_subid : Fault
  nonempty_commit_set nonempty_undo_set nonempty_cleanup_set : Fault
  no_allocate_index no_deallocate_index : Fault
  bad_version bad_alignment payload_too_large : Fault
  trap_oid_missing parse_uint_failed : Fault

pub data Crash : Type 0 where
  out_of_range out_of_fuel user_panic : Crash

pub data Result {ℓ} (A : Type ℓ) : Type ℓ where
  ok : A → Result A
  err : Fault → Result A
  crash : Crash → Result A

infixl 5 ◌>>=◌ ◌>>◌
abbrev pub ◌>>=◌ {κ ℓ} : {B : Type κ} {C : Type ℓ} → Result B → (B → Result C) → Result C
crash c >>= next = crash c
err why >>= next = err why
ok v >>= next = next v

abbrev pub ◌>>◌ {κ} : {C : Type κ} → Result (Unit {0}) → Result C → Result C
first >> second = first >>= λ _. second

-- A value or an error, and no crash.
abbrev pub IsSettled {ℓ} : {A : Type ℓ} → Result A → Type 0
IsSettled (ok a) = Unit
IsSettled (err e) = Unit
IsSettled (crash c) = ⊥

pub >>=-IsSettled {ℓ κ} :
    {A : Type ℓ} {B : Type κ} (m : Result A) (f : A → Result B)
    → IsSettled m
    → ((a : A) → m ≡ ok a → IsSettled (f a))
    → IsSettled (m >>= f)
>>=-IsSettled (ok a) f h k = k a refl
>>=-IsSettled (err e) f h k = tt
>>=-IsSettled (crash c) f h k = h

pub >>=-eq-ok {κ ℓ} :
    {B : Type κ} {C : Type ℓ} (r : Result B) (next : B → Result C) {v : C}
    → (r >>= next) ≡ ok v
    → (u : B) × (r ≡ ok u) × (next u ≡ ok v)
>>=-eq-ok (crash c) next e = cc
>>=-eq-ok (err why) next e = cc
>>=-eq-ok (ok u) next e = (u, refl, e)

-- To split on what a computed call comes to and keep the equation.
pub Result-cases {ℓ} :
    {A : Type ℓ} (r : Result A)
    → ((a : A) × (r ≡ ok a)) ⊎ ((e : Fault) × (r ≡ err e)) ⊎ ((c : Crash) × (r ≡ crash c))
Result-cases (ok a) = inl (a, refl)
Result-cases (err e) = inr (inl (e, refl))
Result-cases (crash c) = inr (inr (c, refl))

-- `data[i]`.
unfoldable pub byte_at : List ℕ → ℕ → Result ℕ
byte_at [] i = crash out_of_range
byte_at (b ∷ bs) zero = ok b
byte_at (b ∷ bs) (suc i) = byte_at bs i

-- `data[n:]`.
unfoldable pub slice_from : List ℕ → ℕ → Result (List ℕ)
slice_from bs n = if ltb (length bs) n then crash out_of_range else ok (drop n bs)

-- `data[lo:hi]`.
unfoldable pub slice : List ℕ → ℕ → ℕ → Result (List ℕ)
slice bs lo hi =
    if ltb hi lo
    then crash out_of_range
    else if ltb (length bs) hi
    then crash out_of_range
    else ok (take (hi - lo) (drop lo bs))

pub slice_from_ok : (bs : List ℕ) (n : ℕ) → n ≤ length bs → slice_from bs n ≡ ok (drop n bs)
unfolding slice_from
slice_from_ok bs n h = ground arith

pub slice_ok :
    (bs : List ℕ) (lo hi : ℕ)
    → lo ≤ hi
    → hi ≤ length bs
    → slice bs lo hi ≡ ok (take (hi - lo) (drop lo bs))
unfolding slice
slice_ok bs lo hi h k = ground arith

-- No crash, and a value has the property.
abbrev pub Ensures {ℓ} : {A : Type ℓ} → (A → Type 0) → Result A → Type 0
Ensures P (ok a) = P a
Ensures P (err e) = Unit
Ensures P (crash c) = ⊥

pub >>=-Ensures {ℓ κ} :
    {A : Type ℓ} {B : Type κ} (P : A → Type 0) (Q : B → Type 0) (m : Result A) (f : A → Result B)
    → Ensures P m
    → ((a : A) → P a → m ≡ ok a → Ensures Q (f a))
    → Ensures Q (m >>= f)
>>=-Ensures P Q (ok a) f h k = k a h refl
>>=-Ensures P Q (err e) f h k = tt
>>=-Ensures P Q (crash c) f h k = h

pub Ensures-ok {ℓ} :
    {A : Type ℓ} (P : A → Type 0) (m : Result A) (a : A) → Ensures P m → m ≡ ok a → P a
Ensures-ok P m a h e = rw e at h

pub Ensures-IsSettled {ℓ} : {A : Type ℓ} (P : A → Type 0) (m : Result A) → Ensures P m → IsSettled m
Ensures-IsSettled P (ok a) h = tt
Ensures-IsSettled P (err e) h = tt
Ensures-IsSettled P (crash c) h = h

pub Ensures-mono {ℓ} :
    {A : Type ℓ} (P Q : A → Type 0) (m : Result A)
    → ((a : A) → P a → Q a)
    → Ensures P m
    → Ensures Q m
Ensures-mono P Q (ok a) k h = k a h
Ensures-mono P Q (err e) k h = tt
Ensures-mono P Q (crash c) k h = h
