-- ===== src/Prelude/Words.antt =====
-- encoding/binary: unsigned integers of 2, 4 and 8 bytes in either byte order.
use Prim.Native.Nat.{ℕ, ◌+◌, ◌*◌, ◌/◌, ◌%◌, ◌^◌, ◌≤◌, ◌<◌}
use mathlib.Core.Path.{◌≡◌, refl, ap}
use mathlib.Core.List.{List, [], ◌∷◌, ◌++◌, append_assoc}
use native.Mathlib.Omega.{arith}
use go_agentx.Prelude.Lists.{length, All, drop, length-drop}
use go_agentx.Prelude.Outcome.{Result, ok, crash, out_of_range, ◌>>=◌, Ensures}

pub data ByteOrder : Type 0 where
  little big : ByteOrder

abbrev pub IsByte : ℕ → Type 0
IsByte b = b < 256

abbrev pub IsU16 : ℕ → Type 0
IsU16 x = x < 2 ^ 16

abbrev pub IsU32 : ℕ → Type 0
IsU32 x = x < 2 ^ 32

abbrev pub IsU64 : ℕ → Type 0
IsU64 x = x < 2 ^ 64

-- `order.AppendUint16(nil, x)`, and so on.
unfoldable pub put_uint16 : ByteOrder → ℕ → List ℕ
put_uint16 little x = (x % 256) ∷ (x / 256 % 256) ∷ []
put_uint16 big x = (x / 256 % 256) ∷ (x % 256) ∷ []

unfoldable pub put_uint32 : ByteOrder → ℕ → List ℕ
put_uint32 little x = (x % 256) ∷ (x / 256 % 256) ∷ (x / 65536 % 256) ∷ (x / 16777216 % 256) ∷ []
put_uint32 big x = (x / 16777216 % 256) ∷ (x / 65536 % 256) ∷ (x / 256 % 256) ∷ (x % 256) ∷ []

unfoldable pub put_uint64 : ByteOrder → ℕ → List ℕ
put_uint64 little x = put_uint32 little (x % 2 ^ 32) ++ put_uint32 little (x / 2 ^ 32)
put_uint64 big x = put_uint32 big (x / 2 ^ 32) ++ put_uint32 big (x % 2 ^ 32)

-- `order.Uint16(data)`, and so on: a panic if `data` is too short.
unfoldable pub uint16 : ByteOrder → List ℕ → Result ℕ
uint16 little (a ∷ b ∷ _) = ok (a + 256 * b)
uint16 big (a ∷ b ∷ _) = ok (256 * a + b)
uint16 _ _ = crash out_of_range

unfoldable pub uint32 : ByteOrder → List ℕ → Result ℕ
uint32 little (a ∷ b ∷ c ∷ d ∷ _) = ok (a + 256 * b + 65536 * c + 16777216 * d)
uint32 big (a ∷ b ∷ c ∷ d ∷ _) = ok (16777216 * a + 65536 * b + 256 * c + d)
uint32 _ _ = crash out_of_range

-- Four bytes are there exactly when the read does not panic, and the rest does not matter.
pub uint16-put :
    (o : ByteOrder) (x : ℕ) (rest : List ℕ) → IsU16 x → uint16 o (put_uint16 o x ++ rest) ≡ ok x
unfolding uint16 put_uint16
uint16-put little x rest h = ground arith
uint16-put big x rest h = ground arith

pub uint32-put :
    (o : ByteOrder) (x : ℕ) (rest : List ℕ) → IsU32 x → uint32 o (put_uint32 o x ++ rest) ≡ ok x
unfolding uint32 put_uint32
uint32-put little x rest h = ground arith
uint32-put big x rest h = ground arith

pub length-put_uint16 : (o : ByteOrder) (x : ℕ) → length (put_uint16 o x) ≡ 2
unfolding put_uint16
length-put_uint16 little x = refl
length-put_uint16 big x = refl

pub length-put_uint32 : (o : ByteOrder) (x : ℕ) → length (put_uint32 o x) ≡ 4
unfolding put_uint32
length-put_uint32 little x = refl
length-put_uint32 big x = refl

pub drop-put_uint32 :
    (o : ByteOrder) (x : ℕ) (rest : List ℕ) → drop 4 (put_uint32 o x ++ rest) ≡ rest
unfolding put_uint32
drop-put_uint32 little x rest = refl
drop-put_uint32 big x rest = refl

pub put_uint32-IsByte : (o : ByteOrder) (x : ℕ) → All IsByte (put_uint32 o x)
unfolding put_uint32
put_uint32-IsByte little x = omega arith
put_uint32-IsByte big x = omega arith

pub put_uint16-IsByte : (o : ByteOrder) (x : ℕ) → All IsByte (put_uint16 o x)
unfolding put_uint16
put_uint16-IsByte little x = omega arith
put_uint16-IsByte big x = omega arith

-- `order.Uint64(data)` as its two words.
unfoldable pub uint64 : ByteOrder → List ℕ → Result ℕ
uint64 little bs = do lo ← uint32 little bs; hi ← uint32 little (drop 4 bs); ok (lo + 2 ^ 32 * hi)
uint64 big bs = do hi ← uint32 big bs; lo ← uint32 big (drop 4 bs); ok (2 ^ 32 * hi + lo)

pub length-put_uint64 : (o : ByteOrder) (x : ℕ) → length (put_uint64 o x) ≡ 8
unfolding put_uint64 put_uint32
length-put_uint64 little x = refl
length-put_uint64 big x = refl

pub uint64-put :
    (o : ByteOrder) (x : ℕ) (rest : List ℕ) → IsU64 x → uint64 o (put_uint64 o x ++ rest) ≡ ok x
unfolding uint64 put_uint64
uint64-put little x rest h =
    let lo : ℕ = x % 2 ^ 32 in
    let hi : ℕ = x / 2 ^ 32 in
    rw (append_assoc (put_uint32 little lo) (put_uint32 little hi) rest) (
      rw (uint32-put little lo (put_uint32 little hi ++ rest) (omega arith)) (
        rw (drop-put_uint32 little lo (put_uint32 little hi ++ rest))
          (rw (uint32-put little hi rest (omega arith)) (ap ok (omega arith)))))
uint64-put big x rest h =
    let lo : ℕ = x % 2 ^ 32 in
    let hi : ℕ = x / 2 ^ 32 in
    rw (append_assoc (put_uint32 big hi) (put_uint32 big lo) rest) (
      rw (uint32-put big hi (put_uint32 big lo ++ rest) (omega arith)) (
        rw (drop-put_uint32 big hi (put_uint32 big lo ++ rest))
          (rw (uint32-put big lo rest (omega arith)) (ap ok (omega arith)))))

-- With enough bytes a read gives a number of its width.
pub uint16_total : (o : ByteOrder) (bs : List ℕ) → 2 ≤ length bs → (x : ℕ) × (uint16 o bs ≡ ok x)
unfolding uint16
uint16_total o [] h = absurd (omega arith)
uint16_total o (a ∷ []) h = absurd (omega arith)
uint16_total little (a ∷ b ∷ r) h = (_, refl)
uint16_total big (a ∷ b ∷ r) h = (_, refl)

pub uint32_total : (o : ByteOrder) (bs : List ℕ) → 4 ≤ length bs → (x : ℕ) × (uint32 o bs ≡ ok x)
unfolding uint32
uint32_total o [] h = absurd (omega arith)
uint32_total o (a ∷ []) h = absurd (omega arith)
uint32_total o (a ∷ b ∷ []) h = absurd (omega arith)
uint32_total o (a ∷ b ∷ c ∷ []) h = absurd (omega arith)
uint32_total little (a ∷ b ∷ c ∷ d ∷ r) h = (_, refl)
uint32_total big (a ∷ b ∷ c ∷ d ∷ r) h = (_, refl)

pub uint64_total : (o : ByteOrder) (bs : List ℕ) → 8 ≤ length bs → (x : ℕ) × (uint64 o bs ≡ ok x)
unfolding uint64
uint64_total little bs h =
    let (lo, e) = uint32_total little bs (omega arith) in
    let (hi, f) = uint32_total little (drop 4 bs) (omega (arith, length-drop 4 bs)) in
    (lo + 2 ^ 32 * hi, rw (e, f))
uint64_total big bs h =
    let (hi, e) = uint32_total big bs (omega arith) in
    let (lo, f) = uint32_total big (drop 4 bs) (omega (arith, length-drop 4 bs)) in
    (2 ^ 32 * hi + lo, rw (e, f))

pub uint32_bound :
    (o : ByteOrder) (bs : List ℕ) (x : ℕ) → All IsByte bs → uint32 o bs ≡ ok x → IsU32 x
unfolding uint32
uint32_bound little [] x w h = absurd (cc)
uint32_bound big [] x w h = absurd (cc)
uint32_bound little (a ∷ b ∷ c ∷ d ∷ r) x w h = ground arith
uint32_bound big (a ∷ b ∷ c ∷ d ∷ r) x w h = ground arith
uint32_bound little (a ∷ []) x w h = absurd (cc)
uint32_bound big (a ∷ []) x w h = absurd (cc)
uint32_bound little (a ∷ b ∷ []) x w h = absurd (cc)
uint32_bound big (a ∷ b ∷ []) x w h = absurd (cc)
uint32_bound little (a ∷ b ∷ c ∷ []) x w h = absurd (cc)
uint32_bound big (a ∷ b ∷ c ∷ []) x w h = absurd (cc)

-- `binary.Read(buffer, order, &x)` of a uint32: the next four bytes leave the buffer.
unfoldable pub read_uint32 : ByteOrder → List ℕ → Result (ℕ × List ℕ)
read_uint32 o bs = do x ← uint32 o bs; ok (x, drop 4 bs)

pub read_uint32-put :
    (o : ByteOrder) (x : ℕ) (rest : List ℕ)
    → IsU32 x
    → read_uint32 o (put_uint32 o x ++ rest) ≡ ok (x, rest)
unfolding read_uint32
read_uint32-put o x rest h = rw (uint32-put o x rest h) (rw (drop-put_uint32 o x rest))

pub read_uint32-Ensures :
    (o : ByteOrder) (bs : List ℕ) (n : ℕ)
    → n + 4 ≤ length bs
    → Ensures (λ r. n ≤ length r.1) (read_uint32 o bs)
unfolding read_uint32
read_uint32-Ensures o bs n h =
    let (x, e) = uint32_total o bs (omega arith) in rw e (omega (arith, length-drop 4 bs))

pub read_uint32_total :
    (o : ByteOrder) (bs : List ℕ) (n : ℕ)
    → n + 4 ≤ length bs
    → (x : ℕ) × (rest : List ℕ) × (read_uint32 o bs ≡ ok (x, rest)) × (n ≤ length rest)
unfolding read_uint32
read_uint32_total o bs n h =
    let (x, e) = uint32_total o bs (omega arith) in
    (x, drop 4 bs, rw e, omega (arith, length-drop 4 bs))
