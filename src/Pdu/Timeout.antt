-- ===== src/Pdu/Timeout.antt =====
-- pdu/timeout.go. A duration is its nanoseconds.
use go_agentx.Prelude.{
  ℕ, ◌*◌, ◌/◌, ◌≤◌, ◌≡◌, List, [], ◌∷◌, ◌++◌, ltb, if◌then◌else◌, length, Result, ok, err, ◌>>=◌,
  byte_at, short_buffer, timeout_range, negative_duration, arith,
}
use go_agentx.Prelude.Int.{ℤ, pos, negsuc}

-- time.Second
abbrev pub second : ℕ
second = 1_000_000_000

abbrev pub max_timeout : ℕ
max_timeout = 255 * second

pub record Timeout : Type 0 where
  pub duration : ℤ
  pub priority : ℕ

unfoldable pub marshal_duration : ℤ → Result ℕ
marshal_duration (negsuc n) = err negative_duration
marshal_duration (pos n) = if ltb max_timeout n then err timeout_range else ok (n / second)

unfoldable pub marshal_binary : Timeout → Result (List ℕ)
marshal_binary t = do seconds ← marshal_duration t.duration; ok (seconds ∷ t.priority ∷ 0 ∷ 0 ∷ [])

unfoldable pub unmarshal_binary : List ℕ → Result Timeout
unmarshal_binary bytes = if ltb (length bytes) 4 then err short_buffer else do
  seconds ← byte_at bytes 0
  priority ← byte_at bytes 1
  ok (record { duration = pos (seconds * second); priority = priority })

-- A timeout between 0 and 255 seconds is encoded, and read back rounded down to whole seconds.
pub timeout_roundtrip :
    (n priority : ℕ) (rest : List ℕ)
    → n ≤ max_timeout
    → (bytes : List ℕ) × (marshal_binary (record { duration = pos n; priority = priority })
        ≡ ok bytes)
      × (unmarshal_binary (bytes ++ rest)
          ≡ ok (record { duration = pos (n / second * second); priority = priority }))
unfolding marshal_binary marshal_duration unmarshal_binary byte_at
timeout_roundtrip n priority rest h =
    ((n / second) ∷ priority ∷ 0 ∷ 0 ∷ [], ground arith, ground arith)
