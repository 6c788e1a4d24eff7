-- ===== src/Pdu/Response.antt =====
-- pdu/response.go
use go_agentx.Prelude.{
  ℕ, ◌+◌, ◌*◌, ◌/◌, ◌^◌, ◌<◌, ◌≡◌, refl, List, [], ◌++◌, ltb, if◌then◌else◌, map, length, drop,
  Result, ok, err, ◌>>=◌, slice_from, slice_from_ok, short_buffer, arith, tests, All, Ensures,
  >>=-Ensures, le→not_ltb, length-drop, Bool-cases, inl, inr,
}
use go_agentx.Prelude.Int.{ℤ, pos, to_uint32, quot}
use go_agentx.Prelude.Words.{
  ByteOrder, little, put_uint16, put_uint32, uint16, uint32, IsU16, IsU32, uint16_total,
  uint32_total,
}
use go_agentx.Pdu.Variable.{Variable, time_tick}
use go_agentx.Pdu.Variable.Wire
use go_agentx.Pdu.Variables
use go_agentx.Pdu.Variable.Encoded.{IsCarried, ensured}
use go_agentx.Pdu.Variables.{
  variables_encoded, carried-IsGoVariable, unmarshal_variables-Ensures, variables_roundtrip,
}

pub record Response : Type 0 where
  pub up_time : ℤ
  pub error : ℕ
  pub index : ℕ
  pub variables : List Variable

abbrev pub response_header_size : ℕ
response_header_size = 8

-- `&pdu.Response{}`
abbrev pub empty : Response
empty = record { up_time = pos 0; error = 0; index = 0; variables = [] }

-- res.sysUpTime, res.error and res.index
unfoldable pub fixed_part : ℕ → ℕ → ℕ → List ℕ
fixed_part ticks error index =
    put_uint32 little ticks ++ (put_uint16 little error ++ put_uint16 little index)

unfoldable pub marshal_binary : Response → Result (List ℕ)
marshal_binary r = do
  bytes ← Variables.marshal_binary r.variables
  ok (fixed_part (to_uint32 (quot r.up_time time_tick)) r.error r.index ++ bytes)

unfoldable pub unmarshal_binary_order : List ℕ → ByteOrder → Result Response
unmarshal_binary_order bytes order =
    if ltb (length bytes) response_header_size then err short_buffer else do
      ticks ← uint32 order bytes
      at_error ← slice_from bytes 4
      error ← uint16 order at_error
      at_index ← slice_from bytes 6
      index ← uint16 order at_index
      rest ← slice_from bytes response_header_size
      variables ← Variables.unmarshal_binary_order rest order
      ok (record {
        up_time = pos (ticks * time_tick);
        error = error;
        index = index;
        variables = variables;
      })

fixed_part-reads :
    (t e i : ℕ) (rest : List ℕ)
    → IsU32 t
    → IsU16 e
    → IsU16 i
    → (uint32 little (fixed_part t e i ++ rest) ≡ ok t)
      × (uint16 little (drop 4 (fixed_part t e i ++ rest)) ≡ ok e)
      × (uint16 little (drop 6 (fixed_part t e i ++ rest)) ≡ ok i)
      × (drop 8 (fixed_part t e i ++ rest) ≡ rest)
      × (length (fixed_part t e i ++ rest) ≡ 8 + length rest)
unfolding fixed_part put_uint32 put_uint16 uint32 uint16
fixed_part-reads t e i rest ht he hi = (ground arith, ground arith, ground arith, refl, omega arith)

ticks_of : (n : ℕ) → IsU32 (n / time_tick) → to_uint32 (quot (pos n) time_tick) ≡ n / time_tick
unfolding to_uint32 quot
ticks_of n h = omega arith

-- A response with an uptime that fits the wire is encoded or refused, never a panic, and read back
-- with the uptime rounded down to hundredths of a second and the values in the decoder's Go types.
pub response_roundtrip :
    (n : ℕ) (r : Response)
    → r.up_time ≡ pos n
    → IsU32 (n / time_tick)
    → IsU16 r.error
    → IsU16 r.index
    → All Wire.IsGoVariable r.variables
    → Ensures
        (λ bytes.
          unmarshal_binary_order bytes little
          ≡ ok (record {
            up_time = pos (n / time_tick * time_tick);
            error = r.error;
            index = r.index;
            variables = map Wire.received r.variables;
          }))
        (marshal_binary r)
unfolding marshal_binary unmarshal_binary_order
response_roundtrip n r u ht he hi w =
    >>=-Ensures _ _ (Variables.marshal_binary r.variables) _ (variables_roundtrip r.variables w)
      λ bs back _.
        let t : ℕ = n / time_tick in
        let e : to_uint32 (quot r.up_time time_tick) ≡ t = rw (u, ticks_of n ht) in
        let (r1, r2, r3, r4, r5) = fixed_part-reads t r.error r.index bs ht he hi in
        let all : List ℕ = fixed_part t r.error r.index ++ bs in
        rw e (
          rw (le→not_ltb (length all) response_header_size (omega arith)) (
            rw r1 (
              rw (slice_from_ok all 4 (omega arith), r2)
                (rw (slice_from_ok all 6 (omega arith), r3)
                  (rw (slice_from_ok all 8 (omega arith), r4, back))))))

-- A response with an uptime, an error and an index that fit the wire, and with bindings whose values
-- have the ranges of their Go types and contents that fit their syntaxes, is encoded, and read back
-- with the uptime rounded down to hundredths of a second and the values in the decoder's Go types.
pub response_encoded :
    (n : ℕ) (r : Response)
    → r.up_time ≡ pos n
    → IsU32 (n / time_tick)
    → IsU16 r.error
    → IsU16 r.index
    → All IsCarried r.variables
    → (bytes : List ℕ) × (marshal_binary r ≡ ok bytes)
      × (unmarshal_binary_order bytes little
          ≡ ok (record {
            up_time = pos (n / time_tick * time_tick);
            error = r.error;
            index = r.index;
            variables = map Wire.received r.variables;
          }))
unfolding marshal_binary
response_encoded n r u ht he hi w =
    let (back, e, _) = variables_encoded r.variables w in
    let bytes : List ℕ =
      fixed_part (to_uint32 (quot r.up_time time_tick)) r.error r.index ++ back in
    let encoded : marshal_binary r ≡ ok bytes = rw e refl in
    (
      bytes,
      encoded,
      ensured _ _ bytes encoded
          (response_roundtrip n r u ht he hi (carried-IsGoVariable r.variables w)),
    )

-- On any payload below 2 ^ 32 bytes the decoder returns a response or an error, never a panic.
pub unmarshal_response-Ensures :
    (bytes : List ℕ) (order : ByteOrder)
    → length bytes < 2 ^ 32
    → Ensures (λ _. Unit) (unmarshal_binary_order bytes order)
unfolding unmarshal_binary_order
unmarshal_response-Ensures bytes order small =
    elim (Bool-cases (ltb (length bytes) response_header_size)) [
      | inl short ↦ rw short tt
      | inr long ↦
          let (t, e1) = uint32_total order bytes (omega tests) in
          let (e, e2) = uint16_total order (drop 4 bytes) (omega (tests, length-drop 4 bytes)) in
          let (i, e3) = uint16_total order (drop 6 bytes) (omega (tests, length-drop 6 bytes)) in
          rw (long, e1)
            (rw (slice_from_ok bytes 4 (omega tests), e2)
              (rw (slice_from_ok bytes 6 (omega tests), e3)
                (rw (slice_from_ok bytes 8 (omega tests)) (
                  >>=-Ensures (λ _. Unit) (λ _. Unit)
                    (Variables.unmarshal_binary_order (drop 8 bytes) order) _
                    (unmarshal_variables-Ensures (drop 8 bytes) order
                      (omega (arith, length-drop 8 bytes)))
                    (λ _ _ _. tt)))))
    ]
