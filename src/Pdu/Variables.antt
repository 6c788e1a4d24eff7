-- ===== src/Pdu/Variables.antt =====
-- pdu/variables.go: the VarBindList.
use go_agentx.Prelude.{
  ℕ, ◌^◌, ◌<◌, ◌≡◌, refl, List, [], ◌∷◌, ◌++◌, map, Result, ok, arith, length, All, Ensures,
  Ensures-mono,
}
use go_agentx.Prelude.Words.{ByteOrder, little}
use go_agentx.Oid.{Oid}
use go_agentx.Pdu.Sequence.{decode_all, decode_all-Ensures, marshal_all, marshal_all-decode_all}
use go_agentx.Pdu.Variable
use go_agentx.Pdu.Variable.{Variable, GoValue}
use go_agentx.Pdu.Variable.Wire
use go_agentx.Pdu.Variable.Encoded.{IsCarried, ensured, variable_encoded}

unfoldable pub add : Oid → ℕ → GoValue → List Variable → List Variable
add oid t value vs = vs ++ (Variable.new_variable oid t value ∷ [])

unfoldable pub marshal_binary : List Variable → Result (List ℕ)
marshal_binary vs = marshal_all Variable.marshal_binary vs

-- Each round takes a byte at least, so that `len(data)` rounds are enough.
unfoldable pub unmarshal_binary_order : List ℕ → ByteOrder → Result (List Variable)
unmarshal_binary_order bytes order =
    decode_all (λ bs. Variable.unmarshal bs order) (length bytes) bytes

-- On any payload below 2 ^ 32 bytes the decoder returns bindings or an error: no panic, and the loop
-- ends.
pub unmarshal_variables-Ensures :
    (bytes : List ℕ) (order : ByteOrder)
    → length bytes < 2 ^ 32
    → Ensures (λ _. Unit) (unmarshal_binary_order bytes order)
unfolding unmarshal_binary_order
unmarshal_variables-Ensures bytes order small =
    decode_all-Ensures (λ bs. Variable.unmarshal bs order) (2 ^ 32)
      (λ bs h. Wire.unmarshal-Ensures bs order h) (length bytes) bytes (omega arith) small

-- A list of bindings is encoded or refused, never a panic, and what is encoded is read back as the
-- same types and names, in order, with the values in the decoder's Go types.
pub variables_roundtrip :
    (vs : List Variable)
    → All Wire.IsGoVariable vs
    → Ensures
        (λ bytes. unmarshal_binary_order bytes little ≡ ok (map Wire.received vs))
        (marshal_binary vs)
unfolding marshal_binary unmarshal_binary_order
variables_roundtrip vs w =
    Ensures-mono _ _ (marshal_all Variable.marshal_binary vs)
      (λ bs good. good (length bs) (omega arith))
      (marshal_all-decode_all Variable.marshal_binary (λ bs. Variable.unmarshal bs little)
        Wire.received Wire.IsGoVariable Wire.variable_roundtrip vs w)

marshal_binary_total :
    (vs : List Variable) → All IsCarried vs → (bytes : List ℕ) × (marshal_binary vs ≡ ok bytes)
unfolding marshal_binary marshal_all
marshal_binary_total [] w = ([], refl)
marshal_binary_total (v ∷ vs) w =
    let (front, e, _) = variable_encoded v w.0 in
    let (back, k) = marshal_binary_total vs w.1 in (front ++ back, rw e (rw k refl))

pub carried-IsGoVariable : (vs : List Variable) → All IsCarried vs → All Wire.IsGoVariable vs
carried-IsGoVariable [] w = tt
carried-IsGoVariable (v ∷ vs) w = (w.0.0, carried-IsGoVariable vs w.1)

-- A list of bindings whose values have the ranges of their Go types and contents that fit their
-- syntaxes is encoded, and the bytes are read back as the same types and names, in order, with the
-- values in the decoder's Go types.
pub variables_encoded :
    (vs : List Variable)
    → All IsCarried vs
    → (bytes : List ℕ) × (marshal_binary vs ≡ ok bytes)
      × (unmarshal_binary_order bytes little ≡ ok (map Wire.received vs))
variables_encoded vs w =
    let (bytes, e) = marshal_binary_total vs w in
    (bytes, e, ensured _ _ bytes e (variables_roundtrip vs (carried-IsGoVariable vs w)))
