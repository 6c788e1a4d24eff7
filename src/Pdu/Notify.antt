-- ===== src/Pdu/Notify.antt =====
-- pdu/notify.go
pub mod Encoded
use go_agentx.Prelude.{
  ℕ, ◌^◌, ◌<◌, ◌≡◌, ◌⊎◌, inl, inr, refl, Bool, true, false, ◌||◌, List, [], ◌∷◌, if◌then◌else◌,
  ◌==◌, map, length, Result, ok, err, ◌>>=◌, ◌>>◌, trap_oid_missing, arith, All, Ensures,
  >>=-Ensures, Ensures-mono, Bool-cases,
}
use go_agentx.Prelude.Int.{ℤ, pos, negsuc}
use go_agentx.Prelude.Words.{ByteOrder, little}
use go_agentx.Oid.{Oid, compare_oids}
use go_agentx.Oid.Order.{compare_eq}
use go_agentx.Pdu.ObjectIdentifier
use go_agentx.Pdu.Variable
use go_agentx.Pdu.Variable.{
  Variable, GoValue, nil, other, int32, duration, uint32_value, uint64_value, text, octets, ip, oid,
  uint32s, type_time_ticks,
}
use go_agentx.Pdu.Variable.Wire
use go_agentx.Pdu.Variables
use go_agentx.Pdu.Variables.{unmarshal_variables-Ensures, variables_roundtrip}
use Prim.Native.Nat.{Ordering}

-- OIDSysUpTime and OIDSnmpTrapOID
abbrev pub oid_sys_up_time : Oid
oid_sys_up_time = 1 ∷ 3 ∷ 6 ∷ 1 ∷ 2 ∷ 1 ∷ 1 ∷ 3 ∷ 0 ∷ []

abbrev pub oid_snmp_trap_oid : Oid
oid_snmp_trap_oid = 1 ∷ 3 ∷ 6 ∷ 1 ∷ 6 ∷ 3 ∷ 1 ∷ 1 ∷ 4 ∷ 1 ∷ 0 ∷ []

pub record Notify : Type 0 where
  pub timestamp : ℤ
  pub variables : List Variable

-- `CompareOIDs(v.Name.GetIdentifier(), o) == 0`
unfoldable pub is_named : Oid → Variable → Bool
is_named o v = elim (compare_oids (ObjectIdentifier.get_identifier v.name) o) [
  | Ordering.eq ↦ true
  | _ ↦ false
]

unfoldable pub has_sys_up_time : List Variable → Bool
has_sys_up_time [] = false
has_sys_up_time (v ∷ vs) = is_named oid_sys_up_time v

abbrev pub is_zero : ℤ → Bool
is_zero (pos n) = n == 0
is_zero (negsuc n) = false

unfoldable pub var_bind_list : Notify → List Variable
var_bind_list n =
    if is_zero n.timestamp || has_sys_up_time n.variables
    then n.variables
    else Variable.new_variable oid_sys_up_time type_time_ticks (duration n.timestamp) ∷ n.variables

-- `variables[i]` is the trap OID, with i = 0 here; a shorter list has none.
unfoldable pub first_is_trap_oid : List Variable → Bool
first_is_trap_oid [] = false
first_is_trap_oid (v ∷ vs) = is_named oid_snmp_trap_oid v

abbrev pub tail : List Variable → List Variable
tail [] = []
tail (v ∷ vs) = vs

-- `validateNotifyVariables`: the trap OID is second if sysUpTime.0 is first, and else first.
unfoldable pub validate : List Variable → Result (Unit {0})
validate vs =
    if first_is_trap_oid (if has_sys_up_time vs then tail vs else vs)
    then ok tt
    else err trap_oid_missing

unfoldable pub marshal_binary : Notify → Result (List ℕ)
marshal_binary n = do validate (var_bind_list n); Variables.marshal_binary (var_bind_list n)

-- The type assertion `n.Variables[0].Value.(time.Duration)`.
abbrev pub timestamp_value : GoValue → ℤ
timestamp_value (duration d) = d
timestamp_value _ = pos 0

unfoldable pub timestamp_of : List Variable → ℤ
timestamp_of [] = pos 0
timestamp_of (v ∷ vs) = if is_named oid_sys_up_time v then timestamp_value v.value else pos 0

unfoldable pub unmarshal_binary_order : List ℕ → ByteOrder → Result Notify
unmarshal_binary_order bytes order = do
  vs ← Variables.unmarshal_binary_order bytes order
  ok (record { timestamp = timestamp_of vs; variables = vs })

-- RFC 2741 6.2.10: the trap OID stands first, or second behind sysUpTime.0.
abbrev pub IsNamed : Oid → Variable → Type 0
IsNamed o v = ObjectIdentifier.get_identifier v.name ≡ o

abbrev pub IsNotification : List Variable → Type 0
IsNotification [] = ⊥
IsNotification (v ∷ []) = IsNamed oid_snmp_trap_oid v
IsNotification (v ∷ w ∷ vs) =
    IsNamed oid_snmp_trap_oid v ⊎ (IsNamed oid_sys_up_time v × IsNamed oid_snmp_trap_oid w)

is_named-IsNamed : (o : Oid) (v : Variable) → is_named o v ≡ true → IsNamed o v
unfolding is_named
is_named-IsNamed o v h = ground (arith, compare_eq (ObjectIdentifier.get_identifier v.name) o)

validate-IsNotification : (vs : List Variable) → validate vs ≡ ok tt → IsNotification vs
unfolding validate has_sys_up_time first_is_trap_oid
validate-IsNotification [] h = absurd (cc)
validate-IsNotification (v ∷ []) h = ground (arith, is_named-IsNamed oid_snmp_trap_oid v)
validate-IsNotification (v ∷ w ∷ vs) h = ground (
  arith,
  is_named-IsNamed oid_snmp_trap_oid v,
  is_named-IsNamed oid_sys_up_time v,
  is_named-IsNamed oid_snmp_trap_oid w,
)

validated : (vs : List Variable) → Ensures (λ (_ : Unit {0}). IsNotification vs) (validate vs)
unfolding validate
validated vs = elim (Bool-cases (first_is_trap_oid (if has_sys_up_time vs then tail vs else vs))) [
  | inl e ↦ rw e (validate-IsNotification vs (rw (validate, e)))
  | inr e ↦ rw e tt
]

-- What the decoder returns for a notification that was encoded.
abbrev pub Received : Notify → Notify → Type 0
Received n m =
    IsNotification (var_bind_list n)
    × (m.variables ≡ map Wire.received (var_bind_list n))
    × (m.timestamp ≡ timestamp_of (map Wire.received (var_bind_list n)))

abbrev pub ReadsBack : Notify → List ℕ → Type 0
ReadsBack n bytes = (m : Notify) × (unmarshal_binary_order bytes little ≡ ok m) × Received n m

-- A notification is encoded only if its bindings are those of RFC 2741 6.2.10, and is otherwise an
-- error, never a panic. What is encoded is read back as its binding list, which has the timestamp as
-- a leading sysUpTime.0.
pub marshal_binary-ReadsBack :
    (n : Notify)
    → All Wire.IsGoVariable (var_bind_list n)
    → Ensures (ReadsBack n) (marshal_binary n)
unfolding marshal_binary unmarshal_binary_order
marshal_binary-ReadsBack n w =
    >>=-Ensures (λ (_ : Unit {0}). IsNotification (var_bind_list n)) (ReadsBack n)
      (validate (var_bind_list n)) _ (validated (var_bind_list n))
      λ _ good _.
        Ensures-mono _ (ReadsBack n) (Variables.marshal_binary (var_bind_list n))
          (λ bytes back.
            let vs : List Variable = map Wire.received (var_bind_list n) in
            (record { timestamp = timestamp_of vs; variables = vs }, rw back, (good, refl, refl)))
          (variables_roundtrip (var_bind_list n) w)

-- On any payload below 2 ^ 32 bytes the decoder returns a notification or an error, never a panic.
pub unmarshal_notify-Ensures :
    (bytes : List ℕ) (order : ByteOrder)
    → length bytes < 2 ^ 32
    → Ensures (λ _. Unit) (unmarshal_binary_order bytes order)
unfolding unmarshal_binary_order
unmarshal_notify-Ensures bytes order small =
    >>=-Ensures (λ _. Unit) (λ _. Unit) (Variables.unmarshal_binary_order bytes order) _
      (unmarshal_variables-Ensures bytes order small) (λ _ _ _. tt)
