-- ===== src/Pdu/Notify/Encoded.antt =====
-- pdu/notify.go: a notification that is encoded, with its timestamp.
use go_agentx.Prelude.{
  ℕ, ◌*◌, ◌%◌, ◌^◌, ◌/◌, ◌≡◌, ◌∙◌, ◌≢◌, ◌⊎◌, inl, inr, refl, true, false, List, [], ◌∷◌, ◌==◌, map,
  ok, arith, All, Bool-cases, ==_iff,
}
use go_agentx.Prelude.Int.{pos}
use go_agentx.Prelude.Words.{little, IsU32}
use go_agentx.Oid.{Oid}
use go_agentx.Oid.Order.{compare_eq}
use go_agentx.Pdu.ObjectIdentifier
use go_agentx.Pdu.Variable
use go_agentx.Pdu.Variable.{Variable, duration, time_tick, type_time_ticks, classify}
use go_agentx.Pdu.Variable.Wire
use go_agentx.Pdu.Variable.Value.{ticks}
use go_agentx.Pdu.Variable.Encoded.{IsCarried}
use go_agentx.Pdu.Variables.{variables_encoded}
use go_agentx.Pdu.Notify.{
  Notify, oid_sys_up_time, oid_snmp_trap_oid, is_named, has_sys_up_time, var_bind_list,
  first_is_trap_oid, validate, marshal_binary, timestamp_of, unmarshal_binary_order, IsNamed,
}

-- sysUpTime.0 as a TimeTicks of `n` nanoseconds.
abbrev pub up_time_binding : ℕ → Variable
up_time_binding n = record {
  type = 67;
  name = record {
    prefix = 0;
    include = 0;
    subidentifiers = 1 ∷ 3 ∷ 6 ∷ 1 ∷ 2 ∷ 1 ∷ 1 ∷ 3 ∷ 0 ∷ [];
  };
  value = duration (pos n);
}

named : (o : Oid) (v : Variable) → IsNamed o v → is_named o v ≡ true
unfolding is_named
named o v e = ground (arith, compare_eq (ObjectIdentifier.get_identifier v.name) o)

not_named : (o p : Oid) (v : Variable) → IsNamed o v → o ≢ p → is_named p v ≡ false
unfolding is_named
not_named o p v e ne = ground (arith, compare_eq (ObjectIdentifier.get_identifier v.name) p)

trap_not_up_time : oid_snmp_trap_oid ≢ oid_sys_up_time
trap_not_up_time e = cc

up_time_binding-IsCarried : (n : ℕ) → IsU32 (n / time_tick) → IsCarried (up_time_binding n)
unfolding classify
up_time_binding-IsCarried n h = (
  record {
    type = omega arith;
    name = record {
      count = omega arith;
      prefix = omega arith;
      include = omega arith;
      subidentifiers = ground arith;
    };
    value = tt;
  },
  ticks (n / time_tick % 2 ^ 32),
  refl,
  omega arith,
)

-- What is on the wire for a list of bindings, and what the decoder makes of it.
abbrev Carries : Notify → List Variable → Type 0
Carries n vs =
    (bytes : List ℕ) × (m : Notify) × (marshal_binary n ≡ ok bytes)
    × (unmarshal_binary_order bytes little ≡ ok m)
    × (m.timestamp ≡ timestamp_of (map Wire.received vs))
    × (m.variables ≡ map Wire.received vs)

bindings-Carries :
    (n : Notify) (vs : List Variable)
    → var_bind_list n ≡ vs
    → validate vs ≡ ok tt
    → All IsCarried vs
    → Carries n vs
unfolding marshal_binary unmarshal_binary_order
bindings-Carries n vs e good w =
    let (bytes, encoded, back) = variables_encoded vs w in
    let rs : List Variable = map Wire.received vs in
    (
      bytes,
      record { timestamp = timestamp_of rs; variables = rs },
      rw (e, good) encoded,
      rw back refl,
      refl,
      refl,
    )

trap-validate :
    (v : Variable) (vs : List Variable) → IsNamed oid_snmp_trap_oid v → validate (v ∷ vs) ≡ ok tt
unfolding validate has_sys_up_time first_is_trap_oid
trap-validate v vs e =
    rw (not_named oid_snmp_trap_oid oid_sys_up_time v e trap_not_up_time)
      (rw (named oid_snmp_trap_oid v e) refl)

stamped-validate :
    (t : ℕ) (v : Variable) (vs : List Variable)
    → IsNamed oid_snmp_trap_oid v
    → validate (up_time_binding t ∷ v ∷ vs) ≡ ok tt
unfolding validate has_sys_up_time first_is_trap_oid ObjectIdentifier.get_identifier
stamped-validate t v vs e =
    rw (named oid_sys_up_time (up_time_binding t) refl) (rw (named oid_snmp_trap_oid v e) refl)

unstamped : (n : Notify) → n.timestamp ≡ pos 0 → var_bind_list n ≡ n.variables
unfolding var_bind_list
unstamped n e = rw e refl

stamped :
    (n : Notify) (t : ℕ) (v : Variable) (vs : List Variable)
    → n.timestamp ≡ pos t
    → t ≢ 0
    → n.variables ≡ v ∷ vs
    → IsNamed oid_snmp_trap_oid v
    → var_bind_list n ≡ up_time_binding t ∷ v ∷ vs
unfolding var_bind_list has_sys_up_time Variable.new_variable ObjectIdentifier.set_identifier
stamped n t v vs e ne l named_trap =
    let off : (t == 0) ≡ false = ground arith in
    rw (e, l)
      (rw (off, not_named oid_snmp_trap_oid oid_sys_up_time v named_trap trap_not_up_time) refl)

trap-timestamp :
    (v : Variable) (vs : List Variable)
    → IsNamed oid_snmp_trap_oid v
    → timestamp_of (map Wire.received (v ∷ vs)) ≡ pos 0
unfolding timestamp_of
trap-timestamp v vs e =
    rw (not_named oid_snmp_trap_oid oid_sys_up_time (Wire.received v) e trap_not_up_time) refl

received_binding :
    (t : ℕ)
    → IsU32 (t / time_tick)
    → Wire.received (up_time_binding t) ≡ up_time_binding (t / time_tick * time_tick)
unfolding classify
received_binding t small =
    let same : t / time_tick % 2 ^ 32 ≡ t / time_tick = omega arith in rw same refl

stamped-timestamp : (t : ℕ) (vs : List Variable) → timestamp_of (up_time_binding t ∷ vs) ≡ pos t
unfolding timestamp_of ObjectIdentifier.get_identifier
stamped-timestamp t vs = rw (named oid_sys_up_time (up_time_binding t) refl) refl

-- The timestamp in hundredths of a second, rounded down, and the bindings: those of the notification,
-- behind a sysUpTime.0 with the timestamp if it has one.
abbrev pub IsReceivedAs : ℕ → List Variable → Notify → Type 0
IsReceivedAs t vs m =
    (m.timestamp ≡ pos (t / time_tick * time_tick))
    × (((t ≡ 0) × (m.variables ≡ map Wire.received vs))
        ⊎ ((t ≢ 0)
            × (m.variables ≡ up_time_binding (t / time_tick * time_tick) ∷ map Wire.received vs)))

-- A notification with a timestamp that is not negative and fits the wire, and with bindings of which
-- the first is the trap OID and all have values that fit their Go types and their syntaxes, is encoded.
-- It is read back with the timestamp rounded down to hundredths of a second and with the values in the
-- decoder's Go types. Where the timestamp is not zero, a leading sysUpTime.0 of type TimeTicks that holds
-- it stands before the bindings, and where it is zero, nothing does.
pub notify_roundtrip :
    (n : Notify) (t : ℕ) (v : Variable) (vs : List Variable)
    → n.timestamp ≡ pos t
    → IsU32 (t / time_tick)
    → n.variables ≡ v ∷ vs
    → IsNamed oid_snmp_trap_oid v
    → All IsCarried (v ∷ vs)
    → (bytes : List ℕ) × (m : Notify) × (marshal_binary n ≡ ok bytes)
      × (unmarshal_binary_order bytes little ≡ ok m)
      × IsReceivedAs t (v ∷ vs) m
notify_roundtrip n t v vs e small l trap w = elim (Bool-cases (t == 0)) [
  | inl z ↦
      let zero_time : t ≡ 0 = (==_iff _ _).0 z in
      let nought : pos 0 ≡ pos (t / time_tick * time_tick) = rw zero_time refl in
      let (bytes, m, encoded, back, time, bound) =
        bindings-Carries n (v ∷ vs) (unstamped n (rw zero_time at e) ∙ l) (trap-validate v vs trap)
          w in
      (bytes, m, encoded, back, (time ∙ trap-timestamp v vs trap ∙ nought, inl (zero_time, bound)))
  | inr z ↦
      let ne : t ≢ 0 = ground arith in
      let rounded : ℕ = t / time_tick * time_tick in
      let (bytes, m, encoded, back, time, bound) =
        bindings-Carries n (up_time_binding t ∷ v ∷ vs) (stamped n t v vs e ne l trap)
          (stamped-validate t v vs trap) (up_time_binding-IsCarried t small, w) in
      let head : Wire.received (up_time_binding t) ≡ up_time_binding rounded =
        received_binding t small in
      (
        bytes,
        m,
        encoded,
        back,
        (
          (rw head at time) ∙ stamped-timestamp rounded (map Wire.received (v ∷ vs)),
          inr (ne, rw head at bound),
        ),
      )
]
