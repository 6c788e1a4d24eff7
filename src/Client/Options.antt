-- ===== src/Client/Options.antt =====
-- dial_options.go, and the timeouts that client.go takes from the options.
use go_agentx.Prelude.{
  ◌*◌, ltb, Bool-cases, inl, inr, ◌^◌, ◌≡◌, refl, Bool, true, false, Option, none, some, List, [],
  ◌∷◌, ◌++◌, if◌then◌else◌,
}
use go_agentx.Prelude.Int.{ℤ, pos, negsuc}

-- Loggers and handlers of errors are values of any types.
pub record Options (L E : Type 0) : Type 0 where
  pub logger : Option L
  pub timeout : ℤ
  pub reconnect_interval : ℤ
  pub error_handler : Option E

pub data DialOption (L E : Type 0) : Type 0 where
  with_logger : L → DialOption L E
  with_timeout : ℤ → DialOption L E
  with_reconnect_interval : ℤ → DialOption L E
  with_error_handler : E → DialOption L E

-- In nanoseconds.
abbrev pub default_request_timeout : ℤ
default_request_timeout = pos (30 * 10 ^ 9)

abbrev pub default_reconnect_interval : ℤ
default_reconnect_interval = pos (10 ^ 9)

abbrev pub is_positive : ℤ → Bool
is_positive (pos n) = ltb 0 n
is_positive (negsuc n) = false

module _ {L E : Type 0} where
  unfoldable pub apply : DialOption L E → Options L E → Options L E
  apply (with_logger l) o = record o { logger = some l }
  apply (with_timeout t) o = record o { timeout = t }
  apply (with_reconnect_interval t) o = record o { reconnect_interval = t }
  apply (with_error_handler e) o = record o { error_handler = some e }

  -- The loop of `newClient`, in the order of the options.
  unfoldable pub apply_all : List (DialOption L E) → Options L E → Options L E
  apply_all [] o = o
  apply_all (d ∷ ds) o = apply_all ds (apply d o)

  abbrev pub zero_options : Options L E
  zero_options = record {
    logger = none;
    timeout = pos 0;
    reconnect_interval = pos 0;
    error_handler = none;
  }

  unfoldable pub request_timeout : Options L E → ℤ
  request_timeout o = if is_positive o.timeout then o.timeout else default_request_timeout

  unfoldable pub reconnect_interval : Options L E → ℤ
  reconnect_interval o =
      if is_positive o.reconnect_interval then o.reconnect_interval else default_reconnect_interval

  abbrev pub sets_timeout : DialOption L E → Bool
  sets_timeout (with_timeout t) = true
  sets_timeout _ = false

  abbrev pub NoneSets : List (DialOption L E) → Type 0
  NoneSets [] = Unit
  NoneSets (d ∷ ds) = (sets_timeout d ≡ false) × NoneSets ds

  apply-timeout :
      (d : DialOption L E) (o : Options L E)
      → sets_timeout d ≡ false
      → (apply d o).timeout ≡ o.timeout
  unfolding apply
  apply-timeout (with_timeout t) o e = cc
  apply-timeout d o e = refl

  kept :
      (ds : List (DialOption L E)) (o : Options L E)
      → NoneSets ds
      → (apply_all ds o).timeout ≡ o.timeout
  unfolding apply_all
  kept [] o w = refl
  kept (d ∷ ds) o (e, w) = rw (kept ds (apply d o) w) (apply-timeout d o e)

  -- A request waits for the time of the last WithTimeout if that is positive, and for 30 seconds if it
  -- is not, whatever the other options are and wherever they stand.
  pub request_timeout-apply :
      (front back : List (DialOption L E)) (t : ℤ) (o : Options L E)
      → NoneSets back
      → request_timeout (apply_all (front ++ (with_timeout t ∷ back)) o)
        ≡ (if is_positive t then t else default_request_timeout)
  unfolding apply_all apply request_timeout
  request_timeout-apply [] back t o w = rw (kept back (record o { timeout = t }) w) refl
  request_timeout-apply (d ∷ front) back t o w = request_timeout-apply front back t (apply d o) w

  -- Neither of the two times is ever 0 or negative, so that no wait is without a bound and the
  -- reconnection does not spin.
  pub times_positive :
      (o : Options L E)
      → (is_positive (request_timeout o) ≡ true) × (is_positive (reconnect_interval o) ≡ true)
  unfolding request_timeout reconnect_interval
  times_positive o = (
    positive o.timeout default_request_timeout refl,
    positive o.reconnect_interval default_reconnect_interval refl,
  )
    where
      positive :
          (t default : ℤ)
          → is_positive default ≡ true
          → is_positive (if is_positive t then t else default) ≡ true
      positive t default e = elim (Bool-cases (is_positive t)) [ inl p ↦ rw p p | inr n ↦ rw n e ]
