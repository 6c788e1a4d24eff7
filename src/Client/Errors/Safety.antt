-- ===== src/Client/Errors/Safety.antt =====
-- client.go: no interleaving of `reportError` and `Close` sends on a closed channel or closes one
-- twice.
use go_agentx.Prelude.{
  ℕ, ◌≤◌, ◌<◌, ◌≡◌, refl, sym, ◌∙◌, Bool, true, false, [], ◌∷◌, ◌++◌, length, length-append, ltb,
  if◌then◌else◌, arith, append_assoc, Bool-cases, inl, inr,
}
use go_agentx.Prelude.Dict.{update}
use go_agentx.Client.Errors.{
  Report, away, checking, offering, unlocking, Closer, marked, shut_down, unlocked, is_reading,
  is_writing, error_capacity, Errors, set_report, check_closed, offer, close_channel, Step, reads,
  checks, offers, unlocks, enters, locks, marks, shuts, releases, takes, Reach, start, next,
}

-- The channel is closed, or is about to be.
abbrev is_past : Closer → Bool
is_past shut_down = true
is_past unlocked = true
is_past _ = false

-- `errorClosed` is set.
abbrev has_marked : Closer → Bool
has_marked marked = true
has_marked shut_down = true
has_marked unlocked = true
has_marked _ = false

abbrev is_offering : {E : Type 0} → Report E → Bool
is_offering (offering e) = true
is_offering _ = false

module _ {E : Type 0} where
  pub record IsSafe (s : Errors E) : Type 0 where
    pub offers : (k : ℕ) → is_offering (s.reports k) ≡ true → s.error_closed ≡ false
    pub announced : s.channel_closed ≡ true → s.error_closed ≡ true
    pub unshut : is_past s.closer ≡ false → s.channel_closed ≡ false
    pub marks : has_marked s.closer ≡ true → s.error_closed ≡ true
    pub quiet : is_writing s.closer ≡ true → (k : ℕ) → is_reading (s.reports k) ≡ false
    pub no_panic : s.panicked ≡ false
    pub order : s.handled ++ s.queue ≡ s.accepted
    pub room : length s.queue ≤ error_capacity

  module _ (s : Errors E) (v : IsSafe s) where
    -- A report that goes on, under the lock.
    set_report-IsSafe :
        (k : ℕ) (r : Report E)
        → (is_offering r ≡ true → s.error_closed ≡ false)
        → (is_writing s.closer ≡ true → is_reading r ≡ false)
        → IsSafe (set_report k r s)
    set_report-IsSafe k r o q = record {
      offers = λ j e. ground (arith, v.offers j);
      announced = v.announced;
      unshut = v.unshut;
      marks = v.marks;
      quiet = λ w j. ground (arith, v.quiet w j, q w);
      no_panic = v.no_panic;
      order = v.order;
      room = v.room;
    }

    accept-IsSafe :
        (k : ℕ) (e : E)
        → length s.queue < error_capacity
        → is_writing s.closer ≡ false
        → IsSafe (record s {
          queue = s.queue ++ (e ∷ []);
          accepted = s.accepted ++ (e ∷ []);
          reports = update s.reports k unlocking;
        })
    accept-IsSafe k e l w =
        let u = set_report-IsSafe k unlocking (λ o. cc) (λ x. cc) in
        record {
          offers = u.offers;
          announced = v.announced;
          unshut = v.unshut;
          marks = v.marks;
          quiet = u.quiet;
          no_panic = v.no_panic;
          order = rw (← v.order) (sym (append_assoc s.handled s.queue (e ∷ [])));
          room = omega (arith, length-append s.queue (e ∷ []));
        }

    -- Who reads keeps the writer out.
    reading-no_writer : (k : ℕ) → is_reading (s.reports k) ≡ true → is_writing s.closer ≡ false
    reading-no_writer k r = elim (Bool-cases (is_writing s.closer)) [
      | inl w ↦ let bad : true ≡ false = sym r ∙ v.quiet w k in cc
      | inr n ↦ n
    ]

    check_closed-IsSafe :
        (k : ℕ) (e : E) → is_writing s.closer ≡ false → IsSafe (check_closed k e s)
    unfolding check_closed
    check_closed-IsSafe k e w =
        set_report-IsSafe k (if s.error_closed then unlocking else offering e) (λ o. ground arith)
          (λ x. let bad : true ≡ false = sym x ∙ w in cc)

    pub offer-open :
        (k : ℕ) (e : E)
        → s.channel_closed ≡ false
        → offer k e s ≡ (
            if ltb (length s.queue) error_capacity
            then record s {
              queue = s.queue ++ (e ∷ []);
              accepted = s.accepted ++ (e ∷ []);
              reports = update s.reports k unlocking;
            }
            else set_report k unlocking s)
    unfolding offer
    offer-open k e c = rw c refl

    close_channel-open :
        s.channel_closed ≡ false
        → close_channel s ≡ record s { channel_closed = true; closer = shut_down }
    unfolding close_channel
    close_channel-open c = rw c refl

    offer-IsSafe : (k : ℕ) (e : E) → s.reports k ≡ offering e → IsSafe (offer k e s)
    offer-IsSafe k e p =
        let unmarked : s.error_closed ≡ false = v.offers k (rw p refl) in
        let open_channel : s.channel_closed ≡ false = ground (arith, v.announced) in
        let writer : is_writing s.closer ≡ false = reading-no_writer k (rw p refl) in
        rw (offer-open k e open_channel) (elim (Bool-cases (ltb (length s.queue) error_capacity)) [
          | inl fits ↦ rw fits (accept-IsSafe k e (ground arith) writer)
          | inr full ↦ rw full (
              set_report-IsSafe k unlocking (λ o. cc)
                (λ w. let bad : true ≡ false = sym w ∙ writer in cc))
        ])

    shut-IsSafe : s.closer ≡ marked → s.error_closed ≡ true → IsSafe (close_channel s)
    shut-IsSafe p m = rw (close_channel-open (v.unshut (rw p refl))) (record {
      offers = v.offers;
      announced = λ c. m;
      unshut = λ q. cc;
      marks = λ q. m;
      quiet = λ w. v.quiet (rw p refl);
      no_panic = v.no_panic;
      order = v.order;
      room = v.room;
    })

  Step-IsSafe : {s t : Errors E} → Step s t → IsSafe s → IsSafe t
  Step-IsSafe {s} (reads k e a w) v =
      set_report-IsSafe s v k (checking e) (λ o. cc) (λ x. let bad : true ≡ false = sym x ∙ w in cc)
  Step-IsSafe {s} (checks k e p) v =
      check_closed-IsSafe s v k e (reading-no_writer s v k (rw p refl))
  Step-IsSafe {s} (offers k e p) v = offer-IsSafe s v k e p
  Step-IsSafe {s} (unlocks k p) v = set_report-IsSafe s v k away (λ o. cc) (λ w. refl)
  Step-IsSafe {s} (enters p) v = record {
    offers = v.offers;
    announced = v.announced;
    unshut = λ q. v.unshut (rw p refl);
    marks = λ q. cc;
    quiet = λ w. cc;
    no_panic = v.no_panic;
    order = v.order;
    room = v.room;
  }
  Step-IsSafe {s} (locks p free) v = record {
    offers = v.offers;
    announced = v.announced;
    unshut = λ q. v.unshut (rw p refl);
    marks = λ q. cc;
    quiet = λ w. free;
    no_panic = v.no_panic;
    order = v.order;
    room = v.room;
  }
  Step-IsSafe {s} (marks p) v = record {
    offers =
        λ k o. let r : is_reading (s.reports k) ≡ false = v.quiet (rw p refl) k in ground arith;
    announced = λ c. refl;
    unshut = λ q. v.unshut (rw p refl);
    marks = λ q. refl;
    quiet = λ w. v.quiet (rw p refl);
    no_panic = v.no_panic;
    order = v.order;
    room = v.room;
  }
  Step-IsSafe {s} (shuts p) v = shut-IsSafe s v p (v.marks (rw p refl))
  Step-IsSafe {s} (releases p) v = record {
    offers = v.offers;
    announced = v.announced;
    unshut = λ q. cc;
    marks = λ q. v.marks (rw p refl);
    quiet = λ w. cc;
    no_panic = v.no_panic;
    order = v.order;
    room = v.room;
  }
  Step-IsSafe {s} (takes e rest q) v =
      let old = v.order in
      record {
        offers = v.offers;
        announced = v.announced;
        unshut = v.unshut;
        marks = v.marks;
        quiet = v.quiet;
        no_panic = v.no_panic;
        order = append_assoc s.handled (e ∷ []) rest ∙ (rw q at old);
        room = let l : length (e ∷ rest) ≤ error_capacity = rw q at v.room in omega arith;
      }

  pub Reach-IsSafe : {s : Errors E} → Reach s → IsSafe s
  Reach-IsSafe start = record {
    offers = λ k o. refl;
    announced = λ c. cc;
    unshut = λ c. refl;
    marks = λ q. cc;
    quiet = λ w. cc;
    no_panic = refl;
    order = refl;
    room = omega arith;
  }
  Reach-IsSafe (next r st) = Step-IsSafe st (Reach-IsSafe r)

  -- Whatever the order in which reports and Close run: no step panics, what handlers of errors have
  -- taken and what the channel holds are the errors that went in, in their order, and at most 10 wait.
  pub errors_kept :
      {s : Errors E}
      → Reach s
      → (s.panicked ≡ false)
        × (s.handled ++ s.queue ≡ s.accepted)
        × (length s.queue ≤ error_capacity)
  errors_kept r = let v = Reach-IsSafe r in (v.no_panic, v.order, v.room)
