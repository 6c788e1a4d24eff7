-- ===== src/Client/Errors/Progress.antt =====
-- client.go: `reportError` never waits.
use go_agentx.Prelude.{
  ℕ, ◌+◌, ◌≤◌, ◌≡◌, refl, false, length, ltb, arith, Bool-cases, inl, inr, ==_refl,
}
use go_agentx.Client.Errors.{
  Report, away, checking, offering, unlocking, error_capacity, Errors, set_report, check_closed,
  offer, checks, offers, unlocks, Reach, next,
}
use go_agentx.Client.Errors.Safety.{Reach-IsSafe, offer-open}

module _ {E : Type 0} where
  -- The next step of a report, from where it stands.
  unfoldable pub advance : ℕ → Errors E → Errors E
  advance k s = elim (s.reports k) [
    | away ↦ s
    | checking e ↦ check_closed k e s
    | offering e ↦ offer k e s
    | unlocking ↦ set_report k away s
  ]

  advance-Reach : (k : ℕ) {s : Errors E} → Reach s → Reach (advance k s)
  unfolding advance
  advance-Reach k {s} r = from (s.reports k) refl
    where
      from : (p : Report E) → s.reports k ≡ p → Reach (advance k s)
      from away e = rw (e, advance) r
      from (checking x) e = rw (e, advance) (next r (checks k x e))
      from (offering x) e = rw (e, advance) (next r (offers k x e))
      from unlocking e = rw (e, advance) (next r (unlocks k e))

  -- How many steps of its own a report is from its end.
  abbrev left : Report E → ℕ
  left away = 0
  left unlocking = 1
  left (offering e) = 2
  left (checking e) = 3

  offer-unlocking :
      (k : ℕ) (x : E) {s : Errors E}
      → Reach s
      → s.reports k ≡ offering x
      → (offer k x s).reports k ≡ unlocking
  offer-unlocking k x {s} r e =
      let v = Reach-IsSafe r in
      let unmarked : s.error_closed ≡ false = v.offers k (rw e refl) in
      let open_channel : s.channel_closed ≡ false = ground (arith, v.announced) in
      rw (offer-open s v k x open_channel)
        (elim (Bool-cases (ltb (length s.queue) error_capacity)) [
          | inl fits ↦ rw (fits, ==_refl k) refl
          | inr full ↦ rw (full, ==_refl k) refl
        ])

  checked_left :
      (k n : ℕ) (x : E) (s : Errors E) → 3 ≤ n + 1 → left ((check_closed k x s).reports k) ≤ n
  unfolding check_closed
  checked_left k n x s l =
      rw (==_refl k) (elim (Bool-cases s.error_closed) [
        | inl c ↦ rw c (omega arith)
        | inr o ↦ rw o (omega arith)
      ])

  advance-left :
      (k n : ℕ) {s : Errors E}
      → Reach s
      → left (s.reports k) ≤ n + 1
      → left ((advance k s).reports k) ≤ n
  unfolding advance
  advance-left k n {s} r l = from (s.reports k) refl
    where
      from : (p : Report E) → s.reports k ≡ p → left ((advance k s).reports k) ≤ n
      from away e = rw (e, advance) (rw e (omega arith))
      from (checking x) e = rw (e, advance) (checked_left k n x s (rw e at l))
      from (offering x) e =
          let enough : 2 ≤ n + 1 = rw e at l in
          rw (e, advance) (rw (offer-unlocking k x r e) (omega arith))
      from unlocking e = rw (e, advance) (rw (==_refl k) (omega arith))

  -- A report never waits, neither for room in the channel nor for Close: wherever it stands once it
  -- has the read lock, three steps of its own, which are steps of the client, bring it to its end.
  pub report_returns :
      {s : Errors E} (k : ℕ)
      → Reach s
      → Reach (advance k (advance k (advance k s)))
        × ((advance k (advance k (advance k s))).reports k ≡ away)
  report_returns {s} k r =
      let r1 = advance-Reach k r in
      let r2 = advance-Reach k r1 in
      let l3 = advance-left k 2 r (at_most_three (s.reports k)) in
      let l2 = advance-left k 1 r1 l3 in (advance-Reach k r2, at_end _ (advance-left k 0 r2 l2))
    where
      at_most_three : (p : Report E) → left p ≤ 3
      at_most_three away = omega arith
      at_most_three (checking x) = omega arith
      at_most_three (offering x) = omega arith
      at_most_three unlocking = omega arith

      at_end : (p : Report E) → left p ≤ 0 → p ≡ away
      at_end away l = refl
      at_end (checking x) l = absurd (omega arith)
      at_end (offering x) l = absurd (omega arith)
      at_end unlocking l = absurd (omega arith)
