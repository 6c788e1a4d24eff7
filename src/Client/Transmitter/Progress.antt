-- ===== src/Client/Transmitter/Progress.antt =====
-- client.go: a call of `sendBytes` returns, if each Write does.
use go_agentx.Prelude.{ℕ, ◌≡◌, ◌⊎◌, refl, true, false, List, ◌==◌, ==_refl, inl, inr}
use go_agentx.Prelude.Dict.{update}
use go_agentx.Client.Transmitter.{
  offering, accepted, refused, Phase, ready, holding, writing, stopped, Transmitter, take_frame,
  current_conn, wrote, takes, refuses, picks, writes, Steps, here, next, Reach,
}
use go_agentx.Client.Transmitter.Frames.{Reach-Sent}

-- The call has returned, and what is closed and where the other calls stand is as it was.
abbrev pub Returns : ℕ → Transmitter → Transmitter → Type 0
Returns k s t =
    ((t.calls k ≡ accepted) ⊎ (t.calls k ≡ refused))
    × (t.done ≡ s.done)
    × ((j : ℕ) → (k == j) ≡ false → t.calls j ≡ s.calls j)

module _ (k : ℕ) (frame : List ℕ) where
  from_ready :
      (s : Transmitter)
      → s.calls k ≡ offering frame
      → s.phase ≡ ready
      → (t : Transmitter) × Steps s t × Returns k s t
  unfolding take_frame
  from_ready s o p = (
    take_frame k frame s,
    next here (takes k frame o p),
    (inl (rw (==_refl k) refl), refl, (λ j n. rw n refl)),
  )

  from_writing :
      (s : Transmitter) (c : ℕ) (other : List ℕ)
      → s.calls k ≡ offering frame
      → s.phase ≡ writing c other
      → (t : Transmitter) × Steps s t × Returns k s t
  unfolding wrote take_frame
  from_writing s c other o p = (
    take_frame k frame (wrote c other s),
    next (next here (writes c other p)) (takes k frame o refl),
    (inl (rw (==_refl k) refl), refl, (λ j n. rw n refl)),
  )

  from_holding :
      (s : Transmitter) (other : List ℕ)
      → s.calls k ≡ offering frame
      → s.phase ≡ holding other
      → (t : Transmitter) × Steps s t × Returns k s t
  unfolding current_conn wrote take_frame
  from_holding s other o p = (
    take_frame k frame (wrote s.conn other (current_conn other s)),
    next (next (next here (picks other p)) (writes s.conn other refl)) (takes k frame o refl),
    (inl (rw (==_refl k) refl), refl, (λ j n. rw n refl)),
  )

  from_stopped :
      (s : Transmitter)
      → s.calls k ≡ offering frame
      → s.done ≡ true
      → (t : Transmitter) × Steps s t × Returns k s t
  from_stopped s o d = (
    record s { calls = update s.calls k refused },
    next here (refuses k frame o d),
    (inr (rw (==_refl k) refl), refl, (λ j n. rw n refl)),
  )

-- From every state that can be reached, a call of sendBytes that has begun can return by steps of the
-- transmitter, or alone if that has ended, without another Close and without a step of another call.
pub offer-Returns :
    {s : Transmitter} (k : ℕ) (frame : List ℕ)
    → Reach s
    → s.calls k ≡ offering frame
    → (t : Transmitter) × Steps s t × Returns k s t
offer-Returns {s} k frame w o = by s.phase refl
  where
    by : (p : Phase) → s.phase ≡ p → (t : Transmitter) × Steps s t × Returns k s t
    by ready e = from_ready k frame s o e
    by (holding other) e = from_holding k frame s other o e
    by (writing c other) e = from_writing k frame s c other o e
    by stopped e = from_stopped k frame s o ((Reach-Sent w).stopping e)
