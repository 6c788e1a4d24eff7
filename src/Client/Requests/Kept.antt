-- ===== src/Client/Requests/Kept.antt =====
-- client.go: no response to a call that waits is lost, as long as the packet ids have not come round.
use go_agentx.Prelude.{
  ℕ, ◌^◌, ◌≤◌, ◌<◌, ◌≡◌, ◌⊎◌, refl, Bool, true, false, Option, none, some, List, Result, ok, err,
  crash, arith, ◌==◌,
}
use go_agentx.Prelude.Dict.{find, find-insert, find-remove}
use go_agentx.Pdu.HeaderPacket.{HeaderPacket}
use go_agentx.Client.Requests.{
  Outcome, Call, idle, numbered, listed, waiting, Requests, packet_id_of, set_call, add_pending,
  take_pending, begin, after_encoding, send_frame, receive, leave, match_response, deliver, Step,
  begins, encodes, sends, refuses, receives, expires, abandons, leaves, matches, delivers, occupies,
  writes, stops, closes, Reach, start, next,
}

abbrev pub is_idle : Call → Bool
is_idle idle = true
is_idle _ = false

-- From addPending to the end of the select.
abbrev pub is_awaiting : Call → Bool
is_awaiting (listed frame) = true
is_awaiting waiting = true
is_awaiting _ = false

abbrev is_for : ℕ → Option (ℕ × HeaderPacket) → Bool
is_for k none = false
is_for k (some (j, hp)) = j == k

abbrev is_some : Option HeaderPacket → Bool
is_some none = false
is_some (some hp) = true

-- The call is in the table, or its response is on the way.
abbrev IsKnown : Requests → ℕ → Type 0
IsKnown s k =
    (find (packet_id_of k) s.pending ≡ some k)
    ⊎ (is_for k s.delivering ≡ true)
    ⊎ (is_some (s.chans k) ≡ true)

record Kept (s : Requests) : Type 0 where
  drawn : (k : ℕ) → is_idle (s.calls k) ≡ false → k < s.begun
  known : (k : ℕ) → is_awaiting (s.calls k) ≡ true → IsKnown s k

module _ (s : Requests) (v : Kept s) where
  begin-Kept : (hp : HeaderPacket) → Kept (begin hp s)
  unfolding begin
  begin-Kept hp = record {
    drawn = λ k e. ground (arith, v.drawn k);
    known = λ k e. ground (arith, v.known k);
  }

  -- A call that goes on and stays in the select, or is past it.
  set_call-Kept :
      (k : ℕ) (c : Call)
      → is_idle (s.calls k) ≡ false
      → (is_awaiting c ≡ true → is_awaiting (s.calls k) ≡ true)
      → Kept (set_call k c s)
  set_call-Kept k c d a = record {
    drawn = λ j e. ground (arith, v.drawn j);
    known = λ j e. ground (arith, v.known j);
  }

  encoded-Kept :
      (k : ℕ) (frame : List ℕ)
      → is_idle (s.calls k) ≡ false
      → s.begun ≤ 2 ^ 32
      → Kept (add_pending (packet_id_of k) k (set_call k (listed frame) s))
  unfolding add_pending
  encoded-Kept k frame d few = record {
    drawn = λ j e. ground (arith, v.drawn j);
    known = λ j e. ground (
      arith,
      v.drawn j,
      v.drawn k,
      v.known j,
      find-insert (packet_id_of k) (packet_id_of j) k s.pending,
    );
  }

  leave-Kept :
      (k : ℕ) (o : Outcome) → is_idle (s.calls k) ≡ false → s.begun ≤ 2 ^ 32 → Kept (leave k o s)
  unfolding leave take_pending
  leave-Kept k o d few = record {
    drawn = λ j e. ground (arith, v.drawn j);
    known = λ j e. ground (
      arith,
      v.drawn j,
      v.drawn k,
      v.known j,
      find-remove (packet_id_of k) (packet_id_of j) s.pending,
    );
  }

  receive-Kept : (k : ℕ) (hp : HeaderPacket) → is_idle (s.calls k) ≡ false → Kept (receive k hp s)
  unfolding receive
  receive-Kept k hp d = record {
    drawn = λ j e. ground (arith, v.drawn j);
    known = λ j e. ground (arith, v.known j);
  }

  match-Kept : (hp : HeaderPacket) → s.delivering ≡ none → Kept (match_response hp s)
  unfolding match_response take_pending
  match-Kept hp d = record {
    drawn = λ j e. ground (arith, v.drawn j);
    known = λ j e.
        ground (arith, v.known j, find-remove hp.header.packet_id (packet_id_of j) s.pending);
  }

  deliver-Kept : (k : ℕ) (hp : HeaderPacket) → s.delivering ≡ some (k, hp) → Kept (deliver k hp s)
  unfolding deliver
  deliver-Kept k hp d = record { drawn = v.drawn; known = λ j e. ground (arith, v.known j) }

after_encoding-Kept :
    (k : ℕ) (hp : HeaderPacket) (r : Result (List ℕ)) (s : Requests)
    → s.calls k ≡ numbered hp
    → s.begun ≤ 2 ^ 32
    → Kept s
    → Kept (after_encoding k r s)
unfolding after_encoding
after_encoding-Kept k hp (ok frame) s e few v = encoded-Kept s v k frame (rw e refl) few
after_encoding-Kept k hp (err x) s e few v = set_call-Kept s v k _ (rw e refl) (λ a. cc)
after_encoding-Kept k hp (crash x) s e few v = set_call-Kept s v k _ (rw e refl) (λ a. cc)

Step-begun : {s t : Requests} → Step s t → s.begun ≤ t.begun
unfolding begin after_encoding add_pending send_frame receive leave take_pending match_response
    deliver
Step-begun {s} (begins hp) = omega arith
Step-begun {s} (encodes k hp e) = ground arith
Step-begun {s} (matches hp d ty) = ground arith
Step-begun {s} _ = omega arith

Step-Kept : {s t : Requests} → Step s t → s.begun ≤ 2 ^ 32 → Kept s → Kept t
unfolding send_frame
Step-Kept {s} (begins hp) few v = begin-Kept s v hp
Step-Kept {s} (encodes k hp e) few v = after_encoding-Kept k hp _ s e few v
Step-Kept {s} (sends k frame e r) few v =
    let w : Kept (set_call k waiting s) =
      set_call-Kept s v k waiting (rw e refl) (λ a. rw e refl) in
    record { drawn = w.drawn; known = w.known }
Step-Kept {s} (refuses k frame e d) few v = set_call-Kept s v k _ (rw e refl) (λ a. cc)
Step-Kept {s} (receives k hp e c) few v = receive-Kept s v k hp (rw e refl)
Step-Kept {s} (expires k e) few v = set_call-Kept s v k _ (rw e refl) (λ a. cc)
Step-Kept {s} (abandons k e d) few v = set_call-Kept s v k _ (rw e refl) (λ a. cc)
Step-Kept {s} (leaves k o e) few v = leave-Kept s v k o (rw e refl) few
Step-Kept {s} (matches hp d ty) few v = match-Kept s v hp d
Step-Kept {s} (delivers k hp d c) few v = deliver-Kept s v k hp d
Step-Kept {s} (occupies r) few v = record { drawn = v.drawn; known = v.known }
Step-Kept {s} (writes r) few v = record { drawn = v.drawn; known = v.known }
Step-Kept {s} (stops r d) few v = record { drawn = v.drawn; known = v.known }
Step-Kept {s} closes few v = record { drawn = v.drawn; known = v.known }

Reach-Kept : {s : Requests} → Reach s → s.begun ≤ 2 ^ 32 → Kept s
Reach-Kept start few = record { drawn = λ k e. cc; known = λ k e. cc }
Reach-Kept (next r st) few =
    let before : _ ≤ 2 ^ 32 = omega (arith, Step-begun st) in
    Step-Kept st before (Reach-Kept r before)

-- While at most 2 ^ 32 calls have been made: a response with the packet id of a call that waits, and
-- that has not got one, is taken by the dispatcher for this call.
pub response_matched :
    {s : Requests}
    → Reach s
    → s.begun ≤ 2 ^ 32
    → (k : ℕ) (hp : HeaderPacket) → s.calls k ≡ waiting
    → s.chans k ≡ none
    → s.delivering ≡ none
    → hp.header.packet_id ≡ packet_id_of k
    → (match_response hp s).delivering ≡ some (k, hp)
unfolding match_response take_pending
response_matched {s} r few k hp w c d i =
    let v : Kept s = Reach-Kept r few in ground (arith, v.known k)
