-- ===== src/Client/Requests/Invariant.antt =====
-- client.go: the tables of `request` are in order in every reachable state, whatever the order of
-- the steps and also when packet ids come round again.
use go_agentx.Prelude.{
  ℕ, ◌≡◌, ◌≢◌, refl, true, false, Option, none, some, List, [], ◌∷◌, ◌++◌, Result, ok, err, crash,
  arith, ◌==◌, Option-cases, Bool-cases, ==_iff, ==_refl, inl, inr,
}
use go_agentx.Prelude.Dict.{find, remove, update, find-remove}
use go_agentx.Pdu.Packet.{type_response}
use go_agentx.Pdu.HeaderPacket.{HeaderPacket}
use go_agentx.Client.Requests.{
  Outcome, got, timed_out, client_closed, not_encoded, panicked, numbered, listed, waiting, leaving,
  returned, Requests, packet_id_of, set_call, take_pending, after_encoding, send_frame, receive,
  leave, match_response, deliver, Step, begins, encodes, sends, refuses, receives, expires,
  abandons, leaves, matches, delivers, occupies, writes, stops, closes, ready, in_write, gone,
  Reach, start, next,
}
use go_agentx.Client.Requests.Tables.{
  Inv, IsOpen, got_of, Inv-start, later-IsOpen, begin-Inv, set_call-Inv, sent-Inv, transmitter-Inv,
  done-Inv, add_pending-Inv, remove-Inv,
}

after_encoding-Inv :
    (k : ℕ) (hp : HeaderPacket) (r : Result (List ℕ)) (s : Requests)
    → s.calls k ≡ numbered hp
    → Inv s
    → Inv (after_encoding k r s)
unfolding after_encoding
after_encoding-Inv k hp (ok frame) s e v =
    let t : Requests = set_call k (listed frame) s in
    add_pending-Inv k t (set_call-Inv k (listed frame) s v (λ p. cc) (λ i f. refl) (λ p r. cc))
      (later-IsOpen s t k (v.fresh k hp e) (omega arith) refl refl) (rw (==_refl k) refl)
after_encoding-Inv k hp (err x) s e v =
    set_call-Inv k (returned (not_encoded x)) s v (λ p. cc)
      (λ i f. let bad : false ≡ true = rw e at ((v.entry i k f).2) in cc) (λ p r. cc)
after_encoding-Inv k hp (crash x) s e v =
    set_call-Inv k (returned (panicked x)) s v (λ p. cc)
      (λ i f. let bad : false ≡ true = rw e at ((v.entry i k f).2) in cc) (λ p r. cc)

send_frame-Inv : (k : ℕ) (frame : List ℕ) (s : Requests) → Inv s → Inv (send_frame k frame s)
unfolding send_frame
send_frame-Inv k frame s v =
    transmitter-Inv (record (set_call k waiting s) { sent = s.sent ++ (frame ∷ []) }) in_write
      (sent-Inv (set_call k waiting s) (s.sent ++ (frame ∷ []))
        (set_call-Inv k waiting s v (λ p. cc) (λ i f. refl) (λ p r. cc)))

abandon-Inv :
    (k : ℕ) (o : Outcome) (s : Requests) → got_of o ≡ none → Inv s → Inv (set_call k (leaving o) s)
abandon-Inv k o s n v = set_call-Inv k (leaving o) s v (λ p. cc) (λ i f. refl) (λ p r. cc)

drain-Inv : (k : ℕ) (s : Requests) → Inv s → Inv (record s { chans = update s.chans k none })
drain-Inv k s v =
    let t : Requests = record s { chans = update s.chans k none } in
    let still : (j : ℕ) → IsOpen s j → IsOpen t j = λ j o. record {
      drawn = o.drawn;
      empty = elim (Bool-cases (k == j)) [ inl q ↦ rw q refl | inr q ↦ rw q o.empty ];
      undelivered = o.undelivered;
    } in
    record {
      entry = λ i j e. let (o, a, l) = v.entry i j e in (still j o, a, l);
      fresh = λ j p e. still j (v.fresh j p e);
      hand = λ j p e. (
        (v.hand j p e).0,
        elim (Bool-cases (k == j)) [ inl q ↦ rw q refl | inr q ↦ rw q (v.hand j p e).1 ],
      );
      chan = λ j p e. elim (Bool-cases (k == j)) [
        | inl q ↦ let bad : ◌≡◌ {A = Option HeaderPacket} none (some p) = rw q at e in cc
        | inr q ↦ v.chan j p (rw q at e)
      ];
      result = v.result;
    }

receive-Inv :
    (k : ℕ) (hp : HeaderPacket) (s : Requests) → s.chans k ≡ some hp → Inv s → Inv (receive k hp s)
unfolding receive
receive-Inv k hp s c v =
    let u : Requests = set_call k (leaving (got hp)) s in
    let w : Inv u =
      set_call-Inv k (leaving (got hp)) s v (λ p. cc) (λ i f. refl)
        (λ p r. let same : hp ≡ p = cc in rw (← same) (v.chan k hp c)) in
    drain-Inv k u w

leave-Inv : (k : ℕ) (o : Outcome) (s : Requests) → s.calls k ≡ leaving o → Inv s → Inv (leave k o s)
unfolding leave take_pending
leave-Inv k o s e v =
    let u : Requests = record s { pending = remove (packet_id_of k) s.pending } in
    set_call-Inv k (returned o) u (remove-Inv (packet_id_of k) s v) (λ p. cc)
      (λ i f.
        let kept = find-remove (packet_id_of k) i s.pending in
        let old : find i s.pending ≡ some k = ground (arith, kept) in
        let at : i ≡ packet_id_of k = (v.entry i k old).1 in ground (arith, kept))
      (λ p r. v.result k p (rw e r))

hand_over-Inv :
    (k : ℕ) (hp : HeaderPacket) (s : Requests)
    → s.delivering ≡ none
    → hp.header.type ≡ type_response
    → find hp.header.packet_id s.pending ≡ some k
    → Inv s
    → Inv (record s { pending = remove hp.header.packet_id s.pending; delivering = some (k, hp) })
hand_over-Inv k hp s d ty f v =
    let id : ℕ = hp.header.packet_id in
    let t : Requests = record s { pending = remove id s.pending; delivering = some (k, hp) } in
    let (o, at, l) = v.entry id k f in
    let others : (j : ℕ) → j ≢ k → IsOpen s j → IsOpen t j =
      λ j ne q. record { drawn = q.drawn; empty = q.empty; undelivered = λ p u. ne (cc) } in
    record {
      entry = λ i j e.
          let kept = find-remove id i s.pending in
          let (q, a, b) = v.entry i j (ground (arith, kept)) in
          (others j (λ same. ground (arith, kept)) q, a, b);
      fresh = λ j p e.
          others j (λ same. let bad : false ≡ true = rw (← same, e) at l in cc) (v.fresh j p e);
      hand = λ j p e.
          let who : k ≡ j = cc in
          let what : hp ≡ p = cc in
          rw (← who, ← what) (record { drawn = o.drawn; packet_id = at; type = ty }, o.empty);
      chan = v.chan;
      result = v.result;
    }

match_response-Inv :
    (hp : HeaderPacket) (s : Requests)
    → s.delivering ≡ none
    → hp.header.type ≡ type_response
    → Inv s
    → Inv (match_response hp s)
unfolding match_response take_pending
match_response-Inv hp s d ty v = elim (Option-cases (find hp.header.packet_id s.pending)) [
  | inl n ↦ rw (n, match_response, take_pending) (remove-Inv hp.header.packet_id s v)
  | inr (k, f) ↦ rw (f, match_response, take_pending) (hand_over-Inv k hp s d ty f v)
]

deliver-Inv :
    (k : ℕ) (hp : HeaderPacket) (s : Requests)
    → s.delivering ≡ some (k, hp)
    → Inv s
    → Inv (deliver k hp s)
unfolding deliver
deliver-Inv k hp s d v =
    let t : Requests = deliver k hp s in
    let still : (j : ℕ) → IsOpen s j → IsOpen t j = λ j o. record {
      drawn = o.drawn;
      empty = elim (Bool-cases (k == j)) [
        | inl q ↦ absurd (o.undelivered hp (rw (← (==_iff k j).0 q) d))
        | inr q ↦ rw q o.empty
      ];
      undelivered = λ p u. cc;
    } in
    record {
      entry = λ i j e. let (o, a, l) = v.entry i j e in (still j o, a, l);
      fresh = λ j p e. still j (v.fresh j p e);
      hand = λ j p e. cc;
      chan = λ j p e. elim (Bool-cases (k == j)) [
        | inl q ↦
            let there : ◌≡◌ {A = Option HeaderPacket} (some hp) (some p) = rw q at e in
            let same : hp ≡ p = cc in rw (← same, ← (==_iff k j).0 q) (v.hand k hp d).0
        | inr q ↦ v.chan j p (rw q at e)
      ];
      result = v.result;
    }

-- Every step keeps the tables in order.
pub Step-Inv : {s t : Requests} → Step s t → Inv s → Inv t
Step-Inv {s} (begins hp) v = begin-Inv hp s v
Step-Inv {s} (encodes k hp e) v = after_encoding-Inv k hp _ s e v
Step-Inv {s} (sends k frame e r) v = send_frame-Inv k frame s v
Step-Inv {s} (refuses k frame e d) v = abandon-Inv k client_closed s refl v
Step-Inv {s} (receives k hp e c) v = receive-Inv k hp s c v
Step-Inv {s} (expires k e) v = abandon-Inv k timed_out s refl v
Step-Inv {s} (abandons k e d) v = abandon-Inv k client_closed s refl v
Step-Inv {s} (leaves k o e) v = leave-Inv k o s e v
Step-Inv {s} (matches hp d ty) v = match_response-Inv hp s d ty v
Step-Inv {s} (delivers k hp d c) v = deliver-Inv k hp s d v
Step-Inv {s} (occupies r) v = transmitter-Inv s in_write v
Step-Inv {s} (writes r) v = transmitter-Inv s ready v
Step-Inv {s} (stops r d) v = transmitter-Inv s gone v
Step-Inv {s} closes v = done-Inv s v

pub Reach-Inv : {s : Requests} → Reach s → Inv s
Reach-Inv start = Inv-start
Reach-Inv (next r st) = Step-Inv st (Reach-Inv r)
