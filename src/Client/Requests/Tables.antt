-- ===== src/Client/Requests/Tables.antt =====
-- client.go: what the tables of `request` hold in order, and the changes of one table or of one call
-- that keep it.
use go_agentx.Prelude.{
  ℕ, ◌+◌, ◌<◌, ◌≡◌, ◌≢◌, refl, Bool, true, false, Option, none, some, List, arith, ◌==◌,
  Option-cases, Bool-cases, ◌≤◌, ==_iff, sym, inl, inr,
}
use go_agentx.Prelude.Dict.{find, remove, find-insert, find-remove}
use go_agentx.Pdu.Packet.{type_response}
use go_agentx.Pdu.HeaderPacket.{HeaderPacket}
use go_agentx.Client.Requests.{
  Outcome, got, Call, numbered, listed, waiting, leaving, returned, Transmitting, Requests,
  packet_id_of, set_call, add_pending, begin, none_begun,
}

-- From addPending to the deferred takePending.
abbrev pub is_listed : Call → Bool
is_listed (listed frame) = true
is_listed waiting = true
is_listed (leaving o) = true
is_listed _ = false

abbrev pub got_of : Outcome → Option HeaderPacket
got_of (got hp) = some hp
got_of _ = none

-- The response that a call is about to return or has returned.
abbrev pub result_of : Call → Option HeaderPacket
result_of (leaving o) = got_of o
result_of (returned o) = got_of o
result_of _ = none

-- A Response under the packet id that the call drew.
pub record IsAnswerTo (begun k : ℕ) (hp : HeaderPacket) : Type 0 where
  pub drawn : k < begun
  pub packet_id : hp.header.packet_id ≡ packet_id_of k
  pub type : hp.header.type ≡ type_response

-- Nothing has come for the call: its channel is empty and the dispatcher has nothing for it at hand.
pub record IsOpen (s : Requests) (k : ℕ) : Type 0 where
  pub drawn : k < s.begun
  pub empty : s.chans k ≡ none
  pub undelivered : (hp : HeaderPacket) → s.delivering ≢ some (k, hp)

pub record Inv (s : Requests) : Type 0 where
  pub entry :
      (i k : ℕ)
      → find i s.pending ≡ some k
      → IsOpen s k × (i ≡ packet_id_of k) × (is_listed (s.calls k) ≡ true)
  pub fresh : (k : ℕ) (hp : HeaderPacket) → s.calls k ≡ numbered hp → IsOpen s k
  pub hand :
      (k : ℕ) (hp : HeaderPacket)
      → s.delivering ≡ some (k, hp)
      → IsAnswerTo s.begun k hp × (s.chans k ≡ none)
  pub chan : (k : ℕ) (hp : HeaderPacket) → s.chans k ≡ some hp → IsAnswerTo s.begun k hp
  pub result :
      (k : ℕ) (hp : HeaderPacket) → result_of (s.calls k) ≡ some hp → IsAnswerTo s.begun k hp

pub Inv-start : Inv none_begun
unfolding find
Inv-start = record {
  entry = λ i k e. cc;
  fresh = λ k hp e. cc;
  hand = λ k hp e. cc;
  chan = λ k hp e. cc;
  result = λ k hp e. cc;
}

-- A call that has not drawn its packet id.
new-IsOpen :
    (s t : Requests) (k : ℕ)
    → Inv s
    → k ≡ s.begun
    → t.begun ≡ s.begun + 1
    → t.chans ≡ s.chans
    → t.delivering ≡ s.delivering
    → IsOpen t k
new-IsOpen s t k v e b c d = record {
  drawn = omega arith;
  empty = elim (Option-cases (s.chans k)) [
    | inl n ↦ rw c n
    | inr (hp, o) ↦ absurd (omega (arith, (v.chan k hp o).drawn))
  ];
  undelivered = λ hp u. absurd (omega (arith, (v.hand k hp (rw d at u)).0.drawn));
}

-- What a call has open or has got is not changed by a step that leaves it alone.
pub later-IsOpen :
    (s t : Requests) (k : ℕ)
    → IsOpen s k
    → s.begun ≤ t.begun
    → t.chans k ≡ s.chans k
    → t.delivering ≡ s.delivering
    → IsOpen t k
later-IsOpen s t k o b c d = record {
  drawn = omega (arith, o.drawn);
  empty = rw c o.empty;
  undelivered = λ hp u. o.undelivered hp (rw d at u);
}

pub begin-Inv : (hp : HeaderPacket) (s : Requests) → Inv s → Inv (begin hp s)
unfolding begin
begin-Inv hp s v = record {
  entry = λ i k e.
      let (o, a, l) = v.entry i k e in
      (later-IsOpen s (begin hp s) k o (omega arith) refl refl, a, ground (arith, o.drawn, l));
  fresh = λ k p e. elim (Bool-cases (s.begun == k)) [
    | inl q ↦ new-IsOpen s (begin hp s) k v (ground arith) refl refl refl
    | inr q ↦ later-IsOpen s (begin hp s) k (v.fresh k p (rw q at e)) (omega arith) refl refl
  ];
  hand = λ k p e. ground (arith, v.hand k p);
  chan = λ k p e. ground (arith, v.chan k p);
  result = λ k p e. ground (arith, v.result k p);
}

-- A call that goes on, from its own code, with what it has open or has got as it was.
pub set_call-Inv :
    (k : ℕ) (c : Call) (s : Requests)
    → Inv s
    → ((hp : HeaderPacket) → c ≢ numbered hp)
    → ((i : ℕ) → find i s.pending ≡ some k → is_listed c ≡ true)
    → ((hp : HeaderPacket) → result_of c ≡ some hp → IsAnswerTo s.begun k hp)
    → Inv (set_call k c s)
set_call-Inv k c s v n l r = record {
  entry = λ i j e.
      let (o, a, b) = v.entry i j e in
      (
        later-IsOpen s (set_call k c s) j o (omega arith) refl refl,
        a,
        elim (Bool-cases (k == j)) [
          | inl q ↦ rw q (l i (rw ((==_iff k j).0 q) e))
          | inr q ↦ rw q b
        ],
      );
  fresh = λ j p e. elim (Bool-cases (k == j)) [
    | inl q ↦ absurd (n p (rw q at e))
    | inr q ↦ later-IsOpen s (set_call k c s) j (v.fresh j p (rw q at e)) (omega arith) refl refl
  ];
  hand = v.hand;
  chan = v.chan;
  result = λ j p e. elim (Bool-cases (k == j)) [
    | inl q ↦ rw (← (==_iff k j).0 q) (r p (rw q at e))
    | inr q ↦ v.result j p (rw q at e)
  ];
}

pub sent-Inv : (s : Requests) (frames : List (List ℕ)) → Inv s → Inv (record s { sent = frames })
sent-Inv s frames v =
    let t : Requests = record s { sent = frames } in
    record {
      entry = λ i k e.
          let (o, a, l) = v.entry i k e in (later-IsOpen s t k o (omega arith) refl refl, a, l);
      fresh = λ k p e. later-IsOpen s t k (v.fresh k p e) (omega arith) refl refl;
      hand = v.hand;
      chan = v.chan;
      result = v.result;
    }

pub transmitter-Inv : (s : Requests) (x : Transmitting) → Inv s → Inv (record s { transmitter = x })
transmitter-Inv s x v =
    let t : Requests = record s { transmitter = x } in
    record {
      entry = λ i k e.
          let (o, a, l) = v.entry i k e in (later-IsOpen s t k o (omega arith) refl refl, a, l);
      fresh = λ k p e. later-IsOpen s t k (v.fresh k p e) (omega arith) refl refl;
      hand = v.hand;
      chan = v.chan;
      result = v.result;
    }

pub done-Inv : (s : Requests) → Inv s → Inv (record s { done = true })
done-Inv s v =
    let t : Requests = record s { done = true } in
    record {
      entry = λ i k e.
          let (o, a, l) = v.entry i k e in (later-IsOpen s t k o (omega arith) refl refl, a, l);
      fresh = λ k p e. later-IsOpen s t k (v.fresh k p e) (omega arith) refl refl;
      hand = v.hand;
      chan = v.chan;
      result = v.result;
    }

pub add_pending-Inv :
    (k : ℕ) (s : Requests)
    → Inv s
    → IsOpen s k
    → is_listed (s.calls k) ≡ true
    → Inv (add_pending (packet_id_of k) k s)
unfolding add_pending
add_pending-Inv k s v open_k l =
    let t : Requests = add_pending (packet_id_of k) k s in
    record {
      entry = λ i j e. elim (Bool-cases (packet_id_of k == i)) [
        | inl q ↦
            let same : k ≡ j = ground (arith, find-insert (packet_id_of k) i k s.pending) in
            rw (← same)
              (later-IsOpen s t k open_k (omega arith) refl refl, sym ((==_iff _ i).0 q), l)
        | inr q ↦
            let old : find i s.pending ≡ some j =
              ground (arith, find-insert (packet_id_of k) i k s.pending) in
            let (o, a, b) = v.entry i j old in (later-IsOpen s t j o (omega arith) refl refl, a, b)
      ];
      fresh = λ j p e. later-IsOpen s t j (v.fresh j p e) (omega arith) refl refl;
      hand = v.hand;
      chan = v.chan;
      result = v.result;
    }

pub remove-Inv : (i : ℕ) (s : Requests) → Inv s → Inv (record s { pending = remove i s.pending })
remove-Inv i s v =
    let t : Requests = record s { pending = remove i s.pending } in
    record {
      entry = λ j k e.
          let (o, a, l) = v.entry j k (ground (arith, find-remove i j s.pending)) in
          (later-IsOpen s t k o (omega arith) refl refl, a, l);
      fresh = λ k p e. later-IsOpen s t k (v.fresh k p e) (omega arith) refl refl;
      hand = v.hand;
      chan = v.chan;
      result = v.result;
    }
