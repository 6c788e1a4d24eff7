-- ===== src/Client/Transmitter/Frames.antt =====
-- client.go: what the transmitter writes, in every order of the steps.
use go_agentx.Prelude.{
  ℕ, ◌+◌, ◌<◌, ◌≡◌, refl, sym, ap, ◌∙◌, Bool, true, false, Option, none, some, List, [], ◌∷◌, ◌++◌,
  ◌==◌, ==_iff, if◌then◌else◌, take, map, length, arith, append_assoc, append-nil, Bool-cases, inl,
  inr,
}
use go_agentx.Prelude.Dict.{update}
use go_agentx.Pdu.Header
use go_agentx.Client.Reader.{receive}
use go_agentx.Client.Reader.Loop.{Frame, frame_bytes, AllFrames, Receives, receive-frames}
use go_agentx.Client.Transmitter.{
  Phase, ready, holding, writing, stopped, Write, Transmitter, take_frame, current_conn, wrote,
  failed, Step, offers, takes, refuses, picks, writes, fails, replaces, closes, stops, here, next,
  Reach,
}

abbrev pub in_hand : Phase → List (List ℕ)
in_hand (holding frame) = frame ∷ []
in_hand (writing c frame) = frame ∷ []
in_hand _ = []

-- The bytes of a Write, which are a part of its frame if it failed.
abbrev pub bytes_of : List ℕ → Option ℕ → List ℕ
bytes_of frame none = frame
bytes_of frame (some n) = take n frame

abbrev pub is_error : Option ℕ → ℕ
is_error none = 0
is_error (some n) = 1

-- The bytes, the errors and the frames of the calls of Write on a connection, and all the errors.
abbrev pub stream_of : ℕ → List Write → List ℕ
stream_of c [] = []
stream_of c (w ∷ ws) =
    let rest = stream_of c ws in if w.conn == c then bytes_of w.frame w.error ++ rest else rest

abbrev pub errors_on : ℕ → List Write → ℕ
errors_on c [] = 0
errors_on c (w ∷ ws) =
    let rest = errors_on c ws in if w.conn == c then is_error w.error + rest else rest

abbrev pub frames_on : ℕ → List Write → List (List ℕ)
frames_on c [] = []
frames_on c (w ∷ ws) = let rest = frames_on c ws in if w.conn == c then w.frame ∷ rest else rest

abbrev pub errors_of : List Write → ℕ
errors_of [] = 0
errors_of (w ∷ ws) = is_error w.error + errors_of ws

-- What is sent of the frames that were taken, and how it stands on the connections.
pub record Sent (s : Transmitter) : Type 0 where
  pub kept : s.taken ≡ map (λ (w : Write). w.frame) s.writes ++ in_hand s.phase
  pub streamed : (c : ℕ) → s.streams c ≡ stream_of c s.writes
  pub reported : s.reports ≡ errors_of s.writes
  pub stopping : s.phase ≡ stopped → s.done ≡ true

map_frame-append :
    (ws : List Write) (w : Write)
    → map (λ (x : Write). x.frame) (ws ++ (w ∷ []))
      ≡ map (λ (x : Write). x.frame) ws ++ (w.frame ∷ [])
map_frame-append [] w = refl
map_frame-append (x ∷ ws) w = ap (λ t. x.frame ∷ t) (map_frame-append ws w)

stream_of-append :
    (c : ℕ) (ws : List Write) (w : Write)
    → stream_of c (ws ++ (w ∷ []))
      ≡ stream_of c ws ++ (if w.conn == c then bytes_of w.frame w.error else [])
stream_of-append c [] w = elim (Bool-cases (w.conn == c)) [
  | inl t ↦ rw t (append-nil (bytes_of w.frame w.error))
  | inr t ↦ rw t refl
]
stream_of-append c (x ∷ ws) w = elim (Bool-cases (x.conn == c)) [
  | inl t ↦ rw t (
      ap (λ r. bytes_of x.frame x.error ++ r) (stream_of-append c ws w)
      ∙ sym (append_assoc (bytes_of x.frame x.error) (stream_of c ws) _))
  | inr t ↦ rw t (stream_of-append c ws w)
]

errors_of-append :
    (ws : List Write) (w : Write) → errors_of (ws ++ (w ∷ [])) ≡ errors_of ws + is_error w.error
errors_of-append [] w = omega arith
errors_of-append (x ∷ ws) w = omega (arith, errors_of-append ws w)

module _ (s : Transmitter) (v : Sent s) (c : ℕ) (frame : List ℕ)
    (p : s.phase ≡ writing c frame) where
  -- A Write returns.
  written-Sent :
      (e : Option ℕ) (n : ℕ)
      → n ≡ s.reports + is_error e
      → Sent (record s {
        phase = ready;
        streams = update s.streams c (s.streams c ++ bytes_of frame e);
        reports = n;
        writes = s.writes ++ (record { conn = c; frame = frame; error = e } ∷ []);
      })
  written-Sent e n r = record {
    kept =
        v.kept
        ∙ ap (λ q. map (λ (w : Write). w.frame) s.writes ++ in_hand q) p
        ∙ sym (map_frame-append s.writes (record { conn = c; frame = frame; error = e }))
        ∙ sym (append-nil _);
    streamed = λ d. elim (Bool-cases (c == d)) [
      | inl t ↦ rw t (
          ap (λ x. s.streams x ++ bytes_of frame e) ((==_iff c d).0 t)
          ∙ ap (λ x. x ++ bytes_of frame e) (v.streamed d)
          ∙ sym (
              stream_of-append d s.writes (record { conn = c; frame = frame; error = e })
              ∙ rw t refl))
      | inr t ↦ rw t (
          v.streamed d
          ∙ sym (
              stream_of-append d s.writes (record { conn = c; frame = frame; error = e })
              ∙ rw t (append-nil _)))
    ];
    reported =
        r
        ∙ ap (λ m. m + is_error e) v.reported
        ∙ sym (errors_of-append s.writes (record { conn = c; frame = frame; error = e }));
    stopping = λ q. cc;
  }

Step-Sent : {s t : Transmitter} → Sent s → Step s t → Sent t
unfolding take_frame current_conn wrote failed
Step-Sent v (offers k f a) = record {
  kept = v.kept;
  streamed = v.streamed;
  reported = v.reported;
  stopping = v.stopping;
}
Step-Sent {s} v (takes k f o p) = record {
  kept =
      ap (λ t. t ++ (f ∷ []))
        (v.kept ∙ ap (λ q. map (λ (w : Write). w.frame) s.writes ++ in_hand q) p ∙ append-nil _);
  streamed = v.streamed;
  reported = v.reported;
  stopping = λ q. cc;
}
Step-Sent v (refuses k f o d) = record {
  kept = v.kept;
  streamed = v.streamed;
  reported = v.reported;
  stopping = v.stopping;
}
Step-Sent {s} v (picks f p) = record {
  kept = v.kept ∙ ap (λ q. map (λ (w : Write). w.frame) s.writes ++ in_hand q) p;
  streamed = v.streamed;
  reported = v.reported;
  stopping = λ q. cc;
}
Step-Sent {s} v (writes c f p) = written-Sent s v c f p none s.reports (omega arith)
Step-Sent {s} v (fails c f n p) = written-Sent s v c f p (some n) (s.reports + 1) refl
Step-Sent v replaces = record {
  kept = v.kept;
  streamed = v.streamed;
  reported = v.reported;
  stopping = v.stopping;
}
Step-Sent v closes = record {
  kept = v.kept;
  streamed = v.streamed;
  reported = v.reported;
  stopping = λ q. refl;
}
Step-Sent {s} v (stops p d) = record {
  kept = v.kept ∙ ap (λ q. map (λ (w : Write). w.frame) s.writes ++ in_hand q) p;
  streamed = v.streamed;
  reported = v.reported;
  stopping = λ q. d;
}

-- Whatever the order of the steps of the callers, the transmitter, reconnect and Close: the frames that
-- sendBytes handed over have each been given to one Write, in their order, but for the one that the
-- transmitter has; a connection has got the frames of the calls of Write on it, in their order, each
-- whole unless its Write failed; and each Write that failed was reported once.
pub Reach-Sent : {s : Transmitter} → Reach s → Sent s
Reach-Sent here = record { kept = refl; streamed = λ c. refl; reported = refl; stopping = λ q. cc }
Reach-Sent (next w p) = Step-Sent (Reach-Sent w) p

abbrev pub one_frame : Frame → List ℕ
one_frame (h, payload) = Header.marshal_binary h ++ payload

-- One Write, on the connection or not, before those of which it is known.
write-whole :
    (b : Bool) (x : Option ℕ) (frame : List ℕ) (errors : ℕ) (frames : List (List ℕ))
    (stream : List ℕ) (fs : List Frame)
    → ((gs : List Frame) → errors ≡ 0 → frames ≡ map one_frame gs → stream ≡ frame_bytes gs)
    → (if b then is_error x + errors else errors) ≡ 0
    → (if b then frame ∷ frames else frames) ≡ map one_frame fs
    → (if b then bytes_of frame x ++ stream else stream) ≡ frame_bytes fs
unfolding frame_bytes
write-whole false x frame errors frames stream fs rest e f = rest fs e f
write-whole true (some n) frame errors frames stream fs rest e f = absurd (omega arith)
write-whole true none frame errors frames stream [] rest e f = cc
write-whole true none frame errors frames stream ((h, payload) ∷ fs) rest e f =
    let first : frame ≡ one_frame (h, payload) = cc in
    let others : frames ≡ map one_frame fs = cc in
    ap (λ x. x ++ stream) first
    ∙ append_assoc (Header.marshal_binary h) payload stream
    ∙ ap (λ x. Header.marshal_binary h ++ (payload ++ x)) (rest fs (omega arith) others)

stream_of-whole :
    (c : ℕ) (ws : List Write) (fs : List Frame)
    → errors_on c ws ≡ 0
    → frames_on c ws ≡ map one_frame fs
    → stream_of c ws ≡ frame_bytes fs
stream_of-whole c [] [] e f = unfold frame_bytes in refl
stream_of-whole c [] (g ∷ fs) e f = cc
stream_of-whole c (w ∷ ws) fs e f =
    write-whole (w.conn == c) w.error w.frame (errors_on c ws) (frames_on c ws) (stream_of c ws) fs
      (stream_of-whole c ws) e f

-- At the other end of a connection on which no Write has failed, where its frames are those of packets of
-- plausible length, the receiver has one event for each of them, in their order.
pub written-Receives :
    {s : Transmitter} (c : ℕ) (fs : List Frame) (fuel : ℕ)
    → Reach s
    → errors_on c s.writes ≡ 0
    → frames_on c s.writes ≡ map one_frame fs
    → AllFrames fs
    → length fs < fuel
    → Receives fs (receive fuel (s.streams c))
written-Receives {s} c fs fuel w none_failed e frames l =
    rw ((Reach-Sent w).streamed c ∙ stream_of-whole c s.writes fs none_failed e)
      (receive-frames fs fuel frames l)
