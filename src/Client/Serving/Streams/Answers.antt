-- ===== src/Client/Serving/Streams/Answers.antt =====
-- A stream of GetNexts for the list handler, and the stream of the answers: list_handler.go behind
-- session.go and client.go.
use go_agentx.Prelude.{
  ℕ, zero, suc, ◌<◌, ◌≡◌, refl, ap, ◌∙◌, some, List, [], ◌∷◌, ◌++◌, map, length, All, arith, ok,
}
use go_agentx.Pdu.Sequence.{concat_map}
use go_agentx.Pdu.Range.Wire as RangeWire
use go_agentx.Pdu.Variable.{type_end_of_mib_view}
use go_agentx.Pdu.Packet.{response}
use go_agentx.Pdu.Response.{Response}
use go_agentx.Client.Replies.{reply_header}
use go_agentx.Client.Reader.{Event, delivered, End, stream_end, eof, receive}
use go_agentx.Client.Reader.Loop.{frame_bytes}
use go_agentx.Client.Reader.Exchange.{received}
use go_agentx.Client.Serving.{sent_for, IsAnswered, sent_for-bindings}
use go_agentx.Client.Serving.Lists.{next_of, next-AllFound, next-AreNextBindings}
use go_agentx.ListHandler.{ListHandler, handler}
use go_agentx.ListHandler.Next.{IsValid}
use go_agentx.Session.{
  PendingSets, handle, handle_packet, respond, context_of, ask_get_next, bindings,
}
use go_agentx.Session.Search.{search_loop-AllFound}
use go_agentx.Client.Serving.Streams.{
  AreNextAnswers, Asked, IsAsked, at_rest, next_bindings, packets_of, receive_next, receive_nothing,
  receive_requests, request_frame, run_on, shown,
}

module _ (l : ListHandler) (valid : IsValid l) (pending : PendingSets) where
  handle_next :
      (q : Asked)
      → handle (some handler) (shown q) (at_rest l pending) ≡ (
        some (record {
          header = reply_header q.0;
          packet = response (bindings (next_bindings l q.1));
        }),
        (at_rest l pending),
      )
  unfolding handle handle_packet respond ask_get_next
  handle_next (h, rs) =
      ap
        (λ (r : Response × ListHandler). (
          some (record { header = reply_header h; packet = response r.0 }),
          record (at_rest l pending) { handler_state = r.1 },
        ))
        (search_loop-AllFound (ask_get_next (some handler) (context_of h)) type_end_of_mib_view
          (next_of l) l (λ r. refl) (map RangeWire.exclusive rs)
          (next-AllFound l valid (map RangeWire.exclusive rs)))

  -- One frame, whatever follows it on the connection.
  sent_next :
      (q : Asked)
      → IsAsked l q
      → (frame : List ℕ) × (sent_for (
            some (record {
              header = reply_header q.0;
              packet = response (bindings (next_bindings l q.1));
            }))
          ≡ ok (some frame))
        × ((rest : List ℕ) → IsAnswered q.0 (next_bindings l q.1) frame rest)
  sent_next (h, rs) w =
      let (frame, e, back) =
        sent_for-bindings h (next_bindings l rs) [] w.framed.wire w.carried w.small in
      (
        frame,
        e,
        (λ rest.
            let (frame', e', back') =
              sent_for-bindings h (next_bindings l rs) rest w.framed.wire w.carried w.small in
            let same : frame' ≡ frame = cc (e, e') in rw same at back'),
      )

  -- The end of the stream of answers, read at the other end.
  abbrev AreAnswersOn : List Asked → List (List ℕ) → Type 0
  AreAnswersOn qs frames =
      (fuel : ℕ)
      → length qs < fuel
      → AreNextAnswers l qs (receive fuel (concat_map (λ frame. frame) frames)).0
        × ((receive fuel (concat_map (λ frame. frame) frames)).1 ≡ stream_end eof)

  next-AreAnswersOn :
      (q : Asked) (qs : List Asked) (frame : List ℕ) (frames : List (List ℕ))
      → IsAnswered q.0 (next_bindings l q.1) frame (concat_map (λ f. f) frames)
      → AreAnswersOn qs frames
      → AreAnswersOn (q ∷ qs) (frame ∷ frames)
  unfolding concat_map
  next-AreAnswersOn q qs frame frames (head, read, a, b, c) others zero n = absurd (omega arith)
  next-AreAnswersOn q qs frame frames (head, read, a, b, c) others (suc fuel) n =
      rw
        (receive_next fuel (frame ++ concat_map (λ f. f) frames) (concat_map (λ f. f) frames)
          (record {
            header = head;
            packet = response (received 0 (bindings (next_bindings l q.1)));
          })
          read)
        (
          (
            (
              next_bindings l q.1,
              next-AreNextBindings l valid (map RangeWire.exclusive q.1),
              refl,
              a,
              b,
              c,
            ),
            (others fuel (omega arith)).0,
          ),
          (others fuel (omega arith)).1,
        )

  run_requests :
      (qs : List Asked)
      → All (IsAsked l) qs
      → (frames : List (List ℕ)) × (run_on (some handler) (at_rest l pending) (map shown qs)
          ≡ ok frames)
        × AreAnswersOn qs frames
  unfolding run_on concat_map
  run_requests [] w = ([], refl, (λ fuel n. rw (receive_nothing fuel n) (tt, refl)))
  run_requests (q ∷ qs) w =
      let (frame, e, back) = sent_next q w.0 in
      let (frames, es, answers) = run_requests qs w.1 in
      (
        frame ∷ frames,
        rw (handle_next q) (rw e (rw es refl)),
        next-AreAnswersOn q qs frame frames (back (concat_map (λ f. f) frames)) answers,
      )

  packets_of-shown :
      (qs : List Asked) → packets_of (map (λ q. delivered (shown q)) qs) ≡ map shown qs
  packets_of-shown [] = refl
  packets_of-shown (q ∷ qs) = ap (λ ps. shown q ∷ ps) (packets_of-shown qs)

  -- Any number of GetNexts for a valid list handler, one after the other on the stream, each in the
  -- byte order of its flags, with search ranges that fit the wire, and with bindings that can be
  -- encoded within the limit of a payload: the receiver delivers them all, the session sends one
  -- frame for each, and the receiver at the other end of the connection has from these frames one
  -- Response for each request, in their order, under the ids of the request, with a binding for
  -- each range, as the decoder reads it: the least OID of the range with its item, or the starting
  -- OID with endOfMibView.
  pub requests-AreServed :
      (qs : List Asked) (fuel : ℕ)
      → All (IsAsked l) qs
      → length qs < fuel
      → (frames : List (List ℕ)) × (run_on
            (some handler)
            (at_rest l pending)
            (packets_of (receive fuel (frame_bytes (map request_frame qs))).0)
          ≡ ok frames)
        × AreNextAnswers l qs (receive fuel (concat_map (λ frame. frame) frames)).0
        × ((receive fuel (concat_map (λ frame. frame) frames)).1 ≡ stream_end eof)
  requests-AreServed qs fuel w n =
      let (frames, e, answers) = run_requests qs w in
      let packets =
        ap (λ (r : List Event × End). packets_of r.0) (receive_requests l qs fuel w n)
        ∙ packets_of-shown qs in
      (frames, rw packets e, (answers fuel n).0, (answers fuel n).1)
