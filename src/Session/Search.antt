-- ===== src/Session/Search.antt =====
-- Get and GetNext: one binding for each search range, or the first error.
use go_agentx.Prelude.{
  ℕ, suc, ◌+◌, ◌%◌, ◌^◌, ◌≤◌, ◌<◌, ◌≡◌, ◌≢◌, ◌⊎◌, inl, inr, refl, ap, ◌∙◌, none, some, List, [],
  ◌∷◌, ◌++◌, arith, length, length-append, map, append_assoc, append-nil,
}
use go_agentx.Pdu.ObjectIdentifier
use go_agentx.Pdu.Range.{Range}
use go_agentx.Pdu.Variable
use go_agentx.Pdu.Variable.{Variable, GoValue, nil}
use go_agentx.Pdu.Variables
use go_agentx.Pdu.Response.{Response}
use go_agentx.Prelude.Int.{pos}
use go_agentx.Handler.{GoError, pdu_error, plain, wrapped, errors_as, Answer, failed, found}
use go_agentx.Client.Replies.{error_none}
use go_agentx.Session.{set_error_or, get_error, fail, bindings, after_answer, search_loop}

pub get_error-ne-zero : (err : GoError) → get_error err ≢ error_none
unfolding set_error_or
get_error-ne-zero err = ground arith

-- The error-status for an error: the pdu.Error that it is or wraps, unless that is noError, and else
-- genErr.
abbrev pub IsStatusOf : GoError → ℕ → Type 0
IsStatusOf (pdu_error e) n = ((e ≢ 0) × (n ≡ e)) ⊎ ((e ≡ 0) × (n ≡ 5))
IsStatusOf plain n = n ≡ 5
IsStatusOf (wrapped err) n = IsStatusOf err n

get_error-IsStatusOf : (err : GoError) → IsStatusOf err (get_error err)
unfolding set_error_or errors_as
get_error-IsStatusOf (pdu_error e) = ground arith
get_error-IsStatusOf plain = refl
get_error-IsStatusOf (wrapped err) = get_error-IsStatusOf err

-- A response with an error-status, an index and no bindings.
abbrev pub IsFailure : GoError → ℕ → Response → Type 0
IsFailure err index r =
    IsStatusOf err r.error × (r.index ≡ index) × (r.variables ≡ []) × (r.up_time ≡ pos 0)

-- A response to `n` search ranges: a binding for each, or an error with the place of one of them.
abbrev pub IsSearchResponse : ℕ → Response → Type 0
IsSearchResponse n r =
    ((r.error ≡ error_none) × (r.index ≡ 0) × (length r.variables ≡ n))
    ⊎ ((r.error ≢ error_none) × (1 ≤ r.index) × (r.index ≤ n) × (r.variables ≡ []))

module _ {H : Type 0} (ask : Range → H → Answer × H) (missing : ℕ) where
  after-shape :
      (r : Range) (rs : List Range) (index : ℕ) (vs : List Variable) (n : ℕ) (a : Answer × H)
      → ((vs' : List Variable) (h' : H)
          → length vs' ≡ index + 1
          → IsSearchResponse n (search_loop ask missing rs (index + 1) vs' h').0)
      → index + 1 ≤ n
      → length vs ≡ index
      → n < 2 ^ 16
      → IsSearchResponse n
          (after_answer missing r index vs
            (λ vs' h'. search_loop ask missing rs (index + 1) vs' h')
            a).0
  unfolding Variables.add
  after-shape r rs index vs n (failed err, h) ih l k small =
      inr (get_error-ne-zero err, omega arith, omega arith, refl)
  after-shape r rs index vs n (found none t v, h) ih l k small =
      ih (Variables.add (ObjectIdentifier.get_identifier r.from) missing nil vs) h (
        omega (
          arith,
          length-append vs
              (Variable.new_variable (ObjectIdentifier.get_identifier r.from) missing nil ∷ []),
        ))
  after-shape r rs index vs n (found (some name) t v, h) ih l k small =
      ih (Variables.add name t v vs) h
        (omega (arith, length-append vs (Variable.new_variable name t v ∷ [])))

  search_loop-shape :
      (rs : List Range) (index : ℕ) (vs : List Variable) (h : H) (n : ℕ)
      → index + length rs ≡ n
      → length vs ≡ index
      → n < 2 ^ 16
      → IsSearchResponse n (search_loop ask missing rs index vs h).0
  unfolding search_loop
  search_loop-shape [] index vs h n e l small = inl (refl, refl, omega arith)
  search_loop-shape (r ∷ rs) index vs h n e l small =
      after-shape r rs index vs n (ask r h)
        (λ vs' h' l'. search_loop-shape rs (index + 1) vs' h' n (omega arith) l' small)
        (omega arith) l small

  -- For fewer than 65536 search ranges the response has either no error and one binding for each
  -- range, or an error, no bindings, and the 1-based place of a range as its index.
  pub search_response :
      (rs : List Range) (h : H)
      → length rs < 2 ^ 16
      → IsSearchResponse (length rs) (search_loop ask missing rs 0 [] h).0
  search_response rs h small = search_loop-shape rs 0 [] h (length rs) (omega arith) refl small

-- The binding for a range whose answer is no error.
abbrev pub binding_of : ℕ → Range → Answer → Variable
binding_of missing r (failed err) =
    Variable.new_variable (ObjectIdentifier.get_identifier r.from) missing nil
binding_of missing r (found none t v) =
    Variable.new_variable (ObjectIdentifier.get_identifier r.from) missing nil
binding_of missing r (found (some name) t v) = Variable.new_variable name t v

abbrev pub IsFound : Answer → Type 0
IsFound (failed err) = ⊥
IsFound (found name t v) = Unit

abbrev pub AllFound : (Range → Answer) → List Range → Type 0
AllFound f [] = Unit
AllFound f (r ∷ rs) = IsFound (f r) × AllFound f rs

-- A handler that its answers leave in its state.
module _ {H : Type 0} (ask : Range → H → Answer × H) (missing : ℕ) (f : Range → Answer) (h : H)
    (pure : (r : Range) → ask r h ≡ (f r, h)) where
  after-found :
      (r : Range) (index : ℕ) (vs : List Variable) (next : List Variable → H → Response × H)
      (a : Answer)
      → IsFound a
      → after_answer missing r index vs next (a, h) ≡ next (vs ++ (binding_of missing r a ∷ [])) h
  unfolding Variables.add
  after-found r index vs next (failed err) w = absurd w
  after-found r index vs next (found none t v) w = refl
  after-found r index vs next (found (some name) t v) w = refl

  pub search_loop-front :
      (front rest : List Range) (index : ℕ) (vs : List Variable)
      → AllFound f front
      → search_loop ask missing (front ++ rest) index vs h
        ≡ search_loop ask missing rest
            (index + length front)
            (vs ++ map (λ r. binding_of missing r (f r)) front)
            h
  unfolding search_loop
  search_loop-front [] rest index vs w =
      rw append-nil (ap (λ (i : ℕ). search_loop ask missing rest i vs h) (omega arith))
  search_loop-front (r ∷ front) rest index vs w =
      let b : Variable = binding_of missing r (f r) in
      let bs : List Variable = map (λ x. binding_of missing x (f x)) front in
      let e : index + 1 + length front ≡ index + suc (length front) = omega arith in
      let moved : search_loop ask missing rest (index + 1 + length front) ((vs ++ (b ∷ [])) ++ bs) h
          ≡ search_loop ask missing rest (index + suc (length front)) (vs ++ (b ∷ bs)) h =
        rw (e, append_assoc vs (b ∷ []) bs) refl in
      rw (pure r) (
        after-found r index vs
          (λ vs' h'. search_loop ask missing (front ++ rest) (index + 1) vs' h') (f r) w.0
        ∙ search_loop-front front rest (index + 1) (vs ++ (b ∷ [])) w.1
        ∙ moved)

  at_failure :
      (r : Range) (back : List Range) (index : ℕ) (vs : List Variable) (err : GoError)
      → f r ≡ failed err
      → (search_loop ask missing (r ∷ back) index vs h).0 ≡ fail (get_error err) (index + 1)
  unfolding search_loop
  at_failure r back index vs err e = rw (pure r) (rw (e, after_answer))

  pub search_loop-AllFound :
      (front : List Range)
      → AllFound f front
      → search_loop ask missing front 0 [] h
        ≡ (bindings (map (λ r. binding_of missing r (f r)) front), h)
  unfolding search_loop
  search_loop-AllFound front w = rw append-nil at (search_loop-front front [] 0 [] w)

  pub all_found :
      (front : List Range)
      → AllFound f front
      → (search_loop ask missing front 0 [] h).0
        ≡ bindings (map (λ r. binding_of missing r (f r)) front)
  all_found front w = ap (λ (p : Response × H). p.0) (search_loop-AllFound front w)

  -- With a handler whose state its answers do not change, a search whose answers are no errors has the
  -- binding of every range, in order. One whose first error is at some range has as its error-status the
  -- pdu.Error that the error is or wraps, or genErr if there is none or it is noError; as its index the
  -- 1-based place of the range as a uint16; and no bindings.
  pub search_answers :
      (front : List Range)
      → AllFound f front
      → ((search_loop ask missing front 0 [] h).0
          ≡ bindings (map (λ r. binding_of missing r (f r)) front))
        × ((r : Range) (back : List Range) (err : GoError)
            → f r ≡ failed err
            → IsFailure err
                ((length front + 1) % 2 ^ 16)
                (search_loop ask missing (front ++ (r ∷ back)) 0 [] h).0)
  search_answers front w = (
    all_found front w,
    λ r back err e.
        let same : (search_loop ask missing (front ++ (r ∷ back)) 0 [] h).0
            ≡ fail (get_error err) (length front + 1) =
          ap (λ (p : Response × H). p.0) (search_loop-front front (r ∷ back) 0 [] w)
          ∙ at_failure r back (0 + length front) (map (λ x. binding_of missing x (f x)) front) err e
          ∙ ap (λ (n : ℕ). fail (get_error err) n) (omega arith) in
        rw same (get_error-IsStatusOf err, refl, refl, refl),
  )
