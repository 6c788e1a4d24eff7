-- ===== src/ListHandler/Register/Noncanonical.antt =====
-- `Add` of an OID written in another way than `OID.String` writes it.
use go_agentx.Prelude.{
  ℕ, ◌≡◌, ◌≢◌, ◌⊎◌, refl, sym, ap, ◌∙◌, true, false, Option, none, some, List, [], ◌∷◌, ◌++◌, arith,
  inl, inr, ok, list_eq, list_eq_iff,
}
use go_agentx.Oid.{Oid, parse_oid, to_string}
use go_agentx.Oid.Sort.{IsSorted, sort-IsSorted}
use go_agentx.Oid.Order.{Precedes}
use go_agentx.Pdu.ObjectIdentifier
use go_agentx.Pdu.Range.{Range}
use go_agentx.Pdu.Response.{Response}
use go_agentx.Pdu.Variable
use go_agentx.Pdu.Variable.{nil, type_no_such_object, type_end_of_mib_view}
use go_agentx.Pdu.Variables
use go_agentx.Session.{ask_get_next, after_answer, search_loop, bindings}
use go_agentx.Handler.{Context, Answer, found}
use go_agentx.ListHandler.{handler, ListHandler, lookup, add, get, find_within, get_next}
use go_agentx.ListHandler.Lookup.{item_of, get-answer_of}
use go_agentx.ListHandler.Next.{In, IsFirst, find_within-IsFirst}
use go_agentx.ListHandler.Register.{added, add_new, item_of-added, sort-In, In-snoc_last}

-- The range goes on behind an OID, or has no end.
abbrev pub EndsBehind : Oid → Oid → Type 0
EndsBehind o to = (to ≡ []) ⊎ Precedes o to

-- From an OID of the list, itself included, the first in range is the OID itself.
find_own :
    (o to : Oid) (os : List Oid) (r : Option Oid)
    → EndsBehind o to
    → In o os
    → IsFirst o true to os r
    → r ≡ some o
find_own o to os none b i f = absurd (f o i (inr (refl, refl), b))
find_own o to os (some p) b i f = elim f.1.0 [
  | inl before ↦ absurd (f.2 o i (inr (refl, refl), b) before)
  | inr same ↦ ap some (sym same.1)
]

missing_next :
    (l : ListHandler) (o to : Oid)
    → EndsBehind o to
    → IsSorted l.oids
    → In o l.oids
    → get l o ≡ found none type_no_such_object nil
    → get_next l o true to ≡ found none type_no_such_object nil
unfolding get_next
missing_next l o to b s i g =
    let e : find_within l.oids o true to ≡ some o =
      find_own o to l.oids (find_within l.oids o true to) b i
        (find_within-IsFirst o true to l.oids s) in
    rw (e, get_next) g

-- What a session answers to a GetNext of one range.
abbrev pub next_response : Context → Range → ListHandler → Response
next_response ctx r l =
    (search_loop (ask_get_next (some handler) ctx) type_end_of_mib_view (r ∷ []) 0 [] l).0

missing_response :
    (ctx : Context) (r : Range) (l : ListHandler)
    → get_next l
        (ObjectIdentifier.get_identifier r.from)
        (ObjectIdentifier.get_include r.from)
        (ObjectIdentifier.get_identifier r.to)
      ≡ found none type_no_such_object nil
    → next_response ctx r l
      ≡ bindings (
          Variable.new_variable (ObjectIdentifier.get_identifier r.from) type_end_of_mib_view nil
          ∷ [])
unfolding ask_get_next search_loop Variables.add
missing_response ctx r l e =
    ap
      (λ (a : Answer).
        (after_answer type_end_of_mib_view r 0 []
          (λ vs h. search_loop (ask_get_next (some handler) ctx) type_end_of_mib_view [] 1 vs h)
          (a, l)).0)
      e

-- A text that reads as an OID but is not the text that `OID.String` gives it, such as "1.03", where
-- neither has an item yet: the OID joins the list, and its item is stored under a key that no request
-- looks up. A Get of the OID finds nothing, and to a GetNext of a range that begins with the OID, itself
-- included, and ends behind it or nowhere, a session answers endOfMibView.
pub add_noncanonical :
    (l : ListHandler) (text : List ℕ) (o : Oid) (ctx : Context) (r : Range)
    → parse_oid text ≡ ok o
    → text ≢ to_string o
    → item_of l o ≡ none
    → lookup text l.items ≡ none
    → ObjectIdentifier.get_identifier r.from ≡ o
    → ObjectIdentifier.get_include r.from ≡ true
    → EndsBehind o (ObjectIdentifier.get_identifier r.to)
    → (l' : ListHandler) × (add l text ≡ ok l')
      × In o l'.oids
      × (get l' o ≡ found none type_no_such_object nil)
      × (next_response ctx r l' ≡ bindings (Variable.new_variable o type_end_of_mib_view nil ∷ []))
add_noncanonical l text o ctx r e ne i n from included behind =
    let l' : ListHandler = added l text o in
    let key : list_eq text (to_string o) ≡ false = ground (arith, list_eq_iff text (to_string o)) in
    let at' : In o l'.oids = sort-In o (l.oids ++ (o ∷ [])) (In-snoc_last o l.oids) in
    let missing : get l' o ≡ found none type_no_such_object nil =
      rw (get-answer_of, item_of-added l text o o, key, i) refl in
    let passed =
      missing_next l' o (ObjectIdentifier.get_identifier r.to) behind
        (sort-IsSorted (l.oids ++ (o ∷ []))) at' missing in
    (
      l',
      add_new l text o n e,
      at',
      missing,
      missing_response ctx r l' (rw (from, included) passed)
          ∙ ap (λ x. bindings (Variable.new_variable x type_end_of_mib_view nil ∷ [])) from,
    )
