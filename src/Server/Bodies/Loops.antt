-- ===== src/Server/Bodies/Loops.antt =====
-- What the handler of /add_transaction_json does with the elements of a request.
use pandanite_node.Common.{
  ℕ, suc, zero, Bool, ◌+◌, ◌≡◌, List, [], ◌∷◌, ltb, arith, refl, All, map, ap, ◌∙◌, take,
  if◌then◌else◌, true, false,
}
use pandanite_node.Common.State.{Action, Result, ok, throws}
use pandanite_node.Crypto.{Primitives, sha256_to_string}
use pandanite_node.Transaction.{Transaction, hash_contents}
use pandanite_node.Transaction.Json.{to_json}
use pandanite_node.Transaction.Json.RoundTrip.{IsSized, reread, transaction_from_json-to_json}
use pandanite_node.Executor.{ExecutionStatus, execution_status_as_string}
use pandanite_node.Json.{Json, IsLawful, codes}
use pandanite_node.Server.Queries.{sent}
use pandanite_node.Server.Bodies.{
  answer_each, with_status, add_built, add_one, add_parsed, reply_array,
  add_transaction_json_handler,
}

module _ {V S : Type 0} (one : V → Action S V) where
  -- What follows the call for an element, whose outcome is `o`; `rest` is that of the elements behind it.
  abbrev after_one : Bool → Result V × S → Result (List V) × S → Result (List V) × S
  after_one is_last o rest = elim o.0 [
    | throws e ↦ (throws e, o.1)
    | ok a ↦ if is_last then (ok (a ∷ []), o.1) else (elim rest.0 [
      | throws e ↦ (throws e, rest.1)
      | ok answers ↦ (ok (a ∷ answers), rest.1)
    ])
  ]

  answer_each_lem :
      (n : ℕ) (item : V) (items : List V) (s : S)
      → answer_each one n (item ∷ items) s
        ≡ after_one (ltb 100 (n + 1)) (one item s) (answer_each one (n + 1) items (one item s).1)
  unfolding answer_each
  answer_each_lem n item items s = refl

  answer_each-last :
      (n : ℕ) (item a : V) (items : List V) (s s' : S)
      → one item s ≡ (ok a, s')
      → ltb 100 (n + 1) ≡ true
      → answer_each one n (item ∷ items) s ≡ (ok (a ∷ []), s')
  answer_each-last n item a items s s' e test =
      answer_each_lem n item items s
      ∙ (ap
            (λ is_last.
              after_one is_last (one item s) (answer_each one (n + 1) items (one item s).1))
            test
          ∙ ap (λ o. after_one true o (answer_each one (n + 1) items o.1)) e)

  answer_each-more :
      (n : ℕ) (item a : V) (items answers : List V) (s s' s'' : S)
      → one item s ≡ (ok a, s')
      → ltb 100 (n + 1) ≡ false
      → answer_each one (n + 1) items s' ≡ (ok answers, s'')
      → answer_each one n (item ∷ items) s ≡ (ok (a ∷ answers), s'')
  answer_each-more n item a items answers s s' s'' e test rest =
      answer_each_lem n item items s
      ∙ (ap
            (λ is_last.
              after_one is_last (one item s) (answer_each one (n + 1) items (one item s).1))
            test
          ∙ (ap (λ o. after_one false o (answer_each one (n + 1) items o.1)) e
              ∙ ap (after_one false (ok a, s')) rest))

module _ (json : Json) (laws : IsLawful json) (parse : List ℕ → Result json.Value)
    (prims : Primitives) {S : Type 0} (old : json.Value → Transaction)
    (add : Transaction → Action S ExecutionStatus) (status : Transaction → S → ExecutionStatus)
    (next : Transaction → S → S)
    (adds : (t : Transaction) (s : S) → add t s ≡ (ok (status t s), next t s)) where
  open json use {Value, null, text, array, set, items, is_array}

  -- A transaction as it is built of its JSON.
  abbrev pub built : Transaction → Transaction
  built t = reread (old (to_json json prims t)) t

  -- The answer for a transaction, the hash of its contents and the status of adding it.
  abbrev pub answer_for : Transaction → ExecutionStatus → Value
  answer_for tx status =
      set (set null "txid" (text (sha256_to_string (hash_contents prims tx)))) "status"
        (text (codes (execution_status_as_string status)))

  -- Adding some transactions one after the other: the answers, and the state that is left.
  unfoldable pub answers : List Transaction → S → List Value
  answers [] s = []
  answers (t ∷ ts) s = answer_for (built t) (status (built t) s) ∷ answers ts (next (built t) s)

  unfoldable pub added : List Transaction → S → S
  added [] s = s
  added (t ∷ ts) s = added ts (next (built t) s)

  add_one-to_json :
      (t : Transaction) (s : S)
      → IsSized t
      → add_one json parse prims old add (to_json json prims t) s
        ≡ (ok (answer_for (built t) (status (built t) s)), next (built t) s)
  add_one-to_json t s size =
      ap (λ r. add_built json parse prims old add r s)
        (transaction_from_json-to_json json laws prims t (old (to_json json prims t)) size)
      ∙ ap (with_status json parse prims old (built t)) (adds (built t) s)

  -- With `n` answers before, of which there may be `k` more and one.
  answer_each-to_json :
      (n k : ℕ) (ts : List Transaction) (s : S)
      → n + k ≡ 100
      → All IsSized ts
      → answer_each (add_one json parse prims old add) n (map (to_json json prims) ts) s
        ≡ (ok (answers (take (suc k) ts) s), added (take (suc k) ts) s)
  unfolding answer_each answers added
  answer_each-to_json n k [] s e sizes = refl
  answer_each-to_json n zero (t ∷ ts) s e sizes =
      answer_each-last (add_one json parse prims old add) n (to_json json prims t) _
        (map (to_json json prims) ts) s _ (add_one-to_json t s sizes.0) (ground (arith, e))
  answer_each-to_json n (suc k) (t ∷ ts) s e sizes =
      answer_each-more (add_one json parse prims old add) n (to_json json prims t) _
        (map (to_json json prims) ts) _ s _ _ (add_one-to_json t s sizes.0) (ground (arith, e))
        (answer_each-to_json (n + 1) k ts (next (built t) s) (omega (arith, e)) sizes.1)

  -- The handler of /add_transaction_json, for a body with an array of transactions, adds the first 101
  -- of them one after the other, and answers for each with the hash of its contents and the status of
  -- adding it. The members have their sizes, adding does not throw, and the values of the JSON library
  -- meet its documentation.
  pub add_transaction_json_handler_lem :
      (body : List ℕ) (ts : List Transaction) (s : S)
      → parse body ≡ ok (array (map (to_json json prims) ts))
      → All IsSized ts
      → add_transaction_json_handler json parse prims old add body s
        ≡ (sent (array (answers (take 101 ts) s)), added (take 101 ts) s)
  unfolding add_transaction_json_handler
  add_transaction_json_handler_lem body ts s parsed sizes =
      let values = map (to_json json prims) ts in
      let one = add_one json parse prims old add in
      ap (λ r. add_parsed json parse prims old add r s) parsed
      ∙ (ap
            (λ b.
              reply_array json
                (answer_each one 0 (if b then items (array values) else array values ∷ []) s))
            (laws.is_array-array values)
          ∙ (ap (λ vs. reply_array json (answer_each one 0 vs s)) (laws.items-array values)
              ∙ ap (reply_array json) (answer_each-to_json 0 100 ts s refl sizes)))
