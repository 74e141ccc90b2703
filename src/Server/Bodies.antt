-- ===== src/Server/Bodies.antt =====
-- server/server.cpp: the handlers of /create_wallet, /create_transaction, /add_transaction_json and
-- /verify_transaction. `parse` is the parser of the JSON library; what a handler calls of the manager is
-- an argument. An exception is caught, and then nothing is sent.
pub mod Loops
pub mod Created
mod Tests
use Prim.Native.String.{String}
use pandanite_node.Common.{ℕ, ◌+◌, List, [], ◌∷◌, Bool, ltb, Option, none, some, if◌then◌else◌}
use pandanite_node.Common.Int.{negsuc}
use pandanite_node.Common.State.{Action, Result, ok, throws}
use pandanite_node.Common.Results.{◌>>=◌}
use pandanite_node.Crypto.{
  Primitives, sha256_to_string, wallet_address_to_string, public_key_to_string,
  private_key_to_string, string_to_sha256, string_to_wallet_address, string_to_public_key,
  string_to_private_key, wallet_address_from_public_key,
}
use pandanite_node.Transaction.{Transaction, hash_contents}
use pandanite_node.Transaction.Json.{to_json, transaction_from_json}
use pandanite_node.Executor.{ExecutionStatus, execution_status_as_string}
use pandanite_node.User.{User, new_transaction, sign, get_address}
use pandanite_node.Json.{Json, codes}
use pandanite_node.Server.Queries.{Answer, sent, silent, or_silent}

-- A loop over the elements of a request, with the answers so far; it ends behind the element that
-- brings their number above 100.
unfoldable pub answer_each : {V S : Type 0} → (V → Action S V) → ℕ → List V → Action S (List V)
answer_each one n [] s = (ok [], s)
answer_each one n (item ∷ items) s =
    let (r, s') = one item s in
    let (rs, s'') = answer_each one (n + 1) items s' in
    elim r [
      | throws e ↦ (throws e, s')
      | ok a ↦
          if ltb 100 (n + 1)
          then (ok (a ∷ []), s')
          else (elim rs [ throws e ↦ (throws e, s'') | ok answers ↦ (ok (a ∷ answers), s'') ])
    ]

-- The answer, and what the calls of the manager leave.
abbrev pub reply_array :
    {S : Type 0} → (json : Json) → Result (List json.Value) × S → Answer json.Value × S
reply_array json (throws e, s) = (silent, s)
reply_array json (ok answers, s) = (sent (json.array answers), s)

module _ (json : Json) (parse : List ℕ → Result json.Value) (prims : Primitives) where
  open json use {
    Value, null, integer, number, text, array, set, at, to_number, to_text, items, is_array,
  }

  -- /create_wallet, for the keys that generateKeyPair returns.
  unfoldable pub create_wallet_handler : User → Answer Value
  unfolding get_address
  create_wallet_handler pair = sent (
      set
        (set (set null "wallet" (text (wallet_address_to_string (get_address prims pair))))
          "publicKey" (text (public_key_to_string pair.public_key)))
        "privateKey" (text (private_key_to_string pair.private_key)))

  module _ (ed25519_sign : List ℕ → ℕ → ℕ → ℕ) (fresh : Transaction) where
    -- The number under "nonce" is passed as the time of the transaction.
    abbrev pub create_transaction : Value → Result Transaction
    create_transaction info = do
      public_text ← to_text (at info "publicKey")
      public_key ← string_to_public_key public_text
      private_text ← to_text (at info "privateKey")
      private_key ← string_to_private_key private_text
      to_address ← to_text (at info "to")
      to ← string_to_wallet_address to_address
      amount ← to_number (at info "amount")
      fee ← to_number (at info "fee")
      nonce ← to_number (at info "nonce")
      let from = wallet_address_from_public_key prims public_key
      let t = new_transaction fresh nonce from to amount public_key fee
      ok (sign prims ed25519_sign public_key private_key t)

    unfoldable pub create_transaction_handler : List ℕ → Answer Value
    unfolding new_transaction sign
    create_transaction_handler body =
        or_silent
          (parse body >>= λ info. (create_transaction info >>= λ t. ok (to_json json prims t)))

  module _ {S : Type 0} (old : Value → Transaction) where
    -- One transaction, which is built, hashed and added.
    abbrev pub with_status : Transaction → Result ExecutionStatus × S → Result Value × S
    with_status tx (throws e, s) = (throws e, s)
    with_status tx (ok status, s) = (
      ok (
          set (set null "txid" (text (sha256_to_string (hash_contents prims tx)))) "status"
            (text (codes (execution_status_as_string status)))),
      s,
    )

    abbrev pub add_built :
        (Transaction → Action S ExecutionStatus) → Result Transaction → Action S Value
    add_built add (throws e) s = (throws e, s)
    add_built add (ok tx) s = with_status tx (add tx s)

    abbrev pub add_one : (Transaction → Action S ExecutionStatus) → Value → Action S Value
    add_one add item = add_built add (transaction_from_json json (old item) item)

    abbrev pub add_parsed :
        (Transaction → Action S ExecutionStatus) → Result Value → S → Answer Value × S
    add_parsed add (throws e) s = (silent, s)
    add_parsed add (ok parsed) s =
        reply_array json
          (answer_each (add_one add) 0 (if is_array parsed then items parsed else parsed ∷ []) s)

    unfoldable pub add_transaction_json_handler :
        (Transaction → Action S ExecutionStatus) → List ℕ → S → Answer Value × S
    unfolding answer_each
    add_transaction_json_handler add body s = add_parsed add (parse body) s

  -- `status` gives the id of the block in which a transaction stands.
  abbrev pub status_json : Option ℕ → Value
  status_json none =
      set (set null "status" (text (codes "NOT_IN_CHAIN"))) "blockId" (integer (negsuc 0))
  status_json (some id) = set (set null "status" (text (codes "IN_CHAIN"))) "blockId" (number id)

  abbrev pub status_one : (ℕ → Option ℕ) → Value → Action (Unit {0}) Value
  status_one status item s = (
    to_text (at item "txid") >>= λ hex.
        (string_to_sha256 hex >>= λ id. ok (status_json (status id))),
    s,
  )

  abbrev pub statuses_of : (ℕ → Option ℕ) → Value → Answer Value
  statuses_of status parsed =
      (reply_array json
        (answer_each (status_one status) 0 (if is_array parsed then items parsed else []) tt)).0

  unfoldable pub verify_transaction_handler : (ℕ → Option ℕ) → List ℕ → Answer Value
  unfolding answer_each
  verify_transaction_handler status body = elim (parse body) [
    | throws e ↦ silent
    | ok parsed ↦ statuses_of status parsed
  ]
