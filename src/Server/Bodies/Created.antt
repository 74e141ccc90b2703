-- ===== src/Server/Bodies/Created.antt =====
-- The transaction that /create_transaction answers with, as another request hands it in again.
use pandanite_node.Common.{ℕ, ◌^◌, ◌<◌, ◌≡◌, List, true, refl, sym, subst}
use pandanite_node.Common.Bytes.{bytes_be}
use pandanite_node.Common.State.{Result, ok}
use pandanite_node.Crypto.{
  Primitives, check_signature, wallet_address_from_public_key, array_to_string,
}
use pandanite_node.Crypto.Hex.RoundTrip.{
  string_to_public_key-array, string_to_private_key-array, string_to_wallet_address-array,
}
use pandanite_node.Transaction.{Transaction, hash_contents, signature_valid}
use pandanite_node.Transaction.Json.{transaction_from_json}
use pandanite_node.Transaction.Json.RoundTrip.{IsSized, reread, transaction_from_json-to_json}
use pandanite_node.User.{User, new_transaction, sign}
use pandanite_node.User.Signing.{IsPair}
use pandanite_node.Json.{Json, IsLawful}
use pandanite_node.Server.Queries.{Answer, sent, empty, silent}
use pandanite_node.Server.Bodies.{create_transaction, create_transaction_handler}

module _ (json : Json) (laws : IsLawful json) (parse : List ℕ → Result json.Value)
    (prims : Primitives) (ed25519_sign : List ℕ → ℕ → ℕ → ℕ) (fresh : Transaction) (u : User)
    (to amount fee nonce : ℕ) where
  open json use {set, null, text, number}

  -- The body of the request.
  abbrev pub request : json.Value
  request =
      set
        (set
          (set
            (set
              (set (set null "publicKey" (text (array_to_string 32 u.public_key))) "privateKey"
                (text (array_to_string 64 u.private_key)))
              "to" (text (array_to_string 25 to)))
            "amount" (number amount))
          "fee" (number fee))
        "nonce" (number nonce)

  -- The transaction that is created.
  abbrev pub created : Transaction
  created = sign prims ed25519_sign u.public_key u.private_key (
      new_transaction fresh nonce (wallet_address_from_public_key prims u.public_key) to amount
        u.public_key fee)

  create_transaction_lem :
      u.public_key < 256 ^ 32
      → u.private_key < 256 ^ 64
      → to < 256 ^ 25
      → create_transaction json parse prims ed25519_sign fresh request ≡ ok created
  create_transaction_lem public_size private_size to_size = simp (
    laws.at-set,
    laws.to_text-text,
    laws.to_number-number,
    string_to_public_key-array u.public_key public_size,
    string_to_private_key-array u.private_key private_size,
    string_to_wallet_address-array to to_size,
  )

  -- The answer holds a transaction with this time and a valid signature, as the constructor reads it.
  abbrev pub HoldsSigned : Transaction → Answer json.Value → Type 0
  HoldsSigned old (sent v) =
      (t : Transaction) × (transaction_from_json json old v ≡ ok t)
      × (t.timestamp ≡ nonce)
      × (signature_valid prims t ≡ true)
  HoldsSigned old empty = ⊥
  HoldsSigned old silent = ⊥

  created-signature_valid :
      (old : Transaction)
      → IsPair prims ed25519_sign u
      → old.nonce ≡ 0
      → signature_valid prims (reread old created) ≡ true
  unfolding signature_valid check_signature sign new_transaction hash_contents
  created-signature_valid old pair zero =
      subst (λ n. signature_valid prims (record created { nonce = n }) ≡ true) (sym zero)
        (pair (bytes_be 32 (hash_contents prims created)))

  -- What /create_transaction answers with is read again as a transaction with a valid signature; its time
  -- is the number that the request calls the nonce, and its nonce is in no text: the memory in which it
  -- is built must hold 0 there. The members have their sizes, the keys are a pair of Ed25519, and the
  -- values of the JSON library meet its documentation.
  pub create_transaction_handler-HoldsSigned :
      (old : Transaction) (body : List ℕ)
      → parse body ≡ ok request
      → u.public_key < 256 ^ 32
      → u.private_key < 256 ^ 64
      → to < 256 ^ 25
      → IsSized created
      → IsPair prims ed25519_sign u
      → old.nonce ≡ 0
      → HoldsSigned old (create_transaction_handler json parse prims ed25519_sign fresh body)
  unfolding create_transaction_handler sign new_transaction
  create_transaction_handler-HoldsSigned old body parsed public_size private_size to_size size pair
        zero =
      rw (parsed, create_transaction_lem public_size private_size to_size)
        (
          reread old created,
          transaction_from_json-to_json json laws prims created old size,
          refl,
          created-signature_valid old pair zero,
        )
