-- ===== src/User/Signing.antt =====
-- core/user.cpp and core/api.cpp: a payment from the user who signs it to the node that reads it.
use pandanite_node.Common.{ℕ, ◌≡◌, List, [], ◌∷◌, true, refl, sym, ap, subst}
use pandanite_node.Common.Bytes.{bytes_be}
use pandanite_node.Crypto.{Primitives, check_signature}
use pandanite_node.Transaction.{Transaction, copy, hash_contents, signature_valid}
use pandanite_node.Transaction.Buffer.{TransactionInfo, serialize, transaction_from_info}
use pandanite_node.Transaction.Buffer.RoundTrip
use pandanite_node.BlockStore.{raw_transactions}
use pandanite_node.Api.{send_transaction, read_raw_transactions}
use pandanite_node.Api.Answers.{received, read_raw_transactions-raw_transactions}
use pandanite_node.User.{User, new_transaction, get_address, sign, sign_transaction, send}

-- A list of one transaction, whose signature is valid.
abbrev pub IsOneValid : Primitives → List Transaction → Type 0
IsOneValid prims (t ∷ []) = signature_valid prims t ≡ true
IsOneValid prims ts = ⊥

module _ (prims : Primitives) (ed25519_sign : List ℕ → ℕ → ℕ → ℕ) where
  -- What Ed25519 promises of a key pair: a signature with it is verified.
  abbrev pub IsPair : User → Type 0
  IsPair u =
      (bytes : List ℕ)
      → prims.ed25519_verify (ed25519_sign bytes u.public_key u.private_key) bytes u.public_key
        ≡ true

  module _ (memory : TransactionInfo → Transaction) (stale : Transaction → ℕ) where
    received-signature_valid :
        (old : Transaction) (now : ℕ) (u to : User) (amount : ℕ)
        → IsPair u
        → ((t : Transaction) → stale t ≡ 0)
        → signature_valid prims
            (received prims memory stale (serialize (send prims ed25519_sign old now u to amount)))
          ≡ true
    unfolding signature_valid check_signature serialize transaction_from_info copy send
        sign_transaction sign new_transaction hash_contents
    received-signature_valid old now u to amount pair zeros =
        let t =
          new_transaction old now (get_address prims u) (get_address prims to) amount u.public_key
            0 in
        let info = serialize (send prims ed25519_sign old now u to amount) in
        let same : hash_contents prims (received prims memory stale info) ≡ hash_contents prims t =
          ap (λ n. hash_contents prims (record t { nonce = n }))
            (zeros (transaction_from_info (memory info) info)) in
        let signature =
          ed25519_sign (bytes_be 32 (hash_contents prims t)) u.public_key u.private_key in
        subst (λ h. check_signature prims (bytes_be 32 h) signature u.public_key ≡ true) (sym same)
          (pair (bytes_be 32 (hash_contents prims t)))

    -- A payment that a user signs and sends is read by the node that receives it as one transaction
    -- with a valid signature, provided that its members fit their types, that the key pair is one of
    -- Ed25519, and that the copies of the receiver find zeros in the member that they leave.
    pub read_raw_transactions-send_transaction :
        (old : Transaction) (now : ℕ) (u to : User) (amount : ℕ)
        → IsPair u
        → ((t : Transaction) → stale t ≡ 0)
        → RoundTrip.InRange (serialize (send prims ed25519_sign old now u to amount))
        → IsOneValid prims (
            read_raw_transactions prims memory stale
              (send_transaction (send prims ed25519_sign old now u to amount)))
    unfolding send_transaction raw_transactions serialize send sign_transaction sign new_transaction
        get_address
    read_raw_transactions-send_transaction old now u to amount pair zeros r =
        let info = serialize (send prims ed25519_sign old now u to amount) in
        subst (IsOneValid prims)
          (sym
            (read_raw_transactions-raw_transactions prims memory stale (info ∷ []) ((r, refl), tt)))
          (received-signature_valid old now u to amount pair zeros)
