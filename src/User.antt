-- ===== src/User.antt =====
-- core/user.cpp, with the constructors and the signature of core/transaction.cpp that it calls. Ed25519 is
-- another project's code: the signature of some bytes with a key pair is a parameter. The members that
-- a constructor leaves are those of `old`, the memory that it builds in. What `send` returns is the
-- object that it has signed.
pub mod Signing
pub mod Keys
mod Tests
use pandanite_node.Common.{ℕ, List, true, false}
use pandanite_node.Common.Bytes.{bytes_be}
use pandanite_node.Common.State.{Result, ok}
use pandanite_node.Common.Results.{◌>>=◌}
use Prim.Native.String.{String}
use pandanite_node.Crypto.{
  Primitives, wallet_address_from_public_key, public_key_to_string, private_key_to_string,
  string_to_public_key, string_to_private_key,
}
use pandanite_node.Json.{Json}
use pandanite_node.Transaction.{Transaction, hash_contents}

pub record User : Type 0 where
  pub public_key : ℕ
  pub private_key : ℕ

-- Transaction::Transaction(from, to, amount, signingKey, fee)
unfoldable pub new_transaction : Transaction → ℕ → ℕ → ℕ → ℕ → ℕ → ℕ → Transaction
new_transaction old now from to amount signing_key fee = record old {
  from = from;
  to = to;
  amount = amount;
  is_transaction_fee = false;
  timestamp = now;
  fee = fee;
  signing_key = signing_key;
  nonce = 0;
}

-- Transaction::Transaction(to, fee)
unfoldable pub new_fee : Transaction → ℕ → ℕ → ℕ → Transaction
new_fee old now to fee = record old {
  to = to;
  amount = fee;
  is_transaction_fee = true;
  timestamp = now;
  fee = 0;
}

module _ (prims : Primitives) where
  unfoldable pub get_address : User → ℕ
  unfolding wallet_address_from_public_key
  get_address u = wallet_address_from_public_key prims u.public_key

  -- PDN(50) is 500000.
  unfoldable pub mine : Transaction → ℕ → User → Transaction
  unfolding new_fee get_address
  mine old now u = new_fee old now (get_address u) 500000

  -- `ed25519_sign` takes the bytes, the public and the private key.
  module _ (ed25519_sign : List ℕ → ℕ → ℕ → ℕ) where
    -- Transaction::sign
    unfoldable pub sign : ℕ → ℕ → Transaction → Transaction
    unfolding hash_contents
    sign pub_key signing_key t = record t {
      signature = ed25519_sign (bytes_be 32 (hash_contents prims t)) pub_key signing_key;
    }

    unfoldable pub sign_transaction : User → Transaction → Transaction
    unfolding sign
    sign_transaction u t = sign u.public_key u.private_key t

    -- The fee is 0 where none is given.
    unfoldable pub send : Transaction → ℕ → User → User → ℕ → Transaction
    unfolding new_transaction get_address sign_transaction
    send old now u to amount =
        sign_transaction u
          (new_transaction old now (get_address u) (get_address to) amount u.public_key 0)

-- User::toJson and User::User(json)
module _ (json : Json) where
  unfoldable pub user_to_json : User → json.Value
  user_to_json u =
      json.set (json.set json.null "publicKey" (json.text (public_key_to_string u.public_key)))
        "privateKey" (json.text (private_key_to_string u.private_key))

  unfoldable pub user_from_json : json.Value → Result User
  user_from_json value = do
    public_text ← json.to_text (json.at value "publicKey")
    public_key ← string_to_public_key public_text
    private_text ← json.to_text (json.at value "privateKey")
    private_key ← string_to_private_key private_text
    ok (record { public_key = public_key; private_key = private_key })
