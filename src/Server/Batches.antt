-- ===== src/Server/Batches.antt =====
-- server/server.cpp, /add_transaction: what the handler makes of the body that sendTransactions of
-- core/api.cpp sends.
use pandanite_node.Common.{
  ℕ, zero, suc, ◌*◌, ◌/◌, ◌≡◌, List, [], ◌∷◌, refl, ap, ◌∙◌, arith, length, length-map, ltb, false,
  map,
}
use pandanite_node.Common.State.{Action, ok, throws}
use pandanite_node.Crypto.{Primitives}
use pandanite_node.Transaction.{Transaction}
use pandanite_node.Transaction.Buffer.{
  TransactionInfo, serialize, transaction_from_info, transaction_info_from_buffer,
  transaction_info_buffer_size,
}
use pandanite_node.BlockStore.{raw_transactions}
use pandanite_node.Api.{send_transactions}
use pandanite_node.Api.Answers.{IsSent, length-raw_transactions, from_buffer-IsSent}
use pandanite_node.Server.{
  Reply, sent, unanswered, add_transactions, add_transaction_handler, reply,
}

-- The calls for several transactions, one after the other, up to the first that throws.
unfoldable pub add_each :
    {S A : Type 0} → (Transaction → Action S A) → List Transaction → S → Reply (List A) × S
add_each add [] s = (sent [], s)
add_each add (t ∷ ts) s =
    let (r, s') = add t s in
    let (rest, s'') = add_each add ts s' in
    elim r [
      | throws e ↦ (unanswered, s')
      | ok a ↦ elim rest [ sent answers ↦ (sent (a ∷ answers), s'') | reply ↦ (reply, s'') ]
    ]

-- So many copies of a value.
unfoldable pub replicate : {A : Type 0} → ℕ → A → List A
replicate zero a = []
replicate (suc n) a = a ∷ replicate n a

module _ (prims : Primitives) (memory : TransactionInfo → Transaction)
    (stale : Transaction → ℕ) where
  -- The transaction that the handler builds.
  abbrev pub parsed : TransactionInfo → Transaction
  parsed t = transaction_from_info (memory t) t

  add_transactions-first :
      {S A : Type 0} (add : Transaction → Action S A) (buffer : List ℕ) (n : ℕ) (s : S)
      → reply (add_transactions prims memory stale add buffer n s)
        ≡ add_each add (replicate n (parsed (transaction_info_from_buffer prims buffer))) s
  unfolding add_transactions add_each replicate
  add_transactions-first add buffer zero s = refl
  add_transactions-first add buffer (suc n) s =
      let t = parsed (transaction_info_from_buffer prims buffer) in
      ground (arith, add_transactions-first add buffer n (add t s).1)

  add_transaction_handler-reply :
      {S A : Type 0} (add : Transaction → Action S A) (buffer : List ℕ) (n : ℕ) (s : S)
      → length buffer ≡ suc n * transaction_info_buffer_size
      → add_transaction_handler prims memory stale add buffer s
        ≡ reply (add_transactions prims memory stale add buffer (suc n) s)
  unfolding add_transaction_handler
  add_transaction_handler-reply add buffer n s size =
      let rounds : length buffer / transaction_info_buffer_size ≡ suc n = omega arith in
      let long : ltb (length buffer) transaction_info_buffer_size ≡ false = ground arith in
      rw long (ap (λ k. reply (add_transactions prims memory stale add buffer k s)) rounds)

  -- Where a body lists several transactions, the first one is added as often as there are
  -- transactions, and none of the others is, whatever adding does; the members of the first fit
  -- their types, and its sender is the address of its key.
  pub add_transaction_handler-send_transactions :
      {S A : Type 0} (add : Transaction → Action S A) (t : Transaction) (ts : List Transaction)
      (s : S)
      → IsSent prims (serialize t)
      → add_transaction_handler prims memory stale add (send_transactions (t ∷ ts)) s
        ≡ add_each add (replicate (length (t ∷ ts)) (parsed (serialize t))) s
  unfolding send_transactions raw_transactions
  add_transaction_handler-send_transactions add t ts s is =
      let size = length-raw_transactions (map serialize (t ∷ ts)) in
      add_transaction_handler-reply add (send_transactions (t ∷ ts)) (length ts) s
        (omega (arith, size, length-map serialize ts))
      ∙ (add_transactions-first add (send_transactions (t ∷ ts)) (length (t ∷ ts)) s
          ∙ ap (λ info. add_each add (replicate (length (t ∷ ts)) (parsed info)) s)
              (from_buffer-IsSent prims (serialize t) (raw_transactions (map serialize ts)) is))
