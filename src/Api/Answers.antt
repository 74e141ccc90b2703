-- ===== src/Api/Answers.antt =====
-- What a node reads of the bytes that its peer wrote: the same headers, transactions and blocks.
use pandanite_node.Common.{
  ℕ, ◌*◌, ◌/◌, ◌≡◌, List, [], ◌∷◌, ◌++◌, refl, sym, ap, ◌∙◌, arith, length, All, map, drop,
  if◌then◌else◌,
}
use mathlib.Core.List.{append_assoc, append-nil}
use pandanite_node.Common.Bytes.{drop-append}
use pandanite_node.Crypto.{Primitives, wallet_address_from_public_key}
use pandanite_node.Transaction.{Transaction, copy, null_address}
use pandanite_node.Transaction.Buffer.{
  TransactionInfo, transaction_from_info, transaction_info_to_buffer, transaction_info_from_buffer,
  transaction_info_buffer_size, write_network_uint32, write_network_uint64, write_network_n_bytes,
}
use pandanite_node.Transaction.Buffer.RoundTrip.{from_buffer-to_buffer, length-to_buffer}
use pandanite_node.Transaction.Buffer.RoundTrip
use pandanite_node.Block.{BlockHeader, block_header_to_buffer, block_header_buffer_size}
use pandanite_node.Block.Header.{header_from_buffer-to_buffer, length-header_to_buffer}
use pandanite_node.Block.Header
use pandanite_node.BlockStore.{raw_transactions}
use pandanite_node.Api.{read_headers, read_raw_headers, read_transactions, read_raw_transactions}

pub to_buffer-append :
    (t : TransactionInfo) (x y : List ℕ)
    → transaction_info_to_buffer t x ++ y ≡ transaction_info_to_buffer t (x ++ y)
unfolding transaction_info_to_buffer write_network_uint32 write_network_uint64 write_network_n_bytes
to_buffer-append t x y = simp (append_assoc) refl

pub header_to_buffer-append :
    (b : BlockHeader) (x y : List ℕ)
    → block_header_to_buffer b x ++ y ≡ block_header_to_buffer b (x ++ y)
unfolding block_header_to_buffer write_network_uint32 write_network_uint64 write_network_n_bytes
header_to_buffer-append b x y = simp (append_assoc) refl

-- Behind a transaction, and behind a header.
pub drop-to_buffer :
    (t : TransactionInfo) (x : List ℕ)
    → drop transaction_info_buffer_size (transaction_info_to_buffer t x) ≡ x
drop-to_buffer t x =
    ap (drop transaction_info_buffer_size) (sym (to_buffer-append t [] x))
    ∙ drop-append transaction_info_buffer_size (transaction_info_to_buffer t []) x
        (length-to_buffer t [])

pub drop-header_to_buffer :
    (b : BlockHeader) (x : List ℕ) → drop block_header_buffer_size (block_header_to_buffer b x) ≡ x
drop-header_to_buffer b x =
    ap (drop block_header_buffer_size) (sym (header_to_buffer-append b [] x))
    ∙ drop-append block_header_buffer_size (block_header_to_buffer b []) x
        (length-header_to_buffer b [])

pub length-raw_transactions :
    (infos : List TransactionInfo)
    → length (raw_transactions infos) ≡ length infos * transaction_info_buffer_size
unfolding raw_transactions
length-raw_transactions [] = refl
length-raw_transactions (t ∷ infos) =
    omega (arith, length-to_buffer t (raw_transactions infos), length-raw_transactions infos)

-- The headers of several blocks, one behind the other.
unfoldable pub raw_headers : List BlockHeader → List ℕ
raw_headers [] = []
raw_headers (b ∷ headers) = block_header_to_buffer b (raw_headers headers)

length-raw_headers :
    (headers : List BlockHeader)
    → length (raw_headers headers) ≡ length headers * block_header_buffer_size
unfolding raw_headers
length-raw_headers [] = refl
length-raw_headers (b ∷ headers) =
    omega (arith, length-header_to_buffer b (raw_headers headers), length-raw_headers headers)

read_headers-raw_headers :
    (headers : List BlockHeader)
    → All Header.InRange headers
    → read_headers (length headers) (raw_headers headers) ≡ headers
unfolding read_headers raw_headers
read_headers-raw_headers [] r = refl
read_headers-raw_headers (b ∷ headers) r =
    rw
      (
        header_from_buffer-to_buffer b (raw_headers headers) r.0,
        drop-header_to_buffer b (raw_headers headers),
        read_headers-raw_headers headers r.1,
      )
      refl

-- The headers that a peer wrote one behind the other are read back, in their order, provided that
-- their members fit their types.
pub read_raw_headers-raw_headers :
    (headers : List BlockHeader)
    → All Header.InRange headers
    → read_raw_headers (raw_headers headers) ≡ headers
unfolding read_raw_headers
read_raw_headers-raw_headers headers r =
    let counted : length (raw_headers headers) / block_header_buffer_size ≡ length headers =
      omega (arith, length-raw_headers headers) in
    ap (λ n. read_headers n (raw_headers headers)) counted ∙ read_headers-raw_headers headers r

module _ (prims : Primitives) where
  -- The sender that the reader computes.
  abbrev pub IsAddressed : TransactionInfo → Type 0
  IsAddressed t =
      (if t.is_transaction_fee
        then null_address
        else wallet_address_from_public_key prims t.signing_key)
      ≡ t.from

  -- A transaction whose members fit their types, and whose sender is the one of its key.
  abbrev pub IsSent : TransactionInfo → Type 0
  IsSent t = RoundTrip.InRange t × IsAddressed t

  pub from_buffer-IsSent :
      (t : TransactionInfo) (rest : List ℕ)
      → IsSent t
      → transaction_info_from_buffer prims (transaction_info_to_buffer t rest) ≡ t
  from_buffer-IsSent t rest sent =
      from_buffer-to_buffer prims t rest sent.0 ∙ ap (λ from. record t { from = from }) sent.1

  module _ (memory : TransactionInfo → Transaction) (stale : Transaction → ℕ) where
    -- The transaction that the reader builds.
    abbrev pub received : TransactionInfo → Transaction
    received t = copy stale (transaction_from_info (memory t) t)

    pub read_transactions-raw_transactions :
        (infos : List TransactionInfo) (rest : List ℕ)
        → All IsSent infos
        → read_transactions prims memory stale (length infos) (raw_transactions infos ++ rest)
          ≡ map received infos
    unfolding read_transactions raw_transactions
    read_transactions-raw_transactions [] rest sent = refl
    read_transactions-raw_transactions (t ∷ infos) rest sent =
        rw
          (
            to_buffer-append t (raw_transactions infos) rest,
            from_buffer-IsSent t (raw_transactions infos ++ rest) sent.0,
            drop-to_buffer t (raw_transactions infos ++ rest),
            read_transactions-raw_transactions infos rest sent.1,
          )
          refl

    -- The transactions that a peer wrote one behind the other are read back, in their order, provided
    -- that their members fit their types and each sender is the address of the key.
    pub read_raw_transactions-raw_transactions :
        (infos : List TransactionInfo)
        → All IsSent infos
        → read_raw_transactions prims memory stale (raw_transactions infos) ≡ map received infos
    unfolding read_raw_transactions
    read_raw_transactions-raw_transactions infos sent =
        let counted : length (raw_transactions infos) / transaction_info_buffer_size
            ≡ length infos =
          omega (arith, length-raw_transactions infos) in
        ap (λ n. read_transactions prims memory stale n (raw_transactions infos)) counted
        ∙ (ap (read_transactions prims memory stale (length infos))
              (sym (append-nil (raw_transactions infos)))
            ∙ read_transactions-raw_transactions infos [] sent)
