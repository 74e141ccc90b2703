-- ===== src/Mempool/Raw.antt =====
-- MemPool::getRaw: the buffer that it fills.
use pandanite_node.Common.{◌*◌, ◌≡◌, List, [], ◌∷◌, arith, refl, length}
use pandanite_node.Transaction.{Transaction}
use pandanite_node.Transaction.Buffer.{serialize, transaction_info_buffer_size}
use pandanite_node.Transaction.Buffer.RoundTrip.{length-to_buffer}
use pandanite_node.Mempool.{MemPool, raw_queue, get_raw, raw_size}

length-raw_queue :
    (queue : List Transaction)
    → length (raw_queue queue) ≡ length queue * transaction_info_buffer_size
unfolding raw_queue
length-raw_queue [] = refl
length-raw_queue (t ∷ queue) =
    omega (arith, length-to_buffer (serialize t) (raw_queue queue), length-raw_queue queue)

-- What getRaw writes fills the memory that it allocates exactly.
pub length-get_raw : (p : MemPool) → length (get_raw p) ≡ raw_size p
unfolding get_raw
length-get_raw p = length-raw_queue p.queue
