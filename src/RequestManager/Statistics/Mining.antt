-- ===== src/RequestManager/Statistics/Mining.antt =====
-- getMineStatus loses nothing on the way through JSON.
use pandanite_node.Transaction.{Transaction}
use pandanite_node.Block.{Block}
use pandanite_node.Json.{Json}
