-- ===== src/Transaction.antt =====
-- core/transaction.hpp and core/transaction.cpp. A key, address or signature is the number that
-- its bytes spell (Common.Bytes). The copy constructor leaves the member `nonce` uninitialised:
-- `stale` gives the value that a copy of a transaction finds there.
mod Defs
pub mod Buffer
pub mod Expiry
pub mod Json
mod Tests
unfoldable pub use Defs.*
