-- ===== src/Lib.antt =====
-- A verification library of the node: the rules by which blocks and transactions are executed and
-- checked, and the bookkeeping around them.
--
-- The parts, and where each is modelled:
-- - Common: what the other modules share. Common.State is the monad of code that changes a state
--   and may throw; Common.Dict the ordered dictionary that stands for std::map and for a key-value
--   store; Common.Bytes byte strings of a fixed width; Common.Int signed integers; Common.Results
--   chains of calls that may throw without a state.
-- - Json: the values of the library nlohmann::json as a record of operations, and what its
--   documentation says of them (IsLawful); Json.Values shows that such values exist. Helpers: the
--   numbers in decimal of src/core/helpers.cpp, and std::stoi as the handlers use it.
-- - Crypto: src/core/crypto.cpp. An array of bytes is the number that it spells, the first byte
--   the highest, so that comparing arrays is comparing numbers. Crypto.Cache is the cache of
--   pufferfish hashes of src/server/pufferfish_cache.cpp; Block.Cached
--   verifies a nonce with it, in its state. Since the cache never forgets a hash, the other parts
--   take what it answers as fixed: Primitives.first_asked gives the bytes whose hash is kept under
--   a key. Crypto.Hex has the arrays as hexadecimal texts.
-- - Transaction: src/core/transaction.cpp, with the readers and writers of src/core/helpers.cpp;
--   Transaction.Json has toJson and the constructor that reads JSON, as Block.Json has for a
--   block.
-- - Block: src/core/block.cpp. User: src/core/user.cpp, which signs transactions.
-- - Ledger: src/server/ledger.cpp. TxStore: src/server/tx_store.cpp.
-- - Executor: src/server/executor.cpp. It runs on a ledger; Executor.Block is ExecuteBlock;
--   Executor.Undoing has lemmas on RollbackBlock after it.
-- - Mempool: src/server/mempool.cpp. It calls the chain through the record ChainView;
--   Mempool.Threads has the threads that share the pool, as steps in any order.
-- - HeaderChain: src/core/header_chain.cpp, which builds blocks of the headers that a peer sends.
-- - MerkleTree: src/core/merkle_tree.cpp, on hashes of the copies that are made there;
--   MerkleTree.Tree has its nodes and the proofs.
--   BlockStore: src/server/block_store.cpp.
-- - Blockchain: the chain of src/server/blockchain.cpp, on a ledger, a transaction store and a
--   block store; it runs the executor to verify a transaction, and Blockchain.Adding to add a
--   block, which also tells the pool (Adding.Committed says what it leaves). Blockchain.Syncing
--   has the methods that start a chain, take blocks off it, or lock its mutex,
--   Blockchain.Syncing.Starting startChainSync and Blockchain.Syncing.Recomputing recomputeLedger,
--   Blockchain.Syncing.Retrying the thread chain_sync; Blocking, Restart and Popping beside these
--   have lemmas on them.
-- - HostManager: src/core/host_manager.cpp, which keeps the header chains of the peers;
--   HostManager.Clock is the time of the network, which addBlock is given.
-- - Api: src/core/api.cpp, the bytes that are sent to a peer and what is read of its answer.
--   Server: src/server/server.cpp, the handlers on the other side. RequestManager:
--   src/server/request_manager.cpp, which the handlers call, and which calls the chain.
--   Server.Queries has the routes that ask for a block or a wallet, Server.Bodies those that are
--   sent JSON, and RequestManager.Statistics what the manager adds up for them.
-- - Difficulty and MiningFee: computeDifficulty, getCurrentMiningFee and getSupply of
--   src/server/blockchain.cpp.
-- - RateLimiter: src/server/rate_limiter.cpp.
-- - Samples: data for the modules named Tests, which run the code on concrete values.
--
-- How the code is translated. A method that changes members takes the state and returns the new
-- one; an exception is a value of Common.State.Result, and leaves the state as it was at the
-- throw. A method that holds a mutex to its end is one step. Where a method may lock a mutex that
-- its thread holds already, its result is a Common.State.Outcome: C++ leaves this undefined, and
-- the model, like std::mutex in practice, lets the thread wait without end. The name of a host is
-- a number, in the order of texts; other texts are lists of the codes of their characters. An
-- amount is a natural number with the arithmetic of uint64_t written out. Where the code copies a
-- transaction, the model copies it too, since the copy constructor leaves one member
-- uninitialised: the parameter `stale` gives what is found there. The functions keep the source's
-- names, in snake case.
--
-- Bounds and fuel. Helpers.digits has twenty rounds, the digits of a uint64_t, and the loop of
-- getNetworkHashrate one for each block from the first to the last. The rounds of HeaderChain.load
-- are as many as the target, since the counter rises by 2000 a round. The loops of MiningFee have
-- the logical block number as fuel, since each round takes 666666 blocks off. The queue of
-- MerkleTree has its size as fuel, since each round takes two hashes off and puts one back. The
-- loop of Api.read_raw_blocks has the size of the body, since each round reads a header; that of
-- startChainSync the target, since each round raises the id. The other loops are structural.
--
-- Not modelled: HTTP, the parser and printer of JSON, the files behind LevelDB (reads and writes
-- succeed), log output, the configuration, the tools, key generation and mineHash, getStats of
-- src/server/request_manager.cpp, and the routes for logs, names and peers. Hash functions,
-- signatures, the clock, random numbers, the arithmetic of doubles and of the bigint library, and
-- what a peer answers are parameters.
pub mod Common
pub mod Crypto
pub mod Transaction
pub mod Helpers
pub mod Json
pub mod Ledger
pub mod TxStore
pub mod Executor
pub mod RateLimiter
pub mod Block
pub mod HeaderChain
pub mod Difficulty
pub mod MiningFee
pub mod Mempool
pub mod MerkleTree
pub mod BlockStore
pub mod Api
pub mod Blockchain
pub mod User
pub mod HostManager
pub mod RequestManager
pub mod Server
mod Samples
