-- ===== src/Rpc.antt =====
-- dhtcore/src/RpcManager.cpp and dhtcore/include/dhtcore/RpcManager.h: the queries that are out and
-- those that wait.
pub mod Reply
pub mod Table
pub mod Manager
pub mod Fresh
pub mod Queues
pub mod Invariant
pub mod Moves
pub mod Dispatch
pub mod Runs
pub mod Fifo
pub mod FifoMoves
pub mod Events
pub mod Lines
pub mod Asking
pub mod Answers
pub mod Timeouts
pub mod Service
pub mod Promises
