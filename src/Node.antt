-- ===== src/Node.antt =====
-- dhtcore/src/DhtNode.cpp and dhtcore/include/dhtcore/DhtNode.h: the node of one address family, over
-- its routing table, its storage, its tokens and its RPC manager.
pub mod Words
pub mod State
pub mod Find
pub mod Peers
pub mod Values
pub mod Items
pub mod Incoming
pub mod Kept
pub mod Once
pub mod Effects
pub mod Guarded
pub mod Learning
pub mod Announcing
