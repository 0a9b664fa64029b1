-- ===== src/Storage.antt =====
-- dhtcore/src/Support.cpp and dhtcore/include/dhtcore/Support.h: what the node keeps for others.
pub mod Tokens
pub mod Items
pub mod Sequences
pub mod Peers
pub mod Limits
pub mod Authentic
pub mod Bounds
pub mod Capacity
pub mod Crowds
