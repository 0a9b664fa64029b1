-- ===== src/Lib.antt =====
-- DHTInspector: a BitTorrent mainline DHT node that can be watched at work. This library models the
-- parts of the node's core that decide what it believes about the network.
--
-- NodeId.antt: dhtcore/src/NodeId.cpp, the 160-bit ids. An id is the list of its 20 bytes;
--   `common_prefix_length` and `closer` are commonPrefixLength and closer.
-- Endpoint.antt: dhtcore/src/Endpoint.cpp, addresses and ports, their normal and their compact form,
--   and the filter on addresses that other nodes hand out (`address_problem`, `is_usable_remote`).
--   What Qt decides about an address is the parameter `HostApi`.
-- RoutingTable.antt: dhtcore/src/RoutingTable.cpp. A table is its id, its restriction to one node per
--   address and the list of its buckets. RoutingTable/Insert has the operations that change it
--   (`heard_from`, `queried_by`, `failed`, `mark_pinged`, `touch_bucket`, `rebuild`), Queries the others.
-- Bencode.antt: dhtcore/src/Bencode.cpp. Bencode/Encoder and Bencode/Decoder are encodeInto and the
--   class Decoder; a decoder's step returns the value, the warnings, the position and the bytes left,
--   or the error.
-- Krpc.antt: dhtcore/src/Krpc.cpp, the messages over bencode, and in Krpc/Compact the node lists.
-- Bep42.antt: dhtcore/src/Bep42.cpp and dhtcore/src/Crc32c.cpp, ids tied to an address.
-- Bep44.antt: dhtcore/src/Bep44.cpp, what is hashed and signed of an item. Sha-1 and the check of a
--   signature are the parameter `Crypto`.
-- Lookup.antt: dhtcore/src/Lookup.cpp, the iterative lookup: the candidates, the counters of waiting
--   queries, the choice of what to send, and in Lookup/Replies what the callbacks do.
-- Storage.antt: dhtcore/src/Support.cpp: announce tokens (Storage/Tokens), the BEP 44 items kept for
--   others (Storage/Items), announced peers and the vote on the external address (Storage/Peers), and
--   the limits on hosts and new contacts (Storage/Limits), over a parameter `Double` for floating point
--   numbers. A hash is the list of its entries in the order of its iteration.
-- Rpc.antt: dhtcore/src/RpcManager.cpp, the queries that are out and those that wait. Rpc/Table has the
--   transactions and the queues per host, Rpc/Manager the operations with their limits (`query`, `drain`,
--   `handle_reply`, `expire` and the settings), Rpc/Events a new manager and its runs. What a callback
--   does when it is called is a list of calls to the manager; whether the operating system takes a
--   datagram is the parameter `taken`. Rpc/Moves has the steps that the operations are made of. The
--   table also keeps a record that the code does not have: the queries that send() was given, and the
--   calls of query() that were not refused and of cancelAll.
-- Node.antt: dhtcore/src/DhtNode.cpp, how a node answers queries. Node/State has its state and what it
--   sends, Node/Find nodesFor, Node/Peers and Node/Items the methods, Node/Incoming `handle_query`. The
--   socket, the random draws, fresh secrets and std::shuffle are the parameter `World`. The sibling
--   node is its routing table; the storage that the two share is a field of the node.
-- Common.antt: names of the libraries, lists, signed integers and tests that the others share.
-- Tests.antt: the properties at concrete inputs.
--
-- The parts stand on each other in that order: the routing table and the lookup use ids and endpoints,
-- messages use bencode and endpoints, and the lookup reads messages and BEP 44 items. The RPC
-- manager writes messages and hands replies to the lookup's callbacks; the node
-- answers out of the table, the storage and the tokens, and asks through the manager.
--
-- Numbers are natural numbers and times are milliseconds from a clock's start; differences are
-- written so that they agree with the source's signed ones. Bytes are numbers below 256. A 64-bit
-- integer of bencode is signed, and the decoder's test of its range is written out. `std::sort` is
-- insertion sort. A message's text is a constructor with its arguments.
--
-- Loops that are not structural run on fuel: the decoder on twice the input's length and one more,
-- since every call reads a byte or ends; the loop of `insert` on 160 less the number of buckets, since
-- every round but the last splits one; compact lists on the length of the input, since every round
-- drops an entry; a number's digits on the number itself; the search for a
-- transaction id on the number of outstanding queries, since every round passes one of them; a pass of
-- `drain` on the length of the order, which is the source's own bound.
--
-- Of the lookup, a query's callback is a later call of `on_reply` or `on_sent`: a send that calls back
-- before it returns is not modelled. Random bytes are arguments. What the node
-- does with replies, its lookups and its maintenance, the engine and the crawler, sockets, threads, timers, display
-- text, files, statistics, port mapping and the desktop application are not modelled.
pub mod Common
pub mod NodeId
pub mod Endpoint
pub mod RoutingTable
pub mod Bencode
pub mod Krpc
pub mod Bep42
pub mod Bep44
pub mod Storage
pub mod Rpc
pub mod Node
pub mod Lookup
pub mod Tests
