-- ===== src/Node/Announcing.antt =====
-- dhtcore/src/DhtNode.cpp: get_peers hands out the token that announce_peer asks for.
use dhtinspector.NodeId.{NodeId}
use dhtinspector.Endpoint.{Endpoint}
