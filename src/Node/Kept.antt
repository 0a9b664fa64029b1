-- ===== src/Node/Kept.antt =====
-- dhtcore/src/DhtNode.cpp: what an answer depends on, and what leaves it as it is.
use dhtinspector.Common.{
  ℕ, ◌≡◌, refl, Bool, true, false, inl, inr, Option, none, some, List, Bool-cases,
}
use dhtinspector.NodeId.{NodeId}
use dhtinspector.Endpoint.{Endpoint}
use dhtinspector.Bencode.{Fields, end}
use dhtinspector.Krpc.{Message}
use dhtinspector.RoutingTable.{RoutingTable}
use dhtinspector.Rpc.Manager.{RpcManager}
use dhtinspector.Storage.Limits.{Double}
use dhtinspector.Node.State.{
  DhtNode, World, query_through, send_query, response_bytes, should_verify, insert_verification,
  default_timeout_ms, maybe_verify,
}
use dhtinspector.Node.Incoming.{note_known}
use dhtinspector.Node.Words.{word_ping}

-- What an answer depends on is as it was.
pub record Kept {d : Double} (n m : DhtNode d) : Type 0 where
  pub sent : m.sent ≡ n.sent
  pub config : m.config ≡ n.config
  pub id : m.id ≡ n.id
  pub bound : m.bound ≡ true

module _ {d : Double} where
  pub response_bytes-same :
      (message : Message) (from : Endpoint) (values : Fields) (n m : DhtNode d)
      → Kept n m
      → response_bytes message from values m ≡ response_bytes message from values n
  unfolding response_bytes
  response_bytes-same message from values n m k = rw (k.config, k.id) refl

  query_through-Kept :
      (w : World) (to : Endpoint) (method : List ℕ) (arguments : Fields) (callback : Option ℕ)
      (timeout : ℕ) (on_sent : Option ℕ) (now : ℕ) (o : Option (RpcManager d)) (n m : DhtNode d)
      → Kept n m
      → Kept n (query_through w to method arguments callback timeout on_sent now o m)
  unfolding query_through
  query_through-Kept w to method arguments callback timeout on_sent now none n m k = k
  query_through-Kept w to method arguments callback timeout on_sent now (some rpc) n m k = record {
    sent = k.sent;
    config = k.config;
    id = k.id;
    bound = k.bound;
  }

  pub maybe_verify-Kept :
      (w : World) (id : NodeId) (from : Endpoint) (now : ℕ) (n m : DhtNode d)
      → Kept n m
      → Kept n (maybe_verify w id from now m)
  unfolding maybe_verify send_query
  maybe_verify-Kept w id from now n m k = elim (Bool-cases (should_verify w id from now m)) [
    | inl b ↦ rw b (
        query_through-Kept w from word_ping end none default_timeout_ms none now m.rpc n
          (record m { verifications = insert_verification from now m.verifications })
          (record { sent = k.sent; config = k.config; id = k.id; bound = k.bound }))
    | inr b ↦ rw b k
  ]

  pub note_known-Kept :
      (w : World) (id : NodeId) (from : Endpoint) (now : ℕ) (r : Bool × RoutingTable)
      (n m : DhtNode d)
      → Kept n m
      → Kept n (note_known w id from now r m)
  unfolding note_known
  note_known-Kept w id from now (true, t) n m k = record {
    sent = k.sent;
    config = k.config;
    id = k.id;
    bound = k.bound;
  }
  note_known-Kept w id from now (false, t) n m k =
      maybe_verify-Kept w id from now n (record m { table = t })
        (record { sent = k.sent; config = k.config; id = k.id; bound = k.bound })
