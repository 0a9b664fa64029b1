-- ===== src/Node/Incoming.antt =====
-- dhtcore/src/DhtNode.cpp: handleQuery, which every query that arrives goes through.
use dhtinspector.Common.{
  ℕ, ◌+◌, Bool, true, false, ◌||◌, Option, none, some, List, ◌∷◌, bytes_eq, if◌then◌else◌,
}
use dhtinspector.NodeId.{NodeId, id_eq}
use dhtinspector.Endpoint.{Endpoint}
use dhtinspector.Bencode.{end}
use dhtinspector.Krpc.{Message, sender_id}
use dhtinspector.RoutingTable.{RoutingTable}
use dhtinspector.RoutingTable.Insert.{queried_by}
use dhtinspector.Storage.Limits.{Double, allow}
use dhtinspector.Node.State.{DhtNode, World, send_response, send_error, maybe_verify}
use dhtinspector.Node.Find.{nodes_for}
use dhtinspector.Node.Peers.{id_at, complain, handle_get_peers, handle_announce, handle_sample}
use dhtinspector.Node.Items.{handle_get, handle_put}
use dhtinspector.Node.Words.{
  word_ping, word_find_node, word_get_peers, word_announce_peer, word_get, word_put,
  word_sample_infohashes, word_target, text_missing_id, text_missing_target, text_method_unknown,
  code_unknown_method,
}

unfoldable pub note_inbound :
    Endpoint → Message → Option (List (Endpoint × Message)) → Option (List (Endpoint × Message))
note_inbound from message none = none
note_inbound from message (some seen) = some ((from, message) ∷ seen)

module _ {d : Double} where
  -- The node asks us: it is noted, or a ping may go to it.
  unfoldable pub note_known :
      World → NodeId → Endpoint → ℕ → Bool × RoutingTable → DhtNode d → DhtNode d
  note_known w id from now (true, t) n = record n { table = t }
  note_known w id from now (false, t) n = maybe_verify w id from now (record n { table = t })

  unfoldable pub note_sender : World → NodeId → Message → Endpoint → ℕ → DhtNode d → DhtNode d
  unfolding note_known maybe_verify
  note_sender w id message from now n =
      if message.read_only || id_eq id n.id
      then n
      else note_known w id from now (queried_by id from now n.table) n

  unfoldable pub find_node_for : World → Message → Endpoint → Option NodeId → DhtNode d → DhtNode d
  unfolding complain send_response
  find_node_for w message from none n = complain w message from text_missing_target n
  find_node_for w message from (some target) n =
      send_response w message from (nodes_for w target message.body n) n

  -- The methods, in the order of the code.
  unfoldable pub answer : World → Message → Endpoint → List ℕ → ℕ → DhtNode d → DhtNode d
  unfolding find_node_for id_at handle_get_peers handle_announce handle_sample handle_get handle_put
      send_response send_error
  answer w message from datagram now n =
      let is : List ℕ → Bool = bytes_eq message.method in
      if is word_ping
      then send_response w message from end n
      else (if is word_find_node
          then find_node_for w message from (id_at word_target message.body) n
          else (if is word_get_peers
              then handle_get_peers w message from now n
              else (if is word_announce_peer
                  then handle_announce w message from now n
                  else (if is word_get
                      then handle_get w message from now n
                      else (if is word_sample_infohashes
                          then handle_sample w message from n
                          else (if is word_put
                              then handle_put w message from datagram now n
                              else send_error w message.transaction_id from code_unknown_method
                                  text_method_unknown n))))))

  unfoldable pub query_from :
      World → Message → Endpoint → List ℕ → ℕ → Option NodeId → DhtNode d → DhtNode d
  unfolding complain answer note_sender
  query_from w message from datagram now none n = complain w message from text_missing_id n
  query_from w message from datagram now (some id) n =
      answer w message from datagram now (note_sender w id message from now n)

  unfoldable pub query_counted :
      World → Message → Endpoint → List ℕ → ℕ → Bool → DhtNode d → DhtNode d
  unfolding query_from sender_id
  query_counted w message from datagram now true n = record n {
    stats = record (n.stats) { read_only_dropped = n.stats.read_only_dropped + 1 };
  }
  query_counted w message from datagram now false n =
      query_from w message from datagram now (sender_id message) n

  unfoldable pub query_allowed :
      World → Message → Endpoint → List ℕ → ℕ → Bool → DhtNode d → DhtNode d
  unfolding query_counted
  query_allowed w message from datagram now false n = record n {
    stats = record (n.stats) { rate_limited = n.stats.rate_limited + 1 };
  }
  query_allowed w message from datagram now true n =
      query_counted w message from datagram now n.config.read_only
        (record n { stats = record (n.stats) { queries_in = n.stats.queries_in + 1 } })

  unfoldable pub handle_query : World → Message → Endpoint → List ℕ → ℕ → DhtNode d → DhtNode d
  unfolding query_allowed note_inbound
  handle_query w message from datagram now n =
      let r = allow from.address now n.limiter in
      query_allowed w message from datagram now r.0
        (record n { inbound = note_inbound from message n.inbound; limiter = r.1 })
