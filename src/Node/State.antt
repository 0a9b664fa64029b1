-- ===== src/Node/State.antt =====
-- dhtcore/src/DhtNode.cpp: the state of a node, what it sends, and the ping for a node that asks.
use dhtinspector.Common.{
  ℕ, suc, ◌+◌, ◌-◌, Bool, false, not, ◌&&◌, Option, none, some, List, [], ◌∷◌, ltb, if◌then◌else◌,
  length, first, any, update_first,
}
use dhtinspector.NodeId.{NodeId}
use dhtinspector.Endpoint.{HostApi, null, Endpoint, Family, endpoint_eq, is_usable_remote}
use dhtinspector.Bencode.{Fields, built, string, end}
use dhtinspector.Krpc.{Message, encode_response, encode_error}
use dhtinspector.RoutingTable.{RoutingTable}
use dhtinspector.RoutingTable.Queries.{would_accept}
use dhtinspector.Bep44.{Crypto}
use dhtinspector.Storage.Tokens.{TokenManager}
use dhtinspector.Storage.Items.{ItemStorage}
use dhtinspector.Storage.Peers.{PeerStorage}
use dhtinspector.Storage.Limits.{Double, RateLimiter}
use dhtinspector.Rpc.Table.{Output, handed_over}
use dhtinspector.Rpc.Manager.{RpcManager, Taken, query}
use dhtinspector.Node.Words.{word_id, word_ping, assign}

-- Of NodeConfig, what the handlers read.
pub record NodeConfig : Type 0 where
  pub family : Family
  pub allow_local : Bool
  pub bep42 : Bool
  pub read_only : Bool
  pub version : List ℕ

-- Of EngineStats, what a node counts.
pub record NodeStats : Type 0 where
  pub packets_out : ℕ
  pub bytes_out : ℕ
  pub queries_in : ℕ
  pub queries_out : ℕ
  pub rate_limited : ℕ
  pub read_only_dropped : ℕ

-- What the handlers take from Qt and the libraries. `taken` is writeDatagram on a bound socket,
-- `secrets` are two fresh random secrets, `draw i n` the random number below n that is drawn in round
-- i, and `shuffle` is std::shuffle.
pub record World : Type 0 where
  pub api : HostApi
  pub crypto : Crypto
  pub taken : Taken
  pub secrets : List ℕ × List ℕ
  pub draw : ℕ → ℕ → ℕ
  pub shuffle : List NodeId → List NodeId

-- `sibling` is the table of the other family's node. `inbound` has the queries that were tallied, if
-- they are, and `sent` the answers that were written, both with the latest first. `storage` and
-- `items` are shared with the sibling.
pub record DhtNode (d : Double) : Type 0 where
  pub config : NodeConfig
  pub bound : Bool
  pub id : NodeId
  pub table : RoutingTable
  pub sibling : Option RoutingTable
  pub storage : PeerStorage
  pub items : ItemStorage
  pub tokens : TokenManager
  pub limiter : RateLimiter d
  pub rpc : Option (RpcManager d)
  pub verifications : List (Endpoint × ℕ)
  pub inbound : Option (List (Endpoint × Message))
  pub stats : NodeStats
  pub sent : List (List ℕ × Endpoint)

abbrev pub verification_window_ms : ℕ
verification_window_ms = 600000

abbrev pub max_pending_verifications : ℕ
max_pending_verifications = 2000

abbrev pub default_timeout_ms : ℕ
default_timeout_ms = 3000

count_packet : ℕ → NodeStats → NodeStats
count_packet bytes s = record s { packets_out = s.packets_out + 1; bytes_out = s.bytes_out + bytes }

-- The packets and the bytes that the manager handed over.
packets_of : List Output → ℕ
packets_of [] = 0
packets_of (handed_over bytes to ∷ os) = suc (packets_of os)
packets_of (o ∷ os) = packets_of os

bytes_of : List Output → ℕ
bytes_of [] = 0
bytes_of (handed_over bytes to ∷ os) = length bytes + bytes_of os
bytes_of (o ∷ os) = bytes_of os

-- sendDatagram's counts for what the manager sent between two states.
count_sent : List Output → List Output → NodeStats → NodeStats
unfolding packets_of bytes_of
count_sent before after s = record s {
  packets_out = s.packets_out + (packets_of after - packets_of before);
  bytes_out = s.bytes_out + (bytes_of after - bytes_of before);
}

-- The callback that sendQuery makes around its caller's, which may be empty.
abbrev pub wrapped : Option ℕ → ℕ
wrapped none = 0
wrapped (some callback) = suc callback

verified_at : Endpoint → Endpoint × ℕ → Bool
verified_at e v = endpoint_eq v.0 e

is_recent : ℕ → Option (Endpoint × ℕ) → Bool
is_recent now none = false
is_recent now (some v) = ltb (now - v.1) verification_window_ms

unfoldable pub insert_verification : Endpoint → ℕ → List (Endpoint × ℕ) → List (Endpoint × ℕ)
unfolding verified_at
insert_verification e now vs =
    if any (verified_at e) vs
    then update_first (verified_at e) (λ v. (e, now)) vs
    else (e, now) ∷ vs

-- A node that is not bound sends nothing.
unfoldable pub socket : World → Bool → Taken
socket w bound bytes to = bound && w.taken bytes to

module _ {d : Double} where
  unfoldable pub send_datagram : World → List ℕ → Endpoint → DhtNode d → DhtNode d
  unfolding count_packet socket
  send_datagram w bytes to n =
      if socket w n.bound bytes to
      then record n { stats = count_packet (length bytes) n.stats; sent = (bytes, to) ∷ n.sent }
      else n

  unfoldable pub query_through :
      World
      → Endpoint
      → List ℕ
      → Fields
      → Option ℕ
      → ℕ
      → Option ℕ
      → ℕ
      → Option (RpcManager d)
      → DhtNode d
      → DhtNode d
  unfolding count_sent socket
  query_through w to method arguments callback timeout on_sent now none n = n
  query_through w to method arguments callback timeout on_sent now (some rpc) n =
      let asked =
        query (socket w n.bound)
          (record {
            to = to;
            method = method;
            arguments = assign word_id (built (string n.id)) arguments;
            version = n.config.version;
            callback = some (wrapped callback);
            timeout = timeout;
            on_sent = on_sent;
          })
          now rpc in
      record n {
        rpc = some asked;
        stats =
            count_sent rpc.table.outputs asked.table.outputs
              (record (n.stats) { queries_out = n.stats.queries_out + 1 });
      }

  unfoldable pub send_query :
      World → Endpoint → List ℕ → Fields → Option ℕ → ℕ → Option ℕ → ℕ → DhtNode d → DhtNode d
  unfolding query_through
  send_query w to method arguments callback timeout on_sent now n =
      query_through w to method arguments callback timeout on_sent now n.rpc n

  -- The bytes of a response, with the BEP 42 "ip".
  unfoldable pub response_bytes : Message → Endpoint → Fields → DhtNode d → List ℕ
  unfolding assign
  response_bytes message to values n =
      encode_response message.transaction_id (assign word_id (built (string n.id)) values)
        n.config.version (if n.config.bep42 then to else record { address = null; port = 0 })

  unfoldable pub send_response : World → Message → Endpoint → Fields → DhtNode d → DhtNode d
  unfolding send_datagram response_bytes
  send_response w message to values n = send_datagram w (response_bytes message to values n) to n

  unfoldable pub send_error : World → List ℕ → Endpoint → ℕ → List ℕ → DhtNode d → DhtNode d
  unfolding send_datagram
  send_error w tid to code text n =
      send_datagram w (encode_error tid code text n.config.version) to n

  -- maybeVerify's early returns.
  unfoldable pub should_verify : World → NodeId → Endpoint → ℕ → DhtNode d → Bool
  unfolding verified_at is_recent
  should_verify w id from now n =
      (is_usable_remote w.api from n.config.allow_local && would_accept id n.table)
      && (not (is_recent now (first (verified_at from) n.verifications))
          && ltb (length n.verifications) max_pending_verifications)

  unfoldable pub maybe_verify : World → NodeId → Endpoint → ℕ → DhtNode d → DhtNode d
  unfolding send_query should_verify insert_verification
  maybe_verify w id from now n =
      if should_verify w id from now n
      then send_query w from word_ping end none default_timeout_ms none now
          (record n { verifications = insert_verification from now n.verifications })
      else n
