-- ===== src/Tests/Answers.antt =====
-- The properties of a node's answers at concrete inputs, and the inputs.
use dhtinspector.Common.{ℕ, ◌≡◌, refl, true, false, not, ◌&&◌, none, List, [], ◌∷◌}
use dhtinspector.Common.Ints.{pos}
use dhtinspector.Endpoint.{Family}
use dhtinspector.Bencode.{
  Fields, field, end, built, dict, string, integer, string_at, string_of, find, lookup, to_dict,
}
use dhtinspector.Krpc.{Message}
use dhtinspector.RoutingTable.{make_table}
use dhtinspector.Storage.Authentic.{IsAuthentic}
use dhtinspector.Storage.Limits.{allow, allow_at, refill_bucket, spend}
use dhtinspector.Rpc.Reply.{empty_message}
use dhtinspector.Node.State.{DhtNode, World}
use dhtinspector.Node.Peers.{check_token}
use dhtinspector.Node.Incoming.{handle_query, note_inbound}
use dhtinspector.Node.Once.{IsAnswer, handle_query-once}
use dhtinspector.Node.Effects.{token_is_good}
use dhtinspector.Node.Guarded.{handle_query-guarded, handle_query-IsAuthentic, handle_query-dropped}
use dhtinspector.Node.Learning.{layout, handle_query-layout}
use dhtinspector.Node.Words.{
  word_id, word_ping, word_get_peers, word_announce_peer, word_put, word_info_hash, word_token,
  word_port,
}
use dhtinspector.Tests.{host, crypto, self_id, near_id, far_id, tokens}
use dhtinspector.Tests.Queries.{whole, router, every}

abbrev world : World
world = record {
  api = host;
  crypto = crypto;
  taken = every;
  secrets = (3 ∷ [], 4 ∷ []);
  draw = λ i n. 0;
  shuffle = λ ids. ids;
}

abbrev node : DhtNode whole
node = record {
  config = record {
    family = Family.ipv4_family;
    allow_local = false;
    bep42 = true;
    read_only = false;
    version = [];
  };
  bound = true;
  id = self_id;
  table = make_table self_id true;
  sibling = none;
  storage = record { entries = []; peer_count = 0 };
  items = record { immutables = []; mutables = [] };
  tokens = tokens;
  limiter = record { buckets = []; rate = 20; burst = 40 };
  rpc = none;
  verifications = [];
  inbound = none;
  stats = record {
    packets_out = 0;
    bytes_out = 0;
    queries_in = 0;
    queries_out = 0;
    rate_limited = 0;
    read_only_dropped = 0;
  };
  sent = [];
}

abbrev query_with : List ℕ → Fields → Message
query_with method arguments = record empty_message {
  transaction_id = 97 ∷ [];
  method = method;
  body = built (dict arguments);
}

abbrev ping : Message
ping = query_with word_ping (field word_id (built (string near_id)) end)

abbrev put : Message
put = query_with word_put (field word_id (built (string near_id)) end)

allowed : (allow router.address 2000 node.limiter).0 ≡ true
unfolding allow allow_at refill_bucket spend
allowed = refl

handle_query-once_example :
    (bytes : List ℕ) × ((handle_query world ping router [] 2000 node).sent ≡ (bytes, router) ∷ [])
    × IsAnswer ping router node bytes
handle_query-once_example =
    handle_query-once world ping router (λ bytes to. refl) [] 2000 node refl refl allowed

no_token : token_is_good world put router 2000 node ≡ false
unfolding check_token string_at string_of find lookup to_dict
no_token = refl

handle_query-guarded_example :
    ((handle_query world put router [] 2000 node).storage ≡ node.storage)
    × ((handle_query world put router [] 2000 node).items ≡ node.items)
handle_query-guarded_example = handle_query-guarded world put router [] 2000 node no_token

handle_query-IsAuthentic_example :
    IsAuthentic crypto (handle_query world put router [] 2000 node).items
handle_query-IsAuthentic_example =
    handle_query-IsAuthentic world put router [] 2000 node
      (record { immutables = tt; mutables = tt })

abbrev silent_node : DhtNode whole
silent_node = record node { config = record (node.config) { read_only = true } }

silent :
    ((allow router.address 2000 silent_node.limiter).0 && not silent_node.config.read_only) ≡ false
unfolding allow allow_at refill_bucket spend
silent = refl

handle_query-dropped_example :
    handle_query world ping router [] 2000 silent_node ≡ record silent_node {
      inbound = note_inbound router ping none;
      limiter = (allow router.address 2000 silent_node.limiter).1;
      stats = (handle_query world ping router [] 2000 silent_node).stats;
    }
handle_query-dropped_example = handle_query-dropped world ping router [] 2000 silent_node silent

handle_query-layout_example :
    layout (handle_query world ping router [] 2000 node).table.buckets ≡ layout node.table.buckets
handle_query-layout_example = handle_query-layout world ping router [] 2000 node

abbrev ask : Message
ask = query_with word_get_peers (field word_info_hash (built (string far_id)) end)

abbrev tell : List ℕ → Message
tell token = query_with word_announce_peer (
    field word_info_hash (built (string far_id))
      (field word_port (built (integer (pos 6881))) (field word_token (built (string token)) end)))
