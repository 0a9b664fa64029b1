-- ===== src/Tests.antt =====
-- The properties at concrete inputs, and the inputs.
mod Queries
mod Answers
use dhtinspector.Common.{
  ℕ, Bool, ◌-◌, ◌/◌, ◌^◌, ◌==◌, ◌≤◌, ◌<◌, ◌≡◌, ◌≢◌, ◌↔◌, ◌⊎◌, refl, true, false, ◌||◌, none, some,
  List, [], ◌∷◌, keep, take, arith,
}
use dhtinspector.Common.Ints.{ℤ, pos, negsuc}
use dhtinspector.NodeId.{
  NodeId, IsNodeId, closer, common_prefix_length, prefix_from, countl_zero, bits,
}
use dhtinspector.NodeId.Metric.{closer-strict_total_order}
use dhtinspector.NodeId.Prefix.{closer_of_longer_prefix, common_prefix_length_bounds}
use dhtinspector.Endpoint.{
  HostApi, Address, null, ipv4, Endpoint, Family, to_compact, from_compact, is_usable_remote,
  address_problem, is_valid, is_unspecified, is_local_address, is_ipv4, is_global_ipv6, ipv6_bytes,
}
use dhtinspector.Endpoint.Compact.{from_compact-to_compact}
use dhtinspector.Endpoint.Usable.{IsIpv4Api, is_usable_remote-ipv4}
use dhtinspector.RoutingTable.{RoutingNode, RoutingTable, empty_bucket, make_table}
use dhtinspector.RoutingTable.Insert.{place, rebuild}
use dhtinspector.RoutingTable.Invariant.{IsTable}
use dhtinspector.RoutingTable.Place.{place_round, place_loop}
use dhtinspector.RoutingTable.Session.{Call, heard, timed_out, rebuilt, run, run-IsTable}
use dhtinspector.Bencode.{
  BValue, Fields, built, integer, string, dict, list, cons, nil, field, end, to_dict, lookup,
  raw_span, bytes_lt,
}
use dhtinspector.Bencode.Encoder.{bencode}
use dhtinspector.Bencode.Decoder.{bdecode}
use dhtinspector.Bencode.Canonical.{Canonical, locate}
use dhtinspector.Bencode.RoundTrip.{bdecode-bencode}
use dhtinspector.Bencode.Total.{Decodes, bdecode-Decodes}
use dhtinspector.Bencode.Spans.{raw_span-bencode}
use dhtinspector.Krpc.{parse, encode_query, encode_error, encode_response, accept}
use dhtinspector.Krpc.Errors.{error_reply_message, parse-encode_error}
use dhtinspector.Krpc.Responses.{response_message, parse-encode_response}
use dhtinspector.Storage.Bounds.{IsBounded}
use dhtinspector.Storage.Crowds.{
  IsRoomy, PeerCall, announce_peer, expire_peers, clear_peers, call_peers, call_peers-IsRoomy,
}
use dhtinspector.Storage.Capacity.{
  ItemCall, put_value, put_item, expire_items, clear_items, call_items, call_items-IsBounded,
}
use dhtinspector.Krpc.Compact.{CompactNode, encode_nodes, decode_nodes}
use dhtinspector.Krpc.CompactTrip.{IsContact, of_family, decode_nodes-encode_nodes}
use dhtinspector.Krpc.Queries.{query_message, parse-encode_query}
use dhtinspector.Bep42.{generate, is_compliant}
use dhtinspector.Bep42.Generate.{is_compliant-generate}
use dhtinspector.Bep44.{Crypto}
use dhtinspector.Storage.Tokens
use dhtinspector.Storage.Tokens.{TokenManager, validate, validate-generate}
use dhtinspector.Storage.Items.{MutableItem, ItemStorage, mutable_item, put_mutable}
use dhtinspector.Storage.Sequences.{AtLeast, put_mutable-AtLeast}
use dhtinspector.Lookup.{Lookup, get_peers, LookupResult, finish, responded, failed}
use dhtinspector.Lookup.Results.{responders, finish-responders}
use dhtinspector.Lookup.Counted.{IsCounted}
use dhtinspector.Lookup.Finishing.{
  Event, contact, begin, sent, slow_check, handle_all, handle_all-IsCounted,
}

-- A host on which no address is special.
abbrev pub host : HostApi
host = record {
  ipv4_of = λ bytes. none;
  is_loopback = λ a. false;
  is_link_local = λ a. false;
  is_multicast = λ a. false;
  is_broadcast = λ a. false;
  is_unique_local = λ a. false;
  in_subnet = λ a base len. false;
}

abbrev pub self_id : NodeId
self_id = (1 ∷ 2 ∷ 0 ∷ 0 ∷ 0 ∷ 0 ∷ 0 ∷ 0 ∷ 0 ∷ 0 ∷ 0 ∷ 0 ∷ 0 ∷ 0 ∷ 0 ∷ 0 ∷ 0 ∷ 0 ∷ 0 ∷ 0 ∷ [])

abbrev pub near_id : NodeId
near_id = (1 ∷ 3 ∷ 0 ∷ 0 ∷ 0 ∷ 0 ∷ 0 ∷ 0 ∷ 0 ∷ 0 ∷ 0 ∷ 0 ∷ 0 ∷ 0 ∷ 0 ∷ 0 ∷ 0 ∷ 0 ∷ 0 ∷ 0 ∷ [])

abbrev pub far_id : NodeId
far_id = (200 ∷ 7 ∷ 9 ∷ 0 ∷ 0 ∷ 0 ∷ 0 ∷ 0 ∷ 0 ∷ 0 ∷ 0 ∷ 0 ∷ 0 ∷ 0 ∷ 0 ∷ 0 ∷ 0 ∷ 0 ∷ 0 ∷ 0 ∷ [])

self_id-IsNodeId : IsNodeId self_id
self_id-IsNodeId = record {
  sized = refl;
  bytes = (
    omega arith,
    (
      omega arith,
      (
        omega arith,
        (
          omega arith,
          (
            omega arith,
            (
              omega arith,
              (
                omega arith,
                (
                  omega arith,
                  (
                    omega arith,
                    (
                      omega arith,
                      (
                        omega arith,
                        (
                          omega arith,
                          (
                            omega arith,
                            (
                              omega arith,
                              (
                                omega arith,
                                (
                                  omega arith,
                                  (omega arith, (omega arith, (omega arith, (omega arith, tt)))),
                                ),
                              ),
                            ),
                          ),
                        ),
                      ),
                    ),
                  ),
                ),
              ),
            ),
          ),
        ),
      ),
    ),
  );
}

near_id-IsNodeId : IsNodeId near_id
near_id-IsNodeId = record {
  sized = refl;
  bytes = (
    omega arith,
    (
      omega arith,
      (
        omega arith,
        (
          omega arith,
          (
            omega arith,
            (
              omega arith,
              (
                omega arith,
                (
                  omega arith,
                  (
                    omega arith,
                    (
                      omega arith,
                      (
                        omega arith,
                        (
                          omega arith,
                          (
                            omega arith,
                            (
                              omega arith,
                              (
                                omega arith,
                                (
                                  omega arith,
                                  (omega arith, (omega arith, (omega arith, (omega arith, tt)))),
                                ),
                              ),
                            ),
                          ),
                        ),
                      ),
                    ),
                  ),
                ),
              ),
            ),
          ),
        ),
      ),
    ),
  );
}

far_id-IsNodeId : IsNodeId far_id
far_id-IsNodeId = record {
  sized = refl;
  bytes = (
    omega arith,
    (
      omega arith,
      (
        omega arith,
        (
          omega arith,
          (
            omega arith,
            (
              omega arith,
              (
                omega arith,
                (
                  omega arith,
                  (
                    omega arith,
                    (
                      omega arith,
                      (
                        omega arith,
                        (
                          omega arith,
                          (
                            omega arith,
                            (
                              omega arith,
                              (
                                omega arith,
                                (
                                  omega arith,
                                  (omega arith, (omega arith, (omega arith, (omega arith, tt)))),
                                ),
                              ),
                            ),
                          ),
                        ),
                      ),
                    ),
                  ),
                ),
              ),
            ),
          ),
        ),
      ),
    ),
  );
}

abbrev remote : Endpoint
remote = record { address = ipv4 16909060; port = 6881 }

abbrev contact_node : CompactNode
contact_node = record { id = near_id; endpoint = remote }

closer-strict_total_order_example :
    (closer self_id near_id near_id ≡ false)
    × (closer self_id near_id far_id ≡ true
        → closer self_id far_id self_id ≡ true
        → closer self_id near_id self_id ≡ true)
    × ((closer self_id near_id far_id ≡ true)
        ⊎ ((closer self_id far_id near_id ≡ true) ⊎ (near_id ≡ far_id)))
closer-strict_total_order_example =
    closer-strict_total_order self_id near_id far_id self_id self_id-IsNodeId near_id-IsNodeId
      far_id-IsNodeId

common_prefix_length_bounds_example :
    (common_prefix_length self_id near_id ≤ 160)
    × ((common_prefix_length self_id near_id ≡ 160) ↔ (self_id ≡ near_id))
common_prefix_length_bounds_example =
    common_prefix_length_bounds self_id near_id self_id-IsNodeId near_id-IsNodeId

prefix_lengths : common_prefix_length self_id far_id < common_prefix_length self_id near_id
unfolding common_prefix_length prefix_from countl_zero
prefix_lengths = omega arith

closer_of_longer_prefix_example : closer self_id near_id far_id ≡ true
closer_of_longer_prefix_example =
    closer_of_longer_prefix self_id near_id far_id self_id-IsNodeId near_id-IsNodeId far_id-IsNodeId
      prefix_lengths

not_null : ipv4 16909060 ≢ null
not_null = λ e. cc

from_compact-to_compact_example : from_compact host (to_compact remote) ≡ some remote
from_compact-to_compact_example =
    from_compact-to_compact host remote (omega arith) not_null (omega arith)

-- Questions about IPv4 addresses, answered by their numbers.
on_ipv4 : (ℕ → Bool) → Address → Bool
on_ipv4 test (ipv4 a) = test a
on_ipv4 test _ = false

abbrev numeric_host : HostApi
numeric_host = record host {
  is_loopback = on_ipv4 (λ a. a / 16777216 == 127);
  is_link_local = on_ipv4 (λ a. a / 65536 == 43518);
  is_multicast = on_ipv4 (λ a. a / 268435456 == 14);
  is_broadcast = on_ipv4 (λ a. a == 4294967295);
  in_subnet =
      λ address base len. on_ipv4 (λ a. a / 2 ^ (32 - len) == base / 2 ^ (32 - len)) address;
}

numeric_host-IsIpv4Api : IsIpv4Api numeric_host
unfolding on_ipv4
numeric_host-IsIpv4Api = record {
  subnet = λ a base len short. refl;
  loopback = λ a. refl;
  link_local = λ a. refl;
  multicast = λ a. refl;
  broadcast = λ a. refl;
}

is_usable_remote-ipv4_example : is_usable_remote numeric_host remote false ≡ true
is_usable_remote-ipv4_example =
    is_usable_remote-ipv4 numeric_host 16909060 6881 false numeric_host-IsIpv4Api (omega arith)

abbrev calls : List Call
calls =
    heard near_id remote [] (some 20) 1000
    ∷ heard far_id (record { address = ipv4 84281096; port = 80 }) [] none 2000
    ∷ timed_out remote 3000
    ∷ rebuilt far_id 4000
    ∷ []

run-IsTable_example : IsTable (run host calls (make_table self_id true))
run-IsTable_example = run-IsTable host self_id true calls

abbrev one_bucket : RoutingTable
one_bucket = record { self = self_id; restrict_one_per_ip = true; buckets = empty_bucket ∷ [] }

abbrev node : RoutingNode
node = record {
  id = near_id;
  endpoint = remote;
  version = [];
  first_seen = 1000;
  last_response = 1000;
  last_query = 0;
  last_ping_sent = 0;
  fail_count = 0;
  rtt_ms = none;
}

place_loop_example : place (bits - 1) node 1000 one_bucket ≡ place_round node 1000 one_bucket
place_loop_example = place_loop node 1000 one_bucket (omega arith)

-- d1:ad2:idi-7ee1:bl2:xyee
abbrev sample_fields : Fields
sample_fields =
    field (97 ∷ []) (built (dict (field (105 ∷ 100 ∷ []) (built (integer (negsuc 6))) end)))
      (field (98 ∷ []) (built (list (cons (built (string (120 ∷ 121 ∷ []))) nil))) end)

sample-Canonical : Canonical 3 (built (dict sample_fields))
unfolding bytes_lt
sample-Canonical = (
  omega arith,
  ((refl, tt), (tt, tt)),
  (
    omega arith,
    (omega arith, (tt, tt), (omega arith, omega arith, tt)),
    (omega arith, (omega arith, (omega arith, tt)), tt),
  ),
)

bdecode-bencode_example :
    bdecode (bencode (built (dict sample_fields))) 3
    ≡ some (record { result = locate 0 (built (dict sample_fields)); error = none; warnings = [] })
bdecode-bencode_example = bdecode-bencode (built (dict sample_fields)) 3 sample-Canonical

bdecode-Decodes_example : Decodes 32 (bdecode (100 ∷ 49 ∷ 58 ∷ 97 ∷ 105 ∷ 48 ∷ []) 32)
bdecode-Decodes_example = bdecode-Decodes (100 ∷ 49 ∷ 58 ∷ 97 ∷ 105 ∷ 48 ∷ []) 32

sample-lookup :
    lookup (98 ∷ []) sample_fields
    ≡ some (built (list (cons (built (string (120 ∷ 121 ∷ []))) nil)))
unfolding lookup
sample-lookup = refl

raw_span-bencode_example :
    (root w : BValue) × (bdecode (bencode (built (dict sample_fields))) 3
      ≡ some (record { result = root; error = none; warnings = [] }))
    × (lookup (98 ∷ []) (to_dict root) ≡ some w)
    × (raw_span w (bencode (built (dict sample_fields)))
        ≡ bencode (built (list (cons (built (string (120 ∷ 121 ∷ []))) nil))))
raw_span-bencode_example =
    raw_span-bencode sample_fields (98 ∷ [])
      (built (list (cons (built (string (120 ∷ 121 ∷ []))) nil))) 3 sample-Canonical sample-lookup

contact_node-IsContact : IsContact host contact_node
contact_node-IsContact = record {
  sized = refl;
  normal = omega arith;
  set = not_null;
  port = omega arith;
}

decode_nodes-encode_nodes_example :
    decode_nodes host
      (encode_nodes host (contact_node ∷ contact_node ∷ []) Family.ipv4_family)
      Family.ipv4_family
    ≡ record {
      nodes = keep (of_family host Family.ipv4_family) (contact_node ∷ contact_node ∷ []);
      malformed = false;
    }
decode_nodes-encode_nodes_example =
    decode_nodes-encode_nodes host Family.ipv4_family (contact_node ∷ contact_node ∷ [])
      (contact_node-IsContact, (contact_node-IsContact, tt))

abbrev arguments : Fields
arguments = field (105 ∷ 100 ∷ []) (built (string near_id)) end

arguments-Canonical : Canonical 31 (built (dict arguments))
unfolding bytes_lt
arguments-Canonical = (omega arith, (tt, tt), (omega arith, omega arith, tt))

parse-encode_query_example :
    parse host
      (encode_query (97 ∷ 97 ∷ []) (112 ∷ 105 ∷ 110 ∷ 103 ∷ []) arguments (68 ∷ 73 ∷ []) true)
    ≡ some (
        accept
          (query_message (97 ∷ 97 ∷ []) (112 ∷ 105 ∷ 110 ∷ 103 ∷ []) arguments (68 ∷ 73 ∷ []) true)
          (97 ∷ 97 ∷ [])
          [])
parse-encode_query_example =
    parse-encode_query host (97 ∷ 97 ∷ []) (112 ∷ 105 ∷ 110 ∷ 103 ∷ []) arguments (68 ∷ 73 ∷ [])
      true (omega arith) (omega arith) (omega arith) arguments-Canonical

is_compliant-generate_example :
    is_compliant host (generate host (ipv4 2087933951) 1 far_id 5) (ipv4 2087933951) ≡ true
is_compliant-generate_example =
    is_compliant-generate host (ipv4 2087933951) 1 far_id 5 refl (omega arith)

-- A hash of zeros and no signature that holds.
abbrev pub crypto : Crypto
crypto = record { sha1 = λ bytes. far_id; ed25519_check = λ s k m. false }

abbrev fresh_lookup : Lookup
fresh_lookup = record {
  kind = get_peers;
  target = far_id;
  family = Family.ipv4_family;
  self = self_id;
  allow_local = false;
  candidates = [];
  seen = [];
  peers = [];
  sightings = [];
  salt = [];
  item = record {
    found = false;
    is_mutable = false;
    value = [];
    public_key = [];
    signature = [];
    sequence = negsuc 0;
  };
  started_at = none;
  slow_timer = false;
  slow_after = 700;
  query_timeout = 1500;
  slots = 0;
  outstanding = 0;
  queries = 0;
  answers = 0;
  started = false;
  finished = false;
  result = none;
}

fresh_lookup-IsCounted : IsCounted fresh_lookup
fresh_lookup-IsCounted = record {
  slots_counted = refl;
  outstanding_counted = refl;
  few_slots = omega arith;
  few_outstanding = omega arith;
  few_queries = omega arith;
}

abbrev events : List Event
events = contact near_id remote 0 10 ∷ begin 20 ∷ sent remote 30 ∷ slow_check 800 ∷ []

handle_all-IsCounted_example : IsCounted (handle_all host crypto events fresh_lookup)
handle_all-IsCounted_example =
    handle_all-IsCounted host crypto events fresh_lookup fresh_lookup-IsCounted

abbrev pub tokens : TokenManager
tokens = record { current = 1 ∷ []; previous = 2 ∷ []; rotated_at = some 1000 }

validate-generate_example :
    (validate host crypto
      (5 ∷ [], 6 ∷ [])
      (Tokens.generate host crypto (3 ∷ [], 4 ∷ []) (ipv4 16909060) 200000 tokens).0
      (ipv4 16909060)
      450000
      (Tokens.generate host crypto (3 ∷ [], 4 ∷ []) (ipv4 16909060) 200000 tokens).1).0
    ≡ true
validate-generate_example =
    validate-generate host crypto (3 ∷ [], 4 ∷ []) (5 ∷ [], 6 ∷ []) (ipv4 16909060) 200000 450000
      tokens (omega arith)

-- An item at its target, with the given sequence number.
abbrev item_numbered : ℤ → MutableItem
item_numbered sequence = record {
  target = near_id;
  public_key = [];
  salt = [];
  signature = [];
  value = 105 ∷ 49 ∷ 101 ∷ [];
  sequence = sequence;
  stored_at = 10;
}

abbrev items : ItemStorage
items = record { immutables = []; mutables = item_numbered (pos 4) ∷ [] }

item_found : mutable_item near_id items ≡ some (item_numbered (pos 4))
unfolding mutable_item
item_found = refl

put_mutable-AtLeast_example :
    AtLeast (pos 4) near_id (put_mutable (item_numbered (pos 3)) none 20 items).1
put_mutable-AtLeast_example =
    put_mutable-AtLeast (item_numbered (pos 3)) (item_numbered (pos 4)) none 20 items item_found

abbrev answered_lookup : Lookup
answered_lookup = record fresh_lookup {
  candidates =
      record { id = near_id; endpoint = remote; state = failed; token = []; hops = 0; sent_at = 30 }
      ∷ record {
        id = self_id;
        endpoint = remote;
        state = responded;
        token = [];
        hops = 1;
        sent_at = 40;
      }
      ∷ [];
}

finish-responders_example :
    ((finish 900 answered_lookup).finished ≡ true)
    × ((finish 900 answered_lookup).slow_timer ≡ false)
    × (r : LookupResult) × ((finish 900 answered_lookup).result ≡ some r)
    × (r.closest ≡ take 8 (responders answered_lookup.candidates))
    × (r.peers ≡ answered_lookup.peers)
    × (r.item ≡ answered_lookup.item)
finish-responders_example = finish-responders 900 answered_lookup

parse-encode_error_example :
    parse host (encode_error (97 ∷ 97 ∷ []) 203 (98 ∷ 97 ∷ 100 ∷ []) (68 ∷ 73 ∷ []))
    ≡ some (
        accept
          (error_reply_message (97 ∷ 97 ∷ []) 203 (98 ∷ 97 ∷ 100 ∷ []) (68 ∷ 73 ∷ []))
          (97 ∷ 97 ∷ [])
          [])
parse-encode_error_example =
    parse-encode_error host (97 ∷ 97 ∷ []) 203 (98 ∷ 97 ∷ 100 ∷ []) (68 ∷ 73 ∷ []) (omega arith)
      (omega arith) (omega arith) (omega arith)

parse-encode_response_example :
    parse host (
      encode_response (97 ∷ 97 ∷ []) arguments (68 ∷ 73 ∷ []) (record { address = null; port = 0 }))
    ≡ some (accept (response_message (97 ∷ 97 ∷ []) arguments (68 ∷ 73 ∷ [])) (97 ∷ 97 ∷ []) [])
parse-encode_response_example =
    parse-encode_response host (97 ∷ 97 ∷ []) arguments (68 ∷ 73 ∷ [])
      (record { address = null; port = 0 }) refl (omega arith) (omega arith) arguments-Canonical

abbrev item_calls : List ItemCall
item_calls =
    put_value far_id (49 ∷ 58 ∷ 97 ∷ []) 100
    ∷ put_item (item_numbered (pos 5)) none 200
    ∷ expire_items 9000000
    ∷ clear_items
    ∷ []

call_items-IsBounded_example :
    IsBounded (call_items item_calls (record { immutables = []; mutables = [] }))
call_items-IsBounded_example =
    call_items-IsBounded item_calls (record { immutables = []; mutables = [] })
      (omega arith, (omega arith, (tt, (tt, tt))))
      (record { few = omega arith; immutables = tt; mutables = tt })

abbrev peer_calls : List PeerCall
peer_calls =
    announce_peer far_id remote 100
    ∷ announce_peer near_id remote 200
    ∷ expire_peers 1900000
    ∷ clear_peers
    ∷ []

call_peers-IsRoomy_example :
    IsRoomy (call_peers peer_calls (record { entries = []; peer_count = 0 }))
call_peers-IsRoomy_example =
    call_peers-IsRoomy peer_calls (record { entries = []; peer_count = 0 })
      (record { few = omega arith; small = tt })
