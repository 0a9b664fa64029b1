-- ===== src/Krpc/Compact.antt =====
-- dhtcore/src/Krpc.cpp: "nodes" and "nodes6" strings, and the "values" of get_peers.
use dhtinspector.Common.{
  ℕ, zero, suc, ◌-◌, ◌%◌, Bool, not, Option, none, some, List, [], ◌∷◌, ◌++◌, ltb, ◌==◌,
  if◌then◌else◌, length, take, drop,
}
use dhtinspector.Bencode.{BValue, Items, nil, cons, is_string, to_string, to_list}
use dhtinspector.Endpoint.{
  HostApi, Endpoint, Family, family_of, family_eq, to_compact, from_compact,
}
use dhtinspector.NodeId.{NodeId, from_bytes}

pub record CompactNode : Type 0 where
  pub id : NodeId
  pub endpoint : Endpoint

unfoldable pub encode_nodes : HostApi → List CompactNode → Family → List ℕ
encode_nodes api [] family = []
encode_nodes api (n ∷ ns) family =
    let rest = encode_nodes api ns family in
    if family_eq (family_of api n.endpoint.address) family
    then n.id ++ (to_compact n.endpoint ++ rest)
    else rest

-- The bytes of one entry.
abbrev pub entry_size : Family → ℕ
entry_size Family.ipv4_family = 26
entry_size Family.ipv6_family = 38

-- `if (id && endpoint)`.
both : Option NodeId → Option Endpoint → Option CompactNode
both (some id) (some endpoint) = some (record { id = id; endpoint = endpoint })
both _ _ = none

unfoldable pub decode_entry : HostApi → ℕ → List ℕ → Option CompactNode
unfolding both
decode_entry api entry bytes =
    both (from_bytes (take 20 bytes)) (from_compact api (take (entry - 20) (drop 20 bytes)))

push_some : Option CompactNode → List CompactNode → List CompactNode
push_some none ns = ns
push_some (some n) ns = n ∷ ns

-- The loop over the entries; each round drops one, so the input's length bounds the rounds.
unfoldable pub decode_entries : HostApi → ℕ → ℕ → List ℕ → List CompactNode
unfolding push_some
decode_entries api zero entry bytes = []
decode_entries api (suc rounds) entry bytes =
    let rest = decode_entries api rounds entry (drop entry bytes) in
    if ltb (length bytes) entry then [] else push_some (decode_entry api entry bytes) rest

pub record DecodedNodes : Type 0 where
  pub nodes : List CompactNode
  pub malformed : Bool

unfoldable pub decode_nodes : HostApi → List ℕ → Family → DecodedNodes
unfolding decode_entries decode_entry
decode_nodes api bytes family = record {
  nodes = decode_entries api (length bytes) (entry_size family) bytes;
  malformed = not (length bytes % entry_size family == 0);
}

abbrev pub peer_size : Family → ℕ
peer_size Family.ipv4_family = 6
peer_size Family.ipv6_family = 18

decode_peer : HostApi → Family → BValue → Option Endpoint
decode_peer api family item =
    if is_string item
    then (if length (to_string item) == peer_size family
        then from_compact api (to_string item)
        else none)
    else none

peers_of : HostApi → Family → Items → List Endpoint
unfolding decode_peer
peers_of api family nil = []
peers_of api family (cons x xs) = elim (decode_peer api family x) [
  | none ↦ peers_of api family xs
  | some e ↦ e ∷ peers_of api family xs
]

unfoldable pub decode_peers : HostApi → Option BValue → Family → List Endpoint
unfolding peers_of
decode_peers api none family = []
decode_peers api (some values) family = peers_of api family (to_list values)
