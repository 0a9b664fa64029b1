-- ===== src/Node/Find.antt =====
-- dhtcore/src/DhtNode.cpp: nodesFor, the nodes that an answer names.
use dhtinspector.Common.{
  ℕ, Bool, false, ◌||◌, Option, none, some, List, [], ◌∷◌, map, bytes_eq, if◌then◌else◌,
}
use dhtinspector.NodeId.{NodeId}
use dhtinspector.Endpoint.{HostApi, Family, family_eq}
use dhtinspector.Bencode.{
  BValue, Items, Fields, built, string, end, nil, cons, list_at, to_list, to_string,
}
use dhtinspector.Krpc.Compact.{CompactNode, encode_nodes}
use dhtinspector.RoutingTable.{RoutingTable, RoutingNode, bucket_size}
use dhtinspector.RoutingTable.Queries.{closest}
use dhtinspector.Storage.Limits.{Double}
use dhtinspector.Node.State.{DhtNode, World}
use dhtinspector.Node.Words.{word_want, word_n4, word_n6, word_nodes, word_nodes6, assign}

-- closestNodes.
unfoldable pub closest_nodes : NodeId → ℕ → RoutingTable → List CompactNode
closest_nodes target count t =
    map (λ (n : RoutingNode). record { id = n.id; endpoint = n.endpoint })
      (closest target count false t)

wants : List ℕ → Items → Bool
wants word nil = false
wants word (cons x xs) = bytes_eq (to_string x) word || wants word xs

-- Whether nodes of IPv4 and of IPv6 are wanted.
wanted_by : Family → Items → Bool × Bool
unfolding wants
wanted_by family items =
    if wants word_n4 items || wants word_n6 items
    then (wants word_n4 items, wants word_n6 items)
    else (family_eq family Family.ipv4_family, family_eq family Family.ipv6_family)

wanted_items : Option BValue → Items
wanted_items none = nil
wanted_items (some v) = to_list v

unfoldable pub wanted : Family → BValue → Bool × Bool
unfolding wanted_by wanted_items
wanted family arguments = wanted_by family (wanted_items (list_at word_want arguments))

put_nodes : HostApi → Family → List ℕ → List CompactNode → Fields → Fields
unfolding assign
put_nodes api family key [] out = out
put_nodes api family key (n ∷ ns) out =
    assign key (built (string (encode_nodes api (n ∷ ns) family))) out

fill : HostApi → NodeId → Option RoutingTable → Family → List ℕ → Fields → Fields
unfolding put_nodes closest_nodes
fill api target none family key out = out
fill api target (some t) family key out =
    put_nodes api family key (closest_nodes target bucket_size t) out

-- The table of the family: the node's own, or the sibling's.
module _ {d : Double} where
  unfoldable pub table_of : Family → DhtNode d → Option RoutingTable
  table_of family n = if family_eq n.config.family family then some n.table else n.sibling

  unfoldable pub nodes_for : World → NodeId → BValue → DhtNode d → Fields
  unfolding wanted fill table_of
  nodes_for w target arguments n =
      let want = wanted n.config.family arguments in
      let four =
        if want.0
        then fill w.api target (table_of Family.ipv4_family n) Family.ipv4_family word_nodes end
        else end in
      if want.1
      then fill w.api target (table_of Family.ipv6_family n) Family.ipv6_family word_nodes6 four
      else four
