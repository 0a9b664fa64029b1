-- ===== src/Node/Learning.antt =====
-- dhtcore/src/DhtNode.cpp: what a query does to the routing table.
use dhtinspector.Common.{
  ℕ, zero, suc, ◌≡◌, refl, ap, ◌∙◌, inl, inr, List, [], ◌∷◌, map, update_first, Bool-cases,
  Option-cases,
}
use dhtinspector.NodeId.{NodeId, id_eq}
use dhtinspector.Endpoint.{Endpoint}
use dhtinspector.Krpc.{Message}
use dhtinspector.RoutingTable.{
  RoutingNode, Bucket, RoutingTable, at_endpoint, update_bucket, change_node, locate,
}
use dhtinspector.RoutingTable.Insert.{queried_by}
use dhtinspector.Storage.Limits.{Double}
use dhtinspector.Node.State.{DhtNode, World}
use dhtinspector.Node.Incoming.{handle_query}
use dhtinspector.Node.Effects.{handle_query-Holds}

abbrev contact_of : RoutingNode → NodeId × Endpoint
contact_of n = (n.id, n.endpoint)

-- Who is in which bucket, and who may replace them.
abbrev pub layout : List Bucket → List (List (NodeId × Endpoint) × List RoutingNode)
layout bs = map (λ (b : Bucket). (map contact_of b.nodes, b.replacements)) bs

map-asked :
    (e : Endpoint) (now : ℕ) (ns : List RoutingNode)
    → map contact_of (update_first (at_endpoint e) (λ m. record m { last_query = now }) ns)
      ≡ map contact_of ns
map-asked e now [] = refl
map-asked e now (n ∷ ns) = elim (Bool-cases (at_endpoint e n)) [
  | inl b ↦ rw (b, update_first) refl
  | inr b ↦ rw (b, update_first) (ap (λ cs. contact_of n ∷ cs) (map-asked e now ns))
]

layout-asked :
    (i : ℕ) (e : Endpoint) (now : ℕ) (bs : List Bucket)
    → layout (update_bucket i (change_node e (λ m. record m { last_query = now })) bs) ≡ layout bs
unfolding update_bucket
layout-asked i e now [] = refl
layout-asked zero e now (b ∷ bs) =
    ap (λ cs. (cs, b.replacements) ∷ layout bs) (map-asked e now b.nodes)
layout-asked (suc i) e now (b ∷ bs) =
    ap (λ l. (map contact_of b.nodes, b.replacements) ∷ l) (layout-asked i e now bs)

queried_by-layout :
    (id : NodeId) (e : Endpoint) (now : ℕ) (t : RoutingTable)
    → layout (queried_by id e now t).1.buckets ≡ layout t.buckets
unfolding queried_by
queried_by-layout id e now t = elim (Option-cases (locate e t)) [
  | inl a ↦ rw (a, queried_by) refl
  | inr ((i, n), a) ↦ elim (Bool-cases (id_eq n.id id)) [
    | inl b ↦ rw (a, queried_by, b) (layout-asked i e now t.buckets)
    | inr b ↦ rw (a, queried_by, b) refl
  ]
]

-- A query alone brings nobody into the routing table and takes nobody out: every bucket has the same
-- ids and endpoints in the same order, and the same replacements, whoever asks and whatever they ask.
pub handle_query-layout :
    {d : Double} (w : World) (message : Message) (from : Endpoint) (datagram : List ℕ) (now : ℕ)
    (n : DhtNode d)
    → layout (handle_query w message from datagram now n).table.buckets ≡ layout n.table.buckets
handle_query-layout w message from datagram now n =
    handle_query-Holds w message from datagram now n
      (λ s i t. layout t.buckets ≡ layout n.table.buckets) (λ infohash port s i t good h. h)
      (λ raw s i t good is h. h) (λ item cas s i t good is h. h)
      (λ id s i t h. queried_by-layout id from now t ∙ h) refl
