-- ===== src/RoutingTable/Changes.antt =====
-- The changes that the operations make to one bucket keep it sound.
use dhtinspector.Common.{
  ℕ, suc, ◌-◌, ◌≡◌, refl, Bool, true, false, List, [], ◌∷◌, length, leb, if◌then◌else◌,
  update_first, length-update_first, length-keep-le, All-update_first, All-keep, All-get_or, get_or,
  arith,
}
use dhtinspector.NodeId.{NodeId}
use dhtinspector.Endpoint.{Endpoint}
use dhtinspector.RoutingTable.{
  RoutingNode, Bucket, RoutingTable, at_endpoint, not_at_endpoint, update_bucket, change_node,
}
use dhtinspector.RoutingTable.Insert.{max_index, forget_bucket, drop_replacements, promote, retire}
use dhtinspector.RoutingTable.Invariant.{Belongs, BucketOk, IsTable, update-IsTable}
use dhtinspector.RoutingTable.Place.{max_index-lt, length-erase_at, All-erase_at}

module _ (self : NodeId) (last i : ℕ) where
  -- A change of nodes that keeps each id.
  pub update_nodes-BucketOk :
      (p : RoutingNode → Bool) (f : RoutingNode → RoutingNode) (now : ℕ) (b : Bucket)
      → ((n : RoutingNode) → (f n).id ≡ n.id)
      → BucketOk self last i b
      → BucketOk self last i (record b { nodes = update_first p f b.nodes; last_changed = now })
  update_nodes-BucketOk p f now b k h = record {
    node_room = omega (arith, length-update_first p f b.nodes, h.node_room);
    cache_room = h.cache_room;
    nodes_belong =
        All-update_first (Belongs self last i) p f b.nodes
          (λ n q. record { home = rw (k n) q.home; foreign = rw (k n) q.foreign }) h.nodes_belong;
    cache_belongs = h.cache_belongs;
  }

  pub forget_bucket-BucketOk :
      (e : Endpoint) (b : Bucket)
      → BucketOk self last i b
      → BucketOk self last i (forget_bucket e b)
  unfolding forget_bucket
  forget_bucket-BucketOk e b h = record {
    node_room = omega (arith, length-keep-le (not_at_endpoint e) b.nodes, h.node_room);
    cache_room = h.cache_room;
    nodes_belong = All-keep (Belongs self last i) (not_at_endpoint e) b.nodes h.nodes_belong;
    cache_belongs = h.cache_belongs;
  }

  pub drop_replacements-BucketOk :
      (p : RoutingNode → Bool) (b : Bucket)
      → BucketOk self last i b
      → BucketOk self last i (drop_replacements p b)
  unfolding drop_replacements
  drop_replacements-BucketOk p b h = record {
    node_room = h.node_room;
    cache_room = omega (arith, length-keep-le p b.replacements, h.cache_room);
    nodes_belong = h.nodes_belong;
    cache_belongs = All-keep (Belongs self last i) p b.replacements h.cache_belongs;
  }

  pub promote-BucketOk :
      (e : Endpoint) (now : ℕ) (r : RoutingNode) (rs : List RoutingNode) (b : Bucket)
      → b.replacements ≡ r ∷ rs
      → BucketOk self last i b
      → BucketOk self last i (promote e now r rs b)
  unfolding promote
  promote-BucketOk e now r rs b eq h =
      let cache = rw eq at h.cache_belongs in
      let best = max_index 0 r 1 rs in
      let len : length b.replacements ≡ suc (length rs) = rw eq refl in
      record {
        node_room = omega (
          arith,
          length-update_first (at_endpoint e) (λ _. get_or (r ∷ rs) best r) b.nodes,
          h.node_room,
        );
        cache_room = omega (
          arith,
          length-erase_at best (r ∷ rs) (omega (arith, max_index-lt 0 r 1 rs (omega arith))),
          h.cache_room,
          len,
        );
        nodes_belong =
            All-update_first (Belongs self last i) (at_endpoint e) (λ _. get_or (r ∷ rs) best r)
              b.nodes (λ _ _. All-get_or (Belongs self last i) (r ∷ rs) best r cache.0 cache)
              h.nodes_belong;
        cache_belongs = All-erase_at (Belongs self last i) best (r ∷ rs) cache;
      }

  pub retire-BucketOk :
      (e : Endpoint) (now fails : ℕ) (b : Bucket)
      → BucketOk self last i b
      → BucketOk self last i (retire e now fails b)
  unfolding retire
  retire-BucketOk e now fails b h = go b.replacements refl
    where
      go :
          (rs : List RoutingNode)
          → b.replacements ≡ rs
          → BucketOk self last i (elim rs [
            | r ∷ rs ↦ promote e now r rs b
            | [] ↦ if leb 5 fails then forget_bucket e b else b
          ])
      go (r ∷ rs) eq = promote-BucketOk e now r rs b eq h
      go [] eq =
          elim (leb 5 fails) as (λ c. BucketOk self last i (if c then forget_bucket e b else b)) [
            | true ↦ forget_bucket-BucketOk e b h
            | false ↦ h
          ]

pub change-IsTable :
    (t : RoutingTable) (i now : ℕ) (p : RoutingNode → Bool) (f : RoutingNode → RoutingNode)
    → ((n : RoutingNode) → (f n).id ≡ n.id)
    → IsTable t
    → IsTable (record t {
      buckets =
          update_bucket i
            (λ b. record b { nodes = update_first p f b.nodes; last_changed = now })
            t.buckets;
    })
change-IsTable t i now p f k h =
    update-IsTable t i (λ b. record b { nodes = update_first p f b.nodes; last_changed = now })
      (λ b _. update_nodes-BucketOk t.self (length t.buckets - 1) i p f now b k) h

pub change_node-IsTable :
    (t : RoutingTable) (i : ℕ) (e : Endpoint) (f : RoutingNode → RoutingNode)
    → ((n : RoutingNode) → (f n).id ≡ n.id)
    → IsTable t
    → IsTable (record t { buckets = update_bucket i (change_node e f) t.buckets })
change_node-IsTable t i e f k h =
    update-IsTable t i (change_node e f)
      (λ b _.
        update_nodes-BucketOk t.self (length t.buckets - 1) i (at_endpoint e) f b.last_changed b k)
      h
