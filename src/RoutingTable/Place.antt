-- ===== src/RoutingTable/Place.antt =====
-- Inserting a node keeps the invariant, and the rounds given to insert's loop are enough.
use dhtinspector.Common.{
  ℕ, zero, suc, ◌+◌, ◌-◌, ◌≤◌, ◌<◌, ◌≡◌, refl, true, false, List, [], ◌∷◌, ◌++◌, length, All, ltb,
  any, if◌then◌else◌, length-append, All-append, length-update_first, All-update_first, arith,
}
use dhtinspector.NodeId.{id_eq, bits}
use dhtinspector.Endpoint.{HostApi}
use dhtinspector.RoutingTable.{
  RoutingNode, Bucket, RoutingTable, InsertResult, added, bucket_size, bucket_at, bucket_index_for,
  is_bad, split, can_split, update_bucket,
}
use dhtinspector.RoutingTable.Insert.{
  min_index, max_index, erase_at, drop_if_over, push_cache, push_node, replace_bad, cache_node,
  settle, place, insert,
}
use dhtinspector.RoutingTable.Invariant.{Belongs, BucketOk, IsTable, update-IsTable, IsTable-if}
use dhtinspector.RoutingTable.Split.{split-IsTable, length-split}

min_index-lt :
    (best : ℕ) (m : RoutingNode) (i : ℕ) (ns : List RoutingNode)
    → best < i
    → min_index best m i ns < i + length ns
unfolding min_index
min_index-lt best m i [] h = omega arith
min_index-lt best m i (n ∷ ns) h =
    ground (
      arith,
      min_index-lt i n (suc i) ns (omega arith),
      min_index-lt best m (suc i) ns (omega arith),
    )

pub max_index-lt :
    (best : ℕ) (m : RoutingNode) (i : ℕ) (ns : List RoutingNode)
    → best < i
    → max_index best m i ns < i + length ns
unfolding max_index
max_index-lt best m i [] h = omega arith
max_index-lt best m i (n ∷ ns) h =
    ground (
      arith,
      max_index-lt i n (suc i) ns (omega arith),
      max_index-lt best m (suc i) ns (omega arith),
    )

pub length-erase_at :
    (i : ℕ) (ns : List RoutingNode) → i < length ns → length (erase_at i ns) + 1 ≡ length ns
unfolding erase_at
length-erase_at i [] h = absurd (omega arith)
length-erase_at zero (n ∷ ns) h = omega arith
length-erase_at (suc i) (n ∷ ns) h = omega (arith, length-erase_at i ns (omega arith))

pub All-erase_at {κ} :
    (P : RoutingNode → Type κ) (i : ℕ) (ns : List RoutingNode) → All P ns → All P (erase_at i ns)
unfolding erase_at
All-erase_at P i [] h = tt
All-erase_at P zero (n ∷ ns) h = h.1
All-erase_at P (suc i) (n ∷ ns) h = (h.0, All-erase_at P i ns h.1)

length-drop_if_over : (ns : List RoutingNode) → length ns ≤ 9 → length (drop_if_over ns) ≤ 8
unfolding drop_if_over
length-drop_if_over [] h = omega arith
length-drop_if_over (n ∷ ns) h =
    ground
      (arith, length-erase_at (min_index 0 n 1 ns) (n ∷ ns), min_index-lt 0 n 1 ns (omega arith))

All-drop_if_over {κ} :
    (P : RoutingNode → Type κ) (ns : List RoutingNode) → All P ns → All P (drop_if_over ns)
unfolding drop_if_over
All-drop_if_over P [] h = tt
All-drop_if_over P (n ∷ ns) h =
    elim (ltb bucket_size (length (n ∷ ns)))
      as (λ b. All P (if b then erase_at (min_index 0 n 1 ns) (n ∷ ns) else (n ∷ ns))) [
        | true ↦ All-erase_at P (min_index 0 n 1 ns) (n ∷ ns) h
        | false ↦ h
      ]

module _ (t : RoutingTable) (node : RoutingNode) (now : ℕ)
    (foreign : id_eq node.id t.self ≡ false) where
  abbrev last : ℕ
  last = length t.buckets - 1

  abbrev index : ℕ
  index = bucket_index_for t node.id

  node-Belongs : Belongs t.self last index node
  unfolding bucket_index_for
  node-Belongs = record { home = refl; foreign = foreign }

  push_node-BucketOk :
      (b : Bucket)
      → length b.nodes < 8
      → BucketOk t.self last index b
      → BucketOk t.self last index (push_node node now b)
  unfolding push_node
  push_node-BucketOk b l h = record {
    node_room = omega (arith, length-append b.nodes (node ∷ []));
    cache_room = h.cache_room;
    nodes_belong =
        All-append (Belongs t.self last index) b.nodes (node ∷ []) h.nodes_belong
          (node-Belongs, tt);
    cache_belongs = h.cache_belongs;
  }

  replace_bad-BucketOk :
      (b : Bucket)
      → BucketOk t.self last index b
      → BucketOk t.self last index (replace_bad node now b)
  unfolding replace_bad
  replace_bad-BucketOk b h = record {
    node_room =
        omega (arith, length-update_first (λ n. is_bad n now) (λ _. node) b.nodes, h.node_room);
    cache_room = h.cache_room;
    nodes_belong =
        All-update_first (Belongs t.self last index) (λ n. is_bad n now) (λ _. node) b.nodes
          (λ _ _. node-Belongs) h.nodes_belong;
    cache_belongs = h.cache_belongs;
  }

  cache_node-BucketOk :
      (b : Bucket) → BucketOk t.self last index b → BucketOk t.self last index (cache_node node b)
  unfolding cache_node push_cache
  cache_node-BucketOk b h = record {
    node_room = h.node_room;
    cache_room =
        length-drop_if_over (b.replacements ++ node ∷ [])
          (omega (arith, length-append b.replacements (node ∷ []), h.cache_room));
    nodes_belong = h.nodes_belong;
    cache_belongs = All-drop_if_over (Belongs t.self last index) (b.replacements ++ node ∷ []) (
        All-append (Belongs t.self last index) b.replacements (node ∷ []) h.cache_belongs
          (node-Belongs, tt));
  }

  pub settle-IsTable : IsTable t → IsTable (settle node now t).1
  unfolding settle
  settle-IsTable h =
      IsTable-if (any (λ n. is_bad n now) (bucket_at t.buckets index).nodes) _ _
        (λ _. update-IsTable t index (replace_bad node now) (λ b _. replace_bad-BucketOk b) h)
        (λ _. update-IsTable t index (cache_node node) (λ b _. cache_node-BucketOk b) h)

  pub added-IsTable :
      ltb (length (bucket_at t.buckets index).nodes) bucket_size ≡ true
      → IsTable t
      → IsTable (record t { buckets = update_bucket index (push_node node now) t.buckets })
  added-IsTable room h =
      update-IsTable t index (push_node node now) (λ b e. push_node-BucketOk b (ground arith)) h

can_split-lt : (index : ℕ) (t : RoutingTable) → can_split index t ≡ true → length t.buckets < 160
unfolding can_split
can_split-lt index t h = ground arith

foreign-split :
    (t : RoutingTable) (node : RoutingNode)
    → id_eq node.id t.self ≡ false
    → id_eq node.id (split t).self ≡ false
unfolding split
foreign-split t node h = h

pub place-IsTable :
    (rounds : ℕ) (node : RoutingNode) (now : ℕ) (t : RoutingTable)
    → id_eq node.id t.self ≡ false
    → IsTable t
    → IsTable (place rounds node now t).1
unfolding place
place-IsTable zero node now t foreign h =
    IsTable-if (ltb (length (bucket_at t.buckets (bucket_index_for t node.id)).nodes) bucket_size) _
      _ (λ room. added-IsTable t node now foreign room h) (λ _. settle-IsTable t node now foreign h)
place-IsTable (suc rounds) node now t foreign h =
    IsTable-if (ltb (length (bucket_at t.buckets (bucket_index_for t node.id)).nodes) bucket_size) _
      _ (λ room. added-IsTable t node now foreign room h)
      (λ _.
        IsTable-if (can_split (bucket_index_for t node.id) t) _ _
          (λ splits.
            place-IsTable rounds node now (split t) (foreign-split t node foreign)
              (split-IsTable t (can_split-lt _ t splits) h))
          (λ _. settle-IsTable t node now foreign h))

pub insert-IsTable :
    (api : HostApi) (node : RoutingNode) (now : ℕ) (t : RoutingTable)
    → IsTable t
    → IsTable (insert api node now t).1
unfolding insert
insert-IsTable api node now t h =
    IsTable-if (id_eq node.id t.self) _ _ (λ _. h)
      (λ foreign.
        IsTable-if _ _ _ (λ _. h)
          (λ _. place-IsTable (bits - length t.buckets) node now t foreign h))

-- The right side of the loop's equation: one round of `while (true)`.
abbrev pub place_round : RoutingNode → ℕ → RoutingTable → InsertResult × RoutingTable
place_round node now t =
    let index = bucket_index_for t node.id in
    if ltb (length (bucket_at t.buckets index).nodes) bucket_size
    then (added, record t { buckets = update_bucket index (push_node node now) t.buckets })
    else (if can_split index t
        then place (bits - length (split t).buckets) node now (split t)
        else settle node now t)

can_split_full : (index : ℕ) (t : RoutingTable) → 160 ≤ length t.buckets → can_split index t ≡ false
unfolding can_split
can_split_full index t h = ground arith

place_loop_from :
    (rounds : ℕ) (node : RoutingNode) (now : ℕ) (t : RoutingTable)
    → 1 ≤ length t.buckets
    → rounds ≡ bits - length t.buckets
    → place rounds node now t ≡ place_round node now t
unfolding place
place_loop_from zero node now t h e =
    rw (can_split_full (bucket_index_for t node.id) t (omega arith)) refl
place_loop_from (suc rounds) node now t h e =
    let left : bits - length (split t).buckets ≡ rounds = omega (arith, length-split t h) in
    rw left refl

-- On a table with a bucket, insert's loop satisfies its own equation: a round that splits goes on with the split table and
-- the splits that it has left, so the rounds handed out never run out before the loop returns.
pub place_loop :
    (node : RoutingNode) (now : ℕ) (t : RoutingTable)
    → 1 ≤ length t.buckets
    → place (bits - length t.buckets) node now t ≡ place_round node now t
place_loop node now t h = place_loop_from (bits - length t.buckets) node now t h refl
