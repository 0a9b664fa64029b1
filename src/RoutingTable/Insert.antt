-- ===== src/RoutingTable/Insert.antt =====
-- dhtcore/src/RoutingTable.cpp: the operations that change the table.
use dhtinspector.Common.{
  ℕ, zero, suc, ◌+◌, ◌-◌, ◌*◌, ◌/◌, Bool, true, false, not, ◌&&◌, ◌||◌, Option, none, some, List,
  [], ◌∷◌, ◌++◌, ltb, leb, if◌then◌else◌, length, keep, any, first, update_first, map, get_or,
}
use dhtinspector.NodeId.{NodeId, id_eq, bits}
use dhtinspector.Endpoint.{HostApi, Endpoint, endpoint_eq, is_valid, is_local_address}
use dhtinspector.RoutingTable.{
  RoutingNode, Bucket, RoutingTable, InsertResult, added, updated, replaced, cached, rejected,
  bucket_size, remove_fail_count, empty_bucket, is_bad, bucket_index_for, bucket_at, update_bucket,
  at_endpoint, not_at_endpoint, locate, change_node, ip_in_use, can_split, split,
}

-- std::min_element by last_response, as an index: `m` at `best` is the first least seen so far.
unfoldable pub min_index : ℕ → RoutingNode → ℕ → List RoutingNode → ℕ
min_index best m i [] = best
min_index best m i (n ∷ ns) = elim (ltb n.last_response m.last_response) [
  | true ↦ min_index i n (suc i) ns
  | false ↦ min_index best m (suc i) ns
]

-- std::max_element by last_response.
unfoldable pub max_index : ℕ → RoutingNode → ℕ → List RoutingNode → ℕ
max_index best m i [] = best
max_index best m i (n ∷ ns) = elim (ltb m.last_response n.last_response) [
  | true ↦ max_index i n (suc i) ns
  | false ↦ max_index best m (suc i) ns
]

unfoldable pub erase_at {ℓ} : {A : Type ℓ} → ℕ → List A → List A
erase_at i [] = []
erase_at zero (x ∷ xs) = xs
erase_at (suc i) (x ∷ xs) = x ∷ erase_at i xs

unfoldable pub drop_if_over : List RoutingNode → List RoutingNode
unfolding min_index erase_at
drop_if_over [] = []
drop_if_over (n ∷ ns) =
    if ltb bucket_size (length (n ∷ ns)) then erase_at (min_index 0 n 1 ns) (n ∷ ns) else (n ∷ ns)

-- cache.push_back, and the oldest out if the cache is over its size.
unfoldable pub push_cache : RoutingNode → List RoutingNode → List RoutingNode
unfolding drop_if_over
push_cache node cache = drop_if_over (cache ++ node ∷ [])

unfoldable pub push_node : RoutingNode → ℕ → Bucket → Bucket
push_node node now b = record b { nodes = b.nodes ++ node ∷ []; last_changed = now }

unfoldable pub replace_bad : RoutingNode → ℕ → Bucket → Bucket
replace_bad node now b = record b {
  nodes = update_first (λ n. is_bad n now) (λ _. node) b.nodes;
  last_changed = now;
}

unfoldable pub cache_node : RoutingNode → Bucket → Bucket
cache_node node b = record b { replacements = push_cache node b.replacements }

-- The body of insert's loop once the bucket cannot split.
unfoldable pub settle : RoutingNode → ℕ → RoutingTable → InsertResult × RoutingTable
unfolding replace_bad cache_node
settle node now t =
    let index = bucket_index_for t node.id in
    let bucket = bucket_at t.buckets index in
    if any (λ n. is_bad n now) bucket.nodes
    then (replaced, record t { buckets = update_bucket index (replace_bad node now) t.buckets })
    else (cached, record t { buckets = update_bucket index (cache_node node) t.buckets })

-- insert's loop. Each round but the last splits, so the rounds left are the splits left.
unfoldable pub place : ℕ → RoutingNode → ℕ → RoutingTable → InsertResult × RoutingTable
unfolding push_node
place zero node now t =
    let index = bucket_index_for t node.id in
    if ltb (length (bucket_at t.buckets index).nodes) bucket_size
    then (added, record t { buckets = update_bucket index (push_node node now) t.buckets })
    else settle node now t
place (suc rounds) node now t =
    let index = bucket_index_for t node.id in
    let rest = place rounds node now (split t) in
    if ltb (length (bucket_at t.buckets index).nodes) bucket_size
    then (added, record t { buckets = update_bucket index (push_node node now) t.buckets })
    else (if can_split index t then rest else settle node now t)

unfoldable pub insert : HostApi → RoutingNode → ℕ → RoutingTable → InsertResult × RoutingTable
insert api node now t =
    if id_eq node.id t.self
    then (rejected, t)
    else (if t.restrict_one_per_ip
          && (not (is_local_address api node.endpoint.address)
              && ip_in_use node.endpoint.address t.buckets)
        then (rejected, t)
        else place (bits - length t.buckets) node now t)

unfoldable pub smooth_rtt : Option ℕ → ℕ → ℕ
smooth_rtt none rtt = rtt
smooth_rtt (some old) rtt = (old * 3 + rtt) / 4

-- The node that answered again at its endpoint.
unfoldable pub refresh_node : List ℕ → Option ℕ → ℕ → RoutingNode → RoutingNode
unfolding smooth_rtt
refresh_node version rtt now n = record n {
  last_response = now;
  fail_count = 0;
  version = elim version [ [] ↦ n.version | c ∷ cs ↦ c ∷ cs ];
  rtt_ms = elim rtt [ none ↦ n.rtt_ms | some r ↦ some (smooth_rtt n.rtt_ms r) ];
}

unfoldable pub refresh_bucket : Endpoint → List ℕ → Option ℕ → ℕ → Bucket → Bucket
unfolding refresh_node
refresh_bucket e version rtt now b = record (change_node e (refresh_node version rtt now) b) {
  last_changed = now;
}

unfoldable pub forget_bucket : Endpoint → Bucket → Bucket
forget_bucket e b = record b { nodes = keep (not_at_endpoint e) b.nodes }

-- The known identity moves to the endpoint that answered.
unfoldable pub move_node : Endpoint → List ℕ → Option ℕ → ℕ → RoutingNode → RoutingNode
move_node e version rtt now n = record n {
  endpoint = e;
  last_response = now;
  fail_count = 0;
  rtt_ms = rtt;
  version = version;
}

unfoldable pub move_bucket : NodeId → Endpoint → List ℕ → Option ℕ → ℕ → Bucket → Bucket
unfolding move_node
move_bucket id e version rtt now b = record b {
  nodes = update_first (λ n. id_eq n.id id) (move_node e version rtt now) b.nodes;
  last_changed = now;
}

unfoldable pub drop_replacements : (RoutingNode → Bool) → Bucket → Bucket
drop_replacements stays b = record b { replacements = keep stays b.replacements }

abbrev pub new_node : NodeId → Endpoint → List ℕ → Option ℕ → ℕ → RoutingNode
new_node id e version rtt now = record {
  id = id;
  endpoint = e;
  version = version;
  first_seen = now;
  last_response = now;
  last_query = 0;
  last_ping_sent = 0;
  fail_count = 0;
  rtt_ms = rtt;
}

-- heardFrom after the lookup by endpoint: the same id elsewhere, or a new node.
unfoldable pub admit :
    HostApi → NodeId → Endpoint → List ℕ → Option ℕ → ℕ → RoutingTable → InsertResult × RoutingTable
unfolding move_bucket drop_replacements
admit api id e version rtt now t =
    let index = bucket_index_for t id in
    elim (first (λ n. id_eq n.id id) (bucket_at t.buckets index).nodes) [
      | some n ↦
          if is_bad n now
          then (
            updated,
            record t { buckets = update_bucket index (move_bucket id e version rtt now) t.buckets },
          )
          else (rejected, t)
      | none ↦ insert api (new_node id e version rtt now) now (record t {
        buckets =
            map (drop_replacements (λ n. not (endpoint_eq n.endpoint e || id_eq n.id id)))
              t.buckets;
      })
    ]

unfoldable pub heard_from :
    HostApi → NodeId → Endpoint → List ℕ → Option ℕ → ℕ → RoutingTable → InsertResult × RoutingTable
unfolding refresh_bucket forget_bucket
heard_from api id e version rtt now t =
    if id_eq id t.self || not (is_valid e) then (rejected, t) else elim (locate e t) [
      | some (i, existing) ↦
          if id_eq existing.id id
          then (
            updated,
            record t { buckets = update_bucket i (refresh_bucket e version rtt now) t.buckets },
          )
          else admit api id e version rtt now
              (record t { buckets = update_bucket i (forget_bucket e) t.buckets })
      | none ↦ admit api id e version rtt now t
    ]

unfoldable pub queried_by : NodeId → Endpoint → ℕ → RoutingTable → Bool × RoutingTable
queried_by id e now t = elim (locate e t) [
  | none ↦ (false, t)
  | some (i, n) ↦
      if id_eq n.id id
      then (
        true,
        record t {
          buckets = update_bucket i (change_node e (λ m. record m { last_query = now })) t.buckets;
        },
      )
      else (false, t)
]

unfoldable pub mark_pinged : Endpoint → ℕ → RoutingTable → RoutingTable
mark_pinged e now t = elim (locate e t) [
  | none ↦ t
  | some (i, n) ↦ record t {
    buckets = update_bucket i (change_node e (λ m. record m { last_ping_sent = now })) t.buckets;
  }
]

unfoldable pub count_failure : Endpoint → Bucket → Bucket
count_failure e b = change_node e (λ m. record m { fail_count = m.fail_count + 1 }) b

-- The newest replacement takes the place of the node.
unfoldable pub promote : Endpoint → ℕ → RoutingNode → List RoutingNode → Bucket → Bucket
promote e now r rs b =
    let best = max_index 0 r 1 rs in
    record b {
      nodes = update_first (at_endpoint e) (λ _. get_or (r ∷ rs) best r) b.nodes;
      replacements = erase_at best (r ∷ rs);
      last_changed = now;
    }

-- failed for a node that has turned bad, with its failures counted.
unfoldable pub retire : Endpoint → ℕ → ℕ → Bucket → Bucket
unfolding promote forget_bucket
retire e now fails b = elim b.replacements [
  | r ∷ rs ↦ promote e now r rs b
  | [] ↦ if leb remove_fail_count fails then forget_bucket e b else b
]

unfoldable pub failed : Endpoint → ℕ → RoutingTable → RoutingTable
unfolding count_failure drop_replacements
failed e now t = elim (locate e t) [
  | none ↦ record t { buckets = map (drop_replacements (not_at_endpoint e)) t.buckets }
  | some (i, n) ↦
      let counted = update_bucket i (count_failure e) t.buckets in
      if is_bad (record n { fail_count = n.fail_count + 1 }) now
      then record t { buckets = update_bucket i (retire e now (n.fail_count + 1)) counted }
      else record t { buckets = counted }
]

unfoldable pub touch : ℕ → Bucket → Bucket
touch now b = record b { last_changed = now }

unfoldable pub touch_bucket : ℕ → ℕ → RoutingTable → RoutingTable
unfolding touch
touch_bucket index now t = record t { buckets = update_bucket index (touch now) t.buckets }

unfoldable pub insert_all : HostApi → List RoutingNode → ℕ → RoutingTable → RoutingTable
insert_all api [] now t = t
insert_all api (n ∷ ns) now t = insert_all api ns now (insert api n now t).1

abbrev pub gather : (Bucket → List RoutingNode) → List Bucket → List RoutingNode
gather f [] = []
gather f (b ∷ bs) = f b ++ gather f bs

unfoldable pub rebuild : HostApi → NodeId → ℕ → RoutingTable → RoutingTable
unfolding insert_all
rebuild api new_self now t =
    let nodes = gather (λ b. b.nodes) t.buckets in
    let cached = gather (λ b. b.replacements) t.buckets in
    let fresh = record t {
      self = new_self;
      buckets = record empty_bucket { last_changed = now } ∷ [];
    } in
    insert_all api cached now (insert_all api nodes now fresh)
