-- ===== src/RoutingTable/Queries.antt =====
-- dhtcore/src/RoutingTable.cpp: the operations that only read the table.
use dhtinspector.Common.{
  ℕ, suc, ◌+◌, max, Bool, true, false, not, ◌&&◌, ◌||◌, Option, none, some, List, [], ◌∷◌, ltb, leb,
  if◌then◌else◌, length, keep, any, take,
}
use dhtinspector.NodeId.{NodeId, id_eq, closer}
use dhtinspector.RoutingTable.{
  RoutingNode, Bucket, RoutingTable, NodeState, bucket_size, bad_fail_count, is_bad, state_of,
  bucket_index_for, bucket_at, can_split,
}
use dhtinspector.RoutingTable.Insert.{gather}

module _ {ℓ} {A : Type ℓ} (less : A → A → Bool) where
  unfoldable pub sorted_insert : A → List A → List A
  sorted_insert x [] = x ∷ []
  sorted_insert x (y ∷ ys) = if less y x then y ∷ sorted_insert x ys else x ∷ y ∷ ys

  unfoldable pub sort : List A → List A
  unfolding sorted_insert
  sort [] = []
  sort (x ∷ xs) = sorted_insert x (sort xs)

unfoldable pub all_nodes : RoutingTable → List RoutingNode
all_nodes t = gather (λ b. b.nodes) t.buckets

unfoldable pub table_size : List Bucket → ℕ
table_size [] = 0
table_size (b ∷ bs) = length b.nodes + table_size bs

abbrev pub by_distance : NodeId → RoutingNode → RoutingNode → Bool
by_distance target a b = closer target a.id b.id

-- The state is taken at time 0, which decides nothing but whether the node is bad.
unfoldable pub closest : NodeId → ℕ → Bool → RoutingTable → List RoutingNode
unfolding sort all_nodes
closest target count include_bad t =
    take count
      (sort (by_distance target) (keep (λ n. include_bad || not (is_bad n 0)) (all_nodes t)))

state_is_questionable : NodeState → Bool
state_is_questionable NodeState.questionable = true
state_is_questionable _ = false

abbrev pub last_heard : RoutingNode → ℕ
last_heard n = max n.last_response n.last_query

needs_ping : ℕ → ℕ → RoutingNode → Bool
unfolding state_is_questionable state_of
needs_ping now interval n =
    state_is_questionable (state_of n now)
    && not (ltb 0 n.last_ping_sent && ltb now (n.last_ping_sent + interval))

unfoldable pub nodes_needing_ping : ℕ → ℕ → ℕ → RoutingTable → List RoutingNode
unfolding sort all_nodes needs_ping
nodes_needing_ping now most interval t =
    take most (
      sort (λ a b. ltb (last_heard a) (last_heard b))
        (keep (needs_ping now interval) (all_nodes t)))

-- One round of staleBucket: bucket `i`, changed at `changed`, is stale unless `recent`.
better_stale : ℕ → ℕ → Option (ℕ × ℕ) → Bool → Option (ℕ × ℕ)
better_stale i changed old true = old
better_stale i changed none false = some (i, changed)
better_stale i changed (some (j, least)) false =
    if ltb changed least then some (i, changed) else some (j, least)

-- The loop of staleBucket: `best` is the stalest bucket so far, with its time.
stale_from : ℕ → ℕ → Option (ℕ × ℕ) → ℕ → List Bucket → Option (ℕ × ℕ)
unfolding better_stale
stale_from now stale best i [] = best
stale_from now stale best i (b ∷ bs) =
    stale_from now stale (better_stale i b.last_changed best (ltb now (b.last_changed + stale)))
      (suc i) bs

unfoldable pub stale_bucket : ℕ → ℕ → RoutingTable → Option ℕ
unfolding stale_from
stale_bucket now stale t = elim (stale_from now stale none 0 t.buckets) [
  | none ↦ none
  | some (i, changed) ↦ some i
]

unfoldable pub would_accept : NodeId → RoutingTable → Bool
would_accept id t =
    let index = bucket_index_for t id in
    let nodes = (bucket_at t.buckets index).nodes in
    if id_eq id t.self || any (λ n. id_eq n.id id) nodes
    then false
    else (ltb (length nodes) bucket_size || can_split index t)
      || any (λ n. leb bad_fail_count n.fail_count) nodes
