-- ===== src/RoutingTable/Runs.antt =====
-- Every operation keeps the invariant.
use dhtinspector.Common.{
  ℕ, ◌+◌, ◌-◌, refl, Bool, true, false, not, ◌||◌, Option, none, some, List, [], ◌∷◌, map, length,
  first, if◌then◌else◌, arith,
}
use dhtinspector.NodeId.{NodeId, id_eq}
use dhtinspector.Endpoint.{HostApi, Endpoint, endpoint_eq, is_valid}
use dhtinspector.RoutingTable.{
  RoutingNode, RoutingTable, InsertResult, bucket_at, bucket_index_for, at_endpoint,
  not_at_endpoint, is_bad, locate, update_bucket, make_table, change_node,
}
use dhtinspector.RoutingTable.Insert.{
  insert, refresh_node, refresh_bucket, forget_bucket, move_node, move_bucket, drop_replacements,
  new_node, admit, heard_from, queried_by, mark_pinged, count_failure, retire, failed, touch,
  touch_bucket, insert_all, gather, rebuild,
}
use dhtinspector.RoutingTable.Invariant.{IsTable, update-IsTable, map-IsTable, IsTable-if}
use dhtinspector.RoutingTable.Changes.{
  forget_bucket-BucketOk, drop_replacements-BucketOk, retire-BucketOk, change-IsTable,
  change_node-IsTable,
}
use dhtinspector.RoutingTable.Place.{insert-IsTable}

admit-IsTable :
    (api : HostApi) (id : NodeId) (e : Endpoint) (version : List ℕ) (rtt : Option ℕ) (now : ℕ)
    (t : RoutingTable)
    → IsTable t
    → IsTable (admit api id e version rtt now t).1
unfolding admit
admit-IsTable api id e version rtt now t h =
    go (first (λ n. id_eq n.id id) (bucket_at t.buckets (bucket_index_for t id)).nodes)
  where
    dropped : RoutingTable
    dropped = record t {
      buckets =
          map (drop_replacements (λ n. not (endpoint_eq n.endpoint e || id_eq n.id id))) t.buckets;
    }

    moved : RoutingTable
    moved = record t {
      buckets = update_bucket (bucket_index_for t id) (move_bucket id e version rtt now) t.buckets;
    }

    moved-IsTable : IsTable moved
    moved-IsTable =
        change-IsTable t (bucket_index_for t id) now (λ n. id_eq n.id id)
          (move_node e version rtt now) (λ n. refl) h

    go :
        (o : Option RoutingNode)
        → IsTable (
            (elim o as (λ _. InsertResult × RoutingTable) [
              | some n ↦
                  if is_bad n now then (InsertResult.updated, moved) else (InsertResult.rejected, t)
              | none ↦ insert api (new_node id e version rtt now) now dropped
            ]).1)
    go (some n) = IsTable-if (is_bad n now) _ _ (λ _. moved-IsTable) (λ _. h)
    go none = insert-IsTable api (new_node id e version rtt now) now dropped (
        map-IsTable t (drop_replacements (λ n. not (endpoint_eq n.endpoint e || id_eq n.id id)))
          (λ j b.
            drop_replacements-BucketOk t.self (length t.buckets - 1) j
              (λ n. not (endpoint_eq n.endpoint e || id_eq n.id id)) b)
          h)

pub heard_from-IsTable :
    (api : HostApi) (id : NodeId) (e : Endpoint) (version : List ℕ) (rtt : Option ℕ) (now : ℕ)
    (t : RoutingTable)
    → IsTable t
    → IsTable (heard_from api id e version rtt now t).1
unfolding heard_from
heard_from-IsTable api id e version rtt now t h =
    IsTable-if (id_eq id t.self || not (is_valid e)) _ _ (λ _. h) (λ _. go (locate e t))
  where
    refreshed : ℕ → RoutingTable
    refreshed i = record t {
      buckets = update_bucket i (refresh_bucket e version rtt now) t.buckets;
    }

    forgotten : ℕ → RoutingTable
    forgotten i = record t { buckets = update_bucket i (forget_bucket e) t.buckets }

    go :
        (o : Option (ℕ × RoutingNode))
        → IsTable (
            (elim o as (λ _. InsertResult × RoutingTable) [
              | some (i, existing) ↦
                  if id_eq existing.id id
                  then (InsertResult.updated, refreshed i)
                  else admit api id e version rtt now (forgotten i)
              | none ↦ admit api id e version rtt now t
            ]).1)
    go none = admit-IsTable api id e version rtt now t h
    go (some (i, existing)) =
        IsTable-if (id_eq existing.id id) _ _
          (λ _. change-IsTable t i now (at_endpoint e) (refresh_node version rtt now) (λ n. refl) h)
          (λ _. admit-IsTable api id e version rtt now (forgotten i) (
            update-IsTable t i (forget_bucket e)
              (λ b _. forget_bucket-BucketOk t.self (length t.buckets - 1) i e b) h))

pub queried_by-IsTable :
    (id : NodeId) (e : Endpoint) (now : ℕ) (t : RoutingTable)
    → IsTable t
    → IsTable (queried_by id e now t).1
unfolding queried_by
queried_by-IsTable id e now t h = go (locate e t)
  where
    marked : ℕ → RoutingTable
    marked i = record t {
      buckets = update_bucket i (change_node e (λ m. record m { last_query = now })) t.buckets;
    }

    go :
        (o : Option (ℕ × RoutingNode))
        → IsTable (
            (elim o as (λ _. Bool × RoutingTable) [
              | none ↦ (false, t)
              | some (i, n) ↦ if id_eq n.id id then (true, marked i) else (false, t)
            ]).1)
    go none = h
    go (some (i, n)) =
        IsTable-if (id_eq n.id id) _ _
          (λ _. change_node-IsTable t i e (λ m. record m { last_query = now }) (λ n. refl) h)
          (λ _. h)

pub mark_pinged-IsTable :
    (e : Endpoint) (now : ℕ) (t : RoutingTable) → IsTable t → IsTable (mark_pinged e now t)
unfolding mark_pinged
mark_pinged-IsTable e now t h = go (locate e t)
  where
    go :
        (o : Option (ℕ × RoutingNode))
        → IsTable (elim o as (λ _. RoutingTable) [
          | none ↦ t
          | some (i, n) ↦ record t {
            buckets =
                update_bucket i (change_node e (λ m. record m { last_ping_sent = now })) t.buckets;
          }
        ])
    go none = h
    go (some (i, n)) =
        change_node-IsTable t i e (λ m. record m { last_ping_sent = now }) (λ n. refl) h

pub failed-IsTable :
    (e : Endpoint) (now : ℕ) (t : RoutingTable) → IsTable t → IsTable (failed e now t)
unfolding failed
failed-IsTable e now t h = go (locate e t)
  where
    counted : ℕ → RoutingTable
    counted i = record t { buckets = update_bucket i (count_failure e) t.buckets }

    counted-IsTable : (i : ℕ) → IsTable (counted i)
    counted-IsTable i =
        change_node-IsTable t i e (λ m. record m { fail_count = m.fail_count + 1 }) (λ n. refl) h

    retired : ℕ → ℕ → RoutingTable
    retired i fails = record t {
      buckets = update_bucket i (retire e now fails) (update_bucket i (count_failure e) t.buckets);
    }

    go :
        (o : Option (ℕ × RoutingNode))
        → IsTable (elim o as (λ _. RoutingTable) [
          | none ↦ record t { buckets = map (drop_replacements (not_at_endpoint e)) t.buckets }
          | some (i, n) ↦
              if is_bad (record n { fail_count = n.fail_count + 1 }) now
              then retired i (n.fail_count + 1)
              else counted i
        ])
    go none =
        map-IsTable t (drop_replacements (not_at_endpoint e))
          (λ j b. drop_replacements-BucketOk t.self (length t.buckets - 1) j (not_at_endpoint e) b)
          h
    go (some (i, n)) =
        elim (is_bad (record n { fail_count = n.fail_count + 1 }) now)
          as (λ c. IsTable (if c then retired i (n.fail_count + 1) else counted i)) [
            | true ↦
                update-IsTable (counted i) i (retire e now (n.fail_count + 1))
                  (λ b _.
                    retire-BucketOk t.self (length (counted i).buckets - 1) i e now
                      (n.fail_count + 1) b)
                  (counted-IsTable i)
            | false ↦ counted-IsTable i
          ]

pub touch_bucket-IsTable :
    (index now : ℕ) (t : RoutingTable) → IsTable t → IsTable (touch_bucket index now t)
unfolding touch_bucket
touch_bucket-IsTable index now t h =
    update-IsTable t index (touch now)
      (λ b _ k. record {
        node_room = k.node_room;
        cache_room = k.cache_room;
        nodes_belong = k.nodes_belong;
        cache_belongs = k.cache_belongs;
      })
      h

insert_all-IsTable :
    (api : HostApi) (ns : List RoutingNode) (now : ℕ) (t : RoutingTable)
    → IsTable t
    → IsTable (insert_all api ns now t)
unfolding insert_all
insert_all-IsTable api [] now t h = h
insert_all-IsTable api (n ∷ ns) now t h =
    insert_all-IsTable api ns now (insert api n now t).1 (insert-IsTable api n now t h)

single-IsTable :
    (self : NodeId) (restrict : Bool) (at : ℕ)
    → IsTable (record {
      self = self;
      restrict_one_per_ip = restrict;
      buckets = record { nodes = []; replacements = []; last_changed = at } ∷ [];
    })
single-IsTable self restrict at = record {
  some_bucket = omega arith;
  few_buckets = omega arith;
  sound = (
    record {
      node_room = omega arith;
      cache_room = omega arith;
      nodes_belong = tt;
      cache_belongs = tt;
    },
    tt,
  );
}

pub make_table-IsTable : (self : NodeId) (restrict : Bool) → IsTable (make_table self restrict)
unfolding make_table
make_table-IsTable self restrict = single-IsTable self restrict 0

-- Whatever the old table held, the rebuilt one keeps the invariant.
pub rebuild-IsTable :
    (api : HostApi) (new_self : NodeId) (now : ℕ) (t : RoutingTable)
    → IsTable (rebuild api new_self now t)
unfolding rebuild
rebuild-IsTable api new_self now t =
    insert_all-IsTable api (gather (λ b. b.replacements) t.buckets) now _ (
      insert_all-IsTable api (gather (λ b. b.nodes) t.buckets) now _
        (single-IsTable new_self t.restrict_one_per_ip now))
