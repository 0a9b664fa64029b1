-- ===== src/RoutingTable/Invariant.antt =====
-- The invariant of the routing table: what every bucket holds.
use dhtinspector.Common.{
  ℕ, zero, suc, ◌+◌, ◌-◌, ◌≤◌, ◌<◌, ◌≡◌, refl, min, Bool, true, false, List, [], ◌∷◌, length, All,
  map, subst, if◌then◌else◌, arith,
}
use dhtinspector.NodeId.{NodeId, id_eq, common_prefix_length}
use dhtinspector.RoutingTable.{
  RoutingNode, Bucket, RoutingTable, bucket_at, update_bucket, bucket_index_for,
}

-- A node that belongs in bucket `i` where `last` is the index of the last bucket.
pub record Belongs (self : NodeId) (last i : ℕ) (n : RoutingNode) : Type 0 where
  pub home : min (common_prefix_length self n.id) last ≡ i
  pub foreign : id_eq n.id self ≡ false

pub record BucketOk (self : NodeId) (last i : ℕ) (b : Bucket) : Type 0 where
  pub node_room : length b.nodes ≤ 8
  pub cache_room : length b.replacements ≤ 8
  pub nodes_belong : All (Belongs self last i) b.nodes
  pub cache_belongs : All (Belongs self last i) b.replacements

-- Every bucket is sound, the first of the list being bucket `i`.
abbrev pub BucketsOk : NodeId → ℕ → ℕ → List Bucket → Type 0
BucketsOk self last i [] = Unit
BucketsOk self last i (b ∷ bs) = BucketOk self last i b × BucketsOk self last (suc i) bs

-- Between 1 and 160 buckets of at most 8 nodes and 8 replacements, each node in the bucket of its
-- shared prefix, and never our own id.
pub record IsTable (t : RoutingTable) : Type 0 where
  pub some_bucket : 1 ≤ length t.buckets
  pub few_buckets : length t.buckets ≤ 160
  pub sound : BucketsOk t.self (length t.buckets - 1) 0 t.buckets

pub length-update_bucket :
    (i : ℕ) (f : Bucket → Bucket) (bs : List Bucket) → length (update_bucket i f bs) ≡ length bs
unfolding update_bucket
length-update_bucket i f [] = refl
length-update_bucket zero f (b ∷ bs) = refl
length-update_bucket (suc i) f (b ∷ bs) = omega (arith, length-update_bucket i f bs)

-- A change that keeps the one bucket sound keeps them all.
pub BucketsOk-update_bucket :
    (self : NodeId) (last i j : ℕ) (f : Bucket → Bucket) (bs : List Bucket)
    → ((b : Bucket)
        → bucket_at bs j ≡ b
        → BucketOk self last (i + j) b
        → BucketOk self last (i + j) (f b))
    → BucketsOk self last i bs
    → BucketsOk self last i (update_bucket j f bs)
unfolding update_bucket
BucketsOk-update_bucket self last i j f [] k h = tt
BucketsOk-update_bucket self last i zero f (b ∷ bs) k h = (
  subst (λ m. BucketOk self last m (f b)) (omega arith)
      (k b refl (subst (λ m. BucketOk self last m b) (omega arith) h.0)),
  h.1,
)
BucketsOk-update_bucket self last i (suc j) f (b ∷ bs) k h = (
  h.0,
  BucketsOk-update_bucket self last (suc i) j f bs
      (λ c e.
        subst (λ m. BucketOk self last m c → BucketOk self last m (f c)) (omega arith) (k c e))
      h.1,
)

pub BucketsOk-map :
    (self : NodeId) (last i : ℕ) (f : Bucket → Bucket) (bs : List Bucket)
    → ((j : ℕ) (b : Bucket) → BucketOk self last j b → BucketOk self last j (f b))
    → BucketsOk self last i bs
    → BucketsOk self last i (map f bs)
BucketsOk-map self last i f [] k h = tt
BucketsOk-map self last i f (b ∷ bs) k h = (k i b h.0, BucketsOk-map self last (suc i) f bs k h.1)

pub length-map : (f : Bucket → Bucket) (bs : List Bucket) → length (map f bs) ≡ length bs
length-map f [] = refl
length-map f (b ∷ bs) = omega (arith, length-map f bs)

-- The bucket for an id is one of the table's.
pub bucket_index_for-lt :
    (t : RoutingTable) (id : NodeId) → IsTable t → bucket_index_for t id < length t.buckets
unfolding bucket_index_for
bucket_index_for-lt t id h = omega (arith, h.some_bucket)

-- A change of one bucket that keeps it sound keeps the table's invariant.
pub update-IsTable :
    (t : RoutingTable) (j : ℕ) (f : Bucket → Bucket)
    → ((b : Bucket)
        → bucket_at t.buckets j ≡ b
        → BucketOk t.self (length t.buckets - 1) j b
        → BucketOk t.self (length t.buckets - 1) j (f b))
    → IsTable t
    → IsTable (record t { buckets = update_bucket j f t.buckets })
update-IsTable t j f k h =
    let e = length-update_bucket j f t.buckets in
    record {
      some_bucket = omega (arith, e, h.some_bucket);
      few_buckets = omega (arith, e, h.few_buckets);
      sound =
          subst (λ m. BucketsOk t.self m 0 (update_bucket j f t.buckets)) (omega (arith, e))
            (BucketsOk-update_bucket t.self (length t.buckets - 1) 0 j f t.buckets
              (λ b e.
                subst
                  (λ m.
                    BucketOk t.self (length t.buckets - 1) m b
                    → BucketOk t.self (length t.buckets - 1) m (f b))
                  (omega arith) (k b e))
              h.sound);
    }

pub map-IsTable :
    (t : RoutingTable) (f : Bucket → Bucket)
    → ((j : ℕ) (b : Bucket)
        → BucketOk t.self (length t.buckets - 1) j b
        → BucketOk t.self (length t.buckets - 1) j (f b))
    → IsTable t
    → IsTable (record t { buckets = map f t.buckets })
map-IsTable t f k h =
    let e = length-map f t.buckets in
    record {
      some_bucket = omega (arith, e, h.some_bucket);
      few_buckets = omega (arith, e, h.few_buckets);
      sound =
          subst (λ m. BucketsOk t.self m 0 (map f t.buckets)) (omega (arith, e))
            (BucketsOk-map t.self (length t.buckets - 1) 0 f t.buckets k h.sound);
    }

-- Both branches of a test keep the table.
pub IsTable-if {ℓ} :
    {R : Type ℓ} (b : Bool) (x y : R × RoutingTable)
    → (b ≡ true → IsTable x.1)
    → (b ≡ false → IsTable y.1)
    → IsTable (if◌then◌else◌ {A = R × RoutingTable} b x y).1
IsTable-if true x y h k = h refl
IsTable-if false x y h k = k refl
