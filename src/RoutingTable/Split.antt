-- ===== src/RoutingTable/Split.antt =====
-- Splitting the last bucket keeps the invariant.
use dhtinspector.Common.{
  ℕ, suc, ◌+◌, ◌-◌, ◌≤◌, ◌<◌, ◌≡◌, refl, Bool, true, false, List, [], ◌∷◌, length, All, keep, subst,
  arith, length-keep-le,
}
use dhtinspector.NodeId.{NodeId}
use dhtinspector.RoutingTable.{
  RoutingNode, Bucket, RoutingTable, split_last, split, moves_out, stays_in,
}
use dhtinspector.RoutingTable.Invariant.{Belongs, BucketsOk, IsTable}

-- Like All-keep, with the test's answer for the kept element.
All-keep_of :
    (P Q : RoutingNode → Type 0) (p : RoutingNode → Bool) (xs : List RoutingNode)
    → ((n : RoutingNode) → p n ≡ true → P n → Q n)
    → All P xs
    → All Q (keep p xs)
All-keep_of P Q p [] k h = tt
All-keep_of P Q p (x ∷ xs) k h =
    (elim (p x) as (λ b. p x ≡ b → All Q (elim b [ true ↦ x ∷ keep p xs | false ↦ keep p xs ])) [
      | true ↦ λ e. (k x e h.0, All-keep_of P Q p xs k h.1)
      | false ↦ λ e. All-keep_of P Q p xs k h.1
    ])
      refl

module _ (self : NodeId) (last : ℕ) where
  Belongs-early :
      (i : ℕ) (n : RoutingNode) → i < last → Belongs self last i n → Belongs self (last + 1) i n
  Belongs-early i n h b = record { home = omega (arith, b.home); foreign = b.foreign }

  Belongs-stays :
      (i : ℕ) (n : RoutingNode)
      → i ≡ last
      → stays_in self last n ≡ true
      → Belongs self last i n
      → Belongs self (last + 1) i n
  Belongs-stays i n l e b = record { home = ground (arith, b.home); foreign = b.foreign }

  Belongs-moves :
      (i : ℕ) (n : RoutingNode)
      → i ≡ last
      → moves_out self last n ≡ true
      → Belongs self last i n
      → Belongs self (last + 1) (suc i) n
  Belongs-moves i n l e b = record { home = ground (arith, b.home); foreign = b.foreign }

  All-early :
      (i : ℕ) (ns : List RoutingNode)
      → i < last
      → All (Belongs self last i) ns
      → All (Belongs self (last + 1) i) ns
  All-early i [] h k = tt
  All-early i (n ∷ ns) h k = (Belongs-early i n h k.0, All-early i ns h k.1)

  BucketsOk-split_last :
      (i : ℕ) (bs : List Bucket)
      → i + length bs ≡ last + 1
      → BucketsOk self last i bs
      → BucketsOk self (last + 1) i (split_last self last bs)
  unfolding split_last
  BucketsOk-split_last i [] l h = tt
  BucketsOk-split_last i (b ∷ []) l h =
      let e : i ≡ last = omega arith in
      (
        record {
          node_room = omega (arith, length-keep-le (stays_in self last) b.nodes, h.0.node_room);
          cache_room =
              omega (arith, length-keep-le (stays_in self last) b.replacements, h.0.cache_room);
          nodes_belong =
              All-keep_of (Belongs self last i) (Belongs self (last + 1) i) (stays_in self last)
                b.nodes (λ n. Belongs-stays i n e) h.0.nodes_belong;
          cache_belongs =
              All-keep_of (Belongs self last i) (Belongs self (last + 1) i) (stays_in self last)
                b.replacements (λ n. Belongs-stays i n e) h.0.cache_belongs;
        },
        (
          record {
            node_room = omega (arith, length-keep-le (moves_out self last) b.nodes, h.0.node_room);
            cache_room =
                omega (arith, length-keep-le (moves_out self last) b.replacements, h.0.cache_room);
            nodes_belong =
                All-keep_of (Belongs self last i) (Belongs self (last + 1) (suc i))
                  (moves_out self last) b.nodes (λ n. Belongs-moves i n e) h.0.nodes_belong;
            cache_belongs =
                All-keep_of (Belongs self last i) (Belongs self (last + 1) (suc i))
                  (moves_out self last) b.replacements (λ n. Belongs-moves i n e) h.0.cache_belongs;
          },
          tt,
        ),
      )
  BucketsOk-split_last i (b ∷ c ∷ bs) l h = (
    record {
      node_room = h.0.node_room;
      cache_room = h.0.cache_room;
      nodes_belong = All-early i b.nodes (omega arith) h.0.nodes_belong;
      cache_belongs = All-early i b.replacements (omega arith) h.0.cache_belongs;
    },
    BucketsOk-split_last (suc i) (c ∷ bs) (omega arith) h.1,
  )

  length-split_last :
      (b : Bucket) (bs : List Bucket) → length (split_last self last (b ∷ bs)) ≡ length (b ∷ bs) + 1
  unfolding split_last
  length-split_last b [] = refl
  length-split_last b (c ∷ bs) = omega (arith, length-split_last c bs)

pub length-split :
    (t : RoutingTable) → 1 ≤ length t.buckets → length (split t).buckets ≡ length t.buckets + 1
unfolding split
length-split t h = go t.buckets h
  where
    go :
        (bs : List Bucket)
        → 1 ≤ length bs
        → length (split_last t.self (length t.buckets - 1) bs) ≡ length bs + 1
    go [] h = absurd (omega arith)
    go (b ∷ bs) h = length-split_last t.self (length t.buckets - 1) b bs

pub split-IsTable : (t : RoutingTable) → length t.buckets < 160 → IsTable t → IsTable (split t)
unfolding split
split-IsTable t l h =
    let e = length-split t h.some_bucket in
    record {
      some_bucket = omega (arith, e);
      few_buckets = omega (arith, e);
      sound =
          subst (λ m. BucketsOk t.self m 0 (split_last t.self (length t.buckets - 1) t.buckets))
            (omega (arith, e, h.some_bucket))
            (BucketsOk-split_last t.self (length t.buckets - 1) 0 t.buckets
              (omega (arith, h.some_bucket)) h.sound);
    }
