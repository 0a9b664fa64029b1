-- ===== src/RoutingTable.antt =====
-- dhtcore/src/RoutingTable.cpp and dhtcore/include/dhtcore/RoutingTable.h: the BEP 5 routing table.
-- Times are milliseconds of a clock that starts at 0; `now - t < w` is written `now < t + w`, which is
-- the same on signed numbers. An rtt of -1 is `none`. std::sort is insertion sort.
pub mod Insert
pub mod Queries
pub mod Invariant
pub mod Split
pub mod Place
pub mod Changes
pub mod Runs
pub mod Session
use dhtinspector.Common.{
  ℕ, zero, suc, ◌+◌, ◌-◌, ◌*◌, ◌/◌, min, Bool, true, false, not, ◌&&◌, ◌||◌, Option, none, some,
  List, [], ◌∷◌, ◌++◌, ltb, leb, ◌==◌, if◌then◌else◌, length, get_or, keep, any, first,
  update_first,
}
use dhtinspector.NodeId.{NodeId, id_eq, common_prefix_length, bits}
use dhtinspector.Endpoint.{
  HostApi, Address, Endpoint, endpoint_eq, address_eq, is_valid, is_local_address,
}

pub data NodeState : Type 0 where
  good questionable bad : NodeState

pub record RoutingNode : Type 0 where
  pub id : NodeId
  pub endpoint : Endpoint
  pub version : List ℕ
  pub first_seen : ℕ
  pub last_response : ℕ
  pub last_query : ℕ
  pub last_ping_sent : ℕ
  pub fail_count : ℕ
  pub rtt_ms : Option ℕ

abbrev pub bucket_size : ℕ
bucket_size = 8

abbrev pub good_window_ms : ℕ
good_window_ms = 900000

abbrev pub bad_fail_count : ℕ
bad_fail_count = 2

abbrev pub remove_fail_count : ℕ
remove_fail_count = 5

pub data InsertResult : Type 0 where
  added updated replaced cached rejected : InsertResult

pub record Bucket : Type 0 where
  pub nodes : List RoutingNode
  pub replacements : List RoutingNode
  pub last_changed : ℕ

abbrev pub empty_bucket : Bucket
empty_bucket = record { nodes = []; replacements = []; last_changed = 0 }

pub record RoutingTable : Type 0 where
  pub self : NodeId
  pub restrict_one_per_ip : Bool
  pub buckets : List Bucket

unfoldable pub make_table : NodeId → Bool → RoutingTable
make_table self restrict = record {
  self = self;
  restrict_one_per_ip = restrict;
  buckets = empty_bucket ∷ [];
}

unfoldable pub state_of : RoutingNode → ℕ → NodeState
state_of n now =
    if leb bad_fail_count n.fail_count
    then NodeState.bad
    else (if n.fail_count == 0
          && (ltb 0 n.last_response
              && (ltb now (n.last_response + good_window_ms)
                  || (ltb 0 n.last_query && ltb now (n.last_query + good_window_ms))))
        then NodeState.good
        else NodeState.questionable)

abbrev pub state_is_bad : NodeState → Bool
state_is_bad NodeState.bad = true
state_is_bad _ = false

unfoldable pub is_bad : RoutingNode → ℕ → Bool
unfolding state_of
is_bad n now = state_is_bad (state_of n now)

unfoldable pub bucket_index_for : RoutingTable → NodeId → ℕ
bucket_index_for t id = min (common_prefix_length t.self id) (length t.buckets - 1)

-- m_buckets[i].
abbrev pub bucket_at : List Bucket → ℕ → Bucket
bucket_at bs i = get_or bs i empty_bucket

-- Writes through a reference to m_buckets[i].
unfoldable pub update_bucket : ℕ → (Bucket → Bucket) → List Bucket → List Bucket
update_bucket i f [] = []
update_bucket zero f (b ∷ bs) = f b ∷ bs
update_bucket (suc i) f (b ∷ bs) = b ∷ update_bucket i f bs

abbrev pub at_endpoint : Endpoint → RoutingNode → Bool
at_endpoint e n = endpoint_eq n.endpoint e

abbrev pub not_at_endpoint : Endpoint → RoutingNode → Bool
not_at_endpoint e n = not (endpoint_eq n.endpoint e)

-- locate: the bucket index and the node, from bucket `i` on.
unfoldable pub locate_from : ℕ → Endpoint → List Bucket → Option (ℕ × RoutingNode)
locate_from i e [] = none
locate_from i e (b ∷ bs) = elim (first (at_endpoint e) b.nodes) [
  | some n ↦ some (i, n)
  | none ↦ locate_from (suc i) e bs
]

unfoldable pub locate : Endpoint → RoutingTable → Option (ℕ × RoutingNode)
locate e t = locate_from 0 e t.buckets

-- Changes the located node in place.
abbrev pub change_node : Endpoint → (RoutingNode → RoutingNode) → Bucket → Bucket
change_node e f b = record b { nodes = update_first (at_endpoint e) f b.nodes }

unfoldable pub ip_in_use : Address → List Bucket → Bool
ip_in_use a [] = false
ip_in_use a (b ∷ bs) = any (λ n. address_eq n.endpoint.address a) b.nodes || ip_in_use a bs

unfoldable pub can_split : ℕ → RoutingTable → Bool
can_split index t = index == length t.buckets - 1 && ltb (length t.buckets) bits

abbrev pub moves_out : NodeId → ℕ → RoutingNode → Bool
moves_out self last n = ltb last (common_prefix_length self n.id)

abbrev pub stays_in : NodeId → ℕ → RoutingNode → Bool
stays_in self last n = not (moves_out self last n)

-- The last bucket becomes two: what stays, and a fresh bucket with what moves out.
unfoldable pub split_last : NodeId → ℕ → List Bucket → List Bucket
split_last self last [] = []
split_last self last (b ∷ []) =
    record b {
      nodes = keep (stays_in self last) b.nodes;
      replacements = keep (stays_in self last) b.replacements;
    }
    ∷ record {
      nodes = keep (moves_out self last) b.nodes;
      replacements = keep (moves_out self last) b.replacements;
      last_changed = b.last_changed;
    }
    ∷ []
split_last self last (b ∷ c ∷ bs) = b ∷ split_last self last (c ∷ bs)

unfoldable pub split : RoutingTable → RoutingTable
unfolding split_last
split t = record t { buckets = split_last t.self (length t.buckets - 1) t.buckets }
