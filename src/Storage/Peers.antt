-- ===== src/Storage/Peers.antt =====
-- dhtcore/src/Support.cpp: PeerStorage and ExternalIpVoter. A hash is the list of its entries in the
-- order of its iteration; an insertion of a new key puts its entry first.
use dhtinspector.Common.{
  ℕ, suc, ◌+◌, ◌-◌, ◌*◌, Bool, true, false, not, ◌||◌, Option, none, some, List, [], ◌∷◌, ltb, leb,
  if◌then◌else◌, length, keep, any, first, update_first, map,
}
use dhtinspector.Endpoint.{
  HostApi, Address, null, Endpoint, endpoint_eq, address_eq, normalize_address, is_null,
}
use dhtinspector.NodeId.{NodeId, id_eq}

-- An entry of the storage; `peers` has each peer with the time of its announcement.
pub record PeerEntry : Type 0 where
  pub infohash : NodeId
  pub peers : List (Endpoint × ℕ)
  pub last_announce : ℕ

pub record PeerStorage : Type 0 where
  pub entries : List PeerEntry
  pub peer_count : ℕ

abbrev pub peer_ttl_ms : ℕ
peer_ttl_ms = 1800000

abbrev pub max_infohashes : ℕ
max_infohashes = 5000

abbrev pub max_peers_per_infohash : ℕ
max_peers_per_infohash = 500

abbrev pub entry_at : NodeId → PeerEntry → Bool
entry_at infohash e = id_eq e.infohash infohash

abbrev pub peer_at : Endpoint → Endpoint × ℕ → Bool
peer_at peer p = endpoint_eq p.0 peer

-- The first entry with the least time.
unfoldable pub oldest_entry : PeerEntry → List PeerEntry → PeerEntry
oldest_entry best [] = best
oldest_entry best (e ∷ es) = elim (ltb e.last_announce best.last_announce) [
  | true ↦ oldest_entry e es
  | false ↦ oldest_entry best es
]

unfoldable pub oldest_peer : Endpoint × ℕ → List (Endpoint × ℕ) → Endpoint × ℕ
oldest_peer best [] = best
oldest_peer best (p ∷ ps) = elim (ltb p.1 best.1) [
  | true ↦ oldest_peer p ps
  | false ↦ oldest_peer best ps
]

unfoldable pub drop_oldest_entry : List PeerEntry → PeerStorage → PeerStorage
unfolding oldest_entry
drop_oldest_entry [] s = s
drop_oldest_entry (e ∷ es) s =
    let oldest = oldest_entry e es in
    record {
      entries = keep (λ d. not (entry_at oldest.infohash d)) (e ∷ es);
      peer_count = s.peer_count - length oldest.peers;
    }

unfoldable pub drop_oldest_peer : List (Endpoint × ℕ) → List (Endpoint × ℕ)
unfolding oldest_peer
drop_oldest_peer [] = []
drop_oldest_peer (p ∷ ps) = keep (λ q. not (peer_at (oldest_peer p ps).0 q)) (p ∷ ps)

-- announce's entry for the infohash, made if it is missing.
unfoldable pub ensure_entry : NodeId → PeerStorage → PeerStorage
unfolding drop_oldest_entry
ensure_entry infohash s =
    let room = if leb max_infohashes (length s.entries) then drop_oldest_entry s.entries s else s in
    if any (entry_at infohash) s.entries then s else record room {
      entries = record { infohash = infohash; peers = []; last_announce = 0 } ∷ room.entries;
    }

unfoldable pub put_peer : Endpoint → ℕ → PeerEntry → PeerEntry
unfolding drop_oldest_peer
put_peer peer now e =
    let room =
      if leb max_peers_per_infohash (length e.peers) then drop_oldest_peer e.peers else e.peers in
    record e {
      last_announce = now;
      peers =
          (if any (peer_at peer) e.peers
            then update_first (peer_at peer) (λ p. (peer, now)) e.peers
            else (peer, now) ∷ room);
    }

-- m_peerCount after the announcement into the entry.
count_peer : Endpoint → Option PeerEntry → ℕ → ℕ
count_peer peer none count = count
count_peer peer (some e) count =
    if any (peer_at peer) e.peers
    then count
    else (if leb max_peers_per_infohash (length e.peers) then suc (count - 1) else suc count)

unfoldable pub announce : NodeId → Endpoint → ℕ → PeerStorage → PeerStorage
unfolding ensure_entry put_peer count_peer
announce infohash peer now s =
    let t = ensure_entry infohash s in
    record {
      entries = update_first (entry_at infohash) (put_peer peer now) t.entries;
      peer_count = count_peer peer (first (entry_at infohash) t.entries) t.peer_count;
    }

unfoldable pub is_live : ℕ → Endpoint × ℕ → Bool
is_live now p = not (leb peer_ttl_ms (now - p.1))

unfoldable pub expire_entry : ℕ → PeerEntry → PeerEntry
unfolding is_live
expire_entry now e = record e { peers = keep (is_live now) e.peers }

unfoldable pub is_empty : List (Endpoint × ℕ) → Bool
is_empty [] = true
is_empty (p ∷ ps) = false

expired_peers : ℕ → List PeerEntry → ℕ
unfolding expire_entry
expired_peers now [] = 0
expired_peers now (e ∷ es) =
    (length e.peers - length (expire_entry now e).peers) + expired_peers now es

unfoldable pub expire : ℕ → PeerStorage → PeerStorage
unfolding expired_peers expire_entry is_empty
expire now s = record {
  entries = keep (λ e. not (is_empty e.peers)) (map (expire_entry now) s.entries);
  peer_count = s.peer_count - expired_peers now s.entries;
}

abbrev pub clear : PeerStorage
clear = record { entries = []; peer_count = 0 }

unfoldable pub snapshot : PeerStorage → List PeerEntry
snapshot s = s.entries

-- A vote: who voted, the address reported and the time.
pub record Vote : Type 0 where
  pub voter : Address
  pub reported : Address
  pub at : ℕ

pub record ExternalIpVoter : Type 0 where
  pub votes : List Vote
  pub consensus : Address

abbrev pub max_voters : ℕ
max_voters = 50

abbrev pub min_votes : ℕ
min_votes = 3

abbrev pub vote_of : Address → Vote → Bool
vote_of voter v = address_eq v.voter voter

oldest_vote : Vote → List Vote → Vote
oldest_vote best [] = best
oldest_vote best (v ∷ vs) = elim (ltb v.at best.at) [
  | true ↦ oldest_vote v vs
  | false ↦ oldest_vote best vs
]

drop_oldest_vote : List Vote → List Vote
unfolding oldest_vote
drop_oldest_vote [] = []
drop_oldest_vote (v ∷ vs) =
    if ltb max_voters (length (v ∷ vs))
    then keep (λ w. not (vote_of (oldest_vote v vs).voter w)) (v ∷ vs)
    else v ∷ vs

cast : Vote → List Vote → List Vote
cast v vs = if any (vote_of v.voter) vs then update_first (vote_of v.voter) (λ w. v) vs else v ∷ vs

-- ++tally[reported].
tally_vote : Address → List (Address × ℕ) → List (Address × ℕ)
tally_vote a [] = (a, 1) ∷ []
tally_vote a (t ∷ ts) = elim (address_eq t.0 a) [
  | true ↦ (a, suc t.1) ∷ ts
  | false ↦ t ∷ tally_vote a ts
]

tally : List Vote → List (Address × ℕ)
unfolding tally_vote
tally [] = []
tally (v ∷ vs) = tally_vote v.reported (tally vs)

-- The winner, its votes and the votes of the second.
leaders : Address → ℕ → ℕ → List (Address × ℕ) → Address × ℕ × ℕ
leaders winner top second [] = (winner, top, second)
leaders winner top second (t ∷ ts) = elim (ltb top t.1) [
  | true ↦ leaders t.0 t.1 top ts
  | false ↦ elim (ltb second t.1) [
    | true ↦ leaders winner top t.1 ts
    | false ↦ leaders winner top second ts
  ]
]

decide : Address × ℕ × ℕ → ExternalIpVoter → Bool × ExternalIpVoter
decide r s =
    if ltb r.1 min_votes || (ltb r.1 (2 * r.2) || address_eq r.0 s.consensus)
    then (false, s)
    else (true, record s { consensus = r.0 })

unfoldable pub add_vote : HostApi → Address → Address → ℕ → ExternalIpVoter → Bool × ExternalIpVoter
unfolding drop_oldest_vote cast tally leaders decide
add_vote api raw_voter raw_reported now s =
    let voter = normalize_address api raw_voter in
    let reported = normalize_address api raw_reported in
    let votes =
      drop_oldest_vote (cast (record { voter = voter; reported = reported; at = now }) s.votes) in
    if is_null voter || is_null reported
    then (false, s)
    else decide (leaders null 0 0 (tally votes)) (record s { votes = votes })
