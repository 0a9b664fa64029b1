-- ===== src/Storage/Crowds.antt =====
-- dhtcore/src/Support.cpp: PeerStorage holds at most 5000 infohashes, each with at most 500 peers.
use dhtinspector.Common.{
  ℕ, ◌≤◌, ◌<◌, ◌≡◌, refl, true, not, inl, inr, List, [], ◌∷◌, map, leb, length, any, length-keep-le,
  length-keep-any, length-update_first, All, All-keep, All-update_first, Bool-cases, bytes_eq_refl,
  arith,
}
use dhtinspector.NodeId.{NodeId}
use dhtinspector.Endpoint.{Endpoint, endpoint_eq}
use dhtinspector.Endpoint.Compact.{address_eq_iff}
use dhtinspector.Storage.Peers.{
  PeerEntry, PeerStorage, entry_at, peer_at, oldest_entry, oldest_peer, drop_oldest_entry,
  drop_oldest_peer, ensure_entry, put_peer, announce, is_live, expire_entry, is_empty, expire,
  clear,
}

pub record IsRoomy (s : PeerStorage) : Type 0 where
  pub few : length s.entries ≤ 5000
  pub small : All (λ (e : PeerEntry). length e.peers ≤ 500) s.entries

-- A call of the storage.
pub data PeerCall : Type 0 where
  announce_peer : NodeId → Endpoint → ℕ → PeerCall
  expire_peers : ℕ → PeerCall
  clear_peers : PeerCall

unfoldable pub call_peer : PeerCall → PeerStorage → PeerStorage
call_peer (announce_peer infohash peer now) s = announce infohash peer now s
call_peer (expire_peers now) s = expire now s
call_peer clear_peers s = clear

unfoldable pub call_peers : List PeerCall → PeerStorage → PeerStorage
unfolding call_peer
call_peers [] s = s
call_peers (c ∷ cs) s = call_peers cs (call_peer c s)

endpoint_eq_self : (e : Endpoint) → endpoint_eq e e ≡ true
endpoint_eq_self e = ground (arith, address_eq_iff e.address e.address)

-- The oldest is one of them.
oldest_entry-here :
    (best : PeerEntry) (es : List PeerEntry)
    → any (entry_at (oldest_entry best es).infohash) (best ∷ es) ≡ true
unfolding oldest_entry
oldest_entry-here best [] = ground (arith, bytes_eq_refl best.infohash)
oldest_entry-here best (e ∷ es) = ground (arith, oldest_entry-here e es, oldest_entry-here best es)

oldest_peer-here :
    (best : Endpoint × ℕ) (ps : List (Endpoint × ℕ))
    → any (peer_at (oldest_peer best ps).0) (best ∷ ps) ≡ true
unfolding oldest_peer
oldest_peer-here best [] = ground (arith, endpoint_eq_self best.0)
oldest_peer-here best (p ∷ ps) = ground (arith, oldest_peer-here p ps, oldest_peer-here best ps)

drop_oldest_peer-less :
    (ps : List (Endpoint × ℕ)) → 0 < length ps → length (drop_oldest_peer ps) < length ps
unfolding drop_oldest_peer
drop_oldest_peer-less [] h = absurd (omega arith)
drop_oldest_peer-less (p ∷ ps) h =
    length-keep-any (peer_at (oldest_peer p ps).0) (p ∷ ps) (oldest_peer-here p ps)

put_peer-small :
    (peer : Endpoint) (now : ℕ) (e : PeerEntry)
    → length e.peers ≤ 500
    → length (put_peer peer now e).peers ≤ 500
unfolding put_peer
put_peer-small peer now e h = ground (
  arith,
  length-update_first (peer_at peer) (λ p. (peer, now)) e.peers,
  drop_oldest_peer-less e.peers,
)

abbrev IsSmall : PeerEntry → Type 0
IsSmall e = length e.peers ≤ 500

drop_oldest_entry-less :
    (es : List PeerEntry) (s : PeerStorage)
    → 0 < length es
    → All IsSmall es
    → (length (drop_oldest_entry es s).entries < length es)
      × All IsSmall (drop_oldest_entry es s).entries
unfolding drop_oldest_entry
drop_oldest_entry-less [] s h al = absurd (omega arith)
drop_oldest_entry-less (e ∷ es) s h al =
    let oldest = oldest_entry e es in
    (
      length-keep-any (entry_at oldest.infohash) (e ∷ es) (oldest_entry-here e es),
      All-keep IsSmall (λ d. not (entry_at oldest.infohash d)) (e ∷ es) al,
    )

ensure_entry-IsRoomy :
    (infohash : NodeId) (s : PeerStorage) → IsRoomy s → IsRoomy (ensure_entry infohash s)
unfolding ensure_entry
ensure_entry-IsRoomy infohash s h = elim (Bool-cases (any (entry_at infohash) s.entries)) [
  | inl there ↦ rw there h
  | inr new ↦ elim (Bool-cases (leb 5000 (length s.entries))) [
    | inl full ↦
        let room = drop_oldest_entry-less s.entries s (ground arith) h.small in
        rw (new, full)
          (record { few = omega (arith, h.few, room.0); small = (omega arith, room.1) })
    | inr free ↦ rw (new, free) (record { few = ground arith; small = (omega arith, h.small) })
  ]
]

announce-IsRoomy :
    (infohash : NodeId) (peer : Endpoint) (now : ℕ) (s : PeerStorage)
    → IsRoomy s
    → IsRoomy (announce infohash peer now s)
unfolding announce
announce-IsRoomy infohash peer now s h =
    let t = ensure_entry infohash s in
    let room = ensure_entry-IsRoomy infohash s h in
    record {
      few =
          omega (
            arith,
            room.few,
            length-update_first (entry_at infohash) (put_peer peer now) t.entries,
          );
      small =
          All-update_first IsSmall (entry_at infohash) (put_peer peer now) t.entries
            (put_peer-small peer now) room.small;
    }

length-map_entry : (f : PeerEntry → PeerEntry) (es : List PeerEntry) → length (map f es) ≡ length es
length-map_entry f [] = refl
length-map_entry f (e ∷ es) = omega (arith, length-map_entry f es)

expired-IsSmall :
    (now : ℕ) (es : List PeerEntry) → All IsSmall es → All IsSmall (map (expire_entry now) es)
unfolding expire_entry
expired-IsSmall now [] al = tt
expired-IsSmall now (e ∷ es) al =
    (omega (arith, al.0, length-keep-le (is_live now) e.peers), expired-IsSmall now es al.1)

expire-IsRoomy : (now : ℕ) (s : PeerStorage) → IsRoomy s → IsRoomy (expire now s)
unfolding expire
expire-IsRoomy now s h =
    let es = map (expire_entry now) s.entries in
    record {
      few = omega (
        arith,
        h.few,
        length-keep-le (λ (e : PeerEntry). not (is_empty e.peers)) es,
        length-map_entry (expire_entry now) s.entries,
      );
      small =
          All-keep IsSmall (λ e. not (is_empty e.peers)) es (expired-IsSmall now s.entries h.small);
    }

call_peer-IsRoomy : (c : PeerCall) (s : PeerStorage) → IsRoomy s → IsRoomy (call_peer c s)
unfolding call_peer
call_peer-IsRoomy (announce_peer infohash peer now) s h = announce-IsRoomy infohash peer now s h
call_peer-IsRoomy (expire_peers now) s h = expire-IsRoomy now s h
call_peer-IsRoomy clear_peers s h = record { few = omega arith; small = tt }

-- A peer storage that holds at most 5000 infohashes with at most 500 peers each, as an empty one does,
-- still does after any announcements, expiries and clearings.
pub call_peers-IsRoomy :
    (cs : List PeerCall) (s : PeerStorage) → IsRoomy s → IsRoomy (call_peers cs s)
unfolding call_peers
call_peers-IsRoomy [] s h = h
call_peers-IsRoomy (c ∷ cs) s h = call_peers-IsRoomy cs (call_peer c s) (call_peer-IsRoomy c s h)
