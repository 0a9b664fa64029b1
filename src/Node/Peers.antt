-- ===== src/Node/Peers.antt =====
-- dhtcore/src/DhtNode.cpp: the answers to get_peers, announce_peer and sample_infohashes.
use dhtinspector.Common.{
  ℕ, zero, suc, ◌+◌, ◌-◌, Bool, true, false, ◌||◌, Option, none, some, List, [], ◌∷◌, ◌++◌, map,
  keep, take, first, get_or, set, ltb, ◌==◌, length, if◌then◌else◌,
}
use dhtinspector.Common.Ints.{ℤ, pos, negsuc}
use dhtinspector.NodeId.{NodeId, from_bytes}
use dhtinspector.Endpoint.{
  HostApi, Endpoint, Family, family_of, family_eq, make_endpoint, to_compact, null,
}
use dhtinspector.Bencode.{
  BValue, Items, Fields, built, string, integer, list, end, nil, cons, string_at, integer_at,
}
use dhtinspector.Krpc.{Message}
use dhtinspector.Storage.Tokens
use dhtinspector.Storage.Peers.{PeerStorage, PeerEntry, entry_at, announce}
use dhtinspector.Storage.Limits.{Double}
use dhtinspector.Node.State.{DhtNode, World, send_response, send_error}
use dhtinspector.Node.Find.{nodes_for}
use dhtinspector.Node.Words.{
  word_implied_port, word_port, word_values, word_token, word_info_hash, word_target, word_samples,
  word_num, word_interval, text_missing_infohash, text_missing_target, text_invalid_token,
  text_invalid_port, code_protocol_error, assign,
}

unfoldable pub or_empty : Option (List ℕ) → List ℕ
or_empty none = []
or_empty (some b) = b

-- An id among the arguments.
unfoldable pub id_at : List ℕ → BValue → Option NodeId
unfolding or_empty
id_at key arguments = from_bytes (or_empty (string_at key arguments))

-- PeerStorage::peers: the peers of a family.
family_peers : HostApi → Family → List (Endpoint × ℕ) → List Endpoint
family_peers api family ps =
    map (λ p. p.0) (keep (λ p. family_eq (family_of api p.0.address) family) ps)

peers_at : HostApi → Family → Option PeerEntry → List Endpoint
unfolding family_peers
peers_at api family none = []
peers_at api family (some e) = family_peers api family e.peers

no_endpoint : Endpoint
no_endpoint = record { address = null; port = 0 }

-- The rounds of the shuffle, from round i: out[i] and out[j] change places.
shuffle_from : (ℕ → ℕ → ℕ) → ℕ → ℕ → List Endpoint → List Endpoint
unfolding no_endpoint
shuffle_from draw zero i out = out
shuffle_from draw (suc rounds) i out =
    let j = i + draw i (length out - i) in
    shuffle_from draw rounds (suc i)
      (set (set out i (get_or out j no_endpoint)) j (get_or out i no_endpoint))

unfoldable pub stored_peers :
    HostApi → (ℕ → ℕ → ℕ) → NodeId → Family → ℕ → PeerStorage → List Endpoint
unfolding peers_at shuffle_from
stored_peers api draw infohash family most s =
    let out = peers_at api family (first (entry_at infohash) s.entries) in
    if ltb most (length out) then take most (shuffle_from draw most 0 out) else out

-- PeerStorage::sampleInfohashes.
unfoldable pub sample_infohashes : (List NodeId → List NodeId) → ℕ → PeerStorage → List NodeId
sample_infohashes shuffle most s =
    take most (shuffle (map (λ (e : PeerEntry). e.infohash) s.entries))

abbrev pub max_samples : ℕ
max_samples = 20

abbrev pub sample_interval_seconds : ℕ
sample_interval_seconds = 21600

most_peers : Family → ℕ
most_peers Family.ipv4_family = 100
most_peers Family.ipv6_family = 50

compact_items : List Endpoint → Items
compact_items [] = nil
compact_items (e ∷ es) = cons (built (string (to_compact e))) (compact_items es)

-- "values", if there are any.
unfoldable pub add_values : List Endpoint → Fields → Fields
unfolding compact_items assign
add_values [] values = values
add_values (e ∷ es) values = assign word_values (built (list (compact_items (e ∷ es)))) values

concat_ids : List NodeId → List ℕ
concat_ids [] = []
concat_ids (id ∷ ids) = id ++ concat_ids ids

unfoldable pub is_implied : Option ℤ → Bool
is_implied (some (pos n)) = n == 1
is_implied _ = false

unfoldable pub or_zero : Option ℤ → ℤ
or_zero none = pos 0
or_zero (some n) = n

-- The port that is announced, if it is one.
unfoldable pub announced_port : BValue → Endpoint → Option ℕ
unfolding is_implied or_zero
announced_port arguments from =
    elim (if is_implied (integer_at word_implied_port arguments)
      then pos from.port
      else or_zero (integer_at word_port arguments)) [
        | pos port ↦ if ltb port 1 || ltb 65535 port then none else some port
        | negsuc k ↦ none
      ]

module _ {d : Double} where
  -- m_tokens.generate and validate, which keep the rotated secrets.
  unfoldable pub new_token : World → Endpoint → ℕ → DhtNode d → List ℕ × DhtNode d
  new_token w from now n =
      let r = Tokens.generate w.api w.crypto w.secrets from.address now n.tokens in
      (r.0, record n { tokens = r.1 })

  unfoldable pub check_token : World → Option (List ℕ) → Endpoint → ℕ → DhtNode d → Bool × DhtNode d
  check_token w none from now n = (false, n)
  check_token w (some token) from now n =
      let r = Tokens.validate w.api w.crypto w.secrets token from.address now n.tokens in
      (r.0, record n { tokens = r.1 })

  unfoldable pub complain : World → Message → Endpoint → List ℕ → DhtNode d → DhtNode d
  unfolding send_error
  complain w message from text n =
      send_error w message.transaction_id from code_protocol_error text n

  unfoldable pub peers_values : World → Message → NodeId → List ℕ → DhtNode d → Fields
  unfolding add_values most_peers stored_peers assign
  peers_values w message infohash token n =
      add_values
        (stored_peers w.api w.draw infohash n.config.family (most_peers n.config.family) n.storage)
        (assign word_token (built (string token)) (nodes_for w infohash message.body n))

  unfoldable pub peers_answer : World → Message → Endpoint → NodeId → List ℕ × DhtNode d → DhtNode d
  unfolding peers_values send_response
  peers_answer w message from infohash (token, n) =
      send_response w message from (peers_values w message infohash token n) n

  unfoldable pub get_peers_for :
      World → Message → Endpoint → ℕ → Option NodeId → DhtNode d → DhtNode d
  unfolding complain peers_answer new_token
  get_peers_for w message from now none n = complain w message from text_missing_infohash n
  get_peers_for w message from now (some infohash) n =
      peers_answer w message from infohash (new_token w from now n)

  unfoldable pub handle_get_peers : World → Message → Endpoint → ℕ → DhtNode d → DhtNode d
  unfolding get_peers_for id_at
  handle_get_peers w message from now n =
      get_peers_for w message from now (id_at word_info_hash message.body) n

  unfoldable pub announce_at :
      World → Message → Endpoint → ℕ → NodeId → Option ℕ → DhtNode d → DhtNode d
  unfolding complain send_response
  announce_at w message from now infohash none n = complain w message from text_invalid_port n
  announce_at w message from now infohash (some port) n =
      send_response w message from end (record n {
        storage = announce infohash (make_endpoint w.api from.address port) now n.storage;
      })

  unfoldable pub announce_checked :
      World → Message → Endpoint → ℕ → NodeId → Bool × DhtNode d → DhtNode d
  unfolding complain announce_at announced_port
  announce_checked w message from now infohash (false, n) =
      complain w message from text_invalid_token n
  announce_checked w message from now infohash (true, n) =
      announce_at w message from now infohash (announced_port message.body from) n

  unfoldable pub announce_for :
      World → Message → Endpoint → ℕ → Option NodeId → DhtNode d → DhtNode d
  unfolding complain announce_checked check_token
  announce_for w message from now none n = complain w message from text_missing_infohash n
  announce_for w message from now (some infohash) n =
      announce_checked w message from now infohash
        (check_token w (string_at word_token message.body) from now n)

  unfoldable pub handle_announce : World → Message → Endpoint → ℕ → DhtNode d → DhtNode d
  unfolding announce_for id_at
  handle_announce w message from now n =
      announce_for w message from now (id_at word_info_hash message.body) n

  unfoldable pub sample_values : World → Message → NodeId → DhtNode d → Fields
  unfolding assign sample_infohashes concat_ids
  sample_values w message target n =
      assign word_interval (built (integer (pos sample_interval_seconds))) (
        assign word_num (built (integer (pos (length n.storage.entries)))) (
          assign word_samples
            (built (string (concat_ids (sample_infohashes w.shuffle max_samples n.storage))))
            (nodes_for w target message.body n)))

  unfoldable pub samples_for : World → Message → Endpoint → Option NodeId → DhtNode d → DhtNode d
  unfolding complain send_response sample_values
  samples_for w message from none n = complain w message from text_missing_target n
  samples_for w message from (some target) n =
      send_response w message from (sample_values w message target n) n

  unfoldable pub handle_sample : World → Message → Endpoint → DhtNode d → DhtNode d
  unfolding samples_for id_at
  handle_sample w message from n = samples_for w message from (id_at word_target message.body) n
