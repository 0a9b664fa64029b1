-- ===== src/Node/Effects.antt =====
-- dhtcore/src/DhtNode.cpp: the changes a query can make to what the node stores, for any property of it
-- that they keep.
use dhtinspector.Common.{
  ℕ, ◌+◌, ◌≡◌, refl, sym, Bool, true, false, ◌||◌, inl, inr, Option, none, some, List, bytes_eq,
  if◌then◌else◌, Bool-cases,
}
use dhtinspector.Common.Ints.{ℤ}
use dhtinspector.NodeId.{NodeId, id_eq}
use dhtinspector.Endpoint.{Endpoint, make_endpoint}
use dhtinspector.Bencode.{Fields, end, string_at, integer_at}
use dhtinspector.Krpc.{Message, encode_error, sender_id}
use dhtinspector.RoutingTable.{RoutingTable}
use dhtinspector.RoutingTable.Insert.{queried_by}
use dhtinspector.Bep44.{immutable_target}
use dhtinspector.Storage.Items.{MutableItem, ItemStorage, put_immutable, put_mutable}
use dhtinspector.Storage.Peers.{PeerStorage, announce}
use dhtinspector.Storage.Limits.{Double, allow}
use dhtinspector.Rpc.Manager.{RpcManager}
use dhtinspector.Node.State.{
  DhtNode, World, socket, send_datagram, query_through, send_query, response_bytes, send_response,
  send_error, should_verify, insert_verification, default_timeout_ms, maybe_verify,
}
use dhtinspector.Node.Find.{nodes_for}
use dhtinspector.Node.Peers.{
  id_at, new_token, check_token, complain, peers_values, sample_values, peers_answer, get_peers_for,
  handle_get_peers, announced_port, announce_at, announce_checked, announce_for, handle_announce,
  samples_for, handle_sample,
}
use dhtinspector.Node.Items.{
  PutOrder, turn_down, keep_value, keep_item, put_order, get_values, get_answer, get_for,
  handle_get, answer_put, put_problem, carry_out, put_checked, handle_put,
}
use dhtinspector.Node.Incoming.{
  note_inbound, note_known, note_sender, find_node_for, answer, query_from, query_counted,
  query_allowed, handle_query,
}
use dhtinspector.Node.Words.{
  word_cas, word_ping, word_token, word_info_hash, word_target, word_find_node, word_get_peers,
  word_announce_peer, word_get, word_put, word_sample_infohashes, text_missing_id,
  text_missing_target, text_missing_infohash, text_invalid_token, text_invalid_port,
  text_method_unknown, code_unknown_method, code_protocol_error,
}

-- The token of the query is one that the node made for its address.
abbrev pub token_is_good : {d : Double} → World → Message → Endpoint → ℕ → DhtNode d → Bool
token_is_good w message from now n =
    (check_token w (string_at word_token message.body) from now n).0

module _ {d : Double} (w : World) (message : Message) (from : Endpoint) (datagram : List ℕ)
    (now : ℕ) (n : DhtNode d) (P : PeerStorage → ItemStorage → RoutingTable → Type 0)
    (announced : (infohash : NodeId) (port : ℕ) (s : PeerStorage) (i : ItemStorage)
        (t : RoutingTable)
      → token_is_good w message from now n ≡ true
      → P s i t
      → P (announce infohash (make_endpoint w.api from.address port) now s) i t)
    (kept_value : (raw : List ℕ) (s : PeerStorage) (i : ItemStorage) (t : RoutingTable)
      → token_is_good w message from now n ≡ true
      → put_order w.crypto message.body datagram ≡ keep_value raw
      → P s i t
      → P s (put_immutable (immutable_target w.crypto raw) raw now i).1 t)
    (kept_item : (item : MutableItem) (cas : Option ℤ) (s : PeerStorage) (i : ItemStorage)
        (t : RoutingTable)
      → token_is_good w message from now n ≡ true
      → put_order w.crypto message.body datagram ≡ keep_item item
      → P s i t
      → P s (put_mutable item cas now i).1 t)
    (noted : (id : NodeId) (s : PeerStorage) (i : ItemStorage) (t : RoutingTable)
      → P s i t
      → P s i (queried_by id from now t).1) where
  abbrev Holds : DhtNode d → Type 0
  Holds m = P m.storage m.items m.table

  -- Nothing was done to the tokens yet.
  abbrev Ready : DhtNode d → Type 0
  Ready m = (m.tokens ≡ n.tokens) × P m.storage m.items m.table

  send_datagram-Holds :
      (bytes : List ℕ) (to : Endpoint) (m : DhtNode d)
      → Holds m
      → Holds (send_datagram w bytes to m)
  unfolding send_datagram
  send_datagram-Holds bytes to m h = elim (Bool-cases (socket w m.bound bytes to)) [
    | inl b ↦ rw b h
    | inr b ↦ rw b h
  ]

  send_response-Holds :
      (values : Fields) (m : DhtNode d) → Holds m → Holds (send_response w message from values m)
  unfolding send_response
  send_response-Holds values m h =
      send_datagram-Holds (response_bytes message from values m) from m h

  send_error-Holds :
      (tid : List ℕ) (code : ℕ) (text : List ℕ) (m : DhtNode d)
      → Holds m
      → Holds (send_error w tid from code text m)
  unfolding send_error
  send_error-Holds tid code text m h =
      send_datagram-Holds (encode_error tid code text m.config.version) from m h

  complain-Holds :
      (text : List ℕ) (m : DhtNode d) → Holds m → Holds (complain w message from text m)
  unfolding complain
  complain-Holds text m h = send_error-Holds message.transaction_id code_protocol_error text m h

  query_through-Ready :
      (to : Endpoint) (method : List ℕ) (arguments : Fields) (callback : Option ℕ) (timeout : ℕ)
      (on_sent : Option ℕ) (o : Option (RpcManager d)) (m : DhtNode d)
      → Ready m
      → Ready (query_through w to method arguments callback timeout on_sent now o m)
  unfolding query_through
  query_through-Ready to method arguments callback timeout on_sent none m h = h
  query_through-Ready to method arguments callback timeout on_sent (some rpc) m h = h

  note_known-Ready :
      (id : NodeId) (r : Bool × RoutingTable) (m : DhtNode d)
      → Ready (record m { table = r.1 })
      → Ready (note_known w id from now r m)
  unfolding note_known maybe_verify send_query
  note_known-Ready id (true, t) m h = h
  note_known-Ready id (false, t) m h =
      let k : DhtNode d = record m { table = t } in
      elim (Bool-cases (should_verify w id from now k)) [
        | inl b ↦ rw b (
            query_through-Ready from word_ping end none default_timeout_ms none m.rpc
              (record k { verifications = insert_verification from now m.verifications }) h)
        | inr b ↦ rw b h
      ]

  note_sender-Ready :
      (id : NodeId) (m : DhtNode d) → Ready m → Ready (note_sender w id message from now m)
  unfolding note_sender
  note_sender-Ready id m h = elim (Bool-cases (message.read_only || id_eq id m.id)) [
    | inl b ↦ rw b h
    | inr b ↦ rw b (
        note_known-Ready id (queried_by id from now m.table) m
          (h.0, noted id m.storage m.items m.table h.1))
  ]

  -- The token's check, and what stands after it.
  check_token-same :
      (o : Option (List ℕ)) (m : DhtNode d)
      → m.tokens ≡ n.tokens
      → (check_token w o from now m).0 ≡ (check_token w o from now n).0
  unfolding check_token
  check_token-same none m same = refl
  check_token-same (some token) m same = rw same refl

  check_token-Holds :
      (o : Option (List ℕ)) (m : DhtNode d) → Holds m → Holds (check_token w o from now m).1
  unfolding check_token
  check_token-Holds none m h = h
  check_token-Holds (some token) m h = h

  announce_at-Holds :
      (infohash : NodeId) (o : Option ℕ) (m : DhtNode d)
      → token_is_good w message from now n ≡ true
      → Holds m
      → Holds (announce_at w message from now infohash o m)
  unfolding announce_at
  announce_at-Holds infohash none m good h = complain-Holds text_invalid_port m h
  announce_at-Holds infohash (some port) m good h =
      send_response-Holds end
        (record m {
          storage = announce infohash (make_endpoint w.api from.address port) now m.storage;
        })
        (announced infohash port m.storage m.items m.table good h)

  announce_checked-Holds :
      (infohash : NodeId) (r : Bool × DhtNode d)
      → r.0 ≡ token_is_good w message from now n
      → Holds r.1
      → Holds (announce_checked w message from now infohash r)
  unfolding announce_checked
  announce_checked-Holds infohash (true, m) same h =
      announce_at-Holds infohash (announced_port message.body from) m (sym same) h
  announce_checked-Holds infohash (false, m) same h = complain-Holds text_invalid_token m h

  announce_for-Holds :
      (o : Option NodeId) (m : DhtNode d) → Ready m → Holds (announce_for w message from now o m)
  unfolding announce_for
  announce_for-Holds none m h = complain-Holds text_missing_infohash m h.1
  announce_for-Holds (some infohash) m h =
      let token = string_at word_token message.body in
      announce_checked-Holds infohash (check_token w token from now m)
        (check_token-same token m h.0) (check_token-Holds token m h.1)

  answer_put-Holds :
      (o : Option (ℕ × List ℕ)) (m : DhtNode d) → Holds m → Holds (answer_put w message from o m)
  unfolding answer_put
  answer_put-Holds none m h = send_response-Holds end m h
  answer_put-Holds (some (code, text)) m h = send_error-Holds message.transaction_id code text m h

  carry_out-Holds :
      (order : PutOrder) (m : DhtNode d)
      → token_is_good w message from now n ≡ true
      → put_order w.crypto message.body datagram ≡ order
      → Holds m
      → Holds (carry_out w message from now order m)
  unfolding carry_out
  carry_out-Holds (turn_down code text) m good is h =
      send_error-Holds message.transaction_id code text m h
  carry_out-Holds (keep_value raw) m good is h =
      send_response-Holds end
        (record m { items = (put_immutable (immutable_target w.crypto raw) raw now m.items).1 })
        (kept_value raw m.storage m.items m.table good is h)
  carry_out-Holds (keep_item item) m good is h =
      let cas = integer_at word_cas message.body in
      answer_put-Holds (put_problem (put_mutable item cas now m.items).0)
        (record m { items = (put_mutable item cas now m.items).1 })
        (kept_item item cas m.storage m.items m.table good is h)

  put_checked-Holds :
      (r : Bool × DhtNode d)
      → r.0 ≡ token_is_good w message from now n
      → Holds r.1
      → Holds (put_checked w message from datagram now r)
  unfolding put_checked
  put_checked-Holds (true, m) same h =
      carry_out-Holds (put_order w.crypto message.body datagram) m (sym same) refl h
  put_checked-Holds (false, m) same h = complain-Holds text_invalid_token m h

  get_peers_for-Holds :
      (o : Option NodeId) (m : DhtNode d) → Holds m → Holds (get_peers_for w message from now o m)
  unfolding get_peers_for new_token peers_answer
  get_peers_for-Holds none m h = complain-Holds text_missing_infohash m h
  get_peers_for-Holds (some infohash) m h =
      let r = new_token w from now m in
      send_response-Holds (peers_values w message infohash r.0 r.1) r.1 h

  get_for-Holds :
      (o : Option NodeId) (m : DhtNode d) → Holds m → Holds (get_for w message from now o m)
  unfolding get_for new_token get_answer
  get_for-Holds none m h = complain-Holds text_missing_target m h
  get_for-Holds (some target) m h =
      let r = new_token w from now m in
      send_response-Holds (get_values w message target r.0 r.1) r.1 h

  samples_for-Holds :
      (o : Option NodeId) (m : DhtNode d) → Holds m → Holds (samples_for w message from o m)
  unfolding samples_for
  samples_for-Holds none m h = complain-Holds text_missing_target m h
  samples_for-Holds (some target) m h = send_response-Holds (sample_values w message target m) m h

  find_node_for-Holds :
      (o : Option NodeId) (m : DhtNode d) → Holds m → Holds (find_node_for w message from o m)
  unfolding find_node_for
  find_node_for-Holds none m h = complain-Holds text_missing_target m h
  find_node_for-Holds (some target) m h =
      send_response-Holds (nodes_for w target message.body m) m h

  pick : (c : Bool) (x y : DhtNode d) → Holds x → Holds y → Holds (if c then x else y)
  pick true x y p q = p
  pick false x y p q = q

  answer-Holds : (m : DhtNode d) → Ready m → Holds (answer w message from datagram now m)
  unfolding answer handle_get_peers handle_announce handle_sample handle_get handle_put
  answer-Holds m h =
      let token = string_at word_token message.body in
      pick (bytes_eq message.method word_ping) _ _ (send_response-Holds end m h.1) (
        pick (bytes_eq message.method word_find_node) _ _
          (find_node_for-Holds (id_at word_target message.body) m h.1)
          (pick (bytes_eq message.method word_get_peers) _ _
            (get_peers_for-Holds (id_at word_info_hash message.body) m h.1)
            (pick (bytes_eq message.method word_announce_peer) _ _
              (announce_for-Holds (id_at word_info_hash message.body) m h)
              (pick (bytes_eq message.method word_get) _ _
                (get_for-Holds (id_at word_target message.body) m h.1)
                (pick (bytes_eq message.method word_sample_infohashes) _ _
                  (samples_for-Holds (id_at word_target message.body) m h.1)
                  (pick (bytes_eq message.method word_put) _ _
                    (put_checked-Holds (check_token w token from now m)
                      (check_token-same token m h.0) (check_token-Holds token m h.1))
                    (send_error-Holds message.transaction_id code_unknown_method text_method_unknown
                      m h.1)))))))

  query_from-Holds :
      (o : Option NodeId) (m : DhtNode d)
      → Ready m
      → Holds (query_from w message from datagram now o m)
  unfolding query_from
  query_from-Holds none m h = complain-Holds text_missing_id m h.1
  query_from-Holds (some id) m h =
      answer-Holds (note_sender w id message from now m) (note_sender-Ready id m h)

  query_counted-Holds :
      (read_only : Bool) (m : DhtNode d)
      → Ready m
      → Holds (query_counted w message from datagram now read_only m)
  unfolding query_counted
  query_counted-Holds true m h = h.1
  query_counted-Holds false m h = query_from-Holds (sender_id message) m h

  query_allowed-Holds :
      (allowed : Bool) (m : DhtNode d)
      → Ready m
      → Holds (query_allowed w message from datagram now allowed m)
  unfolding query_allowed
  query_allowed-Holds true m h =
      query_counted-Holds m.config.read_only
        (record m { stats = record (m.stats) { queries_in = m.stats.queries_in + 1 } }) h
  query_allowed-Holds false m h = h.1

  pub handle_query-Holds :
      P n.storage n.items n.table → Holds (handle_query w message from datagram now n)
  unfolding handle_query
  handle_query-Holds h =
      query_allowed-Holds (allow from.address now n.limiter).0
        (record n {
          inbound = note_inbound from message n.inbound;
          limiter = (allow from.address now n.limiter).1;
        })
        (refl, h)
