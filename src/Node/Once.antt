-- ===== src/Node/Once.antt =====
-- dhtcore/src/DhtNode.cpp: a query that is let through is answered once.
use dhtinspector.Common.{
  ℕ, ◌+◌, ◌≡◌, ◌⊎◌, refl, ap, ◌∙◌, Bool, true, false, ◌||◌, inl, inr, Option, none, some, List, ◌∷◌,
  bytes_eq, if◌then◌else◌, Bool-cases, arith,
}
use dhtinspector.NodeId.{NodeId, id_eq}
use dhtinspector.Endpoint.{Endpoint, make_endpoint}
use dhtinspector.Bencode.{Fields, end, string_at, integer_at}
use dhtinspector.Krpc.{Message, encode_error, sender_id}
use dhtinspector.RoutingTable.Insert.{queried_by}
use dhtinspector.Bep44.{immutable_target}
use dhtinspector.Storage.Items.{put_immutable, put_mutable}
use dhtinspector.Storage.Peers.{announce}
use dhtinspector.Storage.Limits.{Double, allow}
use dhtinspector.Node.State.{
  DhtNode, World, socket, send_datagram, response_bytes, send_response, send_error,
}
use dhtinspector.Node.Find.{nodes_for}
use dhtinspector.Node.Peers.{
  id_at, new_token, check_token, complain, peers_values, sample_values, peers_answer, get_peers_for,
  handle_get_peers, announced_port, announce_at, announce_checked, announce_for, handle_announce,
  samples_for, handle_sample,
}
use dhtinspector.Node.Items.{
  PutOrder, turn_down, keep_value, keep_item, put_order, get_values, get_answer, get_for,
  handle_get, answer_put, put_problem, carry_out, put_checked, handle_put,
}
use dhtinspector.Node.Incoming.{
  note_sender, find_node_for, answer, note_inbound, query_from, query_counted, query_allowed,
  handle_query,
}
use dhtinspector.Node.Words.{
  word_cas, word_ping, word_token, word_info_hash, word_target, word_find_node, word_get_peers,
  word_announce_peer, word_get, word_put, word_sample_infohashes, text_missing_id,
  text_method_unknown, code_unknown_method, code_protocol_error,
}
use dhtinspector.Node.Kept.{Kept, response_bytes-same, note_known-Kept}

-- A response or an error under the query's transaction id.
abbrev pub IsAnswer : {d : Double} → Message → Endpoint → DhtNode d → List ℕ → Type 0
IsAnswer message from n bytes =
    ((values : Fields) × (bytes ≡ response_bytes message from values n))
    ⊎ ((code : ℕ) × (text : List ℕ) × (bytes
          ≡ encode_error message.transaction_id code text n.config.version))

module _ {d : Double} (w : World) (message : Message) (from : Endpoint)
    (takes_all : (bytes : List ℕ) (to : Endpoint) → w.taken bytes to ≡ true) where
  abbrev Once : DhtNode d → DhtNode d → Type 0
  Once n m = (bytes : List ℕ) × (m.sent ≡ (bytes, from) ∷ n.sent) × IsAnswer message from n bytes

  pub send_datagram-sent :
      (bytes : List ℕ) (n m : DhtNode d)
      → Kept n m
      → (send_datagram w bytes from m).sent ≡ (bytes, from) ∷ n.sent
  unfolding send_datagram socket
  send_datagram-sent bytes n m k =
      let ready : socket w m.bound bytes from ≡ true = rw (k.bound, takes_all bytes from) refl in
      rw ready (ap (λ s. (bytes, from) ∷ s) k.sent)

  send_response-Once :
      (values : Fields) (n m : DhtNode d)
      → Kept n m
      → Once n (send_response w message from values m)
  unfolding send_response
  send_response-Once values n m k =
      let same = response_bytes-same message from values n m k in
      (
        response_bytes message from values n,
        send_datagram-sent (response_bytes message from values m) n m k
            ∙ ap (λ b. (b, from) ∷ n.sent) same,
        inl (values, refl),
      )

  send_error-Once :
      (code : ℕ) (text : List ℕ) (n m : DhtNode d)
      → Kept n m
      → Once n (send_error w message.transaction_id from code text m)
  unfolding send_error
  send_error-Once code text n m k =
      let same : encode_error message.transaction_id code text m.config.version
          ≡ encode_error message.transaction_id code text n.config.version =
        ap (λ c. encode_error message.transaction_id code text c.version) k.config in
      (
        encode_error message.transaction_id code text n.config.version,
        send_datagram-sent (encode_error message.transaction_id code text m.config.version) n m k
            ∙ ap (λ b. (b, from) ∷ n.sent) same,
        inr (code, text, refl),
      )

  peers_answer-Once :
      (infohash : NodeId) (r : List ℕ × DhtNode d) (n : DhtNode d)
      → Kept n r.1
      → Once n (peers_answer w message from infohash r)
  unfolding peers_answer
  peers_answer-Once infohash (token, m) n k =
      send_response-Once (peers_values w message infohash token m) n m k

  -- Rotating the secrets of the tokens changes nothing that an answer depends on.
  pub new_token-Kept : (now : ℕ) (n m : DhtNode d) → Kept n m → Kept n (new_token w from now m).1
  unfolding new_token
  new_token-Kept now n m k = record { sent = k.sent; config = k.config; id = k.id; bound = k.bound }

  check_token-Kept :
      (token : Option (List ℕ)) (now : ℕ) (n m : DhtNode d)
      → Kept n m
      → Kept n (check_token w token from now m).1
  unfolding check_token
  check_token-Kept none now n m k = k
  check_token-Kept (some token) now n m k = record {
    sent = k.sent;
    config = k.config;
    id = k.id;
    bound = k.bound;
  }

  get_peers_for-Once :
      (now : ℕ) (o : Option NodeId) (n m : DhtNode d)
      → Kept n m
      → Once n (get_peers_for w message from now o m)
  unfolding get_peers_for complain
  get_peers_for-Once now none n m k = send_error-Once _ _ n m k
  get_peers_for-Once now (some infohash) n m k =
      peers_answer-Once infohash (new_token w from now m) n (new_token-Kept now n m k)

  announce_at-Once :
      (now : ℕ) (infohash : NodeId) (o : Option ℕ) (n m : DhtNode d)
      → Kept n m
      → Once n (announce_at w message from now infohash o m)
  unfolding announce_at complain
  announce_at-Once now infohash none n m k = send_error-Once _ _ n m k
  announce_at-Once now infohash (some port) n m k =
      send_response-Once end n
        (record m {
          storage = announce infohash (make_endpoint w.api from.address port) now m.storage;
        })
        (record { sent = k.sent; config = k.config; id = k.id; bound = k.bound })

  announce_checked-Once :
      (now : ℕ) (infohash : NodeId) (r : Bool × DhtNode d) (n : DhtNode d)
      → Kept n r.1
      → Once n (announce_checked w message from now infohash r)
  unfolding announce_checked complain
  announce_checked-Once now infohash (true, m) n k =
      announce_at-Once now infohash (announced_port message.body from) n m k
  announce_checked-Once now infohash (false, m) n k = send_error-Once _ _ n m k

  announce_for-Once :
      (now : ℕ) (o : Option NodeId) (n m : DhtNode d)
      → Kept n m
      → Once n (announce_for w message from now o m)
  unfolding announce_for complain
  announce_for-Once now none n m k = send_error-Once _ _ n m k
  announce_for-Once now (some infohash) n m k =
      announce_checked-Once now infohash _ n
        (check_token-Kept (string_at word_token message.body) now n m k)

  samples_for-Once :
      (o : Option NodeId) (n m : DhtNode d) → Kept n m → Once n (samples_for w message from o m)
  unfolding samples_for complain
  samples_for-Once none n m k = send_error-Once _ _ n m k
  samples_for-Once (some target) n m k = send_response-Once (sample_values w message target m) n m k

  get_answer-Once :
      (target : NodeId) (r : List ℕ × DhtNode d) (n : DhtNode d)
      → Kept n r.1
      → Once n (get_answer w message from target r)
  unfolding get_answer
  get_answer-Once target (token, m) n k =
      send_response-Once (get_values w message target token m) n m k

  get_for-Once :
      (now : ℕ) (o : Option NodeId) (n m : DhtNode d)
      → Kept n m
      → Once n (get_for w message from now o m)
  unfolding get_for complain
  get_for-Once now none n m k = send_error-Once _ _ n m k
  get_for-Once now (some target) n m k =
      get_answer-Once target (new_token w from now m) n (new_token-Kept now n m k)

  answer_put-Once :
      (o : Option (ℕ × List ℕ)) (n m : DhtNode d)
      → Kept n m
      → Once n (answer_put w message from o m)
  unfolding answer_put
  answer_put-Once none n m k = send_response-Once end n m k
  answer_put-Once (some (code, text)) n m k = send_error-Once code text n m k

  carry_out-Once :
      (now : ℕ) (order : PutOrder) (n m : DhtNode d)
      → Kept n m
      → Once n (carry_out w message from now order m)
  unfolding carry_out
  carry_out-Once now (turn_down code text) n m k = send_error-Once code text n m k
  carry_out-Once now (keep_value raw) n m k =
      send_response-Once end n
        (record m { items = (put_immutable (immutable_target w.crypto raw) raw now m.items).1 })
        (record { sent = k.sent; config = k.config; id = k.id; bound = k.bound })
  carry_out-Once now (keep_item item) n m k =
      answer_put-Once
        (put_problem (put_mutable item (integer_at word_cas message.body) now m.items).0) n
        (record m { items = (put_mutable item (integer_at word_cas message.body) now m.items).1 })
        (record { sent = k.sent; config = k.config; id = k.id; bound = k.bound })

  put_checked-Once :
      (datagram : List ℕ) (now : ℕ) (r : Bool × DhtNode d) (n : DhtNode d)
      → Kept n r.1
      → Once n (put_checked w message from datagram now r)
  unfolding put_checked complain
  put_checked-Once datagram now (true, m) n k =
      carry_out-Once now (put_order w.crypto message.body datagram) n m k
  put_checked-Once datagram now (false, m) n k = send_error-Once _ _ n m k

  find_node_for-Once :
      (o : Option NodeId) (n m : DhtNode d) → Kept n m → Once n (find_node_for w message from o m)
  unfolding find_node_for complain
  find_node_for-Once none n m k = send_error-Once _ _ n m k
  find_node_for-Once (some target) n m k =
      send_response-Once (nodes_for w target message.body m) n m k

  -- The methods one after the other.
  pick : (c : Bool) (n x y : DhtNode d) → Once n x → Once n y → Once n (if c then x else y)
  pick true n x y p q = p
  pick false n x y p q = q

  answer-Once :
      (datagram : List ℕ) (now : ℕ) (n m : DhtNode d)
      → Kept n m
      → Once n (answer w message from datagram now m)
  unfolding answer handle_get_peers handle_announce handle_sample handle_get handle_put
  answer-Once datagram now n m k =
      pick (bytes_eq message.method word_ping) n _ _ (send_response-Once end n m k) (
        pick (bytes_eq message.method word_find_node) n _ _
          (find_node_for-Once (id_at word_target message.body) n m k)
          (pick (bytes_eq message.method word_get_peers) n _ _
            (get_peers_for-Once now (id_at word_info_hash message.body) n m k)
            (pick (bytes_eq message.method word_announce_peer) n _ _
              (announce_for-Once now (id_at word_info_hash message.body) n m k)
              (pick (bytes_eq message.method word_get) n _ _
                (get_for-Once now (id_at word_target message.body) n m k)
                (pick (bytes_eq message.method word_sample_infohashes) n _ _
                  (samples_for-Once (id_at word_target message.body) n m k)
                  (pick (bytes_eq message.method word_put) n _ _
                    (put_checked-Once datagram now _ n
                      (check_token-Kept (string_at word_token message.body) now n m k))
                    (send_error-Once code_unknown_method text_method_unknown n m k)))))))

  note_sender-Kept :
      (id : NodeId) (now : ℕ) (n m : DhtNode d)
      → Kept n m
      → Kept n (note_sender w id message from now m)
  unfolding note_sender
  note_sender-Kept id now n m k = elim (Bool-cases (message.read_only || id_eq id m.id)) [
    | inl b ↦ rw b k
    | inr b ↦ rw b (note_known-Kept w id from now (queried_by id from now m.table) n m k)
  ]

  query_from-Once :
      (datagram : List ℕ) (now : ℕ) (o : Option NodeId) (n m : DhtNode d)
      → Kept n m
      → Once n (query_from w message from datagram now o m)
  unfolding query_from complain
  query_from-Once datagram now none n m k =
      send_error-Once code_protocol_error text_missing_id n m k
  query_from-Once datagram now (some id) n m k =
      answer-Once datagram now n (note_sender w id message from now m)
        (note_sender-Kept id now n m k)

  query_counted-Once :
      (datagram : List ℕ) (now : ℕ) (read_only : Bool) (n m : DhtNode d)
      → read_only ≡ false
      → Kept n m
      → Once n (query_counted w message from datagram now read_only m)
  unfolding query_counted
  query_counted-Once datagram now true n m serving k = absurd (ground arith)
  query_counted-Once datagram now false n m serving k =
      query_from-Once datagram now (sender_id message) n m k

  query_allowed-Once :
      (datagram : List ℕ) (now : ℕ) (allowed : Bool) (n m : DhtNode d)
      → allowed ≡ true
      → m.config.read_only ≡ false
      → Kept n m
      → Once n (query_allowed w message from datagram now allowed m)
  unfolding query_allowed
  query_allowed-Once datagram now true n m within serving k =
      query_counted-Once datagram now m.config.read_only n
        (record m { stats = record (m.stats) { queries_in = m.stats.queries_in + 1 } }) serving
        (record { sent = k.sent; config = k.config; id = k.id; bound = k.bound })
  query_allowed-Once datagram now false n m within serving k = absurd (ground arith)

  -- A query from a host that is within its limit, at a node that is bound and not read-only and whose
  -- datagrams are all taken, is answered by exactly one datagram that goes to where the query came
  -- from: a response or an error under the query's transaction id. (A ping that goes out to learn of
  -- the sender goes through the RPC manager.)
  pub handle_query-once :
      (datagram : List ℕ) (now : ℕ) (n : DhtNode d)
      → n.bound ≡ true
      → n.config.read_only ≡ false
      → (allow from.address now n.limiter).0 ≡ true
      → (bytes : List ℕ) × ((handle_query w message from datagram now n).sent
          ≡ (bytes, from) ∷ n.sent)
        × IsAnswer message from n bytes
  unfolding handle_query
  handle_query-once datagram now n bound serving allowed =
      query_allowed-Once datagram now (allow from.address now n.limiter).0 n
        (record n {
          inbound = note_inbound from message n.inbound;
          limiter = (allow from.address now n.limiter).1;
        })
        allowed serving (record { sent = refl; config = refl; id = refl; bound = bound })
