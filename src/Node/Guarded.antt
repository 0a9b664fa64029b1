-- ===== src/Node/Guarded.antt =====
-- dhtcore/src/DhtNode.cpp: who can store what at a node.
use dhtinspector.Common.{
  ℕ, ◌+◌, ◌≤◌, ◌≡◌, refl, subst, Bool, true, false, not, ◌&&◌, inl, inr, Option, none, some, List,
  [], ◌∷◌, ltb, ◌==◌, length, Bool-cases, arith,
}
use dhtinspector.Common.Ints.{ℤ}
use dhtinspector.Endpoint.{Endpoint}
use dhtinspector.Bencode.{BValue, find, string_at, integer_at}
use dhtinspector.Krpc.{Message}
use dhtinspector.Bep44.{Crypto, signing_buffer, verify}
use dhtinspector.Storage.Authentic.{
  IsSigned, IsAuthentic, put_immutable-IsAuthentic, put_mutable-IsAuthentic,
}
use dhtinspector.Storage.Limits.{Double, allow}
use dhtinspector.Node.State.{DhtNode, World}
use dhtinspector.Node.Items.{
  PutOrder, turn_down, keep_value, keep_item, signed_order, numbered_order, salted_order,
  keyed_order, raw_order, raw_value, put_order,
}
use dhtinspector.Node.Peers.{or_empty}
use dhtinspector.Node.Incoming.{note_inbound, query_counted, query_allowed, handle_query}
use dhtinspector.Node.Effects.{token_is_good, handle_query-Holds}
use dhtinspector.Node.Words.{word_k, word_seq, word_sig, word_salt, word_v}

-- A query whose token is not one of the node's for the address it comes from leaves the announced
-- peers and the stored items as they are, whatever else it holds.
pub handle_query-guarded :
    {d : Double} (w : World) (message : Message) (from : Endpoint) (datagram : List ℕ) (now : ℕ)
    (n : DhtNode d)
    → token_is_good w message from now n ≡ false
    → ((handle_query w message from datagram now n).storage ≡ n.storage)
      × ((handle_query w message from datagram now n).items ≡ n.items)
handle_query-guarded w message from datagram now n bad =
    handle_query-Holds w message from datagram now n (λ s i t. (s ≡ n.storage) × (i ≡ n.items))
      (λ infohash port s i t good h. absurd (ground arith))
      (λ raw s i t good is h. absurd (ground arith))
      (λ item cas s i t good is h. absurd (ground arith)) (λ id s i t h. h) (refl, refl)

-- An item that a put is to store is signed.
IsSound : Crypto → PutOrder → Type 0
IsSound crypto (turn_down code text) = Unit
IsSound crypto (keep_value raw) = Unit
IsSound crypto (keep_item item) = IsSigned crypto item

module _ (crypto : Crypto) where
  signed_order-IsSound :
      (raw key salt : List ℕ) (sequence : ℤ) (signature : List ℕ)
      → length raw ≤ 1000
      → length salt ≤ 64
      → IsSound crypto (signed_order crypto raw key salt sequence signature)
  unfolding signed_order IsSound
  signed_order-IsSound raw key salt sequence signature small short =
      elim (Bool-cases (verify crypto signature (signing_buffer salt sequence raw) key)) [
        | inl good ↦
            rw (good, IsSound)
              (record { target = refl; signed = good; small = small; short_salt = short })
        | inr bad ↦ rw (bad, IsSound) tt
      ]

  numbered_order-IsSound :
      (raw key salt : List ℕ) (sequence : Option ℤ) (signature : Option (List ℕ))
      → length raw ≤ 1000
      → length salt ≤ 64
      → IsSound crypto (numbered_order crypto raw key salt sequence signature)
  unfolding numbered_order IsSound
  numbered_order-IsSound raw key salt none signature small short = tt
  numbered_order-IsSound raw key salt (some sequence) none small short = tt
  numbered_order-IsSound raw key salt (some sequence) (some signature) small short =
      elim (Bool-cases (length signature == 64)) [
        | inl b ↦ rw (b, IsSound) (signed_order-IsSound raw key salt sequence signature small short)
        | inr b ↦ rw (b, IsSound) tt
      ]

  salted_order-IsSound :
      (arguments : BValue) (raw key salt : List ℕ)
      → length raw ≤ 1000
      → IsSound crypto (salted_order crypto arguments raw key salt)
  unfolding salted_order IsSound
  salted_order-IsSound arguments raw key salt small = elim (Bool-cases (ltb 64 (length salt))) [
    | inl b ↦ rw (b, IsSound) tt
    | inr b ↦
        rw (b, IsSound)
          (numbered_order-IsSound raw key salt (integer_at word_seq arguments)
            (string_at word_sig arguments) small (ground arith))
  ]

  keyed_order-IsSound :
      (arguments : BValue) (raw : List ℕ) (key : Option (List ℕ))
      → length raw ≤ 1000
      → IsSound crypto (keyed_order crypto arguments raw key)
  unfolding keyed_order IsSound
  keyed_order-IsSound arguments raw none small = tt
  keyed_order-IsSound arguments raw (some key) small = elim (Bool-cases (length key == 32)) [
    | inl b ↦
        rw (b, IsSound)
          (salted_order-IsSound arguments raw key (or_empty (string_at word_salt arguments)) small)
    | inr b ↦ rw (b, IsSound) tt
  ]

  raw_order-IsSound :
      (arguments : BValue) (raw : List ℕ) → IsSound crypto (raw_order crypto arguments raw)
  unfolding raw_order IsSound
  raw_order-IsSound arguments [] = tt
  raw_order-IsSound arguments (c ∷ cs) = elim (Bool-cases (ltb 1000 (length (c ∷ cs)))) [
    | inl b ↦ rw (b, IsSound) tt
    | inr b ↦
        rw (b, IsSound)
          (keyed_order-IsSound arguments (c ∷ cs) (string_at word_k arguments) (ground arith))
  ]

  put_order-IsSound :
      (arguments : BValue) (datagram : List ℕ)
      → IsSound crypto (put_order crypto arguments datagram)
  unfolding put_order
  put_order-IsSound arguments datagram =
      raw_order-IsSound arguments (raw_value (find word_v arguments) datagram)

-- Whatever a query holds, what the node stores afterwards is authentic if it was before: each value
-- under the hash of its bytes, each mutable item under the hash of its key and salt and with a
-- signature by that key, values of at most 1000 bytes and salts of at most 64.
pub handle_query-IsAuthentic :
    {d : Double} (w : World) (message : Message) (from : Endpoint) (datagram : List ℕ) (now : ℕ)
    (n : DhtNode d)
    → IsAuthentic w.crypto n.items
    → IsAuthentic w.crypto (handle_query w message from datagram now n).items
unfolding IsSound
handle_query-IsAuthentic w message from datagram now n h =
    handle_query-Holds w message from datagram now n (λ s i t. IsAuthentic w.crypto i)
      (λ infohash port s i t good h. h)
      (λ raw s i t good is h. put_immutable-IsAuthentic w.crypto raw now i h)
      (λ item cas s i t good is h.
        put_mutable-IsAuthentic w.crypto item cas now i
          (subst (IsSound w.crypto) is (put_order-IsSound w.crypto message.body datagram)) h)
      (λ id s i t h. h) h

query_counted-dropped :
    {d : Double} (w : World) (message : Message) (from : Endpoint) (datagram : List ℕ) (now : ℕ)
    (read_only : Bool) (n : DhtNode d)
    → read_only ≡ true
    → query_counted w message from datagram now read_only n
      ≡ record n { stats = (query_counted w message from datagram now read_only n).stats }
unfolding query_counted
query_counted-dropped w message from datagram now true n is = refl
query_counted-dropped w message from datagram now false n is = absurd (ground arith)

query_allowed-dropped :
    {d : Double} (w : World) (message : Message) (from : Endpoint) (datagram : List ℕ) (now : ℕ)
    (allowed : Bool) (n : DhtNode d)
    → (allowed && not n.config.read_only) ≡ false
    → query_allowed w message from datagram now allowed n
      ≡ record n { stats = (query_allowed w message from datagram now allowed n).stats }
unfolding query_allowed
query_allowed-dropped w message from datagram now true n dropped =
    query_counted-dropped w message from datagram now n.config.read_only
      (record n { stats = record (n.stats) { queries_in = n.stats.queries_in + 1 } }) (ground arith)
query_allowed-dropped w message from datagram now false n dropped = refl

-- A query from a host over its limit, or at a read-only node, is dropped: only the tally of
-- queries, the allowance of the host and the counters change.
pub handle_query-dropped :
    {d : Double} (w : World) (message : Message) (from : Endpoint) (datagram : List ℕ) (now : ℕ)
    (n : DhtNode d)
    → ((allow from.address now n.limiter).0 && not n.config.read_only) ≡ false
    → handle_query w message from datagram now n ≡ record n {
      inbound = note_inbound from message n.inbound;
      limiter = (allow from.address now n.limiter).1;
      stats = (handle_query w message from datagram now n).stats;
    }
unfolding handle_query
handle_query-dropped w message from datagram now n dropped =
    query_allowed-dropped w message from datagram now (allow from.address now n.limiter).0
      (record n {
        inbound = note_inbound from message n.inbound;
        limiter = (allow from.address now n.limiter).1;
      })
      dropped
