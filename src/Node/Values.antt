-- ===== src/Node/Values.antt =====
-- dhtcore/src/DhtNode.cpp: what the values of an answer hold.
use dhtinspector.Common.{
  ℕ, ◌≡◌, refl, ap, ◌∙◌, true, false, some, List, [], ◌∷◌, bytes_eq, bytes_eq_sound, arith,
}
use dhtinspector.NodeId.{NodeId}
use dhtinspector.Endpoint.{Endpoint}
use dhtinspector.Bencode.{
  BValue, Fields, built, string, dict, end, field, lookup, string_at, string_of, find, to_dict,
}
use dhtinspector.Krpc.{Message}
use dhtinspector.Storage.Limits.{Double}
use dhtinspector.Node.State.{DhtNode, World}
use dhtinspector.Node.Find.{nodes_for}
use dhtinspector.Node.Peers.{add_values, peers_values}
use dhtinspector.Node.Words.{word_token, word_values, assign}

lookup-assign_same :
    (k : List ℕ) (v : BValue) (fs : Fields)
    → bytes_eq k k ≡ true
    → lookup k (assign k v fs) ≡ some v
unfolding lookup assign
lookup-assign_same k v end h = ground arith
lookup-assign_same k v (field j u fs) h = ground (arith, lookup-assign_same k v fs h)

lookup-assign_other :
    (k j : List ℕ) (v : BValue) (fs : Fields)
    → bytes_eq k j ≡ false
    → lookup j (assign k v fs) ≡ lookup j fs
unfolding lookup assign
lookup-assign_other k j v end h = ground arith
lookup-assign_other k j v (field i u fs) h =
    ground (arith, lookup-assign_other k j v fs h, bytes_eq_sound i k)

lookup-add_values :
    (es : List Endpoint) (fs : Fields) → lookup word_token (add_values es fs) ≡ lookup word_token fs
unfolding add_values
lookup-add_values [] fs = refl
lookup-add_values (e ∷ es) fs = lookup-assign_other word_values word_token _ fs refl

module _ {d : Double} where
  pub peers_values-token :
      (w : World) (message : Message) (infohash : NodeId) (token : List ℕ) (n : DhtNode d)
      → string_at word_token (built (dict (peers_values w message infohash token n))) ≡ some token
  unfolding peers_values string_at string_of find to_dict
  peers_values-token w message infohash token n = ap string_of (
      lookup-add_values _
        (assign word_token (built (string token)) (nodes_for w infohash message.body n))
      ∙ lookup-assign_same word_token (built (string token)) (nodes_for w infohash message.body n)
          refl)
