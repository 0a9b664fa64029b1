-- ===== src/Node/Items.antt =====
-- dhtcore/src/DhtNode.cpp: the answers to get and put.
use dhtinspector.Common.{
  ℕ, Bool, true, false, not, Option, none, some, List, [], ◌∷◌, ltb, ◌==◌, length, if◌then◌else◌,
}
use dhtinspector.Common.Ints.{ℤ, ltz}
use dhtinspector.NodeId.{NodeId}
use dhtinspector.Endpoint.{Endpoint}
use dhtinspector.Bencode.{
  BValue, Fields, built, string, integer, pre_encoded, end, find, raw_span, string_at, integer_at,
}
use dhtinspector.Krpc.{Message}
use dhtinspector.Bep44.{Crypto, immutable_target, mutable_target, signing_buffer, verify}
use dhtinspector.Storage.Items.{
  ImmutableItem, MutableItem, PutResult, max_value_bytes, max_salt_bytes, immutable_item,
  mutable_item, put_immutable, put_mutable,
}
use dhtinspector.Storage.Limits.{Double}
use dhtinspector.Node.State.{DhtNode, World, send_response, send_error}
use dhtinspector.Node.Find.{nodes_for}
use dhtinspector.Node.Peers.{or_empty, id_at, new_token, check_token, complain}
use dhtinspector.Node.Words.{
  word_target, word_token, word_v, word_k, word_seq, word_sig, word_salt, word_cas,
  text_missing_target, text_invalid_token, text_unreadable_value, text_value_too_big,
  text_invalid_key, text_salt_too_long, text_unsigned_put, text_invalid_signature,
  text_cas_mismatch, text_sequence_too_low, code_protocol_error, code_message_too_big,
  code_bad_signature, code_long_salt, code_cas_error, code_low_sequence, assign,
}

-- The fields of an immutable item, or of a mutable one, which a getter may know already.
immutable_fields : ImmutableItem → Fields → Fields
unfolding assign
immutable_fields item values = assign word_v (built (pre_encoded item.value)) values

knows : Option ℤ → ℤ → Bool
knows none sequence = false
knows (some known) sequence = not (ltz known sequence)

mutable_fields : Option ℤ → MutableItem → Fields → Fields
unfolding assign knows
mutable_fields known item values =
    let named =
      assign word_seq (built (integer item.sequence))
        (assign word_k (built (string item.public_key)) values) in
    if knows known item.sequence
    then named
    else assign word_sig (built (string item.signature))
        (assign word_v (built (pre_encoded item.value)) named)

item_fields : Option ℤ → Option ImmutableItem → Option MutableItem → Fields → Fields
unfolding immutable_fields mutable_fields
item_fields known (some item) other values = immutable_fields item values
item_fields known none (some item) values = mutable_fields known item values
item_fields known none none values = values

-- What handlePut makes of the arguments once the token is good: an error, or what is to be stored.
pub data PutOrder : Type 0 where
  turn_down : ℕ → List ℕ → PutOrder
  keep_value : List ℕ → PutOrder
  keep_item : MutableItem → PutOrder

unfoldable pub raw_value : Option BValue → List ℕ → List ℕ
raw_value none datagram = []
raw_value (some v) datagram = raw_span v datagram

-- ed25519::verify always has an answer.
unfoldable pub signed_order : Crypto → List ℕ → List ℕ → List ℕ → ℤ → List ℕ → PutOrder
signed_order crypto raw key salt sequence signature =
    if verify crypto signature (signing_buffer salt sequence raw) key
    then keep_item (record {
      target = mutable_target crypto key salt;
      public_key = key;
      salt = salt;
      signature = signature;
      value = raw;
      sequence = sequence;
      stored_at = 0;
    })
    else turn_down code_bad_signature text_invalid_signature

unfoldable pub numbered_order :
    Crypto → List ℕ → List ℕ → List ℕ → Option ℤ → Option (List ℕ) → PutOrder
unfolding signed_order
numbered_order crypto raw key salt (some sequence) (some signature) =
    if length signature == 64
    then signed_order crypto raw key salt sequence signature
    else turn_down code_protocol_error text_unsigned_put
numbered_order crypto raw key salt _ _ = turn_down code_protocol_error text_unsigned_put

unfoldable pub salted_order : Crypto → BValue → List ℕ → List ℕ → List ℕ → PutOrder
unfolding numbered_order
salted_order crypto arguments raw key salt =
    if ltb max_salt_bytes (length salt)
    then turn_down code_long_salt text_salt_too_long
    else numbered_order crypto raw key salt (integer_at word_seq arguments)
        (string_at word_sig arguments)

unfoldable pub keyed_order : Crypto → BValue → List ℕ → Option (List ℕ) → PutOrder
unfolding salted_order or_empty
keyed_order crypto arguments raw none = keep_value raw
keyed_order crypto arguments raw (some key) =
    if length key == 32
    then salted_order crypto arguments raw key (or_empty (string_at word_salt arguments))
    else turn_down code_protocol_error text_invalid_key

unfoldable pub raw_order : Crypto → BValue → List ℕ → PutOrder
unfolding keyed_order
raw_order crypto arguments [] = turn_down code_protocol_error text_unreadable_value
raw_order crypto arguments (c ∷ cs) =
    if ltb max_value_bytes (length (c ∷ cs))
    then turn_down code_message_too_big text_value_too_big
    else keyed_order crypto arguments (c ∷ cs) (string_at word_k arguments)

unfoldable pub put_order : Crypto → BValue → List ℕ → PutOrder
unfolding raw_order raw_value
put_order crypto arguments datagram =
    raw_order crypto arguments (raw_value (find word_v arguments) datagram)

-- The error for what putMutable did, if it is one.
unfoldable pub put_problem : PutResult → Option (ℕ × List ℕ)
put_problem PutResult.stored = none
put_problem PutResult.refreshed = none
put_problem PutResult.cas_mismatch = some (code_cas_error, text_cas_mismatch)
put_problem PutResult.sequence_too_low = some (code_low_sequence, text_sequence_too_low)
put_problem PutResult.too_big = some (code_message_too_big, text_value_too_big)
put_problem PutResult.salt_too_long = some (code_long_salt, text_salt_too_long)

module _ {d : Double} where
  unfoldable pub get_values : World → Message → NodeId → List ℕ → DhtNode d → Fields
  unfolding item_fields assign
  get_values w message target token n =
      item_fields (integer_at word_seq message.body) (immutable_item target n.items)
        (mutable_item target n.items)
        (assign word_token (built (string token)) (nodes_for w target message.body n))

  unfoldable pub get_answer : World → Message → Endpoint → NodeId → List ℕ × DhtNode d → DhtNode d
  unfolding get_values send_response
  get_answer w message from target (token, n) =
      send_response w message from (get_values w message target token n) n

  unfoldable pub get_for : World → Message → Endpoint → ℕ → Option NodeId → DhtNode d → DhtNode d
  unfolding complain get_answer new_token
  get_for w message from now none n = complain w message from text_missing_target n
  get_for w message from now (some target) n =
      get_answer w message from target (new_token w from now n)

  unfoldable pub handle_get : World → Message → Endpoint → ℕ → DhtNode d → DhtNode d
  unfolding get_for id_at
  handle_get w message from now n = get_for w message from now (id_at word_target message.body) n

  unfoldable pub answer_put :
      World → Message → Endpoint → Option (ℕ × List ℕ) → DhtNode d → DhtNode d
  unfolding send_response send_error
  answer_put w message from none n = send_response w message from end n
  answer_put w message from (some (code, text)) n =
      send_error w message.transaction_id from code text n

  unfoldable pub carry_out : World → Message → Endpoint → ℕ → PutOrder → DhtNode d → DhtNode d
  unfolding answer_put send_error send_response put_problem
  carry_out w message from now (turn_down code text) n =
      send_error w message.transaction_id from code text n
  carry_out w message from now (keep_value raw) n =
      send_response w message from end
        (record n { items = (put_immutable (immutable_target w.crypto raw) raw now n.items).1 })
  carry_out w message from now (keep_item item) n =
      let r = put_mutable item (integer_at word_cas message.body) now n.items in
      answer_put w message from (put_problem r.0) (record n { items = r.1 })

  unfoldable pub put_checked :
      World → Message → Endpoint → List ℕ → ℕ → Bool × DhtNode d → DhtNode d
  unfolding complain carry_out put_order
  put_checked w message from datagram now (false, n) = complain w message from text_invalid_token n
  put_checked w message from datagram now (true, n) =
      carry_out w message from now (put_order w.crypto message.body datagram) n

  unfoldable pub handle_put : World → Message → Endpoint → List ℕ → ℕ → DhtNode d → DhtNode d
  unfolding put_checked check_token
  handle_put w message from datagram now n =
      put_checked w message from datagram now
        (check_token w (string_at word_token message.body) from now n)
