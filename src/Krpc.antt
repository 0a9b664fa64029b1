-- ===== src/Krpc.antt =====
-- dhtcore/src/Krpc.cpp and dhtcore/include/dhtcore/Krpc.h: KRPC messages over bencode, and compact
-- node lists. A text of the parser is a constructor with its arguments.
pub mod Compact
pub mod CompactTrip
pub mod Queries
pub mod Errors
pub mod Responses
use dhtinspector.Common.{
  ℕ, zero, suc, ◌+◌, ◌-◌, ◌%◌, Bool, true, false, not, ◌&&◌, ◌||◌, Option, none, some, List, [],
  ◌∷◌, ◌++◌, ltb, leb, ◌==◌, if◌then◌else◌, length, take, drop,
}
use dhtinspector.Common.Ints.{ℤ, pos}
use dhtinspector.Bencode.{
  BValue, Shape, Items, Fields, built, invalid, integer, string, list, dict, nil, cons, end,
  emplace, is_dict, is_integer, is_string, string_at, integer_at, list_at, dict_at, to_list,
  to_integer, to_string, shape,
}
use dhtinspector.Bencode.Encoder.{bencode}
use dhtinspector.Bencode.Decoder
use dhtinspector.Bencode.Decoder.{Warnings, DecodeResult, bdecode, default_depth}
use dhtinspector.Endpoint.{
  HostApi, Endpoint, Family, family_of, family_eq, is_valid, to_compact, from_compact,
}
use dhtinspector.NodeId.{NodeId, from_bytes}

pub data MessageType : Type 0 where
  query response error_reply : MessageType

pub record Message : Type 0 where
  pub type : MessageType
  pub transaction_id : List ℕ
  pub method : List ℕ
  pub body : BValue
  pub error_code : ℤ
  pub error_message : List ℕ
  pub version : List ℕ
  pub reported_address : Option Endpoint
  pub read_only : Bool

pub data ParseError : Type 0 where
  bencode_error : ℕ → Decoder.Message → ParseError
  not_a_dictionary missing_transaction_id bad_message_type : ParseError
  no_method no_arguments no_return_values : ParseError
  unknown_type : List ℕ → ParseError

-- A warning of the decoder, or parse's own.
pub data ParseWarning : Type 0 where
  decoding : Warnings → ParseWarning
  bad_error_list : ParseWarning

pub record ParseResult : Type 0 where
  pub message : Option Message
  pub error : Option ParseError
  pub transaction_id : List ℕ
  pub warnings : List ParseWarning

-- Message::senderId.
unfoldable pub sender_id : Message → Option NodeId
unfolding string_at
sender_id m = elim (string_at (b'i' ∷ b'd' ∷ []) m.body) [ none ↦ none | some id ↦ from_bytes id ]

abbrev pub key : ℕ → List ℕ
key c = c ∷ []

abbrev pub refuse : ParseError → List ℕ → Warnings → ParseResult
refuse e tid ws = record {
  message = none;
  error = some e;
  transaction_id = tid;
  warnings = decoding ws ∷ [];
}

abbrev pub accept : Message → List ℕ → Warnings → ParseResult
accept m tid ws = record {
  message = some m;
  error = none;
  transaction_id = tid;
  warnings = decoding ws ∷ [];
}

is_one : Option ℤ → Bool
is_one (some (pos n)) = n == 1
is_one _ = false

or_empty : Option (List ℕ) → List ℕ
or_empty none = []
or_empty (some b) = b

reported : HostApi → Option (List ℕ) → Option Endpoint
reported api none = none
reported api (some ip) = from_compact api ip

-- The fields that every message has.
unfoldable pub common_message : HostApi → BValue → List ℕ → Message
unfolding is_one or_empty reported
common_message api root tid = record {
  type = MessageType.query;
  transaction_id = tid;
  method = [];
  body = built invalid;
  error_code = pos 0;
  error_message = [];
  version = or_empty (string_at (key b'v') root);
  reported_address = reported api (string_at (b'i' ∷ b'p' ∷ []) root);
  read_only = is_one (integer_at (b'r' ∷ b'o' ∷ []) root);
}

parse_query : Message → BValue → List ℕ → Warnings → ParseResult
parse_query m root tid ws = elim (string_at (key b'q') root) [
  | none ↦ refuse no_method tid ws
  | some method ↦ elim (dict_at (key b'a') root) [
    | none ↦ refuse no_arguments tid ws
    | some args ↦
        accept (record m { type = MessageType.query; method = method; body = args }) tid ws
  ]
]

parse_response : Message → BValue → List ℕ → Warnings → ParseResult
parse_response m root tid ws = elim (dict_at (key b'r') root) [
  | none ↦ refuse no_return_values tid ws
  | some values ↦ accept (record m { type = MessageType.response; body = values }) tid ws
]

-- The code and the message of an error's list, if the list starts with a number.
error_of : Items → Option (ℤ × List ℕ)
error_of nil = none
error_of (cons x nil) = if is_integer x then some (to_integer x, []) else none
error_of (cons x (cons y ys)) = if is_integer x then some (to_integer x, to_string y) else none

error_items : Option BValue → Items
error_items none = nil
error_items (some e) = to_list e

parse_error : Message → BValue → List ℕ → Warnings → ParseResult
unfolding error_of error_items
parse_error m root tid ws = elim (error_of (error_items (list_at (key b'e') root))) [
  | some (code, text) ↦
      accept (record m { type = MessageType.error_reply; error_code = code; error_message = text })
        tid ws
  | none ↦ record {
    message = some (record m { type = MessageType.error_reply });
    error = none;
    transaction_id = tid;
    warnings = decoding ws ∷ bad_error_list ∷ [];
  }
]

-- The switch on the message type 'y', which is one byte.
unfoldable pub parse_typed : Message → BValue → List ℕ → List ℕ → Warnings → ParseResult
unfolding parse_query parse_response parse_error
parse_typed m root (c ∷ []) tid ws =
    if c == b'q'
    then parse_query m root tid ws
    else (if c == b'r'
        then parse_response m root tid ws
        else (if c == b'e'
            then parse_error m root tid ws
            else refuse (unknown_type (c ∷ [])) tid ws))
parse_typed m root _ tid ws = refuse bad_message_type tid ws

unfoldable pub parse_root : HostApi → BValue → Warnings → ParseResult
unfolding parse_typed common_message string_at integer_at dict_at list_at
parse_root api root ws =
    if is_dict root
    then elim (string_at (key b't') root) [
      | none ↦ refuse missing_transaction_id [] ws
      | some tid ↦ elim (string_at (key b'y') root) [
        | none ↦ refuse bad_message_type tid ws
        | some y ↦ parse_typed (common_message api root tid) root y tid ws
      ]
    ]
    else refuse not_a_dictionary [] ws

-- What parse makes of what the decoder said; `none` would be a decoder that does not end.
unfoldable pub parse_decoded : HostApi → Option DecodeResult → Option ParseResult
unfolding parse_root
parse_decoded api none = none
parse_decoded api (some r) = some (elim r.error [
  | some (offset, message) ↦ refuse (bencode_error offset message) [] r.warnings
  | none ↦ parse_root api r.result r.warnings
])

unfoldable pub parse : HostApi → List ℕ → Option ParseResult
unfolding parse_decoded
parse api datagram = parse_decoded api (bdecode datagram default_depth)

abbrev pub text : List ℕ → BValue
text b = built (string b)

add_version : List ℕ → Fields → Fields
add_version [] root = root
add_version (c ∷ cs) root = emplace (key b'v') (text (c ∷ cs)) root

unfoldable pub query_root : List ℕ → List ℕ → Fields → List ℕ → Bool → Fields
unfolding add_version
query_root tid method arguments version read_only =
    let root = emplace (key b'a') (built (dict arguments)) (
      emplace (key b'q') (text method)
        (emplace (key b'y') (text (key b'q')) (emplace (key b't') (text tid) end))) in
    add_version version
      (if read_only then emplace (b'r' ∷ b'o' ∷ []) (built (integer (pos 1))) root else root)

unfoldable pub encode_query : List ℕ → List ℕ → Fields → List ℕ → Bool → List ℕ
unfolding query_root
encode_query tid method arguments version read_only =
    bencode (built (dict (query_root tid method arguments version read_only)))

unfoldable pub response_root : List ℕ → Fields → List ℕ → Endpoint → Fields
unfolding add_version
response_root tid values version requester =
    let root =
      emplace (key b'r') (built (dict values))
        (emplace (key b'y') (text (key b'r')) (emplace (key b't') (text tid) end)) in
    add_version version (
      if is_valid requester
      then emplace (b'i' ∷ b'p' ∷ []) (text (to_compact requester)) root
      else root)

unfoldable pub encode_response : List ℕ → Fields → List ℕ → Endpoint → List ℕ
unfolding response_root
encode_response tid values version requester =
    bencode (built (dict (response_root tid values version requester)))

unfoldable pub error_root : List ℕ → ℕ → List ℕ → List ℕ → Fields
unfolding add_version
error_root tid code message version = add_version version (
    emplace (key b'e') (built (list (cons (built (integer (pos code))) (cons (text message) nil))))
      (emplace (key b'y') (text (key b'e')) (emplace (key b't') (text tid) end)))

unfoldable pub encode_error : List ℕ → ℕ → List ℕ → List ℕ → List ℕ
unfolding error_root
encode_error tid code message version = bencode (built (dict (error_root tid code message version)))
