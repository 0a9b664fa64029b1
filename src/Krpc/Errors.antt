-- ===== src/Krpc/Errors.antt =====
-- dhtcore/src/Krpc.cpp: an error that encodeError wrote is parsed as that error.
use dhtinspector.Common.{
  ℕ, ◌<◌, ◌^◌, ◌≡◌, refl, ap, ◌∙◌, false, none, some, List, [], ◌∷◌, length, arith,
}
use dhtinspector.Common.Ints.{pos}
use dhtinspector.Bencode.{
  built, dict, invalid, emplace, bytes_lt, lookup, to_list, to_integer, to_string,
}
use dhtinspector.Bencode.Encoder.{encode_string}
use dhtinspector.Bencode.Decimal.{number}
use dhtinspector.Bencode.Canonical.{Canonical, locate}
use dhtinspector.Bencode.RoundTrip.{bdecode-bencode}
use dhtinspector.Endpoint.{HostApi}
use dhtinspector.Krpc.{
  Message, MessageType, accept, parse, parse_root, parse_decoded, encode_error, error_root,
}

-- The message that an error with these parts is.
abbrev pub error_reply_message : List ℕ → ℕ → List ℕ → List ℕ → Message
error_reply_message tid code text version = record {
  type = MessageType.error_reply;
  transaction_id = tid;
  method = [];
  body = built invalid;
  error_code = pos code;
  error_message = text;
  version = version;
  reported_address = none;
  read_only = false;
}

error_root-Canonical :
    (tid : List ℕ) (code : ℕ) (text version : List ℕ)
    → length tid < 10 ^ 10
    → code < 9223372036854775808
    → length text < 10 ^ 10
    → length version < 10 ^ 10
    → Canonical 32 (built (dict (error_root tid code text version)))
unfolding error_root emplace bytes_lt
error_root-Canonical tid code text [] t n x v = (
  omega arith,
  ((refl, (refl, tt)), ((refl, tt), (tt, tt))),
  (omega arith, (omega arith, (n, (x, tt))), (omega arith, t, (omega arith, omega arith, tt))),
)
error_root-Canonical tid code text (c ∷ cs) t n x v = (
  omega arith,
  ((refl, (refl, (refl, tt))), ((refl, (refl, tt)), ((refl, tt), (tt, tt)))),
  (
    omega arith,
    (omega arith, (n, (x, tt))),
    (omega arith, t, (omega arith, v, (omega arith, omega arith, tt))),
  ),
)

parse_root-error :
    (api : HostApi) (tid : List ℕ) (code : ℕ) (text version : List ℕ)
    → parse_root api (locate 0 (built (dict (error_root tid code text version)))) []
      ≡ accept (error_reply_message tid code text version) tid []
unfolding error_root emplace bytes_lt locate parse_root lookup encode_string number to_list
    to_integer to_string
parse_root-error api tid code text [] = refl
parse_root-error api tid code text (c ∷ cs) = refl

-- An error with an id, a text and a version shorter than 10 ^ 10 bytes and a code below 2 ^ 63 is
-- parsed, with no error and no warning, as the message that was encoded: its transaction id, code, text
-- and version.
pub parse-encode_error :
    (api : HostApi) (tid : List ℕ) (code : ℕ) (text version : List ℕ)
    → length tid < 10 ^ 10
    → code < 9223372036854775808
    → length text < 10 ^ 10
    → length version < 10 ^ 10
    → parse api (encode_error tid code text version)
      ≡ some (accept (error_reply_message tid code text version) tid [])
unfolding encode_error parse parse_decoded
parse-encode_error api tid code text version t n x v =
    let root = error_root tid code text version in
    ap (parse_decoded api)
      (bdecode-bencode (built (dict root)) 32 (error_root-Canonical tid code text version t n x v))
    ∙ ap some (parse_root-error api tid code text version)
