-- ===== src/Krpc/Responses.antt =====
-- dhtcore/src/Krpc.cpp: a response that encodeResponse wrote is parsed as that response.
use dhtinspector.Common.{
  ℕ, ◌<◌, ◌^◌, ◌≡◌, refl, ap, ◌∙◌, false, none, some, List, [], ◌∷◌, length, arith,
}
use dhtinspector.Common.Ints.{pos}
use dhtinspector.Bencode.{Fields, built, dict, emplace, bytes_lt, lookup}
use dhtinspector.Bencode.Encoder.{encode_string}
use dhtinspector.Bencode.Decimal.{number}
use dhtinspector.Bencode.Canonical.{Canonical, locate}
use dhtinspector.Bencode.RoundTrip.{bdecode-bencode}
use dhtinspector.Endpoint.{HostApi, null, Endpoint, is_valid}
use dhtinspector.Krpc.{
  Message, MessageType, accept, parse, parse_root, parse_decoded, encode_response, response_root,
}

-- The message that a response with these parts is.
abbrev pub response_message : List ℕ → Fields → List ℕ → Message
response_message tid values version = record {
  type = MessageType.response;
  transaction_id = tid;
  method = [];
  body = locate 4 (built (dict values));
  error_code = pos 0;
  error_message = [];
  version = version;
  reported_address = none;
  read_only = false;
}

abbrev nobody : Endpoint
nobody = record { address = null; port = 0 }

response_root-nobody :
    (tid : List ℕ) (values : Fields) (version : List ℕ) (requester : Endpoint)
    → is_valid requester ≡ false
    → response_root tid values version requester ≡ response_root tid values version nobody
unfolding response_root
response_root-nobody tid values version requester off = rw off refl

response_root-Canonical :
    (tid : List ℕ) (values : Fields) (version : List ℕ)
    → length tid < 10 ^ 10
    → length version < 10 ^ 10
    → Canonical 31 (built (dict values))
    → Canonical 32 (built (dict (response_root tid values version nobody)))
unfolding response_root emplace bytes_lt
response_root-Canonical tid values [] t v a = (
  omega arith,
  ((refl, (refl, tt)), ((refl, tt), (tt, tt))),
  (omega arith, a, (omega arith, t, (omega arith, omega arith, tt))),
)
response_root-Canonical tid values (c ∷ cs) t v a = (
  omega arith,
  ((refl, (refl, (refl, tt))), ((refl, (refl, tt)), ((refl, tt), (tt, tt)))),
  (omega arith, a, (omega arith, t, (omega arith, v, (omega arith, omega arith, tt)))),
)

parse_root-response :
    (api : HostApi) (tid : List ℕ) (values : Fields) (version : List ℕ)
    → parse_root api (locate 0 (built (dict (response_root tid values version nobody)))) []
      ≡ accept (response_message tid values version) tid []
unfolding response_root emplace bytes_lt locate parse_root lookup encode_string number
parse_root-response api tid values [] = refl
parse_root-response api tid values (c ∷ cs) = refl

-- A response that names no requester, with canonical values, and with an id and a version shorter than
-- 10 ^ 10 bytes, is parsed, with no error and no warning, as the message that was encoded: its
-- transaction id, values and version.
pub parse-encode_response :
    (api : HostApi) (tid : List ℕ) (values : Fields) (version : List ℕ) (requester : Endpoint)
    → is_valid requester ≡ false
    → length tid < 10 ^ 10
    → length version < 10 ^ 10
    → Canonical 31 (built (dict values))
    → parse api (encode_response tid values version requester)
      ≡ some (accept (response_message tid values version) tid [])
unfolding encode_response parse parse_decoded
parse-encode_response api tid values version requester off t v a =
    let root = response_root tid values version nobody in
    rw (response_root-nobody tid values version requester off) (
      ap (parse_decoded api)
        (bdecode-bencode (built (dict root)) 32 (response_root-Canonical tid values version t v a))
      ∙ ap some (parse_root-response api tid values version))
