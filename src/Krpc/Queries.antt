-- ===== src/Krpc/Queries.antt =====
-- dhtcore/src/Krpc.cpp: a query that encodeQuery wrote is parsed as that query.
use dhtinspector.Common.{
  ℕ, ◌<◌, ◌^◌, ◌≡◌, refl, ap, ◌∙◌, Bool, true, false, none, some, List, [], ◌∷◌, length, arith,
}
use dhtinspector.Common.Ints.{pos}
use dhtinspector.Bencode.{Fields, built, dict, emplace, bytes_lt, lookup}
use dhtinspector.Bencode.Encoder.{encode_string}
use dhtinspector.Bencode.Decimal.{number}
use dhtinspector.Bencode.Canonical.{Canonical, locate}
use dhtinspector.Bencode.RoundTrip.{bdecode-bencode}
use dhtinspector.Endpoint.{HostApi}
use dhtinspector.Krpc.{
  Message, MessageType, accept, parse, parse_root, parse_decoded, encode_query, query_root,
}

-- The message that a query with these parts is.
abbrev pub query_message : List ℕ → List ℕ → Fields → List ℕ → Bool → Message
query_message tid method arguments version read_only = record {
  type = MessageType.query;
  transaction_id = tid;
  method = method;
  body = locate 4 (built (dict arguments));
  error_code = pos 0;
  error_message = [];
  version = version;
  reported_address = none;
  read_only = read_only;
}

query_root-Canonical :
    (tid method : List ℕ) (arguments : Fields) (version : List ℕ) (read_only : Bool)
    → length tid < 10 ^ 10
    → length method < 10 ^ 10
    → length version < 10 ^ 10
    → Canonical 31 (built (dict arguments))
    → Canonical 32 (built (dict (query_root tid method arguments version read_only)))
unfolding query_root emplace bytes_lt
query_root-Canonical tid method arguments [] false t m v a = (
  omega arith,
  ((refl, (refl, (refl, tt))), ((refl, (refl, tt)), ((refl, tt), (tt, tt)))),
  (omega arith, a, (omega arith, m, (omega arith, t, (omega arith, omega arith, tt)))),
)
query_root-Canonical tid method arguments [] true t m v a = (
  omega arith,
  (
    (refl, (refl, (refl, (refl, tt)))),
    ((refl, (refl, (refl, tt))), ((refl, (refl, tt)), ((refl, tt), (tt, tt)))),
  ),
  (
    omega arith,
    a,
    (omega arith, m, (omega arith, omega arith, (omega arith, t, (omega arith, omega arith, tt)))),
  ),
)
query_root-Canonical tid method arguments (c ∷ cs) false t m v a = (
  omega arith,
  (
    (refl, (refl, (refl, (refl, tt)))),
    ((refl, (refl, (refl, tt))), ((refl, (refl, tt)), ((refl, tt), (tt, tt)))),
  ),
  (
    omega arith,
    a,
    (omega arith, m, (omega arith, t, (omega arith, v, (omega arith, omega arith, tt)))),
  ),
)
query_root-Canonical tid method arguments (c ∷ cs) true t m v a = (
  omega arith,
  (
    (refl, (refl, (refl, (refl, (refl, tt))))),
    (
      (refl, (refl, (refl, (refl, tt)))),
      ((refl, (refl, (refl, tt))), ((refl, (refl, tt)), ((refl, tt), (tt, tt)))),
    ),
  ),
  (
    omega arith,
    a,
    (
      omega arith,
      m,
      (
        omega arith,
        omega arith,
        (omega arith, t, (omega arith, v, (omega arith, omega arith, tt))),
      ),
    ),
  ),
)

parse_root-query :
    (api : HostApi) (tid method : List ℕ) (arguments : Fields) (version : List ℕ) (read_only : Bool)
    → parse_root api
        (locate 0 (built (dict (query_root tid method arguments version read_only))))
        []
      ≡ accept (query_message tid method arguments version read_only) tid []
unfolding query_root emplace bytes_lt locate parse_root lookup encode_string number
parse_root-query api tid method arguments [] false = refl
parse_root-query api tid method arguments [] true = refl
parse_root-query api tid method arguments (c ∷ cs) false = refl
parse_root-query api tid method arguments (c ∷ cs) true = refl

-- A query with canonical arguments, and with an id, a method and a version shorter than 10 ^ 10 bytes, is
-- parsed, with no error and no warning, as the message that was
-- encoded: its transaction id, method, arguments, version and read-only flag.
pub parse-encode_query :
    (api : HostApi) (tid method : List ℕ) (arguments : Fields) (version : List ℕ) (read_only : Bool)
    → length tid < 10 ^ 10
    → length method < 10 ^ 10
    → length version < 10 ^ 10
    → Canonical 31 (built (dict arguments))
    → parse api (encode_query tid method arguments version read_only)
      ≡ some (accept (query_message tid method arguments version read_only) tid [])
unfolding encode_query parse parse_decoded
parse-encode_query api tid method arguments version read_only t m v a =
    let root = query_root tid method arguments version read_only in
    ap (parse_decoded api) (
      bdecode-bencode (built (dict root)) 32
        (query_root-Canonical tid method arguments version read_only t m v a))
    ∙ ap some (parse_root-query api tid method arguments version read_only)
