-- ===== src/Endpoint/Compact.antt =====
-- dhtcore/src/Endpoint.cpp: equality of endpoints, and the compact form read back.
use dhtinspector.Common.{
  ℕ, ◌^◌, ◌<◌, ◌≡◌, refl, ◌↔◌, ◌≢◌, true, none, some, List, [], ◌++◌, bytes_eq_iff, append-nil,
  length, length-append, take-append_of, drop-append_of, arith,
}
use dhtinspector.Endpoint.{
  Address, null, ipv4, ipv6, HostApi, address_eq, Endpoint, endpoint_eq, normalize_address, to_be16,
  to_be32, from_be16, from_be32, to_compact, from_compact,
}

pub address_eq_iff : (a b : Address) → (address_eq a b ≡ true) ↔ (a ≡ b)
address_eq_iff null null = ground arith
address_eq_iff null (ipv4 b) = ground arith
address_eq_iff null (ipv6 b t) = ground arith
address_eq_iff (ipv4 a) null = ground arith
address_eq_iff (ipv4 a) (ipv4 b) = ground arith
address_eq_iff (ipv4 a) (ipv6 b t) = ground arith
address_eq_iff (ipv6 a s) null = ground arith
address_eq_iff (ipv6 a s) (ipv4 b) = ground arith
address_eq_iff (ipv6 a s) (ipv6 b t) = ground (arith, bytes_eq_iff a b, bytes_eq_iff s t)

pub endpoint_eq_iff : (a b : Endpoint) → (endpoint_eq a b ≡ true) ↔ (a ≡ b)
endpoint_eq_iff a b = ground (arith, address_eq_iff a.address b.address)

-- An address as `normalize_address` leaves it, with fields in range.
abbrev pub IsNormal : HostApi → Address → Type 0
IsNormal api null = Unit
IsNormal api (ipv4 a) = a < 2 ^ 32
IsNormal api (ipv6 bytes scope) = (length bytes ≡ 16) × (scope ≡ []) × (api.ipv4_of bytes ≡ none)

pub normalize_of_IsNormal :
    (api : HostApi) (a : Address) → IsNormal api a → normalize_address api a ≡ a
unfolding normalize_address
normalize_of_IsNormal api null h = refl
normalize_of_IsNormal api (ipv4 a) h = refl
normalize_of_IsNormal api (ipv6 bytes scope) h = ground arith

from_be32-to_be32 : (n : ℕ) (r : List ℕ) → n < 2 ^ 32 → from_be32 (to_be32 n ++ r) ≡ n
unfolding from_be32 to_be32
from_be32-to_be32 n r h = omega arith

from_be16-to_be16 : (n : ℕ) (r : List ℕ) → n < 2 ^ 16 → from_be16 (to_be16 n ++ r) ≡ n
unfolding from_be16 to_be16
from_be16-to_be16 n r h = omega arith

length-to_be16 : (n : ℕ) → length (to_be16 n) ≡ 2
unfolding to_be16
length-to_be16 n = refl

from_compact-ipv4 :
    (api : HostApi) (a p : ℕ)
    → a < 2 ^ 32
    → p < 2 ^ 16
    → from_compact api (to_be32 a ++ to_be16 p) ≡ some (record { address = ipv4 a; port = p })
unfolding from_compact to_be32 to_be16 from_be32 from_be16 normalize_address
from_compact-ipv4 api a p h k = ground arith

from_compact-ipv6 :
    (api : HostApi) (bytes : List ℕ) (p : ℕ)
    → length bytes ≡ 16
    → api.ipv4_of bytes ≡ none
    → p < 2 ^ 16
    → from_compact api (bytes ++ to_be16 p) ≡ some (record { address = ipv6 bytes []; port = p })
unfolding from_compact
from_compact-ipv6 api bytes p l n h =
    let total : length (bytes ++ to_be16 p) ≡ 18 =
      omega (arith, length-append bytes (to_be16 p), length-to_be16 p) in
    rw
      (
        total,
        take-append_of 16 bytes (to_be16 p) l,
        drop-append_of 16 bytes (to_be16 p) l,
        read_port,
        normalize_of_IsNormal api (ipv6 bytes []) (l, refl, n),
      )
      refl
  where
    read_port : from_be16 (to_be16 p) ≡ p
    read_port = rw append-nil at (from_be16-to_be16 p [] h)

-- The compact form of an endpoint with a normal, non-null address and a 16-bit port reads back as that endpoint.
pub from_compact-to_compact :
    (api : HostApi) (e : Endpoint)
    → IsNormal api e.address
    → e.address ≢ null
    → e.port < 2 ^ 16
    → from_compact api (to_compact e) ≡ some e
unfolding to_compact
from_compact-to_compact api e h k p = go e.address e.port h k p
  where
    go :
        (a : Address) (port : ℕ)
        → IsNormal api a
        → a ≢ null
        → port < 2 ^ 16
        → from_compact api (to_compact (record { address = a; port = port }))
          ≡ some (record { address = a; port = port })
    go null port h k p = absurd (k refl)
    go (ipv4 a) port h k p = from_compact-ipv4 api a port h p
    go (ipv6 bytes scope) port h k p = rw h.1 (from_compact-ipv6 api bytes port h.0 h.2 p)
