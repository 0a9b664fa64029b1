-- ===== src/Endpoint.antt =====
-- dhtcore/src/Endpoint.cpp and dhtcore/include/dhtcore/Endpoint.h: addresses, compact endpoints and
-- the filter on addresses that the network hands out. QHostAddress is a value: null, an IPv4 number,
-- or the 16 bytes of an IPv6 address with its scope id. Scopes are compared too, which makes no
-- difference to an endpoint's normal form, whose scope is empty. What Qt decides about an address is
-- `HostApi`.
pub mod Compact
pub mod Usable
use dhtinspector.Common.{
  ℕ, zero, suc, ◌+◌, ◌*◌, ◌/◌, ◌%◌, ◌^◌, Bool, true, false, not, ◌&&◌, ◌||◌, Option, none, some,
  List, [], ◌∷◌, ◌++◌, bit_and, ltb, ◌==◌, if◌then◌else◌, length, get_or, take, drop, any,
  replicate, bytes_eq,
}

pub data Family : Type 0 where
  ipv4_family ipv6_family : Family

pub data Address : Type 0 where
  null : Address
  ipv4 : ℕ → Address
  ipv6 : List ℕ → List ℕ → Address

-- The queries of QHostAddress that the code calls. `ipv4_of` is toIPv4Address(&ok) on the bytes of an
-- IPv6 address, `in_subnet a base len` is isInSubnet.
pub record HostApi : Type 0 where
  pub ipv4_of : List ℕ → Option ℕ
  pub is_loopback : Address → Bool
  pub is_link_local : Address → Bool
  pub is_multicast : Address → Bool
  pub is_broadcast : Address → Bool
  pub is_unique_local : Address → Bool
  pub in_subnet : Address → ℕ → ℕ → Bool

abbrev pub address_eq : Address → Address → Bool
address_eq null null = true
address_eq (ipv4 a) (ipv4 b) = a == b
address_eq (ipv6 a s) (ipv6 b t) = bytes_eq a b && bytes_eq s t
address_eq _ _ = false

abbrev pub is_null : Address → Bool
is_null null = true
is_null _ = false

abbrev pub is_ipv4 : Address → Bool
is_ipv4 (ipv4 a) = true
is_ipv4 _ = false

unfoldable pub normalize_address : HostApi → Address → Address
normalize_address api null = null
normalize_address api (ipv4 a) = ipv4 a
normalize_address api (ipv6 bytes scope) = elim (api.ipv4_of bytes) [
  | some v4 ↦ ipv4 v4
  | none ↦ elim scope [ [] ↦ ipv6 bytes [] | c ∷ cs ↦ ipv6 bytes [] ]
]

family_of_protocol : Address → Family
family_of_protocol (ipv6 bytes scope) = Family.ipv6_family
family_of_protocol _ = Family.ipv4_family

unfoldable pub family_of : HostApi → Address → Family
unfolding family_of_protocol
family_of api address = family_of_protocol (normalize_address api address)

abbrev pub family_eq : Family → Family → Bool
family_eq Family.ipv4_family Family.ipv4_family = true
family_eq Family.ipv6_family Family.ipv6_family = true
family_eq _ _ = false

-- a.b.c.d as a number.
abbrev pub quad : ℕ → ℕ → ℕ → ℕ → ℕ
quad a b c d = a * 16777216 + b * 65536 + c * 256 + d

in_any : HostApi → Address → List (ℕ × ℕ) → Bool
in_any api address subnets = any (λ s. api.in_subnet address s.0 s.1) subnets

local_subnets : List (ℕ × ℕ)
local_subnets =
    (quad 10 0 0 0, 8)
    ∷ (quad 172 16 0 0, 12)
    ∷ (quad 192 168 0 0, 16)
    ∷ (quad 169 254 0 0, 16)
    ∷ (quad 127 0 0 0, 8)
    ∷ []

unfoldable pub is_local_address : HostApi → Address → Bool
unfolding in_any local_subnets normalize_address
is_local_address api raw =
    let address = normalize_address api raw in
    if api.is_loopback address || api.is_link_local address
    then true
    else (if is_ipv4 address then in_any api address local_subnets else api.is_unique_local address)

pub record Endpoint : Type 0 where
  pub address : Address
  pub port : ℕ

-- The constructor, which normalizes the address.
unfoldable pub make_endpoint : HostApi → Address → ℕ → Endpoint
make_endpoint api address port = record { address = normalize_address api address; port = port }

abbrev pub endpoint_eq : Endpoint → Endpoint → Bool
endpoint_eq a b = a.port == b.port && address_eq a.address b.address

abbrev pub is_valid : Endpoint → Bool
is_valid e = not (is_null e.address) && not (e.port == 0)

-- qToBigEndian and qFromBigEndian at 16 and 32 bits.
unfoldable pub to_be16 : ℕ → List ℕ
to_be16 n = (n / 256 % 256) ∷ (n % 256) ∷ []

unfoldable pub to_be32 : ℕ → List ℕ
to_be32 n = (n / 16777216 % 256) ∷ (n / 65536 % 256) ∷ (n / 256 % 256) ∷ (n % 256) ∷ []

unfoldable pub from_be16 : List ℕ → ℕ
from_be16 b = get_or b 0 0 * 256 + get_or b 1 0

unfoldable pub from_be32 : List ℕ → ℕ
from_be32 b = quad (get_or b 0 0) (get_or b 1 0) (get_or b 2 0) (get_or b 3 0)

-- toIPv6Address of an address that is not IPv4.
abbrev pub ipv6_bytes : Address → List ℕ
ipv6_bytes (ipv6 bytes scope) = bytes
ipv6_bytes _ = replicate 16 0

unfoldable pub to_compact : Endpoint → List ℕ
to_compact e = elim e.address [
  | ipv4 a ↦ to_be32 a ++ to_be16 e.port
  | ipv6 bytes scope ↦ bytes ++ to_be16 e.port
  | null ↦ replicate 16 0 ++ to_be16 e.port
]

unfoldable pub from_compact : HostApi → List ℕ → Option Endpoint
unfolding make_endpoint
from_compact api bytes =
    if length bytes == 6
    then some (make_endpoint api (ipv4 (from_be32 bytes)) (from_be16 (drop 4 bytes)))
    else (if length bytes == 18
        then some (make_endpoint api (ipv6 (take 16 bytes) []) (from_be16 (drop 16 bytes)))
        else none)

pub data AddressProblem : Type 0 where
  no_problem zero_port unspecified local multicast reserved : AddressProblem

reserved_subnets : List (ℕ × ℕ)
reserved_subnets =
    (quad 100 64 0 0, 10)
    ∷ (quad 192 0 0 0, 24)
    ∷ (quad 192 0 2 0, 24)
    ∷ (quad 198 18 0 0, 15)
    ∷ (quad 198 51 100 0, 24)
    ∷ (quad 203 0 113 0, 24)
    ∷ (quad 240 0 0 0, 4)
    ∷ []

-- AnyIPv4, AnyIPv6 and null, and 0.0.0.0/8.
abbrev pub is_unspecified : Address → Bool
is_unspecified null = true
is_unspecified (ipv4 a) = a == 0 || (a / 16777216 == 0)
is_unspecified (ipv6 bytes scope) = bytes_eq bytes (replicate 16 0) && bytes_eq scope []

-- Inside 2000::/3 and outside the documentation prefix 2001:db8::/32.
unfoldable pub is_global_ipv6 : List ℕ → Bool
is_global_ipv6 b =
    let documentation =
      (get_or b 0 0 == 0x20)
      && ((get_or b 1 0 == 0x01) && ((get_or b 2 0 == 0x0d) && (get_or b 3 0 == 0xb8))) in
    (bit_and (get_or b 0 0) 0xe0 == 0x20) && not documentation

port_problem : ℕ → AddressProblem
port_problem port = if port == 0 then AddressProblem.zero_port else AddressProblem.no_problem

unfoldable pub address_problem : HostApi → Endpoint → Bool → AddressProblem
unfolding port_problem in_any reserved_subnets
address_problem api e allow_local =
    let a = e.address in
    if is_unspecified a
    then AddressProblem.unspecified
    else (if api.is_multicast a || api.is_broadcast a
        then AddressProblem.multicast
        else (if is_local_address api a
            then (if allow_local then port_problem e.port else AddressProblem.local)
            else (if is_ipv4 a
                then (if in_any api a reserved_subnets
                    then AddressProblem.reserved
                    else port_problem e.port)
                else (if is_global_ipv6 (ipv6_bytes a)
                    then port_problem e.port
                    else AddressProblem.reserved))))

unfoldable pub is_usable_remote : HostApi → Endpoint → Bool → Bool
is_usable_remote api e allow_local = elim (address_problem api e allow_local) [
  | AddressProblem.no_problem ↦ true
  | _ ↦ false
]
