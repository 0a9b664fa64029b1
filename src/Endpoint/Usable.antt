-- ===== src/Endpoint/Usable.antt =====
-- dhtcore/src/Endpoint.cpp: the filter on addresses, as ranges of IPv4 addresses.
use dhtinspector.Common.{
  ℕ, ◌-◌, ◌<◌, ◌≤◌, ◌/◌, ◌^◌, ◌≡◌, ◌∙◌, Bool, true, false, not, ◌&&◌, ◌||◌, List, [], ◌∷◌, any, leb,
  ◌==◌, if◌then◌else◌, arith,
}
use dhtinspector.Endpoint.{
  HostApi, ipv4, address_problem, port_problem, in_any, local_subnets, reserved_subnets,
  is_usable_remote, is_local_address, normalize_address, quad,
}

-- What Qt documents of its questions about an IPv4 address.
pub record IsIpv4Api (api : HostApi) : Type 0 where
  pub subnet :
      (a base len : ℕ)
      → len ≤ 32
      → api.in_subnet (ipv4 a) base len ≡ (a / 2 ^ (32 - len) == base / 2 ^ (32 - len))
  pub loopback : (a : ℕ) → api.is_loopback (ipv4 a) ≡ (a / 16777216 == 127)
  pub link_local : (a : ℕ) → api.is_link_local (ipv4 a) ≡ (a / 65536 == 43518)
  pub multicast : (a : ℕ) → api.is_multicast (ipv4 a) ≡ (a / 268435456 == 14)
  pub broadcast : (a : ℕ) → api.is_broadcast (ipv4 a) ≡ (a == 4294967295)

-- The first and the last address of each range that is private or local.
abbrev pub private_ranges : List (ℕ × ℕ)
private_ranges =
    (quad 10 0 0 0, quad 10 255 255 255)
    ∷ (quad 127 0 0 0, quad 127 255 255 255)
    ∷ (quad 169 254 0 0, quad 169 254 255 255)
    ∷ (quad 172 16 0 0, quad 172 31 255 255)
    ∷ (quad 192 168 0 0, quad 192 168 255 255)
    ∷ []

-- And of each range that is no host's: this network, shared and test addresses, multicast and beyond.
abbrev pub reserved_ranges : List (ℕ × ℕ)
reserved_ranges =
    (quad 100 64 0 0, quad 100 127 255 255)
    ∷ (quad 192 0 0 0, quad 192 0 0 255)
    ∷ (quad 192 0 2 0, quad 192 0 2 255)
    ∷ (quad 198 18 0 0, quad 198 19 255 255)
    ∷ (quad 198 51 100 0, quad 198 51 100 255)
    ∷ (quad 203 0 113 0, quad 203 0 113 255)
    ∷ (quad 240 0 0 0, quad 255 255 255 255)
    ∷ []

abbrev pub unusable_ranges : List (ℕ × ℕ)
unusable_ranges =
    (quad 0 0 0 0, quad 0 255 255 255) ∷ (quad 224 0 0 0, quad 239 255 255 255) ∷ reserved_ranges

abbrev pub inside : List (ℕ × ℕ) → ℕ → Bool
inside ranges a = any (λ r. leb r.0 a && leb a r.1) ranges

-- An IPv4 address, and what Qt says of it.
module _ (api : HostApi) (qt : IsIpv4Api api) (a : ℕ) (small : a < 4294967296) where
  -- A subnet, given its range.
  in_range :
      (base len last : ℕ)
      → len ≤ 32
      → (a / 2 ^ (32 - len) == base / 2 ^ (32 - len)) ≡ (leb base a && leb a last)
      → api.in_subnet (ipv4 a) base len ≡ (leb base a && leb a last)
  in_range base len last short e = qt.subnet a base len short ∙ e

  reserved-ranges : in_any api (ipv4 a) reserved_subnets ≡ inside reserved_ranges a
  unfolding in_any reserved_subnets
  reserved-ranges = ground (
    arith,
    in_range (quad 100 64 0 0) 10 (quad 100 127 255 255) (omega arith) (ground arith),
    in_range (quad 192 0 0 0) 24 (quad 192 0 0 255) (omega arith) (ground arith),
    in_range (quad 192 0 2 0) 24 (quad 192 0 2 255) (omega arith) (ground arith),
    in_range (quad 198 18 0 0) 15 (quad 198 19 255 255) (omega arith) (ground arith),
    in_range (quad 198 51 100 0) 24 (quad 198 51 100 255) (omega arith) (ground arith),
    in_range (quad 203 0 113 0) 24 (quad 203 0 113 255) (omega arith) (ground arith),
    in_range (quad 240 0 0 0) 4 (quad 255 255 255 255) (omega arith) (ground arith),
  )

  local-ranges : is_local_address api (ipv4 a) ≡ inside private_ranges a
  unfolding is_local_address in_any local_subnets normalize_address
  local-ranges = ground (
    arith,
    qt.loopback a,
    qt.link_local a,
    in_range (quad 10 0 0 0) 8 (quad 10 255 255 255) (omega arith) (ground arith),
    in_range (quad 127 0 0 0) 8 (quad 127 255 255 255) (omega arith) (ground arith),
    in_range (quad 169 254 0 0) 16 (quad 169 254 255 255) (omega arith) (ground arith),
    in_range (quad 172 16 0 0) 12 (quad 172 31 255 255) (omega arith) (ground arith),
    in_range (quad 192 168 0 0) 16 (quad 192 168 255 255) (omega arith) (ground arith),
  )

  -- This network, multicast, broadcast and what is reserved.
  unusable-ranges :
      ((a == 0 || (a / 16777216 == 0))
        || ((api.is_multicast (ipv4 a) || api.is_broadcast (ipv4 a)) || inside reserved_ranges a))
      ≡ inside unusable_ranges a
  unusable-ranges = rw (qt.multicast a, qt.broadcast a) (ground arith)

  private_not_reserved : inside private_ranges a ≡ true → inside reserved_ranges a ≡ false
  private_not_reserved h = ground arith

-- The order of the filter's questions does not matter where local addresses are not reserved.
reorder :
    (u m l r allow zero_port bad : Bool)
    → (u || (m || r)) ≡ bad
    → (l ≡ true → r ≡ false)
    → (not u && (not m && ((if l then allow else not r) && not zero_port)))
      ≡ (not bad && ((allow || not l) && not zero_port))
reorder u m l r allow zero_port bad e h = ground arith

is_usable_remote-asks :
    (api : HostApi) (a port : ℕ) (allow_local : Bool)
    → is_usable_remote api (record { address = ipv4 a; port = port }) allow_local ≡ (
        not (a == 0 || (a / 16777216 == 0))
        && (not (api.is_multicast (ipv4 a) || api.is_broadcast (ipv4 a))
            && ((if is_local_address api (ipv4 a)
                  then allow_local
                  else not (in_any api (ipv4 a) reserved_subnets))
                && not (port == 0))))
unfolding is_usable_remote address_problem port_problem
is_usable_remote-asks api a port allow_local = ground arith

-- An IPv4 endpoint may be contacted exactly if its port is not 0, its address is in none of the ranges
-- 0.0.0.0/8, 100.64.0.0/10, 192.0.0.0/24, 192.0.2.0/24, 198.18.0.0/15, 198.51.100.0/24,
-- 203.0.113.0/24 and 224.0.0.0 to the end, and, where local addresses are not allowed, in none of
-- 10.0.0.0/8, 127.0.0.0/8, 169.254.0.0/16, 172.16.0.0/12 and 192.168.0.0/16; provided that Qt answers
-- about IPv4 addresses as it documents.
pub is_usable_remote-ipv4 :
    (api : HostApi) (a port : ℕ) (allow_local : Bool)
    → IsIpv4Api api
    → a < 4294967296
    → is_usable_remote api (record { address = ipv4 a; port = port }) allow_local ≡ (
        not (inside unusable_ranges a)
        && ((allow_local || not (inside private_ranges a)) && not (port == 0)))
is_usable_remote-ipv4 api a port allow_local qt small =
    is_usable_remote-asks api a port allow_local
    ∙ rw (local-ranges api qt a small, reserved-ranges api qt a small)
        (reorder (a == 0 || (a / 16777216 == 0))
          (api.is_multicast (ipv4 a) || api.is_broadcast (ipv4 a)) (inside private_ranges a)
          (inside reserved_ranges a) allow_local (port == 0) (inside unusable_ranges a)
          (unusable-ranges api qt a small) (private_not_reserved api qt a small))
