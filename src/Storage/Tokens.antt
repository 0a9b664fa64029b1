-- ===== src/Storage/Tokens.antt =====
-- dhtcore/src/Support.cpp: TokenManager. The secrets that randomBytes gives are arguments.
use dhtinspector.Common.{
  ℕ, ◌+◌, ◌-◌, ◌*◌, ◌≤◌, ◌<◌, ◌≡◌, refl, Bool, true, ◌||◌, Option, none, some, inl, inr, ◌⊎◌, List,
  ◌++◌, leb, if◌then◌else◌, take, bytes_eq, bytes_eq_refl, arith, Bool-cases,
}
use dhtinspector.Bep44.{Crypto}
use dhtinspector.Endpoint.{HostApi, Address, ipv4, normalize_address, to_be32, ipv6_bytes}

pub record TokenManager : Type 0 where
  pub current : List ℕ
  pub previous : List ℕ
  pub rotated_at : Option ℕ

abbrev pub rotation_ms : ℕ
rotation_ms = 300000

bytes_of_address : Address → List ℕ
bytes_of_address (ipv4 a) = to_be32 a
bytes_of_address other = ipv6_bytes other

unfoldable pub address_bytes : HostApi → Address → List ℕ
unfolding bytes_of_address
address_bytes api raw = bytes_of_address (normalize_address api raw)

-- Both secrets anew.
abbrev pub renew : List ℕ × List ℕ → ℕ → TokenManager
renew secrets now = record { current = secrets.0; previous = secrets.1; rotated_at = some now }

-- A new current secret.
abbrev pub rotate : List ℕ × List ℕ → ℕ → TokenManager → TokenManager
rotate secrets now m = record { current = secrets.0; previous = m.current; rotated_at = some now }

rotate_since : List ℕ × List ℕ → ℕ → Option ℕ → TokenManager → TokenManager
rotate_since secrets now none m = renew secrets now
rotate_since secrets now (some at) m =
    if leb (2 * rotation_ms) (now - at)
    then renew secrets now
    else (if leb rotation_ms (now - at) then rotate secrets now m else m)

unfoldable pub rotate_if_needed : List ℕ × List ℕ → ℕ → TokenManager → TokenManager
unfolding rotate_since
rotate_if_needed secrets now m = rotate_since secrets now m.rotated_at m

unfoldable pub token_for : HostApi → Crypto → List ℕ → Address → List ℕ
unfolding address_bytes
token_for api crypto secret address = take 8 (crypto.sha1 (secret ++ address_bytes api address))

unfoldable pub generate :
    HostApi → Crypto → List ℕ × List ℕ → Address → ℕ → TokenManager → List ℕ × TokenManager
generate api crypto secrets address now m =
    let rotated = rotate_if_needed secrets now m in
    (token_for api crypto rotated.current address, rotated)

unfoldable pub validate :
    HostApi → Crypto → List ℕ × List ℕ → List ℕ → Address → ℕ → TokenManager → Bool × TokenManager
validate api crypto secrets token address now m =
    let rotated = rotate_if_needed secrets now m in
    (
      bytes_eq token (token_for api crypto rotated.current address)
          || bytes_eq token (token_for api crypto rotated.previous address),
      rotated,
    )

-- After a rotation the secrets are less than five minutes old.
RecentAt : ℕ → Option ℕ → Type 0
RecentAt now none = ⊥
RecentAt now (some at) = now < at + rotation_ms

rotate_since-recent :
    (secrets : List ℕ × List ℕ) (now : ℕ) (o : Option ℕ) (m : TokenManager)
    → m.rotated_at ≡ o
    → RecentAt now (rotate_since secrets now o m).rotated_at
unfolding rotate_since RecentAt
rotate_since-recent secrets now none m e = omega arith
rotate_since-recent secrets now (some at) m e = elim (Bool-cases (leb 600000 (now - at))) [
  | inl a ↦ rw a (omega arith)
  | inr a ↦ elim (Bool-cases (leb 300000 (now - at))) [
    | inl b ↦ rw (a, b) (omega arith)
    | inr b ↦ rw (a, b, e) (ground arith)
  ]
]

-- A secret stays the current or the previous one for five minutes.
rotate_since-keeps :
    (secrets : List ℕ × List ℕ) (start now : ℕ) (o : Option ℕ) (m : TokenManager)
    → RecentAt start o
    → now ≤ start + rotation_ms
    → ((rotate_since secrets now o m).current ≡ m.current)
      ⊎ ((rotate_since secrets now o m).previous ≡ m.current)
unfolding rotate_since RecentAt
rotate_since-keeps secrets start now none m r h = absurd r
rotate_since-keeps secrets start now (some at) m r h = elim (Bool-cases (leb 600000 (now - at))) [
  | inl a ↦ absurd (ground arith)
  | inr a ↦ elim (Bool-cases (leb 300000 (now - at))) [
    | inl b ↦ rw (a, b) (inr refl)
    | inr b ↦ rw (a, b) (inl refl)
  ]
]

-- A token that is generated for an address is valid for that address for the next five minutes,
-- whatever the secrets are, when nothing else is asked in between.
pub validate-generate :
    (api : HostApi) (crypto : Crypto) (first second : List ℕ × List ℕ) (address : Address)
    (start now : ℕ) (m : TokenManager)
    → now ≤ start + 300000
    → (validate api crypto second
        (generate api crypto first address start m).0
        address
        now
        (generate api crypto first address start m).1).0
      ≡ true
unfolding validate generate rotate_if_needed
validate-generate api crypto first second address start now m h =
    let rotated = rotate_since first start m.rotated_at m in
    let same = bytes_eq_refl (token_for api crypto rotated.current address) in
    elim (rotate_since-keeps second start now rotated.rotated_at rotated
      (rotate_since-recent first start m.rotated_at m refl) h) [
        | inl e ↦ rw (e, same) refl
        | inr e ↦ rw (e, same) (ground arith)
      ]
