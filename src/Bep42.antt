-- ===== src/Bep42.antt =====
-- dhtcore/src/Bep42.cpp and dhtcore/src/Crc32c.cpp: node ids tied to an address. Random bytes are
-- arguments: `random` is the id that NodeId::random gives, `low` the number below 8.
pub mod Generate
use dhtinspector.Common.{
  ℕ, zero, suc, ◌+◌, ◌*◌, ◌/◌, ◌%◌, Bool, ◌&&◌, List, [], ◌∷◌, bit_and, bit_or, bit_xor, ◌==◌,
  if◌then◌else◌, get_or, set, take,
}
use dhtinspector.Endpoint.{
  HostApi, Address, null, ipv4, ipv6, normalize_address, is_local_address, is_null, ipv6_bytes,
  to_be32,
}
use dhtinspector.NodeId.{NodeId}

-- One round of makeTable's inner loop.
crc_shift : ℕ → ℕ
crc_shift c = if bit_and c 1 == 1 then bit_xor (c / 2) 2197175160 else c / 2

crc_rounds : ℕ → ℕ → ℕ
unfolding crc_shift
crc_rounds zero c = c
crc_rounds (suc k) c = crc_rounds k (crc_shift c)

-- kTable[i].
unfoldable pub crc_entry : ℕ → ℕ
unfolding crc_rounds
crc_entry i = crc_rounds 8 i

crc_bytes : ℕ → List ℕ → ℕ
crc_bytes crc [] = crc
crc_bytes crc (b ∷ bs) =
    crc_bytes (bit_xor (crc_entry (bit_and (bit_xor crc b) 255)) (crc / 256)) bs

unfoldable pub crc32c : List ℕ → ℕ
unfolding crc_bytes
crc32c data_bytes = bit_xor (crc_bytes 4294967295 data_bytes) 4294967295

masked : List ℕ → List ℕ → List ℕ
masked [] ms = []
masked (b ∷ bs) [] = []
masked (b ∷ bs) (m ∷ ms) = bit_and b m ∷ masked bs ms

-- ip[0] |= (rand & 7) << 5, on a byte.
mark_first : ℕ → List ℕ → List ℕ
mark_first rand [] = []
mark_first rand (b ∷ bs) = bit_or b (bit_and rand 7 * 32 % 256) ∷ bs

masked_address : Address → List ℕ
unfolding masked
masked_address (ipv4 a) = masked (to_be32 a) (3 ∷ 15 ∷ 63 ∷ 255 ∷ [])
masked_address other =
    masked (take 8 (ipv6_bytes other)) (1 ∷ 3 ∷ 7 ∷ 15 ∷ 31 ∷ 63 ∷ 127 ∷ 255 ∷ [])

unfoldable pub prefix_crc : HostApi → Address → ℕ → ℕ
unfolding mark_first masked_address
prefix_crc api raw rand = crc32c (mark_first rand (masked_address (normalize_address api raw)))

-- quint8(crc >> 24), quint8(crc >> 16) and quint8((crc >> 8) & 0xf8), whose mask reads one byte.
abbrev pub crc_high : ℕ → ℕ
crc_high crc = crc / 16777216 % 256

abbrev pub crc_middle : ℕ → ℕ
crc_middle crc = crc / 65536 % 256

abbrev pub crc_low : ℕ → ℕ
crc_low crc = bit_and (crc / 256 % 256) 248

unfoldable pub generate : HostApi → Address → ℕ → NodeId → ℕ → NodeId
generate api address rand random low =
    let crc = prefix_crc api address rand in
    set (set (set (set random 0 (crc_high crc)) 1 (crc_middle crc)) 2 (bit_or (crc_low crc) low)) 19
      rand

unfoldable pub is_compliant : HostApi → NodeId → Address → Bool
is_compliant api id address =
    let crc = prefix_crc api address (get_or id 19 0) in
    get_or id 0 0 == crc_high crc
    && (get_or id 1 0 == crc_middle crc && bit_and (get_or id 2 0) 248 == crc_low crc)

pub data Status : Type 0 where
  unknown compliant non_compliant exempt : Status

unfoldable pub is_exempt : HostApi → Address → Bool
is_exempt api address = is_local_address api address

unfoldable pub check : HostApi → NodeId → Address → Status
unfolding is_exempt is_compliant
check api id address =
    if is_null address
    then unknown
    else (if is_exempt api address
        then exempt
        else (if is_compliant api id address then compliant else non_compliant))
