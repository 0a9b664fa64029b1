-- ===== src/NodeId.antt =====
-- dhtcore/src/NodeId.cpp and dhtcore/include/dhtcore/NodeId.h: the 160-bit Kademlia identifier.
-- An id is the list of its 20 bytes; `IsNodeId` says so. Random bytes are an argument.
pub mod Metric
pub mod Prefix
use dhtinspector.Common.{
  ℕ, zero, suc, ◌+◌, ◌*◌, ◌<◌, ◌≡◌, Bool, true, false, Option, none, some, List, [], ◌∷◌, bit_xor,
  ltb, ◌==◌, if◌then◌else◌, length, All, bytes_eq,
}

abbrev pub NodeId : Type 0
NodeId = List ℕ

-- NodeId::Size and NodeId::Bits.
abbrev pub size : ℕ
size = 20

abbrev pub bits : ℕ
bits = 160

abbrev pub IsByte : ℕ → Type 0
IsByte b = b < 256

pub record IsNodeId (id : NodeId) : Type 0 where
  pub sized : length id ≡ 20
  pub bytes : All IsByte id

-- The defaulted operator==.
abbrev pub id_eq : NodeId → NodeId → Bool
id_eq a b = bytes_eq a b

unfoldable pub from_bytes : List ℕ → Option NodeId
from_bytes bytes = if length bytes == size then some bytes else none

-- operator^, byte by byte.
unfoldable pub xor : NodeId → NodeId → NodeId
xor [] ys = []
xor (x ∷ xs) [] = []
xor (x ∷ xs) (y ∷ ys) = bit_xor x y ∷ xor xs ys

-- std::countl_zero on a quint8.
unfoldable pub countl_zero : ℕ → ℕ
countl_zero x =
    if ltb x 16
    then (if ltb x 4
        then (if ltb x 2 then (if ltb x 1 then 8 else 7) else 6)
        else (if ltb x 8 then 5 else 4))
    else (if ltb x 64 then (if ltb x 32 then 3 else 2) else (if ltb x 128 then 1 else 0))

-- The loop of commonPrefixLength from byte `i` on; a run to the end is Bits.
unfoldable pub prefix_from : ℕ → NodeId → NodeId → ℕ
prefix_from i [] ys = bits
prefix_from i (x ∷ xs) [] = bits
prefix_from i (x ∷ xs) (y ∷ ys) =
    if bit_xor x y == 0 then prefix_from (suc i) xs ys else i * 8 + countl_zero (bit_xor x y)

unfoldable pub common_prefix_length : NodeId → NodeId → ℕ
common_prefix_length a b = prefix_from 0 a b

-- True if `a` is strictly closer to `target` than `b` under the XOR metric.
unfoldable pub closer : NodeId → NodeId → NodeId → Bool
closer (t ∷ ts) (x ∷ xs) (y ∷ ys) =
    if bit_xor x t == bit_xor y t then closer ts xs ys else ltb (bit_xor x t) (bit_xor y t)
closer _ _ _ = false
