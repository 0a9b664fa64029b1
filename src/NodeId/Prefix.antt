-- ===== src/NodeId/Prefix.antt =====
-- dhtcore/src/NodeId.cpp: the common prefix length, and what it says of closeness.
use dhtinspector.Common.{
  ℕ, suc, ◌+◌, ◌*◌, ◌≤◌, ◌<◌, ◌≡◌, refl, true, [], ◌∷◌, bit_xor, ◌↔◌, length, All, arith,
}
use dhtinspector.NodeId.Metric.{bit_xor_comm, bit_xor-zero, bit_xor_self}
use dhtinspector.NodeId.{
  NodeId, IsByte, IsNodeId, closer, prefix_from, common_prefix_length, countl_zero,
}

countl_zero-le : (x : ℕ) → countl_zero x ≤ 8
unfolding countl_zero
countl_zero-le x = ground arith

prefix_from-le : (i : ℕ) (a b : NodeId) → i * 8 + length a * 8 ≤ 160 → prefix_from i a b ≤ 160
unfolding prefix_from
prefix_from-le i [] b h = omega arith
prefix_from-le i (x ∷ xs) [] h = omega arith
prefix_from-le i (x ∷ xs) (y ∷ ys) h =
    ground (arith, countl_zero-le (bit_xor x y), prefix_from-le (suc i) xs ys (omega arith))

prefix_from-ge :
    (i : ℕ) (a b : NodeId) → i ≤ 20 → length a ≤ 20 → i + length a ≤ 20 → i * 8 ≤ prefix_from i a b
unfolding prefix_from
prefix_from-ge i [] b h k l = omega arith
prefix_from-ge i (x ∷ xs) [] h k l = omega arith
prefix_from-ge i (x ∷ xs) (y ∷ ys) h k l =
    ground (arith, prefix_from-ge (suc i) xs ys (omega arith) (omega arith) (omega arith))

countl_zero-lt_of_pos : (x : ℕ) → 0 < x → countl_zero x < 8
unfolding countl_zero
countl_zero-lt_of_pos x h = ground arith

countl_zero-antitone : (x y : ℕ) → countl_zero y < countl_zero x → x < y
unfolding countl_zero
countl_zero-antitone x y h = ground arith

prefix_from-eq : (i : ℕ) (a : NodeId) → All IsByte a → prefix_from i a a ≡ 160
unfolding prefix_from
prefix_from-eq i [] h = refl
prefix_from-eq i (x ∷ xs) h = rw (bit_xor_self x h.0) (prefix_from-eq (suc i) xs h.1)

-- More shared leading bits mean a shorter distance.
closer_of_prefix :
    (i : ℕ) (t a b : NodeId)
    → All IsByte t
    → All IsByte a
    → All IsByte b
    → length t ≡ length a
    → length a ≡ length b
    → i + length t ≤ 20
    → prefix_from i t b < prefix_from i t a
    → closer t a b ≡ true
unfolding prefix_from closer
closer_of_prefix i [] [] [] ht ha hb p q l h = absurd (omega arith)
closer_of_prefix i (t ∷ ts) (x ∷ xs) (y ∷ ys) ht ha hb p q l h = ground (
  arith,
  bit_xor_comm x t ha.0 ht.0,
  bit_xor_comm y t hb.0 ht.0,
  countl_zero-antitone (bit_xor t x) (bit_xor t y),
  countl_zero-lt_of_pos (bit_xor t x),
  prefix_from-ge (suc i) ts ys,
  closer_of_prefix (suc i) ts xs ys ht.1 ha.1 hb.1 (omega arith) (omega arith) (omega arith),
)
closer_of_prefix i [] (x ∷ xs) b ht ha hb p q l h = absurd (omega arith)
closer_of_prefix i [] [] (y ∷ ys) ht ha hb p q l h = absurd (omega arith)
closer_of_prefix i (t ∷ ts) [] b ht ha hb p q l h = absurd (omega arith)
closer_of_prefix i (t ∷ ts) (x ∷ xs) [] ht ha hb p q l h = absurd (omega arith)

eq_of_prefix :
    (i : ℕ) (a b : NodeId)
    → All IsByte a
    → All IsByte b
    → length a ≡ length b
    → i + length a ≤ 20
    → prefix_from i a b ≡ 160
    → a ≡ b
unfolding prefix_from
eq_of_prefix i [] [] ha hb p l h = refl
eq_of_prefix i (x ∷ xs) (y ∷ ys) ha hb p l h = ground (
  arith,
  bit_xor-zero x y ha.0 hb.0,
  countl_zero-lt_of_pos (bit_xor x y),
  eq_of_prefix (suc i) xs ys ha.1 hb.1 (omega arith) (omega arith),
)
eq_of_prefix i [] (y ∷ ys) ha hb p l h = absurd (omega arith)
eq_of_prefix i (x ∷ xs) [] ha hb p l h = absurd (omega arith)

-- The prefix length is at most 160, and it is 160 exactly for equal ids.
pub common_prefix_length_bounds :
    (a b : NodeId)
    → IsNodeId a
    → IsNodeId b
    → (common_prefix_length a b ≤ 160) × ((common_prefix_length a b ≡ 160) ↔ (a ≡ b))
unfolding common_prefix_length
common_prefix_length_bounds a b ha hb = (
  prefix_from-le 0 a b (omega (arith, ha.sized)),
  (
    eq_of_prefix 0 a b ha.bytes hb.bytes (omega (arith, ha.sized, hb.sized))
        (omega (arith, ha.sized)),
    λ p. rw p (prefix_from-eq 0 b hb.bytes),
  ),
)

-- An id that shares more leading bits with the target than another is the closer of the two.
pub closer_of_longer_prefix :
    (t a b : NodeId)
    → IsNodeId t
    → IsNodeId a
    → IsNodeId b
    → common_prefix_length t b < common_prefix_length t a
    → closer t a b ≡ true
unfolding common_prefix_length
closer_of_longer_prefix t a b ht ha hb h =
    closer_of_prefix 0 t a b ht.bytes ha.bytes hb.bytes (omega (arith, ht.sized, ha.sized))
      (omega (arith, ha.sized, hb.sized)) (omega (arith, ht.sized)) h
