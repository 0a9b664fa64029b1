-- ===== src/NodeId/Metric.antt =====
-- dhtcore/src/NodeId.cpp: `closer` orders the ids strictly and totally.
use dhtinspector.Common.{
  ℕ, ◌<◌, ◌≡◌, refl, ◌&&◌, ◌∙◌, sym, ◌⊎◌, inr, true, false, [], ◌∷◌, bit_xor, ◌==◌, ==_refl, length,
  All, arith,
}
use dhtinspector.Common.Bytes.{holds_under, holds_under_at}
use dhtinspector.NodeId.{NodeId, IsByte, IsNodeId, closer}

-- The laws of xor on bytes, checked on all of them.
xor_laws :
    holds_under
      (λ t.
        holds_under (λ x. bit_xor (bit_xor x t) t == x && bit_xor x t == bit_xor t x) 256
        && bit_xor t t == 0)
      256
    ≡ true
unfolding holds_under
xor_laws = refl

xor_laws_of :
    (x t : ℕ)
    → x < 256
    → t < 256
    → (bit_xor (bit_xor x t) t ≡ x) × (bit_xor x t ≡ bit_xor t x) × (bit_xor t t ≡ 0)
xor_laws_of x t hx ht =
    let inner = λ (x : ℕ). bit_xor (bit_xor x t) t == x && bit_xor x t == bit_xor t x in
    let outer =
      holds_under_at
        (λ t.
          holds_under (λ x. bit_xor (bit_xor x t) t == x && bit_xor x t == bit_xor t x) 256
          && bit_xor t t == 0)
        256 t ht xor_laws in
    ground (arith, outer, holds_under_at inner 256 x hx)

pub bit_xor-twice : (x t : ℕ) → x < 256 → t < 256 → bit_xor (bit_xor x t) t ≡ x
bit_xor-twice x t hx ht = (xor_laws_of x t hx ht).0

pub bit_xor-injective :
    (x y t : ℕ) → x < 256 → y < 256 → t < 256 → bit_xor x t ≡ bit_xor y t → x ≡ y
bit_xor-injective x y t hx hy ht e = cc (bit_xor-twice x t hx ht, bit_xor-twice y t hy ht)

pub bit_xor_comm : (x t : ℕ) → x < 256 → t < 256 → bit_xor x t ≡ bit_xor t x
bit_xor_comm x t hx ht = (xor_laws_of x t hx ht).1

pub bit_xor_self : (x : ℕ) → x < 256 → bit_xor x x ≡ 0
bit_xor_self x hx = (xor_laws_of x x hx hx).2

pub bit_xor-zero : (x y : ℕ) → x < 256 → y < 256 → bit_xor x y ≡ 0 → x ≡ y
bit_xor-zero x y hx hy e = bit_xor-injective x y y hx hy hy (e ∙ sym (bit_xor_self y hy))

pub closer-irreflexive : (t a : NodeId) → closer t a a ≡ false
unfolding closer
closer-irreflexive [] a = refl
closer-irreflexive (t ∷ ts) [] = refl
closer-irreflexive (t ∷ ts) (x ∷ xs) = rw (==_refl (bit_xor x t)) (closer-irreflexive ts xs)

pub closer_trans :
    (t a b c : NodeId) → closer t a b ≡ true → closer t b c ≡ true → closer t a c ≡ true
unfolding closer
closer_trans (t ∷ ts) (x ∷ xs) (y ∷ ys) (z ∷ zs) h k = ground (arith, closer_trans ts xs ys zs)
closer_trans (t ∷ ts) (x ∷ xs) (y ∷ ys) [] h k = cc
closer_trans (t ∷ ts) (x ∷ xs) [] c h k = cc
closer_trans (t ∷ ts) [] b c h k = cc
closer_trans [] a b c h k = cc

closer-total :
    (t a b : NodeId)
    → All IsByte t
    → All IsByte a
    → All IsByte b
    → length t ≡ length a
    → length a ≡ length b
    → (closer t a b ≡ true) ⊎ ((closer t b a ≡ true) ⊎ (a ≡ b))
unfolding closer
closer-total [] [] [] ht ha hb p q = inr (inr refl)
closer-total (t ∷ ts) (x ∷ xs) (y ∷ ys) ht ha hb p q = ground (
  arith,
  bit_xor-injective x y t ha.0 hb.0 ht.0,
  closer-total ts xs ys ht.1 ha.1 hb.1 (omega arith) (omega arith),
)
closer-total [] (x ∷ xs) b ht ha hb p q = absurd (omega arith)
closer-total [] [] (y ∷ ys) ht ha hb p q = absurd (omega arith)
closer-total (t ∷ ts) [] b ht ha hb p q = absurd (omega arith)
closer-total (t ∷ ts) (x ∷ xs) [] ht ha hb p q = absurd (omega arith)

-- The XOR metric is a strict total order around any target: no id is closer than itself, closeness
-- is transitive, and of two ids one is closer or they are equal.
pub closer-strict_total_order :
    (t a b c : NodeId)
    → IsNodeId t
    → IsNodeId a
    → IsNodeId b
    → (closer t a a ≡ false)
      × (closer t a b ≡ true → closer t b c ≡ true → closer t a c ≡ true)
      × ((closer t a b ≡ true) ⊎ ((closer t b a ≡ true) ⊎ (a ≡ b)))
closer-strict_total_order t a b c ht ha hb = (
  closer-irreflexive t a,
  closer_trans t a b c,
  closer-total t a b ht.bytes ha.bytes hb.bytes (omega arith) (omega arith),
)
