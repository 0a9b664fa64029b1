-- ===== src/Bencode/Keys.antt =====
-- The order of dictionary keys, and dictionaries built in it.
use dhtinspector.Common.{
  ℕ, ◌≡◌, refl, ap, true, false, none, List, [], ◌∷◌, if◌then◌else◌, bytes_eq, arith, Bool-cases,
  inl, inr,
}
use dhtinspector.Bencode.{BValue, Fields, end, field, lookup, bytes_lt, emplace}

pub bytes_lt_trans :
    (xs ys zs : List ℕ) → bytes_lt xs ys ≡ true → bytes_lt ys zs ≡ true → bytes_lt xs zs ≡ true
unfolding bytes_lt
bytes_lt_trans [] [] zs h k = cc
bytes_lt_trans [] (y ∷ ys) [] h k = cc
bytes_lt_trans [] (y ∷ ys) (z ∷ zs) h k = refl
bytes_lt_trans (x ∷ xs) [] zs h k = cc
bytes_lt_trans (x ∷ xs) (y ∷ ys) [] h k = cc
bytes_lt_trans (x ∷ xs) (y ∷ ys) (z ∷ zs) h k = ground (arith, bytes_lt_trans xs ys zs)

pub bytes_lt-ne : (xs ys : List ℕ) → bytes_lt xs ys ≡ true → bytes_eq xs ys ≡ false
unfolding bytes_lt
bytes_lt-ne [] [] h = cc
bytes_lt-ne [] (y ∷ ys) h = refl
bytes_lt-ne (x ∷ xs) [] h = cc
bytes_lt-ne (x ∷ xs) (y ∷ ys) h = ground (arith, bytes_lt-ne xs ys)

pub bytes_lt-asym : (xs ys : List ℕ) → bytes_lt xs ys ≡ true → bytes_lt ys xs ≡ false
unfolding bytes_lt
bytes_lt-asym [] [] h = cc
bytes_lt-asym [] (y ∷ ys) h = refl
bytes_lt-asym (x ∷ xs) [] h = cc
bytes_lt-asym (x ∷ xs) (y ∷ ys) h = ground (arith, bytes_lt-asym xs ys)

pub bytes_lt-total :
    (xs ys : List ℕ) → bytes_lt xs ys ≡ false → bytes_eq ys xs ≡ false → bytes_lt ys xs ≡ true
unfolding bytes_lt
bytes_lt-total [] [] h k = cc
bytes_lt-total [] (y ∷ ys) h k = cc
bytes_lt-total (x ∷ xs) [] h k = refl
bytes_lt-total (x ∷ xs) (y ∷ ys) h k = ground (arith, bytes_lt-total xs ys)

-- Every key is above `k`, or below it.
abbrev pub Above : List ℕ → Fields → Type 0
Above k end = Unit
Above k (field j v fs) = (bytes_lt k j ≡ true) × Above k fs

abbrev pub Below : List ℕ → Fields → Type 0
Below k end = Unit
Below k (field j v fs) = (bytes_lt j k ≡ true) × Below k fs

-- The keys ascend strictly.
abbrev pub Ascending : Fields → Type 0
Ascending end = Unit
Ascending (field k v fs) = Above k fs × Ascending fs

pub Above-trans : (j k : List ℕ) (fs : Fields) → bytes_lt j k ≡ true → Above k fs → Above j fs
Above-trans j k end h a = tt
Above-trans j k (field i v fs) h a = (bytes_lt_trans j k i h a.0, Above-trans j k fs h a.1)

Above-emplace :
    (j k : List ℕ) (v : BValue) (fs : Fields)
    → bytes_lt j k ≡ true
    → Above j fs
    → Above j (emplace k v fs)
unfolding emplace
Above-emplace j k v end h a = (h, tt)
Above-emplace j k v (field i w fs) h a =
    elim (bytes_lt k i)
      as (λ b. Above j (
        if b
        then field k v (field i w fs)
        else (if bytes_eq i k then field i w fs else field i w (emplace k v fs)))) [
          | true ↦ (h, a)
          | false ↦
              elim (bytes_eq i k)
                as (λ b. Above j (if b then field i w fs else field i w (emplace k v fs))) [
                  | true ↦ a
                  | false ↦ (a.0, Above-emplace j k v fs h a.1)
                ]
        ]

-- std::map keeps its keys in order.
pub emplace-Ascending :
    (k : List ℕ) (v : BValue) (fs : Fields) → Ascending fs → Ascending (emplace k v fs)
unfolding emplace
emplace-Ascending k v end h = (tt, tt)
emplace-Ascending k v (field i w fs) h = elim (Bool-cases (bytes_lt k i)) [
  | inl less ↦ rw less ((less, Above-trans k i fs less h.0), h)
  | inr more ↦ rw more (elim (Bool-cases (bytes_eq i k)) [
    | inl same ↦ rw same h
    | inr other ↦
        rw other
          (Above-emplace i k v fs (bytes_lt-total k i more other) h.0, emplace-Ascending k v fs h.1)
  ])
]

unfoldable pub append : Fields → Fields → Fields
append end gs = gs
append (field k v fs) gs = field k v (append fs gs)

pub lookup-Below : (k : List ℕ) (fs : Fields) → Below k fs → lookup k fs ≡ none
unfolding lookup
lookup-Below k end h = refl
lookup-Below k (field j v fs) h = rw (bytes_lt-ne j k h.0) (lookup-Below k fs h.1)

-- A key above all others goes to the end.
pub emplace-Below :
    (k : List ℕ) (v : BValue) (fs : Fields)
    → Below k fs
    → emplace k v fs ≡ append fs (field k v end)
unfolding emplace append
emplace-Below k v end h = refl
emplace-Below k v (field j w fs) h =
    rw (bytes_lt-asym j k h.0, bytes_lt-ne j k h.0) (ap (field j w) (emplace-Below k v fs h.1))

pub append_assoc_field :
    (fs gs : Fields) (k : List ℕ) (v : BValue)
    → append (append fs (field k v end)) gs ≡ append fs (field k v gs)
unfolding append
append_assoc_field end gs k v = refl
append_assoc_field (field j w fs) gs k v = ap (field j w) (append_assoc_field fs gs k v)

pub Below-append :
    (j k : List ℕ) (v : BValue) (fs : Fields)
    → bytes_lt j k ≡ true
    → Below j fs
    → Below k (append fs (field j v end))
unfolding append
Below-append j k v end h b = (h, tt)
Below-append j k v (field i w fs) h b = (bytes_lt_trans i j k b.0 h, Below-append j k v fs h b.1)

pub append_end : (fs : Fields) → append fs end ≡ fs
unfolding append
append_end end = refl
append_end (field k v fs) = ap (field k v) (append_end fs)
