-- ===== src/Bencode/Canonical.antt =====
-- dhtcore/src/Bencode.cpp: the values that bencode writes so that they read back, and the raw spans of
-- their parts.
use dhtinspector.Common.{ℕ, suc, ◌+◌, ◌-◌, ◌^◌, ◌<◌, length}
use dhtinspector.Bencode.{
  BValue, Shape, Items, Fields, span, value, invalid, integer, string, list, dict, pre_encoded, nil,
  cons, end, field,
}
use dhtinspector.Bencode.Keys.{Ascending}
use dhtinspector.Bencode.Encoder.{encode, encode_shape, encode_string}
use dhtinspector.Bencode.Scalars.{InRange}

-- What bencode can write so that it reads back: numbers of 64 bits, strings shorter than ten
-- digits' worth, keys in order, and no invalid or pre-encoded part, nested at most `n` deep.
abbrev mutual
  pub Canonical : ℕ → BValue → Type 0
  Canonical n (value s v) = CanonicalShape n v

  pub CanonicalShape : ℕ → Shape → Type 0
  CanonicalShape n invalid = ⊥
  CanonicalShape n (integer z) = InRange z
  CanonicalShape n (string s) = length s < 10 ^ 10
  CanonicalShape n (list xs) = (0 < n) × CanonicalItems (n - 1) xs
  CanonicalShape n (dict fs) = (0 < n) × Ascending fs × CanonicalFields (n - 1) fs
  CanonicalShape n (pre_encoded b) = ⊥

  pub CanonicalItems : ℕ → Items → Type 0
  CanonicalItems n nil = Unit
  CanonicalItems n (cons x xs) = Canonical n x × CanonicalItems n xs

  pub CanonicalFields : ℕ → Fields → Type 0
  CanonicalFields n end = Unit
  CanonicalFields n (field k v fs) = (length k < 10 ^ 10) × Canonical n v × CanonicalFields n fs

-- The value as it is decoded from its print at position `p`: each part with the span of its print.
unfoldable mutual
  pub locate : ℕ → BValue → BValue
  locate p (value s v) = value (span p (length (encode_shape v))) (locate_shape p v)

  pub locate_shape : ℕ → Shape → Shape
  locate_shape p (list xs) = list (locate_items (suc p) xs)
  locate_shape p (dict fs) = dict (locate_fields (suc p) fs)
  locate_shape p invalid = invalid
  locate_shape p (integer z) = integer z
  locate_shape p (string s) = string s
  locate_shape p (pre_encoded b) = pre_encoded b

  pub locate_items : ℕ → Items → Items
  locate_items p nil = nil
  locate_items p (cons x xs) = cons (locate p x) (locate_items (p + length (encode x)) xs)

  pub locate_fields : ℕ → Fields → Fields
  locate_fields p end = end
  locate_fields p (field k v fs) =
      let q = p + length (encode_string k) in
      field k (locate q v) (locate_fields (q + length (encode v)) fs)
