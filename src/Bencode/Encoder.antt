-- ===== src/Bencode/Encoder.antt =====
-- dhtcore/src/Bencode.cpp: encodeInto and bencode.
use dhtinspector.Common.{ℕ, ◌+◌, List, [], ◌∷◌, ◌++◌, length}
use dhtinspector.Common.Ints.{ℤ, pos, negsuc}
use dhtinspector.Bencode.{
  BValue, Shape, Items, Fields, value, invalid, integer, string, list, dict, pre_encoded, nil, cons,
  end, field,
}
use dhtinspector.Bencode.Decimal.{number}

-- QByteArray::number of a qint64.
unfoldable pub signed_number : ℤ → List ℕ
signed_number (pos n) = number n
signed_number (negsuc n) = b'-' ∷ number (n + 1)

unfoldable pub encode_string : List ℕ → List ℕ
encode_string s = number (length s) ++ (b':' ∷ s)

unfoldable mutual
  pub encode : BValue → List ℕ
  encode (value s v) = encode_shape v

  pub encode_shape : Shape → List ℕ
  encode_shape invalid = []
  encode_shape (integer n) = b'i' ∷ (signed_number n ++ (b'e' ∷ []))
  encode_shape (string s) = encode_string s
  encode_shape (list xs) = b'l' ∷ (encode_items xs ++ (b'e' ∷ []))
  encode_shape (dict fs) = b'd' ∷ (encode_fields fs ++ (b'e' ∷ []))
  encode_shape (pre_encoded bytes) = bytes

  pub encode_items : Items → List ℕ
  encode_items nil = []
  encode_items (cons x xs) = encode x ++ encode_items xs

  pub encode_fields : Fields → List ℕ
  encode_fields end = []
  encode_fields (field k v fs) = encode_string k ++ (encode v ++ encode_fields fs)

unfoldable pub bencode : BValue → List ℕ
bencode v = encode v
