-- ===== src/Bencode/Spans.antt =====
-- dhtcore/src/Bencode.cpp: the raw span of a decoded value cuts its own bytes out of the datagram.
use dhtinspector.Common.{
  ℕ, ◌+◌, ◌-◌, ◌<◌, ◌≡◌, refl, ap, ◌∙◌, false, none, some, List, [], ◌∷◌, ◌++◌, append_assoc,
  ltb_of_le, ◌==◌, length, length-append, take-append, drop-append, bytes_eq, arith, Bool-cases,
  inl, inr,
}
use dhtinspector.Bencode.{
  BValue, Fields, span, value, dict, end, field, lookup, raw_span, raw_slice, built, to_dict,
}
use dhtinspector.Bencode.Canonical.{Canonical, CanonicalFields, locate, locate_fields}
use dhtinspector.Bencode.Encoder.{encode, encode_fields, encode_string, bencode}
use dhtinspector.Bencode.Decoder.{bdecode}
use dhtinspector.Bencode.Reads.{encode-starts}
use dhtinspector.Bencode.RoundTrip.{bdecode-bencode}

slice-middle :
    (pre mid post : List ℕ)
    → 0 < length mid
    → raw_slice (span (length pre) (length mid)) (pre ++ (mid ++ post)) ≡ mid
unfolding raw_slice
slice-middle pre mid post h =
    let fits =
      ltb_of_le (length (pre ++ (mid ++ post))) (length pre + length mid)
        (omega (arith, length-append pre (mid ++ post), length-append mid post)) in
    let some_byte : (length mid == 0) ≡ false = ground arith in
    rw (some_byte, fits, drop-append pre (mid ++ post), take-append mid post) refl

raw_span-locate :
    (pre post : List ℕ) (v : BValue)
    → 0 < length (encode v)
    → raw_span (locate (length pre) v) (pre ++ (encode v ++ post)) ≡ encode v
unfolding raw_span locate encode
raw_span-locate pre post (value s v) h = slice-middle pre _ post h

-- The value at a key of a dictionary that was printed after `pre`.
Found : List ℕ → BValue → ℕ → Fields → List ℕ → Type 0
Found k v p fs source =
    (w : BValue) × (lookup k (locate_fields p fs) ≡ some w) × (raw_span w source ≡ encode v)

regroup : (a b c d e : List ℕ) → a ++ ((b ++ (c ++ d)) ++ e) ≡ (a ++ b) ++ (c ++ (d ++ e))
regroup a b c d e = simp append_assoc

here :
    (n : ℕ) (j pre post : List ℕ) (u : BValue) (fs : Fields)
    → Canonical n u
    → raw_span
        (locate (length pre + length (encode_string j)) u)
        (pre ++ (encode_fields (field j u fs) ++ post))
      ≡ encode u
unfolding encode
here n j pre post u fs c =
    rw
      (
        ← length-append pre (encode_string j),
        regroup pre (encode_string j) (encode u) (encode_fields fs) post,
      )
      (raw_span-locate (pre ++ encode_string j) (encode_fields fs ++ post) u
        (encode-starts n u c).0)

there :
    (n : ℕ) (j k pre post : List ℕ) (u v : BValue) (fs : Fields)
    → Found k v
        (length ((pre ++ encode_string j) ++ encode u))
        fs
        (((pre ++ encode_string j) ++ encode u) ++ (encode_fields fs ++ post))
    → Found k v
        (length pre + length (encode_string j) + length (encode u))
        fs
        (pre ++ (encode_fields (field j u fs) ++ post))
unfolding encode
there n j k pre post u v fs f =
    rw
      (
        ← length-append pre (encode_string j),
        ← length-append (pre ++ encode_string j) (encode u),
        regroup pre (encode_string j) (encode u) (encode_fields fs) post,
        ← append_assoc (pre ++ encode_string j) (encode u) (encode_fields fs ++ post),
      )
      f

lookup-Found :
    (n : ℕ) (fs : Fields) (pre post k : List ℕ) (v : BValue)
    → CanonicalFields n fs
    → lookup k fs ≡ some v
    → Found k v (length pre) fs (pre ++ (encode_fields fs ++ post))
unfolding Found lookup locate
lookup-Found n end pre post k v c h = cc
lookup-Found n (field j u fs) pre post k v c h = elim (Bool-cases (bytes_eq j k)) [
  | inl same ↦ (
    locate (length pre + length (encode_string j)) u,
    rw same refl,
    here n j pre post u fs c.1 ∙ ap encode (ground arith),
  )
  | inr other ↦
      let (w, found, raw) =
        there n j k pre post u v fs
          (lookup-Found n fs ((pre ++ encode_string j) ++ encode u) post k v c.2 (ground arith)) in
      (w, rw other found, raw)
]

-- Decoding what bencode wrote of a canonical dictionary, one nested no deeper than the decoder allows,
-- succeeds with no error and no warning, and each value that the dictionary had at a key is there under
-- that key, with a raw span that cuts out of the datagram exactly what bencode writes for the value:
-- the bytes that BEP 44 hashes and signs.
pub raw_span-bencode :
    (fs : Fields) (k : List ℕ) (v : BValue) (deepest : ℕ)
    → Canonical deepest (built (dict fs))
    → lookup k fs ≡ some v
    → (root w : BValue) × (bdecode (bencode (built (dict fs))) deepest
        ≡ some (record { result = root; error = none; warnings = [] }))
      × (lookup k (to_dict root) ≡ some w)
      × (raw_span w (bencode (built (dict fs))) ≡ bencode v)
unfolding bencode encode locate Found to_dict
raw_span-bencode fs k v deepest c h =
    let (w, found, raw) = lookup-Found (deepest - 1) fs (b'd' ∷ []) (b'e' ∷ []) k v c.2 h in
    (locate 0 (built (dict fs)), w, bdecode-bencode (built (dict fs)) deepest c, found, raw)
