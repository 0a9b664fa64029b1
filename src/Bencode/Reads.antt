-- ===== src/Bencode/Reads.antt =====
-- dhtcore/src/Bencode.cpp: one step of the decoder on what bencode writes, for each kind of value.
use dhtinspector.Common.{
  ℕ, suc, ◌+◌, ◌-◌, ◌*◌, ◌^◌, ◌≤◌, ◌<◌, ◌≡◌, refl, ap, ◌∙◌, true, false, Option, none, some, List,
  [], ◌∷◌, ◌++◌, append_assoc, length, length-append, arith,
}
use dhtinspector.Common.Ints.{ℤ}
use dhtinspector.Bencode.{
  BValue, Shape, Items, Fields, span, value, invalid, integer, string, list, dict, pre_encoded, nil,
  cons, end, field, bytes_lt,
}
use dhtinspector.Bencode.Keys.{
  Above, Below, Ascending, append, lookup-Below, emplace-Below, bytes_lt-asym, append_assoc_field,
  Below-append, append_end,
}
use native.Mathlib.Nat.{add-zero}
use mathlib.Core.Path.{ap₂}
use dhtinspector.Bencode.Encoder.{
  encode, encode_shape, encode_items, encode_fields, encode_string, signed_number,
}
use dhtinspector.Bencode.Decoder.{
  Warnings, Outcome, ok, bind, with_span, parse_value, parse_items, parse_fields, parse_string,
  key_warnings, add_field,
}
use dhtinspector.Bencode.Scalars.{
  InRange, parse_string-encode_string, parse_integer-signed_number, AllDigits, number-AllDigits,
  length-number_pos,
}
use dhtinspector.Bencode.Decimal.{number}
use dhtinspector.Bencode.Canonical.{
  Canonical, CanonicalShape, CanonicalItems, CanonicalFields, locate, locate_shape, locate_items,
  locate_fields,
}
use dhtinspector.Bencode.Steps.{
  value_integer, value_string, value_list, value_dict, items_end, items_more, fields_end,
  fields_more, starts_with_end,
}

-- With fuel above `bound`, and room for the nesting, the parser reads the value off its print.
abbrev pub ReadsValue : BValue → Type 0
ReadsValue v =
    (n deepest depth f p : ℕ) (ws : Warnings) (rest : List ℕ)
    → depth + n ≤ deepest
    → Canonical n v
    → 2 * length (encode v) < f
    → parse_value f deepest depth p ws (encode v ++ rest)
      ≡ ok (locate p v) (p + length (encode v)) rest ws

abbrev pub ReadsShape : Shape → Type 0
ReadsShape v =
    (n deepest depth f p : ℕ) (ws : Warnings) (rest : List ℕ)
    → depth + n ≤ deepest
    → CanonicalShape n v
    → 2 * length (encode_shape v) < f
    → parse_value f deepest depth p ws (encode_shape v ++ rest)
      ≡ ok (value (span p (length (encode_shape v))) (locate_shape p v))
          (p + length (encode_shape v)) rest ws

abbrev pub ReadsItems : Items → Type 0
ReadsItems xs =
    (n deepest depth f start p : ℕ) (ws : Warnings) (rest : List ℕ)
    → suc depth + n ≤ deepest
    → CanonicalItems n xs
    → suc (2 * length (encode_items xs)) < f
    → parse_items f deepest depth start p ws (encode_items xs ++ (b'e' ∷ rest))
      ≡ ok (locate_items p xs) (suc (p + length (encode_items xs))) rest ws

-- The last key read is below what is left, and so is every key in the map.
abbrev pub BelowAll : Option (List ℕ) → Fields → Fields → Type 0
BelowAll previous acc end = Unit
BelowAll none acc (field k v fs) = Below k acc
BelowAll (some j) acc (field k v fs) = (bytes_lt j k ≡ true) × Below k acc

abbrev pub ReadsFields : Fields → Type 0
ReadsFields fs =
    (n deepest depth f start p : ℕ) (previous : Option (List ℕ)) (acc : Fields) (ws : Warnings)
    (rest : List ℕ)
    → suc depth + n ≤ deepest
    → CanonicalFields n fs
    → Ascending fs
    → BelowAll previous acc fs
    → suc (2 * length (encode_fields fs)) < f
    → parse_fields f deepest depth start previous acc p ws (encode_fields fs ++ (b'e' ∷ rest))
      ≡ ok (append acc (locate_fields p fs)) (suc (p + length (encode_fields fs))) rest ws

with_span-ok :
    (p len q : ℕ) (v : Shape) (r : Outcome Shape) (rest : List ℕ) (ws : Warnings)
    → r ≡ ok v q rest ws
    → q ≡ p + len
    → with_span p r ≡ ok (value (span p len) v) (p + len) rest ws
with_span-ok p len q v r rest ws e l =
    let fits : p + len - p ≡ len = omega arith in rw (e, l, fits) refl

encode_string-head :
    (s : List ℕ) → (0 < length (encode_string s)) × (starts_with_end (encode_string s) ≡ false)
unfolding encode_string
encode_string-head s =
    head (number (length s)) (length-number_pos (length s)) (number-AllDigits (length s))
  where
    head :
        (ds : List ℕ)
        → 0 < length ds
        → AllDigits ds
        → (0 < length (ds ++ (b':' ∷ s))) × (starts_with_end (ds ++ (b':' ∷ s)) ≡ false)
    head [] h k = absurd (omega arith)
    head (d ∷ ds) h k = (omega arith, ground (arith, k.0))

string_head :
    (s : List ℕ) (f deepest depth p : ℕ) (ws : Warnings) (rest : List ℕ)
    → parse_value (suc f) deepest depth p ws (encode_string s ++ rest)
      ≡ with_span p (bind (parse_string p ws (encode_string s ++ rest)) λ s. ok (string s))
unfolding encode_string
string_head s f deepest depth p ws rest = rw (append_assoc (number (length s)) (b':' ∷ s) rest) (
    value_string f deepest depth p ws (number (length s)) (b':' ∷ (s ++ rest))
      (length-number_pos (length s)) (number-AllDigits (length s)))

fields_head :
    (k : List ℕ) (f deepest depth start p : ℕ) (previous : Option (List ℕ)) (acc : Fields)
    (ws : Warnings) (rest : List ℕ)
    → parse_fields (suc f) deepest depth start previous acc p ws (encode_string k ++ rest)
      ≡ bind (parse_string p ws (encode_string k ++ rest)) (λ k p₁ rest₁ ws₁.
        bind
          (parse_value f deepest (suc depth) p₁ (key_warnings k previous acc p₁ ws₁) rest₁)
          (λ v p₂ rest₂ ws₂.
            parse_fields f deepest depth start (some k) (add_field k v acc) p₂ ws₂ rest₂))
unfolding encode_string
fields_head k f deepest depth start p previous acc ws rest =
    rw (append_assoc (number (length k)) (b':' ∷ k) rest) (
      fields_more f deepest depth start p previous acc ws (number (length k)) (b':' ∷ (k ++ rest))
        (length-number_pos (length k)) (number-AllDigits (length k)))

BelowAll-none : (fs : Fields) → BelowAll none end fs
BelowAll-none end = tt
BelowAll-none (field k v fs) = tt

-- A canonical value is printed as something, and not with the closing letter.
pub encode-starts :
    (n : ℕ) (v : BValue)
    → Canonical n v
    → (0 < length (encode v)) × (starts_with_end (encode v) ≡ false)
unfolding encode
encode-starts n (value s (integer z)) c = (omega arith, refl)
encode-starts n (value s (string b)) c = encode_string-head b
encode-starts n (value s (list xs)) c = (omega arith, refl)
encode-starts n (value s (dict fs)) c = (omega arith, refl)
encode-starts n (value s invalid) c = absurd c
encode-starts n (value s (pre_encoded b)) c = absurd c

pub integer_step :
    (z : ℤ) (n deepest depth f p : ℕ) (ws : Warnings) (rest : List ℕ)
    → InRange z
    → parse_value (suc f) deepest depth p ws (encode_shape (integer z) ++ rest)
      ≡ ok
          (value (span p (length (encode_shape (integer z)))) (integer z))
          (p + length (encode_shape (integer z)))
          rest
          ws
unfolding encode
integer_step z n deepest depth f p ws rest c =
    rw (append_assoc (signed_number z) (b'e' ∷ []) rest) (
      value_integer f deepest depth p ws (signed_number z ++ (b'e' ∷ rest))
      ∙ with_span-ok p (suc (length (signed_number z ++ (b'e' ∷ []))))
          (suc (suc p + length (signed_number z))) (integer z) _ rest ws
          (parse_integer-signed_number z p ws rest c)
          (omega (arith, length-append (signed_number z) (b'e' ∷ []))))

pub string_step :
    (s : List ℕ) (deepest depth f p : ℕ) (ws : Warnings) (rest : List ℕ)
    → length s < 10 ^ 10
    → parse_value (suc f) deepest depth p ws (encode_string s ++ rest)
      ≡ ok
          (value (span p (length (encode_string s))) (string s))
          (p + length (encode_string s))
          rest
          ws
string_step s deepest depth f p ws rest c =
    string_head s f deepest depth p ws rest
    ∙ with_span-ok p (length (encode_string s)) (p + length (encode_string s)) (string s) _ rest ws
        (ap (λ r. bind r (λ s. ok (string s))) (parse_string-encode_string s p ws rest c)) refl

pub list_step :
    (xs : Items)
    → ReadsItems xs
    → (n deepest depth f p : ℕ) (ws : Warnings) (rest : List ℕ) → depth + n ≤ deepest
    → CanonicalShape n (list xs)
    → 2 * length (encode_shape (list xs)) < suc f
    → parse_value (suc f) deepest depth p ws (encode_shape (list xs) ++ rest)
      ≡ ok
          (value (span p (length (encode_shape (list xs)))) (locate_shape p (list xs)))
          (p + length (encode_shape (list xs)))
          rest
          ws
unfolding encode locate
list_step xs ih n deepest depth f p ws rest d c h =
    let len = length-append (encode_items xs) (b'e' ∷ []) in
    rw (append_assoc (encode_items xs) (b'e' ∷ []) rest) (
      value_list f deepest depth p ws (encode_items xs ++ (b'e' ∷ rest)) (omega (arith, c.0))
      ∙ with_span-ok p (suc (length (encode_items xs ++ (b'e' ∷ []))))
          (suc (suc p + length (encode_items xs))) (list (locate_items (suc p) xs)) _ rest ws
          (ap (λ r. bind r (λ xs. ok (list xs)))
            (ih (n - 1) deepest depth f p (suc p) ws rest (omega (arith, c.0)) c.1
              (omega (arith, len))))
          (omega (arith, len)))

pub dict_step :
    (fs : Fields)
    → ReadsFields fs
    → (n deepest depth f p : ℕ) (ws : Warnings) (rest : List ℕ) → depth + n ≤ deepest
    → CanonicalShape n (dict fs)
    → 2 * length (encode_shape (dict fs)) < suc f
    → parse_value (suc f) deepest depth p ws (encode_shape (dict fs) ++ rest)
      ≡ ok
          (value (span p (length (encode_shape (dict fs)))) (locate_shape p (dict fs)))
          (p + length (encode_shape (dict fs)))
          rest
          ws
unfolding encode locate append
dict_step fs ih n deepest depth f p ws rest d c h =
    let len = length-append (encode_fields fs) (b'e' ∷ []) in
    rw (append_assoc (encode_fields fs) (b'e' ∷ []) rest) (
      value_dict f deepest depth p ws (encode_fields fs ++ (b'e' ∷ rest)) (omega (arith, c.0))
      ∙ with_span-ok p (suc (length (encode_fields fs ++ (b'e' ∷ []))))
          (suc (suc p + length (encode_fields fs))) (dict (locate_fields (suc p) fs)) _ rest ws
          (ap (λ r. bind r (λ fs. ok (dict fs)))
            (ih (n - 1) deepest depth f p (suc p) none end ws rest (omega (arith, c.0)) c.2 c.1
              (BelowAll-none fs) (omega (arith, len))))
          (omega (arith, len)))

pub cons_step :
    (x : BValue) (xs : Items)
    → ReadsValue x
    → ReadsItems xs
    → (n deepest depth f start p : ℕ) (ws : Warnings) (rest : List ℕ) → suc depth + n ≤ deepest
    → CanonicalItems n (cons x xs)
    → suc (2 * length (encode_items (cons x xs))) < suc f
    → parse_items (suc f) deepest depth start p ws (encode_items (cons x xs) ++ (b'e' ∷ rest))
      ≡ ok (locate_items p (cons x xs)) (suc (p + length (encode_items (cons x xs)))) rest ws
unfolding encode locate
cons_step x xs ih ihs n deepest depth f start p ws rest d c h =
    let len = length-append (encode x) (encode_items xs) in
    let starts = encode-starts n x c.0 in
    rw (append_assoc (encode x) (encode_items xs) (b'e' ∷ rest)) (
      items_more f deepest depth start p ws (encode x) (encode_items xs ++ (b'e' ∷ rest)) starts.1
      ∙ ap
          (λ r. bind r (λ x p' rest' ws'.
            bind (parse_items f deepest depth start p' ws' rest') λ xs. ok (cons x xs)))
          (ih n deepest (suc depth) f p ws (encode_items xs ++ (b'e' ∷ rest)) d c.0
            (omega (arith, len)))
      ∙ ap (λ r. bind r (λ xs. ok (cons (locate p x) xs)))
          (ihs n deepest depth f start (p + length (encode x)) ws rest d c.1
            (omega (arith, len, starts.0)))
      ∙ ap (λ q. ok (cons (locate p x) (locate_items (p + length (encode x)) xs)) q rest ws)
          (omega (arith, len)))

BelowAll-Below :
    (previous : Option (List ℕ)) (acc : Fields) (k : List ℕ) (v : BValue) (fs : Fields)
    → BelowAll previous acc (field k v fs)
    → Below k acc
BelowAll-Below none acc k v fs b = b
BelowAll-Below (some j) acc k v fs b = b.1

key_warnings-Below :
    (previous : Option (List ℕ)) (acc : Fields) (k : List ℕ) (v : BValue) (fs : Fields) (p : ℕ)
    (ws : Warnings)
    → BelowAll previous acc (field k v fs)
    → key_warnings k previous acc p ws ≡ ws
key_warnings-Below none acc k v fs p ws b = rw (lookup-Below k acc b) refl
key_warnings-Below (some j) acc k v fs p ws b =
    rw (lookup-Below k acc b.1, bytes_lt-asym j k b.0) refl

add_field-Below :
    (k : List ℕ) (v : BValue) (acc : Fields)
    → Below k acc
    → add_field k v acc ≡ append acc (field k v end)
add_field-Below k v acc b = rw (lookup-Below k acc b) (emplace-Below k v acc b)

BelowAll-next :
    (k : List ℕ) (v : BValue) (acc fs : Fields)
    → Below k acc
    → Above k fs
    → BelowAll (some k) (append acc (field k v end)) fs
BelowAll-next k v acc end b a = tt
BelowAll-next k v acc (field j w fs) b a = (a.0, Below-append k j v acc a.0 b)

-- What the loop does after a key, and after its value.
abbrev after_value :
    ℕ → ℕ → ℕ → ℕ → List ℕ → Fields → BValue → ℕ → List ℕ → Warnings → Outcome Fields
after_value f deepest depth start k acc v p rest ws =
    parse_fields f deepest depth start (some k) (add_field k v acc) p ws rest

abbrev after_key :
    ℕ → ℕ → ℕ → ℕ → Option (List ℕ) → Fields → List ℕ → ℕ → List ℕ → Warnings → Outcome Fields
after_key f deepest depth start previous acc k p rest ws =
    bind (parse_value f deepest (suc depth) p (key_warnings k previous acc p ws) rest)
      (after_value f deepest depth start k acc)

pub nil_step :
    (deepest depth f start p : ℕ) (ws : Warnings) (rest : List ℕ)
    → parse_items (suc f) deepest depth start p ws (b'e' ∷ rest) ≡ ok nil (suc (p + 0)) rest ws
nil_step deepest depth f start p ws rest = rw add-zero (items_end f deepest depth start p ws rest)

pub end_step :
    (deepest depth f start p : ℕ) (previous : Option (List ℕ)) (acc : Fields) (ws : Warnings)
    (rest : List ℕ)
    → parse_fields (suc f) deepest depth start previous acc p ws (b'e' ∷ rest)
      ≡ ok (append acc end) (suc (p + 0)) rest ws
end_step deepest depth f start p previous acc ws rest =
    rw (add-zero, append_end acc) (fields_end f deepest depth start p previous acc ws rest)

pub field_step :
    (k : List ℕ) (v : BValue) (fs : Fields)
    → ReadsValue v
    → ReadsFields fs
    → (n deepest depth f start p : ℕ) (previous : Option (List ℕ)) (acc : Fields) (ws : Warnings)
      (rest : List ℕ)
    → suc depth + n ≤ deepest
    → CanonicalFields n (field k v fs)
    → Ascending (field k v fs)
    → BelowAll previous acc (field k v fs)
    → suc (2 * length (encode_fields (field k v fs))) < suc f
    → parse_fields
        (suc f)
        deepest
        depth
        start
        previous
        acc
        p
        ws
        (encode_fields (field k v fs) ++ (b'e' ∷ rest))
      ≡ ok
          (append acc (locate_fields p (field k v fs)))
          (suc (p + length (encode_fields (field k v fs))))
          rest
          ws
unfolding encode locate
field_step k v fs ih ihs n deepest depth f start p previous acc ws rest d c a b h =
    let q = p + length (encode_string k) in
    let len_v = length-append (encode v) (encode_fields fs) in
    let len = length-append (encode_string k) (encode v ++ encode_fields fs) in
    let starts = encode-starts n v c.1 in
    let tail = encode_fields fs ++ (b'e' ∷ rest) in
    let below = BelowAll-Below previous acc k v fs b in
    let acc' = append acc (field k (locate q v) end) in
    rw
      (
        append_assoc (encode_string k) (encode v ++ encode_fields fs) (b'e' ∷ rest),
        append_assoc (encode v) (encode_fields fs) (b'e' ∷ rest),
      )
      (fields_head k f deepest depth start p previous acc ws (encode v ++ tail)
        ∙ ap (λ r. bind r (after_key f deepest depth start previous acc))
            (parse_string-encode_string k p ws (encode v ++ tail) c.0)
        ∙ ap
            (λ ws'.
              bind (parse_value f deepest (suc depth) q ws' (encode v ++ tail))
                (after_value f deepest depth start k acc))
            (key_warnings-Below previous acc k v fs q ws b)
        ∙ ap (λ r. bind r (after_value f deepest depth start k acc))
            (ih n deepest (suc depth) f q ws tail d c.1 (omega (arith, len, len_v)))
        ∙ ap
            (λ acc'.
              parse_fields f deepest depth start (some k) acc' (q + length (encode v)) ws tail)
            (add_field-Below k (locate q v) acc below)
        ∙ ihs n deepest depth f start (q + length (encode v)) (some k) acc' ws rest d c.2 a.1
            (BelowAll-next k (locate q v) acc fs below a.0) (omega (arith, len, len_v, starts.0))
        ∙ ap₂ (λ fs' p'. ok fs' p' rest ws)
            (append_assoc_field acc (locate_fields (q + length (encode v)) fs) k (locate q v))
            (omega (arith, len, len_v)))
