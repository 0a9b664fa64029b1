-- ===== src/Bencode/Decoder.antt =====
-- dhtcore/src/Bencode.cpp: the class Decoder, and bdecode. The decoder's state is the position, the
-- input from there on and the warnings so far; a failure carries the warnings given before it.
use dhtinspector.Common.{
  ℕ, zero, suc, ◌+◌, ◌-◌, ◌*◌, ◌/◌, ◌^◌, Bool, true, false, ◌&&◌, Option, none, some, List, [], ◌∷◌,
  ◌++◌, ltb, leb, ◌==◌, if◌then◌else◌, length, take, drop,
}
use dhtinspector.Common.Ints.{ℤ, pos, negsuc}
use dhtinspector.Bencode.{
  BValue, Shape, Items, Fields, span, built, value, invalid, integer, string, list, dict, nil, cons,
  end, lookup, bytes_lt, emplace,
}

-- The messages of fail() and warn(), with their arguments.
pub data Message : Type 0 where
  unexpected_end integer_out_of_range invalid_integer no_digits : Message
  unterminated_integer unterminated_list unterminated_dict : ℕ → Message
  too_deep : ℕ → Message
  unexpected_byte : ℕ → Message
  length_too_long unterminated_length expected_colon key_not_string : Message
  length_exceeds : ℕ → ℕ → Message

pub data Notice : Type 0 where
  trailing_bytes : ℕ → Notice
  integer_leading_zeros negative_zero length_leading_zeros keys_not_sorted : Notice
  duplicate_key : List ℕ → Notice

-- A message or a notice with its offset.
abbrev pub DecodeError : Type 0
DecodeError = ℕ × Message

abbrev pub Warnings : Type 0
Warnings = List (ℕ × Notice)

-- `ok` is a value with the position, the input left and the warnings. `out_of_fuel` has no counterpart.
pub data Outcome {ℓ} (A : Type ℓ) : Type ℓ where
  ok : A → ℕ → List ℕ → Warnings → Outcome A
  failed : DecodeError → Warnings → Outcome A
  out_of_fuel : Outcome A

abbrev pub bind {ℓ κ} :
    {A : Type ℓ} {B : Type κ} → Outcome A → (A → ℕ → List ℕ → Warnings → Outcome B) → Outcome B
bind (ok a p rest ws) f = f a p rest ws
bind (failed e ws) f = failed e ws
bind out_of_fuel f = out_of_fuel

abbrev pub is_digit : ℕ → Bool
is_digit c = leb b'0' c && leb c b'9'

abbrev pub starts_with_zero : List ℕ → Bool
starts_with_zero [] = false
starts_with_zero (c ∷ cs) = c == b'0'

abbrev pub warn_if : Bool → ℕ → Notice → Warnings → Warnings
warn_if b p n ws = if b then ws ++ (p, n) ∷ [] else ws

-- The digits of an integer: the magnitude and how many there were.
unfoldable pub scan_magnitude : ℕ → ℕ → ℕ → Warnings → List ℕ → Outcome (ℕ × ℕ)
scan_magnitude mag count p ws [] = ok (mag, count) p [] ws
scan_magnitude mag count p ws (c ∷ rest) =
    let more = scan_magnitude (mag * 10 + (c - 48)) (suc count) (suc p) ws rest in
    if is_digit c
    then (if ltb ((2 ^ 64 - 1 - (c - 48)) / 10) mag
        then failed (p, integer_out_of_range) ws
        else more)
    else ok (mag, count) p (c ∷ rest) ws

unfoldable pub signed : Bool → ℕ → ℤ
signed false n = pos n
signed true zero = pos 0
signed true (suc n) = negsuc n

-- numeric_limits<qint64>::max(), one more for a negative number.
abbrev pub magnitude_limit : Bool → ℕ
magnitude_limit negative = if negative then 2 ^ 63 else 2 ^ 63 - 1

-- The checks after the digits; `from` is the input at the first digit.
unfoldable pub finish_integer : ℕ → Bool → List ℕ → ℕ → ℕ → ℕ → Warnings → List ℕ → Outcome Shape
unfolding signed
finish_integer start negative from mag count p ws [] = failed (p, unterminated_integer start) ws
finish_integer start negative from mag count p ws (c ∷ rest) =
    if c == b'e'
    then (if count == 0
        then failed (p, no_digits) ws
        else (if ltb (magnitude_limit negative) mag
            then failed (p, integer_out_of_range) ws
            else ok (integer (signed negative mag)) (suc p) rest (
                warn_if (negative && mag == 0) p negative_zero
                  (warn_if (ltb 1 count && starts_with_zero from) p integer_leading_zeros ws))))
    else failed (p, invalid_integer) ws

unfoldable pub integer_digits : ℕ → Bool → ℕ → Warnings → List ℕ → Outcome Shape
unfolding scan_magnitude finish_integer
integer_digits start negative p ws from =
    bind (scan_magnitude 0 0 p ws from)
      (λ m p' rest ws'. finish_integer start negative from m.0 m.1 p' ws' rest)

-- parseInteger, called at the 'i'; `rest` is what follows it.
unfoldable pub parse_integer : ℕ → Warnings → List ℕ → Outcome Shape
unfolding integer_digits
parse_integer start ws [] = integer_digits start false (suc start) ws []
parse_integer start ws (c ∷ rest) =
    if c == b'-'
    then integer_digits start true (suc (suc start)) ws rest
    else integer_digits start false (suc start) ws (c ∷ rest)

-- The digits of a string's length: the length and how many there were.
unfoldable pub scan_length : ℕ → ℕ → ℕ → Warnings → List ℕ → Outcome (ℕ × ℕ)
scan_length len count p ws [] = ok (len, count) p [] ws
scan_length len count p ws (c ∷ rest) =
    let more = scan_length (len * 10 + (c - 48)) (suc count) (suc p) ws rest in
    if is_digit c
    then (if leb 10 count then failed (p, length_too_long) ws else more)
    else ok (len, count) p (c ∷ rest) ws

unfoldable pub finish_string : List ℕ → ℕ → ℕ → ℕ → Warnings → List ℕ → Outcome (List ℕ)
finish_string from len count p ws [] = failed (p, unterminated_length) ws
finish_string from len count p ws (c ∷ rest) =
    let ws' = warn_if (ltb 1 count && starts_with_zero from) p length_leading_zeros ws in
    if c == b':'
    then (if ltb (length rest) len
        then failed (suc p, length_exceeds len (length rest)) ws'
        else ok (take len rest) (suc p + len) (drop len rest) ws')
    else failed (p, expected_colon) ws

unfoldable pub parse_string : ℕ → Warnings → List ℕ → Outcome (List ℕ)
unfolding scan_length finish_string
parse_string p ws from =
    bind (scan_length 0 0 p ws from) (λ m p' rest ws'. finish_string from m.0 m.1 p' ws' rest)

abbrev pub present : Option BValue → Bool
present none = false
present (some v) = true

abbrev pub out_of_order : Option (List ℕ) → List ℕ → Bool
out_of_order none k = false
out_of_order (some j) k = bytes_lt k j

-- The warnings at a key, and the map after its value.
abbrev pub key_warnings : List ℕ → Option (List ℕ) → Fields → ℕ → Warnings → Warnings
key_warnings k previous acc p ws =
    if present (lookup k acc)
    then warn_if true p (duplicate_key k) ws
    else warn_if (out_of_order previous k) p keys_not_sorted ws

abbrev pub add_field : List ℕ → BValue → Fields → Fields
add_field k v acc = if present (lookup k acc) then acc else emplace k v acc

-- setRawSpan on what parseValueInner returned.
abbrev pub with_span : ℕ → Outcome Shape → Outcome BValue
with_span start r = bind r (λ v p rest ws. ok (value (span start (p - start)) v) p rest ws)

-- parseValue, parseList and parseDict. Each call costs a unit of fuel.
unfoldable mutual
  pub parse_value : ℕ → ℕ → ℕ → ℕ → Warnings → List ℕ → Outcome BValue
  parse_value zero deepest depth p ws rest = out_of_fuel
  parse_value (suc f) deepest depth p ws [] = failed (p, unexpected_end) ws
  parse_value (suc f) deepest depth p ws (c ∷ rest) =
      let items =
        with_span p (bind (parse_items f deepest depth p (suc p) ws rest) λ xs. ok (list xs)) in
      let fields =
        with_span p
          (bind (parse_fields f deepest depth p none end (suc p) ws rest) λ fs. ok (dict fs)) in
      if c == b'i'
      then with_span p (parse_integer p ws rest)
      else (if is_digit c
          then with_span p (bind (parse_string p ws (c ∷ rest)) λ s. ok (string s))
          else (if c == b'l'
              then (if leb deepest depth then failed (p, too_deep deepest) ws else items)
              else (if c == b'd'
                  then (if leb deepest depth then failed (p, too_deep deepest) ws else fields)
                  else failed (p, unexpected_byte c) ws)))

  pub parse_items : ℕ → ℕ → ℕ → ℕ → ℕ → Warnings → List ℕ → Outcome Items
  parse_items zero deepest depth start p ws rest = out_of_fuel
  parse_items (suc f) deepest depth start p ws [] = failed (p, unterminated_list start) ws
  parse_items (suc f) deepest depth start p ws (c ∷ rest) =
      let more = bind (parse_value f deepest (suc depth) p ws (c ∷ rest)) (λ x p' rest' ws'.
        bind (parse_items f deepest depth start p' ws' rest') λ xs. ok (cons x xs)) in
      if c == b'e' then ok nil (suc p) rest ws else more

  pub parse_fields :
      ℕ → ℕ → ℕ → ℕ → Option (List ℕ) → Fields → ℕ → Warnings → List ℕ → Outcome Fields
  parse_fields zero deepest depth start previous acc p ws rest = out_of_fuel
  parse_fields (suc f) deepest depth start previous acc p ws [] =
      failed (p, unterminated_dict start) ws
  parse_fields (suc f) deepest depth start previous acc p ws (c ∷ rest) =
      let more = bind (parse_string p ws (c ∷ rest)) (λ k p₁ rest₁ ws₁.
        bind (parse_value f deepest (suc depth) p₁ (key_warnings k previous acc p₁ ws₁) rest₁)
          (λ v p₂ rest₂ ws₂.
            parse_fields f deepest depth start (some k) (add_field k v acc) p₂ ws₂ rest₂)) in
      if c == b'e'
      then ok acc (suc p) rest ws
      else (if is_digit c then more else failed (p, key_not_string) ws)

pub record DecodeResult : Type 0 where
  pub result : BValue
  pub error : Option DecodeError
  pub warnings : Warnings

-- run(): the result, with a warning if input is left.
abbrev pub finish : Outcome BValue → Option DecodeResult
finish (ok v p [] ws) = some (record { result = v; error = none; warnings = ws })
finish (ok v p (c ∷ rest) ws) = some (record {
  result = v;
  error = none;
  warnings = ws ++ (p, trailing_bytes (length (c ∷ rest))) ∷ [];
})
finish (failed e ws) = some (record { result = built invalid; error = some e; warnings = ws })
finish out_of_fuel = none

abbrev pub default_depth : ℕ
default_depth = 32

unfoldable pub bdecode : List ℕ → ℕ → Option DecodeResult
unfolding parse_value
bdecode input deepest = finish (parse_value (2 * length input + 1) deepest 0 0 [] input)
