-- ===== src/Bencode/Scalars.antt =====
-- Numbers and strings are read back as they were printed.
use dhtinspector.Common.{
  ℕ, zero, suc, ◌+◌, ◌-◌, ◌*◌, ◌/◌, ◌%◌, ◌^◌, ◌≤◌, ◌<◌, ◌≡◌, refl, ap, ◌∙◌, Bool, true, false, ◌&&◌,
  List, [], ◌∷◌, ◌++◌, append_assoc, ltb, ◌==◌, length, length-append, ltb_of_le, take-append,
  drop-append, arith, Bool-cases, inl, inr,
}
use native.Mathlib.Nat.{pow-suc, add-zero}
use native.Mathlib.Numerals.{add-one}
use mathlib.Core.Path.{ap₂}
use dhtinspector.Common.Ints.{ℤ, pos, negsuc}
use dhtinspector.Bencode.{integer}
use dhtinspector.Bencode.Decimal.{digits_of, number}
use dhtinspector.Bencode.Encoder.{signed_number, encode_string}
use dhtinspector.Bencode.Decoder.{
  Warnings, ok, bind, is_digit, starts_with_zero, scan_magnitude, finish_integer, integer_digits,
  signed, magnitude_limit, parse_integer, scan_length, finish_string, parse_string,
}

-- The value of a run of digits, after what was read before it.
abbrev value_of : ℕ → List ℕ → ℕ
value_of acc [] = acc
value_of acc (c ∷ cs) = value_of (acc * 10 + (c - 48)) cs

value_of-append :
    (acc : ℕ) (xs ys : List ℕ) → value_of acc (xs ++ ys) ≡ value_of (value_of acc xs) ys
value_of-append acc [] ys = refl
value_of-append acc (x ∷ xs) ys = value_of-append (acc * 10 + (x - 48)) xs ys

value_of-digits_of : (fuel n : ℕ) → n ≤ fuel → value_of 0 (digits_of fuel n) ≡ n
unfolding digits_of
value_of-digits_of zero n h = omega arith
value_of-digits_of (suc fuel) n h = ground (
  arith,
  value_of-append 0 (digits_of fuel (n / 10)) ((48 + n % 10) ∷ []),
  value_of-digits_of fuel (n / 10) (omega arith),
)

abbrev pub AllDigits : List ℕ → Type 0
AllDigits [] = Unit
AllDigits (c ∷ cs) = (is_digit c ≡ true) × AllDigits cs

AllDigits-append : (xs ys : List ℕ) → AllDigits xs → AllDigits ys → AllDigits (xs ++ ys)
AllDigits-append [] ys h k = k
AllDigits-append (x ∷ xs) ys h k = (h.0, AllDigits-append xs ys h.1 k)

is_digit_of : (d : ℕ) → d < 10 → is_digit (48 + d) ≡ true
is_digit_of d h = ground arith

digits_of-AllDigits : (fuel n : ℕ) → AllDigits (digits_of fuel n)
unfolding digits_of
digits_of-AllDigits zero n = (is_digit_of (n % 10) (omega arith), tt)
digits_of-AllDigits (suc fuel) n = elim (Bool-cases (ltb n 10)) [
  | inl small ↦ rw small (is_digit_of n (ground arith), tt)
  | inr large ↦ rw large (
      AllDigits-append (digits_of fuel (n / 10)) ((48 + n % 10) ∷ [])
        (digits_of-AllDigits fuel (n / 10)) (is_digit_of (n % 10) (omega arith), tt))
]

length-digits_of_pos : (fuel n : ℕ) → 0 < length (digits_of fuel n)
unfolding digits_of
length-digits_of_pos zero n = omega arith
length-digits_of_pos (suc fuel) n =
    ground (arith, length-append (digits_of fuel (n / 10)) ((48 + n % 10) ∷ []))

length-digits_of : (k fuel n : ℕ) → n < 10 ^ suc k → length (digits_of fuel n) ≤ suc k
unfolding digits_of
length-digits_of k zero n h = omega arith
length-digits_of zero (suc fuel) n h = ground (arith, h, pow-suc 10 0)
length-digits_of (suc k) (suc fuel) n h = ground (
  arith,
  length-append (digits_of fuel (n / 10)) ((48 + n % 10) ∷ []),
  length-digits_of k fuel (n / 10) (omega (arith, pow-suc 10 (suc k))),
)

starts_with_zero-append :
    (xs ys : List ℕ) → 0 < length xs → starts_with_zero (xs ++ ys) ≡ starts_with_zero xs
starts_with_zero-append [] ys h = absurd (omega arith)
starts_with_zero-append (x ∷ xs) ys h = refl

no_leading_zero : (fuel n : ℕ) → 0 < n → n ≤ fuel → starts_with_zero (digits_of fuel n) ≡ false
unfolding digits_of
no_leading_zero zero n h k = absurd (omega arith)
no_leading_zero (suc fuel) n h k = ground (
  arith,
  starts_with_zero-append (digits_of fuel (n / 10)) ((48 + n % 10) ∷ [])
      (length-digits_of_pos fuel (n / 10)),
  no_leading_zero fuel (n / 10),
)

-- A printed number never draws the warning on leading zeros.
no_zero_warning :
    (n : ℕ) (rest : List ℕ)
    → (ltb 1 (length (number n)) && starts_with_zero (number n ++ rest)) ≡ false
unfolding number digits_of
no_zero_warning zero rest = refl
no_zero_warning (suc n) rest = ground (
  arith,
  starts_with_zero-append (number (suc n)) rest (length-digits_of_pos (suc n) (suc n)),
  no_leading_zero (suc n) (suc n) (omega arith) (omega arith),
)

le-value_of : (acc : ℕ) (ds : List ℕ) → acc ≤ value_of acc ds
le-value_of acc [] = omega arith
le-value_of acc (d ∷ ds) = omega (arith, le-value_of (acc * 10 + (d - 48)) ds)

scan_magnitude-digits :
    (ds : List ℕ) (mag count p : ℕ) (ws : Warnings) (rest : List ℕ)
    → AllDigits ds
    → value_of mag ds < 2 ^ 64
    → scan_magnitude mag count p ws (ds ++ rest)
      ≡ scan_magnitude (value_of mag ds) (count + length ds) (p + length ds) ws rest
unfolding scan_magnitude
scan_magnitude-digits [] mag count p ws rest h k = simp add-zero
scan_magnitude-digits (d ∷ ds) mag count p ws rest h k = ground (
  arith,
  le-value_of (mag * 10 + (d - 48)) ds,
  scan_magnitude-digits ds (mag * 10 + (d - 48)) (suc count) (suc p) ws rest h.1 k,
)

scan_length-digits :
    (ds : List ℕ) (len count p : ℕ) (ws : Warnings) (rest : List ℕ)
    → AllDigits ds
    → count + length ds ≤ 10
    → scan_length len count p ws (ds ++ rest)
      ≡ scan_length (value_of len ds) (count + length ds) (p + length ds) ws rest
unfolding scan_length
scan_length-digits [] len count p ws rest h k = simp add-zero
scan_length-digits (d ∷ ds) len count p ws rest h k = ground (
  arith,
  scan_length-digits ds (len * 10 + (d - 48)) (suc count) (suc p) ws rest h.1 (omega arith),
)

abbrev pub InRange : ℤ → Type 0
InRange (pos n) = n < 2 ^ 63
InRange (negsuc n) = n < 2 ^ 63

number-value : (n : ℕ) → value_of 0 (number n) ≡ n
unfolding number
number-value n = value_of-digits_of n n (omega arith)

pub number-AllDigits : (n : ℕ) → AllDigits (number n)
unfolding number
number-AllDigits n = digits_of-AllDigits n n

pub length-number_pos : (n : ℕ) → 0 < length (number n)
unfolding number
length-number_pos n = length-digits_of_pos n n

-- The digits of a number, read at position p and followed by the 'e'.
scan_magnitude-number :
    (n p : ℕ) (ws : Warnings) (rest : List ℕ)
    → n < 2 ^ 64
    → scan_magnitude 0 0 p ws (number n ++ (b'e' ∷ rest))
      ≡ ok (n, length (number n)) (p + length (number n)) (b'e' ∷ rest) ws
unfolding scan_magnitude
scan_magnitude-number n p ws rest h = ground (
  arith,
  number-value n,
  scan_magnitude-digits (number n) 0 0 p ws (b'e' ∷ rest) (number-AllDigits n)
      (omega (arith, number-value n)),
)

scan_length-number :
    (n p : ℕ) (ws : Warnings) (rest : List ℕ)
    → n < 10 ^ 10
    → scan_length 0 0 p ws (number n ++ (b':' ∷ rest))
      ≡ ok (n, length (number n)) (p + length (number n)) (b':' ∷ rest) ws
unfolding scan_length number
scan_length-number n p ws rest h = ground (
  arith,
  number-value n,
  scan_length-digits (number n) 0 0 p ws (b':' ∷ rest) (number-AllDigits n)
      (omega (arith, length-digits_of 9 n n h)),
)

finish_string-colon :
    (from s rest : List ℕ) (count p : ℕ) (ws : Warnings)
    → (ltb 1 count && starts_with_zero from) ≡ false
    → finish_string from (length s) count p ws (b':' ∷ (s ++ rest))
      ≡ ok s (suc p + length s) rest ws
unfolding finish_string
finish_string-colon from s rest count p ws h =
    rw
      (
        h,
        ltb_of_le (length (s ++ rest)) (length s) (omega (arith, length-append s rest)),
        take-append s rest,
        drop-append s rest,
      )
      refl

-- A printed string is read back, with no warning.
pub parse_string-encode_string :
    (s : List ℕ) (p : ℕ) (ws : Warnings) (rest : List ℕ)
    → length s < 10 ^ 10
    → parse_string p ws (encode_string s ++ rest) ≡ ok s (p + length (encode_string s)) rest ws
unfolding parse_string encode_string
parse_string-encode_string s p ws rest h =
    let digits = number (length s) in
    let from = digits ++ (b':' ∷ (s ++ rest)) in
    rw (append_assoc digits (b':' ∷ s) rest) (
      ap (λ r. bind r (λ m p' rest' ws'. finish_string from m.0 m.1 p' ws' rest'))
        (scan_length-number (length s) p ws (s ++ rest) h)
      ∙ finish_string-colon from s rest (length digits) (p + length digits) ws
          (no_zero_warning (length s) (b':' ∷ (s ++ rest)))
      ∙ ap (λ q. ok s q rest ws) (omega (arith, length-append digits (b':' ∷ s))))

finish_integer-end :
    (start : ℕ) (negative : Bool) (from : List ℕ) (mag count p : ℕ) (ws : Warnings) (rest : List ℕ)
    → 0 < count
    → (ltb 1 count && starts_with_zero from) ≡ false
    → (negative && mag == 0) ≡ false
    → mag ≤ magnitude_limit negative
    → finish_integer start negative from mag count p ws (b'e' ∷ rest)
      ≡ ok (integer (signed negative mag)) (suc p) rest ws
unfolding finish_integer
finish_integer-end start negative from mag count p ws rest c z n l = ground arith

-- The digits of an integer and its end, from the first digit on.
integer_digits-number :
    (start : ℕ) (negative : Bool) (n p : ℕ) (ws : Warnings) (rest : List ℕ)
    → (negative && n == 0) ≡ false
    → n ≤ magnitude_limit negative
    → integer_digits start negative p ws (number n ++ (b'e' ∷ rest))
      ≡ ok (integer (signed negative n)) (suc (p + length (number n))) rest ws
unfolding integer_digits
integer_digits-number start negative n p ws rest z l =
    let from = number n ++ (b'e' ∷ rest) in
    ap (λ r. bind r (λ m p' rest' ws'. finish_integer start negative from m.0 m.1 p' ws' rest'))
      (scan_magnitude-number n p ws rest (ground arith))
    ∙ finish_integer-end start negative from n (length (number n)) (p + length (number n)) ws rest
        (length-number_pos n) (no_zero_warning n (b'e' ∷ rest)) z l

not_minus :
    (start : ℕ) (ws : Warnings) (ds rest : List ℕ)
    → 0 < length ds
    → AllDigits ds
    → parse_integer start ws (ds ++ rest) ≡ integer_digits start false (suc start) ws (ds ++ rest)
unfolding parse_integer
not_minus start ws [] rest h k = absurd (omega arith)
not_minus start ws (d ∷ ds) rest h k = ground (arith, k.0)

minus_sign :
    (start : ℕ) (ws : Warnings) (ds : List ℕ)
    → parse_integer start ws (b'-' ∷ ds) ≡ integer_digits start true (suc (suc start)) ws ds
unfolding parse_integer
minus_sign start ws ds = refl

signed-minus : (n : ℕ) → signed true (n + 1) ≡ negsuc n
unfolding signed
signed-minus n = rw add-one refl

-- A printed integer in range is read back, with no warning; `start` is the position of the 'i'.
pub parse_integer-signed_number :
    (n : ℤ) (start : ℕ) (ws : Warnings) (rest : List ℕ)
    → InRange n
    → parse_integer start ws (signed_number n ++ (b'e' ∷ rest))
      ≡ ok (integer n) (suc (suc start + length (signed_number n))) rest ws
unfolding signed_number signed
parse_integer-signed_number (pos n) start ws rest h =
    not_minus start ws (number n) (b'e' ∷ rest) (length-number_pos n) (number-AllDigits n)
    ∙ integer_digits-number start false n (suc start) ws rest refl (omega arith)
parse_integer-signed_number (negsuc n) start ws rest h =
    minus_sign start ws (number (n + 1) ++ (b'e' ∷ rest))
    ∙ integer_digits-number start true (n + 1) (suc (suc start)) ws rest (ground arith)
        (omega arith)
    ∙ ap₂ (λ z q. ok (integer z) q rest ws) (signed-minus n) (omega arith)
