-- ===== src/Bencode/Decimal.antt =====
-- QByteArray::number of a non-negative number: its decimal digits.
use dhtinspector.Common.{ℕ, zero, suc, ◌+◌, ◌/◌, ◌%◌, List, [], ◌∷◌, ◌++◌, ltb, if◌then◌else◌}

-- The fuel bounds the digits; any number above the value is enough.
unfoldable pub digits_of : ℕ → ℕ → List ℕ
digits_of zero n = (48 + n % 10) ∷ []
digits_of (suc fuel) n =
    let front = digits_of fuel (n / 10) in
    if ltb n 10 then (48 + n) ∷ [] else front ++ (48 + n % 10) ∷ []

unfoldable pub number : ℕ → List ℕ
unfolding digits_of
number n = digits_of n n
