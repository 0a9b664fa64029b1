-- ===== src/Bencode/Consumes.antt =====
-- dhtcore/src/Bencode.cpp: how far the decoder reads for a number or a string, and what it finds.
use dhtinspector.Common.{
  ℕ, zero, suc, ◌+◌, ◌-◌, ◌*◌, ◌/◌, ◌^◌, ◌≤◌, ◌<◌, ◌≡◌, refl, Bool, true, false, List, [], ◌∷◌, ltb,
  leb, ◌==◌, if◌then◌else◌, length, length-drop, arith, ltb-false,
}
use dhtinspector.Bencode.{
  BValue, Shape, Items, Fields, value, invalid, integer, string, list, dict, pre_encoded, nil, cons,
  end, field,
}
use dhtinspector.Bencode.Keys.{Ascending}
use dhtinspector.Bencode.Scalars.{InRange}
use dhtinspector.Bencode.Decoder.{
  DecodeError, Warnings, Outcome, ok, failed, bind, is_digit, magnitude_limit, signed,
  scan_magnitude, finish_integer, integer_digits, parse_integer, scan_length, finish_string,
  parse_string,
}

-- The run kept within its fuel, and `P` holds of what it returned, if it did not fail.
pub data Ensures {ℓ κ} {A : Type ℓ} (P : A → ℕ → List ℕ → Type κ) : Outcome A → Type (ℓ ⊔ κ) where
  holds : {a : A} {p : ℕ} {rest : List ℕ} {ws : Warnings} → P a p rest → Ensures P (ok a p rest ws)
  rejected : {e : DecodeError} {ws : Warnings} → Ensures P (failed e ws)

module _ {ℓ κ} {A : Type ℓ} {P : A → ℕ → List ℕ → Type κ} where
  pub Ensures-bind {ℓ' κ'} :
      {B : Type ℓ'} {Q : B → ℕ → List ℕ → Type κ'} {r : Outcome A}
      {f : A → ℕ → List ℕ → Warnings → Outcome B}
      → Ensures P r
      → ((a : A) (p : ℕ) (rest : List ℕ) (ws : Warnings) → P a p rest → Ensures Q (f a p rest ws))
      → Ensures Q (bind r f)
  Ensures-bind (holds {a} {p} {rest} {ws} h) k = k a p rest ws h
  Ensures-bind rejected k = rejected

  pub Ensures-mono {κ'} :
      {Q : A → ℕ → List ℕ → Type κ'} {r : Outcome A}
      → Ensures P r
      → ((a : A) (p : ℕ) (rest : List ℕ) → P a p rest → Q a p rest)
      → Ensures Q r
  Ensures-mono (holds {a} {p} {rest} h) k = holds (k a p rest h)
  Ensures-mono rejected k = rejected

  pub Ensures-if :
      (b : Bool) {x y : Outcome A}
      → (b ≡ true → Ensures P x)
      → (b ≡ false → Ensures P y)
      → Ensures P (if b then x else y)
  Ensures-if true hx hy = hx refl
  Ensures-if false hx hy = hy refl

-- What the calls have read is gone from the input and counted in the position.
abbrev Moves {ℓ} : {A : Type ℓ} → ℕ → List ℕ → A → ℕ → List ℕ → Type 0
Moves p input a q rest = (q + length rest ≡ p + length input) × (length rest ≤ length input)

abbrev pub MovesOn {ℓ} : {A : Type ℓ} → ℕ → List ℕ → A → ℕ → List ℕ → Type 0
MovesOn p input a q rest = (q + length rest ≡ p + length input) × (length rest < length input)

scan_magnitude-Moves :
    (mag count p : ℕ) (ws : Warnings) (cs : List ℕ)
    → Ensures (Moves p cs) (scan_magnitude mag count p ws cs)
unfolding scan_magnitude
scan_magnitude-Moves mag count p ws [] = holds (omega arith)
scan_magnitude-Moves mag count p ws (c ∷ cs) =
    Ensures-if (is_digit c)
      (λ _.
        Ensures-if (ltb ((2 ^ 64 - 1 - (c - 48)) / 10) mag) (λ _. rejected)
          (λ _.
            Ensures-mono (scan_magnitude-Moves (mag * 10 + (c - 48)) (suc count) (suc p) ws cs)
              λ _ _ _ h. omega arith))
      (λ _. holds (omega arith))

scan_length-Moves :
    (len count p : ℕ) (ws : Warnings) (cs : List ℕ)
    → Ensures (Moves p cs) (scan_length len count p ws cs)
unfolding scan_length
scan_length-Moves len count p ws [] = holds (omega arith)
scan_length-Moves len count p ws (c ∷ cs) =
    Ensures-if (is_digit c)
      (λ _.
        Ensures-if (leb 10 count) (λ _. rejected)
          (λ _.
            Ensures-mono (scan_length-Moves (len * 10 + (c - 48)) (suc count) (suc p) ws cs)
              λ _ _ _ h. omega arith))
      (λ _. holds (omega arith))

finish_string-MovesOn :
    (from : List ℕ) (len count p : ℕ) (ws : Warnings) (cs : List ℕ)
    → Ensures (MovesOn p cs) (finish_string from len count p ws cs)
unfolding finish_string
finish_string-MovesOn from len count p ws [] = rejected
finish_string-MovesOn from len count p ws (c ∷ cs) =
    Ensures-if (c == b':')
      (λ _.
        Ensures-if (ltb (length cs) len) (λ _. rejected)
          (λ fits. holds (omega (arith, length-drop len cs, ltb-false (length cs) len fits))))
      (λ _. rejected)

pub parse_string-MovesOn :
    (p : ℕ) (ws : Warnings) (cs : List ℕ) → Ensures (MovesOn p cs) (parse_string p ws cs)
unfolding parse_string
parse_string-MovesOn p ws cs = Ensures-bind (scan_length-Moves 0 0 p ws cs) λ m q rest ws' h.
    Ensures-mono (finish_string-MovesOn cs m.0 m.1 q ws' rest) λ _ _ _ k. omega arith

-- A well-formed shape, nested at most `n` deep: integers of 64 bits and keys in strict order.
abbrev mutual
  pub Sound : ℕ → BValue → Type 0
  Sound n (value s v) = SoundShape n v

  pub SoundShape : ℕ → Shape → Type 0
  SoundShape n invalid = ⊥
  SoundShape n (integer z) = InRange z
  SoundShape n (string s) = Unit
  SoundShape n (list xs) = (0 < n) × SoundItems (n - 1) xs
  SoundShape n (dict fs) = (0 < n) × Ascending fs × SoundFields (n - 1) fs
  SoundShape n (pre_encoded b) = ⊥

  pub SoundItems : ℕ → Items → Type 0
  SoundItems n nil = Unit
  SoundItems n (cons x xs) = Sound n x × SoundItems n xs

  pub SoundFields : ℕ → Fields → Type 0
  SoundFields n end = Unit
  SoundFields n (field k v fs) = Sound n v × SoundFields n fs

-- Read on, to a sound value.
abbrev pub ReadsOn {ℓ} : {A : Type ℓ} → (A → Type 0) → ℕ → List ℕ → A → ℕ → List ℕ → Type 0
ReadsOn P p input a q rest =
    P a × (q + length rest ≡ p + length input) × (length rest < length input)

signed-InRange :
    (negative : Bool) (mag : ℕ)
    → ltb (magnitude_limit negative) mag ≡ false
    → InRange (signed negative mag)
unfolding signed
signed-InRange false mag h = ground arith
signed-InRange true zero h = omega arith
signed-InRange true (suc n) h = ground arith

finish_integer-ReadsOn :
    (n start : ℕ) (negative : Bool) (from : List ℕ) (mag count p : ℕ) (ws : Warnings) (cs : List ℕ)
    → Ensures (ReadsOn (SoundShape n) p cs) (finish_integer start negative from mag count p ws cs)
unfolding finish_integer
finish_integer-ReadsOn n start negative from mag count p ws [] = rejected
finish_integer-ReadsOn n start negative from mag count p ws (c ∷ cs) =
    Ensures-if (c == b'e')
      (λ _.
        Ensures-if (count == 0) (λ _. rejected)
          (λ _.
            Ensures-if (ltb (magnitude_limit negative) mag) (λ _. rejected)
              (λ fits. holds (signed-InRange negative mag fits, omega arith, omega arith))))
      (λ _. rejected)

integer_digits-ReadsOn :
    (n start : ℕ) (negative : Bool) (p : ℕ) (ws : Warnings) (cs : List ℕ)
    → Ensures (ReadsOn (SoundShape n) p cs) (integer_digits start negative p ws cs)
unfolding integer_digits
integer_digits-ReadsOn n start negative p ws cs =
    Ensures-bind (scan_magnitude-Moves 0 0 p ws cs) λ m q rest ws' h.
      Ensures-mono (finish_integer-ReadsOn n start negative cs m.0 m.1 q ws' rest)
        λ _ _ _ k. (k.0, omega arith, omega arith)

pub parse_integer-ReadsOn :
    (n start : ℕ) (c : ℕ) (ws : Warnings) (cs : List ℕ)
    → Ensures (ReadsOn (SoundShape n) start (c ∷ cs)) (parse_integer start ws cs)
unfolding parse_integer
parse_integer-ReadsOn n start c ws [] =
    Ensures-mono (integer_digits-ReadsOn n start false (suc start) ws [])
      λ _ _ _ k. (k.0, omega arith, omega arith)
parse_integer-ReadsOn n start c ws (d ∷ cs) =
    Ensures-if (d == b'-')
      (λ _.
        Ensures-mono (integer_digits-ReadsOn n start true (suc (suc start)) ws cs)
          λ _ _ _ k. (k.0, omega arith, omega arith))
      (λ _.
        Ensures-mono (integer_digits-ReadsOn n start false (suc start) ws (d ∷ cs))
          λ _ _ _ k. (k.0, omega arith, omega arith))
