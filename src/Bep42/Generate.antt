-- ===== src/Bep42/Generate.antt =====
-- dhtcore/src/Bep42.cpp: an id that `generate` made passes `isCompliant`.
use dhtinspector.Common.{
  ℕ, zero, suc, ◌<◌, ◌≡◌, ◌≢◌, refl, ◌∙◌, true, List, [], ◌∷◌, bit_and, bit_or, ◌==◌, ==_iff,
  ==_refl, length, length-set, get_or, set, arith, ◌%◌, ◌/◌,
}
use dhtinspector.Common.Bytes.{holds_under, holds_under_at}
use dhtinspector.Endpoint.{HostApi, Address}
use dhtinspector.NodeId.{NodeId}
use dhtinspector.Bep42.{generate, is_compliant, prefix_crc, crc_high, crc_middle, crc_low}

get_or-set : (xs : List ℕ) (i v d : ℕ) → i < length xs → get_or (set xs i v) i d ≡ v
get_or-set [] i v d h = absurd (omega arith)
get_or-set (x ∷ xs) zero v d h = refl
get_or-set (x ∷ xs) (suc i) v d h = get_or-set xs i v d (omega arith)

get_or-set_other : (xs : List ℕ) (i j v d : ℕ) → i ≢ j → get_or (set xs i v) j d ≡ get_or xs j d
get_or-set_other [] i j v d h = refl
get_or-set_other (x ∷ xs) zero zero v d h = absurd (h refl)
get_or-set_other (x ∷ xs) zero (suc j) v d h = refl
get_or-set_other (x ∷ xs) (suc i) zero v d h = refl
get_or-set_other (x ∷ xs) (suc i) (suc j) v d h = get_or-set_other xs i j v d (omega arith)

-- The three low bits do not reach the mask.
mask_law :
    holds_under
      (λ l. holds_under (λ a. bit_and (bit_or (bit_and a 248) l) 248 == bit_and a 248) 256)
      8
    ≡ true
unfolding holds_under
mask_law = refl

masked_low : (crc low : ℕ) → low < 8 → bit_and (bit_or (crc_low crc) low) 248 ≡ crc_low crc
masked_low crc low h = (==_iff _ (crc_low crc)).0 (
    holds_under_at (λ a. bit_and (bit_or (bit_and a 248) low) 248 == bit_and a 248) 256
      (crc / 256 % 256) (omega arith)
      (holds_under_at
        (λ l. holds_under (λ a. bit_and (bit_or (bit_and a 248) l) 248 == bit_and a 248) 256) 8 low
        h mask_law))

bytes_of_generate :
    (api : HostApi) (address : Address) (rand : ℕ) (random : NodeId) (low : ℕ)
    → length random ≡ 20
    → (get_or (generate api address rand random low) 0 0 ≡ crc_high (prefix_crc api address rand))
      × (get_or (generate api address rand random low) 1 0
          ≡ crc_middle (prefix_crc api address rand))
      × (get_or (generate api address rand random low) 2 0
          ≡ bit_or (crc_low (prefix_crc api address rand)) low)
      × (get_or (generate api address rand random low) 19 0 ≡ rand)
unfolding generate
bytes_of_generate api address rand random low h =
    let crc = prefix_crc api address rand in
    let one = set random 0 (crc_high crc) in
    let two = set one 1 (crc_middle crc) in
    let three = set two 2 (bit_or (crc_low crc) low) in
    (
      get_or-set_other three 19 0 rand 0 (omega arith)
          ∙ get_or-set_other two 2 0 (bit_or (crc_low crc) low) 0 (omega arith)
          ∙ get_or-set_other one 1 0 (crc_middle crc) 0 (omega arith)
          ∙ get_or-set random 0 (crc_high crc) 0 (omega arith),
      get_or-set_other three 19 1 rand 0 (omega arith)
          ∙ get_or-set_other two 2 1 (bit_or (crc_low crc) low) 0 (omega arith)
          ∙ get_or-set one 1 (crc_middle crc) 0 (omega (arith, length-set random 0 (crc_high crc))),
      get_or-set_other three 19 2 rand 0 (omega arith)
          ∙ get_or-set two 2 (bit_or (crc_low crc) low) 0 (
              omega (arith, length-set one 1 (crc_middle crc), length-set random 0 (crc_high crc))),
      get_or-set three 19 rand 0 (
          omega (
            arith,
            length-set two 2 (bit_or (crc_low crc) low),
            length-set one 1 (crc_middle crc),
            length-set random 0 (crc_high crc),
          )),
    )

-- An id generated for an address from 20 random bytes and a random number below 8 is compliant
-- with that address.
pub is_compliant-generate :
    (api : HostApi) (address : Address) (rand : ℕ) (random : NodeId) (low : ℕ)
    → length random ≡ 20
    → low < 8
    → is_compliant api (generate api address rand random low) address ≡ true
unfolding is_compliant
is_compliant-generate api address rand random low h k =
    let crc = prefix_crc api address rand in
    let b = bytes_of_generate api address rand random low h in
    rw (b.3, b.0, b.1, b.2, masked_low crc low k, ==_refl (crc_high crc), ==_refl (crc_middle crc))
      (==_refl (crc_low crc))
