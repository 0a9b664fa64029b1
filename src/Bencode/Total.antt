-- ===== src/Bencode/Total.antt =====
-- dhtcore/src/Bencode.cpp: the decoder ends on every input, and what it returns is well formed.
use dhtinspector.Common.{
  ℕ, zero, suc, ◌+◌, ◌-◌, ◌*◌, ◌≤◌, ◌<◌, ◌≡◌, true, false, Option, none, some, List, [], ◌∷◌, leb,
  ◌==◌, if◌then◌else◌, length, bytes_eq, arith,
}
use dhtinspector.Bencode.{BValue, Shape, Fields, end, field, lookup, emplace, bytes_lt}
use dhtinspector.Bencode.Keys.{Ascending, emplace-Ascending}
use dhtinspector.Bencode.Consumes.{
  Ensures, holds, rejected, Ensures-bind, Ensures-mono, Ensures-if, ReadsOn, Sound, SoundShape,
  SoundItems, SoundFields, parse_string-MovesOn, parse_integer-ReadsOn,
}
use dhtinspector.Bencode.Decoder.{
  Warnings, Outcome, with_span, is_digit, present, key_warnings, add_field, parse_value,
  parse_items, parse_fields, DecodeResult, finish, bdecode,
}

emplace-SoundFields :
    (n : ℕ) (k : List ℕ) (v : BValue) (fs : Fields)
    → Sound n v
    → SoundFields n fs
    → SoundFields n (emplace k v fs)
unfolding emplace
emplace-SoundFields n k v end h g = (h, tt)
emplace-SoundFields n k v (field j w fs) h g =
    elim (bytes_lt k j)
      as (λ b. SoundFields n (
        if b
        then field k v (field j w fs)
        else (if bytes_eq j k then field j w fs else field j w (emplace k v fs)))) [
          | true ↦ (h, g)
          | false ↦
              elim (bytes_eq j k)
                as (λ b. SoundFields n (if b then field j w fs else field j w (emplace k v fs))) [
                  | true ↦ g
                  | false ↦ (g.0, emplace-SoundFields n k v fs h g.1)
                ]
        ]

-- A map whose keys ascend, over sound values.
abbrev SoundMap : ℕ → Fields → Type 0
SoundMap n fs = Ascending fs × SoundFields n fs

add_field-SoundMap :
    (n : ℕ) (k : List ℕ) (v : BValue) (acc : Fields)
    → Sound n v
    → SoundMap n acc
    → SoundMap n (add_field k v acc)
add_field-SoundMap n k v acc h g =
    elim (present (lookup k acc)) as (λ b. SoundMap n (if b then acc else emplace k v acc)) [
      | true ↦ g
      | false ↦ (emplace-Ascending k v acc g.0, emplace-SoundFields n k v acc h g.1)
    ]

with_span-ReadsOn :
    (n p : ℕ) (cs : List ℕ) {r : Outcome Shape}
    → Ensures (ReadsOn (SoundShape n) p cs) r
    → Ensures (ReadsOn (Sound n) p cs) (with_span p r)
with_span-ReadsOn n p cs h = Ensures-bind h λ v q rest ws k. holds k

mutual
  unfolding parse_value

  parse_value-ReadsOn :
      (f n deepest depth p : ℕ) (ws : Warnings) (cs : List ℕ)
      → 2 * length cs < f
      → deepest ≤ depth + n
      → Ensures (ReadsOn (Sound n) p cs) (parse_value f deepest depth p ws cs)
  parse_value-ReadsOn zero n deepest depth p ws cs h d = absurd (omega arith)
  parse_value-ReadsOn (suc f) n deepest depth p ws [] h d = rejected
  parse_value-ReadsOn (suc f) n deepest depth p ws (c ∷ cs) h d =
      Ensures-if (c == b'i')
        (λ _. with_span-ReadsOn n p (c ∷ cs) (parse_integer-ReadsOn n p c ws cs))
        (λ _.
          Ensures-if (is_digit c)
            (λ _. with_span-ReadsOn n p (c ∷ cs) (
              Ensures-bind (parse_string-MovesOn p ws (c ∷ cs))
                λ s q rest ws' k. holds (tt, k.0, k.1)))
            (λ _.
              Ensures-if (c == b'l')
                (λ _.
                  Ensures-if (leb deepest depth) (λ _. rejected)
                    (λ shallow. with_span-ReadsOn n p (c ∷ cs) (
                      Ensures-bind
                        (parse_items-ReadsOn f (n - 1) deepest depth p (suc p) ws cs (omega arith)
                          (ground arith))
                        λ xs q rest ws' k. holds ((ground arith, k.0), omega arith, omega arith))))
                (λ _.
                  Ensures-if (c == b'd')
                    (λ _.
                      Ensures-if (leb deepest depth) (λ _. rejected)
                        (λ shallow. with_span-ReadsOn n p (c ∷ cs) (
                          Ensures-bind
                            (parse_fields-ReadsOn f (n - 1) deepest depth p none end (suc p) ws cs
                              (omega arith) (ground arith) (tt, tt))
                            λ fs q rest ws' k.
                              holds ((ground arith, k.0.0, k.0.1), omega arith, omega arith))))
                    (λ _. rejected))))

  parse_items-ReadsOn :
      (f n deepest depth start p : ℕ) (ws : Warnings) (cs : List ℕ)
      → suc (2 * length cs) < f
      → deepest ≤ suc depth + n
      → Ensures (ReadsOn (SoundItems n) p cs) (parse_items f deepest depth start p ws cs)
  parse_items-ReadsOn zero n deepest depth start p ws cs h d = absurd (omega arith)
  parse_items-ReadsOn (suc f) n deepest depth start p ws [] h d = rejected
  parse_items-ReadsOn (suc f) n deepest depth start p ws (c ∷ cs) h d =
      Ensures-if (c == b'e') (λ _. holds (tt, omega arith, omega arith))
        (λ _.
          Ensures-bind (parse_value-ReadsOn f n deepest (suc depth) p ws (c ∷ cs) (omega arith) d)
            λ x q rest ws' k.
              Ensures-bind (parse_items-ReadsOn f n deepest depth start q ws' rest (omega arith) d)
                λ xs q' rest' ws'' k'. holds ((k.0, k'.0), omega arith, omega arith))

  parse_fields-ReadsOn :
      (f n deepest depth start : ℕ) (previous : Option (List ℕ)) (acc : Fields) (p : ℕ)
      (ws : Warnings) (cs : List ℕ)
      → suc (2 * length cs) < f
      → deepest ≤ suc depth + n
      → SoundMap n acc
      → Ensures
          (ReadsOn (SoundMap n) p cs)
          (parse_fields f deepest depth start previous acc p ws cs)
  parse_fields-ReadsOn zero n deepest depth start previous acc p ws cs h d g = absurd (omega arith)
  parse_fields-ReadsOn (suc f) n deepest depth start previous acc p ws [] h d g = rejected
  parse_fields-ReadsOn (suc f) n deepest depth start previous acc p ws (c ∷ cs) h d g =
      Ensures-if (c == b'e') (λ _. holds (g, omega arith, omega arith))
        (λ _.
          Ensures-if (is_digit c)
            (λ _. Ensures-bind (parse_string-MovesOn p ws (c ∷ cs)) λ k q rest ws' k₁.
              Ensures-bind
                (parse_value-ReadsOn f n deepest (suc depth) q (key_warnings k previous acc q ws')
                  rest (omega arith) d)
                λ v q₂ rest₂ ws₂ k₂.
                  Ensures-mono
                    (parse_fields-ReadsOn f n deepest depth start (some k) (add_field k v acc) q₂
                      ws₂ rest₂ (omega arith) d (add_field-SoundMap n k v acc k₂.0 g))
                    λ fs q₃ rest₃ k₃. (k₃.0, omega arith, omega arith))
            (λ _. rejected))

-- What `bdecode` promises: it ends, and without an error the value is sound to the given depth.
abbrev pub Decodes : ℕ → Option DecodeResult → Type 0
Decodes deepest none = ⊥
Decodes deepest (some r) = r.error ≡ none → Sound deepest r.result

finish-Decodes :
    (n p : ℕ) (cs : List ℕ) {r : Outcome BValue}
    → Ensures (ReadsOn (Sound n) p cs) r
    → Decodes n (finish r)
finish-Decodes n p cs (holds {rest = []} h) = λ _. h.0
finish-Decodes n p cs (holds {rest = c ∷ rest} h) = λ _. h.0
finish-Decodes n p cs rejected = λ e. cc

-- The decoder returns on every input, and a value that it returns without an error is well formed:
-- integers of 64 bits, dictionary keys in strictly ascending order, nested at most as deep as allowed.
pub bdecode-Decodes : (input : List ℕ) (deepest : ℕ) → Decodes deepest (bdecode input deepest)
unfolding bdecode
bdecode-Decodes input deepest = finish-Decodes deepest 0 input (
    parse_value-ReadsOn (2 * length input + 1) deepest deepest 0 0 [] input (omega arith)
      (omega arith))
