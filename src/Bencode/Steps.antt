-- ===== src/Bencode/Steps.antt =====
-- The equations of the decoder's recursive functions, one for each branch that reads a value.
use dhtinspector.Common.{
  ℕ, suc, ◌<◌, ◌≡◌, refl, Bool, true, false, Option, none, some, List, [], ◌∷◌, ◌++◌, leb, ◌==◌,
  length, arith,
}
use dhtinspector.Bencode.{Fields, string, list, dict, nil, cons}
use dhtinspector.Bencode.Decoder.{
  Warnings, ok, bind, with_span, parse_value, parse_items, parse_fields, parse_integer,
  parse_string, key_warnings, add_field,
}
use dhtinspector.Bencode.Scalars.{AllDigits}

pub value_integer :
    (f deepest depth p : ℕ) (ws : Warnings) (rest : List ℕ)
    → parse_value (suc f) deepest depth p ws (b'i' ∷ rest) ≡ with_span p (parse_integer p ws rest)
unfolding parse_value
value_integer f deepest depth p ws rest = refl

pub value_string :
    (f deepest depth p : ℕ) (ws : Warnings) (ds rest : List ℕ)
    → 0 < length ds
    → AllDigits ds
    → parse_value (suc f) deepest depth p ws (ds ++ rest)
      ≡ with_span p (bind (parse_string p ws (ds ++ rest)) λ s. ok (string s))
unfolding parse_value
value_string f deepest depth p ws [] rest h k = absurd (omega arith)
value_string f deepest depth p ws (d ∷ ds) rest h k =
    let not_i : (d == b'i') ≡ false = ground (arith, k.0) in rw (not_i, k.0) refl

pub value_list :
    (f deepest depth p : ℕ) (ws : Warnings) (rest : List ℕ)
    → depth < deepest
    → parse_value (suc f) deepest depth p ws (b'l' ∷ rest)
      ≡ with_span p (bind (parse_items f deepest depth p (suc p) ws rest) λ xs. ok (list xs))
unfolding parse_value
value_list f deepest depth p ws rest h =
    let shallow : leb deepest depth ≡ false = ground arith in rw shallow refl

pub value_dict :
    (f deepest depth p : ℕ) (ws : Warnings) (rest : List ℕ)
    → depth < deepest
    → parse_value (suc f) deepest depth p ws (b'd' ∷ rest)
      ≡ with_span p
          (bind (parse_fields f deepest depth p none Fields.end (suc p) ws rest) λ fs. ok (dict fs))
unfolding parse_value
value_dict f deepest depth p ws rest h =
    let shallow : leb deepest depth ≡ false = ground arith in rw shallow refl

pub items_end :
    (f deepest depth start p : ℕ) (ws : Warnings) (rest : List ℕ)
    → parse_items (suc f) deepest depth start p ws (b'e' ∷ rest) ≡ ok nil (suc p) rest ws
unfolding parse_items
items_end f deepest depth start p ws rest = refl

abbrev pub starts_with_end : List ℕ → Bool
starts_with_end [] = true
starts_with_end (c ∷ cs) = c == b'e'

pub items_more :
    (f deepest depth start p : ℕ) (ws : Warnings) (cs rest : List ℕ)
    → starts_with_end cs ≡ false
    → parse_items (suc f) deepest depth start p ws (cs ++ rest)
      ≡ bind (parse_value f deepest (suc depth) p ws (cs ++ rest)) (λ x p' rest' ws'.
        bind (parse_items f deepest depth start p' ws' rest') λ xs. ok (cons x xs))
unfolding parse_items
items_more f deepest depth start p ws [] rest h = cc
items_more f deepest depth start p ws (c ∷ cs) rest h = rw h refl

pub fields_end :
    (f deepest depth start p : ℕ) (previous : Option (List ℕ)) (acc : Fields) (ws : Warnings)
    (rest : List ℕ)
    → parse_fields (suc f) deepest depth start previous acc p ws (b'e' ∷ rest)
      ≡ ok acc (suc p) rest ws
unfolding parse_fields
fields_end f deepest depth start p previous acc ws rest = refl

pub fields_more :
    (f deepest depth start p : ℕ) (previous : Option (List ℕ)) (acc : Fields) (ws : Warnings)
    (ds rest : List ℕ)
    → 0 < length ds
    → AllDigits ds
    → parse_fields (suc f) deepest depth start previous acc p ws (ds ++ rest)
      ≡ bind (parse_string p ws (ds ++ rest)) (λ k p₁ rest₁ ws₁.
        bind
          (parse_value f deepest (suc depth) p₁ (key_warnings k previous acc p₁ ws₁) rest₁)
          (λ v p₂ rest₂ ws₂.
            parse_fields f deepest depth start (some k) (add_field k v acc) p₂ ws₂ rest₂))
unfolding parse_fields
fields_more f deepest depth start p previous acc ws [] rest h k = absurd (omega arith)
fields_more f deepest depth start p previous acc ws (d ∷ ds) rest h k =
    let not_e : (d == b'e') ≡ false = ground (arith, k.0) in rw (not_e, k.0) refl
