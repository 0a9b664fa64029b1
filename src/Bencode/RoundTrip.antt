-- ===== src/Bencode/RoundTrip.antt =====
-- dhtcore/src/Bencode.cpp: what bencode writes, bdecode reads back, with the raw spans it records.
use dhtinspector.Common.{
  ℕ, zero, suc, ◌+◌, ◌*◌, ◌≡◌, ap, none, some, List, [], append-nil, length, arith,
}
use dhtinspector.Common.Ints.{ℤ}
use dhtinspector.Bencode.{
  BValue, Items, Fields, value, invalid, integer, string, list, dict, pre_encoded, nil, cons, end,
  field,
}
use dhtinspector.Bencode.Keys.{append}
use dhtinspector.Bencode.Encoder.{encode, bencode}
use dhtinspector.Bencode.Decoder.{bdecode, finish}
use dhtinspector.Bencode.Canonical.{Canonical, locate}
use dhtinspector.Bencode.Reads.{
  ReadsValue, ReadsShape, ReadsItems, ReadsFields, integer_step, string_step, list_step, dict_step,
  cons_step, nil_step, end_step, field_step,
}

integer_case : (z : ℤ) → ReadsShape (integer z)
unfolding encode locate append
integer_case z n deepest depth zero p ws rest d c h = absurd (omega arith)
integer_case z n deepest depth (suc f) p ws rest d c h =
    integer_step z n deepest depth f p ws rest c

string_case : (s : List ℕ) → ReadsShape (string s)
unfolding encode locate append
string_case s n deepest depth zero p ws rest d c h = absurd (omega arith)
string_case s n deepest depth (suc f) p ws rest d c h = string_step s deepest depth f p ws rest c

list_case : (xs : Items) → ReadsItems xs → ReadsShape (list xs)
unfolding encode locate append
list_case xs ih n deepest depth zero p ws rest d c h = absurd (omega arith)
list_case xs ih n deepest depth (suc f) p ws rest d c h =
    list_step xs ih n deepest depth f p ws rest d c h

dict_case : (fs : Fields) → ReadsFields fs → ReadsShape (dict fs)
unfolding encode locate append
dict_case fs ih n deepest depth zero p ws rest d c h = absurd (omega arith)
dict_case fs ih n deepest depth (suc f) p ws rest d c h =
    dict_step fs ih n deepest depth f p ws rest d c h

nil_case : ReadsItems nil
unfolding encode locate append
nil_case n deepest depth zero start p ws rest d c h = absurd (omega arith)
nil_case n deepest depth (suc f) start p ws rest d c h = nil_step deepest depth f start p ws rest

cons_case : (x : BValue) (xs : Items) → ReadsValue x → ReadsItems xs → ReadsItems (cons x xs)
unfolding encode locate append
cons_case x xs ih ihs n deepest depth zero start p ws rest d c h = absurd (omega arith)
cons_case x xs ih ihs n deepest depth (suc f) start p ws rest d c h =
    cons_step x xs ih ihs n deepest depth f start p ws rest d c h

end_case : ReadsFields end
unfolding encode locate append
end_case n deepest depth zero start p previous acc ws rest d c a b h = absurd (omega arith)
end_case n deepest depth (suc f) start p previous acc ws rest d c a b h =
    end_step deepest depth f start p previous acc ws rest

field_case :
    (k : List ℕ) (v : BValue) (fs : Fields)
    → ReadsValue v
    → ReadsFields fs
    → ReadsFields (field k v fs)
unfolding encode locate append
field_case k v fs ih ihs n deepest depth zero start p previous acc ws rest d c a b h =
    absurd (omega arith)
field_case k v fs ih ihs n deepest depth (suc f) start p previous acc ws rest d c a b h =
    field_step k v fs ih ihs n deepest depth f start p previous acc ws rest d c a b h

parse_value-Reads : (v : BValue) → ReadsValue v
unfolding encode locate append
parse_value-Reads v = elim v as ReadsValue ReadsShape ReadsItems ReadsFields [
  | value s (v → ih) ↦ ih
  | invalid ↦ λ n deepest depth f p ws rest d c. absurd c
  | integer z ↦ integer_case z
  | string s ↦ string_case s
  | list (xs → ih) ↦ list_case xs ih
  | dict (fs → ih) ↦ dict_case fs ih
  | pre_encoded b ↦ λ n deepest depth f p ws rest d c. absurd c
  | nil ↦ nil_case
  | cons (x → ih) (xs → ihs) ↦ cons_case x xs ih ihs
  | end ↦ end_case
  | field k (v → ih) (fs → ihs) ↦ field_case k v fs ih ihs
]

-- Decoding what bencode wrote of a canonical value, one nested no deeper than the decoder allows,
-- gives that value, with no error and no warning, and with each part's raw span where the part was written.
pub bdecode-bencode :
    (v : BValue) (deepest : ℕ)
    → Canonical deepest v
    → bdecode (bencode v) deepest
      ≡ some (record { result = locate 0 v; error = none; warnings = [] })
unfolding bdecode bencode
bdecode-bencode v deepest c =
    let whole =
      parse_value-Reads v deepest deepest 0 (2 * length (encode v) + 1) 0 [] [] (omega arith) c
        (omega arith) in
    ap finish (rw append-nil at whole)
