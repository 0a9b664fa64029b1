-- ===== src/Bencode.antt =====
-- dhtcore/include/dhtcore/Bencode.h and dhtcore/src/Bencode.cpp: BValue and its accessors. A
-- std::vector of values is `Items`, a std::map from keys to values is `Fields`, in key order. The
-- default raw span (-1, 0) is `no_span`.
pub mod Decimal
pub mod Encoder
pub mod Decoder
pub mod Keys
pub mod Scalars
pub mod Canonical
pub mod Steps
pub mod Reads
pub mod RoundTrip
pub mod Consumes
pub mod Total
pub mod Spans
use dhtinspector.Common.{
  ℕ, zero, suc, ◌+◌, ◌≤◌, ◌<◌, Bool, true, false, ◌&&◌, ◌||◌, Option, none, some, List, [], ◌∷◌,
  ◌++◌, ltb, leb, ◌==◌, if◌then◌else◌, length, take, drop, bytes_eq,
}
use dhtinspector.Common.Ints.{ℤ, pos}

pub data Span : Type 0 where
  no_span : Span
  span : ℕ → ℕ → Span

mutual
  pub data BValue : Type 0 where
    value : Span → Shape → BValue

  pub data Shape : Type 0 where
    invalid : Shape
    integer : ℤ → Shape
    string : List ℕ → Shape
    list : Items → Shape
    dict : Fields → Shape
    pre_encoded : List ℕ → Shape

  pub data Items : Type 0 where
    nil : Items
    cons : BValue → Items → Items

  pub data Fields : Type 0 where
    end : Fields
    field : List ℕ → BValue → Fields → Fields

-- A value built in code has no span.
abbrev pub built : Shape → BValue
built s = value no_span s

abbrev pub shape : BValue → Shape
shape (value s v) = v

abbrev pub raw_position : BValue → Span
raw_position (value s v) = s

unfoldable pub raw_slice : Span → List ℕ → List ℕ
raw_slice no_span source = []
raw_slice (span start len) source =
    if len == 0 || ltb (length source) (start + len) then [] else take len (drop start source)

unfoldable pub raw_span : BValue → List ℕ → List ℕ
unfolding raw_slice
raw_span v source = raw_slice (raw_position v) source

unfoldable pub set_raw_span : ℕ → ℕ → BValue → BValue
set_raw_span start len (value s v) = value (span start len) v

abbrev pub is_integer : BValue → Bool
is_integer (value s (integer n)) = true
is_integer _ = false

abbrev pub is_string : BValue → Bool
is_string (value s (string b)) = true
is_string _ = false

abbrev pub is_dict : BValue → Bool
is_dict (value s (dict fs)) = true
is_dict _ = false

unfoldable pub to_list : BValue → Items
to_list (value s (list xs)) = xs
to_list _ = nil

unfoldable pub to_dict : BValue → Fields
to_dict (value s (dict fs)) = fs
to_dict _ = end

unfoldable pub to_integer : BValue → ℤ
to_integer (value s (integer n)) = n
to_integer _ = pos 0

unfoldable pub to_string : BValue → List ℕ
to_string (value s (string b)) = b
to_string _ = []

-- std::map::find.
unfoldable pub lookup : List ℕ → Fields → Option BValue
lookup k end = none
lookup k (field j v fs) = if bytes_eq j k then some v else lookup k fs

unfoldable pub find : List ℕ → BValue → Option BValue
find k v = lookup k (to_dict v)

unfoldable pub string_of : Option BValue → Option (List ℕ)
string_of (some (value s (string b))) = some b
string_of _ = none

unfoldable pub string_at : List ℕ → BValue → Option (List ℕ)
unfolding string_of find to_dict
string_at k v = string_of (find k v)

unfoldable pub integer_of : Option BValue → Option ℤ
integer_of (some (value s (integer n))) = some n
integer_of _ = none

unfoldable pub integer_at : List ℕ → BValue → Option ℤ
unfolding integer_of find to_dict
integer_at k v = integer_of (find k v)

list_of : Option BValue → Option BValue
list_of (some (value s (list xs))) = some (value s (list xs))
list_of _ = none

unfoldable pub list_at : List ℕ → BValue → Option BValue
unfolding list_of find to_dict
list_at k v = list_of (find k v)

dict_of : Option BValue → Option BValue
dict_of (some (value s (dict fs))) = some (value s (dict fs))
dict_of _ = none

unfoldable pub dict_at : List ℕ → BValue → Option BValue
unfolding dict_of find to_dict
dict_at k v = dict_of (find k v)

-- QByteArray's operator<, the order of the map.
unfoldable pub bytes_lt : List ℕ → List ℕ → Bool
bytes_lt [] [] = false
bytes_lt [] (y ∷ ys) = true
bytes_lt (x ∷ xs) [] = false
bytes_lt (x ∷ xs) (y ∷ ys) = ltb x y || (x == y && bytes_lt xs ys)

-- std::map::emplace: nothing changes if the key is there.
unfoldable pub emplace : List ℕ → BValue → Fields → Fields
emplace k v end = field k v end
emplace k v (field j w fs) =
    if bytes_lt k j
    then field k v (field j w fs)
    else (if bytes_eq j k then field j w fs else field j w (emplace k v fs))
