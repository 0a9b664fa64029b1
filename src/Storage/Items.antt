-- ===== src/Storage/Items.antt =====
-- dhtcore/src/Support.cpp: ItemStorage. A hash is the list of its items in the order of its iteration;
-- an insertion puts its item first.
use dhtinspector.Common.{
  ℕ, ◌+◌, ◌-◌, Bool, true, false, not, Option, none, some, List, [], ◌∷◌, ltb, leb, if◌then◌else◌,
  length, keep, first, update_first, replicate,
}
use dhtinspector.Common.Ints.{ℤ, ltz, eqz}
use dhtinspector.NodeId.{NodeId, id_eq}

pub record ImmutableItem : Type 0 where
  pub target : NodeId
  pub value : List ℕ
  pub stored_at : ℕ

pub record MutableItem : Type 0 where
  pub target : NodeId
  pub public_key : List ℕ
  pub salt : List ℕ
  pub signature : List ℕ
  pub value : List ℕ
  pub sequence : ℤ
  pub stored_at : ℕ

pub record ItemStorage : Type 0 where
  pub immutables : List ImmutableItem
  pub mutables : List MutableItem

pub data PutResult : Type 0 where
  stored refreshed sequence_too_low cas_mismatch too_big salt_too_long : PutResult

abbrev pub max_items : ℕ
max_items = 1000

abbrev pub max_value_bytes : ℕ
max_value_bytes = 1000

abbrev pub max_salt_bytes : ℕ
max_salt_bytes = 64

abbrev pub item_ttl_ms : ℕ
item_ttl_ms = 7200000

abbrev pub immutable_at : NodeId → ImmutableItem → Bool
immutable_at target i = id_eq i.target target

abbrev pub mutable_at : NodeId → MutableItem → Bool
mutable_at target i = id_eq i.target target

unfoldable pub immutable_item : NodeId → ItemStorage → Option ImmutableItem
immutable_item target s = first (immutable_at target) s.immutables

unfoldable pub mutable_item : NodeId → ItemStorage → Option MutableItem
mutable_item target s = first (mutable_at target) s.mutables

-- The item that makeRoom would drop, and its time.
pub record Victim : Type 0 where
  pub oldest : ℕ
  pub id : NodeId
  pub is_mutable : Bool

unfoldable pub oldest_immutable : Victim → List ImmutableItem → Victim
oldest_immutable v [] = v
oldest_immutable v (i ∷ is) = elim (ltb i.stored_at v.oldest) [
  | true ↦ oldest_immutable (record { oldest = i.stored_at; id = i.target; is_mutable = false }) is
  | false ↦ oldest_immutable v is
]

unfoldable pub oldest_mutable : Victim → List MutableItem → Victim
oldest_mutable v [] = v
oldest_mutable v (i ∷ is) = elim (ltb i.stored_at v.oldest) [
  | true ↦ oldest_mutable (record { oldest = i.stored_at; id = i.target; is_mutable = true }) is
  | false ↦ oldest_mutable v is
]

abbrev pub no_victim : Victim
no_victim = record { oldest = 9223372036854775807; id = replicate 20 0; is_mutable = false }

unfoldable pub drop_victim : Victim → ItemStorage → ItemStorage
drop_victim v s =
    if v.is_mutable
    then record s { mutables = keep (λ i. not (mutable_at v.id i)) s.mutables }
    else record s { immutables = keep (λ i. not (immutable_at v.id i)) s.immutables }

unfoldable pub make_room : ItemStorage → ItemStorage
unfolding oldest_immutable oldest_mutable drop_victim
make_room s =
    if ltb (length s.immutables + length s.mutables) max_items
    then s
    else drop_victim (oldest_mutable (oldest_immutable no_victim s.immutables) s.mutables) s

unfoldable pub put_absent_immutable : NodeId → List ℕ → ℕ → ItemStorage → ItemStorage
put_absent_immutable target value now s = record s {
  immutables = record { target = target; value = value; stored_at = now } ∷ s.immutables;
}

unfoldable pub refresh_immutable : NodeId → ℕ → ItemStorage → ItemStorage
refresh_immutable target now s = record s {
  immutables = update_first (immutable_at target) (λ i. record i { stored_at = now }) s.immutables;
}

-- putImmutable after its size check, by what is stored at the target.
unfoldable pub put_immutable_at :
    Option ImmutableItem → NodeId → List ℕ → ℕ → ItemStorage → PutResult × ItemStorage
unfolding put_absent_immutable
put_immutable_at (some old) target value now s = (refreshed, refresh_immutable target now s)
put_immutable_at none target value now s =
    (stored, put_absent_immutable target value now (make_room s))

unfoldable pub put_immutable : NodeId → List ℕ → ℕ → ItemStorage → PutResult × ItemStorage
unfolding put_immutable_at immutable_item
put_immutable target value now s =
    if ltb max_value_bytes (length value)
    then (too_big, s)
    else put_immutable_at (immutable_item target s) target value now s

abbrev pub cas_fails : Option ℤ → ℤ → Bool
cas_fails none sequence = false
cas_fails (some cas) sequence = not (eqz sequence cas)

abbrev pub change_mutable : NodeId → (MutableItem → MutableItem) → ItemStorage → ItemStorage
change_mutable target f s = record s { mutables = update_first (mutable_at target) f s.mutables }

-- putMutable over the item `old` that is stored at the target.
unfoldable pub put_over :
    MutableItem → MutableItem → Option ℤ → ℕ → ItemStorage → PutResult × ItemStorage
put_over old item cas now s =
    if cas_fails cas old.sequence
    then (cas_mismatch, s)
    else (if ltz item.sequence old.sequence
        then (sequence_too_low, s)
        else (if eqz item.sequence old.sequence
            then (refreshed, change_mutable item.target (λ i. record i { stored_at = now }) s)
            else (stored, change_mutable item.target (λ i. record item { stored_at = now }) s)))

-- putMutable where nothing is stored at the target.
unfoldable pub put_absent : MutableItem → Option ℤ → ℕ → ItemStorage → PutResult × ItemStorage
put_absent item (some cas) now s = (cas_mismatch, s)
put_absent item none now s = (
  stored,
  record (make_room s) { mutables = record item { stored_at = now } ∷ (make_room s).mutables },
)

unfoldable pub put_mutable_at :
    Option MutableItem → MutableItem → Option ℤ → ℕ → ItemStorage → PutResult × ItemStorage
unfolding put_over put_absent
put_mutable_at (some old) item cas now s = put_over old item cas now s
put_mutable_at none item cas now s = put_absent item cas now s

unfoldable pub put_mutable : MutableItem → Option ℤ → ℕ → ItemStorage → PutResult × ItemStorage
unfolding put_mutable_at mutable_item
put_mutable item cas now s =
    if ltb max_value_bytes (length item.value)
    then (too_big, s)
    else (if ltb max_salt_bytes (length item.salt)
        then (salt_too_long, s)
        else put_mutable_at (mutable_item item.target s) item cas now s)

unfoldable pub expire : ℕ → ItemStorage → ItemStorage
expire now s = record {
  immutables = keep (λ i. not (leb item_ttl_ms (now - i.stored_at))) s.immutables;
  mutables = keep (λ i. not (leb item_ttl_ms (now - i.stored_at))) s.mutables;
}

abbrev pub clear : ItemStorage
clear = record { immutables = []; mutables = [] }

unfoldable pub immutable_snapshot : ItemStorage → List ImmutableItem
immutable_snapshot s = s.immutables

unfoldable pub mutable_snapshot : ItemStorage → List MutableItem
mutable_snapshot s = s.mutables
