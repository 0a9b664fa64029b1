-- ===== src/Storage/Capacity.antt =====
-- dhtcore/src/Support.cpp: ItemStorage holds at most 1000 items, each of them small.
use dhtinspector.Common.{
  ℕ, ◌-◌, ◌≤◌, ◌<◌, ◌≡◌, refl, not, inl, inr, Option, none, some, List, [], ◌∷◌, ltb, leb, length,
  length-keep-le, length-update_first, All, All-keep, All-update_first, Bool-cases, arith,
}
use dhtinspector.Common.Ints.{ℤ, ltz, eqz}
use dhtinspector.NodeId.{NodeId}
use dhtinspector.Storage.Items.{
  ImmutableItem, MutableItem, ItemStorage, immutable_at, mutable_at, immutable_item, mutable_item,
  item_ttl_ms, put_absent_immutable, refresh_immutable, put_immutable_at, put_immutable, cas_fails,
  change_mutable, put_over, put_absent, put_mutable_at, put_mutable, expire, clear,
}
use dhtinspector.Storage.Bounds.{
  last_time, FitsImmutable, FitsMutable, IsBounded, make_room-IsBounded,
}

-- A call of the storage.
pub data ItemCall : Type 0 where
  put_value : NodeId → List ℕ → ℕ → ItemCall
  put_item : MutableItem → Option ℤ → ℕ → ItemCall
  expire_items : ℕ → ItemCall
  clear_items : ItemCall

unfoldable pub call_item : ItemCall → ItemStorage → ItemStorage
call_item (put_value target value now) s = (put_immutable target value now s).1
call_item (put_item item cas now) s = (put_mutable item cas now s).1
call_item (expire_items now) s = expire now s
call_item clear_items s = clear

unfoldable pub call_items : List ItemCall → ItemStorage → ItemStorage
unfolding call_item
call_items [] s = s
call_items (c ∷ cs) s = call_items cs (call_item c s)

-- The clock has not run out.
abbrev pub InTime : ItemCall → Type 0
InTime (put_value target value now) = now < last_time
InTime (put_item item cas now) = now < last_time
InTime (expire_items now) = Unit
InTime clear_items = Unit

put_immutable_at-IsBounded :
    (o : Option ImmutableItem) (target : NodeId) (value : List ℕ) (now : ℕ) (s : ItemStorage)
    → length value ≤ 1000
    → now < last_time
    → IsBounded s
    → IsBounded (put_immutable_at o target value now s).1
unfolding put_immutable_at refresh_immutable put_absent_immutable
put_immutable_at-IsBounded (some old) target value now s small soon h =
    let f : ImmutableItem → ImmutableItem = λ i. record i { stored_at = now } in
    record {
      few = omega (arith, h.few, length-update_first (immutable_at target) f s.immutables);
      immutables =
          All-update_first FitsImmutable (immutable_at target) f s.immutables (λ i k. (k.0, soon))
            h.immutables;
      mutables = h.mutables;
    }
put_immutable_at-IsBounded none target value now s small soon h =
    let room = make_room-IsBounded s h in
    record {
      few = omega (arith, room.1);
      immutables = ((small, soon), room.0.immutables);
      mutables = room.0.mutables;
    }

put_immutable-IsBounded :
    (target : NodeId) (value : List ℕ) (now : ℕ) (s : ItemStorage)
    → now < last_time
    → IsBounded s
    → IsBounded (put_immutable target value now s).1
unfolding put_immutable
put_immutable-IsBounded target value now s soon h = elim (Bool-cases (ltb 1000 (length value))) [
  | inl big ↦ rw big h
  | inr fits ↦ rw fits (
      put_immutable_at-IsBounded (immutable_item target s) target value now s (ground arith) soon h)
]

change_mutable-IsBounded :
    (target : NodeId) (f : MutableItem → MutableItem) (s : ItemStorage)
    → ((i : MutableItem) → FitsMutable i → FitsMutable (f i))
    → IsBounded s
    → IsBounded (change_mutable target f s)
change_mutable-IsBounded target f s k h = record {
  few = omega (arith, h.few, length-update_first (mutable_at target) f s.mutables);
  immutables = h.immutables;
  mutables = All-update_first FitsMutable (mutable_at target) f s.mutables k h.mutables;
}

module _ (item : MutableItem) (cas : Option ℤ) (now : ℕ) (s : ItemStorage)
    (small : length item.value ≤ 1000) (short : length item.salt ≤ 64) (soon : now < last_time)
    (h : IsBounded s) where
  put_over-IsBounded : (old : MutableItem) → IsBounded (put_over old item cas now s).1
  unfolding put_over
  put_over-IsBounded old = elim (Bool-cases (cas_fails cas old.sequence)) [
    | inl a ↦ rw a h
    | inr a ↦ elim (Bool-cases (ltz item.sequence old.sequence)) [
      | inl b ↦ rw (a, b) h
      | inr b ↦ elim (Bool-cases (eqz item.sequence old.sequence)) [
        | inl c ↦
            rw (a, b, c)
              (change_mutable-IsBounded item.target (λ i. record i { stored_at = now }) s
                (λ i k. (k.0, k.1, soon)) h)
        | inr c ↦
            rw (a, b, c)
              (change_mutable-IsBounded item.target (λ i. record item { stored_at = now }) s
                (λ i k. (small, short, soon)) h)
      ]
    ]
  ]

  put_mutable_at-IsBounded :
      (o : Option MutableItem) (c : Option ℤ)
      → c ≡ cas
      → IsBounded (put_mutable_at o item c now s).1
  unfolding put_mutable_at put_absent
  put_mutable_at-IsBounded (some old) c at = rw at (put_over-IsBounded old)
  put_mutable_at-IsBounded none (some c) at = h
  put_mutable_at-IsBounded none none at =
      let room = make_room-IsBounded s h in
      record {
        few = omega (arith, room.1);
        immutables = room.0.immutables;
        mutables = ((small, short, soon), room.0.mutables);
      }

put_mutable-IsBounded :
    (item : MutableItem) (cas : Option ℤ) (now : ℕ) (s : ItemStorage)
    → now < last_time
    → IsBounded s
    → IsBounded (put_mutable item cas now s).1
unfolding put_mutable
put_mutable-IsBounded item cas now s soon h = elim (Bool-cases (ltb 1000 (length item.value))) [
  | inl a ↦ rw a h
  | inr a ↦ elim (Bool-cases (ltb 64 (length item.salt))) [
    | inl b ↦ rw (a, b) h
    | inr b ↦
        rw (a, b)
          (put_mutable_at-IsBounded item cas now s (ground arith) (ground arith) soon h
            (mutable_item item.target s) cas refl)
  ]
]

call_item-IsBounded :
    (c : ItemCall) (s : ItemStorage) → InTime c → IsBounded s → IsBounded (call_item c s)
unfolding call_item expire
call_item-IsBounded (put_value target value now) s soon h =
    put_immutable-IsBounded target value now s soon h
call_item-IsBounded (put_item item cas now) s soon h = put_mutable-IsBounded item cas now s soon h
call_item-IsBounded (expire_items now) s soon h = record {
  few = omega (
    arith,
    h.few,
    length-keep-le (λ (i : ImmutableItem). not (leb item_ttl_ms (now - i.stored_at))) s.immutables,
    length-keep-le (λ (i : MutableItem). not (leb item_ttl_ms (now - i.stored_at))) s.mutables,
  );
  immutables =
      All-keep FitsImmutable (λ i. not (leb item_ttl_ms (now - i.stored_at))) s.immutables
        h.immutables;
  mutables =
      All-keep FitsMutable (λ i. not (leb item_ttl_ms (now - i.stored_at))) s.mutables h.mutables;
}
call_item-IsBounded clear_items s soon h = record {
  few = omega arith;
  immutables = tt;
  mutables = tt;
}

-- An item storage that holds at most 1000 items, with values of at most 1000 bytes and salts of at most
-- 64, as an empty one does, still does after any calls, as long as the times of the calls are less than
-- the largest 64-bit number.
pub call_items-IsBounded :
    (cs : List ItemCall) (s : ItemStorage)
    → All InTime cs
    → IsBounded s
    → IsBounded (call_items cs s)
unfolding call_items
call_items-IsBounded [] s soon h = h
call_items-IsBounded (c ∷ cs) s soon h =
    call_items-IsBounded cs (call_item c s) soon.1 (call_item-IsBounded c s soon.0 h)
