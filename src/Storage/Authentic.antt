-- ===== src/Storage/Authentic.antt =====
-- dhtcore/src/Support.cpp: what is stored stays under the target that it hashes to, and signed.
use dhtinspector.Common.{
  ℕ, ◌+◌, ◌≤◌, ◌≡◌, refl, true, not, inl, inr, Option, none, some, List, ltb, length, All, All-keep,
  All-update_first, Bool-cases, arith,
}
use dhtinspector.Common.Ints.{ℤ, ltz, eqz}
use dhtinspector.NodeId.{NodeId}
use dhtinspector.Bep44.{Crypto, immutable_target, mutable_target, signing_buffer, verify}
use dhtinspector.Storage.Items.{
  ImmutableItem, MutableItem, ItemStorage, no_victim, immutable_at, mutable_at, immutable_item,
  mutable_item, drop_victim, make_room, oldest_immutable, oldest_mutable, put_absent_immutable,
  refresh_immutable, put_immutable_at, put_immutable, cas_fails, change_mutable, put_over,
  put_absent, put_mutable_at, put_mutable,
}

-- A value under its hash.
pub record IsHashed (crypto : Crypto) (i : ImmutableItem) : Type 0 where
  pub target : i.target ≡ immutable_target crypto i.value
  pub small : length i.value ≤ 1000

-- A value under the hash of a key and a salt, with a signature by that key.
pub record IsSigned (crypto : Crypto) (i : MutableItem) : Type 0 where
  pub target : i.target ≡ mutable_target crypto i.public_key i.salt
  pub signed :
      verify crypto i.signature (signing_buffer i.salt i.sequence i.value) i.public_key ≡ true
  pub small : length i.value ≤ 1000
  pub short_salt : length i.salt ≤ 64

pub record IsAuthentic (crypto : Crypto) (s : ItemStorage) : Type 0 where
  pub immutables : All (IsHashed crypto) s.immutables
  pub mutables : All (IsSigned crypto) s.mutables

module _ (crypto : Crypto) where
  make_room-IsAuthentic :
      (s : ItemStorage) → IsAuthentic crypto s → IsAuthentic crypto (make_room s)
  unfolding make_room drop_victim
  make_room-IsAuthentic s h =
      let v = oldest_mutable (oldest_immutable no_victim s.immutables) s.mutables in
      elim (Bool-cases (ltb (length s.immutables + length s.mutables) 1000)) [
        | inl few ↦ rw few h
        | inr many ↦ elim (Bool-cases v.is_mutable) [
          | inl m ↦
              rw (many, m)
                (record {
                  immutables = h.immutables;
                  mutables =
                      All-keep (IsSigned crypto) (λ i. not (mutable_at v.id i)) s.mutables
                        h.mutables;
                })
          | inr m ↦
              rw (many, m)
                (record {
                  immutables =
                      All-keep (IsHashed crypto) (λ i. not (immutable_at v.id i)) s.immutables
                        h.immutables;
                  mutables = h.mutables;
                })
        ]
      ]

  put_immutable_at-IsAuthentic :
      (o : Option ImmutableItem) (value : List ℕ) (now : ℕ) (s : ItemStorage)
      → length value ≤ 1000
      → IsAuthentic crypto s
      → IsAuthentic crypto (put_immutable_at o (immutable_target crypto value) value now s).1
  unfolding put_immutable_at refresh_immutable put_absent_immutable
  put_immutable_at-IsAuthentic (some old) value now s small h = record {
    immutables =
        All-update_first (IsHashed crypto) (immutable_at (immutable_target crypto value))
          (λ i. record i { stored_at = now }) s.immutables
          (λ i k. record { target = k.target; small = k.small }) h.immutables;
    mutables = h.mutables;
  }
  put_immutable_at-IsAuthentic none value now s small h =
      let room = make_room-IsAuthentic s h in
      record {
        immutables = (record { target = refl; small = small }, room.immutables);
        mutables = room.mutables;
      }

  pub put_immutable-IsAuthentic :
      (value : List ℕ) (now : ℕ) (s : ItemStorage)
      → IsAuthentic crypto s
      → IsAuthentic crypto (put_immutable (immutable_target crypto value) value now s).1
  unfolding put_immutable
  put_immutable-IsAuthentic value now s h = elim (Bool-cases (ltb 1000 (length value))) [
    | inl big ↦ rw big h
    | inr fits ↦ rw fits (
        put_immutable_at-IsAuthentic (immutable_item (immutable_target crypto value) s) value now s
          (ground arith) h)
  ]

  change_mutable-IsAuthentic :
      (target : NodeId) (f : MutableItem → MutableItem) (s : ItemStorage)
      → ((i : MutableItem) → IsSigned crypto i → IsSigned crypto (f i))
      → IsAuthentic crypto s
      → IsAuthentic crypto (change_mutable target f s)
  change_mutable-IsAuthentic target f s k h = record {
    immutables = h.immutables;
    mutables = All-update_first (IsSigned crypto) (mutable_at target) f s.mutables k h.mutables;
  }

  at_time :
      (i : MutableItem) (now : ℕ)
      → IsSigned crypto i
      → IsSigned crypto (record i { stored_at = now })
  at_time i now k = record {
    target = k.target;
    signed = k.signed;
    small = k.small;
    short_salt = k.short_salt;
  }

  put_over-IsAuthentic :
      (old item : MutableItem) (cas : Option ℤ) (now : ℕ) (s : ItemStorage)
      → IsSigned crypto item
      → IsAuthentic crypto s
      → IsAuthentic crypto (put_over old item cas now s).1
  unfolding put_over
  put_over-IsAuthentic old item cas now s k h = elim (Bool-cases (cas_fails cas old.sequence)) [
    | inl a ↦ rw a h
    | inr a ↦ elim (Bool-cases (ltz item.sequence old.sequence)) [
      | inl b ↦ rw (a, b) h
      | inr b ↦ elim (Bool-cases (eqz item.sequence old.sequence)) [
        | inl c ↦
            rw (a, b, c)
              (change_mutable-IsAuthentic item.target (λ i. record i { stored_at = now }) s
                (λ i q. at_time i now q) h)
        | inr c ↦
            rw (a, b, c)
              (change_mutable-IsAuthentic item.target (λ i. record item { stored_at = now }) s
                (λ i q. at_time item now k) h)
      ]
    ]
  ]

  put_mutable_at-IsAuthentic :
      (o : Option MutableItem) (item : MutableItem) (cas : Option ℤ) (now : ℕ) (s : ItemStorage)
      → IsSigned crypto item
      → IsAuthentic crypto s
      → IsAuthentic crypto (put_mutable_at o item cas now s).1
  unfolding put_mutable_at put_absent
  put_mutable_at-IsAuthentic (some old) item cas now s k h =
      put_over-IsAuthentic old item cas now s k h
  put_mutable_at-IsAuthentic none item (some cas) now s k h = h
  put_mutable_at-IsAuthentic none item none now s k h =
      let room = make_room-IsAuthentic s h in
      record { immutables = room.immutables; mutables = (at_time item now k, room.mutables) }

  pub put_mutable-IsAuthentic :
      (item : MutableItem) (cas : Option ℤ) (now : ℕ) (s : ItemStorage)
      → IsSigned crypto item
      → IsAuthentic crypto s
      → IsAuthentic crypto (put_mutable item cas now s).1
  unfolding put_mutable
  put_mutable-IsAuthentic item cas now s k h = elim (Bool-cases (ltb 1000 (length item.value))) [
    | inl a ↦ rw a h
    | inr a ↦ elim (Bool-cases (ltb 64 (length item.salt))) [
      | inl b ↦ rw (a, b) h
      | inr b ↦
          rw (a, b) (put_mutable_at-IsAuthentic (mutable_item item.target s) item cas now s k h)
    ]
  ]
