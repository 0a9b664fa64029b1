-- ===== src/Storage/Bounds.antt =====
-- dhtcore/src/Support.cpp: makeRoom drops an item of a full ItemStorage.
use dhtinspector.Common.{
  ℕ, ◌+◌, ◌≤◌, ◌<◌, ◌≡◌, true, false, not, inl, inr, List, [], ◌∷◌, ltb, length, any,
  length-keep-any, All, All-keep, All-map_of, Bool-cases, bytes_eq_refl, arith,
}
use dhtinspector.Storage.Items.{
  ImmutableItem, MutableItem, ItemStorage, Victim, no_victim, immutable_at, mutable_at, drop_victim,
  make_room, oldest_immutable, oldest_mutable,
}

abbrev pub last_time : ℕ
last_time = 9223372036854775807

abbrev pub FitsImmutable : ImmutableItem → Type 0
FitsImmutable i = (length i.value ≤ 1000) × (i.stored_at < last_time)

abbrev pub FitsMutable : MutableItem → Type 0
FitsMutable i = (length i.value ≤ 1000) × (length i.salt ≤ 64) × (i.stored_at < last_time)

pub record IsBounded (s : ItemStorage) : Type 0 where
  pub few : length s.immutables + length s.mutables ≤ 1000
  pub immutables : All FitsImmutable s.immutables
  pub mutables : All FitsMutable s.mutables

-- The victim is stored.
Found : ItemStorage → Victim → Type 0
Found s v =
    (v.is_mutable ≡ true → any (mutable_at v.id) s.mutables ≡ true)
    × (v.is_mutable ≡ false → any (immutable_at v.id) s.immutables ≡ true)

immutable-here :
    (is : List ImmutableItem)
    → All (λ (i : ImmutableItem). any (immutable_at i.target) is ≡ true) is
immutable-here [] = tt
immutable-here (i ∷ is) = (
  ground (arith, bytes_eq_refl i.target),
  All-map_of (λ (j : ImmutableItem). any (immutable_at j.target) is ≡ true)
      (λ j. any (immutable_at j.target) (i ∷ is) ≡ true) (λ j h. ground arith) is
      (immutable-here is),
)

mutable-here :
    (is : List MutableItem) → All (λ (i : MutableItem). any (mutable_at i.target) is ≡ true) is
mutable-here [] = tt
mutable-here (i ∷ is) = (
  ground (arith, bytes_eq_refl i.target),
  All-map_of (λ (j : MutableItem). any (mutable_at j.target) is ≡ true)
      (λ j. any (mutable_at j.target) (i ∷ is) ≡ true) (λ j h. ground arith) is (mutable-here is),
)

module _ (s : ItemStorage) where
  abbrev Sound : Victim → Type 0
  Sound v = v.oldest < last_time → Found s v

  oldest_immutable-Sound :
      (v : Victim) (is : List ImmutableItem)
      → All (λ (i : ImmutableItem). any (immutable_at i.target) s.immutables ≡ true) is
      → Sound v
      → Sound (oldest_immutable v is)
  unfolding oldest_immutable Found
  oldest_immutable-Sound v [] al h = h
  oldest_immutable-Sound v (i ∷ is) al h = elim (Bool-cases (ltb i.stored_at v.oldest)) [
    | inl b ↦
        rw (b, oldest_immutable)
          (oldest_immutable-Sound
            (record { oldest = i.stored_at; id = i.target; is_mutable = false }) is al.1
            (λ old. (λ e. cc, λ e. al.0)))
    | inr b ↦ rw (b, oldest_immutable) (oldest_immutable-Sound v is al.1 h)
  ]

  oldest_mutable-Sound :
      (v : Victim) (is : List MutableItem)
      → All (λ (i : MutableItem). any (mutable_at i.target) s.mutables ≡ true) is
      → Sound v
      → Sound (oldest_mutable v is)
  unfolding oldest_mutable Found
  oldest_mutable-Sound v [] al h = h
  oldest_mutable-Sound v (i ∷ is) al h = elim (Bool-cases (ltb i.stored_at v.oldest)) [
    | inl b ↦
        rw (b, oldest_mutable)
          (oldest_mutable-Sound (record { oldest = i.stored_at; id = i.target; is_mutable = true })
            is al.1 (λ old. (λ e. al.0, λ e. cc)))
    | inr b ↦ rw (b, oldest_mutable) (oldest_mutable-Sound v is al.1 h)
  ]

-- The victim is no younger than any item.
oldest_immutable-le :
    (v : Victim) (is : List ImmutableItem) → (oldest_immutable v is).oldest ≤ v.oldest
unfolding oldest_immutable
oldest_immutable-le v [] = omega arith
oldest_immutable-le v (i ∷ is) = ground (
  arith,
  oldest_immutable-le (record { oldest = i.stored_at; id = i.target; is_mutable = false }) is,
  oldest_immutable-le v is,
)

oldest_mutable-le : (v : Victim) (is : List MutableItem) → (oldest_mutable v is).oldest ≤ v.oldest
unfolding oldest_mutable
oldest_mutable-le v [] = omega arith
oldest_mutable-le v (i ∷ is) = ground (
  arith,
  oldest_mutable-le (record { oldest = i.stored_at; id = i.target; is_mutable = true }) is,
  oldest_mutable-le v is,
)

oldest_immutable-some :
    (v : Victim) (is : List ImmutableItem)
    → All FitsImmutable is
    → 0 < length is
    → (oldest_immutable v is).oldest < last_time
unfolding oldest_immutable
oldest_immutable-some v [] al h = absurd (omega arith)
oldest_immutable-some v (i ∷ is) al h = ground (
  arith,
  al.0,
  oldest_immutable-le (record { oldest = i.stored_at; id = i.target; is_mutable = false }) is,
  oldest_immutable-le v is,
)

oldest_mutable-some :
    (v : Victim) (is : List MutableItem)
    → All FitsMutable is
    → 0 < length is
    → (oldest_mutable v is).oldest < last_time
unfolding oldest_mutable
oldest_mutable-some v [] al h = absurd (omega arith)
oldest_mutable-some v (i ∷ is) al h = ground (
  arith,
  al.0,
  oldest_mutable-le (record { oldest = i.stored_at; id = i.target; is_mutable = true }) is,
  oldest_mutable-le v is,
)

victim-Sound :
    (s : ItemStorage)
    → Sound s (oldest_mutable (oldest_immutable no_victim s.immutables) s.mutables)
victim-Sound s =
    oldest_mutable-Sound s (oldest_immutable no_victim s.immutables) s.mutables
      (mutable-here s.mutables)
      (oldest_immutable-Sound s no_victim s.immutables (immutable-here s.immutables)
        (λ old. absurd (omega arith)))

victim-some :
    (s : ItemStorage)
    → IsBounded s
    → 0 < length s.immutables + length s.mutables
    → (oldest_mutable (oldest_immutable no_victim s.immutables) s.mutables).oldest < last_time
victim-some s h full = elim (Bool-cases (ltb 0 (length s.mutables))) [
  | inl m ↦
      oldest_mutable-some (oldest_immutable no_victim s.immutables) s.mutables h.mutables
        (ground arith)
  | inr n ↦
      let first_part = oldest_immutable-some no_victim s.immutables h.immutables (ground arith) in
      omega
        (arith, first_part, oldest_mutable-le (oldest_immutable no_victim s.immutables) s.mutables)
]

-- After makeRoom there is room for one more.
pub make_room-IsBounded :
    (s : ItemStorage)
    → IsBounded s
    → IsBounded (make_room s)
      × (length (make_room s).immutables + length (make_room s).mutables < 1000)
unfolding make_room drop_victim Found
make_room-IsBounded s h =
    let v = oldest_mutable (oldest_immutable no_victim s.immutables) s.mutables in
    elim (Bool-cases (ltb (length s.immutables + length s.mutables) 1000)) [
      | inl few ↦ rw few (h, ground arith)
      | inr many ↦
          let found = victim-Sound s (victim-some s h (ground arith)) in
          elim (Bool-cases v.is_mutable) [
            | inl m ↦
                let less = length-keep-any (mutable_at v.id) s.mutables (found.0 m) in
                rw (many, m)
                  (
                    record {
                      few = omega (arith, h.few, less);
                      immutables = h.immutables;
                      mutables =
                          All-keep FitsMutable (λ i. not (mutable_at v.id i)) s.mutables h.mutables;
                    },
                    omega (arith, h.few, less),
                  )
            | inr m ↦
                let less = length-keep-any (immutable_at v.id) s.immutables (found.1 m) in
                rw (many, m)
                  (
                    record {
                      few = omega (arith, h.few, less);
                      immutables =
                          All-keep FitsImmutable (λ i. not (immutable_at v.id i)) s.immutables
                            h.immutables;
                      mutables = h.mutables;
                    },
                    omega (arith, h.few, less),
                  )
          ]
    ]
