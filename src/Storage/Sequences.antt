-- ===== src/Storage/Sequences.antt =====
-- dhtcore/src/Support.cpp: a put never takes a mutable item back to a lower sequence number.
use dhtinspector.Common.{
  ℕ, ◌≡◌, refl, Bool, true, false, Option, some, bytes_eq_refl, inl, inr, List, [], ◌∷◌, ltb,
  if◌then◌else◌, length, first, update_first, arith, Bool-cases,
}
use dhtinspector.Common.Ints.{ℤ, pos, negsuc, ltz, eqz}
use dhtinspector.NodeId.{NodeId}
use dhtinspector.Storage.Items.{
  MutableItem, ItemStorage, PutResult, stored, refreshed, sequence_too_low, cas_mismatch, too_big,
  salt_too_long, mutable_at, mutable_item, put_mutable, put_mutable_at, put_over, cas_fails,
  change_mutable,
}

ltz-irreflexive : (a : ℤ) → ltz a a ≡ false
ltz-irreflexive (pos a) = ground arith
ltz-irreflexive (negsuc a) = ground arith

first-update_first :
    (target : NodeId) (f : MutableItem → MutableItem) (is : List MutableItem) (old : MutableItem)
    → first (mutable_at target) is ≡ some old
    → mutable_at target (f old) ≡ true
    → first (mutable_at target) (update_first (mutable_at target) f is) ≡ some (f old)
first-update_first target f [] old h k = cc
first-update_first target f (i ∷ is) old h k = elim (Bool-cases (mutable_at target i)) [
  | inl e ↦ ground arith
  | inr e ↦ ground (arith, first-update_first target f is old)
]

-- The item stored at the target, if any, has at least this sequence number.
abbrev pub AtLeast : ℤ → NodeId → ItemStorage → Type 0
AtLeast sequence target s =
    (i : MutableItem) × (mutable_item target s ≡ some i) × (ltz i.sequence sequence ≡ false)

AtLeast-change :
    (old : MutableItem) (f : MutableItem → MutableItem) (target : NodeId) (s : ItemStorage)
    → mutable_item target s ≡ some old
    → mutable_at target (f old) ≡ true
    → ltz (f old).sequence old.sequence ≡ false
    → AtLeast old.sequence target (change_mutable target f s)
unfolding mutable_item
AtLeast-change old f target s h k l = (f old, first-update_first target f s.mutables old h k, l)

first-mutable_at :
    (target : NodeId) (is : List MutableItem) (old : MutableItem)
    → first (mutable_at target) is ≡ some old
    → mutable_at target old ≡ true
first-mutable_at target [] old h = cc
first-mutable_at target (i ∷ is) old h = elim (Bool-cases (mutable_at target i)) [
  | inl e ↦ ground arith
  | inr e ↦ ground (arith, first-mutable_at target is old)
]

if-both :
    {A : Type 0} (P : A → Type 0) (b : Bool) (x y : A)
    → (b ≡ true → P x)
    → (b ≡ false → P y)
    → P (if b then x else y)
if-both P true x y h k = h refl
if-both P false x y h k = k refl

put_over-AtLeast :
    (old item : MutableItem) (cas : Option ℤ) (now : ℕ) (s : ItemStorage)
    → mutable_item item.target s ≡ some old
    → AtLeast old.sequence item.target (put_over old item cas now s).1
unfolding put_over mutable_item
put_over-AtLeast old item cas now s h =
    let kept : AtLeast old.sequence item.target s = (old, h, ltz-irreflexive old.sequence) in
    let touched : AtLeast old.sequence item.target
        (change_mutable item.target (λ i. record i { stored_at = now }) s) =
      AtLeast-change old (λ i. record i { stored_at = now }) item.target s h
        (first-mutable_at item.target s.mutables old h) (ltz-irreflexive old.sequence) in
    let over = change_mutable item.target (λ i. record item { stored_at = now }) s in
    let touch = change_mutable item.target (λ i. record i { stored_at = now }) s in
    let newer = if eqz item.sequence old.sequence then (refreshed, touch) else (stored, over) in
    let checked = if ltz item.sequence old.sequence then (sequence_too_low, s) else newer in
    if-both {A = PutResult × ItemStorage} (λ r. AtLeast old.sequence item.target r.1)
      (cas_fails cas old.sequence) (cas_mismatch, s) checked (λ _. kept)
      (λ _.
        if-both {A = PutResult × ItemStorage} (λ r. AtLeast old.sequence item.target r.1)
          (ltz item.sequence old.sequence) (sequence_too_low, s) newer (λ _. kept)
          (λ lower.
            if-both {A = PutResult × ItemStorage} (λ r. AtLeast old.sequence item.target r.1)
              (eqz item.sequence old.sequence) (refreshed, touch) (stored, over) (λ _. touched)
              (λ _.
                AtLeast-change old (λ i. record item { stored_at = now }) item.target s h
                  (bytes_eq_refl item.target) lower)))

-- Where a mutable item is stored, after a put for its target an item is stored there whose sequence
-- number is not lower, whatever the put answers.
pub put_mutable-AtLeast :
    (item old : MutableItem) (cas : Option ℤ) (now : ℕ) (s : ItemStorage)
    → mutable_item item.target s ≡ some old
    → AtLeast old.sequence item.target (put_mutable item cas now s).1
unfolding put_mutable put_mutable_at
put_mutable-AtLeast item old cas now s h =
    let kept : AtLeast old.sequence item.target s = (old, h, ltz-irreflexive old.sequence) in
    let found : AtLeast old.sequence item.target
        (put_mutable_at (mutable_item item.target s) item cas now s).1 =
      rw h (put_over-AtLeast old item cas now s h) in
    let rest =
      if ltb 64 (length item.salt)
      then (salt_too_long, s)
      else put_mutable_at (mutable_item item.target s) item cas now s in
    if-both {A = PutResult × ItemStorage} (λ r. AtLeast old.sequence item.target r.1)
      (ltb 1000 (length item.value)) (too_big, s) rest (λ _. kept)
      (λ _.
        if-both {A = PutResult × ItemStorage} (λ r. AtLeast old.sequence item.target r.1)
          (ltb 64 (length item.salt)) (salt_too_long, s)
          (put_mutable_at (mutable_item item.target s) item cas now s) (λ _. kept) (λ _. found))
