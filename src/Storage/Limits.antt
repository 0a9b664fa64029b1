-- ===== src/Storage/Limits.antt =====
-- dhtcore/src/Support.cpp: RateLimiter and ContactBudget. What they do with a `double` is `Double`.
-- Times come from a clock that never goes back, so a difference of times is a number.
use dhtinspector.Common.{
  ℕ, ◌+◌, ◌-◌, Bool, true, false, not, ◌||◌, Option, none, some, List, ◌∷◌, ltb, leb, ◌==◌,
  if◌then◌else◌, keep, any, first, update_first,
}
use dhtinspector.Common.Ints.{ℤ, pos, negsuc}
use dhtinspector.Endpoint.{Address, Endpoint, address_eq, endpoint_eq}

-- The operations of the processor's floating point numbers that the code calls; `floor` is the
-- conversion to qint64.
pub record Double : Type 1 where
  pub Num : Type 0
  pub of_int : ℕ → Num
  pub plus : Num → Num → Num
  pub minus : Num → Num → Num
  pub times : Num → Num → Num
  pub over : Num → Num → Num
  pub less : Num → Num → Bool
  pub at_least : Num → Num → Bool
  pub floor : Num → ℕ

-- std::min.
abbrev pub least : (d : Double) → d.Num → d.Num → d.Num
least d a b = if d.less b a then b else a

pub record HostBucket (d : Double) : Type 0 where
  pub host : Address
  pub tokens : d.Num
  pub last : ℕ

pub record RateLimiter (d : Double) : Type 0 where
  pub buckets : List (HostBucket d)
  pub rate : d.Num
  pub burst : d.Num

pub record ContactBudget (d : Double) : Type 0 where
  pub recent : List (Endpoint × ℕ)
  pub contacts : ℕ
  pub limit : ℕ
  pub balance : d.Num
  pub last : ℕ

abbrev pub window_ms : ℕ
window_ms = 180000

abbrev pub recent_at : Endpoint → Endpoint × ℕ → Bool
recent_at e r = endpoint_eq r.0 e

is_live_entry : ℕ → Option (Endpoint × ℕ) → Bool
is_live_entry now none = false
is_live_entry now (some r) = ltb (now - r.1) window_ms

clamp_limit : ℤ → ℕ
clamp_limit (pos n) = n
clamp_limit (negsuc n) = 0

insert_recent : Endpoint → ℕ → List (Endpoint × ℕ) → List (Endpoint × ℕ)
insert_recent to now rs =
    if any (recent_at to) rs
    then update_first (recent_at to) (λ r. (to, now)) rs
    else (to, now) ∷ rs

module _ {d : Double} where
  abbrev pub bucket_of : Address → HostBucket d → Bool
  bucket_of a b = address_eq b.host a

  -- allow on the bucket of the host: the tokens it has now, and what is left.
  unfoldable pub refill_bucket : RateLimiter d → ℕ → HostBucket d → HostBucket d
  refill_bucket l now b = record b {
    tokens =
        least d l.burst
          (d.plus b.tokens (d.over (d.times (d.of_int (now - b.last)) l.rate) (d.of_int 1000)));
    last = now;
  }

  unfoldable pub spend : HostBucket d → Bool × HostBucket d
  spend b =
      if d.less b.tokens (d.of_int 1)
      then (false, b)
      else (true, record b { tokens = d.minus b.tokens (d.of_int 1) })

  unfoldable pub allow_at :
      Option (HostBucket d) → Address → ℕ → RateLimiter d → Bool × RateLimiter d
  unfolding refill_bucket spend
  allow_at none a now l =
      let r = spend (refill_bucket l now (record { host = a; tokens = l.burst; last = now })) in
      (r.0, record l { buckets = r.1 ∷ l.buckets })
  allow_at (some b) a now l =
      let r = spend (refill_bucket l now b) in
      (r.0, record l { buckets = update_first (bucket_of a) (λ _. r.1) l.buckets })

  unfoldable pub allow : Address → ℕ → RateLimiter d → Bool × RateLimiter d
  unfolding allow_at
  allow a now l = allow_at (first (bucket_of a) l.buckets) a now l

  unfoldable pub prune_limiter : ℕ → RateLimiter d → RateLimiter d
  prune_limiter now l = record l {
    buckets =
        keep
          (λ b.
            not (ltb (d.floor (d.times (d.over l.burst l.rate) (d.of_int 1000))) (now - b.last)))
          l.buckets;
  }

  unfoldable pub is_limited : ContactBudget d → Bool
  is_limited b = ltb 0 b.limit

  unfoldable pub is_live_contact : Endpoint → ℕ → ContactBudget d → Bool
  unfolding is_live_entry
  is_live_contact to now b = is_live_entry now (first (recent_at to) b.recent)

  unfoldable pub refill : ℕ → ContactBudget d → ContactBudget d
  refill now b =
      if ltb b.last now
      then record b {
        balance = least d (d.of_int b.limit) (
            d.plus b.balance
              (d.over (d.times (d.of_int (now - b.last)) (d.of_int b.limit)) (d.of_int 1000)));
        last = now;
      }
      else b

  unfoldable pub set_limit : ℤ → ℕ → ContactBudget d → ContactBudget d
  unfolding clamp_limit is_limited
  set_limit contacts now b =
      let limit = clamp_limit contacts in
      if limit == b.limit then b else record b {
        limit = limit;
        balance = (if is_limited b then least d b.balance (d.of_int limit) else d.of_int limit);
        last = now;
      }

  unfoldable pub allows : Endpoint → ℕ → ContactBudget d → Bool × ContactBudget d
  unfolding is_limited is_live_contact refill
  allows to now b =
      if not (is_limited b) || is_live_contact to now b
      then (true, b)
      else (d.at_least (refill now b).balance (d.of_int 1), refill now b)

  charge : ℕ → ContactBudget d → ContactBudget d
  unfolding is_limited refill
  charge now b =
      let counted = record b { contacts = b.contacts + 1 } in
      if is_limited b
      then record (refill now counted) {
        balance = d.minus (refill now counted).balance (d.of_int 1);
      }
      else counted

  -- ContactBudget::record.
  unfoldable pub record_contact : Endpoint → ℕ → ContactBudget d → ContactBudget d
  unfolding insert_recent charge is_live_contact
  record_contact to now b =
      let noted = record b { recent = insert_recent to now b.recent } in
      if is_live_contact to now b then noted else charge now noted

  unfoldable pub prune_budget : ℕ → ContactBudget d → ContactBudget d
  prune_budget now b = record b { recent = keep (λ r. not (leb window_ms (now - r.1))) b.recent }
