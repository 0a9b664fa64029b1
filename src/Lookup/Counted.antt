-- ===== src/Lookup/Counted.antt =====
-- dhtcore/src/Lookup.cpp: the invariant of the counters, and the operations that no reply reaches.
use dhtinspector.Common.{
  ℕ, ◌-◌, ◌≤◌, ◌≡◌, refl, sym, ◌∙◌, min, Bool, true, false, ◌&&◌, inl, inr, List, [], ◌∷◌, ◌==◌,
  if◌then◌else◌, arith, Bool-cases,
}
use dhtinspector.Endpoint.{HostApi, Endpoint}
use dhtinspector.Krpc.Compact.{CompactNode}
use dhtinspector.NodeId.{NodeId}
use dhtinspector.Lookup.{
  Lookup, is_waiting, pick, picked, take_picked, conclude, finish, start_timer, can_finish, step,
  admit, is_wanted, add_candidate, insert_by_distance, new_candidate,
}
use dhtinspector.Lookup.Counts.{
  number_of, pick_from-Picked, number_of-insert, number_of-trim, promote-counts, number_of-sent,
}
use dhtinspector.Lookup.Replies.{
  is_in_flight, promote, on_sent, check_slow, take_promoted, admit_all,
}

-- The counters count, and hold their limits.
pub record IsCounted (l : Lookup) : Type 0 where
  pub slots_counted : l.slots ≡ number_of is_in_flight l.candidates
  pub outstanding_counted : l.outstanding ≡ number_of is_waiting l.candidates
  pub few_slots : l.slots ≤ 3
  pub few_outstanding : l.outstanding ≤ 6
  pub few_queries : l.queries ≤ 150

-- Same counters and as many candidates in every state that waits.
pub record SameCounts (l m : Lookup) : Type 0 where
  pub same_slots : m.slots ≡ l.slots
  pub same_outstanding : m.outstanding ≡ l.outstanding
  pub same_queries : m.queries ≡ l.queries
  pub same_in_flight : number_of is_in_flight m.candidates ≡ number_of is_in_flight l.candidates
  pub same_waiting : number_of is_waiting m.candidates ≡ number_of is_waiting l.candidates

pub SameCounts-refl : (l : Lookup) → SameCounts l l
SameCounts-refl l = record {
  same_slots = refl;
  same_outstanding = refl;
  same_queries = refl;
  same_in_flight = refl;
  same_waiting = refl;
}

pub SameCounts-trans : (l m n : Lookup) → SameCounts l m → SameCounts m n → SameCounts l n
SameCounts-trans l m n h k = record {
  same_slots = k.same_slots ∙ h.same_slots;
  same_outstanding = k.same_outstanding ∙ h.same_outstanding;
  same_queries = k.same_queries ∙ h.same_queries;
  same_in_flight = k.same_in_flight ∙ h.same_in_flight;
  same_waiting = k.same_waiting ∙ h.same_waiting;
}

pub IsCounted-same : (l m : Lookup) → SameCounts l m → IsCounted l → IsCounted m
IsCounted-same l m s h = record {
  slots_counted = s.same_slots ∙ h.slots_counted ∙ sym s.same_in_flight;
  outstanding_counted = s.same_outstanding ∙ h.outstanding_counted ∙ sym s.same_waiting;
  few_slots = omega (arith, s.same_slots, h.few_slots);
  few_outstanding = omega (arith, s.same_outstanding, h.few_outstanding);
  few_queries = omega (arith, s.same_queries, h.few_queries);
}

-- What both branches have, the conditional has.
pub if-both :
    {A : Type 0} (P : A → Type 0) (b : Bool) (x y : A) → P x → P y → P (if b then x else y)
if-both P true x y h k = h
if-both P false x y h k = k

pick-IsCounted : (l : Lookup) → IsCounted l → IsCounted (pick l).0
unfolding pick take_picked
pick-IsCounted l h =
    let room = min (3 - l.slots) (6 - l.outstanding) in
    let slot = pick_from-Picked is_in_flight refl refl room 0 l.queries l.candidates in
    let wait = pick_from-Picked is_waiting refl refl room 0 l.queries l.candidates in
    if-both {A = Lookup × List Endpoint} (λ r. IsCounted r.0) l.finished (l, [])
      (take_picked l (picked l), (picked l).1) h
      (record {
        slots_counted = omega (arith, h.slots_counted, slot.counted);
        outstanding_counted = omega (arith, h.outstanding_counted, wait.counted);
        few_slots = omega (arith, h.few_slots, slot.in_budget);
        few_outstanding = omega (arith, h.few_outstanding, wait.in_budget);
        few_queries = slot.in_queries h.few_queries;
      })

conclude-SameCounts : (now : ℕ) (l : Lookup) → SameCounts l (conclude now l)
unfolding conclude finish start_timer
conclude-SameCounts now l =
    let m = start_timer l in
    if-both (SameCounts l) l.finished l (if can_finish l then finish now m else m)
      (SameCounts-refl l)
      (if-both (SameCounts l) (can_finish l) (finish now m) m
        (record {
          same_slots = refl;
          same_outstanding = refl;
          same_queries = refl;
          same_in_flight = refl;
          same_waiting = refl;
        })
        (record {
          same_slots = refl;
          same_outstanding = refl;
          same_queries = refl;
          same_in_flight = refl;
          same_waiting = refl;
        }))

pub step-IsCounted : (now : ℕ) (l : Lookup) → IsCounted l → IsCounted (step now l).0
unfolding step
step-IsCounted now l h =
    IsCounted-same (pick l).0 (conclude now (pick l).0) (conclude-SameCounts now (pick l).0)
      (pick-IsCounted l h)

admit-SameCounts :
    (api : HostApi) (id : NodeId) (endpoint : Endpoint) (hops : ℕ) (l : Lookup)
    → SameCounts l (admit api id endpoint hops l)
unfolding admit
admit-SameCounts api id endpoint hops l = elim (Bool-cases (is_wanted api id endpoint l)) [
  | inr e ↦ rw e (SameCounts-refl l)
  | inl e ↦
      let c = new_candidate id endpoint hops in
      let placed = insert_by_distance l.target c l.candidates in
      rw e (record {
        same_slots = refl;
        same_outstanding = refl;
        same_queries = refl;
        same_in_flight = omega (
          arith,
          number_of-trim is_in_flight refl 0 placed,
          number_of-insert is_in_flight l.target c l.candidates,
        );
        same_waiting = omega (
          arith,
          number_of-trim is_waiting refl 0 placed,
          number_of-insert is_waiting l.target c l.candidates,
        );
      })
]

pub admit_all-SameCounts :
    (api : HostApi) (hops : ℕ) (ns : List CompactNode) (l : Lookup)
    → SameCounts l (admit_all api hops ns l)
unfolding admit_all
admit_all-SameCounts api hops [] l = SameCounts-refl l
admit_all-SameCounts api hops (n ∷ ns) l =
    SameCounts-trans l (admit api n.id n.endpoint hops l)
      (admit_all api hops ns (admit api n.id n.endpoint hops l))
      (admit-SameCounts api n.id n.endpoint hops l)
      (admit_all-SameCounts api hops ns (admit api n.id n.endpoint hops l))

pub add_candidate-IsCounted :
    (api : HostApi) (now : ℕ) (id : NodeId) (endpoint : Endpoint) (hops : ℕ) (l : Lookup)
    → IsCounted l
    → IsCounted (add_candidate api now id endpoint hops l).0
unfolding add_candidate
add_candidate-IsCounted api now id endpoint hops l h =
    let same =
      IsCounted-same l (admit api id endpoint hops l) (admit-SameCounts api id endpoint hops l) h in
    elim (Bool-cases (is_wanted api id endpoint l && l.started)) [
      | inl e ↦ rw e (step-IsCounted now (admit api id endpoint hops l) same)
      | inr e ↦ rw e same
    ]

take_promoted-IsCounted :
    (now : ℕ) (l : Lookup)
    → IsCounted l
    → IsCounted (take_promoted l (promote now l.slow_after l.candidates))
unfolding take_promoted
take_promoted-IsCounted now l h =
    let r = promote-counts now l.slow_after l.candidates in
    record {
      slots_counted = omega (arith, r.0, h.slots_counted);
      outstanding_counted = omega (arith, r.1, h.outstanding_counted);
      few_slots = omega (arith, h.few_slots);
      few_outstanding = h.few_outstanding;
      few_queries = h.few_queries;
    }

pub check_slow-IsCounted : (now : ℕ) (l : Lookup) → IsCounted l → IsCounted (check_slow now l).0
unfolding check_slow
check_slow-IsCounted now l h =
    let r = promote now l.slow_after l.candidates in
    let m = take_promoted l r in
    let counted = take_promoted-IsCounted now l h in
    if-both {A = Lookup × List Endpoint} (λ s. IsCounted s.0) l.finished (l, [])
      (if r.1 == 0 then (m, []) else step now m) h
      (if-both {A = Lookup × List Endpoint} (λ s. IsCounted s.0) (r.1 == 0) (m, []) (step now m)
        counted (step-IsCounted now m counted))

pub on_sent-IsCounted :
    (now : ℕ) (e : Endpoint) (l : Lookup) → IsCounted l → IsCounted (on_sent now e l)
unfolding on_sent
on_sent-IsCounted now e l h =
    IsCounted-same l (on_sent now e l)
      (record {
        same_slots = refl;
        same_outstanding = refl;
        same_queries = refl;
        same_in_flight = number_of-sent is_in_flight now e l.candidates;
        same_waiting = number_of-sent is_waiting now e l.candidates;
      })
      h
