-- ===== src/Lookup/Counts.antt =====
-- dhtcore/src/Lookup.cpp: the counters of the queries that wait.
use dhtinspector.Common.{
  ℕ, suc, ◌+◌, ◌-◌, ◌≤◌, ◌<◌, ◌≡◌, refl, ap, Bool, true, false, some, inl, inr, List, [], ◌∷◌, ltb,
  length, first, update_first, arith, Bool-cases,
}
use dhtinspector.Endpoint.{Endpoint}
use dhtinspector.NodeId.{NodeId}
use dhtinspector.Lookup.{
  CandidateState, Candidate, Choice, fresh, in_flight, slow, responded, failed, stop, pass, count,
  send, choose, choose_state, pick_from, keep_candidate, send_candidate, is_waiting, is_fresh,
  insert_by_distance, trim_from, trim_one,
}
use dhtinspector.Lookup.Replies.{is_in_flight, promote, is_slow_now, asks, mark_sent}

-- 1 for true.
abbrev pub unit_of : Bool → ℕ
unit_of true = 1
unit_of false = 0

-- The candidates whose state passes the test.
abbrev pub number_of : (CandidateState → Bool) → List Candidate → ℕ
number_of p [] = 0
number_of p (c ∷ cs) = unit_of (p c.state) + number_of p cs

choose-send :
    (budget ahead queries : ℕ) (s : CandidateState)
    → choose budget ahead queries s ≡ send
    → (s ≡ fresh) × (0 < budget) × (queries < 150)
unfolding choose choose_state
choose-send budget ahead queries fresh h = ground arith
choose-send budget ahead queries in_flight h = ground arith
choose-send budget ahead queries slow h = ground arith
choose-send budget ahead queries responded h = ground arith
choose-send budget ahead queries failed h = ground arith

-- What picking keeps: the room of the budget and of the queries left.
pub record Picked (p : CandidateState → Bool) (budget queries : ℕ) (cs : List Candidate)
    (r : List Candidate × List Endpoint) : Type 0 where
  pub counted : number_of p r.0 ≡ number_of p cs + length r.1
  pub in_budget : length r.1 ≤ budget
  pub in_queries : queries ≤ 150 → queries + length r.1 ≤ 150

Picked-keep :
    (p : CandidateState → Bool) (budget queries : ℕ) (c : Candidate) (cs : List Candidate)
    (r : List Candidate × List Endpoint)
    → Picked p budget queries cs r
    → Picked p budget queries (c ∷ cs) (keep_candidate c r)
unfolding keep_candidate
Picked-keep p budget queries c cs r h = record {
  counted = omega (arith, h.counted);
  in_budget = h.in_budget;
  in_queries = h.in_queries;
}

Picked-send :
    (p : CandidateState → Bool) (budget queries : ℕ) (c : Candidate) (cs : List Candidate)
    (r : List Candidate × List Endpoint)
    → p in_flight ≡ true
    → p fresh ≡ false
    → (c.state ≡ fresh) × (0 < budget) × (queries < 150)
    → Picked p (budget - 1) (suc queries) cs r
    → Picked p budget queries (c ∷ cs) (send_candidate c r)
unfolding send_candidate
Picked-send p budget queries c cs r on off e h = record {
  counted = omega (arith, h.counted, ap unit_of on, ap (λ s. unit_of (p s)) e.0, ap unit_of off);
  in_budget = omega (arith, h.in_budget, e.1);
  in_queries = λ q. omega (arith, h.in_queries e.2);
}

-- One round of the loop, by what it chooses.
Picked-choice :
    (p : CandidateState → Bool)
    → p in_flight ≡ true
    → p fresh ≡ false
    → (budget ahead queries : ℕ) (c : Candidate) (cs : List Candidate)
      (passed counted sent : List Candidate × List Endpoint)
    → Picked p budget queries cs passed
    → Picked p budget queries cs counted
    → Picked p (budget - 1) (suc queries) cs sent
    → (ch : Choice) → choose budget ahead queries c.state ≡ ch
    → Picked p budget queries (c ∷ cs) (elim ch [
      | stop ↦ (c ∷ cs, [])
      | pass ↦ keep_candidate c passed
      | count ↦ keep_candidate c counted
      | send ↦ send_candidate c sent
    ])
Picked-choice p on off budget ahead queries c cs passed counted sent h1 h2 h3 stop e = record {
  counted = omega arith;
  in_budget = omega arith;
  in_queries = λ q. omega arith;
}
Picked-choice p on off budget ahead queries c cs passed counted sent h1 h2 h3 pass e =
    Picked-keep p budget queries c cs passed h1
Picked-choice p on off budget ahead queries c cs passed counted sent h1 h2 h3 count e =
    Picked-keep p budget queries c cs counted h2
Picked-choice p on off budget ahead queries c cs passed counted sent h1 h2 h3 send e =
    Picked-send p budget queries c cs sent on off (choose-send budget ahead queries c.state e) h3

pub pick_from-Picked :
    (p : CandidateState → Bool)
    → p in_flight ≡ true
    → p fresh ≡ false
    → (budget ahead queries : ℕ) (cs : List Candidate)
    → Picked p budget queries cs (pick_from budget ahead queries cs)
unfolding pick_from
pick_from-Picked p on off budget ahead queries [] = record {
  counted = omega arith;
  in_budget = omega arith;
  in_queries = λ q. omega arith;
}
pick_from-Picked p on off budget ahead queries (c ∷ cs) =
    Picked-choice p on off budget ahead queries c cs (pick_from budget ahead queries cs)
      (pick_from budget (suc ahead) queries cs) (pick_from (budget - 1) ahead (suc queries) cs)
      (pick_from-Picked p on off budget ahead queries cs)
      (pick_from-Picked p on off budget (suc ahead) queries cs)
      (pick_from-Picked p on off (budget - 1) ahead (suc queries) cs)
      (choose budget ahead queries c.state) refl

pub number_of-insert :
    (p : CandidateState → Bool) (target : NodeId) (c : Candidate) (cs : List Candidate)
    → number_of p (insert_by_distance target c cs) ≡ unit_of (p c.state) + number_of p cs
unfolding insert_by_distance
number_of-insert p target c [] = omega arith
number_of-insert p target c (d ∷ ds) = ground (arith, number_of-insert p target c ds)

fresh-uncounted :
    (p : CandidateState → Bool) (s : CandidateState)
    → p fresh ≡ false
    → is_fresh s ≡ true
    → unit_of (p s) ≡ 0
fresh-uncounted p fresh off e = ap unit_of off
fresh-uncounted p in_flight off e = absurd (omega (arith, ap unit_of e))
fresh-uncounted p slow off e = absurd (omega (arith, ap unit_of e))
fresh-uncounted p responded off e = absurd (omega (arith, ap unit_of e))
fresh-uncounted p failed off e = absurd (omega (arith, ap unit_of e))

number_of-trim_one :
    (p : CandidateState → Bool)
    → p fresh ≡ false
    → (ahead : ℕ) (c : Candidate) (cs : List Candidate)
    → number_of p (trim_one ahead c cs) ≡ unit_of (p c.state) + number_of p cs
unfolding trim_one
number_of-trim_one p off ahead c cs = elim (Bool-cases (ltb 100 (ahead + length (c ∷ cs)))) [
  | inr e ↦ rw e refl
  | inl e ↦ elim (Bool-cases (is_fresh c.state)) [
    | inl f ↦ rw (e, f) (omega (arith, fresh-uncounted p c.state off f))
    | inr f ↦ rw (e, f) refl
  ]
]

pub number_of-trim :
    (p : CandidateState → Bool)
    → p fresh ≡ false
    → (ahead : ℕ) (cs : List Candidate) → number_of p (trim_from ahead cs) ≡ number_of p cs
unfolding trim_from
number_of-trim p off ahead [] = refl
number_of-trim p off ahead (c ∷ cs) = omega (
  arith,
  number_of-trim_one p off ahead c (trim_from (suc ahead) cs),
  number_of-trim p off (suc ahead) cs,
)

in_flight-counted :
    (s : CandidateState)
    → is_in_flight s ≡ true
    → (unit_of (is_in_flight s) ≡ 1) × (unit_of (is_waiting s) ≡ 1)
in_flight-counted in_flight e = (refl, refl)
in_flight-counted fresh e = absurd (omega (arith, ap unit_of e))
in_flight-counted slow e = absurd (omega (arith, ap unit_of e))
in_flight-counted responded e = absurd (omega (arith, ap unit_of e))
in_flight-counted failed e = absurd (omega (arith, ap unit_of e))

is_slow_now-is_in_flight :
    (now slow_after : ℕ) (c : Candidate)
    → is_slow_now now slow_after c ≡ true
    → is_in_flight c.state ≡ true
unfolding is_slow_now
is_slow_now-is_in_flight now slow_after c e = ground arith

pub promote-counts :
    (now slow_after : ℕ) (cs : List Candidate)
    → (number_of is_in_flight (promote now slow_after cs).0 + (promote now slow_after cs).1
        ≡ number_of is_in_flight cs)
      × (number_of is_waiting (promote now slow_after cs).0 ≡ number_of is_waiting cs)
unfolding promote
promote-counts now slow_after [] = (refl, refl)
promote-counts now slow_after (c ∷ cs) =
    let rest = promote-counts now slow_after cs in
    elim (Bool-cases (is_slow_now now slow_after c)) [
      | inl e ↦
          let f = in_flight-counted c.state (is_slow_now-is_in_flight now slow_after c e) in
          rw e (omega (arith, rest.0, f.0), omega (arith, rest.1, f.1))
      | inr e ↦ rw e (omega (arith, rest.0), omega (arith, rest.1))
    ]

-- What a change of the first candidate at an endpoint, found as `c`, does to a count.
pub number_of-update_first :
    (p : CandidateState → Bool) (f : Candidate → Candidate) (e : Endpoint) (c : Candidate)
    (cs : List Candidate)
    → first (asks e) cs ≡ some c
    → number_of p (update_first (asks e) f cs) + unit_of (p c.state)
      ≡ number_of p cs + unit_of (p (f c).state)
number_of-update_first p f e c [] h = cc
number_of-update_first p f e c (d ∷ ds) h = ground (arith, number_of-update_first p f e c ds)

pub number_of-sent :
    (p : CandidateState → Bool) (now : ℕ) (e : Endpoint) (cs : List Candidate)
    → number_of p (update_first (asks e) (mark_sent now) cs) ≡ number_of p cs
unfolding mark_sent
number_of-sent p now e [] = refl
number_of-sent p now e (d ∷ ds) = ground (arith, number_of-sent p now e ds)
