-- ===== src/Lookup.antt =====
-- dhtcore/src/Lookup.cpp and dhtcore/include/dhtcore/Lookup.h: the iterative lookup. `pick` is the
-- part of step() that chooses what to send, `conclude` the part after the sends. A query's callback
-- is a later `on_reply` or `on_sent`; the clock is an argument.
pub mod Replies
pub mod Counts
pub mod Counted
pub mod Finishing
pub mod Results
use dhtinspector.Common.{
  ℕ, zero, suc, ◌+◌, ◌-◌, ◌≤◌, ◌<◌, min, max, Bool, true, false, not, ◌&&◌, ◌||◌, Option, none,
  some, List, [], ◌∷◌, ◌++◌, ltb, leb, ◌==◌, if◌then◌else◌, length, any,
}
use dhtinspector.Common.Ints.{ℤ}
use dhtinspector.Endpoint.{
  HostApi, Endpoint, Family, endpoint_eq, family_of, family_eq, is_usable_remote,
}
use dhtinspector.NodeId.{NodeId, id_eq, closer}

pub data Kind : Type 0 where
  find_node get_peers get_item : Kind

-- Lookup::State; `fresh` is New.
pub data CandidateState : Type 0 where
  fresh in_flight slow responded failed : CandidateState

pub record Candidate : Type 0 where
  pub id : NodeId
  pub endpoint : Endpoint
  pub state : CandidateState
  pub token : List ℕ
  pub hops : ℕ
  pub sent_at : ℕ

pub record Contact : Type 0 where
  pub id : NodeId
  pub endpoint : Endpoint
  pub token : List ℕ

-- The members m_item...; `sequence` is -1 before any.
pub record Item : Type 0 where
  pub found : Bool
  pub is_mutable : Bool
  pub value : List ℕ
  pub public_key : List ℕ
  pub signature : List ℕ
  pub sequence : ℤ

pub record LookupResult : Type 0 where
  pub closest : List Contact
  pub peers : List Endpoint
  pub sightings : List (Endpoint × Endpoint)
  pub queried : ℕ
  pub answered : ℕ
  pub duration : ℕ
  pub best_hops : Option ℕ
  pub item : Item

pub record Lookup : Type 0 where
  pub kind : Kind
  pub target : NodeId
  pub family : Family
  pub self : NodeId
  pub allow_local : Bool
  pub candidates : List Candidate
  pub seen : List Endpoint
  pub peers : List Endpoint
  pub sightings : List (Endpoint × Endpoint)
  pub salt : List ℕ
  pub item : Item
  pub started_at : Option ℕ
  pub slow_timer : Bool
  pub slow_after : ℕ
  pub query_timeout : ℕ
  pub slots : ℕ
  pub outstanding : ℕ
  pub queries : ℕ
  pub answers : ℕ
  pub started : Bool
  pub finished : Bool
  pub result : Option LookupResult

abbrev pub k : ℕ
k = 8

abbrev pub alpha : ℕ
alpha = 3

abbrev pub max_outstanding : ℕ
max_outstanding = 6

abbrev pub max_queries : ℕ
max_queries = 150

abbrev pub max_candidates : ℕ
max_candidates = 100

unfoldable pub set_timeouts : ℕ → ℕ → Lookup → Lookup
set_timeouts slow_after query_timeout l = record l {
  query_timeout = max 100 query_timeout;
  slow_after = min (max 100 slow_after) (max 100 query_timeout);
}

-- What step() does with a candidate: leave the loop, pass it, count a responder or send.
pub data Choice : Type 0 where
  stop pass count send : Choice

unfoldable pub choose_state : CandidateState → ℕ → Choice
choose_state responded queries = count
choose_state fresh queries = if ltb queries max_queries then send else pass
choose_state _ queries = pass

unfoldable pub choose : ℕ → ℕ → ℕ → CandidateState → Choice
unfolding choose_state
choose budget ahead queries s = if budget == 0 || leb k ahead then stop else choose_state s queries

unfoldable pub keep_candidate :
    Candidate → List Candidate × List Endpoint → List Candidate × List Endpoint
keep_candidate c r = (c ∷ r.0, r.1)

unfoldable pub send_candidate :
    Candidate → List Candidate × List Endpoint → List Candidate × List Endpoint
send_candidate c r = (record c { state = in_flight; sent_at = 0 } ∷ r.0, c.endpoint ∷ r.1)

-- The loop that picks what to send.
unfoldable pub pick_from : ℕ → ℕ → ℕ → List Candidate → List Candidate × List Endpoint
unfolding choose keep_candidate send_candidate
pick_from budget ahead queries [] = ([], [])
pick_from budget ahead queries (c ∷ cs) = elim (choose budget ahead queries c.state) [
  | stop ↦ (c ∷ cs, [])
  | pass ↦ keep_candidate c (pick_from budget ahead queries cs)
  | count ↦ keep_candidate c (pick_from budget (suc ahead) queries cs)
  | send ↦ send_candidate c (pick_from (budget - 1) ahead (suc queries) cs)
]

unfoldable pub take_picked : Lookup → List Candidate × List Endpoint → Lookup
take_picked l r = record l {
  candidates = r.0;
  slots = l.slots + length r.1;
  outstanding = l.outstanding + length r.1;
  queries = l.queries + length r.1;
}

abbrev pub picked : Lookup → List Candidate × List Endpoint
picked l =
    pick_from (min (alpha - l.slots) (max_outstanding - l.outstanding)) 0 l.queries l.candidates

-- step() up to the sends: the new state and the endpoints to query, in order.
unfoldable pub pick : Lookup → Lookup × List Endpoint
unfolding pick_from take_picked
pick l = if l.finished then (l, []) else (take_picked l (picked l), (picked l).1)

abbrev pub is_waiting : CandidateState → Bool
is_waiting in_flight = true
is_waiting slow = true
is_waiting _ = false

abbrev pub is_fresh : CandidateState → Bool
is_fresh fresh = true
is_fresh _ = false

-- canFinish's loop: `none` where it leaves with false, else the responders counted.
unfoldable pub count_ahead : ℕ → List Candidate → Option ℕ
count_ahead found [] = some found
count_ahead found (c ∷ cs) = elim (leb k found) [
  | true ↦ some found
  | false ↦ elim c.state [
    | responded ↦ count_ahead (suc found) cs
    | in_flight ↦ none
    | slow ↦ none
    | fresh ↦ count_ahead found cs
    | failed ↦ count_ahead found cs
  ]
]

-- canFinish after its loop.
unfoldable pub finish_with : Option ℕ → Lookup → Bool
finish_with none l = false
finish_with (some found) l =
    leb k found
    || (l.outstanding == 0
        && (leb max_queries l.queries || not (any (λ c. is_fresh c.state) l.candidates)))

unfoldable pub can_finish : Lookup → Bool
unfolding count_ahead finish_with
can_finish l = finish_with (count_ahead 0 l.candidates) l

-- The closest responders, at most `room` of them.
unfoldable pub closest_responders : ℕ → List Candidate → List Contact
closest_responders zero cs = []
closest_responders (suc room) [] = []
closest_responders (suc room) (c ∷ cs) = elim c.state [
  | responded ↦
      record { id = c.id; endpoint = c.endpoint; token = c.token } ∷ closest_responders room cs
  | fresh ↦ closest_responders (suc room) cs
  | in_flight ↦ closest_responders (suc room) cs
  | slow ↦ closest_responders (suc room) cs
  | failed ↦ closest_responders (suc room) cs
]

unfoldable pub first_hops : List Candidate → Option ℕ
first_hops [] = none
first_hops (c ∷ cs) = elim c.state [
  | responded ↦ some c.hops
  | fresh ↦ first_hops cs
  | in_flight ↦ first_hops cs
  | slow ↦ first_hops cs
  | failed ↦ first_hops cs
]

abbrev pub elapsed : Option ℕ → ℕ → ℕ
elapsed none now = 0
elapsed (some at) now = now - at

unfoldable pub finish : ℕ → Lookup → Lookup
unfolding closest_responders first_hops
finish now l = record l {
  finished = true;
  slow_timer = false;
  result = some (record {
    closest = closest_responders k l.candidates;
    peers = l.peers;
    sightings = l.sightings;
    queried = l.queries;
    answered = l.answers;
    duration = elapsed l.started_at now;
    best_hops = first_hops l.candidates;
    item = l.item;
  });
}

unfoldable pub start_timer : Lookup → Lookup
start_timer l = record l { slow_timer = l.slow_timer || ltb 0 l.outstanding }

-- step() after the sends.
unfoldable pub conclude : ℕ → Lookup → Lookup
unfolding start_timer can_finish finish
conclude now l =
    if l.finished then l else (if can_finish l then finish now (start_timer l) else start_timer l)

unfoldable pub step : ℕ → Lookup → Lookup × List Endpoint
unfolding pick conclude
step now l = (conclude now (pick l).0, (pick l).1)

unfoldable pub start : ℕ → Lookup → Lookup × List Endpoint
unfolding step
start now l = step now (record l { started = true; started_at = some now })

-- std::lower_bound and insert, in the order of distance to the target.
unfoldable pub insert_by_distance : NodeId → Candidate → List Candidate → List Candidate
insert_by_distance target c [] = c ∷ []
insert_by_distance target c (d ∷ ds) = elim (closer target d.id c.id) [
  | true ↦ d ∷ insert_by_distance target c ds
  | false ↦ c ∷ d ∷ ds
]

unfoldable pub trim_one : ℕ → Candidate → List Candidate → List Candidate
trim_one ahead c cs =
    if ltb max_candidates (ahead + length (c ∷ cs)) && is_fresh c.state then cs else c ∷ cs

-- The trimming loop, from the far end; `ahead` counts the candidates before the list.
unfoldable pub trim_from : ℕ → List Candidate → List Candidate
unfolding trim_one
trim_from ahead [] = []
trim_from ahead (c ∷ cs) = trim_one ahead c (trim_from (suc ahead) cs)

abbrev pub new_candidate : NodeId → Endpoint → ℕ → Candidate
new_candidate id endpoint hops = record {
  id = id;
  endpoint = endpoint;
  state = fresh;
  token = [];
  hops = hops;
  sent_at = 0;
}

unfoldable pub is_wanted : HostApi → NodeId → Endpoint → Lookup → Bool
is_wanted api id endpoint l =
    not (l.finished || id_eq id l.self)
    && (family_eq (family_of api endpoint.address) l.family
        && (is_usable_remote api endpoint l.allow_local && not (any (endpoint_eq endpoint) l.seen)))

-- addCandidate before its step().
unfoldable pub admit : HostApi → NodeId → Endpoint → ℕ → Lookup → Lookup
unfolding is_wanted insert_by_distance trim_from
admit api id endpoint hops l =
    if is_wanted api id endpoint l
    then record l {
      seen = endpoint ∷ l.seen;
      candidates =
          trim_from 0 (insert_by_distance l.target (new_candidate id endpoint hops) l.candidates);
    }
    else l

unfoldable pub add_candidate : HostApi → ℕ → NodeId → Endpoint → ℕ → Lookup → Lookup × List Endpoint
unfolding admit step
add_candidate api now id endpoint hops l =
    if is_wanted api id endpoint l && l.started
    then step now (admit api id endpoint hops l)
    else (admit api id endpoint hops l, [])
