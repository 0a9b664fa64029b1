-- ===== src/Lookup/Results.antt =====
-- dhtcore/src/Lookup.cpp: what a finished lookup reports.
use dhtinspector.Common.{
  ℕ, zero, suc, ◌≡◌, refl, ap, Bool, true, false, some, List, [], ◌∷◌, take, keep, map,
}
use dhtinspector.Lookup.{
  CandidateState, Candidate, Contact, Lookup, LookupResult, fresh, in_flight, slow, responded,
  failed, closest_responders, first_hops, elapsed, finish,
}

abbrev pub is_responded : CandidateState → Bool
is_responded responded = true
is_responded _ = false

abbrev pub contact_of : Candidate → Contact
contact_of c = record { id = c.id; endpoint = c.endpoint; token = c.token }

-- The responders among the candidates, as contacts.
abbrev pub responders : List Candidate → List Contact
responders cs = map contact_of (keep (λ c. is_responded c.state) cs)

-- One candidate, in the state `s`.
responders-round :
    (room : ℕ) (c : Candidate) (cs : List Candidate) (passed taken : List Contact)
    → passed ≡ take (suc room) (responders cs)
    → taken ≡ take room (responders cs)
    → (s : CandidateState)
    → elim s [
      | responded ↦ contact_of c ∷ taken
      | fresh ↦ passed
      | in_flight ↦ passed
      | slow ↦ passed
      | failed ↦ passed
    ]
      ≡ take (suc room) (
          map contact_of (elim (is_responded s) [
            | true ↦ c ∷ keep (λ d. is_responded d.state) cs
            | false ↦ keep (λ d. is_responded d.state) cs
          ]))
responders-round room c cs passed taken h k responded = ap (λ cs'. contact_of c ∷ cs') k
responders-round room c cs passed taken h k fresh = h
responders-round room c cs passed taken h k in_flight = h
responders-round room c cs passed taken h k slow = h
responders-round room c cs passed taken h k failed = h

closest_responders-take :
    (room : ℕ) (cs : List Candidate) → closest_responders room cs ≡ take room (responders cs)
unfolding closest_responders
closest_responders-take zero cs = refl
closest_responders-take (suc room) [] = refl
closest_responders-take (suc room) (c ∷ cs) =
    responders-round room c cs (closest_responders (suc room) cs) (closest_responders room cs)
      (closest_responders-take (suc room) cs) (closest_responders-take room cs) c.state

-- A lookup that finishes is marked finished, stops its timer and reports as its closest contacts the
-- first 8 of its candidates that responded, in their order, with the peers and the item that it has
-- collected.
pub finish-responders :
    (now : ℕ) (l : Lookup)
    → ((finish now l).finished ≡ true)
      × ((finish now l).slow_timer ≡ false)
      × (r : LookupResult) × ((finish now l).result ≡ some r)
      × (r.closest ≡ take 8 (responders l.candidates))
      × (r.peers ≡ l.peers)
      × (r.item ≡ l.item)
unfolding finish
finish-responders now l = (
  refl,
  refl,
  record {
    closest = closest_responders 8 l.candidates;
    peers = l.peers;
    sightings = l.sightings;
    queried = l.queries;
    answered = l.answers;
    duration = elapsed l.started_at now;
    best_hops = first_hops l.candidates;
    item = l.item;
  },
  refl,
  closest_responders-take 8 l.candidates,
  refl,
  refl,
)
