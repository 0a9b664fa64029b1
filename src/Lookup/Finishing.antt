-- ===== src/Lookup/Finishing.antt =====
-- dhtcore/src/Lookup.cpp: every operation keeps the counters right, and within their limits.
use dhtinspector.Common.{
  ℕ, suc, ◌≡◌, refl, ap, true, false, not, ◌&&◌, Option, none, some, inl, inr, List, [], ◌∷◌,
  if◌then◌else◌, first, update_first, arith, Bool-cases,
}
use dhtinspector.Bep44.{Crypto, immutable_target}
use dhtinspector.Endpoint.{HostApi, Endpoint}
use dhtinspector.Krpc.Compact.{decode_peers}
use dhtinspector.NodeId.{NodeId, id_eq}
use dhtinspector.Lookup.{
  Candidate, Kind, Lookup, find_node, get_peers, get_item, is_waiting, start, add_candidate,
}
use dhtinspector.Lookup.Counts.{unit_of, number_of-update_first}
use dhtinspector.Rpc.Reply.{RpcReply, is_response}
use dhtinspector.Lookup.Replies.{
  is_in_flight, asks, on_sent, check_slow, on_reply, reply_to, on_response, on_failure, release,
  mark_failed, mark_responded, collect, admit_all, collect_item, see_peers, see_peer, collect_value,
  collect_raw, collect_fields, collect_mutable, collect_immutable, accepts_mutable, found_nodes,
  nodes_key, values_key,
}
use dhtinspector.Common.Ints.{ℤ}
use dhtinspector.Bencode.{BValue, find, string_at, integer_at, list_at, raw_span}
use dhtinspector.Lookup.Counted.{
  IsCounted, SameCounts, SameCounts-refl, SameCounts-trans, IsCounted-same, if-both, step-IsCounted,
  admit_all-SameCounts, add_candidate-IsCounted, check_slow-IsCounted, on_sent-IsCounted,
}

-- A candidate that waited, once it is changed to one that does not.
released-IsCounted :
    (f : Candidate → Candidate) (e : Endpoint) (c : Candidate) (l : Lookup) (answers : ℕ)
    → is_waiting c.state ≡ true
    → is_waiting (f c).state ≡ false
    → is_in_flight (f c).state ≡ false
    → first (asks e) l.candidates ≡ some c
    → IsCounted l
    → IsCounted (record (release c.state l) {
      candidates = update_first (asks e) f l.candidates;
      answers = answers;
    })
unfolding release
released-IsCounted f e c l answers w off1 off2 found h =
    let waits = number_of-update_first is_waiting f e c l.candidates found in
    let flies = number_of-update_first is_in_flight f e c l.candidates found in
    elim (Bool-cases (is_in_flight c.state)) [
      | inl b ↦ record {
        slots_counted = rw b (omega (arith, flies, h.slots_counted, ap unit_of b, ap unit_of off2));
        outstanding_counted =
            omega (arith, waits, h.outstanding_counted, ap unit_of w, ap unit_of off1);
        few_slots = rw b (omega (arith, h.few_slots));
        few_outstanding = omega (arith, h.few_outstanding);
        few_queries = h.few_queries;
      }
      | inr b ↦ record {
        slots_counted = rw b (omega (arith, flies, h.slots_counted, ap unit_of b, ap unit_of off2));
        outstanding_counted =
            omega (arith, waits, h.outstanding_counted, ap unit_of w, ap unit_of off1);
        few_slots = rw b (omega (arith, h.few_slots));
        few_outstanding = omega (arith, h.few_outstanding);
        few_queries = h.few_queries;
      }
    ]

see_peers-SameCounts :
    (source : Endpoint) (ps : List Endpoint) (l : Lookup) → SameCounts l (see_peers source ps l)
unfolding see_peers see_peer
see_peers-SameCounts source [] l = SameCounts-refl l
see_peers-SameCounts source (p ∷ ps) l =
    let m = see_peer source p l in
    SameCounts-trans l m (see_peers source ps m)
      (record {
        same_slots = refl;
        same_outstanding = refl;
        same_queries = refl;
        same_in_flight = refl;
        same_waiting = refl;
      })
      (see_peers-SameCounts source ps m)

collect_mutable-SameCounts :
    (crypto : Crypto) (raw public_key signature : List ℕ) (sequence : ℤ) (l : Lookup)
    → SameCounts l (collect_mutable crypto raw public_key signature sequence l)
unfolding collect_mutable
collect_mutable-SameCounts crypto raw public_key signature sequence l =
    if-both (SameCounts l) (accepts_mutable crypto raw public_key signature sequence l) _ l
      (record {
        same_slots = refl;
        same_outstanding = refl;
        same_queries = refl;
        same_in_flight = refl;
        same_waiting = refl;
      })
      (SameCounts-refl l)

collect_immutable-SameCounts :
    (crypto : Crypto) (raw : List ℕ) (l : Lookup) → SameCounts l (collect_immutable crypto raw l)
unfolding collect_immutable
collect_immutable-SameCounts crypto raw l =
    if-both (SameCounts l) (not l.item.found && id_eq (immutable_target crypto raw) l.target) _ l
      (record {
        same_slots = refl;
        same_outstanding = refl;
        same_queries = refl;
        same_in_flight = refl;
        same_waiting = refl;
      })
      (SameCounts-refl l)

collect_fields-SameCounts :
    (crypto : Crypto) (raw : List ℕ) (a b : Option (List ℕ)) (s : Option ℤ) (l : Lookup)
    → SameCounts l (collect_fields crypto raw a b s l)
unfolding collect_fields
collect_fields-SameCounts crypto raw (some a) (some b) (some s) l =
    collect_mutable-SameCounts crypto raw a b s l
collect_fields-SameCounts crypto raw none b s l = collect_immutable-SameCounts crypto raw l
collect_fields-SameCounts crypto raw (some a) none s l = collect_immutable-SameCounts crypto raw l
collect_fields-SameCounts crypto raw (some a) (some b) none l =
    collect_immutable-SameCounts crypto raw l

collect_value-SameCounts :
    (crypto : Crypto) (datagram : List ℕ) (body : BValue) (v : Option BValue) (l : Lookup)
    → SameCounts l (collect_value crypto datagram body v l)
unfolding collect_value collect_raw
collect_value-SameCounts crypto datagram body none l = SameCounts-refl l
collect_value-SameCounts crypto datagram body (some v) l = go (raw_span v datagram)
  where
    go : (raw : List ℕ) → SameCounts l (collect_raw crypto raw body l)
    go [] = SameCounts-refl l
    go (c ∷ cs) =
        collect_fields-SameCounts crypto (c ∷ cs) (string_at (b'k' ∷ []) body)
          (string_at (b's' ∷ b'i' ∷ b'g' ∷ []) body) (integer_at (b's' ∷ b'e' ∷ b'q' ∷ []) body) l

collect_item-SameCounts :
    (crypto : Crypto) (reply : RpcReply) (l : Lookup) → SameCounts l (collect_item crypto reply l)
unfolding collect_item
collect_item-SameCounts crypto reply l =
    collect_value-SameCounts crypto reply.datagram reply.message.body
      (find (b'v' ∷ []) reply.message.body) l

collect-SameCounts :
    (api : HostApi) (crypto : Crypto) (e : Endpoint) (reply : RpcReply) (kind : Kind) (l : Lookup)
    → SameCounts l (collect api crypto e reply kind l)
unfolding collect
collect-SameCounts api crypto e reply find_node l = SameCounts-refl l
collect-SameCounts api crypto e reply get_item l = collect_item-SameCounts crypto reply l
collect-SameCounts api crypto e reply get_peers l =
    see_peers-SameCounts e (decode_peers api (list_at values_key reply.message.body) l.family) l

on_response-IsCounted :
    (api : HostApi) (crypto : Crypto) (e : Endpoint) (reply : RpcReply) (c : Candidate) (l : Lookup)
    → is_waiting c.state ≡ true
    → first (asks e) l.candidates ≡ some c
    → IsCounted l
    → IsCounted (on_response api crypto e reply c l)
unfolding on_response mark_responded
on_response-IsCounted api crypto e reply c l w found h =
    let body = reply.message.body in
    let m = record (release c.state l) {
      candidates = update_first (asks e) (mark_responded body) l.candidates;
      answers = suc l.answers;
    } in
    let n = collect api crypto e reply l.kind m in
    let ns = found_nodes api l.family (string_at (nodes_key l.family) body) in
    IsCounted-same m (admit_all api (suc c.hops) ns n)
      (SameCounts-trans m n (admit_all api (suc c.hops) ns n)
        (collect-SameCounts api crypto e reply l.kind m)
        (admit_all-SameCounts api (suc c.hops) ns n))
      (released-IsCounted (mark_responded body) e c l (suc l.answers) w refl refl found h)

on_failure-IsCounted :
    (e : Endpoint) (c : Candidate) (l : Lookup)
    → is_waiting c.state ≡ true
    → first (asks e) l.candidates ≡ some c
    → IsCounted l
    → IsCounted (on_failure e c l)
unfolding on_failure mark_failed release
on_failure-IsCounted e c l w found h =
    released-IsCounted mark_failed e c l l.answers w refl refl found h

reply_to-IsCounted :
    (api : HostApi) (now : ℕ) (crypto : Crypto) (e : Endpoint) (reply : RpcReply)
    (o : Option Candidate) (l : Lookup)
    → first (asks e) l.candidates ≡ o
    → IsCounted l
    → IsCounted (reply_to api now crypto e reply o l).0
unfolding reply_to
reply_to-IsCounted api now crypto e reply none l found h = h
reply_to-IsCounted api now crypto e reply (some c) l found h =
    elim (Bool-cases (is_waiting c.state)) [
      | inr w ↦ rw w h
      | inl w ↦
          let answered = on_response api crypto e reply c l in
          let lost = on_failure e c l in
          rw w (
            step-IsCounted now (if is_response reply.status then answered else lost) (
              if-both IsCounted (is_response reply.status) answered lost
                (on_response-IsCounted api crypto e reply c l w found h)
                (on_failure-IsCounted e c l w found h)))
    ]

on_reply-IsCounted :
    (api : HostApi) (now : ℕ) (crypto : Crypto) (e : Endpoint) (reply : RpcReply) (l : Lookup)
    → IsCounted l
    → IsCounted (on_reply api now crypto e reply l).0
unfolding on_reply
on_reply-IsCounted api now crypto e reply l h =
    if-both {A = Lookup × List Endpoint} (λ s. IsCounted s.0) l.finished (l, [])
      (reply_to api now crypto e reply (first (asks e) l.candidates) l) h
      (reply_to-IsCounted api now crypto e reply (first (asks e) l.candidates) l refl h)

-- The calls that reach a lookup, each with its clock.
pub data Event : Type 0 where
  contact : NodeId → Endpoint → ℕ → ℕ → Event
  begin : ℕ → Event
  sent : Endpoint → ℕ → Event
  slow_check : ℕ → Event
  reply : Endpoint → RpcReply → ℕ → Event

unfoldable pub handle : HostApi → Crypto → Event → Lookup → Lookup
handle api crypto (contact id endpoint hops now) l = (add_candidate api now id endpoint hops l).0
handle api crypto (begin now) l = (start now l).0
handle api crypto (sent endpoint now) l = on_sent now endpoint l
handle api crypto (slow_check now) l = (check_slow now l).0
handle api crypto (reply endpoint r now) l = (on_reply api now crypto endpoint r l).0

unfoldable pub handle_all : HostApi → Crypto → List Event → Lookup → Lookup
unfolding handle
handle_all api crypto [] l = l
handle_all api crypto (v ∷ vs) l = handle_all api crypto vs (handle api crypto v l)

handle-IsCounted :
    (api : HostApi) (crypto : Crypto) (v : Event) (l : Lookup)
    → IsCounted l
    → IsCounted (handle api crypto v l)
unfolding handle start
handle-IsCounted api crypto (contact id endpoint hops now) l h =
    add_candidate-IsCounted api now id endpoint hops l h
handle-IsCounted api crypto (begin now) l h =
    step-IsCounted now (record l { started = true; started_at = some now })
      (IsCounted-same l _
        (record {
          same_slots = refl;
          same_outstanding = refl;
          same_queries = refl;
          same_in_flight = refl;
          same_waiting = refl;
        })
        h)
handle-IsCounted api crypto (sent endpoint now) l h = on_sent-IsCounted now endpoint l h
handle-IsCounted api crypto (slow_check now) l h = check_slow-IsCounted now l h
handle-IsCounted api crypto (reply endpoint r now) l h =
    on_reply-IsCounted api now crypto endpoint r l h

-- However the calls come, if the lookup's counters are right at the start they stay so: they are the numbers of its candidates in flight and of
-- those in flight or slow, at most 3 and 6, and it makes at most 150 queries.
pub handle_all-IsCounted :
    (api : HostApi) (crypto : Crypto) (vs : List Event) (l : Lookup)
    → IsCounted l
    → IsCounted (handle_all api crypto vs l)
unfolding handle_all
handle_all-IsCounted api crypto [] l h = h
handle_all-IsCounted api crypto (v ∷ vs) l h =
    handle_all-IsCounted api crypto vs (handle api crypto v l) (handle-IsCounted api crypto v l h)
