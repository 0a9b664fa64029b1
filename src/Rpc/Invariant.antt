-- ===== src/Rpc/Invariant.antt =====
-- dhtcore/src/RpcManager.cpp: the invariant of the transactions and of the queues, and what send(),
-- query() and a host's turn in drain() do to it.
use dhtinspector.Common.{
  ℕ, ◌+◌, ◌-◌, ◌≤◌, ◌<◌, ◌≡◌, ◌≢◌, refl, sym, subst, ◌∙◌, ap, Bool, true, false, ◌||◌, inl, inr,
  none, some, List, [], ◌∷◌, ◌++◌, length, length-append, any, first, update_first, All, All-append,
  Bool-cases, arith, if◌then◌else◌, leb,
}
use dhtinspector.Endpoint.{Address, address_eq}
use dhtinspector.Endpoint.Compact.{address_eq_iff}
use dhtinspector.Rpc.Table.{
  Queued, Pending, HostQueue, Table, has_id, can_send_now, send, send_taken, send_failed, of_host,
  erase_queue, erase_pending, enqueue_first, enqueue_behind, refuse, push_waiting, queue_for,
}
use dhtinspector.Rpc.Fresh.{next_transaction_id_fresh}
use dhtinspector.Rpc.Queues.{
  turns_of, queues_of, total_waiting, IsQueue, turns_of-append, first-host, queues_of-none,
  All-first, queues_of-update, total_waiting-update, All-update, queues_of-erase,
  total_waiting-erase, All-erase,
}

-- No transaction id is outstanding twice.
abbrev pub Distinct : List Pending → Type 0
Distinct [] = Unit
Distinct (p ∷ ps) = (any (has_id p.tid) ps ≡ false) × Distinct ps

pub record IsPending (ps : List Pending) (most next : ℕ) : Type 0 where
  pub few : length ps ≤ 65536
  pub most_small : most ≤ 65536
  pub next_small : next < 65536
  pub distinct : Distinct ps

-- Every waiting query is counted, is among those of its host, and its host has exactly one turn to
-- come: `owed` are turns that are under way.
pub record IsWaiting (owed : Address → ℕ) (hs : List HostQueue) (order : List Address) (total : ℕ)
    : Type 0 where
  pub counted : total ≡ total_waiting hs
  pub few : total ≤ 20000
  pub queues : All IsQueue hs
  pub once : (a : Address) → queues_of a hs ≤ 1
  pub served : (a : Address) → turns_of a order + owed a ≡ queues_of a hs

abbrev pub no_turn : Address → ℕ
no_turn a = 0

abbrev pub turn_of : Address → Address → ℕ
turn_of host a = if address_eq host a then 1 else 0

pub record IsRpc (t : Table) : Type 0 where
  pub transactions : IsPending t.pending t.max_pending t.next_id
  pub waiting : IsWaiting no_turn t.queues t.order t.queued_total

any-erase_pending :
    (tid other : List ℕ) (ps : List Pending)
    → any (has_id other) ps ≡ false
    → any (has_id other) (erase_pending tid ps) ≡ false
unfolding erase_pending
any-erase_pending tid other [] h = h
any-erase_pending tid other (p ∷ ps) h = ground (arith, any-erase_pending tid other ps)

Distinct-erase_pending :
    (tid : List ℕ) (ps : List Pending) → Distinct ps → Distinct (erase_pending tid ps)
unfolding erase_pending
Distinct-erase_pending tid [] h = tt
Distinct-erase_pending tid (p ∷ ps) h = elim (Bool-cases (has_id tid p)) [
  | inl x ↦ rw (x, Distinct) h.1
  | inr x ↦ rw (x, Distinct) (any-erase_pending tid p.tid ps h.0, Distinct-erase_pending tid ps h.1)
]

length-erase_pending-le :
    (tid : List ℕ) (ps : List Pending) → length (erase_pending tid ps) ≤ length ps
unfolding erase_pending
length-erase_pending-le tid [] = omega arith
length-erase_pending-le tid (p ∷ ps) = ground (arith, length-erase_pending-le tid ps)

pub erase_pending-IsPending :
    (tid : List ℕ) (ps : List Pending) (most next : ℕ)
    → IsPending ps most next
    → IsPending (erase_pending tid ps) most next
erase_pending-IsPending tid ps most next h = record {
  few = omega (arith, h.few, length-erase_pending-le tid ps);
  most_small = h.most_small;
  next_small = h.next_small;
  distinct = Distinct-erase_pending tid ps h.distinct;
}

-- send() where there is room for a transaction: the id is a new one.
pub send-IsPending :
    (taken : Bool) (q : Queued) (now : ℕ) (t : Table)
    → can_send_now t ≡ true
    → IsPending t.pending t.max_pending t.next_id
    → IsPending
        (send taken q now t).pending
        (send taken q now t).max_pending
        (send taken q now t).next_id
unfolding send send_taken send_failed can_send_now
send-IsPending true q now t room h =
    let small : length t.pending < 65536 = ground (arith, h.most_small) in
    let free = next_transaction_id_fresh t small h.next_small in
    rw free.0 (record {
      few = omega arith;
      most_small = h.most_small;
      next_small = free.1;
      distinct = (free.0, h.distinct);
    })
send-IsPending false q now t room h =
    let small : length t.pending < 65536 = ground (arith, h.most_small) in
    record {
      few = h.few;
      most_small = h.most_small;
      next_small = (next_transaction_id_fresh t small h.next_small).1;
      distinct = h.distinct;
    }

-- A query that waits for a host without a queue.
pub enqueue_first-IsWaiting :
    (q : Queued) (t : Table)
    → queue_for q.to.address t ≡ none
    → IsWaiting no_turn t.queues t.order t.queued_total
    → IsWaiting no_turn
        (enqueue_first q t).queues
        (enqueue_first q t).order
        (enqueue_first q t).queued_total
unfolding enqueue_first refuse queue_for
enqueue_first-IsWaiting q t empty h = elim (Bool-cases (leb 20000 t.queued_total)) [
  | inl full ↦ rw full h
  | inr room ↦
      let host = q.to.address in
      let none_yet = queues_of-none host t.queues empty in
      rw room (record {
        counted = omega (arith, h.counted);
        few = ground arith;
        queues = (record { holds = omega arith; homed = (refl, tt) }, h.queues);
        once = λ a. ground (arith, address_eq_iff host a, h.once a);
        served = λ a. ground (arith, h.served a, turns_of-append a t.order (host ∷ []));
      })
]

-- A query that waits behind others of its host.
pub enqueue_behind-IsWaiting :
    (q : Queued) (h : HostQueue) (t : Table)
    → queue_for q.to.address t ≡ some h
    → IsWaiting no_turn t.queues t.order t.queued_total
    → IsWaiting no_turn
        (enqueue_behind q h t).queues
        (enqueue_behind q h t).order
        (enqueue_behind q h t).queued_total
unfolding enqueue_behind refuse queue_for
enqueue_behind-IsWaiting q h t found w =
    elim (Bool-cases (leb t.max_queued (length h.waiting) || leb 20000 t.queued_total)) [
      | inl full ↦ rw full w
      | inr room ↦
          let host = q.to.address in
          let total = total_waiting-update host (push_waiting q) (λ g. refl) t.queues h found in
          rw room (record {
            counted = omega (arith, w.counted, total, length-append h.waiting (q ∷ []));
            few = ground arith;
            queues =
                All-update host (push_waiting q) (λ g. refl) IsQueue t.queues
                  (λ g at i. record {
                    holds = omega (arith, length-append g.waiting (q ∷ []));
                    homed = All-append _ g.waiting (q ∷ []) i.homed (sym at, tt);
                  })
                  w.queues;
            once = λ a.
                omega
                  (arith, w.once a, queues_of-update host (push_waiting q) (λ g. refl) a t.queues);
            served = λ a.
                omega (
                  arith,
                  w.served a,
                  queues_of-update host (push_waiting q) (λ g. refl) a t.queues,
                );
          })
    ]

-- A turn of a host is under way: the host is out of the order.
module _ (host : Address) (hs : List HostQueue) (order : List Address) (total : ℕ) where
  abbrev Turn : Type 0
  Turn = IsWaiting (turn_of host) hs order total

  -- The host is put back as it was.
  pub keep_turn-IsWaiting : Turn → IsWaiting no_turn hs (order ++ host ∷ []) total
  keep_turn-IsWaiting w = record {
    counted = w.counted;
    few = w.few;
    queues = w.queues;
    once = w.once;
    served = λ a. omega (arith, w.served a, turns_of-append a order (host ∷ []));
  }

  -- The front query is taken and others are left.
  pub taken_turn-IsWaiting :
      (h : HostQueue) (q r : Queued) (rs : List Queued)
      → first (of_host host) hs ≡ some h
      → h.waiting ≡ q ∷ r ∷ rs
      → Turn
      → IsWaiting no_turn
          (update_first (of_host host) (λ g. record g { waiting = r ∷ rs }) hs)
          (order ++ host ∷ [])
          (total - 1)
  taken_turn-IsWaiting h q r rs found two w =
      let rest : HostQueue → HostQueue = λ g. record g { waiting = r ∷ rs } in
      let queue = All-first IsQueue host hs h w.queues found in
      let homed : All (λ (x : Queued). x.to.address ≡ h.host) (q ∷ r ∷ rs) =
        rw two at queue.homed in
      let sum = total_waiting-update host rest (λ g. refl) hs h found in
      record {
        counted = omega (arith, w.counted, sum, ap length two);
        few = omega (arith, w.few);
        queues =
            All-update host rest (λ g. refl) IsQueue hs
              (λ g at i. record {
                holds = omega arith;
                homed =
                    subst (λ b. All (λ (x : Queued). x.to.address ≡ b) (r ∷ rs))
                      (first-host host hs h found ∙ sym at) homed.1;
              })
              w.queues;
        once = λ a. omega (arith, w.once a, queues_of-update host rest (λ g. refl) a hs);
        served = λ a. omega (
          arith,
          w.served a,
          turns_of-append a order (host ∷ []),
          queues_of-update host rest (λ g. refl) a hs,
        );
      }

  -- The last query is taken: the queue goes with the turn.
  pub last_turn-IsWaiting :
      (h : HostQueue) (q : Queued)
      → first (of_host host) hs ≡ some h
      → h.waiting ≡ q ∷ []
      → Turn
      → IsWaiting no_turn (erase_queue host hs) order (total - 1)
  last_turn-IsWaiting h q found one w = record {
    counted = omega (arith, w.counted, total_waiting-erase host hs h found, ap length one);
    few = omega (arith, w.few);
    queues = All-erase host IsQueue hs w.queues;
    once = λ a. omega (arith, w.once a, queues_of-erase host a hs h found);
    served = λ a. omega (arith, w.served a, queues_of-erase host a hs h found);
  }

-- The host at the front of the order takes its turn.
pub pop-IsWaiting :
    (host : Address) (hs : List HostQueue) (rest : List Address) (total : ℕ)
    → IsWaiting no_turn hs (host ∷ rest) total
    → IsWaiting (turn_of host) hs rest total
pop-IsWaiting host hs rest total w = record {
  counted = w.counted;
  few = w.few;
  queues = w.queues;
  once = w.once;
  served = λ a. omega (arith, w.served a);
}

-- It has a queue.
pub turn-found :
    (host : Address) (hs : List HostQueue) (order : List Address) (total : ℕ)
    → IsWaiting (turn_of host) hs order total
    → first (of_host host) hs ≢ none
turn-found host hs order total w e =
    ground (arith, w.served host, queues_of-none host hs e, address_eq_iff host host)
