-- ===== src/Rpc/Fifo.antt =====
-- dhtcore/src/RpcManager.cpp: what the manager promises each host, a queue that is first in first out,
-- and that the moves of the table are moves of it.
use dhtinspector.Common.{
  ℕ, ◌≡◌, refl, Bool, true, false, none, some, List, [], ◌∷◌, ◌++◌, first, keep, arith,
}
use dhtinspector.Endpoint.{Address, address_eq}
use dhtinspector.Endpoint.Compact.{address_eq_iff}
use dhtinspector.Rpc.Table.{
  Queued, HostQueue, Table, Call, asked, cancelled, send, send_taken, send_failed, of_host,
  finish_turn, take_turn, erase_queue,
}
use dhtinspector.Rpc.Queues.{
  line_of, none-queues_of, queues_of-erase, line_of-update_self, line_of-update_other,
  line_of-erase_other,
}
use dhtinspector.Rpc.Invariant.{IsRpc}

-- What clients asked for the host, with every cancelAll, the queries that went to send(), and those
-- that wait behind them, each in order.
pub record Fifo : Type 0 where
  pub calls : List Call
  pub sent : List Queued
  pub waiting : List Queued

pub data FifoMove (host : Address) : Fifo → Fifo → Type 0 where
  accepts :
      {f : Fifo}
      → (q : Queued) → q.to.address ≡ host
      → FifoMove host f
          (record f { calls = f.calls ++ asked q ∷ []; waiting = f.waiting ++ q ∷ [] })
  passes :
      {f : Fifo}
      → (q : Queued) → (qs : List Queued) → f.waiting ≡ q ∷ qs
      → FifoMove host f (record f { sent = f.sent ++ q ∷ []; waiting = qs })
  drops :
      {f : Fifo} → FifoMove host f (record f { calls = f.calls ++ cancelled ∷ []; waiting = [] })

pub data FifoRun (host : Address) : Fifo → Fifo → Type 0 where
  same : {f : Fifo} → FifoRun host f f
  next : {f g h : Fifo} → FifoMove host f g → FifoRun host g h → FifoRun host f h

pub FifoRun-append :
    {host : Address} → {f g h : Fifo} → FifoRun host f g → FifoRun host g h → FifoRun host f h
FifoRun-append same k = k
FifoRun-append (next m h) k = next m (FifoRun-append h k)

abbrev pub for_host : Address → Queued → Bool
for_host host q = address_eq q.to.address host

abbrev pub concerns : Address → Call → Bool
concerns host (asked q) = for_host host q
concerns host cancelled = true

-- What the host sees of the table.
abbrev pub fifo_of : Address → Table → Fifo
fifo_of host t = record {
  calls = keep (concerns host) t.calls;
  sent = keep (for_host host) t.attempts;
  waiting = line_of host t.queues;
}

pub keep-append {ℓ} :
    {A : Type ℓ} (p : A → Bool) (xs ys : List A) → keep p (xs ++ ys) ≡ keep p xs ++ keep p ys
keep-append p [] ys = refl
keep-append p (x ∷ xs) ys = ground (arith, keep-append p xs ys)

-- The attempts, the queues and the calls after send().
pub send-attempts :
    (taken : Bool) (q : Queued) (now : ℕ) (t : Table)
    → (send taken q now t).attempts ≡ t.attempts ++ q ∷ []
unfolding send send_taken send_failed
send-attempts true q now t = refl
send-attempts false q now t = refl

pub send-queues :
    (taken : Bool) (q : Queued) (now : ℕ) (t : Table) → (send taken q now t).queues ≡ t.queues
unfolding send send_taken send_failed
send-queues true q now t = refl
send-queues false q now t = refl

pub send-calls :
    (taken : Bool) (q : Queued) (now : ℕ) (t : Table) → (send taken q now t).calls ≡ t.calls
unfolding send send_taken send_failed
send-calls true q now t = refl
send-calls false q now t = refl

-- A host whose last query is taken has no queue left.
line_of-erase_self :
    (host : Address) (t : Table) (h : HostQueue)
    → IsRpc t
    → first (of_host host) t.queues ≡ some h
    → line_of host (erase_queue host t.queues) ≡ []
line_of-erase_self host t h i found =
    let one = queues_of-erase host host t.queues h found in
    let gone : first (of_host host) (erase_queue host t.queues) ≡ none =
      none-queues_of host (erase_queue host t.queues)
        (ground (arith, address_eq_iff host host, i.waiting.once host)) in
    rw gone refl

-- The host's line after a turn that took its front query.
pub line_of-turn :
    (host : Address) (h : HostQueue) (q : Queued) (qs : List Queued) (taken : Bool) (now : ℕ)
    (others : List Address) (t : Table)
    → IsRpc t
    → first (of_host host) t.queues ≡ some h
    → line_of host (take_turn taken host q qs now (record t { order = others })).queues ≡ qs
unfolding take_turn finish_turn send send_taken send_failed
line_of-turn host h q [] true now others t i found = line_of-erase_self host t h i found
line_of-turn host h q [] false now others t i found = line_of-erase_self host t h i found
line_of-turn host h q (r ∷ rs) true now others t i found =
    line_of-update_self host (λ g. record g { waiting = r ∷ rs }) (λ g. refl) t.queues h found
line_of-turn host h q (r ∷ rs) false now others t i found =
    line_of-update_self host (λ g. record g { waiting = r ∷ rs }) (λ g. refl) t.queues h found

-- The lines of the others.
pub line_of-turn_other :
    (host other : Address) (q : Queued) (qs : List Queued) (taken : Bool) (now : ℕ)
    (others : List Address) (t : Table)
    → address_eq host other ≡ false
    → line_of other (take_turn taken host q qs now (record t { order = others })).queues
      ≡ line_of other t.queues
unfolding take_turn finish_turn send send_taken send_failed
line_of-turn_other host other q [] true now others t n = line_of-erase_other host other t.queues n
line_of-turn_other host other q [] false now others t n = line_of-erase_other host other t.queues n
line_of-turn_other host other q (r ∷ rs) true now others t n =
    line_of-update_other host (λ g. record g { waiting = r ∷ rs }) (λ g. refl) other t.queues n
line_of-turn_other host other q (r ∷ rs) false now others t n =
    line_of-update_other host (λ g. record g { waiting = r ∷ rs }) (λ g. refl) other t.queues n

pub attempts-turn :
    (host : Address) (q : Queued) (qs : List Queued) (taken : Bool) (now : ℕ)
    (others : List Address) (t : Table)
    → (take_turn taken host q qs now (record t { order = others })).attempts ≡ t.attempts ++ q ∷ []
unfolding take_turn finish_turn send send_taken send_failed
attempts-turn host q [] true now others t = refl
attempts-turn host q [] false now others t = refl
attempts-turn host q (r ∷ rs) true now others t = refl
attempts-turn host q (r ∷ rs) false now others t = refl

pub calls-turn :
    (host : Address) (q : Queued) (qs : List Queued) (taken : Bool) (now : ℕ)
    (others : List Address) (t : Table)
    → (take_turn taken host q qs now (record t { order = others })).calls ≡ t.calls
unfolding take_turn finish_turn send send_taken send_failed
calls-turn host q [] true now others t = refl
calls-turn host q [] false now others t = refl
calls-turn host q (r ∷ rs) true now others t = refl
calls-turn host q (r ∷ rs) false now others t = refl
