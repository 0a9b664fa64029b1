-- ===== src/Rpc/Runs.antt =====
-- dhtcore/src/RpcManager.cpp: the moves keep the invariant, and so does every run.
use dhtinspector.Common.{
  ℕ, ◌-◌, ◌≡◌, refl, Bool, true, false, ◌||◌, inl, inr, none, some, List, [], ◌∷◌, length, first,
  Bool-cases, arith, leb,
}
use dhtinspector.Endpoint.{Address}
use dhtinspector.Rpc.Table.{
  Queued, HostQueue, Table, can_send_now, send, send_taken, send_failed, of_host, enqueue_first,
  enqueue_behind, refuse, keep_turn, finish_turn, queue_for, take_turn, cancel_all, set_max_pending,
  note_asked,
}
use dhtinspector.Rpc.Invariant.{
  IsPending, IsWaiting, IsRpc, turn_of, erase_pending-IsPending, send-IsPending,
  enqueue_first-IsWaiting, enqueue_behind-IsWaiting, keep_turn-IsWaiting, taken_turn-IsWaiting,
  last_turn-IsWaiting, pop-IsWaiting, turn-found,
}
use dhtinspector.Rpc.Queues.{All-first, IsQueue}
use dhtinspector.Rpc.Moves.{
  Kind, Move, Run, sends, waits_first, waits_behind, idles, empties, keeps, takes, completes,
  cancels, resizes, notes, rest, step,
}

-- send() leaves the queues alone.
send-IsRpc :
    (taken : Bool) (q : Queued) (now : ℕ) (t : Table)
    → can_send_now t ≡ true
    → IsRpc t
    → IsRpc (note_asked q (send taken q now t))
unfolding send send_taken send_failed
send-IsRpc true q now t room h = record {
  transactions = send-IsPending true q now t room h.transactions;
  waiting = h.waiting;
}
send-IsRpc false q now t room h = record {
  transactions = send-IsPending false q now t room h.transactions;
  waiting = h.waiting;
}

enqueue_first-IsRpc :
    (q : Queued) (t : Table) → queue_for q.to.address t ≡ none → IsRpc t → IsRpc (enqueue_first q t)
unfolding enqueue_first refuse
enqueue_first-IsRpc q t empty h = record {
  transactions = elim (Bool-cases (leb 20000 t.queued_total)) [
    | inl full ↦ rw full h.transactions
    | inr room ↦ rw room h.transactions
  ];
  waiting = enqueue_first-IsWaiting q t empty h.waiting;
}

enqueue_behind-IsRpc :
    (q : Queued) (g : HostQueue) (t : Table)
    → queue_for q.to.address t ≡ some g
    → IsRpc t
    → IsRpc (enqueue_behind q g t)
unfolding enqueue_behind refuse
enqueue_behind-IsRpc q g t found h = record {
  transactions =
      elim (Bool-cases (leb t.max_queued (length g.waiting) || leb 20000 t.queued_total)) [
        | inl full ↦ rw full h.transactions
        | inr room ↦ rw room h.transactions
      ];
  waiting = enqueue_behind-IsWaiting q g t found h.waiting;
}

-- A table in which the host's turn is under way.
record InTurn (host : Address) (t : Table) : Type 0 where
  pub transactions : IsPending t.pending t.max_pending t.next_id
  pub waiting : IsWaiting (turn_of host) t.queues t.order t.queued_total

take_turn-IsRpc :
    (taken : Bool) (host : Address) (h : HostQueue) (q : Queued) (qs : List Queued) (now : ℕ)
    (t : Table)
    → can_send_now t ≡ true
    → first (of_host host) t.queues ≡ some h
    → h.waiting ≡ q ∷ qs
    → InTurn host t
    → IsRpc (take_turn taken host q qs now t)
unfolding take_turn finish_turn send send_taken send_failed can_send_now
take_turn-IsRpc true host h q [] now t room found front i = record {
  transactions =
      send-IsPending true q now (record t { queued_total = t.queued_total - 1 }) room
        i.transactions;
  waiting = last_turn-IsWaiting host t.queues t.order t.queued_total h q found front i.waiting;
}
take_turn-IsRpc false host h q [] now t room found front i = record {
  transactions =
      send-IsPending false q now (record t { queued_total = t.queued_total - 1 }) room
        i.transactions;
  waiting = last_turn-IsWaiting host t.queues t.order t.queued_total h q found front i.waiting;
}
take_turn-IsRpc true host h q (r ∷ rs) now t room found front i = record {
  transactions =
      send-IsPending true q now (record t { queued_total = t.queued_total - 1 }) room
        i.transactions;
  waiting =
      taken_turn-IsWaiting host t.queues t.order t.queued_total h q r rs found front i.waiting;
}
take_turn-IsRpc false host h q (r ∷ rs) now t room found front i = record {
  transactions =
      send-IsPending false q now (record t { queued_total = t.queued_total - 1 }) room
        i.transactions;
  waiting =
      taken_turn-IsWaiting host t.queues t.order t.queued_total h q r rs found front i.waiting;
}

-- The host at the front of the order takes its turn.
pop-InTurn :
    (host : Address) (others : List Address) (t : Table)
    → t.order ≡ host ∷ others
    → IsRpc t
    → InTurn host (record t { order = others })
pop-InTurn host others t front i = record {
  transactions = i.transactions;
  waiting = pop-IsWaiting host t.queues others t.queued_total (rw front at i.waiting);
}

pub Move-IsRpc : {k : Kind} → {t u : Table} → Move k t u → IsRpc t → IsRpc u
unfolding keep_turn cancel_all set_max_pending can_send_now queue_for
Move-IsRpc (sends {t} taken q now empty room) i = send-IsRpc taken q now t room i
Move-IsRpc (waits_first {t} q empty) i = enqueue_first-IsRpc q t empty i
Move-IsRpc (waits_behind {t} q h found) i = enqueue_behind-IsRpc q h t found i
Move-IsRpc (idles {t} host others front empty) i =
    let turn = pop-InTurn host others t front i in
    absurd (turn-found host t.queues others t.queued_total turn.waiting empty)
Move-IsRpc (empties {t} host others h front found at) i =
    let queue = All-first IsQueue host t.queues h i.waiting.queues found in
    absurd (ground (arith, queue.holds))
Move-IsRpc (keeps {t} host others front) i = record {
  transactions = i.transactions;
  waiting =
      keep_turn-IsWaiting host t.queues others t.queued_total
        (pop-InTurn host others t front i).waiting;
}
Move-IsRpc (takes {t} taken host others h q qs now front room found two) i =
    take_turn-IsRpc taken host h q qs now (record t { order = others }) room found two
      (pop-InTurn host others t front i)
Move-IsRpc (completes {t} p reply) i = record {
  transactions = erase_pending-IsPending p.tid t.pending t.max_pending t.next_id i.transactions;
  waiting = i.waiting;
}
Move-IsRpc (cancels {t}) i = record {
  transactions = record {
    few = omega arith;
    most_small = i.transactions.most_small;
    next_small = i.transactions.next_small;
    distinct = tt;
  };
  waiting = record {
    counted = refl;
    few = omega arith;
    queues = tt;
    once = λ a. omega arith;
    served = λ a. refl;
  };
}
Move-IsRpc (resizes {t} n) i = record {
  transactions = record {
    few = i.transactions.few;
    most_small = omega arith;
    next_small = i.transactions.next_small;
    distinct = i.transactions.distinct;
  };
  waiting = i.waiting;
}
Move-IsRpc (notes {t} waits busy silent most) i = record {
  transactions = i.transactions;
  waiting = i.waiting;
}

pub Run-IsRpc : {allowed : Kind → Bool} → {t u : Table} → Run allowed t u → IsRpc t → IsRpc u
Run-IsRpc rest i = i
Run-IsRpc (step ok m h) i = Run-IsRpc h (Move-IsRpc m i)
