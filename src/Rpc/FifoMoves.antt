-- ===== src/Rpc/FifoMoves.antt =====
-- dhtcore/src/RpcManager.cpp: the moves of the table are moves of each host's queue.
use dhtinspector.Common.{
  ℕ, ◌≡◌, refl, sym, subst, ◌∙◌, Bool, true, false, ◌||◌, inl, inr, none, some, List, [], ◌∷◌, ◌++◌,
  append-nil, length, first, update_first, keep, keep-true, keep-false, first_cons_true,
  first_cons_false, All, Bool-cases, arith, leb,
}
use dhtinspector.Endpoint.{Address, address_eq}
use dhtinspector.Endpoint.Compact.{address_eq_iff}
use dhtinspector.Rpc.Table.{
  Queued, HostQueue, Table, Call, asked, cancelled, note_asked, send, of_host, enqueue_first,
  enqueue_behind, refuse, push_waiting, keep_turn, finish_turn, queue_for, take_turn, cancel_all,
  set_max_pending,
}
use dhtinspector.Rpc.Queues.{
  line_of, first-host, line_of-update_self, line_of-update_other, IsQueue, All-first,
}
use dhtinspector.Rpc.Invariant.{IsRpc}
use dhtinspector.Rpc.Runs.{Move-IsRpc}
use dhtinspector.Rpc.Moves.{
  Kind, Move, Run, sends, waits_first, waits_behind, idles, empties, keeps, takes, completes,
  cancels, resizes, notes, rest, step,
}
use dhtinspector.Rpc.Fifo.{
  FifoRun, accepts, passes, drops, same, next, FifoRun-append, for_host, concerns, send-calls,
  calls-turn, fifo_of, keep-append, send-attempts, send-queues, line_of-turn, line_of-turn_other,
  attempts-turn,
}

-- The calls that concern the host, after a query for it and for another.
asks_here :
    (host : Address) (q : Queued) (cs : List Call)
    → for_host host q ≡ true
    → keep (concerns host) (cs ++ asked q ∷ []) ≡ keep (concerns host) cs ++ asked q ∷ []
asks_here host q cs here =
    rw (keep-append (concerns host) cs (asked q ∷ []), keep-true (concerns host) (asked q) [] here)
      refl

asks_elsewhere :
    (host : Address) (q : Queued) (cs : List Call)
    → for_host host q ≡ false
    → keep (concerns host) (cs ++ asked q ∷ []) ≡ keep (concerns host) cs
asks_elsewhere host q cs other =
    rw
      (keep-append (concerns host) cs (asked q ∷ []), keep-false (concerns host) (asked q) [] other)
      (append-nil (keep (concerns host) cs))

-- A query sent at once is accepted and passed on; one for another host changes nothing here.
sends-Fifo :
    (host : Address) (taken : Bool) (q : Queued) (now : ℕ) (t : Table)
    → queue_for q.to.address t ≡ none
    → FifoRun host (fifo_of host t) (fifo_of host (note_asked q (send taken q now t)))
unfolding queue_for
sends-Fifo host taken q now t empty = elim (Bool-cases (for_host host q)) [
  | inl here ↦
      let at = (address_eq_iff q.to.address host).0 here in
      let idle : line_of host t.queues ≡ [] = rw (sym at, empty) refl in
      rw
        (
          send-attempts taken q now t,
          send-queues taken q now t,
          send-calls taken q now t,
          keep-append (for_host host) t.attempts (q ∷ []),
          keep-true (for_host host) q [] here,
          asks_here host q t.calls here,
          idle,
        )
        (next (accepts q at) (next (passes q [] refl) same))
  | inr other ↦
      rw
        (
          send-attempts taken q now t,
          send-queues taken q now t,
          send-calls taken q now t,
          asks_elsewhere host q t.calls other,
          keep-append (for_host host) t.attempts (q ∷ []),
          keep-false (for_host host) q [] other,
          append-nil (keep (for_host host) t.attempts),
        )
        same
]

-- What waits for the host, before and after a query is put in a queue.
enqueue_first-Fifo :
    (host : Address) (q : Queued) (t : Table)
    → queue_for q.to.address t ≡ none
    → FifoRun host (fifo_of host t) (fifo_of host (enqueue_first q t))
unfolding queue_for enqueue_first refuse
enqueue_first-Fifo host q t empty = elim (Bool-cases (leb 20000 t.queued_total)) [
  | inl full ↦ rw full same
  | inr room ↦ elim (Bool-cases (for_host host q)) [
    | inl here ↦
        let at = (address_eq_iff q.to.address host).0 here in
        let idle : line_of host t.queues ≡ [] = rw (sym at, empty) refl in
        rw
          (
            room,
            asks_here host q t.calls here,
            first_cons_true (of_host host) (record { host = q.to.address; waiting = q ∷ [] })
                t.queues here,
            idle,
          )
          (next (accepts q at) same)
    | inr other ↦
        rw
          (
            room,
            asks_elsewhere host q t.calls other,
            first_cons_false (of_host host) (record { host = q.to.address; waiting = q ∷ [] })
                t.queues other,
          )
          same
  ]
]

enqueue_behind-Fifo :
    (host : Address) (q : Queued) (h : HostQueue) (t : Table)
    → queue_for q.to.address t ≡ some h
    → FifoRun host (fifo_of host t) (fifo_of host (enqueue_behind q h t))
unfolding queue_for enqueue_behind refuse
enqueue_behind-Fifo host q h t found =
    elim (Bool-cases (leb t.max_queued (length h.waiting) || leb 20000 t.queued_total)) [
      | inl full ↦ rw full same
      | inr room ↦ elim (Bool-cases (for_host host q)) [
        | inl here ↦
            let at = (address_eq_iff q.to.address host).0 here in
            let now : line_of host t.queues ≡ h.waiting = rw (sym at, found) refl in
            let after : line_of host (update_first (of_host q.to.address) (push_waiting q) t.queues)
                ≡ h.waiting ++ q ∷ [] =
              subst
                (λ b.
                  line_of b (update_first (of_host q.to.address) (push_waiting q) t.queues)
                  ≡ h.waiting ++ q ∷ [])
                at
                (line_of-update_self q.to.address (push_waiting q) (λ g. refl) t.queues h found) in
            rw (room, asks_here host q t.calls here, after, now) (next (accepts q at) same)
        | inr other ↦
            rw
              (
                room,
                asks_elsewhere host q t.calls other,
                line_of-update_other q.to.address (push_waiting q) (λ g. refl) host t.queues other,
              )
              same
      ]
    ]

takes-Fifo :
    (host : Address) (turn : Address) (h : HostQueue) (q : Queued) (qs : List Queued) (taken : Bool)
    (now : ℕ) (others : List Address) (t : Table)
    → IsRpc t
    → first (of_host turn) t.queues ≡ some h
    → h.waiting ≡ q ∷ qs
    → FifoRun host
        (fifo_of host t)
        (fifo_of host (take_turn taken turn q qs now (record t { order = others })))
takes-Fifo host turn h q qs taken now others t i found two =
    let queue = All-first IsQueue turn t.queues h i.waiting.queues found in
    let homed : All (λ (x : Queued). x.to.address ≡ h.host) (q ∷ qs) = rw two at queue.homed in
    let home : q.to.address ≡ turn = homed.0 ∙ first-host turn t.queues h found in
    elim (Bool-cases (for_host host q)) [
      | inl here ↦
          let at : turn ≡ host = sym home ∙ (address_eq_iff q.to.address host).0 here in
          let before : line_of host t.queues ≡ q ∷ qs = rw (sym at, found) two in
          let after =
            subst
              (λ b.
                line_of b (take_turn taken turn q qs now (record t { order = others })).queues ≡ qs)
              at (line_of-turn turn h q qs taken now others t i found) in
          rw
            (
              attempts-turn turn q qs taken now others t,
              calls-turn turn q qs taken now others t,
              keep-append (for_host host) t.attempts (q ∷ []),
              keep-true (for_host host) q [] here,
              after,
            )
            (next (passes q qs before) same)
      | inr other ↦
          let apart : address_eq turn host ≡ false =
            subst (λ b. address_eq b host ≡ false) home other in
          rw
            (
              attempts-turn turn q qs taken now others t,
              calls-turn turn q qs taken now others t,
              keep-append (for_host host) t.attempts (q ∷ []),
              keep-false (for_host host) q [] other,
              append-nil (keep (for_host host) t.attempts),
              line_of-turn_other turn host q qs taken now others t apart,
            )
            same
    ]

Move-Fifo :
    (host : Address) {k : Kind}
    → {t u : Table} → Move k t u
    → IsRpc t
    → FifoRun host (fifo_of host t) (fifo_of host u)
unfolding queue_for keep_turn cancel_all set_max_pending finish_turn
Move-Fifo host (sends {t} taken q now empty room) i = sends-Fifo host taken q now t empty
Move-Fifo host (waits_first {t} q empty) i = enqueue_first-Fifo host q t empty
Move-Fifo host (waits_behind {t} q h found) i = enqueue_behind-Fifo host q h t found
Move-Fifo host (idles {t} turn others front empty) i = same
Move-Fifo host (empties {t} turn others h front found at) i =
    let queue = All-first IsQueue turn t.queues h i.waiting.queues found in
    absurd (ground (arith, queue.holds))
Move-Fifo host (keeps {t} turn others front) i = same
Move-Fifo host (takes {t} taken turn others h q qs now front room found two) i =
    takes-Fifo host turn h q qs taken now others t i found two
Move-Fifo host (completes {t} p reply) i = same
Move-Fifo host (cancels {t}) i =
    rw (keep-append (concerns host) t.calls (cancelled ∷ [])) (next drops same)
Move-Fifo host (resizes {t} n) i = same
Move-Fifo host (notes {t} waits busy silent most) i = same

pub Run-Fifo :
    (host : Address) {allowed : Kind → Bool}
    → {t u : Table} → Run allowed t u
    → IsRpc t
    → FifoRun host (fifo_of host t) (fifo_of host u)
Run-Fifo host rest i = same
Run-Fifo host (step ok m h) i =
    FifoRun-append (Move-Fifo host m i) (Run-Fifo host h (Move-IsRpc m i))
