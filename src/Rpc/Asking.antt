-- ===== src/Rpc/Asking.antt =====
-- dhtcore/src/RpcManager.cpp: query() puts a query in its host's line, or refuses it.
use dhtinspector.Common.{
  ℕ, ◌≤◌, ◌≡◌, ◌⊎◌, refl, sym, subst, Bool, true, false, ◌||◌, inl, inr, Option, none, some, [],
  ◌∷◌, ◌++◌, append_assoc, append-nil, length, update_first, keep, keep-true, keep-false,
  first_cons_true, first_cons_false, leb, Bool-cases, arith,
}
use dhtinspector.Endpoint.{Address}
use dhtinspector.Endpoint.Compact.{address_eq_iff}
use dhtinspector.Rpc.Table.{
  Queued, HostQueue, Table, push_waiting, of_host, queue_for, queued_for, send, enqueue_first,
  enqueue_behind, refuse, note_asked,
}
use dhtinspector.Rpc.Manager.{
  RpcManager, Taken, query, query_at, query_new, may_send, send_now, is_taken,
}
use dhtinspector.Rpc.Queues.{line_of, line_of-update_self, line_of-update_other}
use dhtinspector.Rpc.Dispatch.{may_send-table}
use dhtinspector.Rpc.Fifo.{for_host, keep-append, send-attempts, send-queues}
use dhtinspector.Storage.Limits.{Double}
use dhtinspector.Rpc.Lines.{line}

-- A query that is put behind, or at the front of, a queue.
module _ (host : Address) (q : Queued) (t : Table) where
  abbrev Joins : Table → Type 0
  Joins u = line host u ≡ line host t ++ keep (for_host host) (q ∷ [])

  sends-line :
      (taken : Bool) (now : ℕ)
      → queue_for q.to.address t ≡ none
      → Joins (note_asked q (send taken q now t))
  unfolding queue_for
  sends-line taken now empty =
      let sent = send-attempts taken q now t in
      let split = keep-append (for_host host) t.attempts (q ∷ []) in
      elim (Bool-cases (for_host host q)) [
        | inl here ↦
            let at = (address_eq_iff q.to.address host).0 here in
            let idle : line_of host t.queues ≡ [] = rw (sym at, empty) refl in
            rw
              (
                sent,
                send-queues taken q now t,
                split,
                keep-true (for_host host) q [] here,
                idle,
                append-nil (keep (for_host host) t.attempts),
                append-nil (keep (for_host host) t.attempts ++ q ∷ []),
              )
              refl
        | inr other ↦
            rw
              (
                sent,
                send-queues taken q now t,
                split,
                keep-false (for_host host) q [] other,
                append-nil (keep (for_host host) t.attempts),
                append-nil (keep (for_host host) t.attempts ++ line_of host t.queues),
              )
              refl
      ]

  waits_first-line :
      queue_for q.to.address t ≡ none → leb 20000 t.queued_total ≡ false → Joins (enqueue_first q t)
  unfolding queue_for enqueue_first
  waits_first-line empty room =
      let before = keep (for_host host) t.attempts in
      let fresh : HostQueue = record { host = q.to.address; waiting = q ∷ [] } in
      elim (Bool-cases (for_host host q)) [
        | inl here ↦
            let at = (address_eq_iff q.to.address host).0 here in
            let idle : line_of host t.queues ≡ [] = rw (sym at, empty) refl in
            rw
              (
                room,
                first_cons_true (of_host host) fresh t.queues here,
                keep-true (for_host host) q [] here,
                idle,
                append-nil before,
              )
              refl
        | inr other ↦
            rw
              (
                room,
                first_cons_false (of_host host) fresh t.queues other,
                keep-false (for_host host) q [] other,
                append-nil (before ++ line_of host t.queues),
              )
              refl
      ]

  waits_behind-line :
      (h : HostQueue)
      → queue_for q.to.address t ≡ some h
      → (leb t.max_queued (length h.waiting) || leb 20000 t.queued_total) ≡ false
      → Joins (enqueue_behind q h t)
  unfolding queue_for enqueue_behind
  waits_behind-line h found room =
      let before = keep (for_host host) t.attempts in
      elim (Bool-cases (for_host host q)) [
        | inl here ↦
            let at = (address_eq_iff q.to.address host).0 here in
            let now : line_of host t.queues ≡ h.waiting = rw (sym at, found) refl in
            let after =
              subst
                (λ b.
                  line_of b (update_first (of_host q.to.address) (push_waiting q) t.queues)
                  ≡ h.waiting ++ q ∷ [])
                at
                (line_of-update_self q.to.address (push_waiting q) (λ g. refl) t.queues h found) in
            rw (room, after, now, keep-true (for_host host) q [] here)
              (sym (append_assoc before h.waiting (q ∷ [])))
        | inr other ↦
            rw
              (
                room,
                line_of-update_other q.to.address (push_waiting q) (λ g. refl) host t.queues other,
                keep-false (for_host host) q [] other,
                append-nil (before ++ line_of host t.queues),
              )
              refl
      ]

-- What query() does with the query: it joins the line of its host and no other, or is refused.
abbrev IsQueried : Queued → Table → Table → Type 0
IsQueried q t u =
    ((host : Address) → line host u ≡ line host t ++ keep (for_host host) (q ∷ []))
    ⊎ ((u ≡ refuse q t) × ((t.max_queued ≤ queued_for q.to.address t) ⊎ (20000 ≤ t.queued_total)))

enqueue_first-IsQueried :
    (q : Queued) (t : Table) → queue_for q.to.address t ≡ none → IsQueried q t (enqueue_first q t)
unfolding enqueue_first refuse
enqueue_first-IsQueried q t empty = elim (Bool-cases (leb 20000 t.queued_total)) [
  | inl full ↦ inr (rw full refl, inr (ground arith))
  | inr room ↦ inl (λ host. waits_first-line host q t empty room)
]

enqueue_behind-IsQueried :
    (q : Queued) (h : HostQueue) (t : Table)
    → queue_for q.to.address t ≡ some h
    → IsQueried q t (enqueue_behind q h t)
unfolding queued_for enqueue_behind refuse
enqueue_behind-IsQueried q h t found =
    elim (Bool-cases (leb t.max_queued (length h.waiting) || leb 20000 t.queued_total)) [
      | inl full ↦ inr (rw full refl, rw found (ground arith))
      | inr room ↦ inl (λ host. waits_behind-line host q t h found room)
    ]

module _ {d : Double} where
  query_new-IsQueried :
      (taken : Taken) (q : Queued) (now : ℕ) (t : Table) (r : Bool × RpcManager d)
      → r.1.table ≡ t
      → queue_for q.to.address t ≡ none
      → IsQueried q t (query_new taken q now r).table
  unfolding query_new send_now
  query_new-IsQueried taken q now t (true, m) at empty =
      rw at (inl (λ host. sends-line host q t (is_taken taken q t) now empty))
  query_new-IsQueried taken q now t (false, m) at empty = rw at (enqueue_first-IsQueried q t empty)

  query_at-IsQueried :
      (taken : Taken) (q : Queued) (now : ℕ) (o : Option HostQueue) (m : RpcManager d)
      → queue_for q.to.address m.table ≡ o
      → IsQueried q m.table (query_at taken q now o m).table
  unfolding query_at
  query_at-IsQueried taken q now none m at =
      query_new-IsQueried taken q now m.table (may_send q.to now m) (may_send-table q.to now m) at
  query_at-IsQueried taken q now (some h) m at = enqueue_behind-IsQueried q h m.table at

  -- query() either puts the query at the end of what its host was asked, be it sent at once or left
  -- to wait, and changes no other host's line; or it refuses the query, which changes nothing but the
  -- count of refusals and the callback that is posted, and then the host has as many queries waiting
  -- as it may or 20000 wait in all.
  pub query-line :
      (taken : Taken) (q : Queued) (now : ℕ) (m : RpcManager d)
      → ((host : Address)
          → line host (query taken q now m).table
            ≡ line host m.table ++ keep (for_host host) (q ∷ []))
        ⊎ (((query taken q now m).table ≡ refuse q m.table)
            × ((m.table.max_queued ≤ queued_for q.to.address m.table)
                ⊎ (20000 ≤ m.table.queued_total)))
  unfolding query
  query-line taken q now m = query_at-IsQueried taken q now (queue_for q.to.address m.table) m refl
