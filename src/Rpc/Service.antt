-- ===== src/Rpc/Service.antt =====
-- dhtcore/src/RpcManager.cpp: the host whose turn is the next is served by the next pass of drain().
use dhtinspector.Common.{
  ℕ, suc, ◌≡◌, refl, sym, subst, ◌∙◌, ap, Bool, true, false, inl, inr, some, List, [], ◌∷◌, ◌++◌,
  append_assoc, append-nil, length, leb, ◌||◌, Bool-cases,
}
use dhtinspector.Endpoint.{Address}
use dhtinspector.Rpc.Table.{
  Queued, HostQueue, Table, queue_for, can_send_now, enqueue_first, enqueue_behind, refuse,
  keep_turn, finish_turn, cancel_all, set_max_pending,
}
use dhtinspector.Rpc.Manager.{
  RpcManager, Taken, going, affordable, host_allows, turn_allowed, turn_affordable, turn_waiting,
  turn, pop_order, drain_turn, drain_rounds, drain,
}
use dhtinspector.Rpc.Moves.{
  Kind, Move, Run, ◌⇉◌, sends, waits_first, waits_behind, idles, empties, keeps, takes, completes,
  cancels, resizes, notes, rest, step,
}
use dhtinspector.Rpc.Dispatch.{drain_rounds-moves, finish_pass-moves}
use dhtinspector.Rpc.Fifo.{send-attempts, attempts-turn}
use dhtinspector.Storage.Limits.{Double}

-- Nothing that went to send() is taken back.
abbrev Extends : List Queued → List Queued → Type 0
Extends before after = (more : List Queued) × (after ≡ before ++ more)

Move-Extends : {k : Kind} → {t u : Table} → Move k t u → Extends t.attempts u.attempts
unfolding enqueue_first enqueue_behind refuse keep_turn finish_turn cancel_all set_max_pending
Move-Extends (sends {t} taken q now empty room) = (q ∷ [], send-attempts taken q now t)
Move-Extends (waits_first {t} q empty) = elim (Bool-cases (leb 20000 t.queued_total)) [
  | inl full ↦ ([], rw full (sym (append-nil t.attempts)))
  | inr room ↦ ([], rw room (sym (append-nil t.attempts)))
]
Move-Extends (waits_behind {t} q h found) =
    elim (Bool-cases (leb t.max_queued (length h.waiting) || leb 20000 t.queued_total)) [
      | inl full ↦ ([], rw full (sym (append-nil t.attempts)))
      | inr room ↦ ([], rw room (sym (append-nil t.attempts)))
    ]
Move-Extends (idles {t} host others front empty) = ([], sym (append-nil t.attempts))
Move-Extends (empties {t} host others h front found at) = ([], sym (append-nil t.attempts))
Move-Extends (keeps {t} host others front) = ([], sym (append-nil t.attempts))
Move-Extends (takes {t} taken host others h q qs now front room found two) =
    (q ∷ [], attempts-turn host q qs taken now others t)
Move-Extends (completes {t} p reply) = ([], sym (append-nil t.attempts))
Move-Extends (cancels {t}) = ([], sym (append-nil t.attempts))
Move-Extends (resizes {t} n) = ([], sym (append-nil t.attempts))
Move-Extends (notes {t} waits busy silent most) = ([], sym (append-nil t.attempts))

Run-Extends :
    {allowed : Kind → Bool} → {t u : Table} → Run allowed t u → Extends t.attempts u.attempts
Run-Extends (rest {t}) = ([], sym (append-nil t.attempts))
Run-Extends (step {t} ok m h) =
    let head = Move-Extends m in
    let tail = Run-Extends h in
    (
      head.0 ++ tail.0,
      tail.1 ∙ ap (λ xs. xs ++ tail.0) head.1 ∙ append_assoc t.attempts head.0 tail.0,
    )

module _ {d : Double} (taken : Taken) (host : Address) (others : List Address) (h : HostQueue)
    (q : Queued) (qs : List Queued) (now : ℕ) (m : RpcManager d) where
  turn_allowed-serves :
      (r : Bool × RpcManager d)
      → r.0 ≡ true
      → r.1.table ≡ record (m.table) { order = others }
      → (turn_allowed taken host q qs now r).table.attempts ≡ m.table.attempts ++ q ∷ []
  unfolding turn_allowed
  turn_allowed-serves (true, n) allowed at = rw at (attempts-turn host q qs _ now others m.table)
  turn_allowed-serves (false, n) allowed at = cc

  turn_affordable-serves :
      (r : Bool × RpcManager d)
      → r.0 ≡ true
      → (host_allows host now r.1).0 ≡ true
      → r.1.table ≡ record (m.table) { order = others }
      → (turn_affordable taken host q qs now r).1.table.attempts ≡ m.table.attempts ++ q ∷ []
  unfolding turn_affordable host_allows
  turn_affordable-serves (true, n) paid allowed at =
      turn_allowed-serves (host_allows host now n) allowed at
  turn_affordable-serves (false, n) paid allowed at = cc

  turn-serves :
      h.waiting ≡ q ∷ qs
      → (affordable q.to now m).0 ≡ true
      → (host_allows host now (affordable q.to now m).1).0 ≡ true
      → (turn taken host now (some h) (pop_order others m)).1.table.attempts
        ≡ m.table.attempts ++ q ∷ []
  unfolding turn turn_waiting affordable host_allows pop_order
  turn-serves two paid allowed =
      rw (two, turn_waiting)
        (turn_affordable-serves (affordable q.to now (pop_order others m)) paid allowed refl)

  served : Bool × RpcManager d
  served = turn taken host now (some h) (pop_order others m)

  drain_rounds-first :
      (rounds : ℕ)
      → m.table.order ≡ host ∷ others
      → can_send_now m.table ≡ true
      → queue_for host m.table ≡ some h
      → drain_rounds taken now (suc rounds) false m
        ≡ drain_rounds taken now rounds served.0 served.1
  unfolding drain_rounds drain_turn served
  drain_rounds-first rounds front room found =
      let round : drain_turn taken now false m.table.order m ≡ going served.0 served.1 =
        subst (λ o. drain_turn taken now false o m ≡ going served.0 served.1) (sym front)
          (rw (room, found) refl) in
      rw (round, drain_rounds) refl

  drain-first :
      m.table.order ≡ host ∷ others
      → can_send_now m.table ≡ true
      → queue_for host m.table ≡ some h
      → served.1.table ⇉ (drain taken now m).table
  unfolding drain
  drain-first front room found =
      rw (ap length front, drain_rounds-first (length others) front room found)
        (finish_pass-moves served.1.table (drain_rounds taken now (length others) served.0 served.1)
          (drain_rounds-moves taken now (length others) served.0 served.1))

  -- Where a transaction is free, and neither the contact allowance nor the limit of the host holds it
  -- back, a pass of drain() gives send() the front query of the host whose turn is the next, as the
  -- first query of the pass.
  pub drain-serves :
      m.table.order ≡ host ∷ others
      → can_send_now m.table ≡ true
      → queue_for host m.table ≡ some h
      → h.waiting ≡ q ∷ qs
      → (affordable q.to now m).0 ≡ true
      → (host_allows host now (affordable q.to now m).1).0 ≡ true
      → (more : List Queued) × ((drain taken now m).table.attempts ≡ m.table.attempts ++ q ∷ more)
  unfolding served
  drain-serves front room found two paid allowed =
      let head = turn-serves two paid allowed in
      let tail = Run-Extends (drain-first front room found) in
      (
        tail.0,
        tail.1 ∙ ap (λ xs. xs ++ tail.0) head ∙ append_assoc m.table.attempts (q ∷ []) tail.0,
      )
