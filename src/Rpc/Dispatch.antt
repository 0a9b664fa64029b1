-- ===== src/Rpc/Dispatch.antt =====
-- dhtcore/src/RpcManager.cpp: every operation is a sequence of moves of the table.
use dhtinspector.Common.{
  ℕ, zero, suc, ◌≡◌, ◌⊎◌, refl, Bool, true, false, inl, inr, Option, none, some, List, [], ◌∷◌,
  length, first, Bool-cases, Option-cases, arith,
}
use dhtinspector.Endpoint.{Address, Endpoint, endpoint_eq}
use dhtinspector.Krpc.{Message}
use dhtinspector.Rpc.Reply.{RpcReply}
use dhtinspector.Rpc.Table.{Queued, Pending, HostQueue, Table, has_id, can_send_now, queue_for}
use dhtinspector.Rpc.Manager.{
  RpcManager, Request, ask, cancel, mark_read_only, limit_hosts, limit_pending, use_budget, Taken,
  Pass, stopped, going, affordable, host_allows, send_now, then_host, may_send, query_new, query_at,
  query, turn_allowed, turn_affordable, turn_waiting, turn, pop_order, drain_turn, drain_rounds,
  rest_if_idle, finish_pass, drain, request, requests, reactions, complete, reply_for, reply_at,
  handle_reply, expired_ids, timeout_of, expire_at, expire_all, prune_hosts, expire,
}
use dhtinspector.Rpc.Moves.{
  ◌⇝◌, ◌⇉◌, one, sends, waits_first, waits_behind, idles, empties, keeps, takes, completes, cancels,
  resizes, notes, rest, step, chain,
}
use dhtinspector.Storage.Limits.{Double}

rest_if_idle-moves : (hs : List HostQueue) (t u : Table) → t ⇉ u → t ⇉ rest_if_idle hs u
unfolding rest_if_idle
rest_if_idle-moves [] t u h = chain h (one refl (notes false false u.read_only u.max_queued))
rest_if_idle-moves (q ∷ hs) t u h = h

module _ {d : Double} where
  pub may_send-table :
      (to : Endpoint) (now : ℕ) (m : RpcManager d) → (may_send to now m).1.table ≡ m.table
  unfolding may_send then_host host_allows affordable
  may_send-table to now m = ground (arith)

  may_send-room :
      (to : Endpoint) (now : ℕ) (m : RpcManager d)
      → (may_send to now m).0 ≡ true
      → can_send_now m.table ≡ true
  unfolding may_send
  may_send-room to now m h = ground arith

  query_new-moves :
      (taken : Taken) (q : Queued) (now : ℕ) (t : Table) (r : Bool × RpcManager d)
      → r.1.table ≡ t
      → queue_for q.to.address t ≡ none
      → (r.0 ≡ true → can_send_now t ≡ true)
      → t ⇝ (query_new taken q now r).table
  unfolding query_new send_now
  query_new-moves taken q now t (true, m) at empty room =
      rw at (one refl (sends _ q now empty (room refl)))
  query_new-moves taken q now t (false, m) at empty room = rw at (one refl (waits_first q empty))

  query_at-moves :
      (taken : Taken) (q : Queued) (now : ℕ) (o : Option HostQueue) (m : RpcManager d)
      → queue_for q.to.address m.table ≡ o
      → m.table ⇝ (query_at taken q now o m).table
  unfolding query_at
  query_at-moves taken q now none m at =
      query_new-moves taken q now m.table (may_send q.to now m) (may_send-table q.to now m) at
        (may_send-room q.to now m)
  query_at-moves taken q now (some h) m at = one refl (waits_behind q h at)

  pub query-moves :
      (taken : Taken) (q : Queued) (now : ℕ) (m : RpcManager d)
      → m.table ⇝ (query taken q now m).table
  unfolding query
  query-moves taken q now m = query_at-moves taken q now (queue_for q.to.address m.table) m refl

  -- A turn of the host, which `pop_order` took from the order.
  module _ (taken : Taken) (host : Address) (others : List Address) (now : ℕ) (m : RpcManager d)
      (front : m.table.order ≡ host ∷ others) (room : can_send_now m.table ≡ true) where
    turn_allowed-moves :
        (h : HostQueue) (q : Queued) (qs : List Queued) (r : Bool × RpcManager d)
        → queue_for host m.table ≡ some h
        → h.waiting ≡ q ∷ qs
        → r.1.table ≡ record (m.table) { order = others }
        → m.table ⇉ (turn_allowed taken host q qs now r).table
    unfolding turn_allowed
    turn_allowed-moves h q qs (true, n) found two at =
        rw at (one refl (takes _ host others h q qs now front room found two))
    turn_allowed-moves h q qs (false, n) found two at = rw at (one refl (keeps host others front))

    turn_affordable-moves :
        (h : HostQueue) (q : Queued) (qs : List Queued) (r : Bool × RpcManager d)
        → queue_for host m.table ≡ some h
        → h.waiting ≡ q ∷ qs
        → r.1.table ≡ record (m.table) { order = others }
        → m.table ⇉ (turn_affordable taken host q qs now r).1.table
    unfolding turn_affordable host_allows
    turn_affordable-moves h q qs (true, n) found two at =
        turn_allowed-moves h q qs (host_allows host now n) found two at
    turn_affordable-moves h q qs (false, n) found two at =
        rw at (one refl (keeps host others front))

    turn_waiting-moves :
        (h : HostQueue) (w : List Queued)
        → queue_for host m.table ≡ some h
        → h.waiting ≡ w
        → m.table ⇉ (turn_waiting taken host w now (pop_order others m)).1.table
    unfolding turn_waiting pop_order affordable
    turn_waiting-moves h [] found at = one refl (empties host others h front found at)
    turn_waiting-moves h (q ∷ qs) found at =
        turn_affordable-moves h q qs (affordable q.to now (pop_order others m)) found at refl

    turn-moves :
        (o : Option HostQueue)
        → queue_for host m.table ≡ o
        → m.table ⇉ (turn taken host now o (pop_order others m)).1.table
    unfolding turn pop_order
    turn-moves none at = one refl (idles host others front at)
    turn-moves (some h) at = turn_waiting-moves h h.waiting at refl

  -- The rounds of drain's loop.
  abbrev Reaches : Table → Pass d → Type 0
  Reaches t (stopped w n) = t ⇉ n.table
  Reaches t (going w n) = t ⇉ n.table

  Pass-cases :
      (p : Pass d)
      → ((w : Bool) × (n : RpcManager d) × (p ≡ stopped w n))
        ⊎ ((w : Bool) × (n : RpcManager d) × (p ≡ going w n))
  Pass-cases (stopped w n) = inl (w, n, refl)
  Pass-cases (going w n) = inr (w, n, refl)

  drain_turn-moves :
      (taken : Taken) (now : ℕ) (waits : Bool) (order : List Address) (m : RpcManager d)
      → m.table.order ≡ order
      → Reaches m.table (drain_turn taken now waits order m)
  unfolding drain_turn
  drain_turn-moves taken now waits [] m at = rest
  drain_turn-moves taken now waits (host ∷ others) m at = elim (Bool-cases (can_send_now m.table)) [
    | inl room ↦ rw room (turn-moves taken host others now m at room (queue_for host m.table) refl)
    | inr full ↦ rw full rest
  ]

  pub drain_rounds-moves :
      (taken : Taken) (now rounds : ℕ) (waits : Bool) (m : RpcManager d)
      → m.table ⇉ (drain_rounds taken now rounds waits m).1.table
  unfolding drain_rounds
  drain_rounds-moves taken now zero waits m = rest
  drain_rounds-moves taken now (suc rounds) waits m =
      let reaches = drain_turn-moves taken now waits m.table.order m refl in
      elim (Pass-cases (drain_turn taken now waits m.table.order m)) [
        | inl (w, n, e) ↦ rw (e, drain_rounds) (rw (e, Reaches) at reaches)
        | inr (w, n, e) ↦
            rw (e, drain_rounds)
              (chain (rw (e, Reaches) at reaches) (drain_rounds-moves taken now rounds w n))
      ]

  pub finish_pass-moves :
      (t : Table) (r : Bool × RpcManager d) → t ⇉ r.1.table → t ⇉ (finish_pass r).table
  unfolding finish_pass
  finish_pass-moves t (waits, m) h =
      rest_if_idle-moves m.table.queues t (record (m.table) { exhausted = waits })
        (chain h (one refl (notes waits m.table.draining m.table.read_only m.table.max_queued)))

  pub drain-moves :
      (taken : Taken) (now : ℕ) (m : RpcManager d) → m.table ⇉ (drain taken now m).table
  unfolding drain
  drain-moves taken now m =
      finish_pass-moves m.table (drain_rounds taken now (length m.table.order) false m)
        (drain_rounds-moves taken now (length m.table.order) false m)

  pub request-moves :
      (taken : Taken) (r : Request d) (m : RpcManager d) → m.table ⇝ (request taken r m).table
  unfolding request
  request-moves taken (ask q now) m = query-moves taken q now m
  request-moves taken cancel m = one refl cancels
  request-moves taken (mark_read_only flag) m =
      one refl (notes m.table.exhausted m.table.draining flag m.table.max_queued)
  request-moves taken (limit_hosts rate burst most) m =
      one refl (notes m.table.exhausted m.table.draining m.table.read_only most)
  request-moves taken (limit_pending n) m = one refl (resizes n)
  request-moves taken (use_budget b) m = rest

  requests-moves :
      (taken : Taken) (rs : List (Request d)) (m : RpcManager d)
      → m.table ⇝ (requests taken rs m).table
  unfolding requests
  requests-moves taken [] m = rest
  requests-moves taken (r ∷ rs) m =
      chain (request-moves taken r m) (requests-moves taken rs (request taken r m))

  -- Replies and timeouts, with what the callbacks do.
  module _ (taken : Taken) (react : ℕ → RpcReply → List (Request d)) where
    complete-moves :
        (p : Pending) (reply : RpcReply) (m : RpcManager d)
        → m.table ⇝ (complete taken react p reply m).table
    unfolding complete
    complete-moves p reply m =
        step refl (completes p reply) (requests-moves taken (reactions react p.callback reply) _)

    pub handle_reply-moves :
        (message : Message) (datagram : List ℕ) (from : Endpoint) (now : ℕ) (m : RpcManager d)
        → m.table ⇝ (handle_reply taken react message datagram from now m).1.table
    unfolding handle_reply reply_at
    handle_reply-moves message datagram from now m =
        elim (Option-cases (first (has_id message.transaction_id) m.table.pending)) [
          | inl e ↦ rw e rest
          | inr (p, e) ↦ elim (Bool-cases (endpoint_eq p.to from)) [
            | inl same ↦ rw (e, same) (complete-moves p (reply_for message datagram from now p) m)
            | inr other ↦ rw (e, other) rest
          ]
        ]

    expire_at-moves :
        (o : Option Pending) (m : RpcManager d) → m.table ⇝ (expire_at taken react o m).table
    unfolding expire_at
    expire_at-moves none m = rest
    expire_at-moves (some p) m = complete-moves p (timeout_of p) m

    expire_all-moves :
        (tids : List (List ℕ)) (m : RpcManager d) → m.table ⇝ (expire_all taken react tids m).table
    unfolding expire_all
    expire_all-moves [] m = rest
    expire_all-moves (tid ∷ tids) m =
        chain (expire_at-moves (first (has_id tid) m.table.pending) m) (expire_all-moves tids _)

    pub prune_hosts-table : (now : ℕ) (m : RpcManager d) → (prune_hosts now m).table ≡ m.table
    unfolding prune_hosts
    prune_hosts-table now m = ground arith

    pub expire-moves : (now : ℕ) (m : RpcManager d) → m.table ⇝ (expire taken react now m).table
    unfolding expire
    expire-moves now m =
        rw (prune_hosts-table now m) at
          (expire_all-moves (expired_ids now m.table.pending) (prune_hosts now m))
