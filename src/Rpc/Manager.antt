-- ===== src/Rpc/Manager.antt =====
-- dhtcore/src/RpcManager.cpp: the operations. `taken` says of a datagram whether the operating system
-- takes it, `react` what the owner of a callback does when it is called; the clock is an argument.
use dhtinspector.Common.{
  ℕ, zero, suc, ◌-◌, Bool, true, false, not, ◌&&◌, ◌||◌, Option, none, some, List, [], ◌∷◌, leb,
  if◌then◌else◌, length, first, keep, map,
}
use dhtinspector.Endpoint.{Address, Endpoint, endpoint_eq}
use dhtinspector.Krpc.{Message, MessageType}
use dhtinspector.Rpc.Reply.{ReplyStatus, RpcReply, response, error_status, timeout, empty_message}
use dhtinspector.Rpc.Table.{
  Queued, Pending, HostQueue, Table, has_id, queue_for, can_send_now, send, enqueue_first,
  enqueue_behind, keep_turn, take_turn, finish_turn, erase_pending, call_back, datagram_of,
  cancel_all, set_max_pending, note_asked,
}
use dhtinspector.Storage.Limits.{
  Double, RateLimiter, ContactBudget, allow, prune_limiter, allows, record_contact,
}

pub record RpcManager (d : Double) : Type 0 where
  pub table : Table
  pub limiter : RateLimiter d
  pub budget : Option (ContactBudget d)
  pub last_prune : ℕ

-- A call that a callback, or any other client, makes.
pub data Request (d : Double) : Type 0 where
  ask : Queued → ℕ → Request d
  cancel : Request d
  mark_read_only : Bool → Request d
  limit_hosts : d.Num → d.Num → ℕ → Request d
  limit_pending : ℕ → Request d
  use_budget : Option (ContactBudget d) → Request d

abbrev pub Taken : Type 0
Taken = List ℕ → Endpoint → Bool

abbrev pub prune_interval_ms : ℕ
prune_interval_ms = 5000

status_of : MessageType → ReplyStatus
status_of MessageType.error_reply = error_status
status_of _ = response

unfoldable pub is_taken : Taken → Queued → Table → Bool
is_taken taken q t = taken (datagram_of q t) q.to

unfoldable pub rest_if_idle : List HostQueue → Table → Table
rest_if_idle [] t = record t { draining = false; exhausted = false }
rest_if_idle (h ∷ hs) t = t

-- The reply that a message makes of a pending query.
unfoldable pub reply_for : Message → List ℕ → Endpoint → ℕ → Pending → RpcReply
unfolding status_of
reply_for message datagram from now p = record {
  status = status_of message.type;
  message = message;
  datagram = datagram;
  request = p.request;
  from = from;
  rtt_ms = some (now - p.sent_at);
}

unfoldable pub expired_ids : ℕ → List Pending → List (List ℕ)
expired_ids now ps = map (λ (p : Pending). p.tid) (keep (λ p. leb p.deadline now) ps)

unfoldable pub timeout_of : Pending → RpcReply
timeout_of p = record {
  status = timeout;
  message = empty_message;
  datagram = [];
  request = p.request;
  from = p.to;
  rtt_ms = none;
}

-- A round of drain's loop: it leaves the loop, or goes on.
pub data Pass (d : Double) : Type 0 where
  stopped : Bool → RpcManager d → Pass d
  going : Bool → RpcManager d → Pass d

module _ {d : Double} where
  unfoldable pub budget_allows :
      Endpoint → ℕ → Option (ContactBudget d) → Bool × Option (ContactBudget d)
  budget_allows to now none = (true, none)
  budget_allows to now (some b) = ((allows to now b).0, some (allows to now b).1)

  -- affordable: the contact allowance, which the question refills.
  unfoldable pub affordable : Endpoint → ℕ → RpcManager d → Bool × RpcManager d
  unfolding budget_allows
  affordable to now m = let r = budget_allows to now m.budget in (r.0, record m { budget = r.1 })

  unfoldable pub host_allows : Address → ℕ → RpcManager d → Bool × RpcManager d
  host_allows host now m = let r = allow host now m.limiter in (r.0, record m { limiter = r.1 })

  charge_budget : Bool → Endpoint → ℕ → Option (ContactBudget d) → Option (ContactBudget d)
  charge_budget true to now (some b) = some (record_contact to now b)
  charge_budget _ to now budget = budget

  unfoldable pub send_now : Taken → Queued → ℕ → RpcManager d → RpcManager d
  unfolding charge_budget is_taken
  send_now taken q now m =
      let took = is_taken taken q m.table in
      record m { table = send took q now m.table; budget = charge_budget took q.to now m.budget }

  unfoldable pub then_host : Endpoint → ℕ → Bool × RpcManager d → Bool × RpcManager d
  unfolding host_allows
  then_host to now (true, m) = host_allows to.address now m
  then_host to now (false, m) = (false, m)

  -- Whether a query for a host with no queue goes out at once, asked in the order of the code.
  unfoldable pub may_send : Endpoint → ℕ → RpcManager d → Bool × RpcManager d
  unfolding affordable then_host
  may_send to now m =
      if not m.table.exhausted && can_send_now m.table
      then then_host to now (affordable to now m)
      else (false, m)

  unfoldable pub query_new : Taken → Queued → ℕ → Bool × RpcManager d → RpcManager d
  unfolding send_now
  query_new taken q now (true, m) =
      let sent = send_now taken q now m in record sent { table = note_asked q sent.table }
  query_new taken q now (false, m) = record m { table = enqueue_first q m.table }

  unfoldable pub query_at : Taken → Queued → ℕ → Option HostQueue → RpcManager d → RpcManager d
  unfolding may_send query_new
  query_at taken q now none m = query_new taken q now (may_send q.to now m)
  query_at taken q now (some h) m = record m { table = enqueue_behind q h m.table }

  unfoldable pub query : Taken → Queued → ℕ → RpcManager d → RpcManager d
  unfolding query_at
  query taken q now m = query_at taken q now (queue_for q.to.address m.table) m

  -- A host's turn in drain: whether the pass waits on the contact allowance, and the new state.
  unfoldable pub turn_allowed :
      Taken → Address → Queued → List Queued → ℕ → Bool × RpcManager d → RpcManager d
  unfolding is_taken charge_budget
  turn_allowed taken host q rest now (false, m) = record m { table = keep_turn host m.table }
  turn_allowed taken host q rest now (true, m) =
      let took = is_taken taken q (record (m.table) { queued_total = m.table.queued_total - 1 }) in
      record m {
        table = take_turn took host q rest now m.table;
        budget = charge_budget took q.to now m.budget;
      }

  unfoldable pub turn_affordable :
      Taken → Address → Queued → List Queued → ℕ → Bool × RpcManager d → Bool × RpcManager d
  unfolding turn_allowed host_allows
  turn_affordable taken host q rest now (false, m) =
      (true, record m { table = keep_turn host m.table })
  turn_affordable taken host q rest now (true, m) =
      (false, turn_allowed taken host q rest now (host_allows host now m))

  unfoldable pub turn_waiting :
      Taken → Address → List Queued → ℕ → RpcManager d → Bool × RpcManager d
  unfolding turn_affordable affordable
  turn_waiting taken host [] now m = (false, record m { table = finish_turn host [] m.table })
  turn_waiting taken host (q ∷ qs) now m =
      turn_affordable taken host q qs now (affordable q.to now m)

  unfoldable pub turn : Taken → Address → ℕ → Option HostQueue → RpcManager d → Bool × RpcManager d
  unfolding turn_waiting
  turn taken host now none m = (false, m)
  turn taken host now (some h) m = turn_waiting taken host h.waiting now m

  unfoldable pub pop_order : List Address → RpcManager d → RpcManager d
  pop_order rest m = record m { table = record (m.table) { order = rest } }

  -- `waits` says whether a turn found the contact allowance used up.
  unfoldable pub drain_turn : Taken → ℕ → Bool → List Address → RpcManager d → Pass d
  unfolding turn pop_order
  drain_turn taken now waits [] m = stopped waits m
  drain_turn taken now waits (host ∷ rest) m =
      let r = turn taken host now (queue_for host m.table) (pop_order rest m) in
      if can_send_now m.table then going (waits || r.0) r.1 else stopped true m

  -- drain's loop, with the rounds that are left.
  unfoldable pub drain_rounds : Taken → ℕ → ℕ → Bool → RpcManager d → Bool × RpcManager d
  unfolding drain_turn
  drain_rounds taken now zero waits m = (waits, m)
  drain_rounds taken now (suc rounds) waits m = elim (drain_turn taken now waits m.table.order m) [
    | stopped waits' m' ↦ (waits', m')
    | going waits' m' ↦ drain_rounds taken now rounds waits' m'
  ]

  unfoldable pub finish_pass : Bool × RpcManager d → RpcManager d
  unfolding rest_if_idle
  finish_pass (waits, m) = record m {
    table = rest_if_idle m.table.queues (record (m.table) { exhausted = waits });
  }

  unfoldable pub drain : Taken → ℕ → RpcManager d → RpcManager d
  unfolding drain_rounds finish_pass
  drain taken now m = finish_pass (drain_rounds taken now (length m.table.order) false m)

  unfoldable pub request : Taken → Request d → RpcManager d → RpcManager d
  unfolding query
  request taken (ask q now) m = query taken q now m
  request taken cancel m = record m { table = cancel_all m.table }
  request taken (mark_read_only flag) m = record m { table = record (m.table) { read_only = flag } }
  request taken (limit_hosts rate burst most) m = record m {
    table = record (m.table) { max_queued = most };
    limiter = record { buckets = []; rate = rate; burst = burst };
  }
  request taken (limit_pending n) m = record m { table = set_max_pending n m.table }
  request taken (use_budget b) m = record m { budget = b }

  unfoldable pub requests : Taken → List (Request d) → RpcManager d → RpcManager d
  unfolding request
  requests taken [] m = m
  requests taken (r ∷ rs) m = requests taken rs (request taken r m)

  unfoldable pub reactions :
      (ℕ → RpcReply → List (Request d)) → Option ℕ → RpcReply → List (Request d)
  reactions react none reply = []
  reactions react (some callback) reply = react callback reply

  -- The pending query `p` goes, and its callback is called with the reply.
  unfoldable pub complete :
      Taken → (ℕ → RpcReply → List (Request d)) → Pending → RpcReply → RpcManager d → RpcManager d
  unfolding reactions requests
  complete taken react p reply m = requests taken (reactions react p.callback reply) (record m {
    table = record (m.table) {
      pending = erase_pending p.tid m.table.pending;
      outputs = call_back p.callback reply m.table.outputs;
    };
  })

  unfoldable pub reply_at :
      Taken
      → (ℕ → RpcReply → List (Request d))
      → Message
      → List ℕ
      → Endpoint
      → ℕ
      → Option Pending
      → RpcManager d
      → Bool × RpcManager d
  unfolding complete reply_for
  reply_at taken react message datagram from now none m = (false, m)
  reply_at taken react message datagram from now (some p) m =
      if endpoint_eq p.to from
      then (true, complete taken react p (reply_for message datagram from now p) m)
      else (false, m)

  unfoldable pub handle_reply :
      Taken
      → (ℕ → RpcReply → List (Request d))
      → Message
      → List ℕ
      → Endpoint
      → ℕ
      → RpcManager d
      → Bool × RpcManager d
  unfolding reply_at
  handle_reply taken react message datagram from now m =
      reply_at taken react message datagram from now
        (first (has_id message.transaction_id) m.table.pending) m

  unfoldable pub expire_at :
      Taken → (ℕ → RpcReply → List (Request d)) → Option Pending → RpcManager d → RpcManager d
  unfolding complete timeout_of
  expire_at taken react none m = m
  expire_at taken react (some p) m = complete taken react p (timeout_of p) m

  unfoldable pub expire_all :
      Taken → (ℕ → RpcReply → List (Request d)) → List (List ℕ) → RpcManager d → RpcManager d
  unfolding expire_at
  expire_all taken react [] m = m
  expire_all taken react (tid ∷ tids) m =
      expire_all taken react tids (expire_at taken react (first (has_id tid) m.table.pending) m)

  unfoldable pub prune_hosts : ℕ → RpcManager d → RpcManager d
  prune_hosts now m =
      if leb prune_interval_ms (now - m.last_prune)
      then record m { limiter = prune_limiter now m.limiter; last_prune = now }
      else m

  unfoldable pub expire :
      Taken → (ℕ → RpcReply → List (Request d)) → ℕ → RpcManager d → RpcManager d
  unfolding expired_ids expire_all prune_hosts
  expire taken react now m =
      expire_all taken react (expired_ids now m.table.pending) (prune_hosts now m)
