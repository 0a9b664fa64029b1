-- ===== src/Tests/Queries.antt =====
-- The properties of the RPC manager at concrete inputs, and the inputs.
use dhtinspector.Common.{
  ℕ, ◌+◌, ◌-◌, ◌*◌, ◌/◌, ◌≤◌, ◌<◌, ◌≡◌, ◌⊎◌, refl, true, false, none, some, List, [], ◌∷◌, ◌++◌,
  keep, any, ltb, leb, arith,
}
use dhtinspector.Bencode.{end}
use dhtinspector.Endpoint.{Address, ipv4, Endpoint}
use dhtinspector.Krpc.{Message, MessageType}
use dhtinspector.Rpc.Reply.{RpcReply, empty_message}
use dhtinspector.Rpc.Table.{
  Queued, Pending, HostQueue, Table, queue_for, queued_for, refuse, can_send_now, has_id,
  next_transaction_id, asked,
}
use dhtinspector.Rpc.Fresh.{next_transaction_id_fresh}
use dhtinspector.Rpc.Manager.{
  RpcManager, Request, ask, cancel, Taken, affordable, budget_allows, host_allows, query, drain,
  handle_reply, expire, reply_at,
}
use dhtinspector.Rpc.Invariant.{IsRpc}
use dhtinspector.Rpc.Fifo.{FifoRun, fifo_of, for_host}
use dhtinspector.Rpc.Lines.{line, drain-line}
use dhtinspector.Rpc.Asking.{query-line}
use dhtinspector.Rpc.Answers.{answers, handle_reply-answers, handle_reply-once}
use dhtinspector.Rpc.Timeouts.{tell_timeouts, expire-quiet}
use dhtinspector.Rpc.Service.{drain-serves}
use dhtinspector.Rpc.Events.{Event, asked_for, arrived, drain_tick, expire_tick, new_manager, run}
use dhtinspector.Rpc.Promises.{run-IsRpc, run-Fifo}
use dhtinspector.Storage.Limits.{Double, allow, allow_at, refill_bucket, spend}

-- Whole numbers in place of floating point ones.
abbrev pub whole : Double
whole = record {
  Num = ℕ;
  of_int = λ n. n;
  plus = λ a b. a + b;
  minus = λ a b. a - b;
  times = λ a b. a * b;
  over = λ a b. a / b;
  less = ltb;
  at_least = λ a b. leb b a;
  floor = λ n. n;
}

abbrev pub router : Endpoint
router = record { address = ipv4 16909060; port = 6881 }

abbrev ping : ℕ → Queued
ping callback = record {
  to = router;
  method = 112 ∷ 105 ∷ 110 ∷ 103 ∷ [];
  arguments = end;
  version = [];
  callback = some callback;
  timeout = 3000;
  on_sent = none;
}

-- Every datagram is taken; the callbacks ask once more.
abbrev pub every : Taken
every bytes to = true

abbrev again : ℕ → RpcReply → List (Request whole)
again callback reply = ask (ping (callback + 10)) 5000 ∷ []

abbrev pong : Message
pong = record empty_message { type = MessageType.response; transaction_id = 0 ∷ 7 ∷ [] }

abbrev busy_day : List (Event whole)
busy_day =
    asked_for (ask (ping 1) 1000)
    ∷ asked_for (ask (ping 2) 1001)
    ∷ asked_for (ask (ping 3) 1002)
    ∷ drain_tick 1500
    ∷ arrived pong [] router 1600
    ∷ expire_tick 6000
    ∷ asked_for cancel
    ∷ []

run-IsRpc_example : IsRpc (run every again busy_day (new_manager 2 2 7)).table
run-IsRpc_example = run-IsRpc every again 2 2 7 busy_day (omega arith)

run-Fifo_example :
    FifoRun
      (ipv4 16909060)
      (record { calls = []; sent = []; waiting = [] })
      (fifo_of (ipv4 16909060) (run every again busy_day (new_manager 2 2 7)).table)
run-Fifo_example = run-Fifo every again 2 2 7 busy_day (ipv4 16909060) (omega arith)

-- A query is out, and two wait.
abbrev out : Pending
out = record {
  tid = 0 ∷ 7 ∷ [];
  to = router;
  request = [];
  sent_at = 1000;
  deadline = 4000;
  callback = some 1;
}

abbrev line_up : HostQueue
line_up = record { host = ipv4 16909060; waiting = ping 2 ∷ ping 3 ∷ [] }

abbrev waiting_table : Table
waiting_table = record {
  pending = out ∷ [];
  queues = line_up ∷ [];
  order = ipv4 16909060 ∷ [];
  exhausted = false;
  draining = true;
  queued_total = 2;
  delayed = 2;
  refused = 0;
  send_failures = 0;
  max_pending = 60000;
  max_queued = 64;
  next_id = 8;
  read_only = false;
  outputs = [];
  attempts = ping 1 ∷ [];
  calls = asked (ping 1) ∷ asked (ping 2) ∷ asked (ping 3) ∷ [];
}

abbrev waiting_manager : RpcManager whole
waiting_manager = record {
  table = waiting_table;
  limiter = record { buckets = []; rate = 2; burst = 2 };
  budget = none;
  last_prune = 0;
}

waiting_table-IsRpc : IsRpc waiting_table
waiting_table-IsRpc = record {
  transactions = record {
    few = omega arith;
    most_small = omega arith;
    next_small = omega arith;
    distinct = (refl, tt);
  };
  waiting = record {
    counted = refl;
    few = omega arith;
    queues = (record { holds = omega arith; homed = (refl, (refl, tt)) }, tt);
    once = λ a. ground arith;
    served = λ a. ground arith;
  };
}

query-line_example :
    ((host : Address)
      → line host (query every (ping 4) 1200 waiting_manager).table
        ≡ line host waiting_manager.table ++ keep (for_host host) (ping 4 ∷ []))
    ⊎ (((query every (ping 4) 1200 waiting_manager).table ≡ refuse (ping 4) waiting_manager.table)
        × ((waiting_manager.table.max_queued ≤ queued_for (ipv4 16909060) waiting_manager.table)
            ⊎ (20000 ≤ waiting_manager.table.queued_total)))
query-line_example = query-line every (ping 4) 1200 waiting_manager

drain-line_example :
    line (ipv4 16909060) (drain every 1500 waiting_manager).table
    ≡ line (ipv4 16909060) waiting_manager.table
drain-line_example = drain-line every 1500 waiting_manager (ipv4 16909060) waiting_table-IsRpc

handle_reply-answers_example :
    ((handle_reply every again pong [] router 1600 waiting_manager).0
      ≡ any (answers (0 ∷ 7 ∷ []) router) waiting_manager.table.pending)
    × (any (answers (0 ∷ 7 ∷ []) router) waiting_manager.table.pending ≡ false
        → (handle_reply every again pong [] router 1600 waiting_manager).1 ≡ waiting_manager)
handle_reply-answers_example =
    handle_reply-answers every again pong [] router 1600 waiting_manager waiting_table-IsRpc

pong-taken :
    (handle_reply every (λ callback reply. []) pong [] router 1600 waiting_manager).0 ≡ true
unfolding handle_reply reply_at
pong-taken = refl

handle_reply-once_example :
    handle_reply every
      (λ callback reply. [])
      pong
      []
      router
      1700
      (handle_reply every (λ callback reply. []) pong [] router 1600 waiting_manager).1
    ≡ (false, (handle_reply every (λ callback reply. []) pong [] router 1600 waiting_manager).1)
handle_reply-once_example =
    handle_reply-once every pong pong [] [] router router 1600 1700 waiting_manager
      waiting_table-IsRpc refl pong-taken

expire-quiet_example :
    (expire every (λ callback reply. []) 4000 waiting_manager).table ≡ record waiting_table {
      pending = keep (λ (p : Pending). ltb 4000 p.deadline) waiting_table.pending;
      outputs =
          tell_timeouts
            (keep (λ (p : Pending). leb p.deadline 4000) waiting_table.pending)
            waiting_table.outputs;
    }
expire-quiet_example = expire-quiet every 4000 waiting_manager waiting_table-IsRpc

room : can_send_now waiting_table ≡ true
unfolding can_send_now
room = refl

in_line : queue_for (ipv4 16909060) waiting_table ≡ some line_up
unfolding queue_for
in_line = refl

paid : (affordable router 1500 waiting_manager).0 ≡ true
unfolding affordable budget_allows
paid = refl

host_allowed :
    (host_allows (ipv4 16909060) 1500 (affordable router 1500 waiting_manager).1).0 ≡ true
unfolding host_allows affordable budget_allows allow allow_at refill_bucket spend
host_allowed = refl

drain-serves_example :
    (more : List Queued) × ((drain every 1500 waiting_manager).table.attempts
      ≡ waiting_table.attempts ++ ping 2 ∷ more)
drain-serves_example =
    drain-serves every (ipv4 16909060) [] line_up (ping 2) (ping 3 ∷ []) 1500 waiting_manager refl
      room in_line refl paid host_allowed

next_transaction_id_fresh_example :
    (any (has_id (next_transaction_id waiting_table).0) waiting_table.pending ≡ false)
    × ((next_transaction_id waiting_table).1 < 65536)
next_transaction_id_fresh_example =
    next_transaction_id_fresh waiting_table (omega arith) (omega arith)
