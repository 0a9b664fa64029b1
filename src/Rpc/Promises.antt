-- ===== src/Rpc/Promises.antt =====
-- dhtcore/src/RpcManager.cpp: what a client can rely on in every run.
use dhtinspector.Common.{ℕ, ◌<◌, refl, List, [], arith}
use dhtinspector.Endpoint.{Address}
use dhtinspector.Rpc.Reply.{RpcReply}
use dhtinspector.Rpc.Manager.{Request, Taken}
use dhtinspector.Rpc.Invariant.{IsRpc}
use dhtinspector.Rpc.Runs.{Run-IsRpc}
use dhtinspector.Rpc.Fifo.{FifoRun, fifo_of}
use dhtinspector.Rpc.FifoMoves.{Run-Fifo}
use dhtinspector.Rpc.Events.{Event, new_manager, new_table, run, run-moves}
use dhtinspector.Storage.Limits.{Double}

new_table-IsRpc : (next : ℕ) → next < 65536 → IsRpc (new_table next)
unfolding new_table
new_table-IsRpc next small = record {
  transactions = record {
    few = omega arith;
    most_small = omega arith;
    next_small = small;
    distinct = tt;
  };
  waiting = record {
    counted = refl;
    few = omega arith;
    queues = tt;
    once = λ a. omega arith;
    served = λ a. refl;
  };
}

module _ {d : Double} (taken : Taken) (react : ℕ → RpcReply → List (Request d)) where
  -- In every run of a new manager, whatever its clients ask, the network brings, the operating system
  -- takes and the callbacks do: no transaction id is outstanding twice, the queries that wait are
  -- counted and at most 20000, each waits in its host's queue, and each host with a queue has exactly
  -- one turn to come in drain's order.
  pub run-IsRpc :
      (rate burst : d.Num) (next : ℕ) (es : List (Event d))
      → next < 65536
      → IsRpc (run taken react es (new_manager rate burst next)).table
  unfolding new_manager
  run-IsRpc rate burst next es small =
      Run-IsRpc (run-moves taken react es (new_manager rate burst next))
        (new_table-IsRpc next small)

  -- In every run of a new manager, each host is served as by a queue that is first in first out: what
  -- clients asked for it, in the order of the calls of query() that were not refused and of cancelAll,
  -- what went to send() and what waits come from an empty queue by moves that put the query of such a
  -- call at the back, send the one at the front, and drop all that wait at a cancelAll.
  pub run-Fifo :
      (rate burst : d.Num) (next : ℕ) (es : List (Event d)) (host : Address)
      → next < 65536
      → FifoRun host
          (record { calls = []; sent = []; waiting = [] })
          (fifo_of host (run taken react es (new_manager rate burst next)).table)
  unfolding new_manager new_table
  run-Fifo rate burst next es host small =
      Run-Fifo host (run-moves taken react es (new_manager rate burst next))
        (new_table-IsRpc next small)
