-- ===== src/Rpc/Events.antt =====
-- dhtcore/src/RpcManager.cpp: a manager as it is made, and the calls it gets: those of its clients, the
-- replies that arrive and the ticks of its two timers.
use dhtinspector.Common.{ℕ, false, none, List, [], ◌∷◌}
use dhtinspector.Endpoint.{Endpoint}
use dhtinspector.Krpc.{Message}
use dhtinspector.Rpc.Reply.{RpcReply}
use dhtinspector.Rpc.Table.{Table}
use dhtinspector.Rpc.Manager.{RpcManager, Request, Taken, request, handle_reply, drain, expire}
use dhtinspector.Rpc.Moves.{◌⇝◌, rest, chain, allow_any}
use dhtinspector.Rpc.Dispatch.{request-moves, handle_reply-moves, drain-moves, expire-moves}
use dhtinspector.Storage.Limits.{Double}

-- DefaultMaxPending.
abbrev pub default_max_pending : ℕ
default_max_pending = 60000

-- HostLimit::maxQueued.
abbrev pub default_max_queued : ℕ
default_max_queued = 64

unfoldable pub new_table : ℕ → Table
new_table next = record {
  pending = [];
  queues = [];
  order = [];
  exhausted = false;
  draining = false;
  queued_total = 0;
  delayed = 0;
  refused = 0;
  send_failures = 0;
  max_pending = default_max_pending;
  max_queued = default_max_queued;
  next_id = next;
  read_only = false;
  outputs = [];
  attempts = [];
  calls = [];
}

pub data Event (d : Double) : Type 0 where
  asked_for : Request d → Event d
  arrived : Message → List ℕ → Endpoint → ℕ → Event d
  drain_tick : ℕ → Event d
  expire_tick : ℕ → Event d

module _ {d : Double} where
  -- `rate` and `burst` are the two numbers of a fresh HostLimit; the first id is drawn at random.
  unfoldable pub new_manager : d.Num → d.Num → ℕ → RpcManager d
  unfolding new_table
  new_manager rate burst next = record {
    table = new_table next;
    limiter = record { buckets = []; rate = rate; burst = burst };
    budget = none;
    last_prune = 0;
  }

  -- The limiter and the callbacks of the clients are the surroundings of a run.
  module _ (taken : Taken) (react : ℕ → RpcReply → List (Request d)) where
    unfoldable pub act : Event d → RpcManager d → RpcManager d
    act (asked_for r) m = request taken r m
    act (arrived message datagram from now) m =
        (handle_reply taken react message datagram from now m).1
    act (drain_tick now) m = drain taken now m
    act (expire_tick now) m = expire taken react now m

    unfoldable pub run : List (Event d) → RpcManager d → RpcManager d
    unfolding act
    run [] m = m
    run (e ∷ es) m = run es (act e m)

    act-moves : (e : Event d) (m : RpcManager d) → m.table ⇝ (act e m).table
    unfolding act
    act-moves (asked_for r) m = request-moves taken r m
    act-moves (arrived message datagram from now) m =
        handle_reply-moves taken react message datagram from now m
    act-moves (drain_tick now) m = allow_any (drain-moves taken now m)
    act-moves (expire_tick now) m = expire-moves taken react now m

    pub run-moves : (es : List (Event d)) (m : RpcManager d) → m.table ⇝ (run es m).table
    unfolding run
    run-moves [] m = rest
    run-moves (e ∷ es) m = chain (act-moves e m) (run-moves es (act e m))
