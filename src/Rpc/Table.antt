-- ===== src/Rpc/Table.antt =====
-- dhtcore/src/RpcManager.cpp: the outstanding transactions and the queues per host. What the limits and
-- the operating system decide is an argument here; `Rpc.Manager` asks them. A hash is the list of its
-- entries in the order of its iteration.
use dhtinspector.Common.{
  ℕ, zero, suc, ◌+◌, ◌-◌, ◌/◌, ◌%◌, Bool, true, false, ◌||◌, Option, none, some, List, [], ◌∷◌,
  ◌++◌, ltb, leb, if◌then◌else◌, length, any, first, update_first, bytes_eq, min, max,
}
use dhtinspector.Bencode.{Fields}
use dhtinspector.Endpoint.{Address, Endpoint, address_eq}
use dhtinspector.Krpc.{encode_query}
use dhtinspector.Rpc.Reply.{RpcReply, throttled, empty_message}

-- RpcManager::Queued. A callback is the number that its caller knows it by; `none` is an empty one.
pub record Queued : Type 0 where
  pub to : Endpoint
  pub method : List ℕ
  pub arguments : Fields
  pub version : List ℕ
  pub callback : Option ℕ
  pub timeout : ℕ
  pub on_sent : Option ℕ

pub record Pending : Type 0 where
  pub tid : List ℕ
  pub to : Endpoint
  pub request : List ℕ
  pub sent_at : ℕ
  pub deadline : ℕ
  pub callback : Option ℕ

-- What leaves the manager: a datagram handed over, a call of onSent, and a posted or direct callback.
pub data Output : Type 0 where
  handed_over : List ℕ → Endpoint → Output
  told_sent : ℕ → Output
  posted : ℕ → RpcReply → Output
  called : ℕ → RpcReply → Output

pub record HostQueue : Type 0 where
  pub host : Address
  pub waiting : List Queued

-- What clients had done: a query that was not refused, and cancelAll.
pub data Call : Type 0 where
  asked : Queued → Call
  cancelled : Call

-- `outputs` has the latest first. Two fields are a record of what happened, which the code reads
-- nowhere: `attempts` has every query that send() was given, and `calls` what clients had done, both
-- with the latest last.
pub record Table : Type 0 where
  pub pending : List Pending
  pub queues : List HostQueue
  pub order : List Address
  pub exhausted : Bool
  pub draining : Bool
  pub queued_total : ℕ
  pub delayed : ℕ
  pub refused : ℕ
  pub send_failures : ℕ
  pub max_pending : ℕ
  pub max_queued : ℕ
  pub next_id : ℕ
  pub read_only : Bool
  pub outputs : List Output
  pub attempts : List Queued
  pub calls : List Call

abbrev pub note_asked : Queued → Table → Table
note_asked q t = record t { calls = t.calls ++ asked q ∷ [] }

abbrev pub max_queued_total : ℕ
max_queued_total = 20000

abbrev pub id_count : ℕ
id_count = 65536

-- The two bytes of a transaction id.
abbrev pub id_bytes : ℕ → List ℕ
id_bytes n = n / 256 ∷ (n % 256) ∷ []

abbrev pub has_id : List ℕ → Pending → Bool
has_id tid p = bytes_eq p.tid tid

-- nextTransactionId's loop: the id it ends with, and the number after.
unfoldable pub search_id : ℕ → ℕ → List Pending → List ℕ × ℕ
search_id zero n ps = (id_bytes n, (n + 1) % id_count)
search_id (suc rounds) n ps = elim (any (has_id (id_bytes n)) ps) [
  | true ↦ search_id rounds ((n + 1) % id_count) ps
  | false ↦ (id_bytes n, (n + 1) % id_count)
]

-- One round for each pending id, and the one that finds a free id.
unfoldable pub next_transaction_id : Table → List ℕ × ℕ
unfolding search_id
next_transaction_id t = search_id (length t.pending) t.next_id t.pending

abbrev pub of_host : Address → HostQueue → Bool
of_host a q = address_eq q.host a

unfoldable pub queue_for : Address → Table → Option HostQueue
queue_for a t = first (of_host a) t.queues

-- queuedFor, as a list.
abbrev pub waiting_of : Option HostQueue → List Queued
waiting_of none = []
waiting_of (some q) = q.waiting

unfoldable pub queued_for : Address → Table → ℕ
unfolding queue_for
queued_for a t = length (waiting_of (queue_for a t))

unfoldable pub can_send_now : Table → Bool
can_send_now t = ltb (length t.pending) t.max_pending

-- A callback posted with a reply that says the query was never sent.
abbrev pub report_not_sent : Option ℕ → Endpoint → List Output → List Output
report_not_sent none to outputs = outputs
report_not_sent (some callback) to outputs =
    posted callback (record {
      status = throttled;
      message = empty_message;
      datagram = [];
      request = [];
      from = to;
      rtt_ms = none;
    })
    ∷ outputs

abbrev pub tell_sent : Option ℕ → List Output → List Output
tell_sent none outputs = outputs
tell_sent (some on_sent) outputs = told_sent on_sent ∷ outputs

-- The datagram that send() makes of the query.
unfoldable pub datagram_of : Queued → Table → List ℕ
unfolding next_transaction_id
datagram_of q t = encode_query (next_transaction_id t).0 q.method q.arguments q.version t.read_only

-- QHash::insert.
abbrev pub insert_pending : Pending → List Pending → List Pending
insert_pending p ps =
    if any (has_id p.tid) ps then update_first (has_id p.tid) (λ _. p) ps else p ∷ ps

-- send(), where the operating system took the datagram.
unfoldable pub send_taken : Queued → ℕ → Table → Table
unfolding datagram_of next_transaction_id
send_taken q now t = record t {
  pending =
      insert_pending
        (record {
          tid = (next_transaction_id t).0;
          to = q.to;
          request = datagram_of q t;
          sent_at = now;
          deadline = now + q.timeout;
          callback = q.callback;
        })
        t.pending;
  next_id = (next_transaction_id t).1;
  outputs = tell_sent q.on_sent (handed_over (datagram_of q t) q.to ∷ t.outputs);
  attempts = t.attempts ++ q ∷ [];
}

-- send(), where it did not: the transaction goes again.
unfoldable pub send_failed : Queued → Table → Table
unfolding next_transaction_id
send_failed q t = record t {
  next_id = (next_transaction_id t).1;
  send_failures = t.send_failures + 1;
  outputs = report_not_sent q.callback q.to t.outputs;
  attempts = t.attempts ++ q ∷ [];
}

unfoldable pub send : Bool → Queued → ℕ → Table → Table
unfolding send_taken send_failed
send taken q now t = if taken then send_taken q now t else send_failed q t

unfoldable pub refuse : Queued → Table → Table
refuse q t = record t {
  refused = t.refused + 1;
  outputs = report_not_sent q.callback q.to t.outputs;
}

abbrev pub count_waiting : Table → Table
count_waiting t = record t {
  queued_total = t.queued_total + 1;
  delayed = t.delayed + 1;
  draining = true;
}

-- query() for a host with no queue, where the query is not sent at once.
unfoldable pub enqueue_first : Queued → Table → Table
unfolding refuse
enqueue_first q t =
    if leb max_queued_total t.queued_total then refuse q t else record (count_waiting t) {
      queues = record { host = q.to.address; waiting = q ∷ [] } ∷ t.queues;
      order = t.order ++ q.to.address ∷ [];
      calls = t.calls ++ asked q ∷ [];
    }

abbrev pub push_waiting : Queued → HostQueue → HostQueue
push_waiting q h = record h { waiting = h.waiting ++ q ∷ [] }

-- query() for a host with a queue.
unfoldable pub enqueue_behind : Queued → HostQueue → Table → Table
unfolding refuse
enqueue_behind q h t =
    if leb t.max_queued (length h.waiting) || leb max_queued_total t.queued_total
    then refuse q t
    else record (count_waiting t) {
      queues = update_first (of_host q.to.address) (push_waiting q) t.queues;
      calls = t.calls ++ asked q ∷ [];
    }

abbrev pub erase_queue : Address → List HostQueue → List HostQueue
erase_queue a [] = []
erase_queue a (h ∷ hs) = elim (of_host a h) [ true ↦ hs | false ↦ h ∷ erase_queue a hs ]

-- drain's turn for a host whose queue stays.
unfoldable pub keep_turn : Address → Table → Table
keep_turn host t = record t { order = t.order ++ host ∷ [] }

-- drain's end of a turn that took a query: the queue `rest` is left.
unfoldable pub finish_turn : Address → List Queued → Table → Table
finish_turn host [] t = record t { queues = erase_queue host t.queues }
finish_turn host (q ∷ qs) t = record t {
  queues = update_first (of_host host) (λ h. record h { waiting = q ∷ qs }) t.queues;
  order = t.order ++ host ∷ [];
}

-- drain takes the front query of the host's queue and sends it.
unfoldable pub take_turn : Bool → Address → Queued → List Queued → ℕ → Table → Table
unfolding send finish_turn
take_turn taken host q rest now t =
    finish_turn host rest (send taken q now (record t { queued_total = t.queued_total - 1 }))

unfoldable pub erase_pending : List ℕ → List Pending → List Pending
erase_pending tid [] = []
erase_pending tid (p ∷ ps) = elim (has_id tid p) [ true ↦ ps | false ↦ p ∷ erase_pending tid ps ]

abbrev pub call_back : Option ℕ → RpcReply → List Output → List Output
call_back none reply outputs = outputs
call_back (some callback) reply outputs = called callback reply ∷ outputs

unfoldable pub cancel_all : Table → Table
cancel_all t = record t {
  pending = [];
  queues = [];
  order = [];
  queued_total = 0;
  exhausted = false;
  draining = false;
  calls = t.calls ++ cancelled ∷ [];
}

unfoldable pub set_max_pending : ℕ → Table → Table
set_max_pending n t = record t { max_pending = min (max n 1) id_count }
