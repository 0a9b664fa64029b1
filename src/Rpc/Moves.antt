-- ===== src/Rpc/Moves.antt =====
-- dhtcore/src/RpcManager.cpp: what the operations do to the table, as steps of a relation: the limits
-- and the operating system only choose among them.
use dhtinspector.Common.{ℕ, ◌≡◌, refl, Bool, true, false, none, some, List, [], ◌∷◌}
use dhtinspector.Endpoint.{Address}
use dhtinspector.Rpc.Reply.{RpcReply}
use dhtinspector.Rpc.Table.{
  Queued, Pending, HostQueue, Table, can_send_now, send, enqueue_first, enqueue_behind, keep_turn,
  finish_turn, queue_for, take_turn, cancel_all, set_max_pending, erase_pending, call_back,
  note_asked,
}

-- Query() and drain() make moves of their own; `settling` ones end transactions and queues.
pub data Kind : Type 0 where
  asking : Kind
  draining : Kind
  settling : Kind

pub data Move : Kind → Table → Table → Type 0 where
  sends :
      {t : Table}
      → (taken : Bool) → (q : Queued) → (now : ℕ) → queue_for q.to.address t ≡ none
      → can_send_now t ≡ true
      → Move asking t (note_asked q (send taken q now t))
  waits_first :
      {t : Table}
      → (q : Queued) → queue_for q.to.address t ≡ none
      → Move asking t (enqueue_first q t)
  waits_behind :
      {t : Table}
      → (q : Queued) → (h : HostQueue) → queue_for q.to.address t ≡ some h
      → Move asking t (enqueue_behind q h t)
  idles :
      {t : Table}
      → (host : Address) → (rest : List Address) → t.order ≡ host ∷ rest
      → queue_for host t ≡ none
      → Move draining t (record t { order = rest })
  empties :
      {t : Table}
      → (host : Address) → (rest : List Address) → (h : HostQueue) → t.order ≡ host ∷ rest
      → queue_for host t ≡ some h
      → h.waiting ≡ []
      → Move draining t (finish_turn host [] (record t { order = rest }))
  keeps :
      {t : Table}
      → (host : Address) → (rest : List Address) → t.order ≡ host ∷ rest
      → Move draining t (keep_turn host (record t { order = rest }))
  takes :
      {t : Table}
      → (taken : Bool) → (host : Address) → (rest : List Address) → (h : HostQueue) → (q : Queued)
      → (qs : List Queued) → (now : ℕ) → t.order ≡ host ∷ rest
      → can_send_now t ≡ true
      → queue_for host t ≡ some h
      → h.waiting ≡ q ∷ qs
      → Move draining t (take_turn taken host q qs now (record t { order = rest }))
  completes :
      {t : Table}
      → (p : Pending) → (reply : RpcReply)
      → Move settling t (record t {
        pending = erase_pending p.tid t.pending;
        outputs = call_back p.callback reply t.outputs;
      })
  cancels : {t : Table} → Move settling t (cancel_all t)
  resizes : {t : Table} → (n : ℕ) → Move settling t (set_max_pending n t)
  notes :
      {t : Table}
      → (waits busy silent : Bool) → (most : ℕ)
      → Move draining t
          (record t { exhausted = waits; draining = busy; read_only = silent; max_queued = most })

-- Moves of the kinds that pass the test, one after the other.
pub data Run (allowed : Kind → Bool) : Table → Table → Type 0 where
  rest : {t : Table} → Run allowed t t
  step :
      {k : Kind}
      → {t u v : Table} → allowed k ≡ true
      → Move k t u
      → Run allowed u v
      → Run allowed t v

abbrev pub any_kind : Kind → Bool
any_kind k = true

abbrev pub only_draining : Kind → Bool
only_draining draining = true
only_draining _ = false

infix 40 ◌⇝◌
abbrev pub ◌⇝◌ : Table → Table → Type 0
t ⇝ u = Run any_kind t u

infix 40 ◌⇉◌
abbrev pub ◌⇉◌ : Table → Table → Type 0
t ⇉ u = Run only_draining t u

pub chain :
    {allowed : Kind → Bool} → {t u v : Table} → Run allowed t u → Run allowed u v → Run allowed t v
chain rest k = k
chain (step ok m h) k = step ok m (chain h k)

pub allow_any : {allowed : Kind → Bool} → {t u : Table} → Run allowed t u → t ⇝ u
allow_any rest = rest
allow_any (step ok m h) = step refl m (allow_any h)

pub one :
    {allowed : Kind → Bool}
    → {k : Kind} → {t u : Table} → allowed k ≡ true
    → Move k t u
    → Run allowed t u
one ok m = step ok m rest
