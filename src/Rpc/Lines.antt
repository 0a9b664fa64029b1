-- ===== src/Rpc/Lines.antt =====
-- dhtcore/src/RpcManager.cpp: each host's queries in the order of its client, those sent and those
-- that wait, which a pass of drain() leaves as they are.
use dhtinspector.Common.{
  ℕ, ◌≡◌, refl, sym, subst, ◌∙◌, Bool, true, false, inl, inr, some, List, [], ◌∷◌, ◌++◌,
  append_assoc, append-nil, first, keep, keep-true, keep-false, All, Bool-cases, arith,
}
use dhtinspector.Endpoint.{Address, address_eq}
use dhtinspector.Endpoint.Compact.{address_eq_iff}
use dhtinspector.Rpc.Table.{
  Queued, HostQueue, Table, of_host, queue_for, take_turn, keep_turn, finish_turn,
}
use dhtinspector.Rpc.Manager.{RpcManager, Taken, drain}
use dhtinspector.Rpc.Queues.{line_of, first-host, All-first, IsQueue}
use dhtinspector.Rpc.Invariant.{IsRpc}
use dhtinspector.Rpc.Moves.{
  Kind, Move, Run, only_draining, sends, waits_first, waits_behind, idles, empties, keeps, takes,
  completes, cancels, resizes, notes, rest, step,
}
use dhtinspector.Rpc.Dispatch.{drain-moves}
use dhtinspector.Rpc.Runs.{Move-IsRpc}
use dhtinspector.Rpc.Fifo.{
  fifo_of, for_host, keep-append, line_of-turn, line_of-turn_other, attempts-turn,
}
use dhtinspector.Storage.Limits.{Double}

-- All that was accepted for the host since the last time that its queue was dropped.
abbrev pub line : Address → Table → List Queued
line host t = (fifo_of host t).sent ++ (fifo_of host t).waiting

takes-line :
    (host : Address) (turn : Address) (h : HostQueue) (q : Queued) (qs : List Queued) (taken : Bool)
    (now : ℕ) (others : List Address) (t : Table)
    → IsRpc t
    → first (of_host turn) t.queues ≡ some h
    → h.waiting ≡ q ∷ qs
    → line host (take_turn taken turn q qs now (record t { order = others })) ≡ line host t
takes-line host turn h q qs taken now others t i found two =
    let queue = All-first IsQueue turn t.queues h i.waiting.queues found in
    let homed : All (λ (x : Queued). x.to.address ≡ h.host) (q ∷ qs) = rw two at queue.homed in
    let home : q.to.address ≡ turn = homed.0 ∙ first-host turn t.queues h found in
    let sent = attempts-turn turn q qs taken now others t in
    let split = keep-append (for_host host) t.attempts (q ∷ []) in
    elim (Bool-cases (for_host host q)) [
      | inl here ↦
          let at : turn ≡ host = sym home ∙ (address_eq_iff q.to.address host).0 here in
          let before : line_of host t.queues ≡ q ∷ qs = rw (sym at, found) two in
          let after =
            subst
              (λ b.
                line_of b (take_turn taken turn q qs now (record t { order = others })).queues ≡ qs)
              at (line_of-turn turn h q qs taken now others t i found) in
          rw (sent, split, keep-true (for_host host) q [] here, after, before)
            (append_assoc (keep (for_host host) t.attempts) (q ∷ []) qs)
      | inr other ↦
          let apart : address_eq turn host ≡ false =
            subst (λ b. address_eq b host ≡ false) home other in
          rw
            (
              sent,
              split,
              keep-false (for_host host) q [] other,
              append-nil (keep (for_host host) t.attempts),
              line_of-turn_other turn host q qs taken now others t apart,
            )
            refl
    ]

Move-line :
    (host : Address) {k : Kind}
    → {t u : Table} → Move k t u
    → only_draining k ≡ true
    → IsRpc t
    → line host u ≡ line host t
unfolding queue_for keep_turn finish_turn
Move-line host (sends {t} taken q now empty room) ok i = cc
Move-line host (waits_first {t} q empty) ok i = cc
Move-line host (waits_behind {t} q h found) ok i = cc
Move-line host (idles {t} turn others front empty) ok i = refl
Move-line host (empties {t} turn others h front found at) ok i =
    let queue = All-first IsQueue turn t.queues h i.waiting.queues found in
    absurd (ground (arith, queue.holds))
Move-line host (keeps {t} turn others front) ok i = refl
Move-line host (takes {t} taken turn others h q qs now front room found two) ok i =
    takes-line host turn h q qs taken now others t i found two
Move-line host (completes {t} p reply) ok i = cc
Move-line host (cancels {t}) ok i = cc
Move-line host (resizes {t} n) ok i = cc
Move-line host (notes {t} waits busy silent most) ok i = refl

Run-line :
    (host : Address) {t u : Table} → Run only_draining t u → IsRpc t → line host u ≡ line host t
Run-line host rest i = refl
Run-line host (step ok m h) i = Run-line host h (Move-IsRpc m i) ∙ Move-line host m ok i

module _ {d : Double} where
  -- A pass of drain(), where the table is as every run leaves it, leaves each host's line as it is, the
  -- queries that were sent followed by those that wait: none is lost, doubled or overtaken.
  pub drain-line :
      (taken : Taken) (now : ℕ) (m : RpcManager d) (host : Address)
      → IsRpc m.table
      → line host (drain taken now m).table ≡ line host m.table
  drain-line taken now m host i = Run-line host (drain-moves taken now m) i
