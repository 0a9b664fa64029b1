-- ===== src/Rpc/Timeouts.antt =====
-- dhtcore/src/RpcManager.cpp: what expire() ends, where the callbacks ask nothing.
use dhtinspector.Common.{
  ℕ, ◌≡◌, refl, subst, ◌∙◌, ap, Bool, true, false, inl, inr, some, List, [], ◌∷◌, ◌++◌,
  append_assoc, any, first, keep, keep-true, keep-false, bytes_eq_iff, bytes_eq_refl, ltb, leb,
  Bool-cases, arith,
}
use dhtinspector.Rpc.Reply.{RpcReply}
use dhtinspector.Rpc.Table.{Pending, Table, Output, has_id, erase_pending, call_back}
use dhtinspector.Rpc.Manager.{
  RpcManager, Request, Taken, requests, complete, expired_ids, timeout_of, expire_at, expire_all,
  prune_hosts, expire,
}
use dhtinspector.Rpc.Invariant.{Distinct, IsRpc}
use dhtinspector.Rpc.Dispatch.{prune_hosts-table}
use dhtinspector.Rpc.Answers.{no_reactions}
use dhtinspector.Storage.Limits.{Double}

abbrev pub is_due : ℕ → Pending → Bool
is_due now p = leb p.deadline now

abbrev pub is_open : ℕ → Pending → Bool
is_open now p = ltb now p.deadline

-- The callbacks of the queries, each told of the timeout.
abbrev pub tell_timeouts : List Pending → List Output → List Output
tell_timeouts [] outputs = outputs
tell_timeouts (p ∷ ps) outputs = tell_timeouts ps (call_back p.callback (timeout_of p) outputs)

any-middle :
    (tid : List ℕ) (kept : List Pending) (p : Pending) (ps : List Pending)
    → any (has_id tid) (kept ++ p ∷ ps) ≡ false
    → (has_id tid p ≡ false) × (any (has_id tid) (kept ++ ps) ≡ false)
any-middle tid [] p ps h = ground arith
any-middle tid (g ∷ kept) p ps h = ground (arith, any-middle tid kept p ps)

-- The query in the middle has an id of its own, and goes alone.
middle-id :
    (kept : List Pending) (p : Pending) (ps : List Pending)
    → Distinct (kept ++ p ∷ ps)
    → (first (has_id p.tid) (kept ++ p ∷ ps) ≡ some p)
      × (erase_pending p.tid (kept ++ p ∷ ps) ≡ kept ++ ps)
      × Distinct (kept ++ ps)
unfolding erase_pending
middle-id [] p ps h = rw (bytes_eq_refl p.tid, first, erase_pending) (refl, refl, h.1)
middle-id (g ∷ kept) p ps h =
    let apart = any-middle g.tid kept p ps h.0 in
    let other : has_id p.tid g ≡ false =
      ground (arith, bytes_eq_iff g.tid p.tid, bytes_eq_iff p.tid g.tid) in
    let rest = middle-id kept p ps h.1 in
    rw (other, first, erase_pending) (rest.0, ap (◌∷◌ g) rest.1, (apart.1, rest.2))

expired_ids-none : (now : ℕ) → expired_ids now [] ≡ []
unfolding expired_ids
expired_ids-none now = refl

expired_ids-due :
    (now : ℕ) (p : Pending) (ps : List Pending)
    → is_due now p ≡ true
    → expired_ids now (p ∷ ps) ≡ p.tid ∷ expired_ids now ps
unfolding expired_ids
expired_ids-due now p ps due = rw (keep-true (is_due now) p ps due) refl

expired_ids-early :
    (now : ℕ) (p : Pending) (ps : List Pending)
    → is_due now p ≡ false
    → expired_ids now (p ∷ ps) ≡ expired_ids now ps
unfolding expired_ids
expired_ids-early now p ps early = rw (keep-false (is_due now) p ps early) refl

module _ {d : Double} (taken : Taken) where
  abbrev quiet : ℕ → RpcReply → List (Request d)
  quiet callback reply = []

  expire_at-quiet :
      (p : Pending) (m : RpcManager d)
      → (expire_at taken quiet (some p) m).table ≡ record (m.table) {
        pending = erase_pending p.tid m.table.pending;
        outputs = call_back p.callback (timeout_of p) m.table.outputs;
      }
  unfolding expire_at complete requests
  expire_at-quiet p m = rw (no_reactions taken p.callback (timeout_of p)) refl

  expire_all-quiet :
      (now : ℕ) (kept ps : List Pending) (m : RpcManager d)
      → m.table.pending ≡ kept ++ ps
      → Distinct (kept ++ ps)
      → (expire_all taken quiet (expired_ids now ps) m).table ≡ record (m.table) {
        pending = kept ++ keep (is_open now) ps;
        outputs = tell_timeouts (keep (is_due now) ps) m.table.outputs;
      }
  unfolding expire_all
  expire_all-quiet now kept [] m at h =
      let none_due : expired_ids now [] ≡ [] = expired_ids-none now in
      rw none_due (ap (λ ids. record (m.table) { pending = ids }) at)
  expire_all-quiet now kept (p ∷ ps) m at h = elim (Bool-cases (is_due now p)) [
    | inl due ↦
        let late : is_open now p ≡ false = ground arith in
        let middle = middle-id kept p ps h in
        let here : first (has_id p.tid) m.table.pending ≡ some p = rw at middle.0 in
        let gone : erase_pending p.tid m.table.pending ≡ kept ++ ps = rw at middle.1 in
        let after = expire_at-quiet p m in
        rw
          (
            expired_ids-due now p ps due,
            keep-true (is_due now) p ps due,
            keep-false (is_open now) p ps late,
            here,
            expire_all,
          )
          (expire_all-quiet now kept ps (expire_at taken quiet (some p) m) (rw after gone) middle.2
            ∙ ap
                (λ (t : Table). record t {
                  pending = kept ++ keep (is_open now) ps;
                  outputs = tell_timeouts (keep (is_due now) ps) t.outputs;
                })
                after)
    | inr early ↦
        let late : is_open now p ≡ true = ground arith in
        let along : m.table.pending ≡ (kept ++ p ∷ []) ++ ps =
          rw (append_assoc kept (p ∷ []) ps) at in
        let distinct : Distinct ((kept ++ p ∷ []) ++ ps) = rw (append_assoc kept (p ∷ []) ps) h in
        rw
          (
            expired_ids-early now p ps early,
            keep-false (is_due now) p ps early,
            keep-true (is_open now) p ps late,
          )
          (subst
            (λ ids. (expire_all taken quiet (expired_ids now ps) m).table ≡ record (m.table) {
              pending = ids;
              outputs = tell_timeouts (keep (is_due now) ps) m.table.outputs;
            })
            (append_assoc kept (p ∷ []) (keep (is_open now) ps))
            (expire_all-quiet now (kept ++ p ∷ []) ps m along distinct))
  ]

  -- Where the callbacks ask nothing, expire() ends the transactions whose deadline has come, calls the
  -- callback of each with a timeout in the order of the table, and changes nothing else of the table.
  pub expire-quiet :
      (now : ℕ) (m : RpcManager d)
      → IsRpc m.table
      → (expire taken quiet now m).table ≡ record (m.table) {
        pending = keep (λ (p : Pending). ltb now p.deadline) m.table.pending;
        outputs =
            tell_timeouts
              (keep (λ (p : Pending). leb p.deadline now) m.table.pending)
              m.table.outputs;
      }
  unfolding expire
  expire-quiet now m i =
      let same = prune_hosts-table taken quiet now m in
      expire_all-quiet now [] m.table.pending (prune_hosts now m)
        (ap (λ (t : Table). t.pending) same) i.transactions.distinct
      ∙ ap
          (λ (t : Table). record t {
            pending = keep (is_open now) m.table.pending;
            outputs = tell_timeouts (keep (is_due now) m.table.pending) t.outputs;
          })
          same
