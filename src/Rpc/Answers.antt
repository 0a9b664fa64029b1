-- ===== src/Rpc/Answers.antt =====
-- dhtcore/src/RpcManager.cpp: which replies are taken, and what a timeout ends.
use dhtinspector.Common.{
  ℕ, ◌≡◌, ◌&&◌, refl, sym, subst, Bool, true, false, inl, inr, Option, none, some, List, [], ◌∷◌,
  any, first, bytes_eq, bytes_eq_iff, Bool-cases, Option-cases, arith,
}
use dhtinspector.Endpoint.{Endpoint, endpoint_eq}
use dhtinspector.Krpc.{Message}
use dhtinspector.Rpc.Reply.{RpcReply}
use dhtinspector.Rpc.Table.{Pending, has_id, erase_pending}
use dhtinspector.Rpc.Manager.{
  RpcManager, Request, Taken, requests, reactions, complete, reply_for, reply_at, handle_reply,
}
use dhtinspector.Rpc.Invariant.{Distinct, IsRpc}
use dhtinspector.Storage.Limits.{Double}

-- A query is outstanding under the id, and was sent to the endpoint.
abbrev pub answers : List ℕ → Endpoint → Pending → Bool
answers tid from p = bytes_eq p.tid tid && endpoint_eq p.to from

any-erase_self :
    (tid : List ℕ) (ps : List Pending)
    → Distinct ps
    → any (has_id tid) (erase_pending tid ps) ≡ false
unfolding erase_pending
any-erase_self tid [] h = refl
any-erase_self tid (p ∷ ps) h = ground (arith, bytes_eq_iff p.tid tid, any-erase_self tid ps)

first_of_any :
    (tid : List ℕ) (ps : List Pending) → any (has_id tid) ps ≡ false → first (has_id tid) ps ≡ none
first_of_any tid [] h = refl
first_of_any tid (p ∷ ps) h = ground (arith, first_of_any tid ps)

any_of_first :
    (tid : List ℕ) (ps : List Pending) → first (has_id tid) ps ≡ none → any (has_id tid) ps ≡ false
any_of_first tid [] h = refl
any_of_first tid (p ∷ ps) h = ground (arith, any_of_first tid ps)

first-id :
    (tid : List ℕ) (ps : List Pending) (p : Pending) → first (has_id tid) ps ≡ some p → p.tid ≡ tid
first-id tid [] p e = cc
first-id tid (g ∷ ps) p e = ground (arith, bytes_eq_iff g.tid tid, first-id tid ps p)

any-answers :
    (tid : List ℕ) (from : Endpoint) (ps : List Pending)
    → any (has_id tid) ps ≡ false
    → any (answers tid from) ps ≡ false
any-answers tid from [] h = refl
any-answers tid from (p ∷ ps) h = ground (arith, any-answers tid from ps)

-- Under one id there is one query.
any-answers_first :
    (tid : List ℕ) (from : Endpoint) (ps : List Pending) (p : Pending)
    → Distinct ps
    → first (has_id tid) ps ≡ some p
    → any (answers tid from) ps ≡ endpoint_eq p.to from
any-answers_first tid from [] p h e = cc
any-answers_first tid from (g ∷ ps) p h e = elim (Bool-cases (has_id tid g)) [
  | inl here ↦
      let same : g ≡ p = ground arith in
      let at : g.tid ≡ tid = (bytes_eq_iff g.tid tid).0 here in
      let others = any-answers tid from ps (subst (λ id. any (has_id id) ps ≡ false) at h.0) in
      rw (sym same) (ground arith)
  | inr there ↦ ground (arith, any-answers_first tid from ps p h.1)
]

module _ {d : Double} (taken : Taken) where
  -- A reply or an error is taken exactly if a query is outstanding under its transaction id that was
  -- sent to the endpoint it comes from. One that is not taken changes nothing.
  pub handle_reply-answers :
      (react : ℕ → RpcReply → List (Request d)) (message : Message) (datagram : List ℕ)
      (from : Endpoint) (now : ℕ) (m : RpcManager d)
      → IsRpc m.table
      → ((handle_reply taken react message datagram from now m).0
          ≡ any (answers message.transaction_id from) m.table.pending)
        × (any (answers message.transaction_id from) m.table.pending ≡ false
            → (handle_reply taken react message datagram from now m).1 ≡ m)
  unfolding handle_reply reply_at
  handle_reply-answers react message datagram from now m i =
      let tid = message.transaction_id in
      elim (Option-cases (first (has_id tid) m.table.pending)) [
        | inl e ↦
            let none_there =
              any-answers tid from m.table.pending (any_of_first tid m.table.pending e) in
            rw e (sym none_there, λ _. refl)
        | inr (p, e) ↦
            let one = any-answers_first tid from m.table.pending p i.transactions.distinct e in
            elim (Bool-cases (endpoint_eq p.to from)) [
              | inl here ↦ rw (e, here, one, here) (refl, λ n. absurd (ground arith))
              | inr there ↦ rw (e, there, one, there) (refl, λ n. refl)
            ]
      ]

  pub no_reactions :
      (callback : Option ℕ) (reply : RpcReply)
      → reactions {d = d} (λ callback reply. []) callback reply ≡ []
  unfolding reactions
  no_reactions none reply = refl
  no_reactions (some callback) reply = refl

  -- A reply is taken once: where the callback asks nothing, a second reply under the same transaction
  -- id is not taken, wherever it comes from, and changes nothing.
  pub handle_reply-once :
      (first_message second : Message) (datagram bytes : List ℕ) (from other : Endpoint)
      (now later : ℕ) (m : RpcManager d)
      → IsRpc m.table
      → second.transaction_id ≡ first_message.transaction_id
      → (handle_reply taken (λ callback reply. []) first_message datagram from now m).0 ≡ true
      → handle_reply taken
          (λ callback reply. [])
          second
          bytes
          other
          later
          (handle_reply taken (λ callback reply. []) first_message datagram from now m).1
        ≡ (false, (handle_reply taken (λ callback reply. []) first_message datagram from now m).1)
  unfolding handle_reply reply_at complete requests
  handle_reply-once first_message second datagram bytes from other now later m i same h =
      let tid = first_message.transaction_id in
      elim (Option-cases (first (has_id tid) m.table.pending)) [
        | inl e ↦ let no : false ≡ true = rw e at h in absurd (ground arith)
        | inr (p, e) ↦ elim (Bool-cases (endpoint_eq p.to from)) [
          | inl here ↦
              let id = first-id tid m.table.pending p e in
              let gone = any-erase_self tid m.table.pending i.transactions.distinct in
              let absent = first_of_any tid (erase_pending tid m.table.pending) gone in
              rw
                (
                  e,
                  here,
                  same,
                  id,
                  no_reactions p.callback (reply_for first_message datagram from now p),
                  absent,
                )
                refl
          | inr there ↦ let no : false ≡ true = rw (e, there) at h in absurd (ground arith)
        ]
      ]
