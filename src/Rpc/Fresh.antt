-- ===== src/Rpc/Fresh.antt =====
-- dhtcore/src/RpcManager.cpp: nextTransactionId ends with an id that is not outstanding.
use dhtinspector.Common.{
  ℕ, zero, suc, ◌+◌, ◌%◌, ◌≤◌, ◌<◌, ◌≡◌, ◌≢◌, refl, sym, ◌∙◌, true, false, not, inl, inr, List, [],
  ◌∷◌, length, any, keep, bytes_eq, bytes_eq_iff, Bool-cases, arith,
}
use dhtinspector.Rpc.Table.{Pending, Table, has_id, id_bytes, search_id, next_transaction_id}

id_bytes-ne : (a b : ℕ) → a < 65536 → b < 65536 → a ≢ b → bytes_eq (id_bytes a) (id_bytes b) ≡ false
id_bytes-ne a b h k n = ground arith

-- The pending queries under other ids.
without : List ℕ → List Pending → List Pending
without tid ps = keep (λ p. not (has_id tid p)) ps

any-without :
    (tid other : List ℕ) (ps : List Pending)
    → bytes_eq tid other ≡ false
    → any (has_id other) (without tid ps) ≡ any (has_id other) ps
unfolding without
any-without tid other [] h = refl
any-without tid other (p ∷ ps) h =
    ground (arith, bytes_eq_iff p.tid tid, any-without tid other ps h)

length-without-le : (tid : List ℕ) (ps : List Pending) → length (without tid ps) ≤ length ps
unfolding without
length-without-le tid [] = omega arith
length-without-le tid (p ∷ ps) = ground (arith, length-without-le tid ps)

length-without :
    (tid : List ℕ) (ps : List Pending)
    → any (has_id tid) ps ≡ true
    → length (without tid ps) < length ps
unfolding without
length-without tid [] h = cc
length-without tid (p ∷ ps) h = ground (arith, length-without tid ps, length-without-le tid ps)

-- `rest` answers for the ids still to be tried as all the pending queries do, and is no longer than
-- the rounds that are left.
search_id-fresh :
    (rounds n : ℕ) (ps rest : List Pending)
    → n < 65536
    → rounds < 65536
    → length rest ≤ rounds
    → ((j : ℕ)
        → j ≤ rounds
        → any (has_id (id_bytes ((n + j) % 65536))) rest
          ≡ any (has_id (id_bytes ((n + j) % 65536))) ps)
    → any (has_id (search_id rounds n ps).0) ps ≡ false
unfolding search_id
search_id-fresh zero n ps [] hn hr short same =
    let at : (n + 0) % 65536 ≡ n = omega arith in rw at at (sym (same 0 (omega arith)))
search_id-fresh zero n ps (p ∷ rest) hn hr short same = absurd (omega arith)
search_id-fresh (suc rounds) n ps rest hn hr short same =
    elim (Bool-cases (any (has_id (id_bytes n)) ps)) [
      | inr free ↦ rw (free, search_id) free
      | inl taken ↦
          let at : (n + 0) % 65536 ≡ n = omega arith in
          let held : any (has_id (id_bytes n)) rest ≡ true =
            rw at at (same 0 (omega arith)) ∙ taken in
          rw (taken, search_id)
            (search_id-fresh rounds ((n + 1) % 65536) ps (without (id_bytes n) rest) (omega arith)
              (omega arith) (omega (arith, length-without (id_bytes n) rest held))
              (λ j le.
                let step : ((n + 1) % 65536 + j) % 65536 ≡ (n + suc j) % 65536 = omega arith in
                rw step (
                  any-without (id_bytes n) (id_bytes ((n + suc j) % 65536)) rest
                    (id_bytes-ne n ((n + suc j) % 65536) hn (omega arith) (omega arith))
                  ∙ same (suc j) (omega arith))))
    ]

search_id-next : (rounds n : ℕ) (ps : List Pending) → (search_id rounds n ps).1 < 65536
unfolding search_id
search_id-next zero n ps = omega arith
search_id-next (suc rounds) n ps = elim (Bool-cases (any (has_id (id_bytes n)) ps)) [
  | inr free ↦ rw (free, search_id) (omega arith)
  | inl taken ↦ rw (taken, search_id) (search_id-next rounds ((n + 1) % 65536) ps)
]

-- With fewer than 65536 queries outstanding the search for a transaction id ends with one that no
-- outstanding query has, and the number it goes on from is a 16-bit one.
pub next_transaction_id_fresh :
    (t : Table)
    → length t.pending < 65536
    → t.next_id < 65536
    → (any (has_id (next_transaction_id t).0) t.pending ≡ false)
      × ((next_transaction_id t).1 < 65536)
unfolding next_transaction_id
next_transaction_id_fresh t h k = (
  search_id-fresh (length t.pending) t.next_id t.pending t.pending k h (omega arith) (λ j le. refl),
  search_id-next (length t.pending) t.next_id t.pending,
)
