-- ===== src/Rpc/Queues.antt =====
-- dhtcore/src/RpcManager.cpp: the queues of the hosts as a list, and what its changes do to the hosts
-- in it, to the queries that wait and to each host's own.
use dhtinspector.Common.{
  ℕ, ◌+◌, ◌<◌, ◌≡◌, refl, subst, false, inl, inr, none, some, List, [], ◌∷◌, ◌++◌, length, first,
  update_first, All, Bool-cases, arith, if◌then◌else◌,
}
use dhtinspector.Endpoint.{Address, address_eq}
use dhtinspector.Endpoint.Compact.{address_eq_iff}
use dhtinspector.Rpc.Table.{Queued, HostQueue, of_host, waiting_of, erase_queue}

-- How often a host stands in the order, and how many queues it has.
abbrev pub turns_of : Address → List Address → ℕ
turns_of a [] = 0
turns_of a (b ∷ bs) = (if address_eq b a then 1 else 0) + turns_of a bs

abbrev pub queues_of : Address → List HostQueue → ℕ
queues_of a [] = 0
queues_of a (h ∷ hs) = (if of_host a h then 1 else 0) + queues_of a hs

abbrev pub total_waiting : List HostQueue → ℕ
total_waiting [] = 0
total_waiting (h ∷ hs) = length h.waiting + total_waiting hs

-- A queue holds queries, all of them for its host.
pub record IsQueue (h : HostQueue) : Type 0 where
  pub holds : 0 < length h.waiting
  pub homed : All (λ (q : Queued). q.to.address ≡ h.host) h.waiting

-- What waits for a host.
abbrev pub line_of : Address → List HostQueue → List Queued
line_of a hs = waiting_of (first (of_host a) hs)

pub turns_of-append :
    (a : Address) (bs cs : List Address) → turns_of a (bs ++ cs) ≡ turns_of a bs + turns_of a cs
turns_of-append a [] cs = omega arith
turns_of-append a (b ∷ bs) cs = omega (arith, turns_of-append a bs cs)

pub first-host :
    (b : Address) (hs : List HostQueue) (h : HostQueue) → first (of_host b) hs ≡ some h → h.host ≡ b
first-host b [] h e = cc
first-host b (g ∷ hs) h e = ground (arith, address_eq_iff g.host b, first-host b hs h)

pub queues_of-none :
    (b : Address) (hs : List HostQueue) → first (of_host b) hs ≡ none → queues_of b hs ≡ 0
queues_of-none b [] e = refl
queues_of-none b (g ∷ hs) e = ground (arith, queues_of-none b hs)

pub none-queues_of :
    (b : Address) (hs : List HostQueue) → queues_of b hs ≡ 0 → first (of_host b) hs ≡ none
none-queues_of b [] e = refl
none-queues_of b (g ∷ hs) e = ground (arith, none-queues_of b hs)

pub All-first :
    (P : HostQueue → Type 0) (b : Address) (hs : List HostQueue) (h : HostQueue)
    → All P hs
    → first (of_host b) hs ≡ some h
    → P h
All-first P b [] h al e = absurd (ground arith)
All-first P b (g ∷ hs) h al e = elim (Bool-cases (of_host b g)) [
  | inl x ↦ let same : g ≡ h = ground arith in subst P same al.0
  | inr x ↦ All-first P b hs h al.1 (ground arith)
]

-- A change of the host's queue that leaves it the host's.
module _ (b : Address) (f : HostQueue → HostQueue)
    (keeps : (h : HostQueue) → (f h).host ≡ h.host) where
  pub queues_of-update :
      (a : Address) (hs : List HostQueue)
      → queues_of a (update_first (of_host b) f hs) ≡ queues_of a hs
  queues_of-update a [] = refl
  queues_of-update a (g ∷ hs) = ground (arith, keeps g, queues_of-update a hs)

  pub total_waiting-update :
      (hs : List HostQueue) (h : HostQueue)
      → first (of_host b) hs ≡ some h
      → total_waiting (update_first (of_host b) f hs) + length h.waiting
        ≡ total_waiting hs + length (f h).waiting
  total_waiting-update [] h e = cc
  total_waiting-update (g ∷ hs) h e = ground (arith, total_waiting-update hs h)

  pub line_of-update_self :
      (hs : List HostQueue) (h : HostQueue)
      → first (of_host b) hs ≡ some h
      → line_of b (update_first (of_host b) f hs) ≡ (f h).waiting
  line_of-update_self [] h e = cc
  line_of-update_self (g ∷ hs) h e = ground (arith, keeps g, line_of-update_self hs h)

  pub line_of-update_other :
      (a : Address) (hs : List HostQueue)
      → address_eq b a ≡ false
      → line_of a (update_first (of_host b) f hs) ≡ line_of a hs
  line_of-update_other a [] n = refl
  line_of-update_other a (g ∷ hs) n =
      ground (arith, keeps g, address_eq_iff g.host b, line_of-update_other a hs n)

  pub All-update :
      (P : HostQueue → Type 0) (hs : List HostQueue)
      → ((h : HostQueue) → h.host ≡ b → P h → P (f h))
      → All P hs
      → All P (update_first (of_host b) f hs)
  All-update P [] k al = tt
  All-update P (g ∷ hs) k al = elim (Bool-cases (of_host b g)) [
    | inl x ↦ rw (x, All) (k g ((address_eq_iff g.host b).0 x) al.0, al.1)
    | inr x ↦ rw (x, All) (al.0, All-update P hs k al.1)
  ]

-- The host's queue goes.
module _ (b : Address) where
  pub queues_of-erase :
      (a : Address) (hs : List HostQueue) (h : HostQueue)
      → first (of_host b) hs ≡ some h
      → queues_of a (erase_queue b hs) + (if address_eq b a then 1 else 0) ≡ queues_of a hs
  queues_of-erase a [] h e = cc
  queues_of-erase a (g ∷ hs) h e = ground (arith, address_eq_iff g.host b, queues_of-erase a hs h)

  pub total_waiting-erase :
      (hs : List HostQueue) (h : HostQueue)
      → first (of_host b) hs ≡ some h
      → total_waiting (erase_queue b hs) + length h.waiting ≡ total_waiting hs
  total_waiting-erase [] h e = cc
  total_waiting-erase (g ∷ hs) h e = ground (arith, total_waiting-erase hs h)

  pub line_of-erase_other :
      (a : Address) (hs : List HostQueue)
      → address_eq b a ≡ false
      → line_of a (erase_queue b hs) ≡ line_of a hs
  line_of-erase_other a [] n = refl
  line_of-erase_other a (g ∷ hs) n =
      ground (arith, address_eq_iff g.host b, line_of-erase_other a hs n)

  pub All-erase :
      (P : HostQueue → Type 0) (hs : List HostQueue) → All P hs → All P (erase_queue b hs)
  All-erase P [] al = tt
  All-erase P (g ∷ hs) al = elim (Bool-cases (of_host b g)) [
    | inl x ↦ rw (x, All) al.1
    | inr x ↦ rw (x, All) (al.0, All-erase P hs al.1)
  ]
