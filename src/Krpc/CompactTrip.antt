-- ===== src/Krpc/CompactTrip.antt =====
-- dhtcore/src/Krpc.cpp: a compact node list reads back as the nodes of its family.
use dhtinspector.Common.{
  ℕ, zero, suc, ◌+◌, ◌-◌, ◌%◌, ◌≤◌, ◌<◌, ◌^◌, ◌≡◌, ◌≢◌, refl, ap, ◌∙◌, Bool, true, false, some,
  List, [], ◌∷◌, ◌++◌, append_assoc, ltb, ltb_of_le, ◌==◌, length, length-append, drop, take-append,
  take-append_of, drop-append_of, keep, keep-true, keep-false, sym, All, Bool-cases, inl, inr,
  arith,
}
use dhtinspector.Endpoint.{
  HostApi, Address, Endpoint, Family, family_of, family_eq, to_compact, to_be16, to_be32, null,
  ipv4, ipv6, normalize_address,
}
use dhtinspector.Endpoint.Compact.{IsNormal, from_compact-to_compact}
use dhtinspector.NodeId.{from_bytes}
use dhtinspector.Krpc.Compact.{
  CompactNode, encode_nodes, entry_size, decode_entry, decode_entries, decode_nodes,
}

-- A node as the program holds it: 20 bytes of id and a normal endpoint.
pub record IsContact (api : HostApi) (n : CompactNode) : Type 0 where
  pub sized : length n.id ≡ 20
  pub normal : IsNormal api n.endpoint.address
  pub set : n.endpoint.address ≢ null
  pub port : n.endpoint.port < 2 ^ 16

abbrev pub of_family : HostApi → Family → CompactNode → Bool
of_family api family n = family_eq (family_of api n.endpoint.address) family

length-compact_at :
    (api : HostApi) (family : Family) (a : Address) (port : ℕ)
    → IsNormal api a
    → a ≢ null
    → family_eq (family_of api a) family ≡ true
    → 20 + length (to_compact (record { address = a; port = port })) ≡ entry_size family
unfolding family_of normalize_address to_compact to_be16 to_be32
length-compact_at api family null port h k f = absurd (k refl)
length-compact_at api Family.ipv4_family (ipv4 a) port h k f = refl
length-compact_at api Family.ipv6_family (ipv4 a) port h k f = cc
length-compact_at api Family.ipv4_family (ipv6 bytes scope) port h k f = ground arith
length-compact_at api Family.ipv6_family (ipv6 bytes scope) port h k f =
    omega (arith, length-append bytes (to_be16 port), h.0)

length-compact :
    (api : HostApi) (family : Family) (e : Endpoint)
    → IsNormal api e.address
    → e.address ≢ null
    → family_eq (family_of api e.address) family ≡ true
    → 20 + length (to_compact e) ≡ entry_size family
length-compact api family e = length-compact_at api family e.address e.port

entry-ge : (family : Family) → 20 ≤ entry_size family
entry-ge Family.ipv4_family = omega arith
entry-ge Family.ipv6_family = omega arith

decode_entry-contact :
    (api : HostApi) (family : Family) (n : CompactNode) (rest : List ℕ)
    → IsContact api n
    → of_family api family n ≡ true
    → decode_entry api (entry_size family) (n.id ++ (to_compact n.endpoint ++ rest)) ≡ some n
unfolding decode_entry from_bytes
decode_entry-contact api family n rest c f =
    let len = length-compact api family n.endpoint c.normal c.set f in
    let short : entry_size family - 20 ≡ length (to_compact n.endpoint) = omega arith in
    let sized : (length n.id == 20) ≡ true = ground (arith, c.sized) in
    rw
      (
        take-append_of 20 n.id (to_compact n.endpoint ++ rest) c.sized,
        drop-append_of 20 n.id (to_compact n.endpoint ++ rest) c.sized,
        sized,
        short,
        take-append (to_compact n.endpoint) rest,
        from_compact-to_compact api n.endpoint c.normal c.set c.port,
      )
      refl

length-entry :
    (api : HostApi) (family : Family) (n : CompactNode)
    → IsContact api n
    → of_family api family n ≡ true
    → length (n.id ++ to_compact n.endpoint) ≡ entry_size family
length-entry api family n c f = omega (
  arith,
  length-append n.id (to_compact n.endpoint),
  length-compact api family n.endpoint c.normal c.set f,
  c.sized,
)

encode_nodes-hit :
    (api : HostApi) (family : Family) (n : CompactNode) (ns : List CompactNode)
    → of_family api family n ≡ true
    → encode_nodes api (n ∷ ns) family
      ≡ n.id ++ (to_compact n.endpoint ++ encode_nodes api ns family)
unfolding encode_nodes
encode_nodes-hit api family n ns f = rw f refl

encode_nodes-miss :
    (api : HostApi) (family : Family) (n : CompactNode) (ns : List CompactNode)
    → of_family api family n ≡ false
    → encode_nodes api (n ∷ ns) family ≡ encode_nodes api ns family
unfolding encode_nodes
encode_nodes-miss api family n ns f = rw f refl

decode_entries-short :
    (api : HostApi) (rounds entry : ℕ) → 0 < entry → decode_entries api rounds entry [] ≡ []
unfolding decode_entries
decode_entries-short api zero entry h = refl
decode_entries-short api (suc rounds) entry h =
    let small : ltb 0 entry ≡ true = ground arith in rw small refl

decode_entries-step :
    (api : HostApi) (rounds : ℕ) (family : Family) (n : CompactNode) (rest : List ℕ)
    → IsContact api n
    → of_family api family n ≡ true
    → decode_entries api (suc rounds) (entry_size family) (n.id ++ (to_compact n.endpoint ++ rest))
      ≡ n ∷ decode_entries api rounds (entry_size family) rest
unfolding decode_entries
decode_entries-step api rounds family n rest c f =
    let len = length-entry api family n c f in
    let enough = ltb_of_le (length (n.id ++ (to_compact n.endpoint ++ rest))) (entry_size family) (
      omega (
        arith,
        length-append n.id (to_compact n.endpoint ++ rest),
        length-append (to_compact n.endpoint) rest,
        length-append n.id (to_compact n.endpoint),
      )) in
    let rest_of : drop (entry_size family) (n.id ++ (to_compact n.endpoint ++ rest)) ≡ rest =
      rw (← append_assoc n.id (to_compact n.endpoint) rest)
        (drop-append_of (entry_size family) (n.id ++ to_compact n.endpoint) rest len) in
    rw (enough, decode_entry-contact api family n rest c f, rest_of) refl

length-hit :
    (api : HostApi) (family : Family) (n : CompactNode) (ns : List CompactNode)
    → IsContact api n
    → of_family api family n ≡ true
    → length (n.id ++ (to_compact n.endpoint ++ encode_nodes api ns family))
      ≡ entry_size family + length (encode_nodes api ns family)
length-hit api family n ns c f = omega (
  arith,
  length-append n.id (to_compact n.endpoint ++ encode_nodes api ns family),
  length-append (to_compact n.endpoint) (encode_nodes api ns family),
  length-append n.id (to_compact n.endpoint),
  length-entry api family n c f,
)

decode_entries-encode_nodes :
    (api : HostApi) (family : Family) (rounds : ℕ) (ns : List CompactNode)
    → All (IsContact api) ns
    → length (encode_nodes api ns family) ≤ rounds
    → decode_entries api rounds (entry_size family) (encode_nodes api ns family)
      ≡ keep (of_family api family) ns
decode_entries-encode_nodes api family rounds [] c h =
    unfold encode_nodes in
    decode_entries-short api rounds (entry_size family) (omega (arith, entry-ge family))
decode_entries-encode_nodes api family zero (n ∷ ns) c h =
    elim (Bool-cases (of_family api family n)) [
      | inr miss ↦
          let e = encode_nodes-miss api family n ns miss in
          rw e (decode_entries-encode_nodes api family zero ns c.1 (omega (arith, ap length e)))
          ∙ sym (keep-false (of_family api family) n ns miss)
      | inl hit ↦ absurd (
          omega (
            arith,
            ap length (encode_nodes-hit api family n ns hit),
            length-hit api family n ns c.0 hit,
            entry-ge family,
          ))
    ]
decode_entries-encode_nodes api family (suc rounds) (n ∷ ns) c h =
    elim (Bool-cases (of_family api family n)) [
      | inr miss ↦
          let e = encode_nodes-miss api family n ns miss in
          rw e (
            decode_entries-encode_nodes api family (suc rounds) ns c.1 (omega (arith, ap length e)))
          ∙ sym (keep-false (of_family api family) n ns miss)
      | inl hit ↦
          let e = encode_nodes-hit api family n ns hit in
          let len = length-hit api family n ns c.0 hit in
          rw e (decode_entries-step api rounds family n (encode_nodes api ns family) c.0 hit)
          ∙ ap (◌∷◌ n) (
              decode_entries-encode_nodes api family rounds ns c.1
                (omega (arith, ap length e, len, entry-ge family)))
          ∙ sym (keep-true (of_family api family) n ns hit)
    ]

whole_entries :
    (api : HostApi) (family : Family) (ns : List CompactNode)
    → All (IsContact api) ns
    → length (encode_nodes api ns family) % entry_size family ≡ 0
whole_entries api family [] c = unfold encode_nodes in whole_zero family
  where
    whole_zero : (family : Family) → 0 % entry_size family ≡ 0
    whole_zero Family.ipv4_family = refl
    whole_zero Family.ipv6_family = refl
whole_entries api family (n ∷ ns) c = elim (Bool-cases (of_family api family n)) [
  | inr miss ↦ rw (encode_nodes-miss api family n ns miss) (whole_entries api family ns c.1)
  | inl hit ↦
      whole_step family (length (encode_nodes api (n ∷ ns) family))
        (length (encode_nodes api ns family))
        (omega (
          arith,
          ap length (encode_nodes-hit api family n ns hit),
          length-hit api family n ns c.0 hit,
        ))
        (whole_entries api family ns c.1)
]
  where
    whole_step :
        (family : Family) (a b : ℕ)
        → a ≡ entry_size family + b
        → b % entry_size family ≡ 0
        → a % entry_size family ≡ 0
    whole_step Family.ipv4_family a b e h = omega arith
    whole_step Family.ipv6_family a b e h = omega arith

-- A list of nodes with 20-byte ids and normal, non-null endpoints that was encoded for a family reads back, whole, as the nodes of that family in order.
pub decode_nodes-encode_nodes :
    (api : HostApi) (family : Family) (ns : List CompactNode)
    → All (IsContact api) ns
    → decode_nodes api (encode_nodes api ns family) family
      ≡ record { nodes = keep (of_family api family) ns; malformed = false }
unfolding decode_nodes
decode_nodes-encode_nodes api family ns c =
    let whole = whole_entries api family ns c in
    let nodes =
      decode_entries-encode_nodes api family (length (encode_nodes api ns family)) ns c
        (omega arith) in
    rw (whole, nodes) refl
