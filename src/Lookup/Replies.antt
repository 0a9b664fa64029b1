-- ===== src/Lookup/Replies.antt =====
-- dhtcore/src/Lookup.cpp: what a query's callbacks and the slow timer do to the lookup.
use dhtinspector.Common.{
  ℕ, suc, ◌-◌, Bool, true, false, not, ◌&&◌, Option, none, some, List, [], ◌∷◌, ◌++◌, ltb, leb,
  ◌==◌, if◌then◌else◌, length, any, first, update_first,
}
use dhtinspector.Common.Ints.{ℤ, ltz}
use dhtinspector.Bencode.{BValue, find, string_at, integer_at, list_at, raw_span}
use dhtinspector.Bep44.{Crypto, immutable_target, mutable_target, signing_buffer, verify}
use dhtinspector.Endpoint.{HostApi, Endpoint, Family, endpoint_eq}
use dhtinspector.Krpc.Compact.{CompactNode, decode_nodes, decode_peers}
use dhtinspector.Rpc.Reply.{RpcReply, is_response}
use dhtinspector.Lookup.{
  Kind, CandidateState, Candidate, Lookup, find_node, get_peers, get_item, in_flight, slow,
  responded, failed, is_waiting, admit, step,
}
use dhtinspector.NodeId.{id_eq}

abbrev pub asks : Endpoint → Candidate → Bool
asks e c = endpoint_eq c.endpoint e

abbrev pub is_in_flight : CandidateState → Bool
is_in_flight in_flight = true
is_in_flight _ = false

unfoldable pub mark_sent : ℕ → Candidate → Candidate
mark_sent now c = if is_in_flight c.state then record c { sent_at = now } else c

-- onSent, on the first candidate at the endpoint.
unfoldable pub on_sent : ℕ → Endpoint → Lookup → Lookup
unfolding mark_sent
on_sent now e l = record l { candidates = update_first (asks e) (mark_sent now) l.candidates }

unfoldable pub is_slow_now : ℕ → ℕ → Candidate → Bool
is_slow_now now slow_after c =
    is_in_flight c.state && (ltb 0 c.sent_at && leb slow_after (now - c.sent_at))

-- checkSlow's loop: the candidates, and how many were promoted.
unfoldable pub promote : ℕ → ℕ → List Candidate → List Candidate × ℕ
unfolding is_slow_now
promote now slow_after [] = ([], 0)
promote now slow_after (c ∷ cs) =
    let rest = promote now slow_after cs in
    if is_slow_now now slow_after c
    then (record c { state = slow } ∷ rest.0, suc rest.1)
    else (c ∷ rest.0, rest.1)

unfoldable pub take_promoted : Lookup → List Candidate × ℕ → Lookup
take_promoted l r = record l {
  candidates = r.0;
  slots = l.slots - r.1;
  slow_timer = l.slow_timer && not (l.slots - r.1 == 0);
}

unfoldable pub check_slow : ℕ → Lookup → Lookup × List Endpoint
unfolding promote take_promoted step
check_slow now l =
    let r = promote now l.slow_after l.candidates in
    if l.finished
    then (l, [])
    else (if r.1 == 0 then (take_promoted l r, []) else step now (take_promoted l r))

-- An item whose key and signature have their sizes, that hashes to the target, is newer than the
-- one held and is signed.
unfoldable pub accepts_mutable : Crypto → List ℕ → List ℕ → List ℕ → ℤ → Lookup → Bool
accepts_mutable crypto raw public_key signature sequence l =
    length public_key == 32
    && (length signature == 64
        && (id_eq (mutable_target crypto public_key l.salt) l.target
            && (ltz l.item.sequence sequence
                && verify crypto signature (signing_buffer l.salt sequence raw) public_key)))

unfoldable pub collect_mutable : Crypto → List ℕ → List ℕ → List ℕ → ℤ → Lookup → Lookup
unfolding accepts_mutable
collect_mutable crypto raw public_key signature sequence l =
    if accepts_mutable crypto raw public_key signature sequence l
    then record l {
      item = record {
        found = true;
        is_mutable = true;
        value = raw;
        public_key = public_key;
        signature = signature;
        sequence = sequence;
      };
    }
    else l

unfoldable pub collect_immutable : Crypto → List ℕ → Lookup → Lookup
collect_immutable crypto raw l =
    if not l.item.found && id_eq (immutable_target crypto raw) l.target
    then record l { item = record (l.item) { found = true; is_mutable = false; value = raw } }
    else l

-- The three fields of a mutable item, if all are there.
unfoldable pub collect_fields :
    Crypto → List ℕ → Option (List ℕ) → Option (List ℕ) → Option ℤ → Lookup → Lookup
unfolding collect_mutable collect_immutable
collect_fields crypto raw (some public_key) (some signature) (some sequence) l =
    collect_mutable crypto raw public_key signature sequence l
collect_fields crypto raw _ _ _ l = collect_immutable crypto raw l

unfoldable pub collect_raw : Crypto → List ℕ → BValue → Lookup → Lookup
unfolding collect_fields
collect_raw crypto [] body l = l
collect_raw crypto (c ∷ cs) body l =
    collect_fields crypto (c ∷ cs) (string_at (b'k' ∷ []) body)
      (string_at (b's' ∷ b'i' ∷ b'g' ∷ []) body) (integer_at (b's' ∷ b'e' ∷ b'q' ∷ []) body) l

-- What the reply's `v` adds; none of it without one.
unfoldable pub collect_value : Crypto → List ℕ → BValue → Option BValue → Lookup → Lookup
unfolding collect_raw
collect_value crypto datagram body none l = l
collect_value crypto datagram body (some v) l = collect_raw crypto (raw_span v datagram) body l

unfoldable pub collect_item : Crypto → RpcReply → Lookup → Lookup
unfolding collect_value
collect_item crypto reply l =
    collect_value crypto reply.datagram reply.message.body (find (b'v' ∷ []) reply.message.body) l

abbrev pub max_sightings : ℕ
max_sightings = 2000

unfoldable pub see_peer : Endpoint → Endpoint → Lookup → Lookup
see_peer source peer l = record l {
  sightings =
      (if ltb (length l.sightings) max_sightings
        then l.sightings ++ (peer, source) ∷ []
        else l.sightings);
  peers = (if any (endpoint_eq peer) l.peers then l.peers else l.peers ++ peer ∷ []);
}

unfoldable pub see_peers : Endpoint → List Endpoint → Lookup → Lookup
unfolding see_peer
see_peers source [] l = l
see_peers source (p ∷ ps) l = see_peers source ps (see_peer source p l)

unfoldable pub admit_all : HostApi → ℕ → List CompactNode → Lookup → Lookup
admit_all api hops [] l = l
admit_all api hops (n ∷ ns) l = admit_all api hops ns (admit api n.id n.endpoint hops l)

unfoldable pub nodes_key : Family → List ℕ
nodes_key Family.ipv4_family = b'n' ∷ b'o' ∷ b'd' ∷ b'e' ∷ b's' ∷ []
nodes_key Family.ipv6_family = b'n' ∷ b'o' ∷ b'd' ∷ b'e' ∷ b's' ∷ b'6' ∷ []

unfoldable pub found_nodes : HostApi → Family → Option (List ℕ) → List CompactNode
found_nodes api family none = []
found_nodes api family (some nodes) = (decode_nodes api nodes family).nodes

abbrev pub values_key : List ℕ
values_key = b'v' ∷ b'a' ∷ b'l' ∷ b'u' ∷ b'e' ∷ b's' ∷ []

-- What the kind of lookup takes from the reply besides its nodes.
unfoldable pub collect : HostApi → Crypto → Endpoint → RpcReply → Kind → Lookup → Lookup
unfolding collect_item see_peers
collect api crypto e reply find_node l = l
collect api crypto e reply get_item l = collect_item crypto reply l
collect api crypto e reply get_peers l =
    see_peers e (decode_peers api (list_at values_key reply.message.body) l.family) l

token_of : Option (List ℕ) → List ℕ → List ℕ
token_of none old = old
token_of (some token) old = token

unfoldable pub mark_responded : BValue → Candidate → Candidate
unfolding token_of
mark_responded body c = record c {
  state = responded;
  token = token_of (string_at (b't' ∷ b'o' ∷ b'k' ∷ b'e' ∷ b'n' ∷ []) body) c.token;
}

unfoldable pub mark_failed : Candidate → Candidate
mark_failed c = record c { state = failed }

-- The counters once the candidate in state `s` no longer waits.
unfoldable pub release : CandidateState → Lookup → Lookup
release s l = record l {
  slots = (if is_in_flight s then l.slots - 1 else l.slots);
  outstanding = l.outstanding - 1;
}

-- onReply for a response, up to its step(); the inserts do not step.
unfoldable pub on_response : HostApi → Crypto → Endpoint → RpcReply → Candidate → Lookup → Lookup
unfolding mark_responded release collect admit_all found_nodes nodes_key
on_response api crypto e reply c l =
    admit_all api (suc c.hops)
      (found_nodes api l.family (string_at (nodes_key l.family) reply.message.body))
      (collect api crypto e reply l.kind (record (release c.state l) {
        candidates = update_first (asks e) (mark_responded reply.message.body) l.candidates;
        answers = suc l.answers;
      }))

unfoldable pub on_failure : Endpoint → Candidate → Lookup → Lookup
unfolding mark_failed release
on_failure e c l = record (release c.state l) {
  candidates = update_first (asks e) mark_failed l.candidates;
}

-- onReply up to its step(), for the first candidate at the endpoint.
unfoldable pub reply_to :
    HostApi → ℕ → Crypto → Endpoint → RpcReply → Option Candidate → Lookup → Lookup × List Endpoint
unfolding on_response on_failure step
reply_to api now crypto e reply none l = (l, [])
reply_to api now crypto e reply (some c) l =
    if is_waiting c.state
    then step now
        (if is_response reply.status then on_response api crypto e reply c l else on_failure e c l)
    else (l, [])

unfoldable pub on_reply :
    HostApi → ℕ → Crypto → Endpoint → RpcReply → Lookup → Lookup × List Endpoint
unfolding reply_to
on_reply api now crypto e reply l =
    if l.finished then (l, []) else reply_to api now crypto e reply (first (asks e) l.candidates) l
