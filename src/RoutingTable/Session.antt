-- ===== src/RoutingTable/Session.antt =====
-- dhtcore/src/RoutingTable.cpp: sequences of operations on a table, from its construction on.
use dhtinspector.Common.{ℕ, Bool, Option, List, [], ◌∷◌}
use dhtinspector.NodeId.{NodeId}
use dhtinspector.Endpoint.{HostApi, Endpoint}
use dhtinspector.RoutingTable.{RoutingTable, make_table}
use dhtinspector.RoutingTable.Insert.{
  heard_from, queried_by, mark_pinged, failed, touch_bucket, rebuild,
}
use dhtinspector.RoutingTable.Invariant.{IsTable}
use dhtinspector.RoutingTable.Runs.{
  make_table-IsTable, heard_from-IsTable, queried_by-IsTable, mark_pinged-IsTable, failed-IsTable,
  touch_bucket-IsTable, rebuild-IsTable,
}

-- A call of a public operation that may change the table.
pub data Call : Type 0 where
  heard : NodeId → Endpoint → List ℕ → Option ℕ → ℕ → Call
  queried : NodeId → Endpoint → ℕ → Call
  timed_out : Endpoint → ℕ → Call
  pinged : Endpoint → ℕ → Call
  touched : ℕ → ℕ → Call
  rebuilt : NodeId → ℕ → Call

unfoldable pub perform : HostApi → Call → RoutingTable → RoutingTable
perform api (heard id e version rtt now) t = (heard_from api id e version rtt now t).1
perform api (queried id e now) t = (queried_by id e now t).1
perform api (timed_out e now) t = failed e now t
perform api (pinged e now) t = mark_pinged e now t
perform api (touched index now) t = touch_bucket index now t
perform api (rebuilt new_self now) t = rebuild api new_self now t

unfoldable pub run : HostApi → List Call → RoutingTable → RoutingTable
unfolding perform
run api [] t = t
run api (c ∷ cs) t = run api cs (perform api c t)

pub perform-IsTable :
    (api : HostApi) (c : Call) (t : RoutingTable) → IsTable t → IsTable (perform api c t)
unfolding perform
perform-IsTable api (heard id e version rtt now) t h =
    heard_from-IsTable api id e version rtt now t h
perform-IsTable api (queried id e now) t h = queried_by-IsTable id e now t h
perform-IsTable api (timed_out e now) t h = failed-IsTable e now t h
perform-IsTable api (pinged e now) t h = mark_pinged-IsTable e now t h
perform-IsTable api (touched index now) t h = touch_bucket-IsTable index now t h
perform-IsTable api (rebuilt new_self now) t h = rebuild-IsTable api new_self now t

run_from-IsTable :
    (api : HostApi) (cs : List Call) (t : RoutingTable) → IsTable t → IsTable (run api cs t)
unfolding run
run_from-IsTable api [] t h = h
run_from-IsTable api (c ∷ cs) t h =
    run_from-IsTable api cs (perform api c t) (perform-IsTable api c t h)

-- A new table satisfies the invariant after every sequence of operations: it has 1 to 160 buckets,
-- none holds more than 8 nodes or 8 replacements, each node stands in the bucket of the prefix that it
-- shares with our own id, and our own id is never among them.
pub run-IsTable :
    (api : HostApi) (self : NodeId) (restrict : Bool) (cs : List Call)
    → IsTable (run api cs (make_table self restrict))
run-IsTable api self restrict cs =
    run_from-IsTable api cs (make_table self restrict) (make_table-IsTable self restrict)
