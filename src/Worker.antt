-- ===== src/Worker.antt =====
-- mainNode/include/service/WorkerManagementService.h and mainNode/src/service/
-- WorkerManagementService.cpp: the worker nodes of the cluster and their speeds.
-- The outer map from a status to its nodes is a record with a field for each status; that a status
-- was never asked for and that it has no nodes are not told apart. `st_`, which no method reads, is
-- kept. What a worker answers over HTTP is an argument of the methods that send a request.
pub mod Store
pub mod Sums
pub mod Invariant
pub mod Branches
pub mod Status
pub mod Examples
use distributed_math_arh.Prelude.{
  ℕ, String, Bool, true, false, not, ◌&&◌, List, [], ◌∷◌, Option, none, some, nat_beq, leb, length,
  replicate, if◌then◌else◌, string_eq,
}
use distributed_math_arh.Prelude.Dict.{Dict, lookup, contains, insert, erase}
use distributed_math_arh.Outcome.{Outcome, ok, ◌>>=◌, deref}
use distributed_math_arh.Valarray.{add_assign, sub_assign, divide_scalar}
use distributed_math_arh.Continuous.{JsonReader, size_of_bool, json_to_continuous}

pub data NodeStatus : Type 0 where
  active inactive failed : NodeStatus

abbrev pub bench_infinity : ℕ
bench_infinity = 1_000_000_000_000

-- kNValues.size()
abbrev pub bench_count : ℕ
bench_count = 13

unfoldable pub default_bench : ℕ → List ℕ
default_bench init = replicate bench_count init

pub record ComputationalNode : Type 0 where
  -- an empty pointer in a node that `operator[]` made
  pub http_client : Option String
  pub st : NodeStatus
  pub bench_result : List ℕ
  pub node_speed : List ℕ

abbrev pub empty_node : ComputationalNode
empty_node = record { http_client = none; st = active; bench_result = []; node_speed = [] }

-- The node with the benchmark that was read, and its speeds where it has none.
abbrev pub with_bench : ComputationalNode → List ℕ → Outcome ComputationalNode
with_bench node bench =
    let recomputed = divide_scalar bench_infinity bench in
    if nat_beq (length node.node_speed) 0
    then (do speed ← recomputed; ok (record node { bench_result = bench; node_speed = speed }))
    else ok (record node { bench_result = bench })

-- The size argument of the call is the flag `true`; jsoncpp may fail to read the entry.
unfoldable pub recompute_coefficients : JsonReader ℕ → ComputationalNode → Outcome ComputationalNode
recompute_coefficients val node =
    json_to_continuous val (size_of_bool true) true >>= λ bench. with_bench node bench

-- What drogon's client hands back. The response is empty where the request failed.
pub data ReqResult : Type 0 where
  req_ok bad_server_address other_failure : ReqResult

-- The body of an answer: what jsoncpp reads of its "bench" member, its "status" member, and the rest.
pub record WorkerJson : Type 0 where
  pub bench : JsonReader ℕ
  pub status : Option ℕ
  pub content : String

pub record HttpResponse : Type 0 where
  pub status_code : ℕ
  pub json_object : Option WorkerJson

pub record Answer : Type 0 where
  pub code : ReqResult
  pub response : Option HttpResponse

-- The messages that the methods format, each with the host that it names.
pub data Notice : Type 0 where
  already_connected unreachable connection_error not_connected disconnection_error : String → Notice

-- The `Json::Value` that a method returns.
pub data Reply : Type 0 where
  empty_reply : Reply
  refused : ℕ → Notice → Option WorkerJson → Reply
  answered : WorkerJson → Reply

-- reply["status"], if it is a member
abbrev pub reply_status : Reply → Option ℕ
reply_status empty_reply = none
reply_status (refused s m o) = some s
reply_status (answered j) = j.status

pub record WorkerService : Type 0 where
  pub active_nodes : Dict String ComputationalNode
  pub inactive_nodes : Dict String ComputationalNode
  pub failed_nodes : Dict String ComputationalNode
  pub normalized : List ℕ

unfoldable pub new_service : WorkerService
new_service = record {
  active_nodes = [];
  inactive_nodes = [];
  failed_nodes = [];
  normalized = default_bench 0;
}

abbrev pub nodes : WorkerService → NodeStatus → Dict String ComputationalNode
nodes s active = s.active_nodes
nodes s inactive = s.inactive_nodes
nodes s failed = s.failed_nodes

abbrev pub set_nodes : WorkerService → NodeStatus → Dict String ComputationalNode → WorkerService
set_nodes s active m = record s { active_nodes = m }
set_nodes s inactive m = record s { inactive_nodes = m }
set_nodes s failed m = record s { failed_nodes = m }

-- worker_nodes_[status][host], which makes a node where there is none
abbrev pub or_empty : Option ComputationalNode → ComputationalNode
or_empty none = empty_node
or_empty (some n) = n

abbrev pub node_at : WorkerService → NodeStatus → String → ComputationalNode
node_at s st host = or_empty (lookup host (nodes s st))

unfoldable pub move_node : WorkerService → String → NodeStatus → NodeStatus → WorkerService
move_node s host from to =
    let moved = node_at s from host in
    let s' = set_nodes s from (erase host (nodes s from)) in
    set_nodes s' to (insert host moved (nodes s' to))

-- The node that `AddNewNode` makes; its client is one of "http://" + host.
abbrev pub fresh_node : String → ComputationalNode
fresh_node host = record {
  http_client = some host;
  st = inactive;
  bench_result = [];
  node_speed = [];
}

unfoldable pub add_new_node : WorkerService → String → WorkerService × Reply
add_new_node s host =
    if not (contains host s.inactive_nodes) && not (contains host s.active_nodes)
    then (set_nodes s inactive (insert host (fresh_node host) s.inactive_nodes), empty_reply)
    else if contains host s.active_nodes
    then (s, refused 409 (already_connected host) none)
    else (s, empty_reply)

-- The part of a method that follows an answer with a status below 400.
unfoldable pub activate : WorkerService → String → WorkerJson → Outcome WorkerService
unfolding recompute_coefficients move_node
activate s host json = do
  node ← recompute_coefficients json.bench (node_at s inactive host)
  let moved =
      move_node (set_nodes s inactive (insert host node s.inactive_nodes)) host inactive active
  sum ← add_assign moved.normalized (node_at moved active host).node_speed
  ok (record moved { normalized = sum })

unfoldable pub deactivate : WorkerService → String → Outcome WorkerService
unfolding move_node
deactivate s host = do
  let moved = move_node s host active inactive
  rest ← sub_assign moved.normalized (node_at moved inactive host).node_speed
  ok (record moved { normalized = rest })

-- The null client of a host that is not in the map is followed, as is the null response of a request
-- that failed otherwise than by a bad address.
unfoldable pub connect_node : WorkerService → String → Answer → Outcome (WorkerService × Reply)
connect_node s host answer = do
  _ ← deref (node_at s inactive host).http_client
  elim answer.code [
    | bad_server_address ↦ ok (s, refused 504 (unreachable host) none)
    | _ ↦ do
      resp ← deref answer.response
      json ← deref resp.json_object
      if leb 400 resp.status_code
          then ok (s, refused resp.status_code (connection_error host) (some json))
          else (do s' ← activate s host json; ok (s', answered json))
  ]

unfoldable pub disconnect_node : WorkerService → String → Answer → Outcome (WorkerService × Reply)
disconnect_node s host answer =
    if not (contains host s.active_nodes)
    then ok (s, refused 409 (not_connected host) none)
    else (do
      _ ← deref (node_at s active host).http_client
      elim answer.code [
        | bad_server_address ↦ ok (s, refused 504 (unreachable host) none)
        | _ ↦ do
          resp ← deref answer.response
          json ← deref resp.json_object
          if leb 400 resp.status_code
              then ok (s, refused resp.status_code (disconnection_error host) (some json))
              else (do s' ← deactivate s host; ok (s', answered json))
      ])
