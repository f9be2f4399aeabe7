-- ===== src/CompNode.antt =====
-- computationalNode/src/service/CompNodeService.cpp with src/controller/CompNode.cpp, and the benchmark
-- of src/service/BenchmarkRunnerService.cpp: a worker that is connected to a queue of the cluster, and
-- that measures its speed. What jsoncpp reads of a request's body, and the times of the benchmark, are
-- arguments. The benchmark runs in a thread of its own: its start and its end are two operations.
pub mod Joining
pub mod Benchmark
pub mod Examples
use distributed_math_arh.Prelude.{
  ℕ, String, Bool, true, false, not, List, [], ◌∷◌, Option, none, some, if◌then◌else◌, length,
  nat_beq, get_or, ◌*◌, ◌/◌, ◌%◌, u64,
}
use distributed_math_arh.Outcome.{
  Outcome, ok, throw, undefined, runtime_error, invalid_argument, ◌>>=◌,
}
use distributed_math_arh.Json.{Json, member, as_string}
use distributed_math_arh.Entities.{Reals}
use distributed_math_arh.ConnectionString.{AmqpCStr, new_amqp, amqp_verbose_name}
use distributed_math_arh.Amqp.{
  AmqpService, Event, disconnect, Connected, waiting, returns, raises, connect,
}

-- `consumer` is consumer_service_ but for its connection string, `address`, and its queue.
pub record ComputationNode : Type 0 where
  pub consumer : AmqpService
  pub address : AmqpCStr
  pub queue : String
  pub bench_res : List ℕ
  pub computed : Bool

pub data NodeProblem : Type 0 where
  not_in_a_cluster : NodeProblem
  connected_to : String → NodeProblem
  queue_connection_error : String → NodeProblem

-- The members of an answer; "status" is missing where the code does not set it.
pub record NodeReply : Type 0 where
  pub request : String
  pub status : Option ℕ
  pub message : Option NodeProblem
  pub worker_status : Option String
  pub bench : Option (List ℕ)
  pub input : Option String
  pub reply_name : Option String

abbrev pub reply_to : String → NodeReply
reply_to request = record {
  request = request;
  status = none;
  message = none;
  worker_status = none;
  bench = none;
  input = none;
  reply_name = none;
}

-- The code of the HTTP response: res["status"].asUInt(), 0 where it is missing.
abbrev pub code_of : Option ℕ → ℕ
code_of none = 0
code_of (some code) = code

unfoldable pub response_code : NodeReply → ℕ
response_code r = code_of r.status

unfoldable pub get_status : ComputationNode → NodeReply
get_status node = record (reply_to "status") {
  worker_status = some (if node.consumer.connected then "running" else "not running");
  bench = if node.computed then some node.bench_res else none;
  status = some 200;
}

unfoldable pub disconnect_node_service : ComputationNode → List Event → ComputationNode × NodeReply
disconnect_node_service node events =
    if not node.consumer.connected
    then (
      node,
      record (reply_to "disconnect") { status = some 409; message = some not_in_a_cluster },
    )
    else (
      record node { consumer = disconnect node.consumer events },
      record (reply_to "disconnect") { status = some 200 },
    )

-- SetParameters
unfoldable pub set_parameters : ComputationNode → AmqpCStr → String → ComputationNode
set_parameters node c name = record node {
  consumer = record node.consumer { c_string = c.amqp_formatted };
  address = c;
  queue = name;
}

-- How the call of consumer_service_.Connect() ends the request. There is no answer while it waits, and
-- only a `runtime_error` is caught.
abbrev pub after_connect :
    ComputationNode → NodeReply → Outcome Connected → ComputationNode × Outcome (Option NodeReply)
after_connect node res (ok (waiting s)) = (record node { consumer = s }, ok none)
after_connect node res (ok (returns s)) =
    (record node { consumer = s }, ok (some (record res { status = some 200 })))
after_connect node res (ok (raises s error)) = (
  record node { consumer = s },
  ok (some (record res { status = some 409; message = some (queue_connection_error error) })),
)
after_connect node res (throw (runtime_error error)) = (
  node,
  ok (some (record res { status = some 409; message = some (queue_connection_error error) })),
)
after_connect node res (throw x) = (node, throw x)
after_connect node res undefined = (node, undefined)

-- What follows once the four members are read.
unfoldable pub connect_to :
    ComputationNode
    → String × String × String × String
    → List Event
    → List Event
    → ComputationNode × Outcome (Option NodeReply)
connect_to node (ip, name, user, pass) events closing =
    let res = record (reply_to "connect") {
      input = some ip;
      reply_name = some name;
      bench = some node.bench_res;
    } in
    if node.consumer.connected
    then (
      node,
      ok (
          some (record res {
            status = some 409;
            message = some (connected_to (amqp_verbose_name node.address));
          })),
    )
    else (let ready = set_parameters node (new_amqp ip user pass false) name in
        after_connect ready res (connect ready.consumer events closing))

abbrev pub read_then :
    ComputationNode
    → Outcome (String × String × String × String)
    → List Event
    → List Event
    → ComputationNode × Outcome (Option NodeReply)
read_then node (ok members) events closing = connect_to node members events closing
read_then node (throw x) events closing = (node, throw x)
read_then node undefined events closing = (node, undefined)

module _ {F : Type 0} (reals : Reals F) where
  abbrev text_member : Json F → String → Outcome String
  text_member val name = do v ← member val name; as_string reals.show v

  unfoldable pub read_members : Json F → Outcome (String × String × String × String)
  read_members val = do
    ip ← text_member val "ip"
    name ← text_member val "name"
    user ← text_member val "user"
    pass ← text_member val "password"
    ok (ip, name, user, pass)

  -- `body` is what is read of the request, if it can be read. Where it cannot, the status is written
  -- into what was to be read, and not into the answer.
  unfoldable pub connect_node_service :
      ComputationNode
      → Option (Json F)
      → List Event
      → List Event
      → ComputationNode × Outcome (Option NodeReply)
  connect_node_service node none events closing = (node, ok (some (reply_to "connect")))
  connect_node_service node (some val) events closing =
      read_then node (read_members val) events closing

-- BenchmarkRunner(nss, iter_counts)
unfoldable pub new_benchmark : List ℕ → List ℕ → Outcome (List (ℕ × ℕ))
new_benchmark [] [] = ok []
new_benchmark (n ∷ nss) (c ∷ counts) = do later ← new_benchmark nss counts; ok ((n, c) ∷ later)
new_benchmark _ _ = throw (invalid_argument "ns and iter_counts must have the same size")

-- iter_num_
abbrev pub iter_num : ℕ
iter_num = 10000

-- RunSingleBenchmark, for the time that the loop of `conf_num` configurations took
unfoldable pub run_single_benchmark : ℕ → ℕ → Outcome ℕ
run_single_benchmark conf_num time =
    if nat_beq conf_num 0 then undefined else ok (time * (iter_num / conf_num) % u64)

-- Run(), the first of its results; `time` is how long a number of dipoles takes.
unfoldable pub run_benchmark : (ℕ → ℕ → ℕ) → List (ℕ × ℕ) → Outcome (List ℕ)
run_benchmark time [] = ok []
run_benchmark time ((n, conf_num) ∷ later) = do
  result ← run_single_benchmark conf_num (time n conf_num)
  results ← run_benchmark time later
  ok (result ∷ results)

-- RunBench() until its thread starts, and the end of the thread
unfoldable pub start_bench : ComputationNode → ComputationNode
start_bench node = record node { computed = false }

unfoldable pub finish_bench : ComputationNode → List ℕ → ComputationNode
finish_bench node results = record node { bench_res = results; computed = true }

-- The numbers and counts of ComputationNodeService(), which starts its benchmark
abbrev pub node_ns : List ℕ
node_ns = 1 ∷ 2 ∷ 4 ∷ 5 ∷ 8 ∷ 10 ∷ 20 ∷ 40 ∷ 50 ∷ 100 ∷ 200 ∷ 400 ∷ 500 ∷ []

abbrev pub node_iter_counts : List ℕ
node_iter_counts = 1000 ∷ 1000 ∷ 1000 ∷ 1000 ∷ 1000 ∷ 1000 ∷ 100 ∷ 100 ∷ 100 ∷ 25 ∷ 25 ∷ 5 ∷ 5 ∷ []
