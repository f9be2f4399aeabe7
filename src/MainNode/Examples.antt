-- ===== src/MainNode/Examples.antt =====
-- Tests and instances for `MainNode`.
use distributed_math_arh.Prelude.{
  ℕ, String, ◌≡◌, refl, none, some, true, false, [], ◌∷◌, string_eq, ◌⊎◌, ◌↔◌,
}
use distributed_math_arh.Prelude.Dict.{lookup, insert, erase}
use distributed_math_arh.Outcome.{Outcome, ok, throw, curl_error}
use distributed_math_arh.Task.{TestSolveParam, range_size, slice_away}
use distributed_math_arh.Valarray.{pointwise}
use distributed_math_arh.Worker.{
  disconnect_node, deactivate, move_node, WorkerService, ComputationalNode, inactive, add_new_node,
  Answer, req_ok,
}
use distributed_math_arh.Worker.Examples.{good}
use distributed_math_arh.MainNode.{
  MainNode, success, conflict, queue_unavailable, send_to_execution, n_index, find_index, dispatch,
  share, publish_message,
}
use distributed_math_arh.MainNode.Dispatch.{send_to_execution_disconnected}
use distributed_math_arh.MainNode.Handlers.{
  Broker, prepare_queue, connect_worker, disconnect_worker, connect_publisher, prepare_exchange,
  default_exchange_name,
}
use distributed_math_arh.MainNode.Gate.{leaves, handle, disconnected_refuses}
use distributed_math_arh.MainNode.Failures.{connect_worker_unprepared, connect_publisher-connected}

abbrev worker : String → ComputationalNode
worker host = record {
  http_client = some host;
  st = inactive;
  bench_result = [];
  node_speed = 5 ∷ 5 ∷ 5 ∷ 5 ∷ 5 ∷ 5 ∷ 5 ∷ 5 ∷ 5 ∷ 5 ∷ 5 ∷ 5 ∷ 5 ∷ [];
}

abbrev two : WorkerService
two = record {
  active_nodes = ("w:1", worker "w:1") ∷ ("w:2", worker "w:2") ∷ [];
  inactive_nodes = [];
  failed_nodes = [];
  normalized = 10 ∷ 10 ∷ 10 ∷ 10 ∷ 10 ∷ 10 ∷ 10 ∷ 10 ∷ 10 ∷ 10 ∷ 10 ∷ 10 ∷ 10 ∷ [];
}

abbrev opened : MainNode ℕ
opened = record {
  user = "guest";
  password = "guest";
  q_host = "broker";
  connected = true;
  default_exchange = "testexch";
  workers = two;
  sent = [];
}

abbrev task : TestSolveParam ℕ
task = record { experiment_id = 1; system_size = 4; range_first = 0; range_second = 9; args = [] }

abbrev closed : MainNode ℕ
closed = record opened { connected = false }

disconnected_run : send_to_execution closed task ≡ (closed, ok success)
unfolding send_to_execution dispatch share n_index find_index range_size slice_away publish_message
    pointwise
disconnected_run = refl

closed_node_still_succeeds : (closed ≡ closed) × (success ≡ success)
closed_node_still_succeeds =
    send_to_execution_disconnected closed task ("w:1", worker "w:1") (("w:2", worker "w:2") ∷ [])
      closed success refl refl disconnected_run

abbrev no_answer : Answer
no_answer = record { code = req_ok; response = none }

abbrev unreachable_broker : Broker
unreachable_broker = record {
  listed = throw (curl_error "timeout");
  created = ok tt;
  bound = ok tt;
}

leaves_two :
    (handle opened (leaves "w:1" good)).0.workers.normalized
    ≡ 5 ∷ 5 ∷ 5 ∷ 5 ∷ 5 ∷ 5 ∷ 5 ∷ 5 ∷ 5 ∷ 5 ∷ 5 ∷ 5 ∷ 5 ∷ []
unfolding disconnect_worker disconnect_node deactivate move_node pointwise lookup insert erase
leaves_two = refl

abbrev accepted : Outcome (Unit {0})
accepted = ok tt

disconnected_refuses_example :
    ((handle closed (leaves "w:1" no_answer)).0 ≡ closed)
    × ((false ≡ true)
        ⊎ ((handle closed (leaves "w:1" no_answer)).1 ≡ ok (conflict queue_unavailable)))
disconnected_refuses_example = disconnected_refuses closed (leaves "w:1" no_answer) refl refl

unprepared_queue_fails :
    connect_worker opened "w:3" "w:3" unreachable_broker no_answer
    ≡ (record opened { workers = (add_new_node two "w:3").0 }, throw (curl_error "timeout"))
unfolding prepare_queue lookup
unprepared_queue_fails =
    connect_worker_unprepared opened "w:3" "w:3" unreachable_broker no_answer (curl_error "timeout")
      refl refl refl

publisher_connects :
    ((connect_publisher closed "broker" unreachable_broker accepted).0.connected ≡ true)
    ↔ (false ≡ true)
      ⊎ (prepare_exchange default_exchange_name unreachable_broker ≡ ok tt) × (accepted ≡ ok tt)
publisher_connects = connect_publisher-connected closed "broker" unreachable_broker accepted
