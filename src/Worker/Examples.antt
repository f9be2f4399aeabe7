-- ===== src/Worker/Examples.antt =====
-- Tests and instances for `Worker`.
use distributed_math_arh.Prelude.{
  ℕ, ◌≡◌, refl, none, some, [], ◌∷◌, List, replicate, arith, string_eq, inl,
}
use distributed_math_arh.Prelude.Dict.{lookup, insert, erase}
use distributed_math_arh.Outcome.{Outcome, ok, throw, undefined, logic_error}
use distributed_math_arh.Continuous.{JsonReader, json_to_continuous, read_entries}
use distributed_math_arh.Valarray.{divide_scalar, pointwise}
use distributed_math_arh.Worker.{
  WorkerService, ComputationalNode, WorkerJson, Answer, HttpResponse, inactive, answered, refused,
  already_connected, req_ok, add_new_node, activate, deactivate, recompute_coefficients, move_node,
  default_bench, connect_node, disconnect_node, fresh_node,
}
use distributed_math_arh.Worker.Sums.{IsConsistent}
use distributed_math_arh.Worker.Invariant.{
  get_or-replicate_zero, add_new_node-IsConsistent, connect_node-IsConsistent,
  disconnect_node-IsConsistent,
}
use distributed_math_arh.Worker.Branches.{adds, refused_keeps_service, connect_node_first, serve}
use distributed_math_arh.Worker.Status.{status_of, add_new_node-status}

abbrev zeros : List ℕ
zeros = replicate 13 0

-- A node that was connected once and has its speeds.
abbrev spare : ComputationalNode
spare = record {
  http_client = some "w:1";
  st = inactive;
  bench_result = [];
  node_speed = 5 ∷ 5 ∷ 5 ∷ 5 ∷ 5 ∷ 5 ∷ 5 ∷ 5 ∷ 5 ∷ 5 ∷ 5 ∷ 5 ∷ 5 ∷ [];
}

abbrev idle : WorkerService
idle = record {
  active_nodes = [];
  inactive_nodes = ("w:1", spare) ∷ [];
  failed_nodes = [];
  normalized = zeros;
}

-- A list whose first entry is read so.
abbrev bench_of : Outcome ℕ → JsonReader ℕ
bench_of o = record {
  size = 1;
  size_field = throw logic_error;
  entry = λ i. o;
  data_entry = λ i. throw logic_error;
}

abbrev report : WorkerJson
report = record { bench = bench_of (ok 7); status = some 200; content = "connected" }

abbrev pub good : Answer
good = record {
  code = req_ok;
  response = some (record { status_code = 200; json_object = some report });
}

abbrev busy : WorkerService
busy = record {
  active_nodes = ("w:1", record spare { bench_result = 7 ∷ [] }) ∷ [];
  inactive_nodes = [];
  failed_nodes = [];
  normalized = spare.node_speed;
}

idle-IsConsistent : IsConsistent idle
unfolding lookup
idle-IsConsistent = record {
  active_distinct = tt;
  inactive_distinct = ground arith;
  disjoint = λ h. inl refl;
  sums = λ i. omega (arith, get_or-replicate_zero 13 i);
}

connects : connect_node idle "w:1" good ≡ ok (busy, answered report)
unfolding connect_node activate recompute_coefficients move_node json_to_continuous read_entries
    divide_scalar pointwise lookup insert erase default_bench
connects = refl

leaves :
    disconnect_node busy "w:1" good
    ≡ ok (record idle { inactive_nodes = busy.active_nodes }, answered report)
unfolding disconnect_node deactivate move_node pointwise lookup insert erase
leaves = refl

add_new_node-IsConsistent_example : IsConsistent (add_new_node idle "w:2").0
add_new_node-IsConsistent_example = add_new_node-IsConsistent idle "w:2" idle-IsConsistent

connect_node-IsConsistent_example : IsConsistent busy
connect_node-IsConsistent_example =
    connect_node-IsConsistent idle "w:1" idle-IsConsistent good connects

disconnect_node-IsConsistent_example :
    IsConsistent (record idle { inactive_nodes = busy.active_nodes })
disconnect_node-IsConsistent_example =
    disconnect_node-IsConsistent busy "w:1" connect_node-IsConsistent_example good leaves

refuses : serve busy (adds "w:1") ≡ ok (busy, refused 409 (already_connected "w:1") none)
unfolding add_new_node lookup
refuses = refl

refused_keeps_service_example : busy ≡ busy
refused_keeps_service_example =
    refused_keeps_service busy (adds "w:1") 409 (already_connected "w:1") none refuses

added_is_inactive : status_of (add_new_node busy "w:2").0 "w:2" ≡ some inactive
unfolding lookup
added_is_inactive = add_new_node-status busy "w:2" "w:2"

-- A worker that was just added, and its answer.
abbrev fresh : WorkerService
fresh = record idle { inactive_nodes = ("w:2", fresh_node "w:2") ∷ [] }

abbrev response : HttpResponse
response = record { status_code = 200; json_object = some report }

connect_node_first_example : connect_node fresh "w:2" good ≡ undefined
unfolding lookup
connect_node_first_example =
    connect_node_first fresh "w:2" (fresh_node "w:2") "w:2" good response report refl refl refl refl
      refl refl (omega arith) refl
