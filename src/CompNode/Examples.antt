-- ===== src/CompNode/Examples.antt =====
-- Tests and instances for `CompNode`.
use distributed_math_arh.Prelude.{
  ℕ, ◌*◌, ◌≡◌, refl, arith, String, true, false, List, [], ◌∷◌, none, some,
}
use distributed_math_arh.Outcome.{ok, throw, logic_error, invalid_argument}
use distributed_math_arh.Json.{Json, object, text, field, no_fields, member, field_of, as_string}
use distributed_math_arh.Entities.{Reals}
use distributed_math_arh.ConnectionString.{default_amqp, amqp_verbose_name}
use distributed_math_arh.Amqp.{on_closed}
use distributed_math_arh.CompNode.{
  ComputationNode, reply_to, response_code, get_status, disconnect_node_service, read_members,
  connect_node_service, not_in_a_cluster, connected_to, new_benchmark, run_benchmark, start_bench,
  finish_bench,
}
use distributed_math_arh.CompNode.Joining.{
  accepted, connect_node_service_keeps, disconnect_node_service_leaves,
}
use distributed_math_arh.CompNode.Benchmark.{Extrapolates, run_benchmark-Extrapolates}

abbrev no_reals : Reals ℕ
no_reals = record {
  show = λ x. "";
  to_unsigned = λ limit x. throw logic_error;
  nonzero = λ x. true;
}

abbrev idle_node : ComputationNode
idle_node = record {
  consumer = record {
    name = "AMQPConsumerService";
    c_string = "";
    work = false;
    connection = none;
    channel = false;
    connected = false;
    promise = none;
  };
  address = default_amqp;
  queue = "";
  bench_res = 10 ∷ 20 ∷ [];
  computed = true;
}

abbrev joined_node : ComputationNode
joined_node = record idle_node { consumer = record idle_node.consumer { connected = true } }

-- {"ip": "host", "name": "node", "user": "guest", "password": "secret"}
abbrev join_request : Json ℕ
join_request = object (
    field "ip" (text "host") (
      field "name" (text "node")
        (field "user" (text "guest") (field "password" (text "secret") no_fields))))

abbrev request_members : String × String × String × String
request_members = ("host", "node", "guest", "secret")

request_is_read : read_members no_reals join_request ≡ ok request_members
unfolding read_members member field_of as_string
request_is_read = refl

joined_node_keeps :
    (connect_node_service no_reals joined_node (some join_request) [] [] ≡ (
      joined_node,
      ok (
          some (record (accepted joined_node "host" "node") {
            status = some 409;
            message = some (connected_to (amqp_verbose_name default_amqp));
          })),
    ))
    × (connect_node_service no_reals joined_node none [] []
        ≡ (joined_node, ok (some (reply_to "connect"))))
    × (response_code (reply_to "connect") ≡ 0)
joined_node_keeps =
    connect_node_service_keeps no_reals joined_node join_request "host" "node" "guest" "secret" []
      [] refl request_is_read

disconnect_node_service_leaves_example :
    let after = (disconnect_node_service joined_node (on_closed ∷ [])).0 in
    ((get_status after).worker_status ≡ some "not running")
    × (response_code (disconnect_node_service joined_node (on_closed ∷ [])).1 ≡ 200)
    × (disconnect_node_service after [] ≡ (
      after,
      record (reply_to "disconnect") { status = some 409; message = some not_in_a_cluster },
    ))
disconnect_node_service_leaves_example =
    disconnect_node_service_leaves joined_node (on_closed ∷ []) [] refl refl

run_benchmark-Extrapolates_example :
    (results : List ℕ) × (run_benchmark (λ n c. n * c) ((1, 1000) ∷ (50, 25) ∷ []) ≡ ok results)
    × Extrapolates (λ n c. n * c) ((1, 1000) ∷ (50, 25) ∷ []) results
run_benchmark-Extrapolates_example =
    run_benchmark-Extrapolates (λ n c. n * c) ((1, 1000) ∷ (50, 25) ∷ []) (omega arith)

counts_must_match :
    new_benchmark (1 ∷ 2 ∷ []) (1000 ∷ [])
    ≡ throw (invalid_argument "ns and iter_counts must have the same size")
unfolding new_benchmark
counts_must_match = refl

-- While the benchmark runs the status does not show its results.
bench_is_hidden :
    ((get_status (start_bench idle_node)).bench ≡ none)
    × ((get_status (finish_bench (start_bench idle_node) (5 ∷ []))).bench ≡ some (5 ∷ []))
unfolding get_status start_bench finish_bench
bench_is_hidden = (refl, refl)
