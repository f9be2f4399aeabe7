-- ===== src/CompNode/Joining.antt =====
-- How a worker joins and leaves a cluster.
use distributed_math_arh.Prelude.{
  ◌≡◌, refl, ap, ◌∙◌, arith, String, true, false, List, Option, none, some, ◌==◌, string_eq,
  if◌then◌else◌,
}
use distributed_math_arh.Outcome.{ok}
use distributed_math_arh.Json.{Json}
use distributed_math_arh.Entities.{Reals}
use distributed_math_arh.ConnectionString.{amqp_verbose_name}
use distributed_math_arh.Amqp.{Event}
use distributed_math_arh.Amqp.Connecting.{last_flag, disconnect_clears}
use distributed_math_arh.CompNode.{
  ComputationNode, NodeReply, reply_to, response_code, get_status, disconnect_node_service,
  connect_to, read_members, connect_node_service, not_in_a_cluster, connected_to,
  queue_connection_error,
}

-- What is answered for the first answer of the channel: nothing while there is none.
abbrev pub answer_of : Option String → NodeReply → Option NodeReply
answer_of none res = none
answer_of (some error) res =
    if error == ""
    then some (record res { status = some 200 })
    else some (record res { status = some 409; message = some (queue_connection_error error) })

abbrev pub accepted : ComputationNode → String → String → NodeReply
accepted node ip name = record (reply_to "connect") {
  input = some ip;
  reply_name = some name;
  bench = some node.bench_res;
}

module _ {F : Type 0} (reals : Reals F) (node : ComputationNode) where
  -- A worker that is connected keeps its state whatever it is asked to connect to, and answers with 409;
  -- a request that cannot be read changes nothing either, and is answered with the code 0.
  pub connect_node_service_keeps :
      (val : Json F) (ip name user pass : String) (events closing : List Event)
      → node.consumer.connected ≡ true
      → read_members reals val ≡ ok (ip, name, user, pass)
      → (connect_node_service reals node (some val) events closing ≡ (
        node,
        ok (
            some (record (accepted node ip name) {
              status = some 409;
              message = some (connected_to (amqp_verbose_name node.address));
            })),
      ))
        × (connect_node_service reals node none events closing
            ≡ (node, ok (some (reply_to "connect"))))
        × (response_code (reply_to "connect") ≡ 0)
  unfolding connect_node_service connect_to response_code
  connect_node_service_keeps val ip name user pass events closing on members =
      (rw members (rw on refl), refl, refl)

-- A worker that is asked to leave its cluster, and whose loop ends with the news that the connection is
-- closed, reports that it is not running, and refuses to leave again.
pub disconnect_node_service_leaves :
    (node : ComputationNode) (events later : List Event)
    → node.consumer.connected ≡ true
    → last_flag true events ≡ false
    → let after = (disconnect_node_service node events).0 in
      ((get_status after).worker_status ≡ some "not running")
      × (response_code (disconnect_node_service node events).1 ≡ 200)
      × (disconnect_node_service after later ≡ (
        after,
        record (reply_to "disconnect") { status = some 409; message = some not_in_a_cluster },
      ))
unfolding disconnect_node_service get_status response_code
disconnect_node_service_leaves node events later on closed =
    let off =
      (disconnect_clears node.consumer events).3 ∙ ap (λ b. last_flag b events) on ∙ closed in
    ground (arith, off)
