-- ===== src/MainNode/Handlers.antt =====
-- The handlers of `MainNodeService` that change the cluster, with the answers of RabbitMQ's REST
-- service, of the AMQP connection and of the worker as arguments.
use distributed_math_arh.Prelude.{
  ℕ, String, Bool, true, false, not, ◌||◌, List, [], ◌∷◌, Option, none, some, ◌==◌, string_eq,
  if◌then◌else◌,
}
use distributed_math_arh.Outcome.{
  Outcome, ok, throw, undefined, http_error, curl_error, runtime_error, ◌>>=◌,
}
use distributed_math_arh.Worker.{
  WorkerService, Answer, Reply, reply_status, new_service, add_new_node, connect_node,
  disconnect_node,
}
use distributed_math_arh.MainNode.{
  MainNode, MainReply, success, conflict, balancer, queue_unavailable, queue_creation_error,
  already_working, curl_request_error, publisher_error,
}

-- std::find over names, as a test
unfoldable pub has_name : String → List String → Bool
has_name name [] = false
has_name name (x ∷ xs) = name == x || has_name name xs

-- How the calls of a handler to `RabbitMQRestService` end, in the order in which it makes them.
pub record Broker : Type 0 where
  pub listed : Outcome (List String)
  pub created : Outcome (Unit {0})
  pub bound : Outcome (Unit {0})

unfoldable pub default_exchange_name : String
default_exchange_name = "testexch"

-- The queue of a node is made and bound unless the broker has it.
unfoldable pub prepare_queue : String → Broker → Outcome (Unit {0})
prepare_queue name broker = do
  ls ← broker.listed
  if has_name name ls then ok tt else (do _ ← broker.created; broker.bound)

unfoldable pub prepare_exchange : String → Broker → Outcome (Unit {0})
prepare_exchange name broker = do
  exchanges ← broker.listed
  if has_name name exchanges then ok tt else broker.created

-- The status of a balancer's answer, 200 where it has none.
unfoldable pub with_status : Reply → MainReply
with_status r = elim (reply_status r) [ some code ↦ balancer code r | none ↦ balancer 200 r ]

module _ {F : Type 0} where
  unfoldable pub new_main_node : String → String → MainNode F
  new_main_node user password = record {
    user = user;
    password = password;
    q_host = "";
    connected = false;
    default_exchange = "";
    workers = new_service;
    sent = [];
  }

  -- The last step of a handler: what the balancer did, and its answer.
  abbrev pub settle : MainNode F → Outcome (WorkerService × Reply) → MainNode F × Outcome MainReply
  settle m (ok (w, r)) = (record m { workers = w }, ok (with_status r))
  settle m (throw x) = (m, throw x)
  settle m undefined = (m, undefined)

  -- Only `HttpError` is caught.
  abbrev pub after_queue :
      MainNode F → String → Outcome (Unit {0}) → Answer → MainNode F × Outcome MainReply
  after_queue m host (ok _) answer = settle m (connect_node m.workers host answer)
  after_queue m host (throw (http_error code reason)) answer =
      (m, ok (conflict (queue_creation_error code reason)))
  after_queue m host (throw x) answer = (m, throw x)
  after_queue m host undefined answer = (m, undefined)

  abbrev pub after_adding :
      MainNode F
      → String
      → String
      → Option ℕ
      → Reply
      → Broker
      → Answer
      → MainNode F × Outcome MainReply
  after_adding m host name (some code) r broker answer = (m, ok (balancer code r))
  after_adding m host name none r broker answer =
      after_queue m host (prepare_queue name broker) answer

  unfoldable pub connect_worker :
      MainNode F → String → String → Broker → Answer → MainNode F × Outcome MainReply
  connect_worker m host_port name broker answer =
      if not m.connected
      then (m, ok (conflict queue_unavailable))
      else (let (w, r) = add_new_node m.workers host_port in
          after_adding (record m { workers = w }) host_port name (reply_status r) r broker answer)

  unfoldable pub disconnect_worker : MainNode F → String → Answer → MainNode F × Outcome MainReply
  disconnect_worker m host_port answer =
      if not m.connected
      then (m, ok (conflict queue_unavailable))
      else settle m (disconnect_node m.workers host_port answer)

  -- The publisher's connection, where a `runtime_error` is caught.
  abbrev pub after_exchange : MainNode F → Outcome (Unit {0}) → MainNode F × Outcome MainReply
  after_exchange m (ok _) = (record m { connected = true }, ok success)
  after_exchange m (throw (runtime_error message)) = (m, ok (conflict (publisher_error message)))
  after_exchange m (throw x) = (m, throw x)
  after_exchange m undefined = (m, undefined)

  abbrev pub after_parameters :
      MainNode F → Outcome (Unit {0}) → Outcome (Unit {0}) → MainNode F × Outcome MainReply
  after_parameters m (ok _) opened = after_exchange m opened
  after_parameters m (throw (http_error code reason)) opened =
      (m, ok (conflict (queue_creation_error code reason)))
  after_parameters m (throw (curl_error message)) opened =
      (m, ok (conflict (curl_request_error message)))
  after_parameters m (throw x) opened = (m, throw x)
  after_parameters m undefined opened = (m, undefined)

  unfoldable pub connect_publisher :
      MainNode F → String → Broker → Outcome (Unit {0}) → MainNode F × Outcome MainReply
  unfolding default_exchange_name
  connect_publisher m qip broker opened =
      if m.connected
      then (m, ok (conflict (already_working m.q_host)))
      else after_parameters (record m { q_host = qip; default_exchange = default_exchange_name })
          (prepare_exchange default_exchange_name broker) opened

  unfoldable pub disconnect_publisher : MainNode F → MainNode F × Outcome MainReply
  disconnect_publisher m =
      if not m.connected
      then (m, ok (conflict queue_unavailable))
      else (record m { connected = false }, ok success)
