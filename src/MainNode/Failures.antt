-- ===== src/MainNode/Failures.antt =====
-- How `ConnectNode` and `Connect` end when RabbitMQ fails.
use distributed_math_arh.Prelude.{String, true, ◌≡◌, none, arith, string_eq, ◌⊎◌, ◌↔◌}
use distributed_math_arh.Prelude.Dict.{lookup}
use distributed_math_arh.Outcome.{Outcome, Exception, ok, throw, http_error}
use distributed_math_arh.Worker.{Answer, add_new_node}
use distributed_math_arh.MainNode.{MainNode, MainReply, conflict, queue_creation_error}
use distributed_math_arh.MainNode.Handlers.{
  Broker, prepare_queue, prepare_exchange, default_exchange_name, connect_worker, connect_publisher,
}

-- An `HttpError` is answered, any other exception goes on.
abbrev pub caught_http : Exception → Outcome MainReply
caught_http (http_error code reason) = ok (conflict (queue_creation_error code reason))
caught_http x = throw x

module _ {F : Type 0} (m : MainNode F) where
  -- When the queue of a host that is not active cannot be prepared, the host stays in the cluster as
  -- an inactive node, and the request is answered with a conflict if the broker refused and fails
  -- with the exception if it was any other, a failure to reach the broker included.
  pub connect_worker_unprepared :
      (host name : String) (broker : Broker) (answer : Answer) (x : Exception)
      → m.connected ≡ true
      → lookup host m.workers.active_nodes ≡ none
      → prepare_queue name broker ≡ throw x
      → connect_worker m host name broker answer
        ≡ (record m { workers = (add_new_node m.workers host).0 }, caught_http x)
  unfolding connect_worker add_new_node
  connect_worker_unprepared host name broker answer x c new failed = ground arith

  -- Connecting leaves the publisher connected exactly when it was already, or the exchange could be
  -- prepared and the AMQP connection opened.
  pub connect_publisher-connected :
      (qip : String) (broker : Broker) (opened : Outcome (Unit {0}))
      → ((connect_publisher m qip broker opened).0.connected ≡ true)
        ↔ (m.connected ≡ true)
          ⊎ (prepare_exchange default_exchange_name broker ≡ ok tt) × (opened ≡ ok tt)
  unfolding connect_publisher
  connect_publisher-connected qip broker opened = ground arith
