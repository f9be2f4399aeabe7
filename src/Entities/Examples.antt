-- ===== src/Entities/Examples.antt =====
-- Tests and instances for `Entities`.
use distributed_math_arh.Prelude.{ℕ, true, false, ◌≡◌, arith}
use distributed_math_arh.Outcome.{ok, throw, logic_error}
use distributed_math_arh.Entities.{
  Reals, direct, Exchange, Queue, Connection, Channel, Message, exchange_to_json, queue_to_json,
  connection_to_json, channel_to_json, message_to_json, exchange_of_json, queue_of_json,
  connection_of_json, channel_of_json, message_of_json,
}
use distributed_math_arh.Entities.RoundTrip.{
  exchange_of_json-to_json, queue_of_json-to_json, connection_of_json-to_json,
  channel_of_json-to_json, message_of_json-to_json,
}

-- No value here is a double.
abbrev no_reals : Reals ℕ
no_reals = record {
  show = λ x. "";
  to_unsigned = λ limit x. throw logic_error;
  nonzero = λ x. true;
}

abbrev sample_exchange : Exchange
sample_exchange = record {
  name = "testexch";
  creator = "guest";
  kind = direct;
  auto_delete = false;
  durable = true;
  internal = false;
}

sample_exchange_is_read :
    exchange_of_json no_reals (exchange_to_json sample_exchange) ≡ ok sample_exchange
sample_exchange_is_read = exchange_of_json-to_json no_reals sample_exchange

abbrev sample_queue : Queue
sample_queue = record {
  queue_name = "w:1";
  queue_creator = "guest";
  queue_auto_delete = false;
  queue_durable = true;
}

queue_of_json-to_json_example :
    queue_of_json no_reals (queue_to_json sample_queue) ≡ ok sample_queue
queue_of_json-to_json_example = queue_of_json-to_json no_reals sample_queue

abbrev sample_message : Message
sample_message = record { routing_key = "w:1"; payload = "task"; payload_encoding = "string" }

message_of_json-to_json_example :
    message_of_json no_reals (message_to_json sample_message) ≡ ok sample_message
message_of_json-to_json_example = message_of_json-to_json no_reals sample_message

abbrev sample_connection : Connection
sample_connection = record {
  channels = 1;
  host = "127.0.0.1";
  connection_name = "c";
  peer_host = "127.0.0.1";
  port = 5672;
  peer_port = 40000;
  connected_at = 1700000000000;
  user = "guest";
}

connection_is_read_back :
    connection_of_json no_reals (connection_to_json sample_connection) ≡ ok sample_connection
connection_is_read_back =
    connection_of_json-to_json no_reals sample_connection (omega arith) (omega arith) (omega arith)
      (omega arith)

abbrev sample_channel : Channel
sample_channel = record {
  channel_name = "ch";
  channel_number = 1;
  channel_connection = "c";
  channel_user = "guest";
  vhost = "/";
  state = "running";
  consumer_count = 2;
}

channel_loses_connection :
    channel_of_json no_reals (channel_to_json sample_channel)
    ≡ ok (record sample_channel { channel_connection = "" })
channel_loses_connection =
    channel_of_json-to_json no_reals sample_channel (omega arith) (omega arith)
