-- ===== src/Entities.antt =====
-- computationalLib/include/network_shared/networkTypes.h and lib/network_shared/networkTypes.cpp: what
-- RabbitMQ's REST interface lists, to and from JSON.
pub mod RoundTrip
pub mod Examples
use distributed_math_arh.Prelude.{
  ℕ, String, Bool, true, false, List, [], ◌∷◌, ◌==◌, string_eq, if◌then◌else◌, ◌%◌, ◌^◌,
}
use distributed_math_arh.Outcome.{Outcome, ok, throw, logic_error, invalid_option, ◌>>=◌}
use distributed_math_arh.Json.{
  Json, Fields, object, text, boolean, uint, no_fields, field, member, as_string, as_unsigned,
  as_bool,
}

-- AMQP::ExchangeType
pub data ExchangeType : Type 0 where
  fanout direct topic headers consistent_hash message_deduplication : ExchangeType

pub record Exchange : Type 0 where
  pub name : String
  pub creator : String
  pub kind : ExchangeType
  pub auto_delete : Bool
  pub durable : Bool
  pub internal : Bool

pub record Queue : Type 0 where
  pub queue_name : String
  pub queue_creator : String
  pub queue_auto_delete : Bool
  pub queue_durable : Bool

pub record Connection : Type 0 where
  pub channels : ℕ
  pub host : String
  pub connection_name : String
  pub peer_host : String
  pub port : ℕ
  pub peer_port : ℕ
  pub connected_at : ℕ
  pub user : String

pub record Channel : Type 0 where
  pub channel_name : String
  pub channel_number : ℕ
  pub channel_connection : String
  pub channel_user : String
  pub vhost : String
  pub state : String
  pub consumer_count : ℕ

pub record Message : Type 0 where
  pub routing_key : String
  pub payload : String
  pub payload_encoding : String

-- kExchangeTypeMappings, and the two maps that are made of it
unfoldable pub exchange_type_text : ExchangeType → String
exchange_type_text fanout = "fanout"
exchange_type_text direct = "direct"
exchange_type_text topic = "topic"
exchange_type_text headers = "headers"
exchange_type_text consistent_hash = "consistent_hash"
exchange_type_text message_deduplication = "message_deduplication"

unfoldable pub exchange_type_of : String → Outcome ExchangeType
exchange_type_of t =
    if t == "fanout"
    then ok fanout
    else if t == "direct"
    then ok direct
    else if t == "topic"
    then ok topic
    else if t == "headers"
    then ok headers
    else if t == "consistent_hash"
    then ok consistent_hash
    else if t == "message_deduplication"
    then ok message_deduplication
    else throw (invalid_option t)

-- How doubles are read where another type is expected, which is jsoncpp's.
pub record Reals (F : Type 0) : Type 0 where
  pub show : F → String
  pub to_unsigned : ℕ → F → Outcome ℕ
  pub nonzero : F → Bool

abbrev pub u32 : ℕ
u32 = 2 ^ 32

abbrev pub u64_limit : ℕ
u64_limit = 2 ^ 64

module _ {F : Type 0} where
  unfoldable pub exchange_to_json : Exchange → Json F
  unfolding exchange_type_text
  exchange_to_json e = object (
      field "name" (text e.name) (
        field "user_who_performed_action" (text e.creator) (
          field "type" (text (exchange_type_text e.kind)) (
            field "auto_delete" (boolean e.auto_delete) (
              field "durable" (boolean e.durable)
                (field "internal" (boolean e.internal) no_fields))))))

  unfoldable pub queue_to_json : Queue → Json F
  queue_to_json q = object (
      field "name" (text q.queue_name) (
        field "user_who_performed_action" (text q.queue_creator) (
          field "auto_delete" (boolean q.queue_auto_delete)
            (field "durable" (boolean q.queue_durable) no_fields))))

  unfoldable pub connection_to_json : Connection → Json F
  connection_to_json c = object (
      field "channels" (uint (c.channels % u32)) (
        field "host" (text c.host) (
          field "name" (text c.connection_name) (
            field "peer_host" (text c.peer_host) (
              field "port" (uint (c.port % u32)) (
                field "peer_port" (uint (c.peer_port % u32)) (
                  field "connected_at" (uint c.connected_at)
                    (field "user" (text c.user) no_fields))))))))

  unfoldable pub channel_to_json : Channel → Json F
  channel_to_json c = object (
      field "name" (text c.channel_name) (
        field "number" (uint (c.channel_number % u32)) (
          field "connection_name" (text c.channel_connection) (
            field "user" (text c.channel_user) (
              field "vhost" (text c.vhost) (
                field "state" (text c.state)
                  (field "consumer_count" (uint c.consumer_count) no_fields)))))))

  unfoldable pub message_to_json : Message → Json F
  message_to_json m = object (
      field "properties" (object no_fields) (
        field "routing_key" (text m.routing_key) (
          field "payload" (text m.payload)
            (field "payload_encoding" (text m.payload_encoding) no_fields))))

module _ {F : Type 0} (reals : Reals F) where
  -- val[name].asString(), and so on
  unfoldable pub string_member : Json F → String → Outcome String
  string_member val name = do v ← member val name; as_string reals.show v

  unfoldable pub unsigned_member : ℕ → Json F → String → Outcome ℕ
  unsigned_member limit val name = do
    v ← member val name
    as_unsigned limit (reals.to_unsigned limit) v

  unfoldable pub bool_member : Json F → String → Outcome Bool
  bool_member val name = do v ← member val name; as_bool reals.nonzero v

  unfoldable pub exchange_of_json : Json F → Outcome Exchange
  exchange_of_json val = do
    n ← string_member val "name"
    c ← string_member val "user_who_performed_action"
    t ← string_member val "type"
    k ← exchange_type_of t
    a ← bool_member val "auto_delete"
    d ← bool_member val "durable"
    i ← bool_member val "internal"
    ok (record { name = n; creator = c; kind = k; auto_delete = a; durable = d; internal = i })

  unfoldable pub queue_of_json : Json F → Outcome Queue
  queue_of_json val = do
    n ← string_member val "name"
    c ← string_member val "user_who_performed_action"
    a ← bool_member val "auto_delete"
    d ← bool_member val "durable"
    ok (record { queue_name = n; queue_creator = c; queue_auto_delete = a; queue_durable = d })

  unfoldable pub connection_of_json : Json F → Outcome Connection
  connection_of_json val = do
    c ← unsigned_member u32 val "channels"
    h ← string_member val "host"
    n ← string_member val "name"
    ph ← string_member val "peer_host"
    p ← unsigned_member u32 val "port"
    pp ← unsigned_member u32 val "peer_port"
    t ← unsigned_member u64_limit val "connected_at"
    u ← string_member val "user"
    ok (record {
      channels = c;
      host = h;
      connection_name = n;
      peer_host = ph;
      port = p;
      peer_port = pp;
      connected_at = t;
      user = u;
    })

  -- The name of the connection is read from "connection_details".
  unfoldable pub channel_of_json : Json F → Outcome Channel
  channel_of_json val = do
    n ← string_member val "name"
    k ← unsigned_member u32 val "number"
    details ← member val "connection_details"
    c ← string_member details "name"
    u ← string_member val "user"
    v ← string_member val "vhost"
    s ← string_member val "state"
    count ← unsigned_member u32 val "consumer_count"
    ok (record {
      channel_name = n;
      channel_number = k;
      channel_connection = c;
      channel_user = u;
      vhost = v;
      state = s;
      consumer_count = count;
    })

  unfoldable pub message_of_json : Json F → Outcome Message
  message_of_json val = do
    r ← string_member val "routing_key"
    p ← string_member val "payload"
    e ← string_member val "payload_encoding"
    ok (record { routing_key = r; payload = p; payload_encoding = e })
