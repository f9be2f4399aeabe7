-- ===== src/Entities/RoundTrip.antt =====
-- What is written as JSON is read back, and what is not.
use distributed_math_arh.Prelude.{ℕ, ◌≡◌, refl, ◌<◌, ◌%◌, arith, lt→ltb, string_eq}
use distributed_math_arh.Outcome.{ok}
use distributed_math_arh.Json.{uint, field_of, member, as_string, as_unsigned, as_bool}
use distributed_math_arh.Entities.{
  Reals, ExchangeType, fanout, direct, topic, headers, consistent_hash, message_deduplication,
  Exchange, Queue, Connection, Channel, Message, exchange_type_text, exchange_type_of, u32,
  u64_limit, exchange_to_json, queue_to_json, connection_to_json, channel_to_json, message_to_json,
  string_member, unsigned_member, bool_member, exchange_of_json, queue_of_json, connection_of_json,
  channel_of_json, message_of_json,
}

exchange_type_of-text : (t : ExchangeType) → exchange_type_of (exchange_type_text t) ≡ ok t
unfolding exchange_type_of exchange_type_text
exchange_type_of-text fanout = refl
exchange_type_of-text direct = refl
exchange_type_of-text topic = refl
exchange_type_of-text headers = refl
exchange_type_of-text consistent_hash = refl
exchange_type_of-text message_deduplication = refl

module _ {F : Type 0} (reals : Reals F) where
  -- An exchange that is written as JSON is read back as it was.
  pub exchange_of_json-to_json : (e : Exchange) → exchange_of_json reals (exchange_to_json e) ≡ ok e
  unfolding exchange_of_json exchange_to_json string_member bool_member member field_of as_string
      as_bool
  exchange_of_json-to_json e = rw (exchange_type_of-text e.kind) refl

  -- A queue that is written as JSON is read back as it was.
  pub queue_of_json-to_json : (q : Queue) → queue_of_json reals (queue_to_json q) ≡ ok q
  unfolding queue_of_json queue_to_json string_member bool_member member field_of as_string as_bool
  queue_of_json-to_json q = refl

  -- A message that is written as JSON is read back as it was.
  pub message_of_json-to_json : (m : Message) → message_of_json reals (message_to_json m) ≡ ok m
  unfolding message_of_json message_to_json string_member member field_of as_string
  message_of_json-to_json m = refl

  unsigned_lem :
      (limit n : ℕ) → n < limit → as_unsigned limit (reals.to_unsigned limit) (uint n) ≡ ok n
  unfolding as_unsigned
  unsigned_lem limit n h = rw (lt→ltb n limit h) refl

  -- A connection with 32-bit counts and ports and a 64-bit time is read back as it was.
  pub connection_of_json-to_json :
      (c : Connection)
      → c.channels < u32
      → c.port < u32
      → c.peer_port < u32
      → c.connected_at < u64_limit
      → connection_of_json reals (connection_to_json c) ≡ ok c
  unfolding connection_of_json connection_to_json string_member unsigned_member member field_of
      as_string
  connection_of_json-to_json c a b d e =
      let f : c.channels % u32 ≡ c.channels = omega (arith, a) in
      let g : c.port % u32 ≡ c.port = omega (arith, b) in
      let h : c.peer_port % u32 ≡ c.peer_port = omega (arith, d) in
      ground (
        arith,
        unsigned_lem u32 (c.channels % u32) (omega arith),
        unsigned_lem u32 (c.port % u32) (omega arith),
        unsigned_lem u32 (c.peer_port % u32) (omega arith),
        unsigned_lem u64_limit c.connected_at e,
      )

  -- A channel that is written as JSON is read back without the name of its connection, which is empty
  -- then: it is written as "connection_name" and read from "connection_details".
  pub channel_of_json-to_json :
      (c : Channel)
      → c.channel_number < u32
      → c.consumer_count < u32
      → channel_of_json reals (channel_to_json c) ≡ ok (record c { channel_connection = "" })
  unfolding channel_of_json channel_to_json string_member unsigned_member member field_of as_string
  channel_of_json-to_json c a b =
      let f : c.channel_number % u32 ≡ c.channel_number = omega (arith, a) in
      ground (
        arith,
        unsigned_lem u32 (c.channel_number % u32) (omega arith),
        unsigned_lem u32 c.consumer_count b,
      )
