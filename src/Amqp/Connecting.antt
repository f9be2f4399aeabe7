-- ===== src/Amqp/Connecting.antt =====
-- When `AMQPService::Connect` returns, fails, or waits.
use distributed_math_arh.Prelude.{
  String, Bool, true, false, ◌≡◌, ◌≢◌, refl, ap, ◌∙◌, List, [], ◌∷◌, Option, none, some, string_eq,
  if◌then◌else◌, arith, ◌⊎◌,
}
use distributed_math_arh.Outcome.{ok, throw, already_connected, zero_size}
use distributed_math_arh.Amqp.{
  AmqpService, Event, on_connected, on_closed, on_error, channel_error, channel_ready, set_promise,
  handle_event, run_events, reconnect, begin_connect, disconnect, Connected, waiting, returns,
  raises, await, connect,
}

-- The first answer of the channel among the events: no message if it is ready.
abbrev pub first_answer : List Event → Option String
first_answer [] = none
first_answer (channel_error message ∷ events) = some message
first_answer (channel_ready ∷ events) = some ""
first_answer (_ ∷ events) = first_answer events

-- What the handler says last about the connection.
abbrev pub last_flag : Bool → List Event → Bool
last_flag flag [] = flag
last_flag flag (on_connected ∷ events) = last_flag true events
last_flag flag (on_closed ∷ events) = last_flag false events
last_flag flag (on_error message ∷ events) = last_flag false events
last_flag flag (_ ∷ events) = last_flag flag events

run_events_set :
    (s : AmqpService) (events : List Event) (message : String)
    → s.promise ≡ some message
    → (run_events s events).promise ≡ some message
unfolding run_events handle_event
run_events_set s [] message h = h
run_events_set s (on_connected ∷ events) message h =
    run_events_set (handle_event s on_connected) events message h
run_events_set s (on_closed ∷ events) message h =
    run_events_set (handle_event s on_closed) events message h
run_events_set s (on_error e ∷ events) message h =
    run_events_set (handle_event s (on_error e)) events message h
run_events_set s (channel_error e ∷ events) message h =
    run_events_set (handle_event s (channel_error e)) events message (ap (λ p. set_promise p e) h)
run_events_set s (channel_ready ∷ events) message h =
    run_events_set (handle_event s channel_ready) events message (ap (λ p. set_promise p "") h)

run_events_promise :
    (s : AmqpService) (events : List Event)
    → s.promise ≡ none
    → (run_events s events).promise ≡ first_answer events
unfolding run_events handle_event
run_events_promise s [] h = h
run_events_promise s (on_connected ∷ events) h =
    run_events_promise (handle_event s on_connected) events h
run_events_promise s (on_closed ∷ events) h = run_events_promise (handle_event s on_closed) events h
run_events_promise s (on_error e ∷ events) h =
    run_events_promise (handle_event s (on_error e)) events h
run_events_promise s (channel_error e ∷ events) h =
    run_events_set (handle_event s (channel_error e)) events e (ap (λ p. set_promise p e) h)
run_events_promise s (channel_ready ∷ events) h =
    run_events_set (handle_event s channel_ready) events "" (ap (λ p. set_promise p "") h)

run_events_connected :
    (s : AmqpService) (events : List Event)
    → (run_events s events).connected ≡ last_flag s.connected events
unfolding run_events handle_event
run_events_connected s [] = refl
run_events_connected s (on_connected ∷ events) =
    run_events_connected (handle_event s on_connected) events
run_events_connected s (on_closed ∷ events) = run_events_connected (handle_event s on_closed) events
run_events_connected s (on_error e ∷ events) =
    run_events_connected (handle_event s (on_error e)) events
run_events_connected s (channel_error e ∷ events) =
    run_events_connected (handle_event s (channel_error e)) events
run_events_connected s (channel_ready ∷ events) =
    run_events_connected (handle_event s channel_ready) events

-- The service when the thread starts to wait.
abbrev pub started : AmqpService → AmqpService
started s = record s { work = true; promise = none; connection = some false; channel = true }

begin_connect_starts :
    (s : AmqpService)
    → s.connected ≡ false
    → s.connection ≡ none
    → s.c_string ≢ ""
    → begin_connect s ≡ ok (started s)
unfolding begin_connect reconnect
begin_connect_starts s off no_connection has = ground (arith, string_eq.beq_iff s.c_string "", has)

-- How the wait ends, by the first answer of the channel.
abbrev pub awaited : AmqpService → List Event → List Event → Connected
awaited s events closing = await (run_events (started s) events) (first_answer events) closing

-- A service that is not connected, has no connection and has a connection string waits as `await`
-- says for the first answer of its channel.
pub connect_awaits :
    (s : AmqpService) (events closing : List Event)
    → s.connected ≡ false
    → s.connection ≡ none
    → s.c_string ≢ ""
    → connect s events closing ≡ ok (awaited s events closing)
unfolding connect
connect_awaits s events closing off no_connection has =
    rw (begin_connect_starts s off no_connection has, run_events_promise (started s) events refl)
      refl

-- How an attempt to connect ends, by the first answer of the channel: without one it waits on, with
-- its channel; with an empty text it returns with it; with another text it raises that text
-- and has no work, no channel and no connection. The last two are connected as the handler says last.
abbrev pub EndsBy : List Event → List Event → Option String → Connected → Type 0
EndsBy events closing none (waiting s) = (s.channel ≡ true) × (s.promise ≡ none)
EndsBy events closing none _ = ⊥
EndsBy events closing (some message) (waiting s) = ⊥
EndsBy events closing (some message) (returns s) =
    (message ≡ "") × (s.channel ≡ true) × (s.connected ≡ last_flag false events)
EndsBy events closing (some message) (raises s text) =
    (message ≢ "")
    × (text ≡ message)
    × (s.connection ≡ none)
    × (s.channel ≡ false)
    × (s.work ≡ false)
    × (s.connected ≡ last_flag (last_flag false events) closing)

run_events_channel :
    (s : AmqpService) (events : List Event) → (run_events s events).channel ≡ s.channel
unfolding run_events handle_event
run_events_channel s [] = refl
run_events_channel s (on_connected ∷ events) =
    run_events_channel (handle_event s on_connected) events
run_events_channel s (on_closed ∷ events) = run_events_channel (handle_event s on_closed) events
run_events_channel s (on_error e ∷ events) = run_events_channel (handle_event s (on_error e)) events
run_events_channel s (channel_error e ∷ events) =
    run_events_channel (handle_event s (channel_error e)) events
run_events_channel s (channel_ready ∷ events) =
    run_events_channel (handle_event s channel_ready) events

-- While a service is connected, another attempt to connect is refused; while it has no connection
-- string and no connection, an attempt fails before anything is awaited.
pub connect_refused :
    (s : AmqpService) (events closing : List Event)
    → (s.connected ≡ true) ⊎ (s.connected ≡ false) × (s.connection ≡ none) × (s.c_string ≡ "")
    → connect s events closing
      ≡ throw (if s.connected then already_connected s.name s.c_string else zero_size "c_string_")
unfolding connect begin_connect reconnect
connect_refused s events closing why = ground (arith, string_eq.beq_iff s.c_string "")

-- After a disconnection a service has no connection, no channel and no work, and is connected only if
-- the handler was told last of a connection, by an event of the loop's end or before.
pub disconnect_clears :
    (s : AmqpService) (events : List Event)
    → ((disconnect s events).connection ≡ none)
      × ((disconnect s events).channel ≡ false)
      × ((disconnect s events).work ≡ false)
      × ((disconnect s events).connected ≡ last_flag s.connected events)
unfolding disconnect
disconnect_clears s events = (refl, refl, refl, run_events_connected s events)

await_ends :
    (s : AmqpService) (events closing : List Event) (answer : Option String)
    → s.connected ≡ last_flag false events
    → s.channel ≡ true
    → s.promise ≡ answer
    → EndsBy events closing answer (await s answer closing)
await_ends s events closing none flag channel promise = (channel, promise)
await_ends s events closing (some message) flag channel promise =
    ground (arith, string_eq.beq_iff message "", flag, channel, disconnect_clears s closing)

-- A service that is not connected, has no connection and has a connection string starts to connect, and
-- the first answer of its channel decides, whatever else happens. It waits as long as there is none. It
-- returns, with its channel, if the channel is ready or fails with an empty text; it is then connected
-- exactly if the handler was told last of a connection. Otherwise it raises the text of the error,
-- with no connection, no channel and no work, and is connected if that was what the handler was told last, up
-- to the end of the loop.
pub connect_answers :
    (s : AmqpService) (events closing : List Event)
    → s.connected ≡ false
    → s.connection ≡ none
    → s.c_string ≢ ""
    → (c : Connected) × (connect s events closing ≡ ok c)
      × EndsBy events closing (first_answer events) c
connect_answers s events closing off no_connection has = (
  awaited s events closing,
  connect_awaits s events closing off no_connection has,
  await_ends (run_events (started s) events) events closing (first_answer events)
      (run_events_connected (started s) events ∙ ap (λ b. last_flag b events) off)
      (run_events_channel (started s) events) (run_events_promise (started s) events refl),
)
