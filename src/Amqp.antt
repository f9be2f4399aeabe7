-- ===== src/Amqp.antt =====
-- computationalLib/lib/network_shared/amqpCommon.cpp, AMQPPublisherService.cpp and
-- AMQPConsumerService.cpp: how a service connects to RabbitMQ and disconnects. The event loop runs in
-- a thread of its own and changes the state by callbacks; the calls that AMQP-CPP makes are a list of
-- events, an argument. What an exception of `Reconnect` leaves behind is not kept. `ExtractHost`, over the code points of the url.
pub mod Connecting
pub mod Host
pub mod Examples
use distributed_math_arh.Prelude.{
  ℕ, String, Bool, true, false, not, ◌&&◌, ◌||◌, List, [], ◌∷◌, Option, none, some, ◌==◌, string_eq,
  nat_beq, if◌then◌else◌,
}
use distributed_math_arh.Outcome.{
  Outcome, ok, throw, undefined, zero_size, already_connected, runtime_error,
}

-- The service: `work` keeps the loop alive, `connection` tells whether it is ready, `connected` is
-- MyHandler's flag, and `promise` is the value of connection_promise_.
pub record AmqpService : Type 0 where
  pub name : String
  pub c_string : String
  pub work : Bool
  pub connection : Option Bool
  pub channel : Bool
  pub connected : Bool
  pub promise : Option String

-- The callbacks: MyHandler's three, the channel's error, and that the channel is ready, or, for a
-- consumer, that it consumes.
pub data Event : Type 0 where
  on_connected on_closed : Event
  on_error : String → Event
  channel_error : String → Event
  channel_ready : Event

-- The promise is set once: promise_set_ is whether it has a value.
abbrev pub set_promise : Option String → String → Option String
set_promise none message = some message
set_promise (some old) message = some old

unfoldable pub handle_event : AmqpService → Event → AmqpService
handle_event s on_connected = record s { connected = true; connection = some true }
handle_event s on_closed = record s { work = false; connected = false }
handle_event s (on_error message) = record s { work = false; connected = false }
handle_event s (channel_error message) = record s { promise = set_promise s.promise message }
handle_event s channel_ready = record s { promise = set_promise s.promise "" }

unfoldable pub run_events : AmqpService → List Event → AmqpService
run_events s [] = s
run_events s (e ∷ events) = run_events (handle_event s e) events

-- connection_->ready()
abbrev usable : Option Bool → Bool
usable none = false
usable (some ready) = ready

-- The objects that Reconnect makes, and the callbacks it registers; nothing is awaited.
unfoldable pub reconnect : AmqpService → Outcome AmqpService
reconnect s =
    if s.connected
    then ok s
    else if usable s.connection
    then ok s
    else if s.c_string == ""
    then throw (zero_size "c_string_")
    else ok (record s { connection = some false; channel = true })

-- Up to the point where the thread waits for the promise.
unfoldable pub begin_connect : AmqpService → Outcome AmqpService
unfolding reconnect
begin_connect s =
    if s.connected
    then throw (already_connected s.name s.c_string)
    else reconnect (record s { work = true; promise = none })

-- The loop is run to its end, then the objects are dropped.
unfoldable pub disconnect : AmqpService → List Event → AmqpService
disconnect s events = record (run_events s events) {
  work = false;
  channel = false;
  connection = none;
}

-- What `Connect` comes to, given the events until the promise has a value and those of a
-- disconnection that follows a failure. It never returns while the promise has none.
pub data Connected : Type 0 where
  waiting : AmqpService → Connected
  returns : AmqpService → Connected
  raises : AmqpService → String → Connected

abbrev pub await : AmqpService → Option String → List Event → Connected
await s none closing = waiting s
await s (some error) closing =
    if error == "" then returns s else raises (disconnect s closing) error

abbrev pub after_begin : Outcome AmqpService → List Event → List Event → Outcome Connected
after_begin (ok s) events closing =
    ok (await (run_events s events) (run_events s events).promise closing)
after_begin (throw x) events closing = throw x
after_begin undefined events closing = undefined

unfoldable pub connect : AmqpService → List Event → List Event → Outcome Connected
connect s events closing = after_begin (begin_connect s) events closing

-- The rest of a url after the first "://"
unfoldable pub after_scheme : List ℕ → Option (List ℕ)
after_scheme (a ∷ b ∷ c ∷ host) =
    let later = after_scheme (b ∷ c ∷ host) in
    if nat_beq a b':' && nat_beq b b'/' && nat_beq c b'/' then some host else later
after_scheme _ = none

abbrev pub ends_host : ℕ → Bool
ends_host c = nat_beq c b':' || nat_beq c b'/' || nat_beq c b'?'

unfoldable pub host_part : List ℕ → List ℕ
host_part [] = []
host_part (c ∷ rest) = let later = host_part rest in if ends_host c then [] else c ∷ later

abbrev pub host_of : Option (List ℕ) → Option (List ℕ)
host_of none = none
host_of (some []) = none
host_of (some (c ∷ rest)) = some (host_part (c ∷ rest))

unfoldable pub extract_host : List ℕ → Option (List ℕ)
unfolding after_scheme host_part
extract_host url = host_of (after_scheme url)
