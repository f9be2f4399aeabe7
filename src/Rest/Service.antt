-- ===== src/Rest/Service.antt =====
-- `RabbitMQRestService`: the paths, methods and bodies of its requests, and what it makes of the answers.
-- Of a list, each item is given as the JSON that its class is made of.
use Prim.Native.String.{◌++◌ as ◌<>◌}
use distributed_math_arh.Prelude.{
  ℕ, String, Bool, true, List, [], ◌∷◌, Option, some, length, if◌then◌else◌,
}
use distributed_math_arh.Outcome.{Outcome, ok, ◌>>=◌}
use distributed_math_arh.Json.{
  Json, null, array, no_items, object, field, no_fields, text, int, elements, is_array, set_field,
}
use distributed_math_arh.Entities.{
  Queue, Exchange, Message, Reals, queue_to_json, exchange_to_json, message_to_json, string_member,
  bool_member,
}
use distributed_math_arh.Enums.Network.{
  HttpMethod, get_method, put_method, post_method, delete_method,
}
use distributed_math_arh.Rest.{Libraries, AuthHandler, perform_curl_request}

pub record RestService : Type 0 where
  pub base_url : String
  pub auth : Option AuthHandler

unfoldable pub set_params : RestService → String → AuthHandler → RestService
set_params s url handler = record { base_url = url; auth = some handler }

-- queues.push_back(item["name"].asString()), for each item in turn
unfoldable pub names_of : {F : Type 0} → Reals F → List (Json F) → Outcome (List String)
names_of reals [] = ok []
names_of reals (x ∷ xs) = do
  name ← string_member reals x "name"
  names ← names_of reals xs
  ok (name ∷ names)

-- body["arguments"] = arguments, unless there are none
unfoldable pub with_arguments : {F : Type 0} → Json F → Json F → Json F
with_arguments (object fs) (object no_fields) = object fs
with_arguments (object fs) null = object fs
with_arguments (object fs) (array no_items) = object fs
with_arguments (object fs) arguments = object (set_field "arguments" arguments fs)
with_arguments body arguments = body

-- Requests that change something and answer `true`.
pub data Change (F : Type 0) : Type 0 where
  create_queue : String → Queue → Json F → Change F
  delete_queue : String → String → Change F
  create_exchange : String → Exchange → Change F
  delete_exchange : String → String → Change F
  bind_queue_to_exchange unbind_queue_from_exchange : String → String → String → String → Change F
  create_user : String → String → Change F
  delete_user : String → Change F
  global_param_put : String → Json F → Change F
  global_param_delete : String → Change F

module _ {F : Type 0} (libs : Libraries F) (reals : Reals F) (s : RestService) where
  unfoldable pub perform_request : String → HttpMethod → String → Outcome (ℕ × String)
  unfolding perform_curl_request
  perform_request path method content =
      perform_curl_request libs path method s.base_url s.auth content

  -- Path, method and data of a change.
  unfoldable pub change_request : Change F → String × HttpMethod × String
  change_request (create_queue vhost queue arguments) = (
    "/api/queues/" <> vhost <> "/" <> queue.queue_name,
    put_method,
    libs.write (with_arguments (queue_to_json queue) arguments),
  )
  change_request (delete_queue vhost name) =
      ("/api/queues/" <> vhost <> "/" <> name, delete_method, "")
  change_request (create_exchange vhost exchange) = (
    "/api/exchanges/" <> vhost <> "/" <> exchange.name,
    put_method,
    libs.write (exchange_to_json exchange),
  )
  change_request (delete_exchange vhost name) =
      ("/api/exchanges/" <> vhost <> "/" <> name, delete_method, "")
  change_request (bind_queue_to_exchange vhost queue exchange key) = (
    "/api/bindings/" <> vhost <> "/e/" <> exchange <> "/q/" <> queue,
    post_method,
    libs.write (object (field "routing_key" (text key) no_fields)),
  )
  change_request (unbind_queue_from_exchange vhost queue exchange key) = (
    "/api/bindings/" <> vhost <> "/e/" <> exchange <> "/q/" <> queue <> "/" <> key,
    delete_method,
    "",
  )
  change_request (create_user user pass) = (
    "/api/users/" <> user,
    put_method,
    libs.write (object (field "password" (text pass) (field "tags" (text "worker") no_fields))),
  )
  change_request (delete_user user) = ("/api/users/" <> user, delete_method, "")
  change_request (global_param_put name value) = (
    "/api/global-parameters/" <> name,
    put_method,
    libs.write (object (field "name" (text name) (field "value" value no_fields))),
  )
  change_request (global_param_delete name) = ("/api/global-parameters/" <> name, delete_method, "")

  unfoldable pub change : Change F → Outcome Bool
  change c = do
    let (path, method, content) = change_request c
    _ ← perform_request path method content
    ok true

  -- ParseJson(PerformRequest(path, HttpMethod::GET).second)
  unfoldable pub get_json : String → Outcome (Json F)
  get_json path = do (_, body) ← perform_request path get_method ""; libs.parse body

  unfoldable pub list_queues : String → Outcome (List String)
  list_queues vhost = do j ← get_json ("/api/queues/" <> vhost); names_of reals (elements j)

  unfoldable pub get_queue_stats : String → String → Outcome (Json F)
  get_queue_stats vhost name = get_json ("/api/queues/" <> vhost <> "/" <> name)

  unfoldable pub whoami : Outcome (Json F)
  whoami = get_json "/api/whoami"

  -- The items of an array, none of anything else.
  unfoldable pub list_items : String → Outcome (List (Json F))
  list_items path = do res ← get_json path; ok (if is_array res then elements res else [])

  unfoldable pub get_exchanges : String → Outcome (List (Json F))
  get_exchanges vhost = list_items ("/api/exchanges/" <> vhost)

  unfoldable pub publish_message : String → String → Message → Outcome Bool
  publish_message vhost exchange message = do
    (_, body) ←
        perform_request ("/api/exchanges/" <> vhost <> "/" <> exchange <> "/publish") post_method
          (libs.write (message_to_json message))
    rr ← libs.parse body
    bool_member reals rr "routed"

  unfoldable pub get_message_count : String → String → Outcome ℕ
  get_message_count vhost queue = do
    (_, body) ← perform_request ("/api/queues/" <> vhost <> "/" <> queue <> "/get") post_method (
        libs.write (
          object (
            field "count" (int 1000) (
              field "ackmode" (text "ack_requeue_true")
                (field "encoding" (text "auto") (field "truncate" (int 50000) no_fields))))))
    rr ← libs.parse body
    ok (length (elements rr))
