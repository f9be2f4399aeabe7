-- ===== src/Rest/Examples.antt =====
-- Tests and instances for `Rest`: a stand-in for RabbitMQ with one answer.
use distributed_math_arh.Prelude.{ℕ, String, true, ◌≡◌, refl, [], ◌∷◌, some, ◌<◌, ◌↔◌}
use distributed_math_arh.Outcome.{ok, throw, logic_error}
use distributed_math_arh.Json.{array, items_of}
use distributed_math_arh.Entities.{Reals}
use distributed_math_arh.Rest.{Libraries, AuthHandler, answered}
use distributed_math_arh.Rest.Service.{RestService, delete_queue, change}
use distributed_math_arh.Rest.Calls.{sent_request, change_iff, named}

abbrev no_reals : Reals ℕ
no_reals = record {
  show = λ x. "";
  to_unsigned = λ limit x. throw logic_error;
  nonzero = λ x. true;
}

abbrev guest : AuthHandler
guest = record { active = true; user = "guest"; password = "guest" }

abbrev broker : RestService
broker = record { base_url = "http://localhost:15672"; auth = some guest }

-- A server that answers each request with the same list of queues.
abbrev server : Libraries ℕ
server = record {
  curl_works = true;
  perform = λ request. answered 200 "[...]";
  parse = λ content. ok (array (items_of (named "w:1" ∷ named "w:2" ∷ [])));
  write = λ json. "{...}";
}

deletes_queue : (change server no_reals broker (delete_queue "%2F" "w:1") ≡ ok true) ↔ (
    (code : ℕ) × (content : String) × (server.perform
        (sent_request server no_reals broker guest (delete_queue "%2F" "w:1"))
      ≡ answered code content)
    × (code < 400))
deletes_queue = change_iff server no_reals broker guest (delete_queue "%2F" "w:1") refl refl
