-- ===== src/Rest/Calls.antt =====
-- What the requests of `RabbitMQRestService` report.
use Prim.Native.String.{◌++◌ as ◌<>◌}
use distributed_math_arh.Prelude.{ℕ, String, true, ◌≡◌, ◌<◌, some, arith, ◌↔◌, string_eq}
use distributed_math_arh.Outcome.{ok}
use distributed_math_arh.Json.{Json, object, field, no_fields, text}
use distributed_math_arh.Entities.{Reals}
use distributed_math_arh.Rest.{
  Libraries, AuthHandler, HttpRequest, answered, credentials, perform_curl_request,
}
use distributed_math_arh.Rest.Service.{RestService, Change, change, change_request, perform_request}

-- A queue's object in the list.
abbrev pub named : {F : Type 0} → String → Json F
named name = object (field "name" (text name) no_fields)

module _ {F : Type 0} (libs : Libraries F) (reals : Reals F) (s : RestService) where
  -- The request that a change sends: to the base URL, with the handler's credentials.
  abbrev pub sent_request : AuthHandler → Change F → HttpRequest
  sent_request auth c = record {
    url = s.base_url <> (change_request libs reals s c).0;
    method = (change_request libs reals s c).1;
    authorization = credentials auth;
    body = (change_request libs reals s c).2;
  }

  -- A change is reported as done exactly if curl gets an answer to its request, whose path, method and
  -- body are those of the change, with a status below 400. (It needs a curl object and a handler.)
  pub change_iff :
      (auth : AuthHandler) (c : Change F)
      → libs.curl_works ≡ true
      → s.auth ≡ some auth
      → (change libs reals s c ≡ ok true) ↔ (
          (code : ℕ) × (content : String) × (libs.perform (sent_request auth c)
            ≡ answered code content)
          × (code < 400))
  unfolding change perform_request perform_curl_request
  change_iff auth c works has = ground arith
