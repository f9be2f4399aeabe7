-- ===== src/Rest.antt =====
-- computationalLib/lib/network_shared/restUtils.cpp and amqpRestService.cpp: requests to RabbitMQ's
-- management interface. libcurl, and jsoncpp's reader and writer, are arguments.
pub mod Service
pub mod Calls
pub mod Examples
use Prim.Native.String.{◌++◌ as ◌<>◌}
use distributed_math_arh.Prelude.{
  ℕ, String, Bool, true, false, not, Option, none, some, leb, if◌then◌else◌,
}
use distributed_math_arh.Outcome.{
  Outcome, ok, throw, undefined, deref, http_error, curl_error, runtime_error, ◌>>=◌,
}
use distributed_math_arh.Json.{Json}
use distributed_math_arh.Enums.Network.{HttpMethod}

-- BasicAuthHandler, and what it sets on a curl object.
pub record AuthHandler : Type 0 where
  pub active : Bool
  pub user : String
  pub password : String

abbrev pub credentials : AuthHandler → Option (String × String)
credentials a = if a.active then some (a.user, a.password) else none

pub record HttpRequest : Type 0 where
  pub url : String
  pub method : HttpMethod
  pub authorization : Option (String × String)
  -- with the header of a JSON body, where it is not empty
  pub body : String

-- What curl_easy_perform comes to.
pub data CurlResult : Type 0 where
  curl_failed : String → CurlResult
  answered : ℕ → String → CurlResult

-- libcurl: whether an object can be made, and what a request comes to. jsoncpp: the reader, with its
-- errors, and the writer.
pub record Libraries (F : Type 0) : Type 0 where
  pub curl_works : Bool
  pub perform : HttpRequest → CurlResult
  pub parse : String → Outcome (Json F)
  pub write : Json F → String

-- The end of the request: the codes from 400 on are errors.
abbrev pub curl_outcome : CurlResult → Outcome (ℕ × String)
curl_outcome (curl_failed message) = throw (curl_error message)
curl_outcome (answered code body) =
    if leb 400 code then throw (http_error code body) else ok (code, body)

module _ {F : Type 0} (libs : Libraries F) where
  unfoldable pub perform_curl_request :
      String → HttpMethod → String → Option AuthHandler → String → Outcome (ℕ × String)
  perform_curl_request path method host auth_handler content =
      if not libs.curl_works then throw (runtime_error "CURL initialization failed") else (do
        auth ← deref auth_handler
        curl_outcome (
            libs.perform (record {
              url = host <> path;
              method = method;
              authorization = credentials auth;
              body = content;
            })))
