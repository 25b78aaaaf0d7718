-- ===== src/Http/Proxy.antt =====
-- crates/modelrelay-server/src/http.rs: `wildcard_handler`, which proxies a request to a worker, and
-- the guard that cancels a request whose client is gone. The body comes parsed, `none` where it is not
-- JSON of that shape. What `http` makes of names and values is a parameter.
use Prim.Native.String.{◌++◌}
use llm_worker_proxy.Shared.{
  ℕ, Bool, true, false, ◌&&◌, String, [], ◌∷◌, Option, none, some, string_eq, if◌then◌else◌, Result,
  ok, err, unwrap_or, leb, ltb, ◌>>=◌,
}
use llm_worker_proxy.Shared.HashMap
use llm_worker_proxy.Protocol.{HeaderMap, ProviderRouting, ResponseCompleteMessage}
use llm_worker_proxy.Core.State.{
  ProxyServerCore, RequestTransport, RequestFailureReason, Instant, client_disconnected,
}
use llm_worker_proxy.Core.Responses.{
  Submitted, accepted, refused, submit_http_response_request, submit_http_streaming_request,
}
use llm_worker_proxy.Core.Lifecycle.{cancel_request}
use llm_worker_proxy.Daemon.Forward.{HttpLibrary, is_hop_header}
use llm_worker_proxy.Http.{
  HttpState, World, Response, Body, respond, ClientHeaders, header_get, bearer_token, StoreError,
}

pub record ProxyRequestBody : Type 0 where
  pub model : Option String
  pub stream : Bool
  pub provider : Option ProviderRouting

pub record ClientRequest : Type 0 where
  pub path : String
  pub method : String
  pub headers : ClientHeaders
  pub body : String
  pub parsed : Option ProxyRequestBody

abbrev pub auth_error : String → Response
auth_error message = respond 401 (Body.error "auth_error" message)

abbrev pub after_validate :
    {S : Type 0} → S × Result (Option String) StoreError → S × Option Response
after_validate (keys, ok (some id)) = (keys, none)
after_validate (keys, ok none) = (keys, some (auth_error "Invalid API key"))
after_validate (keys, err e) = (keys, some (respond 500 Body.nothing))

-- The refusal, if any.
unfoldable pub check_client_api_key :
    {S : Type 0} → HttpState S → S → ClientHeaders → S × Option Response
check_client_api_key state keys headers =
    if state.require_api_keys
    then elim (header_get "authorization" headers) [
      | none ↦ (keys, some (auth_error "API key required"))
      | some none ↦ (keys, some (auth_error "Invalid authorization header"))
      | some (some auth_str) ↦
          after_validate (state.api_key_store.validate_key keys (bearer_token auth_str))
    ]
    else (keys, none)

unfoldable pub failure_message : RequestFailureReason → String
failure_message RequestFailureReason.queue_timed_out = "Request timed out waiting for worker"
failure_message RequestFailureReason.queue_full = "Service temporarily at capacity, please retry"
failure_message RequestFailureReason.no_workers_available = "No workers available to handle request"
failure_message RequestFailureReason.provider_disabled = "Provider is currently disabled"
failure_message RequestFailureReason.max_requeues_exceeded =
    "Request could not be processed after multiple attempts"
failure_message RequestFailureReason.provider_deleted = "Internal server error processing request"
failure_message RequestFailureReason.graceful_shutdown_timed_out =
    "Service temporarily unavailable while workers shut down"
failure_message RequestFailureReason.request_already_canceled = "Request was canceled"

abbrev pub availability_failure_response : RequestFailureReason → Response
availability_failure_response reason = record {
  status = 503;
  headers =
      ("content-type", "text/plain; charset=utf-8") ∷ ("x-content-type-options", "nosniff") ∷ [];
  body = Body.text (failure_message reason ++ "\n");
}

-- `StatusCode::from_u16(..).unwrap_or(BAD_GATEWAY)`, which takes three digits.
unfoldable pub status_or_bad_gateway : ℕ → ℕ
status_or_bad_gateway code = if leb 100 code && ltb code 1000 then code else 502

-- The header of one name, if any.
abbrev pub header_of : ClientHeaders → String → Option String
header_of headers name = header_get name headers >>= λ value. value

abbrev pub or_else : {A : Type 0} → Option A → Option A → Option A
or_else none b = b
or_else (some a) b = some a

abbrev pub only_provider : String → ProviderRouting
only_provider name = record {
  only = some (name ∷ []);
  ignore = none;
  order = none;
  allow_fallbacks = none;
  sort = none;
}

-- `HttpRequestCancellationGuard`; its drop runs the task that it spawns.
pub record CancellationGuard : Type 0 where
  pub request_id : String
  pub armed : Bool

-- The receiver of a request's events is dropped.
unfoldable pub drop_receiver : ProxyServerCore → String → ProxyServerCore
drop_receiver c request_id = record c { gone_receivers = request_id ∷ c.gone_receivers }

unfoldable pub drop_guard : ProxyServerCore → CancellationGuard → ProxyServerCore
drop_guard c guard =
    if guard.armed then (cancel_request c guard.request_id client_disconnected).0 else c

-- Where a handler stands: it has answered, or waits for the events of a request.
pub data Progress : Type 0 where
  answered : Response → Progress
  waits_unary waits_streaming : CancellationGuard → Progress

abbrev pub waiting :
    (CancellationGuard → Progress) → ProxyServerCore × Submitted → ProxyServerCore × Progress
waiting wait (c, accepted request_id) = (c, wait (record { request_id = request_id; armed = true }))
waiting wait (c, refused failed) = (c, answered (availability_failure_response failed.reason))

-- The early return of a refusal; `routed` is the rest of the handler.
abbrev pub after_check :
    {S : Type 0} → World S → ProxyServerCore × Progress → S × Option Response → World S × Progress
after_check w routed (keys, some response) = (record w { keys = keys }, answered response)
after_check w (core, progress) (keys, none) = (record { core = core; keys = keys }, progress)

-- What ends the wait for a `oneshot` channel: its value, its sender's drop, or the client's leave.
pub data Awaited : Type 0 where
  received : Result ResponseCompleteMessage RequestFailureReason → Awaited
  sender_dropped client_gone : Awaited

module _ (http : HttpLibrary) where
  unfoldable pub forwarded_from : HeaderMap → ClientHeaders → HeaderMap
  forwarded_from known [] = known
  forwarded_from known ((name, none) ∷ headers) = forwarded_from known headers
  forwarded_from known ((name, some value) ∷ headers) =
      forwarded_from
        (if is_hop_header name
          then known
          else HashMap.insert (http.to_ascii_lowercase name) value known)
        headers

  abbrev pub forwarded_request_headers : ClientHeaders → HeaderMap
  forwarded_request_headers headers = forwarded_from [] headers

  -- `insert` on the response's headers, which replaces.
  abbrev pub insert_header : HeaderMap → String → String → HeaderMap
  insert_header known name value = elim (http.header_name name) [
    | none ↦ known
    | some header_name ↦ elim (http.header_value value) [
      | none ↦ known
      | some header_value ↦ HashMap.insert header_name header_value known
    ]
  ]

  unfoldable pub response_headers : HeaderMap → HeaderMap → HeaderMap
  response_headers known [] = known
  response_headers known ((name, value) ∷ headers) =
      response_headers (insert_header known name value) headers

  abbrev pub response_complete_to_http_response : ResponseCompleteMessage → Response
  response_complete_to_http_response response = record {
    status = status_or_bad_gateway response.status_code;
    headers = response_headers [] response.headers;
    body = Body.text (unwrap_or response.body "");
  }

  abbrev pub transport_of : ClientRequest → Bool → RequestTransport
  transport_of request is_streaming = record {
    endpoint_path = request.path;
    method = request.method;
    is_streaming = is_streaming;
    body = request.body;
    headers = forwarded_request_headers request.headers;
  }

  -- The part of the handler behind the model's name.
  abbrev pub submit :
      {S : Type 0}
      → HttpState S
      → ProxyServerCore
      → Instant
      → ClientRequest
      → ProxyRequestBody
      → String
      → ProxyServerCore × Progress
  submit state c now request parsed model =
      let routing : Option ProviderRouting =
        or_else parsed.provider
          (header_of request.headers "x-provider" >>= λ name. some (only_provider name)) in
      if parsed.stream
      then waiting waits_streaming (
          submit_http_streaming_request c now state.models_provider model
            (transport_of request true) routing)
      else waiting waits_unary (
          submit_http_response_request c now state.models_provider model
            (transport_of request false) routing)

  abbrev pub parsed_body : ClientRequest → ProxyRequestBody
  parsed_body request =
      unwrap_or request.parsed (record { model = none; stream = false; provider = none })

  abbrev pub route :
      {S : Type 0}
      → HttpState S
      → ProxyServerCore
      → Instant
      → ClientRequest
      → ProxyServerCore × Progress
  route state c now request =
      let parsed : ProxyRequestBody = parsed_body request in
      if state.provider_enabled
      then elim (or_else parsed.model (header_of request.headers "x-model")) [
        | none ↦ (
          c,
          answered (
              respond 400 (
                Body.error "invalid_request" "model is required (in JSON body or X-Model header)")),
        )
        | some model ↦ submit state c now request parsed model
      ]
      else (c, answered (availability_failure_response RequestFailureReason.provider_disabled))

  unfoldable pub wildcard_handler :
      {S : Type 0} → HttpState S → World S → Instant → ClientRequest → World S × Progress
  wildcard_handler state w now request =
      after_check w (route state w.core now request)
        (check_client_api_key state w.keys request.headers)

  unfoldable pub await_unary :
      ProxyServerCore → CancellationGuard → Awaited → ProxyServerCore × Option Response
  await_unary c guard (received (ok response)) =
      (c, some (response_complete_to_http_response response))
  await_unary c guard (received (err reason)) = (c, some (availability_failure_response reason))
  await_unary c guard sender_dropped = (drop_guard c guard, some (respond 502 Body.nothing))
  await_unary c guard client_gone = (drop_guard (drop_receiver c guard.request_id) guard, none)
