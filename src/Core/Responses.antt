-- ===== src/Core/Responses.antt =====
-- crates/modelrelay-server/src/lib.rs: the HTTP side of `ProxyServerCore`, that is submissions that
-- wait for a response, and the responses' way back.
pub mod Frame
pub mod Owner
use llm_worker_proxy.Shared.{
  Bool, true, false, ◌||◌, String, List, contains, [], ◌∷◌, ◌++◌, Option, none, some, ◌==◌,
  string_eq, if◌then◌else◌, is_some, is_none,
}
use llm_worker_proxy.Shared.HashMap
use llm_worker_proxy.Protocol.{ProviderRouting, ResponseCompleteMessage}
use llm_worker_proxy.Core.State.{
  ProxyServerCore, RequestTransport, ActiveRequestState, RequestState, RequestFailure,
  RequestFailureReason, SubmissionOutcome, HttpResponseEvent, PendingHttpResponseSender, Delivery,
  unary, streaming, Instant,
}
use llm_worker_proxy.Core.Dispatch.{submit_transport_request, finish_request}

unfoldable pub request_state : ProxyServerCore → String → Option RequestState
request_state c request_id = elim (HashMap.get request_id c.active_requests) [
  | none ↦ none
  | some (ActiveRequestState.queued _) ↦ some RequestState.queued
  | some (ActiveRequestState.in_flight _ worker_id cancellation) ↦
      some (RequestState.in_flight worker_id cancellation)
]

-- What a send gives the receiver: nothing, once the receiver is dropped.
unfoldable pub reaches : List String → Delivery → List Delivery
reaches gone d = if contains d.request_id gone then [] else d ∷ []

-- A send on a registered sender; the source ignores its failure.
abbrev pub deliver :
    ProxyServerCore → String → PendingHttpResponseSender → HttpResponseEvent → ProxyServerCore
deliver c request_id sender event = record c {
  delivered =
      c.delivered
      ++ reaches c.gone_receivers
          (record { request_id = request_id; sender = sender; event = event });
}

abbrev pub remove_sender : ProxyServerCore → String → ProxyServerCore
remove_sender c request_id = record c {
  pending_http_response_senders = HashMap.remove request_id c.pending_http_response_senders;
}

-- The result, whether the receiver was still there, is left out: no caller reads it.
unfoldable pub fail_pending_http_response :
    ProxyServerCore → String → RequestFailureReason → ProxyServerCore
fail_pending_http_response c request_id reason =
    elim (HashMap.get request_id c.pending_http_response_senders) [
      | none ↦ c
      | some sender ↦
          deliver (remove_sender c request_id) request_id sender (HttpResponseEvent.failure reason)
    ]

pub data Submitted : Type 0 where
  accepted : String → Submitted
  refused : RequestFailure → Submitted

-- The sender is registered behind the submission.
unfoldable pub with_sender :
    PendingHttpResponseSender → ProxyServerCore × SubmissionOutcome → ProxyServerCore × Submitted
with_sender sender (c, SubmissionOutcome.dispatched a) = (
  record c {
    pending_http_response_senders =
        HashMap.insert a.request_id sender c.pending_http_response_senders;
  },
  accepted a.request_id,
)
with_sender sender (c, SubmissionOutcome.queued a) = (
  record c {
    pending_http_response_senders =
        HashMap.insert a.request_id sender c.pending_http_response_senders;
  },
  accepted a.request_id,
)
with_sender sender (c, SubmissionOutcome.rejected failed) = (c, refused failed)

unfoldable pub submit_http_response_request :
    ProxyServerCore
    → Instant
    → String
    → String
    → RequestTransport
    → Option ProviderRouting
    → ProxyServerCore × Submitted
submit_http_response_request c now provider model transport provider_routing = with_sender unary (
    submit_transport_request c now provider model (record transport { is_streaming = false })
      provider_routing)

unfoldable pub submit_http_streaming_request :
    ProxyServerCore
    → Instant
    → String
    → String
    → RequestTransport
    → Option ProviderRouting
    → ProxyServerCore × Submitted
submit_http_streaming_request c now provider model transport provider_routing =
    with_sender streaming (
      submit_transport_request c now provider model (record transport { is_streaming = true })
        provider_routing)

-- `matches!(self.request_state(request_id), Some(InFlight { worker_id, .. }) if ..)`.
unfoldable pub is_in_flight_on : ProxyServerCore → String → String → Bool
is_in_flight_on c worker_id request_id = elim (request_state c request_id) [
  | none ↦ false
  | some RequestState.queued ↦ false
  | some (RequestState.in_flight active_worker_id _) ↦ active_worker_id == worker_id
]

unfoldable pub send_chunk : ProxyServerCore → String → String → ProxyServerCore
send_chunk c request_id chunk = elim (HashMap.get request_id c.pending_http_response_senders) [
  | none ↦ c
  | some unary ↦ c
  | some streaming ↦ deliver c request_id streaming (HttpResponseEvent.chunk chunk)
]

unfoldable pub stream_http_response_chunk :
    ProxyServerCore → String → String → String → ProxyServerCore × Bool
stream_http_response_chunk c worker_id request_id chunk =
    if is_in_flight_on c worker_id request_id
    then (send_chunk c request_id chunk, true)
    else (c, false)

unfoldable pub complete_http_response :
    ProxyServerCore → String → ResponseCompleteMessage → ProxyServerCore × Bool
complete_http_response c worker_id response =
    elim (HashMap.get response.request_id c.pending_http_response_senders) [
      | none ↦ (c, false)
      | some sender ↦
          let (c', next) =
            finish_request (remove_sender c response.request_id) worker_id response.request_id in
          (
            deliver c' response.request_id sender (HttpResponseEvent.complete response),
            is_some next || is_none (request_state c' response.request_id),
          )
    ]
