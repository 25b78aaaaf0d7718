-- ===== src/Core/Step.antt =====
-- The operations of `ProxyServerCore` as events, and histories of events. Each call is made under
-- the core's lock, so a history is a list.
use llm_worker_proxy.Shared.{List, [], ◌∷◌, String, string_eq, Option}
use llm_worker_proxy.Protocol.{
  ProviderRouting, RegisterMessage, ModelsUpdateMessage, PongMessage, ResponseCompleteMessage,
}
use llm_worker_proxy.Shared.HashMap
use llm_worker_proxy.Core.State.{
  ProxyServerCore, RequestTransport, Instant, Duration, CancelReason, ProviderQueuePolicy,
}
use llm_worker_proxy.Core.Workers
use llm_worker_proxy.Core.Dispatch
use llm_worker_proxy.Core.Responses
use llm_worker_proxy.Core.Lifecycle

-- `ProxyServerCore::configure_provider_queue`.
unfoldable pub configure_queue : ProxyServerCore → String → ProviderQueuePolicy → ProxyServerCore
configure_queue c provider policy = record c {
  provider_queue_policies = HashMap.insert provider policy c.provider_queue_policies;
}

pub data Event : Type 0 where
  configure_provider_queue : String → ProviderQueuePolicy → Event
  register_worker : String → RegisterMessage → Event
  update_worker_models : String → ModelsUpdateMessage → Event
  record_worker_pong : String → PongMessage → Event
  submit_transport_request :
      Instant → String → String → RequestTransport → Option ProviderRouting → Event
  submit_http_response_request :
      Instant → String → String → RequestTransport → Option ProviderRouting → Event
  submit_http_streaming_request :
      Instant → String → String → RequestTransport → Option ProviderRouting → Event
  finish_request : String → String → Event
  stream_http_response_chunk : String → String → String → Event
  complete_http_response : String → ResponseCompleteMessage → Event
  take_pending_worker_requests : String → Event
  take_pending_worker_cancel_signals : String → Event
  take_pending_worker_graceful_shutdown_signals : String → Event
  request_worker_models_refresh : String → Option String → Event
  take_pending_worker_models_refresh_signals : String → Event
  disconnect_drained_worker_if_idle : String → Event
  take_graceful_shutdown_disconnect_reason : String → Event
  begin_graceful_shutdown : Instant → Option String → Duration → Event
  expire_graceful_shutdown : Instant → Event
  expire_queue_timeouts : Instant → Event
  delete_provider : String → Event
  disconnect_worker : String → Event
  cancel_request : String → CancelReason → Event

unfoldable pub step : ProxyServerCore → Event → ProxyServerCore
step c (configure_provider_queue provider policy) = configure_queue c provider policy
step c (register_worker provider register) = (Workers.register_worker c provider register).0
step c (update_worker_models id update) = (Dispatch.update_worker_models c id update).0
step c (record_worker_pong id pong) = (Dispatch.record_worker_pong c id pong).0
step c (submit_transport_request now provider model transport routing) =
    (Dispatch.submit_transport_request c now provider model transport routing).0
step c (submit_http_response_request now provider model transport routing) =
    (Responses.submit_http_response_request c now provider model transport routing).0
step c (submit_http_streaming_request now provider model transport routing) =
    (Responses.submit_http_streaming_request c now provider model transport routing).0
step c (finish_request id request_id) = (Dispatch.finish_request c id request_id).0
step c (stream_http_response_chunk id request_id chunk) =
    (Responses.stream_http_response_chunk c id request_id chunk).0
step c (complete_http_response id response) = (Responses.complete_http_response c id response).0
step c (take_pending_worker_requests id) = (Workers.take_pending_worker_requests c id).0
step c (take_pending_worker_cancel_signals id) = (Workers.take_pending_worker_cancel_signals c id).0
step c (take_pending_worker_graceful_shutdown_signals id) =
    (Workers.take_pending_worker_graceful_shutdown_signals c id).0
step c (request_worker_models_refresh id reason) =
    (Workers.request_worker_models_refresh c id reason).0
step c (take_pending_worker_models_refresh_signals id) =
    (Workers.take_pending_worker_models_refresh_signals c id).0
step c (disconnect_drained_worker_if_idle id) = (Workers.disconnect_drained_worker_if_idle c id).0
step c (take_graceful_shutdown_disconnect_reason id) =
    (Workers.take_graceful_shutdown_disconnect_reason c id).0
step c (begin_graceful_shutdown now reason timeout) =
    (Lifecycle.begin_graceful_shutdown c now reason timeout).0
step c (expire_graceful_shutdown now) = (Lifecycle.expire_graceful_shutdown c now).0
step c (expire_queue_timeouts now) = (Lifecycle.expire_queue_timeouts c now).0
step c (delete_provider provider) = Lifecycle.delete_provider c provider
step c (disconnect_worker id) = (Lifecycle.disconnect_worker c id).0
step c (cancel_request id reason) = (Lifecycle.cancel_request c id reason).0

unfoldable pub run : ProxyServerCore → List Event → ProxyServerCore
run c [] = c
run c (e ∷ es) = run (step c e) es
