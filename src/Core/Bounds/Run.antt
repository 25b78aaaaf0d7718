-- ===== src/Core/Bounds/Run.antt =====
-- Every history keeps every worker within its slots.
use llm_worker_proxy.Shared.{
  ◌≡◌, refl, sym, subst, String, List, [], ◌∷◌, Option, some, inl, inr, arith, Option-cases,
  string_eq, Bool,
}
use llm_worker_proxy.Shared.HashMap
use llm_worker_proxy.Protocol.{ProviderRouting, ResponseCompleteMessage}
use llm_worker_proxy.Core.State.{
  ProxyServerCore, WorkerState, SubmissionOutcome, PendingHttpResponseSender, RequestTransport,
  Instant, new,
}
use llm_worker_proxy.Core.Workers.{
  take_pending_worker_requests, take_pending_worker_cancel_signals,
  take_pending_worker_graceful_shutdown_signals, request_worker_models_refresh,
  take_pending_worker_models_refresh_signals, take_graceful_shutdown_disconnect_reason,
}
use llm_worker_proxy.Core.Dispatch.{submit_transport_request}
use llm_worker_proxy.Core.Responses.{
  remove_sender, with_sender, submit_http_response_request, submit_http_streaming_request,
  send_chunk, stream_http_response_chunk, complete_http_response,
}
use llm_worker_proxy.Core.Step.{Event, step, run, configure_queue}
use llm_worker_proxy.Core.Bounds.{IsSound, AllSound}
use llm_worker_proxy.Core.Bounds.Dispatch
use llm_worker_proxy.Core.Bounds.Lifecycle

workers-with_sender :
    (sender : PendingHttpResponseSender) (r : ProxyServerCore × SubmissionOutcome)
    → (with_sender sender r).0.workers ≡ r.0.workers
unfolding with_sender
workers-with_sender sender (c, SubmissionOutcome.dispatched a) = refl
workers-with_sender sender (c, SubmissionOutcome.queued a) = refl
workers-with_sender sender (c, SubmissionOutcome.rejected f) = refl

workers-stream :
    (c : ProxyServerCore) (id request_id chunk : String)
    → (stream_http_response_chunk c id request_id chunk).0.workers ≡ c.workers
unfolding stream_http_response_chunk send_chunk
workers-stream c id request_id chunk = ground arith

complete-AllSound :
    (c : ProxyServerCore) (id : String) (response : ResponseCompleteMessage)
    → AllSound c.workers
    → AllSound (complete_http_response c id response).0.workers
unfolding complete_http_response
complete-AllSound c id response all =
    elim (Option-cases (HashMap.get response.request_id c.pending_http_response_senders)) [
      | inl nothing ↦ rw (nothing, complete_http_response) all
      | inr (sender, found) ↦
          rw (found, complete_http_response)
            (Dispatch.finish-AllSound (remove_sender c response.request_id) id response.request_id
              all)
    ]

workers-refresh :
    (c : ProxyServerCore) (id : String) (reason : Option String)
    → (request_worker_models_refresh c id reason).0.workers ≡ c.workers
unfolding request_worker_models_refresh
workers-refresh c id reason = ground arith

module _ (c : ProxyServerCore) (all : AllSound c.workers) where
  submit_unary-AllSound :
      (now : Instant) (provider model : String) (transport : RequestTransport)
      (routing : Option ProviderRouting)
      → AllSound (submit_http_response_request c now provider model transport routing).0.workers
  unfolding submit_http_response_request
  submit_unary-AllSound now provider model transport routing =
      subst AllSound
        (sym (
          workers-with_sender PendingHttpResponseSender.unary (
            submit_transport_request c now provider model
              (record transport { is_streaming = Bool.false }) routing)))
        (Dispatch.submit-AllSound c now provider model
          (record transport { is_streaming = Bool.false }) routing all)

  submit_streaming-AllSound :
      (now : Instant) (provider model : String) (transport : RequestTransport)
      (routing : Option ProviderRouting)
      → AllSound (submit_http_streaming_request c now provider model transport routing).0.workers
  unfolding submit_http_streaming_request
  submit_streaming-AllSound now provider model transport routing =
      subst AllSound
        (sym (
          workers-with_sender PendingHttpResponseSender.streaming (
            submit_transport_request c now provider model
              (record transport { is_streaming = Bool.true }) routing)))
        (Dispatch.submit-AllSound c now provider model
          (record transport { is_streaming = Bool.true }) routing all)

-- One event.
pub step-AllSound :
    (c : ProxyServerCore) (e : Event) → AllSound c.workers → AllSound (step c e).workers
unfolding step configure_queue
step-AllSound c (Event.configure_provider_queue provider policy) all = all
step-AllSound c (Event.register_worker provider register) all =
    Dispatch.register-AllSound c provider register all
step-AllSound c (Event.update_worker_models id update) all =
    Dispatch.update_models-AllSound c id update all
step-AllSound c (Event.record_worker_pong id pong) all = Dispatch.pong-AllSound c id pong all
step-AllSound c (Event.submit_transport_request now provider model transport routing) all =
    Dispatch.submit-AllSound c now provider model transport routing all
step-AllSound c (Event.submit_http_response_request now provider model transport routing) all =
    submit_unary-AllSound c all now provider model transport routing
step-AllSound c (Event.submit_http_streaming_request now provider model transport routing) all =
    submit_streaming-AllSound c all now provider model transport routing
step-AllSound c (Event.finish_request id request_id) all =
    Dispatch.finish-AllSound c id request_id all
step-AllSound c (Event.stream_http_response_chunk id request_id chunk) all =
    subst AllSound (sym (workers-stream c id request_id chunk)) all
step-AllSound c (Event.complete_http_response id response) all = complete-AllSound c id response all
step-AllSound c (Event.take_pending_worker_requests id) all =
    unfold take_pending_worker_requests in all
step-AllSound c (Event.take_pending_worker_cancel_signals id) all =
    unfold take_pending_worker_cancel_signals in all
step-AllSound c (Event.take_pending_worker_graceful_shutdown_signals id) all =
    unfold take_pending_worker_graceful_shutdown_signals in all
step-AllSound c (Event.request_worker_models_refresh id reason) all =
    subst AllSound (sym (workers-refresh c id reason)) all
step-AllSound c (Event.take_pending_worker_models_refresh_signals id) all =
    unfold take_pending_worker_models_refresh_signals in all
step-AllSound c (Event.disconnect_drained_worker_if_idle id) all =
    Lifecycle.disconnect_drained-AllSound c id all
step-AllSound c (Event.take_graceful_shutdown_disconnect_reason id) all =
    unfold take_graceful_shutdown_disconnect_reason in all
step-AllSound c (Event.begin_graceful_shutdown now reason timeout) all =
    Lifecycle.begin_shutdown-AllSound c now reason timeout all
step-AllSound c (Event.expire_graceful_shutdown now) all =
    Lifecycle.expire_shutdown-AllSound c now all
step-AllSound c (Event.expire_queue_timeouts now) all =
    subst AllSound (sym (Lifecycle.workers-expire_queues c now)) all
step-AllSound c (Event.delete_provider provider) all =
    Lifecycle.delete_provider-AllSound c provider all
step-AllSound c (Event.disconnect_worker id) all = Lifecycle.disconnect-AllSound c id all
step-AllSound c (Event.cancel_request id reason) all =
    subst AllSound (sym (Lifecycle.workers-cancel c id reason)) all

run-AllSound_from :
    (c : ProxyServerCore) (es : List Event) → AllSound c.workers → AllSound (run c es).workers
unfolding run
run-AllSound_from c [] all = all
run-AllSound_from c (e ∷ es) all = run-AllSound_from (step c e) es (step-AllSound c e all)

-- After any history of operations on a new core, every registered worker has at least one slot, no
-- more requests in flight than slots, and a drain deadline exactly if it is draining.
pub run-IsSound :
    (es : List Event) (id : String) (w : WorkerState)
    → HashMap.get id (run new es).workers ≡ some w
    → IsSound w
unfolding HashMap.get
run-IsSound es id w h = run-AllSound_from new es (λ jd v found. absurd (cc)) id w h
