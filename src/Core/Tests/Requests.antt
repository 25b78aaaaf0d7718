-- ===== src/Core/Tests/Requests.antt =====
-- Submission, dispatch, responses and cancellation on small states.
use llm_worker_proxy.Shared.{
  ◌≡◌, ◌≤◌, refl, String, find, false, List, [], ◌∷◌, ◌++◌, none, some, string_eq, ◌==◌, any,
}
use llm_worker_proxy.Shared.HashMap
use llm_worker_proxy.Protocol.{ResponseCompleteMessage}
use llm_worker_proxy.Core.State.{
  ProxyServerCore, RequestRecord, ActiveRequestState, supports_model, prefixes_support,
  CancelReason, PendingHttpResponseSender, HttpResponseEvent, CancellationOutcome,
}
use llm_worker_proxy.Core.Workers.{sanitize_models}
use llm_worker_proxy.Core.Dispatch.{
  dispatch_while, dispatch_all, dispatch_next_compatible, record_worker_pong, update_worker_models,
  new_request, submit_transport_request, compatible, queue_of,
}
use llm_worker_proxy.Core.Dispatch.Oldest.{dispatch_takes_oldest}
use llm_worker_proxy.Core.Dispatch.Submission.{Explains, submit-Explains}
use llm_worker_proxy.Core.Dispatch.Loop.{dispatch_all_total}
use llm_worker_proxy.Core.Dispatch.Filled.{Filled, reports_fill_worker}
use llm_worker_proxy.Core.Responses.{deliver, remove_sender, complete_http_response}
use llm_worker_proxy.Core.Responses.Owner.{complete_by_foreign_worker}
use llm_worker_proxy.Core.Lifecycle.{cancel_request}
use llm_worker_proxy.Core.Lifecycle.Cancel.{cancel_first_wins, cancel_queued_removes}
use llm_worker_proxy.Core.Tests.{chat, idle, held, waiting, two_workers}

submit-Explains_example :
    Explains two_workers
      (new_request two_workers 9 "p" "x" chat none)
      (submit_transport_request two_workers 9 "p" "x" chat none).0
      (submit_transport_request two_workers 9 "p" "x" chat none).1
submit-Explains_example = submit-Explains two_workers 9 "p" "x" chat none

dispatch_all_total_example :
    (dispatch_while 3 two_workers "a" ≡ some (dispatch_all two_workers "a" idle))
    × ((dispatch_next_compatible (dispatch_all two_workers "a" idle).0 "a").1 ≡ none)
unfolding HashMap.get
dispatch_all_total_example = dispatch_all_total two_workers "a" idle refl

reports_fill_worker_example :
    Filled
      (record_worker_pong two_workers "a" (record { current_load = 0; timestamp_unix_ms = none })).0
      "a"
      "p"
      ("m" ∷ [])
    × Filled
        (update_worker_models two_workers "a" (record { models = "m" ∷ []; current_load = 1 })).0
        "a"
        "p"
        (sanitize_models ("m" ∷ []))
unfolding HashMap.get
reports_fill_worker_example =
    reports_fill_worker two_workers "a" "p" idle
      (record { current_load = 0; timestamp_unix_ms = none })
      (record { models = "m" ∷ []; current_load = 1 }) refl (refl, tt)

abbrev answer : ResponseCompleteMessage
answer = record {
  request_id = "r";
  status_code = 200;
  headers = [];
  body = some "{}";
  token_counts = none;
}

complete_by_foreign_worker_example :
    let d : ProxyServerCore =
      deliver
        (remove_sender two_workers "r")
        "r"
        PendingHttpResponseSender.streaming
        (HttpResponseEvent.complete answer) in
    (complete_http_response two_workers "a" answer ≡ (d, false))
    × (complete_http_response d "b" answer ≡ (d, false))
unfolding HashMap.get
complete_by_foreign_worker_example =
    complete_by_foreign_worker two_workers "a" "b" idle answer answer
      PendingHttpResponseSender.streaming held none refl refl refl refl refl

cancel_first_wins_example :
    let d : ProxyServerCore = (cancel_request two_workers "r" CancelReason.client_disconnected).0 in
    (d.worker_cancel_signals
      ≡ record { worker_id = "b"; request_id = "r"; reason = CancelReason.client_disconnected }
        ∷ [])
    × (cancel_request d "r" CancelReason.request_timed_out ≡ (
      d,
      some (
          CancellationOutcome.worker_cancel_sent (record {
            worker_id = "b";
            request_id = "r";
            reason = CancelReason.client_disconnected;
          })),
    ))
unfolding HashMap.get
cancel_first_wins_example =
    cancel_first_wins two_workers "r" "b" held CancelReason.client_disconnected
      CancelReason.request_timed_out refl

cancel_queued_removes_example :
    let d : ProxyServerCore = (cancel_request two_workers "s" CancelReason.client_disconnected).0 in
    (before : List RequestRecord) × (x : RequestRecord) × (after : List RequestRecord) × (waiting
        ∷ []
      ≡ before ++ (x ∷ after))
    × (x.request_id ≡ "s")
    × (any (λ r. r.request_id == "s") before ≡ false)
    × (HashMap.get "p" d.provider_queues ≡ some (before ++ after))
    × (HashMap.get "s" d.active_requests ≡ none)
    × (HashMap.get "s" d.pending_http_response_senders ≡ none)
    × ((cancel_request two_workers "s" CancelReason.client_disconnected).1
        ≡ some (CancellationOutcome.removed_from_queue "s"))
unfolding HashMap.get
cancel_queued_removes_example =
    cancel_queued_removes two_workers "s" CancelReason.client_disconnected waiting (waiting ∷ [])
      refl refl refl

dispatch_takes_oldest_example :
    (q : RequestRecord) × (own : String) × ((dispatch_next_compatible two_workers "a").1
      ≡ some (record { request_id = q.request_id; worker_id = "a" }))
    × (HashMap.get q.request_id (dispatch_next_compatible two_workers "a").0.active_requests
        ≡ some (ActiveRequestState.in_flight q "a" none))
    × (find (compatible idle) (queue_of two_workers own) ≡ some q)
    × (q.queued_at ≤ waiting.queued_at)
unfolding HashMap.get compatible supports_model prefixes_support
dispatch_takes_oldest_example =
    dispatch_takes_oldest two_workers "a" "p" idle waiting refl refl refl (refl, tt) refl
