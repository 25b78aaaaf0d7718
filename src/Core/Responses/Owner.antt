-- ===== src/Core/Responses/Owner.antt =====
-- Whose messages reach the client of a request.
use llm_worker_proxy.Shared.{
  ◌≡◌, refl, Bool, false, String, List, [], ◌∷◌, Option, none, some, arith, string_eq, ◌==◌,
  position, any, contains,
}
use llm_worker_proxy.Shared.HashMap
use llm_worker_proxy.Protocol.{ResponseCompleteMessage}
use llm_worker_proxy.Core.State.{
  ProxyServerCore, WorkerState, RequestRecord, ActiveRequestState, CancelReason, HttpResponseEvent,
  PendingHttpResponseSender,
}
use llm_worker_proxy.Core.Dispatch.{finish_request, without_request}
use llm_worker_proxy.Core.Responses.{request_state, deliver, remove_sender, complete_http_response}

pub any-position :
    {A : Type 0} (p : A → Bool) (xs : List A) → any p xs ≡ false → position p xs ≡ none
any-position p [] h = refl
any-position p (x ∷ xs) h = ground (arith, any-position p xs)

finish-foreign :
    (c : ProxyServerCore) (id request_id : String) (w : WorkerState)
    → HashMap.get id c.workers ≡ some w
    → contains request_id w.in_flight_requests ≡ false
    → finish_request c id request_id ≡ (c, none)
unfolding finish_request without_request
finish-foreign c id request_id w found foreign =
    ground (arith, any-position (λ i. i == request_id) w.in_flight_requests foreign)

-- A `response_complete` of a worker that does not hold the request is still sent to the client, and uses
-- up its sender: the worker that does hold the request can no longer answer. The sending worker is
-- not checked, as it is for chunks.
pub complete_by_foreign_worker :
    (c : ProxyServerCore) (id owner : String) (w : WorkerState) (response : ResponseCompleteMessage)
    (later : ResponseCompleteMessage) (sender : PendingHttpResponseSender) (q : RequestRecord)
    (cancellation : Option CancelReason)
    → HashMap.get id c.workers ≡ some w
    → contains response.request_id w.in_flight_requests ≡ false
    → HashMap.get response.request_id c.pending_http_response_senders ≡ some sender
    → HashMap.get response.request_id c.active_requests
      ≡ some (ActiveRequestState.in_flight q owner cancellation)
    → later.request_id ≡ response.request_id
    → let d : ProxyServerCore =
        deliver
          (remove_sender c response.request_id)
          response.request_id
          sender
          (HttpResponseEvent.complete response) in
      (complete_http_response c id response ≡ (d, false))
      × (complete_http_response d owner later ≡ (d, false))
unfolding complete_http_response request_state
complete_by_foreign_worker c id owner w response later sender q cancellation found foreign waiting
      active same =
    (
      ground (
        arith,
        finish-foreign (remove_sender c response.request_id) id response.request_id w found foreign,
      ),
      ground (arith, HashMap.get-remove_self response.request_id c.pending_http_response_senders),
    )
