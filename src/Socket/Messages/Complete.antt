-- ===== src/Socket/Messages/Complete.antt =====
-- The messages by which a worker answers its requests.
use llm_worker_proxy.Shared.{
  ◌≡◌, refl, inl, inr, arith, true, ◌||◌, ◌&&◌, String, some, Bool-cases, Option-cases, ◌==◌,
  string_eq, contains, is_some, is_none, is_empty, ◌++◌, ◌-◌, position-remove_idx,
}
use llm_worker_proxy.Shared.HashMap
use llm_worker_proxy.Protocol.{ResponseCompleteMessage, WorkerToServerMessage}
use llm_worker_proxy.Core.State.{ProxyServerCore, WorkerState}
use llm_worker_proxy.Core.Workers.{remove_worker, without_worker}
use llm_worker_proxy.Core.Dispatch.{
  finish_request, after_finish, without_request, dispatch_next_compatible,
}
use llm_worker_proxy.Core.Dispatch.Loop.{next_none}
use llm_worker_proxy.Core.Lifecycle.Cancel.{any-position_some}
use llm_worker_proxy.Core.Responses.{request_state, complete_http_response, remove_sender}
use llm_worker_proxy.Socket.Messages.{handle_worker_message, handle_complete}

without_request_held :
    (w : WorkerState) (request_id : String)
    → contains request_id w.in_flight_requests ≡ true
    → (v : WorkerState) × (without_request w request_id ≡ some v)
unfolding without_request
without_request_held w request_id held =
    let p = λ (id : String). id == request_id in
    let (i, at) = any-position_some p w.in_flight_requests held in
    let (a, before, after, taken, _, _, _) = position-remove_idx p w.in_flight_requests i at in
    (
      record w { in_flight_requests = before ++ after; reported_load = w.reported_load - 1 },
      rw (without_request, at, taken) refl,
    )

-- Behind `finish_request` a request was dispatched, or the finished one is forgotten.
after_finish_forgets :
    (c : ProxyServerCore) (id request_id : String) (w : WorkerState)
    → (is_some (after_finish c id request_id w).1
        || is_none (request_state (after_finish c id request_id w).0 request_id))
      ≡ true
unfolding after_finish request_state remove_worker without_worker
after_finish_forgets c id request_id w =
    let forgotten = HashMap.get-remove_self request_id c.active_requests in
    elim (Bool-cases (w.is_draining && is_empty w.in_flight_requests)) [
      | inl drained ↦ ground (arith, forgotten)
      | inr stays ↦
          let d : ProxyServerCore = record c {
            workers = HashMap.insert id w c.workers;
            active_requests = HashMap.remove request_id c.active_requests;
          } in
          rw (after_finish, stays)
            (elim (Option-cases (dispatch_next_compatible d id).1) [
              | inl nothing ↦ let same = next_none d id nothing in ground (arith, forgotten)
              | inr (a, dispatched) ↦ ground arith
            ])
    ]

finish_forgets :
    (c : ProxyServerCore) (id request_id : String) (w : WorkerState)
    → HashMap.get id c.workers ≡ some w
    → contains request_id w.in_flight_requests ≡ true
    → (is_some (finish_request c id request_id).1
        || is_none (request_state (finish_request c id request_id).0 request_id))
      ≡ true
unfolding finish_request
finish_forgets c id request_id w found held =
    let (v, left) = without_request_held w request_id held in
    let same : finish_request c id request_id ≡ after_finish c id request_id v = ground arith in
    rw same (after_finish_forgets c id request_id v)

-- A worker that answers a request that it holds keeps its connection, whether or not a client still
-- waits for the answer.
pub own_complete_stays_open :
    (c : ProxyServerCore) (id : String) (w : WorkerState) (response : ResponseCompleteMessage)
    → HashMap.get id c.workers ≡ some w
    → contains response.request_id w.in_flight_requests ≡ true
    → (handle_worker_message c id (some (WorkerToServerMessage.response_complete response))).1
      ≡ true
unfolding handle_worker_message handle_complete complete_http_response
own_complete_stays_open c id w response found held =
    elim (Option-cases (HashMap.get response.request_id c.pending_http_response_senders)) [
      | inl nobody ↦ ground (arith, finish_forgets c id response.request_id w found held)
      | inr (sender, waiting) ↦ ground (
        arith,
        finish_forgets (remove_sender c response.request_id) id response.request_id w found held,
      )
    ]
