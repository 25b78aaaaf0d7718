-- ===== src/Socket/Messages/Bounds.antt =====
-- The messages of workers keep the invariant of the registered workers.
use llm_worker_proxy.Shared.{
  ◌≡◌, inl, inr, String, Option, none, some, Bool-cases, is_some, string_eq,
}
use llm_worker_proxy.Shared.HashMap
use llm_worker_proxy.Protocol.{ResponseCompleteMessage, WorkerToServerMessage}
use llm_worker_proxy.Core.State.{ProxyServerCore, WorkerState}
use llm_worker_proxy.Core.Dispatch.{finish_request}
use llm_worker_proxy.Core.Responses.{complete_http_response}
use llm_worker_proxy.Core.Step.{Event, step}
use llm_worker_proxy.Core.Bounds.{AllSound, IsSound}
use llm_worker_proxy.Core.Bounds.Run.{step-AllSound}
use llm_worker_proxy.Socket.Messages.{handle_worker_message, handle_complete}

handle_complete-AllSound :
    (c : ProxyServerCore) (id : String) (response : ResponseCompleteMessage)
    → AllSound c.workers
    → AllSound (handle_complete c id response).0.workers
unfolding handle_complete step
handle_complete-AllSound c id response all =
    let c1 = (complete_http_response c id response).0 in
    let completed = step-AllSound c (Event.complete_http_response id response) all in
    let c2 = (finish_request c1 id response.request_id).0 in
    let finished = step-AllSound c1 (Event.finish_request id response.request_id) completed in
    elim (Bool-cases (complete_http_response c id response).1) [
      | inl done ↦ rw done completed
      | inr waits ↦ elim (Bool-cases (is_some (finish_request c1 id response.request_id).1)) [
        | inl next ↦ rw (waits, next) finished
        | inr last ↦ rw (waits, last) finished
      ]
    ]

handle_message-AllSound :
    (c : ProxyServerCore) (id : String) (message : Option WorkerToServerMessage)
    → AllSound c.workers
    → AllSound (handle_worker_message c id message).0.workers
unfolding handle_worker_message step
handle_message-AllSound c id none all = all
handle_message-AllSound c id (some (WorkerToServerMessage.models_update update)) all =
    elim (Bool-cases (HashMap.contains_key id c.workers)) [
      | inl known ↦ rw known (step-AllSound c (Event.update_worker_models id update) all)
      | inr unknown ↦ rw unknown all
    ]
handle_message-AllSound c id (some (WorkerToServerMessage.pong pong)) all =
    elim (Bool-cases (HashMap.contains_key id c.workers)) [
      | inl known ↦ rw known (step-AllSound c (Event.record_worker_pong id pong) all)
      | inr unknown ↦ rw unknown all
    ]
handle_message-AllSound c id (some (WorkerToServerMessage.response_chunk chunk)) all =
    step-AllSound c (Event.stream_http_response_chunk id chunk.request_id chunk.chunk) all
handle_message-AllSound c id (some (WorkerToServerMessage.response_complete response)) all =
    handle_complete-AllSound c id response all
handle_message-AllSound c id (some (WorkerToServerMessage.register register)) all = all
handle_message-AllSound c id (some (WorkerToServerMessage.error message)) all = all

-- Whatever a worker sends, also text that is no message: if every registered worker has at least one
-- slot, no more requests in flight than slots, and a drain deadline exactly if it is draining, then so
-- has every worker behind the message.
pub handle_message-IsSound :
    (c : ProxyServerCore) (id other : String) (message : Option WorkerToServerMessage)
    (w : WorkerState)
    → AllSound c.workers
    → HashMap.get other (handle_worker_message c id message).0.workers ≡ some w
    → IsSound w
handle_message-IsSound c id other message w all found =
    handle_message-AllSound c id message all other w found
