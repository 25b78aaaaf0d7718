-- ===== src/Socket/Loop/History.antt =====
-- A connection acts on the core through the core's operations only.
use llm_worker_proxy.Shared.{
  ℕ, ◌≡◌, refl, sym, ap, ◌∙◌, subst, inl, inr, Bool, true, false, String, List, [], ◌∷◌, ◌++◌,
  Option, none, some, Bool-cases, is_some, contains, if◌then◌else◌, string_eq,
}
use llm_worker_proxy.Shared.HashMap
use llm_worker_proxy.Protocol.{ResponseCompleteMessage, WorkerToServerMessage}
use llm_worker_proxy.Core.State.{ProxyServerCore, Instant, WorkerState, new}
use llm_worker_proxy.Core.Dispatch.{finish_request}
use llm_worker_proxy.Core.Responses.{complete_http_response}
use llm_worker_proxy.Core.Lifecycle.{expire_graceful_shutdown}
use llm_worker_proxy.Core.Workers.{
  disconnect_drained_worker_if_idle, take_graceful_shutdown_disconnect_reason,
}
use llm_worker_proxy.Core.Step.{Event, step, run}
use llm_worker_proxy.Core.Bounds.{IsSound}
use llm_worker_proxy.Core.Bounds.Run.{run-IsSound}
use llm_worker_proxy.Socket.Messages.{
  handle_worker_message, handle_complete, graceful_shutdown_close_action,
}
use llm_worker_proxy.Socket.Loop.{
  Phase, Connection, Received, Wire, LoopEvent, connection_step, loop_run, flushed, receive,
  heartbeat, flush_pending_cancels, flush_pending_requests, flush_pending_graceful_shutdowns,
  flush_pending_models_refreshes, after_text, after_ping, after_close_action, alive, pong_overdue,
  ping_due, send, heartbeat_ping,
}

-- A history of operations leads from one state of the core to the other.
abbrev pub Reaches : ProxyServerCore → ProxyServerCore → Type 0
Reaches c d = (es : List Event) × (d ≡ run c es)

run-append : (es fs : List Event) (c : ProxyServerCore) → run c (es ++ fs) ≡ run (run c es) fs
unfolding run
run-append [] fs c = refl
run-append (e ∷ es) fs c = run-append es fs (step c e)

stays : (c : ProxyServerCore) → Reaches c c
unfolding run
stays c = ([], refl)

by_step : (c : ProxyServerCore) (e : Event) → Reaches c (step c e)
unfolding run
by_step c e = (e ∷ [], refl)

and_then : (c d b : ProxyServerCore) → Reaches c d → Reaches d b → Reaches c b
and_then c d b (es, e) (fs, f) = (es ++ fs, f ∙ ap (λ x. run x fs) e ∙ sym (run-append es fs c))

if-Reaches :
    (c d b : ProxyServerCore) (test : Bool)
    → Reaches c d
    → Reaches c b
    → Reaches c (if test then d else b)
if-Reaches c d b true there here = there
if-Reaches c d b false there here = here

complete-Reaches :
    (c : ProxyServerCore) (id : String) (response : ResponseCompleteMessage)
    → Reaches c (handle_complete c id response).0
unfolding handle_complete step
complete-Reaches c id response =
    let c1 = (complete_http_response c id response).0 in
    let completed = by_step c (Event.complete_http_response id response) in
    let finished =
      and_then c c1 (finish_request c1 id response.request_id).0 completed
        (by_step c1 (Event.finish_request id response.request_id)) in
    elim (Bool-cases (complete_http_response c id response).1) [
      | inl done ↦ rw done completed
      | inr waits ↦ elim (Bool-cases (is_some (finish_request c1 id response.request_id).1)) [
        | inl next ↦ rw (waits, next) finished
        | inr last ↦ rw (waits, last) finished
      ]
    ]

message-Reaches :
    (c : ProxyServerCore) (id : String) (message : Option WorkerToServerMessage)
    → Reaches c (handle_worker_message c id message).0
unfolding handle_worker_message step
message-Reaches c id none = stays c
message-Reaches c id (some (WorkerToServerMessage.models_update update)) =
    elim (Bool-cases (HashMap.contains_key id c.workers)) [
      | inl known ↦ rw known (by_step c (Event.update_worker_models id update))
      | inr unknown ↦ rw unknown (stays c)
    ]
message-Reaches c id (some (WorkerToServerMessage.pong pong)) =
    elim (Bool-cases (HashMap.contains_key id c.workers)) [
      | inl known ↦ rw known (by_step c (Event.record_worker_pong id pong))
      | inr unknown ↦ rw unknown (stays c)
    ]
message-Reaches c id (some (WorkerToServerMessage.response_chunk chunk)) =
    by_step c (Event.stream_http_response_chunk id chunk.request_id chunk.chunk)
message-Reaches c id (some (WorkerToServerMessage.response_complete response)) =
    complete-Reaches c id response
message-Reaches c id (some (WorkerToServerMessage.register register)) = stays c
message-Reaches c id (some (WorkerToServerMessage.error message)) = stays c

flushed-Reaches :
    (c d : ProxyServerCore) (k : Connection) (next : Phase) (r : Wire × Bool)
    → Reaches c d
    → Reaches c (flushed d k next r).0
unfolding step
flushed-Reaches c d k next (wire, true) there = there
flushed-Reaches c d k next (wire, false) there =
    and_then c d _ there (by_step d (Event.disconnect_worker k.worker_id))

after_text-Reaches :
    (c : ProxyServerCore) (k : Connection) (r : ProxyServerCore × Bool)
    → Reaches c r.0
    → Reaches c (after_text k r).0
unfolding step
after_text-Reaches c k (d, true) there = there
after_text-Reaches c k (d, false) there =
    and_then c d _ there (by_step d (Event.disconnect_worker k.worker_id))

after_ping-Reaches :
    (c : ProxyServerCore) (k : Connection) (now : Instant) (r : Wire × Bool)
    → Reaches c (after_ping c k now r).0
unfolding step
after_ping-Reaches c k now (wire, true) = stays c
after_ping-Reaches c k now (wire, false) = by_step c (Event.disconnect_worker k.worker_id)

heartbeat-Reaches :
    (c : ProxyServerCore) (k : Connection) (now : Instant) → Reaches c (heartbeat c k now).0
unfolding heartbeat step
heartbeat-Reaches c k now = elim (Bool-cases (pong_overdue k now)) [
  | inl overdue ↦ rw overdue (by_step c (Event.disconnect_worker k.worker_id))
  | inr waiting ↦ elim (Bool-cases (ping_due k now)) [
    | inl due ↦ rw (waiting, due) (after_ping-Reaches c k now (send k.wire heartbeat_ping))
    | inr early ↦ rw (waiting, early) (stays c)
  ]
]

receive-Reaches :
    (c : ProxyServerCore) (k : Connection) (now : Instant) (r : Received)
    → Reaches c (receive c k now r).0
unfolding receive step
receive-Reaches c k now (Received.text payload) =
    after_text-Reaches c (alive k now) (handle_worker_message c k.worker_id payload)
      (message-Reaches c k.worker_id payload)
receive-Reaches c k now Received.close_or_error = by_step c (Event.disconnect_worker k.worker_id)
receive-Reaches c k now Received.ping_or_pong = stays c
receive-Reaches c k now Received.elapsed = heartbeat-Reaches c k now
receive-Reaches c k now Received.binary = by_step c (Event.disconnect_worker k.worker_id)

close_action-Reaches :
    (c : ProxyServerCore) (now : Instant) (id : String)
    → Reaches c (graceful_shutdown_close_action c now id).0
unfolding graceful_shutdown_close_action step
close_action-Reaches c now id =
    let c1 = (expire_graceful_shutdown c now).0 in
    let expired = by_step c (Event.expire_graceful_shutdown now) in
    let c2 = (disconnect_drained_worker_if_idle c1 id).0 in
    let drained =
      and_then c c1 c2 expired (by_step c1 (Event.disconnect_drained_worker_if_idle id)) in
    let taken =
      and_then c c2 (take_graceful_shutdown_disconnect_reason c2 id).0 drained
        (by_step c2 (Event.take_graceful_shutdown_disconnect_reason id)) in
    elim (Bool-cases (contains id (expire_graceful_shutdown c now).1.disconnected_worker_ids)) [
      | inl over ↦ rw over (
          and_then c c1 (take_graceful_shutdown_disconnect_reason c1 id).0 expired
            (by_step c1 (Event.take_graceful_shutdown_disconnect_reason id)))
      | inr in_time ↦ elim (Bool-cases (disconnect_drained_worker_if_idle c1 id).1) [
        | inl idle ↦ rw (in_time, idle) taken
        | inr working ↦ rw (in_time, working) taken
      ]
    ]

close-Reaches :
    (c : ProxyServerCore) (k : Connection) (r : ProxyServerCore × Option (ℕ × String))
    → Reaches c r.0
    → Reaches c (after_close_action k r).0
close-Reaches c k (d, none) there = there
close-Reaches c k (d, some (code, reason)) there = there

step-Reaches :
    (c : ProxyServerCore) (k : Connection) (now : Instant) (r : Received) (p : Phase)
    → Reaches c (connection_step c k now r p).0
unfolding connection_step flush_pending_cancels flush_pending_requests
    flush_pending_graceful_shutdowns flush_pending_models_refreshes step
step-Reaches c k now r Phase.cancels =
    flushed-Reaches c _ k Phase.requests _
      (by_step c (Event.take_pending_worker_cancel_signals k.worker_id))
step-Reaches c k now r Phase.requests =
    flushed-Reaches c _ k Phase.shutdowns _
      (by_step c (Event.take_pending_worker_requests k.worker_id))
step-Reaches c k now r Phase.shutdowns =
    flushed-Reaches c _ k Phase.refreshes _
      (by_step c (Event.take_pending_worker_graceful_shutdown_signals k.worker_id))
step-Reaches c k now r Phase.refreshes =
    flushed-Reaches c _ k Phase.close_action _
      (by_step c (Event.take_pending_worker_models_refresh_signals k.worker_id))
step-Reaches c k now r Phase.close_action =
    close-Reaches c k (graceful_shutdown_close_action c now k.worker_id)
      (close_action-Reaches c now k.worker_id)
step-Reaches c k now r Phase.receiving = receive-Reaches c k now r
step-Reaches c k now r Phase.closed = stays c

-- Whatever a connection's loop does with the core, with any operations of other tasks in between,
-- whatever it receives and wherever it ends, is a history of the core's operations.
pub loop_run_is_history :
    (c : ProxyServerCore) (k : Connection) (es : List LoopEvent)
    → (history : List Event) × ((loop_run (c, k) es).0 ≡ run c history)
unfolding loop_run
loop_run_is_history c k [] = stays c
loop_run_is_history c k (LoopEvent.own now received ∷ es) =
    let (d, k') = connection_step c k now received k.phase in
    and_then c d _ (step-Reaches c k now received k.phase) (loop_run_is_history d k' es)
loop_run_is_history c k (LoopEvent.other e ∷ es) =
    and_then c (step c e) _ (by_step c e) (loop_run_is_history (step c e) k es)

-- On a core that any history has led to, a connection's loop keeps every registered worker within its
-- slots, with a slot at least and with a drain deadline exactly if it is draining.
pub loop_run-IsSound :
    (before : List Event) (k : Connection) (es : List LoopEvent) (id : String) (w : WorkerState)
    → HashMap.get id (loop_run (run new before, k) es).0.workers ≡ some w
    → IsSound w
loop_run-IsSound before k es id w found =
    let (history, e) = loop_run_is_history (run new before) k es in
    run-IsSound (before ++ history) id w (
      subst (λ c. HashMap.get id c.workers ≡ some w) (e ∙ sym (run-append before history new))
        found)
