-- ===== src/Core/Bounds/Lifecycle.antt =====
-- Cancellation, disconnection and the timeouts keep every worker within its slots.
use llm_worker_proxy.Shared.{
  ◌+◌, ◌≡◌, refl, sym, ◌∙◌, subst, String, List, [], ◌∷◌, Option, some, inl, inr, arith, Bool-cases,
  Option-cases, string_eq, is_empty, ◌&&◌, is_some_and,
}
use llm_worker_proxy.Shared.HashMap
use llm_worker_proxy.Shared.HashMap.{HashMap}
use llm_worker_proxy.Core.State.{
  ProxyServerCore, WorkerState, Instant, Duration, CancelReason, RequestFailureReason,
  GracefulShutdownDisconnectReason, GracefulShutdownSignal,
}
use llm_worker_proxy.Core.Workers.{remove_worker, disconnect_drained_worker_if_idle}
use llm_worker_proxy.Core.Responses.{fail_pending_http_response}
use llm_worker_proxy.Core.Lifecycle.{
  Fate, apply_fate, release_requests, disconnect_worker, cancel_request, fail_requests, drop_worker,
  delete_workers, delete_provider, start_draining, begin_graceful_shutdown, expire_workers,
  expire_graceful_shutdown, fail_senders, fate_of, release_one, fail_one, drop_one, drain_one,
  expire_queue_timeouts, without_active,
}
use llm_worker_proxy.Core.Bounds.{AllSound, insert-AllSound}
use llm_worker_proxy.Core.Bounds.Dispatch.{remove_worker-AllSound}

pub workers-fail_pending :
    (c : ProxyServerCore) (id : String) (reason : RequestFailureReason)
    → (fail_pending_http_response c id reason).workers ≡ c.workers
unfolding fail_pending_http_response
workers-fail_pending c id reason = ground arith

pub workers-apply_fate :
    (c : ProxyServerCore) (id : String) (f : Fate) → (apply_fate c id f).workers ≡ c.workers
unfolding apply_fate
workers-apply_fate c id Fate.skip = refl
workers-apply_fate c id (Fate.fail reason) = workers-fail_pending _ id reason
workers-apply_fate c id (Fate.requeue request) = refl

workers-release_one : (c : ProxyServerCore) (id : String) → (release_one c id).workers ≡ c.workers
unfolding release_one
workers-release_one c id = workers-apply_fate c id (fate_of c id)

pub workers-release :
    (c : ProxyServerCore) (ids : List String) → (release_requests c ids).0.workers ≡ c.workers
unfolding release_requests
workers-release c [] = refl
workers-release c (id ∷ ids) = workers-release (release_one c id) ids ∙ workers-release_one c id

workers-fail_one :
    (reason : RequestFailureReason) (c : ProxyServerCore) (id : String)
    → (fail_one reason c id).workers ≡ c.workers
unfolding fail_one
workers-fail_one reason c id = workers-fail_pending (without_active c id) id reason

pub workers-fail_requests :
    (reason : RequestFailureReason) (c : ProxyServerCore) (ids : List String)
    → (fail_requests reason c ids).workers ≡ c.workers
unfolding fail_requests
workers-fail_requests reason c [] = refl
workers-fail_requests reason c (id ∷ ids) =
    workers-fail_requests reason (fail_one reason c id) ids ∙ workers-fail_one reason c id

pub workers-fail_senders :
    (reason : RequestFailureReason) (c : ProxyServerCore) (ids : List String)
    → (fail_senders reason c ids).workers ≡ c.workers
unfolding fail_senders
workers-fail_senders reason c [] = refl
workers-fail_senders reason c (id ∷ ids) =
    workers-fail_senders reason (fail_pending_http_response c id reason) ids
    ∙ workers-fail_pending c id reason

pub disconnect-AllSound :
    (c : ProxyServerCore) (id : String)
    → AllSound c.workers
    → AllSound (disconnect_worker c id).0.workers
unfolding disconnect_worker
disconnect-AllSound c id all = elim (Option-cases (HashMap.get id c.workers)) [
  | inl gone ↦ rw (gone, disconnect_worker) all
  | inr (w, found) ↦
      rw (found, disconnect_worker)
        (subst AllSound (sym (workers-release (remove_worker c id).0 w.in_flight_requests))
          (remove_worker-AllSound c id all))
]

pub workers-cancel :
    (c : ProxyServerCore) (id : String) (reason : CancelReason)
    → (cancel_request c id reason).0.workers ≡ c.workers
unfolding cancel_request
workers-cancel c id reason = ground arith

drop-AllSound :
    (reason : RequestFailureReason) (why : GracefulShutdownDisconnectReason) (c : ProxyServerCore)
    (id : String) (w : WorkerState)
    → AllSound c.workers
    → AllSound (drop_worker reason why c id w).workers
unfolding drop_worker
drop-AllSound reason why c id w all =
    remove_worker-AllSound _ id
      (subst AllSound (sym (workers-fail_requests reason c w.in_flight_requests)) all)

drop_one-AllSound :
    (reason : RequestFailureReason) (why : GracefulShutdownDisconnectReason) (c : ProxyServerCore)
    (id : String)
    → AllSound c.workers
    → AllSound (drop_one reason why c id).workers
unfolding drop_one
drop_one-AllSound reason why c id all = elim (Option-cases (HashMap.get id c.workers)) [
  | inl gone ↦ rw (gone, drop_one) all
  | inr (w, found) ↦ rw (found, drop_one) (drop-AllSound reason why c id w all)
]

delete_workers-AllSound :
    (c : ProxyServerCore) (ids : List String)
    → AllSound c.workers
    → AllSound (delete_workers c ids).workers
unfolding delete_workers
delete_workers-AllSound c [] all = all
delete_workers-AllSound c (id ∷ ids) all =
    delete_workers-AllSound
      (drop_one RequestFailureReason.provider_deleted GracefulShutdownDisconnectReason.completed c
        id)
      ids (drop_one-AllSound _ _ c id all)

pub delete_provider-AllSound :
    (c : ProxyServerCore) (provider : String)
    → AllSound c.workers
    → AllSound (delete_provider c provider).workers
unfolding delete_provider
delete_provider-AllSound c provider all =
    delete_workers-AllSound _ _
      (subst AllSound (sym (workers-fail_requests RequestFailureReason.provider_deleted _ _)) all)

drain_one-AllSound :
    (deadline : Instant) (c : ProxyServerCore) (signal : GracefulShutdownSignal)
    → AllSound c.workers
    → AllSound (drain_one (some deadline) c signal).workers
unfolding drain_one
drain_one-AllSound deadline c signal all =
    elim (Option-cases (HashMap.get signal.worker_id c.workers)) [
      | inl gone ↦ rw (gone, drain_one) all
      | inr (w, found) ↦ elim (Bool-cases w.is_draining) [
        | inl before ↦ rw (found, drain_one) (rw before all)
        | inr active ↦
            let sound = all signal.worker_id w found in
            rw (found, drain_one)
              (rw active (
                insert-AllSound c.workers signal.worker_id _ all
                  (record { within = sound.within; positive = sound.positive; drains = refl })))
      ]
    ]

start_draining-AllSound :
    (reason : Option String) (deadline : Instant) (timeout : Duration) (c : ProxyServerCore)
    (ids : List String)
    → AllSound c.workers
    → AllSound (start_draining reason deadline timeout c ids).0.workers
unfolding start_draining
start_draining-AllSound reason deadline timeout c [] all = all
start_draining-AllSound reason deadline timeout c (id ∷ ids) all =
    let signal : GracefulShutdownSignal = record {
      worker_id = id;
      reason = reason;
      drain_timeout = timeout;
    } in
    start_draining-AllSound reason deadline timeout (drain_one (some deadline) c signal) ids
      (drain_one-AllSound deadline c signal all)

pub begin_shutdown-AllSound :
    (c : ProxyServerCore) (now : Instant) (reason : Option String) (timeout : Duration)
    → AllSound c.workers
    → AllSound (begin_graceful_shutdown c now reason timeout).0.workers
unfolding begin_graceful_shutdown
begin_shutdown-AllSound c now reason timeout all =
    start_draining-AllSound reason (now + timeout) timeout c c.worker_order all

expire_workers-AllSound :
    (c : ProxyServerCore) (ids : List String)
    → AllSound c.workers
    → AllSound (expire_workers c ids).0.workers
unfolding expire_workers
expire_workers-AllSound c [] all = all
expire_workers-AllSound c (id ∷ ids) all =
    expire_workers-AllSound
      (drop_one RequestFailureReason.graceful_shutdown_timed_out
        GracefulShutdownDisconnectReason.timed_out c id)
      ids (drop_one-AllSound _ _ c id all)

pub expire_shutdown-AllSound :
    (c : ProxyServerCore) (now : Instant)
    → AllSound c.workers
    → AllSound (expire_graceful_shutdown c now).0.workers
unfolding expire_graceful_shutdown
expire_shutdown-AllSound c now all = expire_workers-AllSound c _ all

pub workers-expire_queues :
    (c : ProxyServerCore) (now : Instant) → (expire_queue_timeouts c now).0.workers ≡ c.workers
unfolding expire_queue_timeouts
workers-expire_queues c now = workers-fail_senders RequestFailureReason.queue_timed_out _ _

pub disconnect_drained-AllSound :
    (c : ProxyServerCore) (id : String)
    → AllSound c.workers
    → AllSound (disconnect_drained_worker_if_idle c id).0.workers
unfolding disconnect_drained_worker_if_idle
disconnect_drained-AllSound c id all =
    elim (Bool-cases (
      is_some_and (HashMap.get id c.workers)
        (λ w. w.is_draining && is_empty w.in_flight_requests))) [
          | inl idle ↦ rw idle (remove_worker-AllSound _ id all)
          | inr busy ↦ rw busy all
        ]
