-- ===== src/Core/Lifecycle.antt =====
-- crates/modelrelay-server/src/lib.rs: what ends a request or a worker besides a response, that is
-- cancellation, disconnection, the deletion of a provider, and the two kinds of timeout.
pub mod Shutdown
pub mod Cancel
pub mod Requeue
pub mod Disconnect
pub mod Timeouts
use llm_worker_proxy.Shared.{
  ◌+◌, ◌-◌, Bool, true, not, String, List, [], ◌∷◌, ◌++◌, Option, none, some, ◌==◌, string_eq,
  if◌then◌else◌, unwrap_or, is_some_and, leb, retain, position, remove_idx, map, is_empty, ◌>>=◌,
}
use llm_worker_proxy.Shared.HashMap
use llm_worker_proxy.Shared.HashMap.{HashMap}
use llm_worker_proxy.Core.State.{
  ProxyServerCore, WorkerState, RequestRecord, ActiveRequestState, CancelReason, RequestFailure,
  RequestFailureReason, CancellationOutcome, WorkerDisconnectOutcome, GracefulShutdownSignal,
  GracefulShutdownOutcome, GracefulShutdownDisconnectReason, ProviderQueuePolicy, default_policy,
  Instant, Duration, from_secs, max_requeue_count,
}
use llm_worker_proxy.Core.Workers.{remove_worker}
use llm_worker_proxy.Core.Responses.{fail_pending_http_response}

-- What the loop of `disconnect_worker` does with a request of the worker.
pub data Fate : Type 0 where
  skip : Fate
  fail : RequestFailureReason → Fate
  requeue : RequestRecord → Fate

unfoldable pub fate : Option ActiveRequestState → Fate
fate none = skip
fate (some (ActiveRequestState.queued _)) = skip
fate (some (ActiveRequestState.in_flight request _ (some _))) =
    fail RequestFailureReason.request_already_canceled
fate (some (ActiveRequestState.in_flight request _ none)) =
    if leb max_requeue_count request.requeue_count
    then fail RequestFailureReason.max_requeues_exceeded
    else requeue (record request { requeue_count = request.requeue_count + 1 })

abbrev pub without_active : ProxyServerCore → String → ProxyServerCore
without_active c request_id = record c {
  active_requests = HashMap.remove request_id c.active_requests;
}

unfoldable pub apply_fate : ProxyServerCore → String → Fate → ProxyServerCore
apply_fate c request_id skip = without_active c request_id
apply_fate c request_id (fail reason) =
    fail_pending_http_response (without_active c request_id) request_id reason
apply_fate c request_id (requeue request) =
    let c' : ProxyServerCore = without_active c request_id in
    record c' {
      active_requests =
          HashMap.insert request.request_id (ActiveRequestState.queued request) c'.active_requests;
    }

-- `requeued_requests` (`requeued_request_ids` are their ids) and `failed_requests`.
pub record Released : Type 0 where
  pub requeued : List RequestRecord
  pub failed : List RequestFailure

abbrev pub note_fate : String → Fate → Released → Released
note_fate request_id skip r = r
note_fate request_id (fail reason) r = record r {
  failed = record { request_id = request_id; reason = reason } ∷ r.failed;
}
note_fate request_id (requeue request) r = record r { requeued = request ∷ r.requeued }

abbrev pub fate_of : ProxyServerCore → String → Fate
fate_of c request_id = fate (HashMap.get request_id c.active_requests)

-- One round of the loop over the requests in flight, and the loop.
unfoldable pub release_one : ProxyServerCore → String → ProxyServerCore
release_one c request_id = apply_fate c request_id (fate_of c request_id)

unfoldable pub release_requests : ProxyServerCore → List String → ProxyServerCore × Released
release_requests c [] = (c, record { requeued = []; failed = [] })
release_requests c (request_id ∷ request_ids) =
    let (c', r) = release_requests (release_one c request_id) request_ids in
    (c', note_fate request_id (fate_of c request_id) r)

-- The requeued requests go to the front of the queue of the worker's provider, in order.
unfoldable pub push_requeued :
    HashMap String (List RequestRecord)
    → String
    → List RequestRecord
    → HashMap String (List RequestRecord)
push_requeued queues provider requeued = elim (HashMap.get provider queues) [
  | some queue ↦ HashMap.insert provider (requeued ++ queue) queues
  | none ↦ if is_empty requeued then queues else HashMap.insert provider requeued queues
]

abbrev pub requeue_released :
    String → ProxyServerCore × Released → ProxyServerCore × Option WorkerDisconnectOutcome
requeue_released provider (c, r) = (
  record c { provider_queues = push_requeued c.provider_queues provider r.requeued },
  some (record {
    requeued_request_ids = map (λ q. q.request_id) r.requeued;
    failed_requests = r.failed;
  }),
)

unfoldable pub disconnect_worker :
    ProxyServerCore → String → ProxyServerCore × Option WorkerDisconnectOutcome
disconnect_worker c worker_id = elim (HashMap.get worker_id c.workers) [
  | none ↦ (c, none)
  | some w ↦
      requeue_released w.provider
        (release_requests (remove_worker c worker_id).0 w.in_flight_requests)
]

-- The queue of the request's provider without the request.
unfoldable pub unqueue :
    HashMap String (List RequestRecord)
    → RequestRecord
    → String
    → Option (HashMap String (List RequestRecord))
unqueue queues request request_id = do
  queue ← HashMap.get request.provider queues
  index ← position (λ q. q.request_id == request_id) queue
  (_, rest) ← remove_idx queue index
  some (HashMap.insert request.provider rest queues)

abbrev pub cancel_queued :
    ProxyServerCore
    → String
    → Option (HashMap String (List RequestRecord))
    → ProxyServerCore × Option CancellationOutcome
cancel_queued c request_id none = (c, none)
cancel_queued c request_id (some queues) = (
  record c {
    provider_queues = queues;
    active_requests = HashMap.remove request_id c.active_requests;
    pending_http_response_senders = HashMap.remove request_id c.pending_http_response_senders;
  },
  some (CancellationOutcome.removed_from_queue request_id),
)

abbrev pub cancel_active :
    ProxyServerCore
    → String
    → CancelReason
    → Option ActiveRequestState
    → ProxyServerCore × Option CancellationOutcome
cancel_active c request_id reason none = (c, none)
cancel_active c request_id reason (some (ActiveRequestState.queued request)) =
    cancel_queued c request_id (unqueue c.provider_queues request request_id)
cancel_active c request_id reason (some (ActiveRequestState.in_flight request worker_id none)) = (
  record c {
    active_requests =
        HashMap.insert request_id (ActiveRequestState.in_flight request worker_id (some reason))
          c.active_requests;
    worker_cancel_signals =
        c.worker_cancel_signals
        ++ record { worker_id = worker_id; request_id = request_id; reason = reason } ∷ [];
  },
  some (
      CancellationOutcome.worker_cancel_sent
        (record { worker_id = worker_id; request_id = request_id; reason = reason })),
)
cancel_active c request_id reason
      (some (ActiveRequestState.in_flight request worker_id (some earlier))) =
    (
      c,
      some (
          CancellationOutcome.worker_cancel_sent
            (record { worker_id = worker_id; request_id = request_id; reason = earlier })),
    )

unfoldable pub cancel_request :
    ProxyServerCore → String → CancelReason → ProxyServerCore × Option CancellationOutcome
cancel_request c request_id reason =
    cancel_active c request_id reason (HashMap.get request_id c.active_requests)

-- `self.active_requests.remove(id); self.fail_pending_http_response(id, reason);`, and for each id.
unfoldable pub fail_one : RequestFailureReason → ProxyServerCore → String → ProxyServerCore
fail_one reason c request_id =
    fail_pending_http_response (without_active c request_id) request_id reason

unfoldable pub fail_requests :
    RequestFailureReason → ProxyServerCore → List String → ProxyServerCore
fail_requests reason c [] = c
fail_requests reason c (request_id ∷ request_ids) =
    fail_requests reason (fail_one reason c request_id) request_ids

-- The workers of `worker_order` that pass, by id.
unfoldable pub workers_that :
    (WorkerState → Bool) → HashMap String WorkerState → List String → List String
workers_that test workers order = retain (λ id. is_some_and (HashMap.get id workers) test) order

abbrev pub with_disconnect_reason :
    ProxyServerCore → String → GracefulShutdownDisconnectReason → ProxyServerCore
with_disconnect_reason c worker_id reason = record c {
  graceful_shutdown_disconnect_reasons =
      HashMap.insert worker_id reason c.graceful_shutdown_disconnect_reasons;
}

-- The requests of one worker fail, and the worker goes.
unfoldable pub drop_worker :
    RequestFailureReason
    → GracefulShutdownDisconnectReason
    → ProxyServerCore
    → String
    → WorkerState
    → ProxyServerCore
drop_worker reason why c worker_id w =
    (remove_worker
      (with_disconnect_reason (fail_requests reason c w.in_flight_requests) worker_id why)
      worker_id).0

-- One worker of a loop that drops workers: one that is gone is passed over.
unfoldable pub drop_one :
    RequestFailureReason
    → GracefulShutdownDisconnectReason
    → ProxyServerCore
    → String
    → ProxyServerCore
drop_one reason why c worker_id = elim (HashMap.get worker_id c.workers) [
  | none ↦ c
  | some w ↦ drop_worker reason why c worker_id w
]

-- The last loop of `delete_provider`.
unfoldable pub delete_workers : ProxyServerCore → List String → ProxyServerCore
delete_workers c [] = c
delete_workers c (worker_id ∷ worker_ids) =
    delete_workers
      (drop_one RequestFailureReason.provider_deleted GracefulShutdownDisconnectReason.completed c
        worker_id)
      worker_ids

unfoldable pub delete_provider : ProxyServerCore → String → ProxyServerCore
delete_provider c provider =
    let queued : List String =
      map (λ q. q.request_id) (unwrap_or (HashMap.get provider c.provider_queues) []) in
    let c' : ProxyServerCore =
      fail_requests RequestFailureReason.provider_deleted
        (record c { provider_queues = HashMap.remove provider c.provider_queues }) queued in
    delete_workers c' (workers_that (λ w. w.provider == provider) c'.workers c'.worker_order)

-- One round of the loop of `begin_graceful_shutdown`: the worker drains, if it did not before.
unfoldable pub drain_one :
    Option Instant → ProxyServerCore → GracefulShutdownSignal → ProxyServerCore
drain_one deadline c signal = elim (HashMap.get signal.worker_id c.workers) [
  | none ↦ c
  | some w ↦ if w.is_draining then c else record c {
    workers =
        HashMap.insert signal.worker_id
          (record w { is_draining = true; graceful_shutdown_deadline = deadline }) c.workers;
    worker_graceful_shutdown_signals = c.worker_graceful_shutdown_signals ++ signal ∷ [];
  }
]

-- The worker is registered and does not drain yet.
abbrev pub can_drain : ProxyServerCore → String → Bool
can_drain c worker_id = is_some_and (HashMap.get worker_id c.workers) (λ w. not w.is_draining)

unfoldable pub start_draining :
    Option String
    → Instant
    → Duration
    → ProxyServerCore
    → List String
    → ProxyServerCore × List GracefulShutdownSignal
start_draining reason deadline drain_timeout c [] = (c, [])
start_draining reason deadline drain_timeout c (worker_id ∷ order) =
    let signal : GracefulShutdownSignal = record {
      worker_id = worker_id;
      reason = reason;
      drain_timeout = drain_timeout;
    } in
    let (c', signals) =
      start_draining reason deadline drain_timeout (drain_one (some deadline) c signal) order in
    (c', if can_drain c worker_id then signal ∷ signals else signals)

unfoldable pub begin_graceful_shutdown :
    ProxyServerCore
    → Instant
    → Option String
    → Duration
    → ProxyServerCore × List GracefulShutdownSignal
begin_graceful_shutdown c now reason drain_timeout =
    start_draining reason (now + drain_timeout) drain_timeout c c.worker_order

-- The drain deadline has come.
abbrev pub past_deadline : Instant → WorkerState → Bool
past_deadline now w = is_some_and w.graceful_shutdown_deadline (λ deadline. leb deadline now)

abbrev pub shutdown_failures : List String → List RequestFailure
shutdown_failures =
    map
      (λ id. record { request_id = id; reason = RequestFailureReason.graceful_shutdown_timed_out })

-- The loop of `expire_graceful_shutdown` over the expiring workers.
unfoldable pub expire_workers :
    ProxyServerCore → List String → ProxyServerCore × GracefulShutdownOutcome
expire_workers c [] = (c, record { disconnected_worker_ids = []; failed_requests = [] })
expire_workers c (worker_id ∷ worker_ids) =
    let found : Option WorkerState = HashMap.get worker_id c.workers in
    let (c', o) =
      expire_workers
        (drop_one RequestFailureReason.graceful_shutdown_timed_out
          GracefulShutdownDisconnectReason.timed_out c worker_id)
        worker_ids in
    (
      c',
      elim found [
        | none ↦ o
        | some w ↦ record {
          disconnected_worker_ids = worker_id ∷ o.disconnected_worker_ids;
          failed_requests = shutdown_failures w.in_flight_requests ++ o.failed_requests;
        }
      ],
    )

unfoldable pub expire_graceful_shutdown :
    ProxyServerCore → Instant → ProxyServerCore × GracefulShutdownOutcome
expire_graceful_shutdown c now =
    expire_workers c (workers_that (past_deadline now) c.workers c.worker_order)

-- The request has waited for the whole timeout of the policy, if the policy has one.
unfoldable pub is_expired : Instant → ProviderQueuePolicy → RequestRecord → Bool
is_expired now policy request =
    is_some_and policy.queue_timeout_ticks
      (λ ticks. leb (from_secs ticks) (now - request.queued_at))

module _ (now : Instant) (policies : HashMap String ProviderQueuePolicy) where
  abbrev pub is_expired_in : String → RequestRecord → Bool
  is_expired_in provider = is_expired now (unwrap_or (HashMap.get provider policies) default_policy)

  unfoldable pub expired_requests : HashMap String (List RequestRecord) → List RequestRecord
  expired_requests [] = []
  expired_requests ((provider, queue) ∷ queues) =
      retain (is_expired_in provider) queue ++ expired_requests queues

  unfoldable pub retained_queues :
      HashMap String (List RequestRecord) → HashMap String (List RequestRecord)
  retained_queues [] = []
  retained_queues ((provider, queue) ∷ queues) =
      (provider, retain (λ q. not (is_expired_in provider q)) queue) ∷ retained_queues queues

-- Removes each of the requests from `active_requests`.
unfoldable pub forget_requests :
    HashMap String ActiveRequestState → List String → HashMap String ActiveRequestState
forget_requests active [] = active
forget_requests active (id ∷ ids) = forget_requests (HashMap.remove id active) ids

unfoldable pub fail_senders : RequestFailureReason → ProxyServerCore → List String → ProxyServerCore
fail_senders reason c [] = c
fail_senders reason c (id ∷ ids) = fail_senders reason (fail_pending_http_response c id reason) ids

abbrev pub timeout_failures : List String → List RequestFailure
timeout_failures =
    map (λ id. record { request_id = id; reason = RequestFailureReason.queue_timed_out })

unfoldable pub expire_queue_timeouts :
    ProxyServerCore → Instant → ProxyServerCore × List RequestFailure
expire_queue_timeouts c now =
    let ids : List String =
      map (λ q. q.request_id) (expired_requests now c.provider_queue_policies c.provider_queues) in
    (
      fail_senders RequestFailureReason.queue_timed_out
          (record c {
            provider_queues = retained_queues now c.provider_queue_policies c.provider_queues;
            active_requests = forget_requests c.active_requests ids;
          })
          ids,
      timeout_failures ids,
    )
