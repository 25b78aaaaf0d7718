-- ===== src/Core/Dispatch.antt =====
-- crates/modelrelay-server/src/lib.rs: submission of requests, their dispatch to workers, and the
-- reports of workers that free capacity. `Instant::now()` is the argument `now`.
pub mod Filled
pub mod Loop
pub mod Oldest
pub mod Submission
use llm_worker_proxy.Shared.{
  ℕ, zero, suc, ◌+◌, ◌-◌, min, Bool, true, false, not, ◌&&◌, String, List, [], ◌∷◌, ◌++◌, Option,
  none, some, ◌==◌, string_eq, if◌then◌else◌, unwrap_or, is_none_or, is_some_and, is_empty, ltb,
  leb, ◌>>=◌, position, get_elem?, remove_idx, length,
}
use llm_worker_proxy.Shared.Text.{format_id}
use llm_worker_proxy.Shared.HashMap
use llm_worker_proxy.Shared.HashMap.{HashMap}
use llm_worker_proxy.Protocol.{ProviderRouting, ModelsUpdateMessage, PongMessage}
use llm_worker_proxy.Core.State.{
  ProxyServerCore, WorkerState, RequestRecord, RequestTransport, ActiveRequestState,
  DispatchAssignment, RequestFailureReason, SubmissionOutcome, ProviderQueuePolicy, default_policy,
  to_worker_request, supports_model, prefixes_support, Instant, usize_max, completed,
}
use llm_worker_proxy.Core.Workers.{sanitize_models, remove_worker}
use llm_worker_proxy.Core.Selection.{
  has_capacity, find_eligible_worker_id, provider_has_compatible_worker,
}

-- `saturating_add(1)`.
abbrev pub saturating_suc : ℕ → ℕ
saturating_suc n = min (n + 1) usize_max

abbrev pub with_request : WorkerState → String → WorkerState
with_request w request_id = record w {
  in_flight_requests = w.in_flight_requests ++ request_id ∷ [];
  reported_load = saturating_suc w.reported_load;
}

unfoldable pub workers_with_request :
    HashMap String WorkerState → String → String → HashMap String WorkerState
workers_with_request workers worker_id request_id = elim (HashMap.get worker_id workers) [
  | none ↦ workers
  | some w ↦ HashMap.insert worker_id (with_request w request_id) workers
]

unfoldable pub assign_to_worker : ProxyServerCore → String → RequestRecord → ProxyServerCore
assign_to_worker c worker_id request = record c {
  workers = workers_with_request c.workers worker_id request.request_id;
  pending_worker_requests =
      HashMap.insert worker_id
        (unwrap_or (HashMap.get worker_id c.pending_worker_requests) []
          ++ to_worker_request request ∷ [])
        c.pending_worker_requests;
  active_requests =
      HashMap.insert request.request_id (ActiveRequestState.in_flight request worker_id none)
        c.active_requests;
}

unfoldable pub worker_has_capacity : ProxyServerCore → String → Bool
worker_has_capacity c worker_id =
    is_some_and (HashMap.get worker_id c.workers) (λ w. not w.is_draining && has_capacity w)

-- The test of `dispatch_next_compatible` on a queued request.
unfoldable pub compatible : WorkerState → RequestRecord → Bool
compatible w request =
    supports_model w.models request.model
    && prefixes_support w.endpoint_prefixes request.transport.endpoint_path

-- `best_provider`, `best_index` and `best_queued_at`.
pub record Best : Type 0 where
  pub provider : String
  pub index : ℕ
  pub queued_at : Instant

abbrev pub improve : Option Best → Option Best → Option Best
improve best none = best
improve best (some b) =
    if is_none_or best (λ old. ltb b.queued_at old.queued_at) then some b else best

-- The first request of a queue that passes.
unfoldable pub head_of_queue : (RequestRecord → Bool) → String → List RequestRecord → Option Best
head_of_queue test provider queue = do
  index ← position test queue
  request ← get_elem? queue index
  some (record { provider = provider; index = index; queued_at = request.queued_at })

-- The loop over all queues.
unfoldable pub scan_queues :
    (RequestRecord → Bool) → Option Best → HashMap String (List RequestRecord) → Option Best
scan_queues test best [] = best
scan_queues test best ((provider, queue) ∷ queues) =
    scan_queues test (improve best (head_of_queue test provider queue)) queues

-- The chosen request leaves its queue; the queues that stay.
unfoldable pub take_best :
    HashMap String (List RequestRecord)
    → Option Best
    → Option (RequestRecord × HashMap String (List RequestRecord))
take_best queues best = do
  b ← best
  queue ← HashMap.get b.provider queues
  (request, rest) ← remove_idx queue b.index
  some (request, HashMap.insert b.provider rest queues)

abbrev pub dispatch_taken :
    ProxyServerCore
    → String
    → Option (RequestRecord × HashMap String (List RequestRecord))
    → ProxyServerCore × Option DispatchAssignment
dispatch_taken c worker_id none = (c, none)
dispatch_taken c worker_id (some (request, queues)) = (
  assign_to_worker (record c { provider_queues = queues }) worker_id request,
  some (record { request_id = request.request_id; worker_id = worker_id }),
)

unfoldable pub dispatch_next_compatible :
    ProxyServerCore → String → ProxyServerCore × Option DispatchAssignment
dispatch_next_compatible c worker_id = elim (HashMap.get worker_id c.workers) [
  | none ↦ (c, none)
  | some w ↦
      if worker_has_capacity c worker_id
      then dispatch_taken c worker_id
          (take_best c.provider_queues (scan_queues (compatible w) none c.provider_queues))
      else (c, none)
]

abbrev pub cons_assignment :
    DispatchAssignment
    → Option (ProxyServerCore × List DispatchAssignment)
    → Option (ProxyServerCore × List DispatchAssignment)
cons_assignment a none = none
cons_assignment a (some (c, as')) = some (c, a ∷ as')

-- `while self.worker_has_capacity(..) { .. }` on fuel; `none` means that the fuel ran out.
unfoldable pub dispatch_while :
    ℕ → ProxyServerCore → String → Option (ProxyServerCore × List DispatchAssignment)
dispatch_while zero c worker_id = none
dispatch_while (suc fuel) c worker_id = elim (worker_has_capacity c worker_id) [
  | false ↦ some (c, [])
  | true ↦
      let (c', assignment) = dispatch_next_compatible c worker_id in
      elim assignment [
        | none ↦ some (c', [])
        | some a ↦ cons_assignment a (dispatch_while fuel c' worker_id)
      ]
]

-- The loop with the fuel that suffices: each round puts a request in flight.
unfoldable pub dispatch_all :
    ProxyServerCore → String → WorkerState → ProxyServerCore × List DispatchAssignment
dispatch_all c worker_id w = unwrap_or (dispatch_while (suc w.max_concurrent) c worker_id) (c, [])

abbrev pub replace_worker : ProxyServerCore → String → WorkerState → ProxyServerCore
replace_worker c worker_id w = record c { workers = HashMap.insert worker_id w c.workers }

unfoldable pub update_worker_models :
    ProxyServerCore → String → ModelsUpdateMessage → ProxyServerCore × List DispatchAssignment
update_worker_models c worker_id update = elim (HashMap.get worker_id c.workers) [
  | none ↦ (c, [])
  | some w ↦
      let w' : WorkerState = record w {
        models = sanitize_models update.models;
        reported_load = update.current_load;
      } in
      dispatch_all (replace_worker c worker_id w') worker_id w'
]

unfoldable pub record_worker_pong :
    ProxyServerCore → String → PongMessage → ProxyServerCore × List DispatchAssignment
record_worker_pong c worker_id pong = elim (HashMap.get worker_id c.workers) [
  | none ↦ (c, [])
  | some w ↦
      let w' : WorkerState = record w { reported_load = pong.current_load } in
      dispatch_all (replace_worker c worker_id w') worker_id w'
]

-- The record that `submit_transport_request` makes.
unfoldable pub new_request :
    ProxyServerCore
    → Instant
    → String
    → String
    → RequestTransport
    → Option ProviderRouting
    → RequestRecord
new_request c now provider model transport provider_routing = record {
  request_id = format_id "request-" c.next_request_id;
  provider = provider;
  model = model;
  queued_at = now;
  transport = transport;
  provider_routing = provider_routing;
  requeue_count = 0;
}

-- The state with the new request counted and registered as queued.
unfoldable pub with_new_request : ProxyServerCore → RequestRecord → ProxyServerCore
with_new_request c request = record c {
  next_request_id = c.next_request_id + 1;
  active_requests =
      HashMap.insert request.request_id (ActiveRequestState.queued request) c.active_requests;
}

abbrev pub queue_of : ProxyServerCore → String → List RequestRecord
queue_of c provider = unwrap_or (HashMap.get provider c.provider_queues) []

abbrev pub policy_of : ProxyServerCore → String → ProviderQueuePolicy
policy_of c provider = unwrap_or (HashMap.get provider c.provider_queue_policies) default_policy

-- The part of `submit_transport_request` behind the search for a worker.
unfoldable pub enqueue : ProxyServerCore → RequestRecord → ProxyServerCore × SubmissionOutcome
enqueue c request =
    let queue : List RequestRecord = queue_of c request.provider in
    if leb (policy_of c request.provider).max_queue_len (length queue)
    then (
      record c {
        provider_queues = HashMap.insert request.provider queue c.provider_queues;
        active_requests = HashMap.remove request.request_id c.active_requests;
      },
      SubmissionOutcome.rejected (record {
        request_id = request.request_id;
        reason =
            if provider_has_compatible_worker c request.model
            then RequestFailureReason.queue_full
            else RequestFailureReason.no_workers_available;
      }),
    )
    else (
      record c {
        provider_queues = HashMap.insert request.provider (queue ++ request ∷ []) c.provider_queues;
      },
      SubmissionOutcome.queued
          (record { request_id = request.request_id; queue_len = length queue + 1 }),
    )

unfoldable pub place_request :
    RequestRecord → ProxyServerCore × Option String → ProxyServerCore × SubmissionOutcome
place_request request (c, some worker_id) = (
  assign_to_worker c worker_id request,
  SubmissionOutcome.dispatched (record { request_id = request.request_id; worker_id = worker_id }),
)
place_request request (c, none) = enqueue c request

unfoldable pub submit_transport_request :
    ProxyServerCore
    → Instant
    → String
    → String
    → RequestTransport
    → Option ProviderRouting
    → ProxyServerCore × SubmissionOutcome
submit_transport_request c now provider model transport provider_routing =
    let request : RequestRecord = new_request c now provider model transport provider_routing in
    place_request request (
      find_eligible_worker_id (with_new_request c request) provider model transport.endpoint_path
        provider_routing)

unfoldable pub submit_request :
    ProxyServerCore → Instant → String → String → ProxyServerCore × SubmissionOutcome
submit_request c now provider model =
    submit_transport_request c now provider model
      (record {
        endpoint_path = "/";
        method = "POST";
        is_streaming = false;
        body = "";
        headers = [];
      })
      none

-- The worker without a finished request.
unfoldable pub without_request : WorkerState → String → Option WorkerState
without_request w request_id = do
  index ← position (λ id. id == request_id) w.in_flight_requests
  (_, rest) ← remove_idx w.in_flight_requests index
  some (record w { in_flight_requests = rest; reported_load = w.reported_load - 1 })

-- The part of `finish_request` behind the update of the worker `w`.
unfoldable pub after_finish :
    ProxyServerCore → String → String → WorkerState → ProxyServerCore × Option DispatchAssignment
after_finish c worker_id request_id w =
    let c' : ProxyServerCore = record c {
      workers = HashMap.insert worker_id w c.workers;
      active_requests = HashMap.remove request_id c.active_requests;
    } in
    if w.is_draining && is_empty w.in_flight_requests
    then (
      (remove_worker
          (record c' {
            graceful_shutdown_disconnect_reasons =
                HashMap.insert worker_id completed c'.graceful_shutdown_disconnect_reasons;
          })
          worker_id).0,
      none,
    )
    else dispatch_next_compatible c' worker_id

unfoldable pub finish_request :
    ProxyServerCore → String → String → ProxyServerCore × Option DispatchAssignment
finish_request c worker_id request_id =
    elim (HashMap.get worker_id c.workers >>= λ w. without_request w request_id) [
      | none ↦ (c, none)
      | some w ↦ after_finish c worker_id request_id w
    ]
