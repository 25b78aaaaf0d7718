-- ===== src/Core/Workers.antt =====
-- crates/modelrelay-server/src/lib.rs: the worker registry of `ProxyServerCore`, that is
-- registration, removal, and the signals that wait for a worker's connection.
pub mod Sanitize
use llm_worker_proxy.Shared.{
  ◌+◌, Bool, true, false, ◌&&◌, not, String, List, [], ◌∷◌, ◌++◌, Option, none, some, ◌==◌,
  string_eq, contains, if◌then◌else◌, unwrap_or, max, retain, is_empty, is_some_and,
}
use llm_worker_proxy.Shared.Text
use llm_worker_proxy.Shared.Text.{trim, format_id}
use llm_worker_proxy.Shared.HashMap
use llm_worker_proxy.Protocol.{RegisterMessage, RequestMessage}
use llm_worker_proxy.Core.State.{
  ProxyServerCore, WorkerState, RegisteredWorker, WorkerCancelSignal, GracefulShutdownSignal,
  WorkerModelsRefreshSignal, ActiveRequestState, GracefulShutdownDisconnectReason, completed,
}

-- The loop of `sanitize_models`: `seen` holds the names accepted so far.
unfoldable pub sanitize_from : List String → List String → List String
sanitize_from seen [] = []
sanitize_from seen (model ∷ models) =
    let trimmed = trim model in
    let accepted = not (Text.is_empty trimmed) && not (contains trimmed seen) in
    let rest = sanitize_from (if accepted then trimmed ∷ seen else seen) models in
    if accepted then trimmed ∷ rest else rest

unfoldable pub sanitize_models : List String → List String
sanitize_models models = sanitize_from [] models

unfoldable pub registration_warnings : String → List String → List String
registration_warnings worker_name sanitized_models =
    (if Text.is_empty (trim worker_name) then "worker_name was empty after trimming" ∷ [] else [])
    ++ (if is_empty sanitized_models
        then "worker registered without any routable models" ∷ []
        else [])

unfoldable pub register_worker :
    ProxyServerCore → String → RegisterMessage → ProxyServerCore × RegisteredWorker
register_worker c provider register =
    let worker_id : String = format_id "worker-" c.next_worker_id in
    let models : List String = sanitize_models register.models in
    let worker : WorkerState = record {
      provider = provider;
      worker_name = register.worker_name;
      models = models;
      endpoint_prefixes = register.endpoint_prefixes;
      max_concurrent = max register.max_concurrent 1;
      reported_load = unwrap_or register.current_load 0;
      in_flight_requests = [];
      is_draining = false;
      graceful_shutdown_deadline = none;
    } in
    (
      record c {
        next_worker_id = c.next_worker_id + 1;
        worker_order = c.worker_order ++ worker_id ∷ [];
        workers = HashMap.insert worker_id worker c.workers;
      },
      record {
        worker_id = worker_id;
        ack = record {
          worker_id = worker_id;
          models = models;
          warnings = registration_warnings register.worker_name models;
          protocol_version = register.protocol_version;
          endpoint_prefixes = register.endpoint_prefixes;
        };
      },
    )

-- The state that `remove_worker` leaves behind a worker that was registered.
unfoldable pub without_worker : ProxyServerCore → String → ProxyServerCore
without_worker c worker_id = record c {
  workers = HashMap.remove worker_id c.workers;
  worker_order = retain (λ id. not (id == worker_id)) c.worker_order;
  pending_worker_requests = HashMap.remove worker_id c.pending_worker_requests;
  worker_cancel_signals = retain (λ s. not (s.worker_id == worker_id)) c.worker_cancel_signals;
  worker_graceful_shutdown_signals =
      retain (λ s. not (s.worker_id == worker_id)) c.worker_graceful_shutdown_signals;
}

unfoldable pub remove_worker : ProxyServerCore → String → ProxyServerCore × Option WorkerState
remove_worker c worker_id = elim (HashMap.get worker_id c.workers) [
  | none ↦ (c, none)
  | some worker ↦ (without_worker c worker_id, some worker)
]

unfoldable pub take_pending_worker_requests :
    ProxyServerCore → String → ProxyServerCore × List RequestMessage
take_pending_worker_requests c worker_id = (
  record c { pending_worker_requests = HashMap.remove worker_id c.pending_worker_requests },
  unwrap_or (HashMap.get worker_id c.pending_worker_requests) [],
)

-- The signal's request is still in flight on the signal's worker, and cancelled.
unfoldable pub is_still_pending : ProxyServerCore → WorkerCancelSignal → Bool
is_still_pending c signal = elim (HashMap.get signal.request_id c.active_requests) [
  | none ↦ false
  | some (ActiveRequestState.queued _) ↦ false
  | some (ActiveRequestState.in_flight _ active_worker_id none) ↦ false
  | some (ActiveRequestState.in_flight _ active_worker_id (some _)) ↦
      active_worker_id == signal.worker_id
]

unfoldable pub take_pending_worker_cancel_signals :
    ProxyServerCore → String → ProxyServerCore × List WorkerCancelSignal
take_pending_worker_cancel_signals c worker_id = (
  record c {
    worker_cancel_signals =
        retain (λ s. not (s.worker_id == worker_id) && is_still_pending c s)
          c.worker_cancel_signals;
  },
  retain (λ s. s.worker_id == worker_id && is_still_pending c s) c.worker_cancel_signals,
)

unfoldable pub take_pending_worker_graceful_shutdown_signals :
    ProxyServerCore → String → ProxyServerCore × List GracefulShutdownSignal
take_pending_worker_graceful_shutdown_signals c worker_id =
    let connected = λ (s : GracefulShutdownSignal). HashMap.contains_key s.worker_id c.workers in
    (
      record c {
        worker_graceful_shutdown_signals =
            retain (λ s. not (s.worker_id == worker_id) && connected s)
              c.worker_graceful_shutdown_signals;
      },
      retain (λ s. s.worker_id == worker_id && connected s) c.worker_graceful_shutdown_signals,
    )

unfoldable pub request_worker_models_refresh :
    ProxyServerCore → String → Option String → ProxyServerCore × Option WorkerModelsRefreshSignal
request_worker_models_refresh c worker_id reason =
    let signal : WorkerModelsRefreshSignal = record { worker_id = worker_id; reason = reason } in
    if HashMap.contains_key worker_id c.workers
    then (
      record c { worker_models_refresh_signals = c.worker_models_refresh_signals ++ signal ∷ [] },
      some signal,
    )
    else (c, none)

unfoldable pub take_pending_worker_models_refresh_signals :
    ProxyServerCore → String → ProxyServerCore × List WorkerModelsRefreshSignal
take_pending_worker_models_refresh_signals c worker_id =
    let connected = λ (s : WorkerModelsRefreshSignal). HashMap.contains_key s.worker_id c.workers in
    (
      record c {
        worker_models_refresh_signals =
            retain (λ s. not (s.worker_id == worker_id) && connected s)
              c.worker_models_refresh_signals;
      },
      retain (λ s. s.worker_id == worker_id && connected s) c.worker_models_refresh_signals,
    )

unfoldable pub disconnect_drained_worker_if_idle : ProxyServerCore → String → ProxyServerCore × Bool
disconnect_drained_worker_if_idle c worker_id =
    let idle : Bool =
      is_some_and (HashMap.get worker_id c.workers)
        (λ w. w.is_draining && is_empty w.in_flight_requests) in
    if idle
    then (
      (remove_worker
          (record c {
            graceful_shutdown_disconnect_reasons =
                HashMap.insert worker_id completed c.graceful_shutdown_disconnect_reasons;
          })
          worker_id).0,
      true,
    )
    else (c, false)

unfoldable pub take_graceful_shutdown_disconnect_reason :
    ProxyServerCore → String → ProxyServerCore × Option GracefulShutdownDisconnectReason
take_graceful_shutdown_disconnect_reason c worker_id = (
  record c {
    graceful_shutdown_disconnect_reasons =
        HashMap.remove worker_id c.graceful_shutdown_disconnect_reasons;
  },
  HashMap.get worker_id c.graceful_shutdown_disconnect_reasons,
)
