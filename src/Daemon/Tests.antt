-- ===== src/Daemon/Tests.antt =====
-- The theorems about the worker daemon, applied to small sessions.
use llm_worker_proxy.Shared.{◌≡◌, refl, true, List, [], ◌∷◌, ◌++◌, none, some, string_eq, ok, err}
use llm_worker_proxy.Shared.HashMap
use llm_worker_proxy.Protocol.{ServerToWorkerMessage, RegisterMessage}
use llm_worker_proxy.Core.State.{
  Instant, ProxyServerCore, WorkerState, GracefulShutdownSignal, new, supports_model,
  prefixes_support, to_worker_request,
}
use llm_worker_proxy.Core.Tests.{held, chat}
use llm_worker_proxy.Core.Workers.{
  register_worker, take_pending_worker_requests, take_pending_worker_graceful_shutdown_signals,
  take_pending_worker_cancel_signals, take_pending_worker_models_refresh_signals, is_still_pending,
  sanitize_models, sanitize_from,
}
use llm_worker_proxy.Core.Selection.{
  find_eligible_worker_id, find_eligible_worker_id_unrouted, find_eligible_worker_id_for_provider,
  eligible_from, choose, lowest_load, first_lowest, next_in_rotation, select_by_load, accepts,
}
use llm_worker_proxy.Core.Lifecycle.{
  begin_graceful_shutdown, start_draining, drain_one, workers_that,
}
use llm_worker_proxy.Shared.Text.{format_id, decimal, trim}
use llm_worker_proxy.Core.Dispatch.{
  new_request, submit_transport_request, place_request, assign_to_worker, workers_with_request,
  with_new_request,
}
use llm_worker_proxy.Core.Step.{Event, step}
use llm_worker_proxy.Socket.Loop.{
  Connection, Received, SentFrame, LoopEvent, loop_run, registered_connection, connection_step,
  flush_pending_cancels, send_all, flush_pending_requests,
}
use llm_worker_proxy.Daemon.Session.{Session, SessionEvent, running, session_run, new_session}
use llm_worker_proxy.Daemon.Config.{WorkerDaemonConfig, registration_message}
use llm_worker_proxy.Daemon.Session.Drain.{draining_starts_nothing, session_of}
use llm_worker_proxy.Daemon.Session.Reads.{read_frames, Fails}
use llm_worker_proxy.Daemon.Session.Race.{request_behind_notice-Fails, to_next_requests}
use llm_worker_proxy.Daemon.Reconnect.{first_attempt, SessionEnd, waits}
use llm_worker_proxy.Daemon.Reconnect.Closed.{expected_waits, waits_exact}

abbrev config : WorkerDaemonConfig
config = record {
  proxy_base_url = "http://proxy";
  provider = "local";
  worker_secret = "s";
  worker_name = "w";
  models = "m" ∷ [];
  max_concurrent = 1;
  backend_base_url = "http://backend/";
  endpoint_prefixes = [];
}

abbrev fresh_session : Session
fresh_session = new_session 0 (registration_message config)

abbrev draining : Session
draining = record fresh_session { shutting_down = true }

abbrev late : List (Instant × SessionEvent)
late =
    (1, SessionEvent.text (ok []) (ok (ServerToWorkerMessage.request (to_worker_request held))))
    ∷ []

draining_starts_nothing_example :
    ((session_of (session_run (running draining) late)).shutting_down ≡ true)
    × (HashMap.get "r" (session_of (session_run (running draining) late)).active_requests ≡ none)
unfolding HashMap.get
draining_starts_nothing_example = draining_starts_nothing draining "r" late refl refl

abbrev broken : SessionEnd
broken = record { result = err "connection refused"; session_secs = 0; subsec_millis = 999 }

waits_exact_example :
    waits first_attempt (broken ∷ broken ∷ []) ≡ expected_waits 0 (broken ∷ broken ∷ [])
waits_exact_example = waits_exact (broken ∷ broken ∷ [])

abbrev notice : GracefulShutdownSignal
notice = record { worker_id = "worker-1"; reason = none; drain_timeout = 5 }

-- A worker registers, its connection flushes cancels and requests, then a request is submitted and the
-- shutdown begins.
abbrev registration : RegisterMessage
registration = record {
  worker_name = "w";
  models = "m" ∷ [];
  max_concurrent = 1;
  protocol_version = none;
  current_load = none;
  endpoint_prefixes = [];
}

abbrev registered : ProxyServerCore
registered = (register_worker new "local" registration).0

abbrev connection : Connection
connection = registered_connection "worker-1" 30 10 0 (record {
  room = 3;
  sent =
      SentFrame.message
        (ServerToWorkerMessage.register_ack (register_worker new "local" registration).1.ack)
      ∷ [];
})

abbrev raced : ProxyServerCore × Connection
raced =
    loop_run (registered, connection)
      (LoopEvent.own 1 Received.elapsed
        ∷ LoopEvent.own 1 Received.elapsed
        ∷ LoopEvent.other (Event.submit_transport_request 1 "local" "m" chat none)
        ∷ LoopEvent.other (Event.begin_graceful_shutdown 1 none 5)
        ∷ [])

-- What the worker is by then.
abbrev racing_worker : WorkerState
racing_worker = record {
  provider = "local";
  worker_name = "w";
  models = "m" ∷ [];
  endpoint_prefixes = [];
  max_concurrent = 1;
  reported_load = 1;
  in_flight_requests = "request-1" ∷ [];
  is_draining = true;
  graceful_shutdown_deadline = some 6;
}

request_behind_notice-Fails_example :
    (frames : List SentFrame) × ((loop_run raced (to_next_requests 2)).1.wire.sent
      ≡ raced.1.wire.sent ++ frames)
    × Fails (session_run (running fresh_session) (read_frames 3 (ok []) frames))
unfolding HashMap.get loop_run connection_step flush_pending_cancels send_all
    take_pending_worker_cancel_signals register_worker flush_pending_requests
    take_pending_worker_requests take_pending_worker_graceful_shutdown_signals step
    begin_graceful_shutdown start_draining submit_transport_request place_request
    find_eligible_worker_id find_eligible_worker_id_unrouted find_eligible_worker_id_for_provider
    eligible_from choose lowest_load first_lowest next_in_rotation select_by_load accepts
    supports_model prefixes_support assign_to_worker workers_with_request new_request
    with_new_request format_id decimal sanitize_models sanitize_from trim drain_one workers_that
    take_pending_worker_models_refresh_signals is_still_pending HashMap.insert HashMap.remove
request_behind_notice-Fails_example =
    request_behind_notice-Fails raced.0 raced.1 2 1 racing_worker fresh_session 3 (ok []) notice []
      (to_worker_request (new_request registered 1 "local" "m" chat none)) [] refl refl refl refl
      refl refl refl refl refl refl
