-- ===== src/Socket/Loop/Tests.antt =====
-- The theorems about a connection's loop, applied to a connection of a small core.
use llm_worker_proxy.Shared.{◌≡◌, refl, arith, List, [], ◌∷◌, ◌++◌, none, string_eq}
use llm_worker_proxy.Shared.HashMap
use llm_worker_proxy.Core.Tests.{two_workers}
use llm_worker_proxy.Core.Workers.{
  take_pending_worker_requests, take_pending_worker_graceful_shutdown_signals,
  take_pending_worker_cancel_signals, take_pending_worker_models_refresh_signals,
  disconnect_drained_worker_if_idle, take_graceful_shutdown_disconnect_reason,
}
use llm_worker_proxy.Core.Lifecycle.{expire_graceful_shutdown, expire_workers, workers_that}
use llm_worker_proxy.Socket.Messages.{graceful_shutdown_close_action}
use llm_worker_proxy.Socket.Loop.{
  Phase, Connection, Received, LoopEvent, connection_step, loop_run, heartbeat_ping, receive,
  heartbeat, flush_pending_cancels, send_all, flush_pending_requests,
  flush_pending_graceful_shutdowns, flush_pending_models_refreshes,
}
use llm_worker_proxy.Socket.Loop.Heartbeat.{closed_connection_unregisters}
use llm_worker_proxy.Socket.Loop.Silence.{silent, silent_worker_is_disconnected}

abbrev connection : Connection
connection = record {
  worker_id = "b";
  heartbeat_interval = 30;
  heartbeat_pong_timeout = 10;
  last_heartbeat_activity_at = 0;
  awaiting_pong_since = none;
  phase = Phase.receiving;
  wire = record { room = 3; sent = [] };
}

closed_connection_unregisters_example :
    HashMap.get "b"
      (connection_step two_workers connection 5 Received.binary Phase.receiving).0.workers
    ≡ none
unfolding connection_step receive
closed_connection_unregisters_example =
    closed_connection_unregisters two_workers connection 5 Received.binary (λ e. cc) (λ e. cc) refl

-- The turns of a round without an event.
abbrev quiet_round : List LoopEvent
quiet_round =
    LoopEvent.own 31 Received.elapsed
    ∷ LoopEvent.own 31 Received.elapsed
    ∷ LoopEvent.own 31 Received.elapsed
    ∷ LoopEvent.own 31 Received.elapsed
    ∷ LoopEvent.own 31 Received.elapsed
    ∷ []

silent_worker_is_disconnected_example :
    ((connection_step two_workers connection 30 Received.elapsed Phase.receiving).1.wire.sent
      ≡ [] ++ heartbeat_ping ∷ [])
    × ((loop_run
          (loop_run (two_workers, connection) (LoopEvent.own 30 Received.elapsed ∷ quiet_round))
          (LoopEvent.own 40 Received.elapsed ∷ [])).1.phase
        ≡ Phase.closed)
    × (HashMap.get "b"
          (loop_run
            (loop_run (two_workers, connection) (LoopEvent.own 30 Received.elapsed ∷ quiet_round))
            (LoopEvent.own 40 Received.elapsed ∷ [])).0.workers
        ≡ none)
unfolding silent loop_run connection_step receive heartbeat flush_pending_cancels send_all
    take_pending_worker_cancel_signals flush_pending_requests take_pending_worker_requests
    HashMap.get flush_pending_graceful_shutdowns take_pending_worker_graceful_shutdown_signals
    flush_pending_models_refreshes take_pending_worker_models_refresh_signals
    graceful_shutdown_close_action expire_graceful_shutdown expire_workers workers_that
    disconnect_drained_worker_if_idle take_graceful_shutdown_disconnect_reason
silent_worker_is_disconnected_example =
    silent_worker_is_disconnected two_workers connection 30 40 2 quiet_round refl refl refl
      (omega arith) refl refl (omega arith)
