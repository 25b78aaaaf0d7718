-- ===== src/Daemon/Session/Race.antt =====
-- The server's flushes and the daemon's session together: what a worker does with a request that is
-- written behind a shutdown notice.
use mathlib.Core.List.{map-append, append_assoc}
use llm_worker_proxy.Shared.{
  ℕ, ◌+◌, ◌≡◌, refl, sym, ap, ◌∙◌, subst, false, String, List, [], ◌∷◌, ◌++◌, map, none, some,
  Result, length, is_empty, string_eq,
}
use llm_worker_proxy.Shared.HashMap
use llm_worker_proxy.Protocol.{RequestMessage, ServerToWorkerMessage}
use llm_worker_proxy.Core.State.{ProxyServerCore, WorkerState, GracefulShutdownSignal, Instant}
use llm_worker_proxy.Core.Lifecycle.{workers_that, past_deadline}
use llm_worker_proxy.Core.Workers.{
  take_pending_worker_requests, take_pending_worker_graceful_shutdown_signals,
  take_pending_worker_models_refresh_signals, take_graceful_shutdown_disconnect_reason,
  take_pending_worker_cancel_signals, is_still_pending,
}
use llm_worker_proxy.Socket.Messages.{graceful_shutdown_message}
use llm_worker_proxy.Socket.Loop.{
  Phase, Connection, Received, SentFrame, LoopEvent, loop_run, send_all, connection_step,
  pong_overdue, ping_due, after_close_action, flush_pending_cancels, flush_pending_requests,
  flush_pending_graceful_shutdowns, flush_pending_models_refreshes,
}
use llm_worker_proxy.Socket.Loop.Flush.{
  cancels_of, requests_of, shutdowns_of, refreshes_of, written, flushed_lem, close_action_waits,
  quiet_turn,
}
use llm_worker_proxy.Daemon.Session.Reads.{read_frames, Fails, notice_then_request-Fails}
use llm_worker_proxy.Daemon.Session.{Session, running, session_run}

-- The turns from the flush of the notices to the next flush of the requests, with nothing received.
abbrev pub to_next_requests : Instant → List LoopEvent
to_next_requests t =
    LoopEvent.own t Received.elapsed
    ∷ LoopEvent.own t Received.elapsed
    ∷ LoopEvent.own t Received.elapsed
    ∷ LoopEvent.own t Received.elapsed
    ∷ LoopEvent.own t Received.elapsed
    ∷ LoopEvent.own t Received.elapsed
    ∷ []

module _ (c : ProxyServerCore) (k : Connection) (t n : ℕ) (w : WorkerState) where
  abbrev id : String
  id = k.worker_id

  abbrev n3 : ℕ
  n3 = length (requests_of c id) + n

  abbrev n2 : ℕ
  n2 = length (cancels_of c id) + n3

  abbrev n1 : ℕ
  n1 = length (refreshes_of c id) + n2

  abbrev k1 : Connection
  k1 = written k Phase.refreshes n1 (shutdowns_of c id)

  abbrev k2 : Connection
  k2 = written k1 Phase.close_action n2 (refreshes_of c id)

  abbrev k3 : Connection
  k3 = record k2 { phase = Phase.cancels }

  abbrev k4 : Connection
  k4 = written k3 Phase.requests n3 (cancels_of c id)

  abbrev c1 : ProxyServerCore
  c1 = (take_pending_worker_graceful_shutdown_signals c id).0

  abbrev c2 : ProxyServerCore
  c2 = (take_pending_worker_models_refresh_signals c1 id).0

  abbrev c3 : ProxyServerCore
  c3 = (take_graceful_shutdown_disconnect_reason c2 id).0

  abbrev c4 : ProxyServerCore
  c4 = (take_pending_worker_cancel_signals c3 id).0

  turns_lem :
      k.phase ≡ Phase.shutdowns
      → k.wire.room ≡ length (shutdowns_of c id) + n1
      → workers_that (past_deadline t) c.workers c.worker_order ≡ []
      → HashMap.get id c.workers ≡ some w
      → is_empty w.in_flight_requests ≡ false
      → HashMap.get id c.graceful_shutdown_disconnect_reasons ≡ none
      → pong_overdue k t ≡ false
      → ping_due k t ≡ false
      → (loop_run (c, k) (to_next_requests t)).1 ≡ written k4 Phase.shutdowns n (requests_of c id)
  unfolding loop_run connection_step flush_pending_cancels flush_pending_requests
      flush_pending_graceful_shutdowns flush_pending_models_refreshes
      take_pending_worker_cancel_signals take_pending_worker_requests
      take_pending_worker_graceful_shutdown_signals take_pending_worker_models_refresh_signals
      take_graceful_shutdown_disconnect_reason send_all is_still_pending
  turns_lem start room early found holds unset no_pong no_ping =
      ap (λ ck. ck.1)
        (ap
            (λ p.
              loop_run (connection_step c k t Received.elapsed p)
                (turn ∷ turn ∷ turn ∷ turn ∷ turn ∷ []))
            start
          ∙ ap (λ ck. loop_run ck (turn ∷ turn ∷ turn ∷ turn ∷ turn ∷ []))
              (flushed_lem c1 k Phase.refreshes (shutdowns_of c id) n1 room)
          ∙ ap (λ ck. loop_run ck (turn ∷ turn ∷ turn ∷ turn ∷ []))
              (flushed_lem c2 k1 Phase.close_action (refreshes_of c id) n2 refl)
          ∙ ap (λ r. loop_run (after_close_action k2 r) (turn ∷ turn ∷ turn ∷ []))
              (close_action_waits c2 t id w early found holds unset)
          ∙ ap (λ ck. loop_run ck (turn ∷ turn ∷ []))
              (quiet_turn c3 (record k2 { phase = Phase.receiving }) t no_pong no_ping)
          ∙ ap (λ ck. loop_run ck (turn ∷ []))
              (flushed_lem c4 k3 Phase.requests (cancels_of c id) n3 refl)
          ∙ flushed_lem (take_pending_worker_requests c4 id).0 k4 Phase.shutdowns (requests_of c id)
              n refl)
    where
      turn : LoopEvent
      turn = LoopEvent.own t Received.elapsed

frames_lem :
    (sent : List SentFrame) (a b c d : List ServerToWorkerMessage)
    → (((sent ++ map SentFrame.message a) ++ map SentFrame.message b) ++ map SentFrame.message c)
        ++ map SentFrame.message d
      ≡ sent ++ map SentFrame.message (a ++ ((b ++ c) ++ d))
frames_lem sent a b c d = simp (map-append, append_assoc) refl

-- A connection stands between its flush of requests and its flush of shutdown notices, and by now both
-- a notice and a request wait for its worker. It keeps the connection open: no drain deadline has
-- passed, the worker holds a request, and no reason to disconnect it is set. Nothing is received, no
-- ping or pong is due, and the socket has room. Up to the next flush of requests the connection then
-- writes, behind what it had written, frames on which every running session of the worker fails,
-- whatever its state: it ends with an error instead of draining.
pub request_behind_notice-Fails :
    (c : ProxyServerCore) (k : Connection) (t n : ℕ) (w : WorkerState) (s : Session) (t2 : Instant)
    (discovered : Result (List String) String) (signal : GracefulShutdownSignal)
    (signals : List GracefulShutdownSignal) (r : RequestMessage) (requests : List RequestMessage)
    → k.phase ≡ Phase.shutdowns
    → (take_pending_worker_graceful_shutdown_signals c k.worker_id).1 ≡ signal ∷ signals
    → (take_pending_worker_requests c k.worker_id).1 ≡ r ∷ requests
    → k.wire.room
      ≡ length (shutdowns_of c k.worker_id)
        + (length (refreshes_of c k.worker_id)
            + (length (cancels_of c k.worker_id) + (length (requests_of c k.worker_id) + n)))
    → workers_that (past_deadline t) c.workers c.worker_order ≡ []
    → HashMap.get k.worker_id c.workers ≡ some w
    → is_empty w.in_flight_requests ≡ false
    → HashMap.get k.worker_id c.graceful_shutdown_disconnect_reasons ≡ none
    → pong_overdue k t ≡ false
    → ping_due k t ≡ false
    → (frames : List SentFrame) × ((loop_run (c, k) (to_next_requests t)).1.wire.sent
        ≡ k.wire.sent ++ frames)
      × Fails (session_run (running s) (read_frames t2 discovered frames))
request_behind_notice-Fails c k t n w s t2 discovered signal signals r requests start noticed waits
      room early found holds unset no_pong no_ping =
    (
      map SentFrame.message (
          shutdowns_of c k.worker_id
          ++ ((refreshes_of c k.worker_id ++ cancels_of c k.worker_id)
              ++ requests_of c k.worker_id)),
      ap (λ x. x.wire.sent) (turns_lem c k t n w start room early found holds unset no_pong no_ping)
          ∙ frames_lem k.wire.sent (shutdowns_of c k.worker_id) (refreshes_of c k.worker_id)
              (cancels_of c k.worker_id) (requests_of c k.worker_id),
      subst
          (λ notices. Fails (
            session_run (running s) (
              read_frames t2 discovered (
                map SentFrame.message (
                  map graceful_shutdown_message notices
                  ++ ((refreshes_of c k.worker_id ++ cancels_of c k.worker_id)
                      ++ requests_of c k.worker_id))))))
          (sym noticed)
          (subst
            (λ asked. Fails (
              session_run (running s) (
                read_frames t2 discovered (
                  map SentFrame.message (
                    map graceful_shutdown_message (signal ∷ signals)
                    ++ ((refreshes_of c k.worker_id ++ cancels_of c k.worker_id)
                        ++ map ServerToWorkerMessage.request asked))))))
            (sym waits)
            (notice_then_request-Fails t2 discovered
              (refreshes_of c k.worker_id ++ cancels_of c k.worker_id) signal signals r requests
              s)),
    )
