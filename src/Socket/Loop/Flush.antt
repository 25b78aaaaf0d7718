-- ===== src/Socket/Loop/Flush.antt =====
-- What a flush writes, and a turn of the loop in which a draining worker still holds requests.
use mathlib.Core.List.{append_assoc, append-nil}
use llm_worker_proxy.Shared.{
  ℕ, zero, suc, ◌+◌, ◌≡◌, refl, sym, ap, ◌∙◌, arith, Bool, true, false, is_empty, String, List, [],
  ◌∷◌, ◌++◌, map, none, some, length, string_eq,
}
use llm_worker_proxy.Shared.HashMap
use llm_worker_proxy.Protocol.{ServerToWorkerMessage}
use llm_worker_proxy.Core.State.{ProxyServerCore, Instant, WorkerState}
use llm_worker_proxy.Core.Workers.{
  take_pending_worker_requests, take_pending_worker_cancel_signals,
  take_pending_worker_graceful_shutdown_signals, take_pending_worker_models_refresh_signals,
  disconnect_drained_worker_if_idle, take_graceful_shutdown_disconnect_reason,
}
use llm_worker_proxy.Core.Lifecycle.{
  workers_that, past_deadline, expire_graceful_shutdown, expire_workers,
}
use llm_worker_proxy.Socket.Messages.{
  cancel_message, graceful_shutdown_message, models_refresh_message, graceful_shutdown_close_action,
}
use llm_worker_proxy.Socket.Loop.{
  Phase, Connection, Received, Wire, SentFrame, send_all, flushed, receive, heartbeat, pong_overdue,
  ping_due,
}

-- With room for every message, all are written, in order.
send_all_lem :
    (n room : ℕ) (sent : List SentFrame) (messages : List ServerToWorkerMessage)
    → room ≡ length messages + n
    → send_all (record { room = room; sent = sent }) messages
      ≡ (record { room = n; sent = sent ++ map SentFrame.message messages }, true)
unfolding send_all
send_all_lem n room sent [] e =
    ap {B = Wire × Bool} (λ (w : ℕ × List SentFrame). (record { room = w.0; sent = w.1 }, true))
      (ap {B = ℕ × List SentFrame} (λ r. (r, sent)) (omega (arith, e))
        ∙ ap {B = ℕ × List SentFrame} (λ l. (n, l)) (sym (append-nil sent)))
send_all_lem n zero sent (m ∷ messages) e = absurd (omega (arith, e))
send_all_lem n (suc room) sent (m ∷ messages) e =
    send_all_lem n room (sent ++ SentFrame.message m ∷ []) messages (omega (arith, e))
    ∙ ap {B = Wire × Bool} (λ l. (record { room = n; sent = l }, true))
        (append_assoc sent (SentFrame.message m ∷ []) (map SentFrame.message messages))

-- The connection behind a flush.
abbrev pub written : Connection → Phase → ℕ → List ServerToWorkerMessage → Connection
written k next n messages = record k {
  phase = next;
  wire = record { room = n; sent = k.wire.sent ++ map SentFrame.message messages };
}

-- A flush that finds room for its messages goes on to the next phase.
pub flushed_lem :
    (c : ProxyServerCore) (k : Connection) (next : Phase) (messages : List ServerToWorkerMessage)
    (n : ℕ)
    → k.wire.room ≡ length messages + n
    → flushed c k next (send_all k.wire messages) ≡ (c, written k next n messages)
flushed_lem c k next messages n room =
    ap (flushed c k next) (send_all_lem n k.wire.room k.wire.sent messages room)

-- The messages that wait for a worker, in the order of the flushes.
abbrev pub cancels_of : ProxyServerCore → String → List ServerToWorkerMessage
cancels_of c id = map cancel_message (take_pending_worker_cancel_signals c id).1

abbrev pub requests_of : ProxyServerCore → String → List ServerToWorkerMessage
requests_of c id = map ServerToWorkerMessage.request (take_pending_worker_requests c id).1

abbrev pub shutdowns_of : ProxyServerCore → String → List ServerToWorkerMessage
shutdowns_of c id =
    map graceful_shutdown_message (take_pending_worker_graceful_shutdown_signals c id).1

abbrev pub refreshes_of : ProxyServerCore → String → List ServerToWorkerMessage
refreshes_of c id = map models_refresh_message (take_pending_worker_models_refresh_signals c id).1

-- No drain deadline has passed, and the worker holds a request and has no reason to be disconnected:
-- then the connection stays open.
pub close_action_waits :
    (c : ProxyServerCore) (now : Instant) (id : String) (w : WorkerState)
    → workers_that (past_deadline now) c.workers c.worker_order ≡ []
    → HashMap.get id c.workers ≡ some w
    → is_empty w.in_flight_requests ≡ false
    → HashMap.get id c.graceful_shutdown_disconnect_reasons ≡ none
    → graceful_shutdown_close_action c now id
      ≡ ((take_graceful_shutdown_disconnect_reason c id).0, none)
unfolding graceful_shutdown_close_action expire_graceful_shutdown expire_workers
    disconnect_drained_worker_if_idle take_graceful_shutdown_disconnect_reason
close_action_waits c now id w early found holds unset = ground arith

-- Nothing is received, and neither a ping nor a pong is due.
pub quiet_turn :
    (c : ProxyServerCore) (k : Connection) (now : Instant)
    → pong_overdue k now ≡ false
    → ping_due k now ≡ false
    → receive c k now Received.elapsed ≡ (c, record k { phase = Phase.cancels })
unfolding receive heartbeat
quiet_turn c k now early idle = rw (early, receive, heartbeat, idle) refl
