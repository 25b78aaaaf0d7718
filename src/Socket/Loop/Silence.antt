-- ===== src/Socket/Loop/Silence.antt =====
-- A worker from which nothing is heard: it gets a ping, and then its connection ends.
use llm_worker_proxy.Shared.{
  ℕ, suc, ◌+◌, ◌≤◌, ◌≡◌, refl, subst, ◌∙◌, arith, Bool, true, false, List, [], ◌∷◌, ◌++◌, none,
  some, string_eq,
}
use llm_worker_proxy.Shared.HashMap
use llm_worker_proxy.Core.State.{ProxyServerCore, Instant}
use llm_worker_proxy.Core.Lifecycle
use llm_worker_proxy.Core.Step.{step}
use llm_worker_proxy.Socket.Loop.{
  Phase, Connection, Received, LoopEvent, heartbeat, receive, connection_step, loop_run,
  flush_pending_cancels, flush_pending_requests, flush_pending_graceful_shutdowns, heartbeat_ping,
  flush_pending_models_refreshes, pong_overdue,
}
use llm_worker_proxy.Socket.Loop.Heartbeat.{disconnect-IsGone, worker-step}

-- Nothing is received from the worker.
unfoldable pub silent : List LoopEvent → Bool
silent [] = true
silent (LoopEvent.own now Received.elapsed ∷ es) = silent es
silent (LoopEvent.own now _ ∷ es) = false
silent (LoopEvent.other e ∷ es) = silent es

-- A ping that was sent at `sent_at` is not answered.
record Awaits (sent_at : Instant) (k0 k : Connection) : Type 0 where
  since : k.awaiting_pong_since ≡ some sent_at
  same_worker : k.worker_id ≡ k0.worker_id
  same_timeout : k.heartbeat_pong_timeout ≡ k0.heartbeat_pong_timeout

step-Awaits :
    (s : Instant) (k0 : Connection) (c : ProxyServerCore) (k : Connection) (now : Instant)
    (p : Phase)
    → Awaits s k0 k
    → Awaits s k0 (connection_step c k now Received.elapsed p).1
unfolding connection_step flush_pending_cancels flush_pending_requests
    flush_pending_graceful_shutdowns flush_pending_models_refreshes receive heartbeat
step-Awaits s k0 c k now p a = record {
  since = since_step p;
  same_worker = worker-step c k now Received.elapsed p ∙ a.same_worker;
  same_timeout = timeout_step p;
}
  where
    waits : k.awaiting_pong_since ≡ some s
    waits = a.since

    since_step :
        (p : Phase) → (connection_step c k now Received.elapsed p).1.awaiting_pong_since ≡ some s
    since_step Phase.cancels = ground arith
    since_step Phase.requests = ground arith
    since_step Phase.shutdowns = ground arith
    since_step Phase.refreshes = ground arith
    since_step Phase.close_action = ground arith
    since_step Phase.receiving = ground arith
    since_step Phase.closed = waits

    timeout_step :
        (p : Phase)
        → (connection_step c k now Received.elapsed p).1.heartbeat_pong_timeout
          ≡ k0.heartbeat_pong_timeout
    timeout_step Phase.cancels = ground arith
    timeout_step Phase.requests = ground arith
    timeout_step Phase.shutdowns = ground arith
    timeout_step Phase.refreshes = ground arith
    timeout_step Phase.close_action = ground arith
    timeout_step Phase.receiving = ground arith
    timeout_step Phase.closed = a.same_timeout

run-Awaits :
    (s : Instant) (k0 : Connection) (c : ProxyServerCore) (k : Connection) (es : List LoopEvent)
    → silent es ≡ true
    → Awaits s k0 k
    → Awaits s k0 (loop_run (c, k) es).1
unfolding loop_run silent
run-Awaits s k0 c k [] quiet a = a
run-Awaits s k0 c k (LoopEvent.other e ∷ es) quiet a = run-Awaits s k0 (step c e) k es quiet a
run-Awaits s k0 c k (LoopEvent.own now Received.elapsed ∷ es) quiet a =
    run-Awaits s k0 _ _ es quiet (step-Awaits s k0 c k now k.phase a)
run-Awaits s k0 c k (LoopEvent.own now (Received.text m) ∷ es) quiet a = absurd (cc)
run-Awaits s k0 c k (LoopEvent.own now Received.close_or_error ∷ es) quiet a = absurd (cc)
run-Awaits s k0 c k (LoopEvent.own now Received.ping_or_pong ∷ es) quiet a = absurd (cc)
run-Awaits s k0 c k (LoopEvent.own now Received.binary ∷ es) quiet a = absurd (cc)

-- An overdue answer ends the connection.
overdue-closes :
    (s t : Instant) (c : ProxyServerCore) (k0 k : Connection)
    → Awaits s k0 k
    → s + k0.heartbeat_pong_timeout ≤ t
    → k.phase ≡ Phase.receiving
    → ((loop_run (c, k) (LoopEvent.own t Received.elapsed ∷ [])).1.phase ≡ Phase.closed)
      × (HashMap.get k0.worker_id
            (loop_run (c, k) (LoopEvent.own t Received.elapsed ∷ [])).0.workers
          ≡ none)
unfolding loop_run connection_step receive heartbeat
overdue-closes s t c k0 k a late at_recv = rw at_recv (
    rw overdue (
      refl,
      subst (λ id. HashMap.get id (Lifecycle.disconnect_worker c k.worker_id).0.workers ≡ none)
          a.same_worker (disconnect-IsGone c k.worker_id),
    ))
  where
    overdue : pong_overdue k t ≡ true
    overdue = ground (arith, a.since, a.same_timeout, late)

first_ping :
    (c : ProxyServerCore) (k : Connection) (t n : ℕ)
    → k.phase ≡ Phase.receiving
    → k.awaiting_pong_since ≡ none
    → k.wire.room ≡ suc n
    → k.last_heartbeat_activity_at + k.heartbeat_interval ≤ t
    → Awaits t k (connection_step c k t Received.elapsed k.phase).1
unfolding connection_step receive heartbeat
first_ping c k t n at_recv nothing room quiet_long = record {
  since = ground arith;
  same_worker = worker-step c k t Received.elapsed k.phase;
  same_timeout = ground arith;
}

first_ping_sent :
    (c : ProxyServerCore) (k : Connection) (t n : ℕ)
    → k.phase ≡ Phase.receiving
    → k.awaiting_pong_since ≡ none
    → k.wire.room ≡ suc n
    → k.last_heartbeat_activity_at + k.heartbeat_interval ≤ t
    → (connection_step c k t Received.elapsed k.phase).1.wire.sent
      ≡ k.wire.sent ++ heartbeat_ping ∷ []
unfolding connection_step receive heartbeat
first_ping_sent c k t n at_recv nothing room quiet_long = ground arith

-- A worker that is silent for the heartbeat interval gets a ping, if the socket takes it. If it then
-- stays silent, whatever else happens to the core, the first turn to receive that comes after the pong
-- timeout closes the connection, and the worker is no longer registered.
pub silent_worker_is_disconnected :
    (c : ProxyServerCore) (k : Connection) (t1 t2 n : ℕ) (es : List LoopEvent)
    → k.phase ≡ Phase.receiving
    → k.awaiting_pong_since ≡ none
    → k.wire.room ≡ suc n
    → k.last_heartbeat_activity_at + k.heartbeat_interval ≤ t1
    → silent es ≡ true
    → (loop_run (c, k) (LoopEvent.own t1 Received.elapsed ∷ es)).1.phase ≡ Phase.receiving
    → t1 + k.heartbeat_pong_timeout ≤ t2
    → ((connection_step c k t1 Received.elapsed k.phase).1.wire.sent
        ≡ k.wire.sent ++ heartbeat_ping ∷ [])
      × ((loop_run
            (loop_run (c, k) (LoopEvent.own t1 Received.elapsed ∷ es))
            (LoopEvent.own t2 Received.elapsed ∷ [])).1.phase
          ≡ Phase.closed)
      × (HashMap.get k.worker_id
            (loop_run
              (loop_run (c, k) (LoopEvent.own t1 Received.elapsed ∷ es))
              (LoopEvent.own t2 Received.elapsed ∷ [])).0.workers
          ≡ none)
unfolding loop_run
silent_worker_is_disconnected c k t1 t2 n es at_recv nothing room quiet_long quiet again late =
    let (closed, gone) =
      overdue-closes t1 t2 _ k _
        (run-Awaits t1 k _ _ es quiet (first_ping c k t1 n at_recv nothing room quiet_long)) late
        again in
    (first_ping_sent c k t1 n at_recv nothing room quiet_long, closed, gone)
