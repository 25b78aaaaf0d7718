-- ===== src/Socket/Loop/Heartbeat.antt =====
-- How a connection ends: the worker is gone from the registry, and a silent worker's connection ends.
use llm_worker_proxy.Shared.{
  ◌≡◌, ◌≢◌, refl, subst, sym, inl, inr, arith, Bool, true, false, String, none, some, Bool-cases,
  Option-cases, string_eq, if◌then◌else◌,
}
use llm_worker_proxy.Shared.HashMap
use llm_worker_proxy.Core.State.{ProxyServerCore, WorkerState, Instant}
use llm_worker_proxy.Core.Workers.{remove_worker, without_worker}
use llm_worker_proxy.Core.Lifecycle
use llm_worker_proxy.Core.Lifecycle.{requeue_released, release_requests}
use llm_worker_proxy.Core.Bounds.Lifecycle.{workers-release}
use llm_worker_proxy.Socket.Messages.{handle_worker_message}
use llm_worker_proxy.Socket.Loop.{
  send, pong_overdue, ping_due, Phase, Connection, Received, Wire, heartbeat, receive,
  connection_step, flushed, flush_pending_cancels, flush_pending_requests,
  flush_pending_graceful_shutdowns, flush_pending_models_refreshes, heartbeat_ping, alive,
  after_text, after_ping,
}

-- The worker is not in the registry.
abbrev pub IsGone : ProxyServerCore → String → Type 0
IsGone c id = HashMap.get id c.workers ≡ none

removed-IsGone :
    (c : ProxyServerCore) (id : String) (w : WorkerState)
    → HashMap.get id c.workers ≡ some w
    → IsGone (remove_worker c id).0 id
unfolding remove_worker without_worker
removed-IsGone c id w found = ground (arith, HashMap.get-remove_self id c.workers)

pub disconnect-IsGone :
    (c : ProxyServerCore) (id : String) → IsGone (Lifecycle.disconnect_worker c id).0 id
unfolding Lifecycle.disconnect_worker
disconnect-IsGone c id = elim (Option-cases (HashMap.get id c.workers)) [
  | inl gone ↦ rw (gone, Lifecycle.disconnect_worker) gone
  | inr (w, found) ↦
      rw (found, Lifecycle.disconnect_worker)
        (subst (λ workers. HashMap.get id workers ≡ none)
          (sym (workers-release (remove_worker c id).0 w.in_flight_requests))
          (removed-IsGone c id w found))
]

-- A connection that is closed, other than by the close action, has no worker behind it.
abbrev EndsGone : ProxyServerCore × Connection → Type 0
EndsGone ck = (ck.1.phase ≡ Phase.closed) → IsGone ck.0 ck.1.worker_id

flushed-EndsGone :
    (c : ProxyServerCore) (k : Connection) (next : Phase) (r : Wire × Bool)
    → next ≢ Phase.closed
    → EndsGone (flushed c k next r)
flushed-EndsGone c k next (wire, true) apart closed = absurd (apart closed)
flushed-EndsGone c k next (wire, false) apart closed = disconnect-IsGone c k.worker_id

after_text-EndsGone :
    (k : Connection) (r : ProxyServerCore × Bool)
    → k.phase ≢ Phase.closed
    → EndsGone (after_text k r)
after_text-EndsGone k (c, true) open_before closed = absurd (open_before closed)
after_text-EndsGone k (c, false) open_before closed = disconnect-IsGone c k.worker_id

after_ping-EndsGone :
    (c : ProxyServerCore) (k : Connection) (now : Instant) (r : Wire × Bool)
    → EndsGone (after_ping c k now r)
after_ping-EndsGone c k now (wire, true) closed = absurd (cc)
after_ping-EndsGone c k now (wire, false) closed = disconnect-IsGone c k.worker_id

if-EndsGone :
    (b : Bool) (x y : ProxyServerCore × Connection)
    → EndsGone x
    → EndsGone y
    → EndsGone (if b then x else y)
if-EndsGone true x y gx gy = gx
if-EndsGone false x y gx gy = gy

next_round-EndsGone :
    (c : ProxyServerCore) (k : Connection) → EndsGone (c, record k { phase = Phase.cancels })
next_round-EndsGone c k closed = absurd (cc)

heartbeat-EndsGone :
    (c : ProxyServerCore) (k : Connection) (now : Instant) → EndsGone (heartbeat c k now)
unfolding heartbeat
heartbeat-EndsGone c k now = elim (Bool-cases (pong_overdue k now)) [
  | inl overdue ↦ rw overdue (λ closed. disconnect-IsGone c k.worker_id)
  | inr waiting ↦ elim (Bool-cases (ping_due k now)) [
    | inl due ↦ rw (waiting, due) (after_ping-EndsGone c k now (send k.wire heartbeat_ping))
    | inr early ↦ rw (waiting, early) (next_round-EndsGone c k)
  ]
]

receive-EndsGone :
    (c : ProxyServerCore) (k : Connection) (now : Instant) (r : Received)
    → EndsGone (receive c k now r)
unfolding receive
receive-EndsGone c k now (Received.text payload) closed =
    after_text-EndsGone (alive k now) (handle_worker_message c k.worker_id payload) (λ e. cc) closed
receive-EndsGone c k now Received.close_or_error closed = disconnect-IsGone c k.worker_id
receive-EndsGone c k now Received.ping_or_pong closed = absurd (cc)
receive-EndsGone c k now Received.elapsed closed = heartbeat-EndsGone c k now closed
receive-EndsGone c k now Received.binary closed = disconnect-IsGone c k.worker_id

step-EndsGone :
    (c : ProxyServerCore) (k : Connection) (now : Instant) (r : Received) (p : Phase)
    → p ≢ Phase.close_action
    → p ≢ Phase.closed
    → EndsGone (connection_step c k now r p)
unfolding connection_step flush_pending_cancels flush_pending_requests
    flush_pending_graceful_shutdowns flush_pending_models_refreshes
step-EndsGone c k now r Phase.cancels _ _ = flushed-EndsGone _ k Phase.requests _ (λ e. cc)
step-EndsGone c k now r Phase.requests _ _ = flushed-EndsGone _ k Phase.shutdowns _ (λ e. cc)
step-EndsGone c k now r Phase.shutdowns _ _ = flushed-EndsGone _ k Phase.refreshes _ (λ e. cc)
step-EndsGone c k now r Phase.refreshes _ _ = flushed-EndsGone _ k Phase.close_action _ (λ e. cc)
step-EndsGone c k now r Phase.close_action apart _ = absurd (apart refl)
step-EndsGone c k now r Phase.receiving _ _ = receive-EndsGone c k now r
step-EndsGone c k now r Phase.closed _ apart = absurd (apart refl)

pub worker-step :
    (c : ProxyServerCore) (k : Connection) (now : Instant) (r : Received) (p : Phase)
    → (connection_step c k now r p).1.worker_id ≡ k.worker_id
unfolding connection_step flush_pending_cancels flush_pending_requests
    flush_pending_graceful_shutdowns flush_pending_models_refreshes receive heartbeat
worker-step c k now r Phase.cancels = ground arith
worker-step c k now r Phase.requests = ground arith
worker-step c k now r Phase.shutdowns = ground arith
worker-step c k now r Phase.refreshes = ground arith
worker-step c k now r Phase.close_action = ground arith
worker-step c k now (Received.text payload) Phase.receiving = ground arith
worker-step c k now Received.close_or_error Phase.receiving = refl
worker-step c k now Received.ping_or_pong Phase.receiving = refl
worker-step c k now Received.elapsed Phase.receiving = ground arith
worker-step c k now Received.binary Phase.receiving = refl
worker-step c k now r Phase.closed = refl

-- A connection that is closed by a flush, by what it receives or by silence leaves its worker
-- unregistered.
pub closed_connection_unregisters :
    (c : ProxyServerCore) (k : Connection) (now : Instant) (received : Received)
    → k.phase ≢ Phase.close_action
    → k.phase ≢ Phase.closed
    → (connection_step c k now received k.phase).1.phase ≡ Phase.closed
    → HashMap.get k.worker_id (connection_step c k now received k.phase).0.workers ≡ none
closed_connection_unregisters c k now received acts before closed =
    subst (λ id. HashMap.get id (connection_step c k now received k.phase).0.workers ≡ none)
      (worker-step c k now received k.phase)
      (step-EndsGone c k now received k.phase acts before closed)
