-- ===== src/Core/Lifecycle/Shutdown.antt =====
-- Graceful shutdown: no worker takes a new request, and at the deadline none is left.
use mathlib.Core.Bool.{false≢true}
use llm_worker_proxy.Shared.{
  ◌+◌, ◌≡◌, refl, sym, ap, ◌∙◌, subst, true, false, String, List, [], ◌∷◌, Option, none, some, inl,
  inr, arith, Bool-cases, Option-cases, string_eq, ◌==◌, ==_iff, Member, retain, retain-Member,
  is_some_and, if◌then◌else◌,
}
use llm_worker_proxy.Shared.HashMap
use llm_worker_proxy.Protocol.{ProviderRouting}
use llm_worker_proxy.Core.State.{
  ProxyServerCore, WorkerState, Instant, Duration, GracefulShutdownSignal, RequestFailureReason,
  GracefulShutdownDisconnectReason,
}
use llm_worker_proxy.Core.Workers.{remove_worker, without_worker}
use llm_worker_proxy.Core.Selection.{find_eligible_worker_id}
use llm_worker_proxy.Core.Selection.Sound.{find_eligible-IsAvailable}
use llm_worker_proxy.Core.Lifecycle.{
  drain_one, start_draining, begin_graceful_shutdown, drop_worker, drop_one, expire_workers,
  expire_graceful_shutdown, workers_that, past_deadline, fail_requests, with_disconnect_reason,
}
use llm_worker_proxy.Core.Bounds.Lifecycle.{workers-fail_requests}

-- Whatever is registered under the id drains.
abbrev Drains : ProxyServerCore → String → Type 0
Drains c id = (w : WorkerState) → HashMap.get id c.workers ≡ some w → w.is_draining ≡ true

drain_one-Drains :
    (deadline : Option Instant) (c : ProxyServerCore) (signal : GracefulShutdownSignal)
    → Drains (drain_one deadline c signal) signal.worker_id
unfolding drain_one
drain_one-Drains deadline c signal w h =
    elim (Option-cases (HashMap.get signal.worker_id c.workers)) [
      | inl gone ↦ absurd (ground arith)
      | inr (v, found) ↦ elim (Bool-cases v.is_draining) [
        | inl before ↦ ground arith
        | inr active ↦ ground (
          arith,
          HashMap.get-insert_self signal.worker_id
              (record v { is_draining = true; graceful_shutdown_deadline = deadline }) c.workers,
        )
      ]
    ]

drain_one-keeps :
    (deadline : Option Instant) (c : ProxyServerCore) (signal : GracefulShutdownSignal)
    (id : String)
    → Drains c id
    → Drains (drain_one deadline c signal) id
unfolding drain_one
drain_one-keeps deadline c signal id drains w h =
    elim (Option-cases (HashMap.get signal.worker_id c.workers)) [
      | inl gone ↦ ground (arith, drains w)
      | inr (v, found) ↦ elim (Bool-cases v.is_draining) [
        | inl before ↦ ground (arith, drains w)
        | inr active ↦ ground (
          arith,
          drains w,
          HashMap.get-insert signal.worker_id id
              (record v { is_draining = true; graceful_shutdown_deadline = deadline }) c.workers,
        )
      ]
    ]

order-drain_one :
    (deadline : Option Instant) (c : ProxyServerCore) (signal : GracefulShutdownSignal)
    → (drain_one deadline c signal).worker_order ≡ c.worker_order
unfolding drain_one
order-drain_one deadline c signal = ground arith

module _ (reason : Option String) (deadline : Instant) (timeout : Duration) where
  abbrev signal_for : String → GracefulShutdownSignal
  signal_for id = record { worker_id = id; reason = reason; drain_timeout = timeout }

  start_draining-keeps :
      (c : ProxyServerCore) (ids : List String) (id : String)
      → Drains c id
      → Drains (start_draining reason deadline timeout c ids).0 id
  unfolding start_draining
  start_draining-keeps c [] id drains = drains
  start_draining-keeps c (j ∷ ids) id drains =
      start_draining-keeps (drain_one (some deadline) c (signal_for j)) ids id
        (drain_one-keeps (some deadline) c (signal_for j) id drains)

  start_draining-Drains :
      (c : ProxyServerCore) (ids : List String) (id : String)
      → Member id ids
      → Drains (start_draining reason deadline timeout c ids).0 id
  unfolding start_draining
  start_draining-Drains c [] id m = elim m [ ]
  start_draining-Drains c (j ∷ ids) id (inl e) =
      start_draining-keeps (drain_one (some deadline) c (signal_for j)) ids id (
        subst (Drains (drain_one (some deadline) c (signal_for j))) (sym e)
          (drain_one-Drains (some deadline) c (signal_for j)))
  start_draining-Drains c (j ∷ ids) id (inr m) =
      start_draining-Drains (drain_one (some deadline) c (signal_for j)) ids id m

  order-start_draining :
      (c : ProxyServerCore) (ids : List String)
      → (start_draining reason deadline timeout c ids).0.worker_order ≡ c.worker_order
  unfolding start_draining
  order-start_draining c [] = refl
  order-start_draining c (j ∷ ids) =
      order-start_draining (drain_one (some deadline) c (signal_for j)) ids
      ∙ order-drain_one (some deadline) c (signal_for j)

-- Once `begin_graceful_shutdown` has run, the search finds no worker for any request.
pub begin_shutdown_stops_dispatch :
    (c : ProxyServerCore) (now : Instant) (reason : Option String) (timeout : Duration)
    (provider model endpoint_path : String) (routing : Option ProviderRouting)
    → (find_eligible_worker_id
        (begin_graceful_shutdown c now reason timeout).0
        provider
        model
        endpoint_path
        routing).1
      ≡ none
unfolding begin_graceful_shutdown
begin_shutdown_stops_dispatch c now reason timeout provider model endpoint_path routing =
    let d = (start_draining reason (now + timeout) timeout c c.worker_order).0 in
    elim (Option-cases (find_eligible_worker_id d provider model endpoint_path routing).1) [
      | inl nothing ↦ nothing
      | inr (id, found) ↦
          let (w, available) =
            find_eligible-IsAvailable d provider model endpoint_path routing id found in
          let listed =
            subst (Member id) (order-start_draining reason (now + timeout) timeout c c.worker_order)
              available.listed in
          absurd (
            false≢true (
              sym available.serves.is_active
              ∙ start_draining-Drains reason (now + timeout) timeout c c.worker_order id listed w
                  available.registered))
    ]

workers-remove_worker :
    (c : ProxyServerCore) (id : String) (v : WorkerState)
    → HashMap.get id c.workers ≡ some v
    → (remove_worker c id).0.workers ≡ HashMap.remove id c.workers
unfolding remove_worker without_worker
workers-remove_worker c id v found = ground arith

get-drop_worker :
    (reason : RequestFailureReason) (why : GracefulShutdownDisconnectReason) (c : ProxyServerCore)
    (id : String) (v : WorkerState)
    → HashMap.get id c.workers ≡ some v
    → (drop_worker reason why c id v).workers ≡ HashMap.remove id c.workers
unfolding drop_worker
get-drop_worker reason why c id v found =
    let e = workers-fail_requests reason c v.in_flight_requests in
    let found' : HashMap.get id (fail_requests reason c v.in_flight_requests).workers ≡ some v =
      ap (HashMap.get id) e ∙ found in
    workers-remove_worker
      (with_disconnect_reason (fail_requests reason c v.in_flight_requests) id why) id v found'
    ∙ ap (HashMap.remove id) e

get-drop_one :
    (reason : RequestFailureReason) (why : GracefulShutdownDisconnectReason) (c : ProxyServerCore)
    (id j : String)
    → HashMap.get j (drop_one reason why c id).workers
      ≡ (if id == j then none else HashMap.get j c.workers)
unfolding drop_one
get-drop_one reason why c id j = elim (Option-cases (HashMap.get id c.workers)) [
  | inl gone ↦ ground (arith, ==_iff id j)
  | inr (v, found) ↦
      rw (found, drop_one)
        (ap (HashMap.get j) (get-drop_worker reason why c id v found)
          ∙ HashMap.get-remove id j c.workers)
]

get-expire_workers :
    (c : ProxyServerCore) (ids : List String) (j : String) (w : WorkerState)
    → HashMap.get j (expire_workers c ids).0.workers ≡ some w
    → (HashMap.get j c.workers ≡ some w) × (¬ Member j ids)
unfolding expire_workers
get-expire_workers c [] j w h = (h, λ m. elim m [ ])
get-expire_workers c (id ∷ ids) j w h =
    let d =
      drop_one RequestFailureReason.graceful_shutdown_timed_out
        GracefulShutdownDisconnectReason.timed_out c id in
    let (kept, others) = get-expire_workers d ids j w h in
    let law =
      get-drop_one RequestFailureReason.graceful_shutdown_timed_out
        GracefulShutdownDisconnectReason.timed_out c id j in
    elim (Bool-cases (id == j)) [
      | inl same ↦ absurd (ground arith)
      | inr differs ↦ (
        ground arith,
        λ m. elim m [
          | inl e ↦ false≢true (sym differs ∙ (==_iff id j).1 (sym e))
          | inr later ↦ others later
        ],
      )
    ]

-- `expire_graceful_shutdown` leaves no worker of `worker_order` whose drain deadline has come, and
-- every worker that it leaves was registered before with the same state.
pub expire_shutdown_removes :
    (c : ProxyServerCore) (now : Instant) (id : String) (w : WorkerState)
    → Member id c.worker_order
    → HashMap.get id (expire_graceful_shutdown c now).0.workers ≡ some w
    → (past_deadline now w ≡ false) × (HashMap.get id c.workers ≡ some w)
unfolding expire_graceful_shutdown workers_that
expire_shutdown_removes c now id w listed h =
    let expires = λ (i : String). is_some_and (HashMap.get i c.workers) (past_deadline now) in
    let (kept, not_in) = get-expire_workers c (retain expires c.worker_order) id w h in
    (
      elim (Bool-cases (past_deadline now w)) [
        | inl past ↦ absurd (not_in (retain-Member expires id c.worker_order listed (rw kept past)))
        | inr before ↦ before
      ],
      kept,
    )
