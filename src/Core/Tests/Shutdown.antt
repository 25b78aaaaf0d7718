-- ===== src/Core/Tests/Shutdown.antt =====
-- Shutdown and timeouts on small states.
use mathlib.Core.Bool.{false≢true}
use llm_worker_proxy.Shared.{==_iff, arith, Option}
use llm_worker_proxy.Core.State.{
  ActiveRequestState, CancelReason, WorkerDisconnectOutcome, max_requeue_count,
}
use llm_worker_proxy.Core.Dispatch.{queue_of}
use llm_worker_proxy.Core.Lifecycle.{disconnect_worker, cancel_request}
use llm_worker_proxy.Core.Lifecycle.Requeue.{OwnIds}
use llm_worker_proxy.Core.Lifecycle.Disconnect.{
  requeued_once, disconnect_settles, requeued_elsewhere_stuck,
}
use llm_worker_proxy.Core.Tests.{held}
use llm_worker_proxy.Shared.{
  ◌*◌, ◌-◌, ◌≤◌, ◌<◌, ◌≡◌, refl, true, false, List, [], ◌∷◌, none, some, ◌⊎◌, inl, inr, Member,
  string_eq,
}
use llm_worker_proxy.Shared.HashMap
use llm_worker_proxy.Core.State.{ProxyServerCore, WorkerState, RequestRecord, RequestFailureReason}
use llm_worker_proxy.Core.Selection.{find_eligible_worker_id}
use llm_worker_proxy.Core.Lifecycle.{
  begin_graceful_shutdown, expire_graceful_shutdown, past_deadline, expire_queue_timeouts,
  expire_workers, workers_that,
}
use llm_worker_proxy.Core.Lifecycle.Shutdown.{
  begin_shutdown_stops_dispatch, expire_shutdown_removes,
}
use llm_worker_proxy.Core.Lifecycle.Timeouts.{expire_queues_exact}
use llm_worker_proxy.Core.Tests.{idle, busy, waiting, two_workers}

begin_shutdown_stops_dispatch_example :
    (find_eligible_worker_id
      (begin_graceful_shutdown two_workers 3 none 5).0
      "p"
      "m"
      "/v1/chat"
      none).1
    ≡ none
begin_shutdown_stops_dispatch_example =
    begin_shutdown_stops_dispatch two_workers 3 none 5 "p" "m" "/v1/chat" none

-- `busy` drains until 4, `idle` does not drain.
abbrev draining : WorkerState
draining = record busy { is_draining = true; graceful_shutdown_deadline = some 4 }

abbrev draining_core : ProxyServerCore
draining_core = record two_workers { workers = ("a", idle) ∷ ("b", draining) ∷ [] }

expire_shutdown_removes_example :
    (past_deadline 3 draining ≡ false) × (HashMap.get "b" draining_core.workers ≡ some draining)
unfolding HashMap.get expire_graceful_shutdown expire_workers workers_that
expire_shutdown_removes_example =
    expire_shutdown_removes draining_core 3 "b" draining (inr (inl refl)) refl

expire_queues_exact_example :
    (kept : List RequestRecord) × (HashMap.get "p"
        (expire_queue_timeouts two_workers 7_000_000_000).0.provider_queues
      ≡ some kept)
    × (((5 * 1_000_000_000 ≤ 7_000_000_000 - 1)
          × (¬ Member waiting kept)
          × Member
              (record { request_id = "s"; reason = RequestFailureReason.queue_timed_out })
              (expire_queue_timeouts two_workers 7_000_000_000).1
          × (HashMap.get "s" (expire_queue_timeouts two_workers 7_000_000_000).0.active_requests
              ≡ none))
        ⊎ ((7_000_000_000 - 1 < 5 * 1_000_000_000) × Member waiting kept))
unfolding HashMap.get
expire_queues_exact_example =
    expire_queues_exact two_workers 7_000_000_000 "p" 5
      (record { max_queue_len = 1; queue_timeout_ticks = some 5 }) (waiting ∷ []) waiting refl refl
      refl (inl refl)

two_workers-OwnIds : OwnIds two_workers
unfolding HashMap.get
two_workers-OwnIds request_id worker_id q cancellation h =
    ground (arith, ==_iff "r" request_id, ==_iff "s" request_id)

abbrev no_reason : Option CancelReason
no_reason = none

disconnect_settles_example :
    let d : ProxyServerCore = (disconnect_worker two_workers "b").0 in
    (out : WorkerDisconnectOutcome) × ((disconnect_worker two_workers "b").1 ≡ some out)
    × (((false ≡ true)
          × (HashMap.get "r" d.active_requests ≡ none)
          × Member
              (record { request_id = "r"; reason = RequestFailureReason.request_already_canceled })
              out.failed_requests)
        ⊎ ((no_reason ≡ none)
            × (max_requeue_count ≤ 0)
            × (HashMap.get "r" d.active_requests ≡ none)
            × Member
                (record { request_id = "r"; reason = RequestFailureReason.max_requeues_exceeded })
                out.failed_requests)
        ⊎ ((no_reason ≡ none)
            × (0 < max_requeue_count)
            × (HashMap.get "r" d.active_requests
                ≡ some (ActiveRequestState.queued (requeued_once held)))
            × Member (requeued_once held) (queue_of d "o")
            × Member "r" out.requeued_request_ids))
unfolding HashMap.get
disconnect_settles_example =
    disconnect_settles two_workers "b" busy held none two_workers-OwnIds refl
      ((λ m. elim m [ ]), tt) (inl refl) refl

requeued_elsewhere_stuck_example :
    let d : ProxyServerCore = (disconnect_worker two_workers "b").0 in
    (HashMap.get "r" d.active_requests ≡ some (ActiveRequestState.queued (requeued_once held)))
    × (queue_of d "o" ≡ requeued_once held ∷ [])
    × (cancel_request d "r" CancelReason.client_disconnected ≡ (d, none))
unfolding HashMap.get
requeued_elsewhere_stuck_example =
    requeued_elsewhere_stuck two_workers "b" busy held CancelReason.client_disconnected refl refl
      refl (omega arith) (λ e. false≢true ((==_iff "o" "p").1 e)) refl
