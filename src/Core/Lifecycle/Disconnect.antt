-- ===== src/Core/Lifecycle/Disconnect.antt =====
-- `disconnect_worker` as a whole: no request of the worker is lost, and one may be stuck.
use llm_worker_proxy.Shared.{
  Distinct, ◌+◌, ◌≤◌, ◌<◌, ◌≡◌, refl, ap, subst, ◌∙◌, ◌≢◌, ◌⊎◌, inl, inr, arith, true, false,
  String, List, [], ◌∷◌, ◌++◌, Option, none, some, Bool-cases, Option-cases, Member, string_eq,
  ◌==◌, map, is_some, any, leb, leb→le, unwrap_or, Member-append_left,
}
use llm_worker_proxy.Shared.HashMap
use llm_worker_proxy.Shared.HashMap.{HashMap}
use llm_worker_proxy.Core.State.{
  ProxyServerCore, RequestRecord, ActiveRequestState, CancelReason, RequestFailureReason,
  WorkerState, WorkerDisconnectOutcome, max_requeue_count,
}
use llm_worker_proxy.Core.Workers.{remove_worker, without_worker}
use llm_worker_proxy.Core.Dispatch.{queue_of}
use llm_worker_proxy.Core.Responses.Owner.{any-position}
use llm_worker_proxy.Core.Lifecycle.{
  Fate, fail, requeue, fate, fate_of, release_one, apply_fate, requeue_released, release_requests,
  push_requeued, disconnect_worker, cancel_request, unqueue,
}
use llm_worker_proxy.Core.Lifecycle.Requeue.{OwnIds, left_by, Noted, release_requests_lem}

-- The request with one more requeue.
abbrev pub requeued_once : RequestRecord → RequestRecord
requeued_once q = record q { requeue_count = q.requeue_count + 1 }

Member-map :
    {A : Type 0} {B : Type 0} (f : A → B) (a : A) (xs : List A)
    → Member a xs
    → Member (f a) (map f xs)
Member-map f a [] m = elim m [ ]
Member-map f a (x ∷ xs) (inl e) = inl (ap f e)
Member-map f a (x ∷ xs) (inr m) = inr (Member-map f a xs m)

push_requeued-Member :
    (queues : HashMap String (List RequestRecord)) (provider : String) (q : RequestRecord)
    (requeued : List RequestRecord)
    → Member q requeued
    → Member q (unwrap_or (HashMap.get provider (push_requeued queues provider requeued)) [])
unfolding push_requeued
push_requeued-Member queues provider q [] m = elim m [ ]
push_requeued-Member queues provider q (x ∷ xs) m =
    elim (Option-cases (HashMap.get provider queues)) [
      | inl nothing ↦
          rw (nothing, push_requeued, HashMap.get-insert_self provider (x ∷ xs) queues) m
      | inr (queue, found) ↦
          rw (found, push_requeued, HashMap.get-insert_self provider ((x ∷ xs) ++ queue) queues)
            (Member-append_left q (x ∷ xs) queue m)
    ]

disconnect_worker_lem :
    (c : ProxyServerCore) (id : String) (w : WorkerState)
    → HashMap.get id c.workers ≡ some w
    → disconnect_worker c id
      ≡ requeue_released w.provider (release_requests (without_worker c id) w.in_flight_requests)
unfolding disconnect_worker remove_worker
disconnect_worker_lem c id w found = ground arith

-- The state behind the disconnect of a worker with one request, which is queued again.
abbrev given_back : ProxyServerCore → String → String → RequestRecord → ProxyServerCore
given_back c id provider q = record (without_worker c id) {
  active_requests =
      HashMap.insert q.request_id (ActiveRequestState.queued q)
        (HashMap.remove q.request_id c.active_requests);
  provider_queues = push_requeued c.provider_queues provider (q ∷ []);
}

disconnect-given_back :
    (c : ProxyServerCore) (id : String) (w : WorkerState) (q : RequestRecord)
    → HashMap.get id c.workers ≡ some w
    → w.in_flight_requests ≡ q.request_id ∷ []
    → HashMap.get q.request_id c.active_requests ≡ some (ActiveRequestState.in_flight q id none)
    → q.requeue_count < max_requeue_count
    → (disconnect_worker c id).0 ≡ given_back c id w.provider (requeued_once q)
unfolding without_worker release_requests release_one apply_fate fate
disconnect-given_back c id w q found held active few =
    ap (λ o. o.0) (disconnect_worker_lem c id w found) ∙ rw held (rw active (ground arith))

released_as :
    (c : ProxyServerCore) (id : String) (w : WorkerState) (r : String) (f : Fate)
    → OwnIds c
    → Distinct w.in_flight_requests
    → Member r w.in_flight_requests
    → fate_of c r ≡ f
    → (HashMap.get r (release_requests (without_worker c id) w.in_flight_requests).0.active_requests
        ≡ left_by f)
      × Noted r f (release_requests (without_worker c id) w.in_flight_requests).1
unfolding without_worker
released_as c id w r f own distinct listed e =
    let out = release_requests (without_worker c id) w.in_flight_requests in
    subst (λ g. (HashMap.get r out.0.active_requests ≡ left_by g) × Noted r g out.1) e
      (release_requests_lem (without_worker c id) w.in_flight_requests r own distinct listed)

-- A worker leaves. Each of its requests in flight is settled in one of three ways: a cancelled one fails
-- and is forgotten; one that was requeued three times fails and is forgotten; any other is queued
-- again with its count one higher, and stands in the queue of the worker's provider. It is assumed
-- that requests are filed under their own ids and that the worker holds no request twice.
pub disconnect_settles :
    (c : ProxyServerCore) (id : String) (w : WorkerState) (q : RequestRecord)
    (cancellation : Option CancelReason)
    → OwnIds c
    → HashMap.get id c.workers ≡ some w
    → Distinct w.in_flight_requests
    → Member q.request_id w.in_flight_requests
    → HashMap.get q.request_id c.active_requests
      ≡ some (ActiveRequestState.in_flight q id cancellation)
    → let d : ProxyServerCore = (disconnect_worker c id).0 in
      (out : WorkerDisconnectOutcome) × ((disconnect_worker c id).1 ≡ some out)
      × (((is_some cancellation ≡ true)
            × (HashMap.get q.request_id d.active_requests ≡ none)
            × Member
                (record {
                  request_id = q.request_id;
                  reason = RequestFailureReason.request_already_canceled;
                })
                out.failed_requests)
          ⊎ ((cancellation ≡ none)
              × (max_requeue_count ≤ q.requeue_count)
              × (HashMap.get q.request_id d.active_requests ≡ none)
              × Member
                  (record {
                    request_id = q.request_id;
                    reason = RequestFailureReason.max_requeues_exceeded;
                  })
                  out.failed_requests)
          ⊎ ((cancellation ≡ none)
              × (q.requeue_count < max_requeue_count)
              × (HashMap.get q.request_id d.active_requests
                  ≡ some (ActiveRequestState.queued (requeued_once q)))
              × Member (requeued_once q) (queue_of d w.provider)
              × Member q.request_id out.requeued_request_ids))
unfolding fate
disconnect_settles c id w q none own found distinct listed active =
    elim (Bool-cases (leb max_requeue_count q.requeue_count)) [
      | inl often ↦
          let (left, noted) =
            released_as c id w q.request_id (fail RequestFailureReason.max_requeues_exceeded) own
              distinct listed (ground arith) in
          rw (disconnect_worker_lem c id w found)
            (_, refl, inr (inl (refl, leb→le _ _ often, left, noted)))
      | inr again ↦
          let (left, noted) =
            released_as c id w q.request_id (requeue (requeued_once q)) own distinct listed
              (ground arith) in
          let out = release_requests (without_worker c id) w.in_flight_requests in
          rw (disconnect_worker_lem c id w found) (
            _,
            refl,
            inr (
                inr (
                  refl,
                  ground arith,
                  left,
                  push_requeued-Member out.0.provider_queues w.provider (requeued_once q)
                      out.1.requeued noted,
                  Member-map (λ r. r.request_id) (requeued_once q) out.1.requeued noted,
                )),
          )
    ]
disconnect_settles c id w q (some earlier) own found distinct listed active =
    let (left, noted) =
      released_as c id w q.request_id (fail RequestFailureReason.request_already_canceled) own
        distinct listed (rw active refl) in
    rw (disconnect_worker_lem c id w found) (_, refl, inl (refl, left, noted))

get-push_requeued_ne :
    (queues : HashMap String (List RequestRecord)) (p j : String) (requeued : List RequestRecord)
    → p ≢ j
    → HashMap.get j (push_requeued queues p requeued) ≡ HashMap.get j queues
unfolding push_requeued
get-push_requeued_ne queues p j requeued apart = elim (Option-cases (HashMap.get p queues)) [
  | inl nothing ↦ ground (arith, HashMap.get-insert_ne p j requeued queues apart)
  | inr (queue, found) ↦ ground (arith, HashMap.get-insert_ne p j (requeued ++ queue) queues apart)
]

queue-push_requeued :
    (queues : HashMap String (List RequestRecord)) (p : String) (q : RequestRecord)
    → unwrap_or (HashMap.get p (push_requeued queues p (q ∷ []))) []
      ≡ q ∷ unwrap_or (HashMap.get p queues) []
unfolding push_requeued
queue-push_requeued queues p q = elim (Option-cases (HashMap.get p queues)) [
  | inl nothing ↦ ground (arith, HashMap.get-insert_self p (q ∷ []) queues)
  | inr (queue, found) ↦ ground (arith, HashMap.get-insert_self p (q ∷ queue) queues)
]

unqueue-none :
    (queues : HashMap String (List RequestRecord)) (q : RequestRecord) (request_id : String)
    → any (λ r. r.request_id == request_id) (unwrap_or (HashMap.get q.provider queues) []) ≡ false
    → unqueue queues q request_id ≡ none
unfolding unqueue
unqueue-none queues q request_id absent = elim (Option-cases (HashMap.get q.provider queues)) [
  | inl nothing ↦ ground arith
  | inr (queue, found) ↦
      ground (arith, any-position (λ r. r.request_id == request_id) queue (rw found at absent))
]

-- A worker of another provider that disconnects gives its only request back to the queue of the
-- worker's provider. A request that so waits, and not also in the queue of its own provider, cannot
-- be cancelled: the cancellation does nothing and returns nothing, as for an unknown request.
pub requeued_elsewhere_stuck :
    (c : ProxyServerCore) (id : String) (w : WorkerState) (q : RequestRecord)
    (reason : CancelReason)
    → HashMap.get id c.workers ≡ some w
    → w.in_flight_requests ≡ q.request_id ∷ []
    → HashMap.get q.request_id c.active_requests ≡ some (ActiveRequestState.in_flight q id none)
    → q.requeue_count < max_requeue_count
    → w.provider ≢ q.provider
    → any (λ r. r.request_id == q.request_id) (queue_of c q.provider) ≡ false
    → let d : ProxyServerCore = (disconnect_worker c id).0 in
      (HashMap.get q.request_id d.active_requests
        ≡ some (ActiveRequestState.queued (requeued_once q)))
      × (queue_of d w.provider ≡ requeued_once q ∷ queue_of c w.provider)
      × (cancel_request d q.request_id reason ≡ (d, none))
unfolding without_worker cancel_request
requeued_elsewhere_stuck c id w q reason found held active few other absent =
    let again : RequestRecord = requeued_once q in
    let known =
      HashMap.get-insert_self q.request_id (ActiveRequestState.queued again)
        (HashMap.remove q.request_id c.active_requests) in
    let queues : HashMap String (List RequestRecord) =
      push_requeued c.provider_queues w.provider (again ∷ []) in
    let same = get-push_requeued_ne c.provider_queues w.provider q.provider (again ∷ []) other in
    rw (disconnect-given_back c id w q found held active few) (
      known,
      queue-push_requeued c.provider_queues w.provider again,
      rw (known, unqueue-none queues again q.request_id (rw same absent)) refl,
    )
