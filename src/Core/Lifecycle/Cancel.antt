-- ===== src/Core/Lifecycle/Cancel.antt =====
-- Cancellation of a queued request and of one in flight.
use llm_worker_proxy.Shared.{
  ◌≡◌, ap, Bool, true, false, String, List, [], ◌∷◌, ◌++◌, none, some, inl, inr, arith, Bool-cases,
  string_eq, ◌==◌, ==_iff, position, any, ℕ, suc, position-remove_idx, bump_index,
}
use llm_worker_proxy.Shared.HashMap
use llm_worker_proxy.Core.State.{
  ProxyServerCore, RequestRecord, ActiveRequestState, CancelReason, CancellationOutcome,
}
use llm_worker_proxy.Core.Lifecycle.{cancel_request, unqueue}

-- The first cancellation of a request in flight decides: it makes one signal for the worker, and a
-- second one makes none, changes nothing and reports the first reason.
pub cancel_first_wins :
    (c : ProxyServerCore) (request_id worker_id : String) (q : RequestRecord)
    (first second : CancelReason)
    → HashMap.get request_id c.active_requests
      ≡ some (ActiveRequestState.in_flight q worker_id none)
    → let d : ProxyServerCore = (cancel_request c request_id first).0 in
      (d.worker_cancel_signals
        ≡ c.worker_cancel_signals
          ++ record { worker_id = worker_id; request_id = request_id; reason = first } ∷ [])
      × (cancel_request d request_id second ≡ (
        d,
        some (
            CancellationOutcome.worker_cancel_sent
              (record { worker_id = worker_id; request_id = request_id; reason = first })),
      ))
unfolding cancel_request
cancel_first_wins c request_id worker_id q first second active = (
  ground arith,
  ground (
    arith,
    HashMap.get-insert_self request_id (ActiveRequestState.in_flight q worker_id (some first))
        c.active_requests,
  ),
)

pub any-position_some :
    {A : Type 0} (p : A → Bool) (xs : List A) → any p xs ≡ true → (i : ℕ) × (position p xs ≡ some i)
any-position_some p [] h = absurd (cc)
any-position_some p (x ∷ xs) h = elim (Bool-cases (p x)) [
  | inl hit ↦ (0, rw hit)
  | inr miss ↦
      let (i, e) = any-position_some p xs (rw miss at h) in (suc i, rw miss (ap bump_index e))
]

unqueue_lem :
    (c : ProxyServerCore) (request_id : String) (q : RequestRecord) (queue : List RequestRecord)
    → HashMap.get q.provider c.provider_queues ≡ some queue
    → any (λ r. r.request_id == request_id) queue ≡ true
    → (before : List RequestRecord) × (x : RequestRecord) × (after : List RequestRecord) × (queue
        ≡ before ++ (x ∷ after))
      × (x.request_id ≡ request_id)
      × (any (λ r. r.request_id == request_id) before ≡ false)
      × (unqueue c.provider_queues q request_id
          ≡ some (HashMap.insert q.provider (before ++ after) c.provider_queues))
unfolding unqueue
unqueue_lem c request_id q queue found listed =
    let (i, place) = any-position_some (λ r. r.request_id == request_id) queue listed in
    let (x, before, after, taken, split, same, earlier) =
      position-remove_idx (λ r. r.request_id == request_id) queue i place in
    (before, x, after, split, (==_iff x.request_id request_id).0 same, earlier, ground arith)

-- A queued request that stands in the queue of its own provider can be cancelled: the first entry
-- with its id leaves that queue, the others keep their order, and the request and its response
-- sender are forgotten.
pub cancel_queued_removes :
    (c : ProxyServerCore) (request_id : String) (reason : CancelReason) (q : RequestRecord)
    (queue : List RequestRecord)
    → HashMap.get request_id c.active_requests ≡ some (ActiveRequestState.queued q)
    → HashMap.get q.provider c.provider_queues ≡ some queue
    → any (λ r. r.request_id == request_id) queue ≡ true
    → let d : ProxyServerCore = (cancel_request c request_id reason).0 in
      (before : List RequestRecord) × (x : RequestRecord) × (after : List RequestRecord) × (queue
        ≡ before ++ (x ∷ after))
      × (x.request_id ≡ request_id)
      × (any (λ r. r.request_id == request_id) before ≡ false)
      × (HashMap.get q.provider d.provider_queues ≡ some (before ++ after))
      × (HashMap.get request_id d.active_requests ≡ none)
      × (HashMap.get request_id d.pending_http_response_senders ≡ none)
      × ((cancel_request c request_id reason).1
          ≡ some (CancellationOutcome.removed_from_queue request_id))
unfolding cancel_request
cancel_queued_removes c request_id reason q queue active found listed =
    let (before, x, after, split, same, earlier, taken) =
      unqueue_lem c request_id q queue found listed in
    (
      before,
      x,
      after,
      split,
      same,
      earlier,
      ground (arith, HashMap.get-insert_self q.provider (before ++ after) c.provider_queues),
      ground (arith, HashMap.get-remove_self request_id c.active_requests),
      ground (arith, HashMap.get-remove_self request_id c.pending_http_response_senders),
      ground arith,
    )
