-- ===== src/Core/Dispatch/Submission.antt =====
-- What a submission does, on every branch.
use llm_worker_proxy.Shared.{
  ℕ, ◌≤◌, ◌<◌, ◌≡◌, refl, sym, ap, ◌∙◌, subst, false, String, [], ◌∷◌, ◌++◌, Option, none, some,
  inl, inr, arith, Bool-cases, string_eq, length, length-append, leb, leb→le, unwrap_or,
}
use llm_worker_proxy.Shared.HashMap
use llm_worker_proxy.Protocol.{ProviderRouting}
use llm_worker_proxy.Core.State.{
  ProxyServerCore, WorkerState, RequestRecord, RequestTransport, ActiveRequestState,
  SubmissionOutcome, Instant, to_worker_request,
}
use llm_worker_proxy.Core.Selection.{find_eligible_worker_id}
use llm_worker_proxy.Core.Selection.Eligible.{CanServe}
use llm_worker_proxy.Core.Selection.Placement.{with_cursors}
use llm_worker_proxy.Core.Selection.Sound.{find_eligible-cursors, find_eligible-IsAvailable}
use llm_worker_proxy.Core.Dispatch.{
  new_request, with_new_request, queue_of, policy_of, enqueue, place_request,
  submit_transport_request, assign_to_worker, workers_with_request, with_request,
}

-- What the outcome of the submission of `r` in state `c` says of the state `d` behind it.
abbrev pub Explains : ProxyServerCore → RequestRecord → ProxyServerCore → SubmissionOutcome → Type 0
Explains c r d (SubmissionOutcome.dispatched a) =
    (a.request_id ≡ r.request_id)
    × (HashMap.get r.request_id d.active_requests
        ≡ some (ActiveRequestState.in_flight r a.worker_id none))
    × (w : WorkerState) × (HashMap.get a.worker_id c.workers ≡ some w)
    × CanServe r.model r.transport.endpoint_path w
    × (HashMap.get a.worker_id d.workers ≡ some (with_request w r.request_id))
    × (HashMap.get a.worker_id d.pending_worker_requests
        ≡ some (
            unwrap_or (HashMap.get a.worker_id c.pending_worker_requests) []
            ++ to_worker_request r ∷ []))
    × (d.provider_queues ≡ c.provider_queues)
Explains c r d (SubmissionOutcome.queued a) =
    (a.request_id ≡ r.request_id)
    × (a.queue_len ≡ length (queue_of d r.provider))
    × (HashMap.get r.request_id d.active_requests ≡ some (ActiveRequestState.queued r))
    × (queue_of d r.provider ≡ queue_of c r.provider ++ r ∷ [])
    × (length (queue_of d r.provider) ≤ (policy_of c r.provider).max_queue_len)
    × (d.workers ≡ c.workers)
Explains c r d (SubmissionOutcome.rejected f) =
    (f.request_id ≡ r.request_id)
    × (HashMap.get r.request_id d.active_requests ≡ none)
    × (queue_of d r.provider ≡ queue_of c r.provider)
    × ((policy_of c r.provider).max_queue_len ≤ length (queue_of c r.provider))
    × (d.workers ≡ c.workers)

-- `d` may differ from `c` in the cursors and in what a new request changes.
enqueue-Explains :
    (c d : ProxyServerCore) (r : RequestRecord)
    → HashMap.get r.request_id d.active_requests ≡ some (ActiveRequestState.queued r)
    → let e : ProxyServerCore = record c {
      next_request_id = d.next_request_id;
      active_requests = d.active_requests;
      selection_cursors = d.selection_cursors;
    } in
      Explains c r (enqueue e r).0 (enqueue e r).1
unfolding enqueue
enqueue-Explains c d r known =
    let queue = queue_of c r.provider in
    elim (Bool-cases (leb (policy_of c r.provider).max_queue_len (length queue))) [
      | inl full ↦ rw full (
        refl,
        HashMap.get-remove_self r.request_id d.active_requests,
        ap (λ o. unwrap_or o []) (HashMap.get-insert_self r.provider queue c.provider_queues),
        leb→le _ _ full,
        refl,
      )
      | inr free ↦
          let law =
            ap (λ o. unwrap_or o [])
              (HashMap.get-insert_self r.provider (queue ++ r ∷ []) c.provider_queues) in
          rw free (
            refl,
            sym (ap length law ∙ length-append queue (r ∷ [])),
            known,
            law,
            rw law (omega (arith, length-append queue (r ∷ []), not_le free)),
            refl,
          )
    ]
  where
    not_le : {m n : ℕ} → leb m n ≡ false → n < m
    not_le h = ground arith

assign-Explains :
    (c d : ProxyServerCore) (r : RequestRecord) (id : String) (w : WorkerState)
    → HashMap.get id c.workers ≡ some w
    → CanServe r.model r.transport.endpoint_path w
    → d.workers ≡ c.workers
    → d.pending_worker_requests ≡ c.pending_worker_requests
    → d.provider_queues ≡ c.provider_queues
    → Explains c r
        (assign_to_worker d id r)
        (SubmissionOutcome.dispatched (record { request_id = r.request_id; worker_id = id }))
unfolding assign_to_worker workers_with_request
assign-Explains c d r id w found serves workers pending queues =
    let found' : HashMap.get id d.workers ≡ some w = ap (HashMap.get id) workers ∙ found in
    (
      refl,
      HashMap.get-insert_self r.request_id _ d.active_requests,
      w,
      found,
      serves,
      ground (arith, HashMap.get-insert_self id (with_request w r.request_id) d.workers),
      HashMap.get-insert_self id _ d.pending_worker_requests
          ∙ ap (λ m. some (unwrap_or (HashMap.get id m) [] ++ to_worker_request r ∷ [])) pending,
      queues,
    )

place-Explains :
    (c : ProxyServerCore) (r : RequestRecord) (found : ProxyServerCore × Option String)
    → found.0 ≡ with_cursors (with_new_request c r) found.0
    → ((id : String)
        → found.1 ≡ some id
        → (w : WorkerState) × (HashMap.get id c.workers ≡ some w)
          × CanServe r.model r.transport.endpoint_path w)
    → Explains c r (place_request r found).0 (place_request r found).1
unfolding place_request with_new_request
place-Explains c r (d, some id) frame serves =
    let (w, registered, can) = serves id refl in
    assign-Explains c d r id w registered can (ap (λ s. s.workers) frame)
      (ap (λ s. s.pending_worker_requests) frame) (ap (λ s. s.provider_queues) frame)
place-Explains c r (d, none) frame serves =
    subst (λ s. Explains c r (enqueue s r).0 (enqueue s r).1) (sym frame)
      (enqueue-Explains c (with_cursors (with_new_request c r) d) r
        (HashMap.get-insert_self r.request_id (ActiveRequestState.queued r) c.active_requests))

-- Every outcome of a submission tells what happened to the request. Dispatched: it is in flight on a
-- registered worker that can serve it, added to that worker's requests and messages, and no queue
-- changed. Queued: it is the last of its provider's queue, whose length is reported and within the
-- provider's limit, and no worker changed. Rejected: it is forgotten, its provider's queue had
-- reached the limit, and neither queue nor workers changed.
pub submit-Explains :
    (c : ProxyServerCore) (now : Instant) (provider model : String) (transport : RequestTransport)
    (routing : Option ProviderRouting)
    → Explains c
        (new_request c now provider model transport routing)
        (submit_transport_request c now provider model transport routing).0
        (submit_transport_request c now provider model transport routing).1
unfolding submit_transport_request new_request with_new_request
submit-Explains c now provider model transport routing =
    let r = new_request c now provider model transport routing in
    let d = with_new_request c r in
    let path = transport.endpoint_path in
    place-Explains c r (find_eligible_worker_id d provider model path routing)
      (find_eligible-cursors d provider model path routing)
      (λ id h.
        let (w, available) = find_eligible-IsAvailable d provider model path routing id h in
        (w, available.registered, available.serves))
