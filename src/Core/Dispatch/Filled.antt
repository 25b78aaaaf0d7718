-- ===== src/Core/Dispatch/Filled.antt =====
-- What the reports of a worker leave in the queues: nothing that the worker could take.
use llm_worker_proxy.Shared.{
  ℕ, suc, ◌≤◌, ◌≡◌, refl, ap, ◌∙◌, subst, ◌⊎◌, inl, inr, arith, Bool, true, false, ◌&&◌, String,
  List, [], ◌∷◌, ◌++◌, Option, none, some, Bool-cases, Option-cases, string_eq, any, position,
  length, max, get_elem?, remove_idx, position-remove_idx, ltb, unwrap_or,
}
use llm_worker_proxy.Shared.HashMap
use llm_worker_proxy.Shared.HashMap.{HashMap}
use llm_worker_proxy.Core.State.{
  ProxyServerCore, WorkerState, RequestRecord, supports_model, prefixes_support,
}
use llm_worker_proxy.Protocol.{PongMessage, ModelsUpdateMessage}
use llm_worker_proxy.Core.Workers.{sanitize_models}
use llm_worker_proxy.Core.Dispatch.{
  worker_has_capacity, dispatch_next_compatible, dispatch_all, assign_to_worker, with_request, Best,
  improve, head_of_queue, take_best, scan_queues, compatible, replace_worker, record_worker_pong,
  update_worker_models, queue_of,
}
use llm_worker_proxy.Core.Dispatch.Loop.{dispatch_all_inv, dispatch_all_total, next_adds, next_none}

position-get_elem? :
    {A : Type 0} (p : A → Bool) (xs : List A) (i : ℕ)
    → position p xs ≡ some i
    → (x : A) × (get_elem? xs i ≡ some x)
position-get_elem? p [] i h = absurd (cc)
position-get_elem? p (x ∷ xs) i h = elim (Bool-cases (p x)) [
  | inl hit ↦ let e : i ≡ 0 = ground arith in (x, rw e refl)
  | inr miss ↦ elim (Option-cases (position p xs)) [
    | inl nothing ↦ absurd (ground arith)
    | inr (j, found) ↦
        let (y, e) = position-get_elem? p xs j found in
        let next : i ≡ suc j = ground arith in (y, rw next e)
  ]
]

position-none : {A : Type 0} (p : A → Bool) (xs : List A) → position p xs ≡ none → any p xs ≡ false
position-none p [] h = refl
position-none p (x ∷ xs) h = elim (Bool-cases (p x)) [
  | inl hit ↦ absurd (ground arith)
  | inr miss ↦ elim (Option-cases (position p xs)) [
    | inl nothing ↦ rw miss (position-none p xs nothing)
    | inr (j, found) ↦ absurd (ground arith)
  ]
]

module _ (test : RequestRecord → Bool) where
  -- A queue without a head holds nothing that passes.
  head-none :
      (provider : String) (queue : List RequestRecord)
      → head_of_queue test provider queue ≡ none
      → any test queue ≡ false
  unfolding head_of_queue
  head-none provider queue h = elim (Option-cases (position test queue)) [
    | inl nothing ↦ position-none test queue nothing
    | inr (i, found) ↦ let (q, e) = position-get_elem? test queue i found in absurd (ground arith)
  ]

  improve-none :
      (best head : Option Best) → improve best head ≡ none → (best ≡ none) × (head ≡ none)
  improve-none best none h = (h, refl)
  improve-none none (some b) h = absurd (ground arith)
  improve-none (some old) (some b) h = absurd (ground arith)

  -- A scan that finds nothing has found nothing before, and nothing in any queue.
  scan-none :
      (best : Option Best) (queues : HashMap String (List RequestRecord))
      → scan_queues test best queues ≡ none
      → (best ≡ none)
        × ((provider : String) → any test (unwrap_or (HashMap.get provider queues) []) ≡ false)
  unfolding scan_queues HashMap.get
  scan-none best [] h = (h, λ provider. refl)
  scan-none best ((name, queue) ∷ queues) h =
      let (before, rest) = scan-none (improve best (head_of_queue test name queue)) queues h in
      let (first, head) = improve-none best (head_of_queue test name queue) before in
      (first, λ provider. ground (arith, rest provider, head-none name queue head))

  module _ (m : HashMap String (List RequestRecord)) where
    -- The request that is remembered can be taken out of the queues.
    abbrev Takable : Option Best → Type 0
    Takable none = Unit
    Takable (some b) =
        (r : RequestRecord × HashMap String (List RequestRecord)) × (take_best m (some b) ≡ some r)

    head-Takable :
        (name : String) (queue : List RequestRecord)
        → HashMap.get name m ≡ some queue
        → Takable (head_of_queue test name queue)
    unfolding head_of_queue take_best
    head-Takable name queue found = elim (Option-cases (position test queue)) [
      | inl nothing ↦ rw (nothing, head_of_queue) tt
      | inr (i, place) ↦
          let (q, e) = position-get_elem? test queue i place in
          let (x, before, after, taken, split, holds, earlier) =
            position-remove_idx test queue i place in
          rw (place, head_of_queue, e) ((x, HashMap.insert name (before ++ after) m), ground arith)
    ]

    improve-Takable :
        (best head : Option Best) → Takable best → Takable head → Takable (improve best head)
    improve-Takable best none b h = b
    improve-Takable none (some head) b h = h
    improve-Takable (some old) (some head) b h =
        elim (Bool-cases (ltb head.queued_at old.queued_at)) [
          | inl earlier ↦ rw earlier h
          | inr later ↦ rw later b
        ]

    scan-Takable :
        (best : Option Best) (queues : HashMap String (List RequestRecord))
        → Takable best
        → HashMap.FoundIn m queues
        → Takable (scan_queues test best queues)
    unfolding scan_queues
    scan-Takable best [] b found = b
    scan-Takable best ((name, queue) ∷ queues) b (here, found) =
        scan-Takable (improve best (head_of_queue test name queue)) queues
          (improve-Takable best (head_of_queue test name queue) b (head-Takable name queue here))
          found

take_best-UniqueKeys :
    (m : HashMap String (List RequestRecord)) (best : Option Best)
    (r : RequestRecord × HashMap String (List RequestRecord))
    → HashMap.UniqueKeys m
    → take_best m best ≡ some r
    → HashMap.UniqueKeys r.1
unfolding take_best
take_best-UniqueKeys m none r unique h = absurd (cc)
take_best-UniqueKeys m (some b) r unique h = elim (Option-cases (HashMap.get b.provider m)) [
  | inl missing ↦ absurd (ground arith)
  | inr (queue, found) ↦ elim (Option-cases (remove_idx queue b.index)) [
    | inl out ↦ absurd (ground arith)
    | inr ((q, rest), taken) ↦
        let e : HashMap.insert b.provider rest m ≡ r.1 = ground arith in
        subst HashMap.UniqueKeys e (HashMap.insert-UniqueKeys b.provider rest m unique)
  ]
]

next-UniqueKeys :
    (c : ProxyServerCore) (id : String)
    → HashMap.UniqueKeys c.provider_queues
    → HashMap.UniqueKeys (dispatch_next_compatible c id).0.provider_queues
unfolding dispatch_next_compatible assign_to_worker
next-UniqueKeys c id unique = elim (Option-cases (HashMap.get id c.workers)) [
  | inl gone ↦ rw (gone, dispatch_next_compatible) unique
  | inr (w, found) ↦ elim (Bool-cases (worker_has_capacity c id)) [
    | inr full ↦ rw (found, dispatch_next_compatible, full) unique
    | inl free ↦
        let best = scan_queues (compatible w) none c.provider_queues in
        elim (Option-cases (take_best c.provider_queues best)) [
          | inl nothing ↦ rw (found, dispatch_next_compatible, free, nothing) unique
          | inr (r, taken) ↦
              rw (found, dispatch_next_compatible, free, taken)
                (take_best-UniqueKeys c.provider_queues best r unique taken)
        ]
  ]
]

-- A worker with room for which a dispatch finds nothing can take no request of any queue.
nothing_fits :
    (c : ProxyServerCore) (id provider : String) (w : WorkerState)
    → HashMap.get id c.workers ≡ some w
    → HashMap.UniqueKeys c.provider_queues
    → worker_has_capacity c id ≡ true
    → (dispatch_next_compatible c id).1 ≡ none
    → any (compatible w) (queue_of c provider) ≡ false
unfolding dispatch_next_compatible
nothing_fits c id provider w found unique free h =
    let best = scan_queues (compatible w) none c.provider_queues in
    elim (Option-cases best) [
      | inl nothing ↦ (scan-none (compatible w) none c.provider_queues nothing).1 provider
      | inr (b, some_b) ↦
          let (r, taken) = subst (Takable (compatible w) c.provider_queues) some_b (
            scan-Takable (compatible w) c.provider_queues none c.provider_queues tt
              (HashMap.entries-FoundIn c.provider_queues unique)) in
          absurd (ground (arith, some_b, taken))
    ]

-- The worker is registered with these models, and it drains, or what it reports or has in flight
-- fills its slots, or no request in the provider's queue is for a model and an endpoint that it serves.
unfoldable pub Filled : ProxyServerCore → String → String → List String → Type 0
Filled c id provider models =
    (w : WorkerState) × (HashMap.get id c.workers ≡ some w)
    × (w.models ≡ models)
    × ((w.is_draining ≡ true)
        ⊎ (w.max_concurrent ≤ max w.reported_load (length w.in_flight_requests))
        ⊎ (any
              (λ q.
                supports_model w.models q.model
                && prefixes_support w.endpoint_prefixes q.transport.endpoint_path)
              (queue_of c provider)
            ≡ false))

module _ (id : String) (models : List String) where
  -- What the loop keeps of the worker and the queues.
  abbrev Kept : ProxyServerCore → Type 0
  Kept c =
      ((w : WorkerState) × (HashMap.get id c.workers ≡ some w) × (w.models ≡ models))
      × HashMap.UniqueKeys c.provider_queues

  next-Kept : (c : ProxyServerCore) → Kept c → Kept (dispatch_next_compatible c id).0
  next-Kept c ((w, found, same), unique) = (
    elim (Option-cases (dispatch_next_compatible c id).1) [
      | inl nothing ↦ (w, ap (λ d. HashMap.get id d.workers) (next_none c id nothing) ∙ found, same)
      | inr (a, some_a) ↦
          let (request_id, added) = next_adds c id w a found some_a in
          (with_request w request_id, added, same)
    ],
    next-UniqueKeys c id unique,
  )

  Kept-Filled :
      (c : ProxyServerCore) (provider : String)
      → Kept c
      → (dispatch_next_compatible c id).1 ≡ none
      → Filled c id provider models
  unfolding Filled worker_has_capacity compatible
  Kept-Filled c provider ((w, found, same), unique) nothing = (
    w,
    found,
    same,
    elim (Bool-cases (worker_has_capacity c id)) [
      | inl free ↦ inr (inr (nothing_fits c id provider w found unique free nothing))
      | inr full ↦ elim (Bool-cases w.is_draining) [
        | inl drains ↦ inl drains
        | inr active ↦ inr (inl (ground arith))
      ]
    ],
  )

  dispatch_all-Filled :
      (c : ProxyServerCore) (provider : String) (w : WorkerState)
      → HashMap.get id c.workers ≡ some w
      → w.models ≡ models
      → HashMap.UniqueKeys c.provider_queues
      → Filled (dispatch_all c id w).0 id provider models
  dispatch_all-Filled c provider w found same unique =
      Kept-Filled (dispatch_all c id w).0 provider
        (dispatch_all_inv Kept id next-Kept c w ((w, found, same), unique))
        (dispatch_all_total c id w found).1

-- Behind a pong or a new model list of a registered worker, whatever the state of the core, the worker
-- is registered with its models, the new ones in the second case, and it drains, or what it
-- reports or has in flight fills its slots, or no request in the queue of any provider is for a model and an endpoint that it serves,
-- at whichever place of the queue. The map of queues has each key once.
pub reports_fill_worker :
    (c : ProxyServerCore) (id provider : String) (w : WorkerState) (pong : PongMessage)
    (update : ModelsUpdateMessage)
    → HashMap.get id c.workers ≡ some w
    → HashMap.UniqueKeys c.provider_queues
    → Filled (record_worker_pong c id pong).0 id provider w.models
      × Filled (update_worker_models c id update).0 id provider (sanitize_models update.models)
unfolding record_worker_pong update_worker_models
reports_fill_worker c id provider w pong update found unique =
    let after_pong : WorkerState = record w { reported_load = pong.current_load } in
    let after_update : WorkerState = record w {
      models = sanitize_models update.models;
      reported_load = update.current_load;
    } in
    (
      rw (found, record_worker_pong)
          (dispatch_all-Filled id w.models (replace_worker c id after_pong) provider after_pong
            (HashMap.get-insert_self id after_pong c.workers) refl unique),
      rw (found, update_worker_models)
          (dispatch_all-Filled id (sanitize_models update.models) (replace_worker c id after_update)
            provider after_update (HashMap.get-insert_self id after_update c.workers) refl unique),
    )
