-- ===== src/Core/Dispatch/Loop.antt =====
-- The loop that fills a worker: a rule for invariants, and its termination.
use llm_worker_proxy.Shared.{
  ℕ, zero, suc, ◌-◌, ◌<◌, ◌≡◌, sym, subst, true, false, String, List, [], ◌∷◌, none, some, inl, inr,
  arith, Bool-cases, Option-cases, string_eq, length, length-append,
}
use llm_worker_proxy.Shared.HashMap
use llm_worker_proxy.Shared.HashMap.{HashMap}
use llm_worker_proxy.Core.State.{ProxyServerCore, WorkerState, DispatchAssignment}
use llm_worker_proxy.Core.Dispatch.{
  worker_has_capacity, dispatch_next_compatible, dispatch_while, dispatch_all, assign_to_worker,
  workers_with_request, with_request, take_best, scan_queues, compatible,
}

module _ {ℓ} (P : ProxyServerCore → Type ℓ) (id : String)
    (step : (c : ProxyServerCore) → P c → P (dispatch_next_compatible c id).0) where
  -- What one dispatch keeps, the loop keeps.
  pub dispatch_while_inv :
      (fuel : ℕ) (c : ProxyServerCore)
      → P c
      → (r : ProxyServerCore × List DispatchAssignment) → dispatch_while fuel c id ≡ some r
      → P r.0
  unfolding dispatch_while
  dispatch_while_inv zero c p r h = absurd (cc)
  dispatch_while_inv (suc fuel) c p r h = elim (Bool-cases (worker_has_capacity c id)) [
    | inl free ↦ elim (Option-cases (dispatch_next_compatible c id).1) [
      | inl nothing ↦
          let e : (dispatch_next_compatible c id).0 ≡ r.0 = ground arith in subst P e (step c p)
      | inr (a, found) ↦
          elim (Option-cases (dispatch_while fuel (dispatch_next_compatible c id).0 id)) [
            | inl out ↦ absurd (ground arith)
            | inr (s, rest) ↦
                let e : s.0 ≡ r.0 = ground arith in
                subst P e
                  (dispatch_while_inv fuel (dispatch_next_compatible c id).0 (step c p) s rest)
          ]
    ]
    | inr full ↦ let e : c ≡ r.0 = ground arith in subst P e p
  ]

  pub dispatch_all_inv : (c : ProxyServerCore) (w : WorkerState) → P c → P (dispatch_all c id w).0
  unfolding dispatch_all
  dispatch_all_inv c w p = elim (Option-cases (dispatch_while (suc w.max_concurrent) c id)) [
    | inl out ↦ rw (out, dispatch_all) p
    | inr (r, done) ↦ rw (done, dispatch_all) (dispatch_while_inv (suc w.max_concurrent) c p r done)
  ]

-- A dispatch that finds a request adds it to the worker, and leaves its number of slots alone.
pub next_adds :
    (c : ProxyServerCore) (id : String) (w : WorkerState) (a : DispatchAssignment)
    → HashMap.get id c.workers ≡ some w
    → (dispatch_next_compatible c id).1 ≡ some a
    → (request_id : String) × (HashMap.get id (dispatch_next_compatible c id).0.workers
        ≡ some (with_request w request_id))
unfolding dispatch_next_compatible assign_to_worker workers_with_request
next_adds c id w a found h = elim (Bool-cases (worker_has_capacity c id)) [
  | inl free ↦
      let o = take_best c.provider_queues (scan_queues (compatible w) none c.provider_queues) in
      elim (Option-cases o) [
        | inl nothing ↦ absurd (ground arith)
        | inr (q, taken) ↦ (
          q.0.request_id,
          ground (arith, HashMap.get-insert_self id (with_request w q.0.request_id) c.workers),
        )
      ]
  | inr full ↦ absurd (ground arith)
]

-- A dispatch that finds nothing changes nothing; so it is with a full worker.
pub next_none :
    (c : ProxyServerCore) (id : String)
    → (dispatch_next_compatible c id).1 ≡ none
    → (dispatch_next_compatible c id).0 ≡ c
unfolding dispatch_next_compatible
next_none c id h = elim (Option-cases (HashMap.get id c.workers)) [
  | inl gone ↦ ground arith
  | inr (w, found) ↦ elim (Bool-cases (worker_has_capacity c id)) [
    | inl free ↦
        let o = take_best c.provider_queues (scan_queues (compatible w) none c.provider_queues) in
        elim (Option-cases o) [
          | inl nothing ↦ ground arith
          | inr (q, taken) ↦ absurd (ground arith)
        ]
    | inr full ↦ ground arith
  ]
]

pub next_full :
    (c : ProxyServerCore) (id : String)
    → worker_has_capacity c id ≡ false
    → (dispatch_next_compatible c id).1 ≡ none
unfolding dispatch_next_compatible
next_full c id h = ground arith

next_room :
    (c : ProxyServerCore) (id : String) (w : WorkerState)
    → HashMap.get id c.workers ≡ some w
    → worker_has_capacity c id ≡ true
    → length w.in_flight_requests < w.max_concurrent
unfolding worker_has_capacity
next_room c id w found h = ground arith

-- The loop ends: as much fuel as the worker has free slots, and one, is enough. Where it ends, no
-- further request can be dispatched to the worker.
pub dispatch_while_total :
    (fuel : ℕ) (c : ProxyServerCore) (id : String) (w : WorkerState)
    → HashMap.get id c.workers ≡ some w
    → w.max_concurrent - length w.in_flight_requests < fuel
    → (r : ProxyServerCore × List DispatchAssignment) × (dispatch_while fuel c id ≡ some r)
      × ((dispatch_next_compatible r.0 id).1 ≡ none)
unfolding dispatch_while
dispatch_while_total zero c id w found h = absurd (omega arith)
dispatch_while_total (suc fuel) c id w found h = elim (Bool-cases (worker_has_capacity c id)) [
  | inr full ↦ ((c, []), ground arith, next_full c id full)
  | inl free ↦ elim (Option-cases (dispatch_next_compatible c id).1) [
    | inl nothing ↦ (
      ((dispatch_next_compatible c id).0, []),
      ground arith,
      subst (λ d. (dispatch_next_compatible d id).1 ≡ none) (sym (next_none c id nothing)) nothing,
    )
    | inr (a, some_a) ↦
        let (q, added) = next_adds c id w a found some_a in
        let (r, run, ended) =
          dispatch_while_total fuel (dispatch_next_compatible c id).0 id (with_request w q) added (
            omega
              (arith, length-append w.in_flight_requests (q ∷ []), next_room c id w found free)) in
        ((r.0, a ∷ r.1), ground arith, ended)
  ]
]

abbrev NothingLeft : ProxyServerCore → String → Type 0
NothingLeft c id = (dispatch_next_compatible c id).1 ≡ none

-- For a registered worker, the loop of both handlers ends within the fuel that it is given, and where
-- it ends no further request can be dispatched to the worker.
pub dispatch_all_total :
    (c : ProxyServerCore) (id : String) (w : WorkerState)
    → HashMap.get id c.workers ≡ some w
    → (dispatch_while (suc w.max_concurrent) c id ≡ some (dispatch_all c id w))
      × NothingLeft (dispatch_all c id w).0 id
unfolding dispatch_all
dispatch_all_total c id w found =
    let (r, run, ended) = dispatch_while_total (suc w.max_concurrent) c id w found (omega arith) in
    let e : dispatch_all c id w ≡ r = ground arith in
    (ground arith, subst (λ s. NothingLeft s.0 id) (sym e) ended)
