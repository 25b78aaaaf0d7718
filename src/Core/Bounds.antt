-- ===== src/Core/Bounds.antt =====
-- No worker has more requests in flight than its `max_concurrent`, whatever happens.
pub mod Dispatch
pub mod Lifecycle
pub mod Run
use llm_worker_proxy.Shared.{
  ℕ, zero, suc, ◌+◌, ◌-◌, max, ◌≤◌, ◌<◌, ◌≡◌, refl, sym, ap, subst, Bool, true, false, not, ◌&&◌,
  String, List, [], ◌∷◌, ◌++◌, Option, none, some, inl, inr, arith, Bool-cases, Option-cases, ◌==◌,
  ==_iff, string_eq, length, length-append, position, remove_idx, position-remove_idx, is_some,
  is_empty, ◌>>=◌, if◌then◌else◌, unwrap_or, ltb, ltb→lt,
}
use llm_worker_proxy.Shared.HashMap
use llm_worker_proxy.Shared.HashMap.{HashMap}
use llm_worker_proxy.Core.State.{ProxyServerCore, WorkerState, RequestRecord, selection_load}
use llm_worker_proxy.Core.Selection.{has_capacity}
use llm_worker_proxy.Core.Dispatch.{
  with_request, workers_with_request, assign_to_worker, worker_has_capacity, without_request,
}

-- The slots in use fit, there is a slot, and a draining worker has a deadline.
pub record IsSound (w : WorkerState) : Type 0 where
  pub within : length w.in_flight_requests ≤ w.max_concurrent
  pub positive : 1 ≤ w.max_concurrent
  pub drains : w.is_draining ≡ is_some w.graceful_shutdown_deadline

abbrev pub AllSound : HashMap String WorkerState → Type 0
AllSound workers = (id : String) (w : WorkerState) → HashMap.get id workers ≡ some w → IsSound w

pub insert-AllSound :
    (workers : HashMap String WorkerState) (id : String) (w : WorkerState)
    → AllSound workers
    → IsSound w
    → AllSound (HashMap.insert id w workers)
insert-AllSound workers id w all sound j v h = elim (Bool-cases (id == j)) [
  | inl hit ↦
      let e : w ≡ v = ground (arith, HashMap.get-insert id j w workers) in subst IsSound e sound
  | inr miss ↦ all j v (ground (arith, HashMap.get-insert id j w workers))
]

pub remove-AllSound :
    (workers : HashMap String WorkerState) (id : String)
    → AllSound workers
    → AllSound (HashMap.remove id workers)
remove-AllSound workers id all j v h = all j v (ground (arith, HashMap.get-remove id j workers))

pub with_request-IsSound :
    (w : WorkerState) (id : String)
    → selection_load w < w.max_concurrent
    → IsSound w
    → IsSound (with_request w id)
with_request-IsSound w id room sound = record {
  within = omega (arith, length-append w.in_flight_requests (id ∷ []));
  positive = sound.positive;
  drains = sound.drains;
}

pub workers_with_request-AllSound :
    (workers : HashMap String WorkerState) (id request_id : String) (w : WorkerState)
    → HashMap.get id workers ≡ some w
    → selection_load w < w.max_concurrent
    → AllSound workers
    → AllSound (workers_with_request workers id request_id)
unfolding workers_with_request
workers_with_request-AllSound workers id request_id w found room all =
    rw (found, workers_with_request)
      (insert-AllSound workers id (with_request w request_id) all
        (with_request-IsSound w request_id room (all id w found)))

pub without_request-IsSound :
    (w v : WorkerState) (id : String) → IsSound w → without_request w id ≡ some v → IsSound v
unfolding without_request
without_request-IsSound w v id sound h =
    elim (Option-cases (position (λ j. j == id) w.in_flight_requests)) [
      | inl nothing ↦ absurd (ground arith)
      | inr (i, found) ↦
          let (r, before, after, taken, split, _, _) =
            position-remove_idx (λ j. j == id) w.in_flight_requests i found in
          let e : v ≡ record w {
            in_flight_requests = before ++ after;
            reported_load = w.reported_load - 1;
          } =
            ground arith in
          rw e (record {
            within = omega (
              arith,
              ap length split,
              length-append before (r ∷ after),
              length-append before after,
              sound.within,
            );
            positive = sound.positive;
            drains = sound.drains;
          })
    ]
