-- ===== src/Core/Views.antt =====
-- crates/modelrelay-server/src/lib.rs: what `ProxyServerCore` shows of its state to the HTTP and
-- admin routes.
pub mod Catalog
use llm_worker_proxy.Shared.{
  ℕ, ◌+◌, ◌≡◌, ◌≢◌, refl, sym, ap, subst, ◌∙◌, inl, inr, arith, Bool, true, false, not, String,
  List, [], ◌∷◌, ◌++◌, map, Option, none, some, ◌==◌, ==_iff, string_eq, if◌then◌else◌, length,
  retain, contains, unwrap_or, is_empty, is_some_and, Member, Distinct, Bool-cases, Member-contains,
  contains-Member,
}
use llm_worker_proxy.Shared.HashMap
use llm_worker_proxy.Shared.HashMap.{HashMap}
use llm_worker_proxy.Core.State.{ProxyServerCore, WorkerState, RequestRecord}

pub record AdminWorkerInfo : Type 0 where
  pub worker_id : String
  pub provider : String
  pub worker_name : String
  pub models : List String
  pub endpoint_prefixes : List String
  pub max_concurrent : ℕ
  pub reported_load : ℕ
  pub in_flight_count : ℕ
  pub is_draining : Bool

abbrev pub connected_worker_count : ProxyServerCore → ℕ
connected_worker_count c = length c.workers

unfoldable pub queue_lengths : HashMap String (List RequestRecord) → ℕ
queue_lengths [] = 0
queue_lengths ((provider, queue) ∷ queues) = length queue + queue_lengths queues

abbrev pub total_queue_depth : ProxyServerCore → ℕ
total_queue_depth c = queue_lengths c.provider_queues

-- `worker_order.iter().filter_map(|id| workers.get(id))`, with the ids.
unfoldable pub registered_workers :
    HashMap String WorkerState → List String → List (String × WorkerState)
registered_workers workers [] = []
registered_workers workers (worker_id ∷ order) = elim (HashMap.get worker_id workers) [
  | none ↦ registered_workers workers order
  | some w ↦ (worker_id, w) ∷ registered_workers workers order
]

abbrev pub ordered_workers : ProxyServerCore → List (String × WorkerState)
ordered_workers c = registered_workers c.workers c.worker_order

abbrev pub admin_worker_info : String × WorkerState → AdminWorkerInfo
admin_worker_info (worker_id, w) = record {
  worker_id = worker_id;
  provider = w.provider;
  worker_name = w.worker_name;
  models = w.models;
  endpoint_prefixes = w.endpoint_prefixes;
  max_concurrent = w.max_concurrent;
  reported_load = w.reported_load;
  in_flight_count = length w.in_flight_requests;
  is_draining = w.is_draining;
}

abbrev pub admin_workers_snapshot : ProxyServerCore → List AdminWorkerInfo
admin_workers_snapshot c = map admin_worker_info (ordered_workers c)

abbrev pub admin_queue_depth : ProxyServerCore → HashMap String ℕ
admin_queue_depth c = map (λ q. (q.0, length q.1)) c.provider_queues

abbrev pub worker_debug_info : ProxyServerCore → List (String × String × List String × ℕ × ℕ × Bool)
worker_debug_info c =
    map
      (λ e. (
        e.0,
        e.1.provider,
        e.1.models,
        length e.1.in_flight_requests,
        e.1.max_concurrent,
        e.1.is_draining,
      ))
      (ordered_workers c)

-- `flat_map(|worker| worker.models.iter())`.
unfoldable pub all_models : List (String × WorkerState) → List String
all_models [] = []
all_models (e ∷ es) = e.1.models ++ all_models es

-- `filter(|model| seen.insert(model))`.
unfoldable pub unseen : List String → List String → List String
unseen seen [] = []
unseen seen (model ∷ models) =
    let old = contains model seen in
    let rest = unseen (if old then seen else model ∷ seen) models in
    if old then rest else model ∷ rest

abbrev pub is_named : String → Bool
is_named model = not (model == "*")

-- The fallback goes on with the `seen` of the first pass, which then is empty like its result.
unfoldable pub provider_models : ProxyServerCore → String → List String
provider_models c provider =
    let workers : List (String × WorkerState) = ordered_workers c in
    let exact : List String =
      unseen [] (retain is_named (all_models (retain (λ e. e.1.provider == provider) workers))) in
    if is_empty exact then unseen exact (retain is_named (all_models workers)) else exact

abbrev pub worker_ids_for_provider : ProxyServerCore → String → List String
worker_ids_for_provider c provider =
    retain
      (λ worker_id. is_some_and (HashMap.get worker_id c.workers) (λ w. w.provider == provider))
      c.worker_order

abbrev pub queued_request_ids : ProxyServerCore → String → List String
queued_request_ids c provider =
    map (λ q. q.request_id) (unwrap_or (HashMap.get provider c.provider_queues) [])

abbrev pub worker_in_flight_request_ids : ProxyServerCore → String → List String
worker_in_flight_request_ids c worker_id = elim (HashMap.get worker_id c.workers) [
  | none ↦ []
  | some w ↦ w.in_flight_requests
]

abbrev pub has_worker : ProxyServerCore → String → Bool
has_worker c worker_id = HashMap.contains_key worker_id c.workers

abbrev pub worker_is_draining : ProxyServerCore → String → Bool
worker_is_draining c worker_id = is_some_and (HashMap.get worker_id c.workers) (λ w. w.is_draining)

abbrev pub worker_reported_load : ProxyServerCore → String → Option ℕ
worker_reported_load c worker_id = elim (HashMap.get worker_id c.workers) [
  | none ↦ none
  | some w ↦ some w.reported_load
]
