-- ===== src/Core/Bounds/Dispatch.antt =====
-- Submission, dispatch and completion keep every worker within its slots.
use llm_worker_proxy.Shared.{
  ◌<◌, ◌≡◌, refl, sym, ap, subst, true, false, String, List, Option, none, some, inl, inr, arith,
  Bool-cases, Option-cases, string_eq, is_empty, ◌&&◌,
}
use llm_worker_proxy.Shared.HashMap
use llm_worker_proxy.Shared.HashMap.{HashMap}
use llm_worker_proxy.Protocol.{ProviderRouting, ModelsUpdateMessage, PongMessage, RegisterMessage}
use llm_worker_proxy.Core.State.{
  ProxyServerCore, WorkerState, RequestRecord, RequestTransport, Instant, selection_load,
}
use llm_worker_proxy.Core.Workers.{register_worker, remove_worker, without_worker}
use llm_worker_proxy.Core.Selection.{find_eligible_worker_id}
use llm_worker_proxy.Core.Selection.Sound.{find_eligible-cursors, find_eligible-IsAvailable}
use llm_worker_proxy.Core.Dispatch.{
  assign_to_worker, worker_has_capacity, take_best, scan_queues, compatible,
  dispatch_next_compatible, dispatch_all, update_worker_models, record_worker_pong, new_request,
  with_new_request, enqueue, place_request, submit_transport_request, without_request, after_finish,
  finish_request, dispatch_taken,
}
use llm_worker_proxy.Core.Dispatch.Loop.{dispatch_all_inv}
use llm_worker_proxy.Core.Bounds.{
  IsSound, AllSound, insert-AllSound, remove-AllSound, workers_with_request-AllSound,
  without_request-IsSound,
}

pub worker_has_capacity_lem :
    (c : ProxyServerCore) (id : String) (w : WorkerState)
    → HashMap.get id c.workers ≡ some w
    → worker_has_capacity c id ≡ true
    → (selection_load w < w.max_concurrent) × (w.is_draining ≡ false)
unfolding worker_has_capacity
worker_has_capacity_lem c id w found h = (ground arith, ground arith)

pub assign-AllSound :
    (c : ProxyServerCore) (id : String) (request : RequestRecord) (w : WorkerState)
    → HashMap.get id c.workers ≡ some w
    → selection_load w < w.max_concurrent
    → AllSound c.workers
    → AllSound (assign_to_worker c id request).workers
unfolding assign_to_worker
assign-AllSound c id request w found room all =
    workers_with_request-AllSound c.workers id request.request_id w found room all

dispatch_taken-AllSound :
    (c : ProxyServerCore) (id : String) (w : WorkerState)
    → HashMap.get id c.workers ≡ some w
    → selection_load w < w.max_concurrent
    → AllSound c.workers
    → (o : Option (RequestRecord × HashMap String (List RequestRecord)))
    → AllSound (dispatch_taken c id o).0.workers
dispatch_taken-AllSound c id w found room all none = all
dispatch_taken-AllSound c id w found room all (some (request, queues)) =
    assign-AllSound (record c { provider_queues = queues }) id request w found room all

pub dispatch_next-AllSound :
    (c : ProxyServerCore) (id : String)
    → AllSound c.workers
    → AllSound (dispatch_next_compatible c id).0.workers
unfolding dispatch_next_compatible
dispatch_next-AllSound c id all = elim (Option-cases (HashMap.get id c.workers)) [
  | inl gone ↦ rw (gone, dispatch_next_compatible) all
  | inr (w, found) ↦ elim (Bool-cases (worker_has_capacity c id)) [
    | inl free ↦
        rw (found, dispatch_next_compatible)
          (rw free (
            dispatch_taken-AllSound c id w found (worker_has_capacity_lem c id w found free).0 all
              (take_best c.provider_queues (scan_queues (compatible w) none c.provider_queues))))
    | inr full ↦ rw (found, dispatch_next_compatible) (rw full all)
  ]
]

pub dispatch_all-AllSound :
    (c : ProxyServerCore) (id : String) (w : WorkerState)
    → AllSound c.workers
    → AllSound (dispatch_all c id w).0.workers
dispatch_all-AllSound c id w all =
    dispatch_all_inv (λ d. AllSound d.workers) id (λ d h. dispatch_next-AllSound d id h) c w all

pub remove_worker-AllSound :
    (c : ProxyServerCore) (id : String)
    → AllSound c.workers
    → AllSound (remove_worker c id).0.workers
unfolding remove_worker without_worker
remove_worker-AllSound c id all = elim (Option-cases (HashMap.get id c.workers)) [
  | inl gone ↦ rw (gone, remove_worker) all
  | inr (w, found) ↦ rw (found, remove_worker) (remove-AllSound c.workers id all)
]

pub update_models-AllSound :
    (c : ProxyServerCore) (id : String) (update : ModelsUpdateMessage)
    → AllSound c.workers
    → AllSound (update_worker_models c id update).0.workers
unfolding update_worker_models
update_models-AllSound c id update all = elim (Option-cases (HashMap.get id c.workers)) [
  | inl gone ↦ rw (gone, update_worker_models) all
  | inr (w, found) ↦
      let sound = all id w found in
      rw (found, update_worker_models)
        (dispatch_all-AllSound _ id _ (
          insert-AllSound c.workers id _ all
            (record { within = sound.within; positive = sound.positive; drains = sound.drains })))
]

pub pong-AllSound :
    (c : ProxyServerCore) (id : String) (pong : PongMessage)
    → AllSound c.workers
    → AllSound (record_worker_pong c id pong).0.workers
unfolding record_worker_pong
pong-AllSound c id pong all = elim (Option-cases (HashMap.get id c.workers)) [
  | inl gone ↦ rw (gone, record_worker_pong) all
  | inr (w, found) ↦
      let sound = all id w found in
      rw (found, record_worker_pong)
        (dispatch_all-AllSound _ id _ (
          insert-AllSound c.workers id _ all
            (record { within = sound.within; positive = sound.positive; drains = sound.drains })))
]

pub register-AllSound :
    (c : ProxyServerCore) (provider : String) (register : RegisterMessage)
    → AllSound c.workers
    → AllSound (register_worker c provider register).0.workers
unfolding register_worker
register-AllSound c provider register all =
    insert-AllSound c.workers _ _ all
      (record { within = omega arith; positive = omega arith; drains = refl })

place-AllSound :
    (request : RequestRecord) (r : ProxyServerCore × Option String)
    → AllSound r.0.workers
    → ((id : String)
        → r.1 ≡ some id
        → (w : WorkerState) × (HashMap.get id r.0.workers ≡ some w)
          × (selection_load w < w.max_concurrent))
    → AllSound (place_request request r).0.workers
unfolding place_request enqueue
place-AllSound request (c, none) all room = ground arith
place-AllSound request (c, some id) all room =
    let (w, found, free) = room id refl in assign-AllSound c id request w found free all

pub submit-AllSound :
    (c : ProxyServerCore) (now : Instant) (provider model : String) (transport : RequestTransport)
    (routing : Option ProviderRouting)
    → AllSound c.workers
    → AllSound (submit_transport_request c now provider model transport routing).0.workers
unfolding submit_transport_request with_new_request
submit-AllSound c now provider model transport routing all =
    let d = with_new_request c (new_request c now provider model transport routing) in
    let path = transport.endpoint_path in
    let e = ap (λ s. s.workers) (find_eligible-cursors d provider model path routing) in
    place-AllSound _ (find_eligible_worker_id d provider model path routing)
      (subst AllSound (sym e) all)
      (λ id h.
        let (w, available) = find_eligible-IsAvailable d provider model path routing id h in
        (
          w,
          subst (λ m. HashMap.get id m ≡ some w) (sym e) available.registered,
          available.serves.has_room,
        ))

after_finish-AllSound :
    (c : ProxyServerCore) (id request_id : String) (w : WorkerState)
    → AllSound c.workers
    → IsSound w
    → AllSound (after_finish c id request_id w).0.workers
unfolding after_finish
after_finish-AllSound c id request_id w all sound =
    let all' = insert-AllSound c.workers id w all sound in
    elim (Bool-cases (w.is_draining && is_empty w.in_flight_requests)) [
      | inl idle ↦ rw idle (remove_worker-AllSound _ id all')
      | inr busy ↦ rw busy (dispatch_next-AllSound _ id all')
    ]

pub finish-AllSound :
    (c : ProxyServerCore) (id request_id : String)
    → AllSound c.workers
    → AllSound (finish_request c id request_id).0.workers
unfolding finish_request
finish-AllSound c id request_id all = elim (Option-cases (HashMap.get id c.workers)) [
  | inl gone ↦ rw (gone, finish_request) all
  | inr (w, found) ↦ elim (Option-cases (without_request w request_id)) [
    | inl nothing ↦ rw (found, finish_request) (rw nothing all)
    | inr (v, taken) ↦
        rw (found, finish_request)
          (rw taken (
            after_finish-AllSound c id request_id v all
              (without_request-IsSound w v request_id (all id w found) taken)))
  ]
]
