-- ===== src/Core/Selection/Eligible.antt =====
-- What the search for a worker finds.
use llm_worker_proxy.Shared.{
  ◌≤◌, ◌<◌, ◌≡◌, subst, Bool, true, false, String, List, [], Option, none, some, ◌≢◌, inl, inr,
  arith, Member, Option-cases, ◌==◌, string_eq, is_none_or, unwrap_or,
}
use llm_worker_proxy.Shared.HashMap
use llm_worker_proxy.Core.State.{
  ProxyServerCore, WorkerState, SelectionKey, key_eq, selection_load, supports_model,
  supports_endpoint,
}
use llm_worker_proxy.Core.Selection.{
  Candidate, accepts, eligible_workers, choose, select_by_load,
  find_eligible_worker_id_for_provider,
}
use llm_worker_proxy.Core.Selection.Candidates.{eligible_from-StandsFor, StandsFor-eligible_from}
use llm_worker_proxy.Core.Selection.Choice.{IsLeastLoaded, choose-IsLeastLoaded, choose-none}

-- A worker that may be given a request for the model and path: not draining, with a free slot.
pub record CanServe (model endpoint_path : String) (w : WorkerState) : Type 0 where
  pub has_model : supports_model w.models model ≡ true
  pub has_endpoint : supports_endpoint w endpoint_path ≡ true
  pub has_room : selection_load w < w.max_concurrent
  pub is_active : w.is_draining ≡ false

-- A worker of `worker_order` that is registered under the id and may be given the request.
pub record IsAvailable (c : ProxyServerCore) (model endpoint_path id : String) (w : WorkerState)
    : Type 0 where
  pub listed : Member id c.worker_order
  pub registered : HashMap.get id c.workers ≡ some w
  pub serves : CanServe model endpoint_path w

accepts-CanServe :
    (filter : Option String) (model endpoint_path : String) (w : WorkerState)
    → accepts filter model endpoint_path w ≡ true
    → CanServe model endpoint_path w × (is_none_or filter (λ p. w.provider == p) ≡ true)
unfolding accepts
accepts-CanServe filter model endpoint_path w h = (
  record {
    has_model = ground arith;
    has_endpoint = ground arith;
    has_room = ground arith;
    is_active = ground arith;
  },
  ground arith,
)

CanServe-accepts :
    (filter : Option String) (model endpoint_path : String) (w : WorkerState)
    → CanServe model endpoint_path w
    → is_none_or filter (λ p. w.provider == p) ≡ true
    → accepts filter model endpoint_path w ≡ true
unfolding accepts
CanServe-accepts filter model endpoint_path w s h =
    let m = s.has_model in
    let e = s.has_endpoint in let r = s.has_room in let a = s.is_active in ground arith

pub select_by_load-some :
    (c : ProxyServerCore) (key : SelectionKey) (xs : List Candidate) {id : String}
    → (select_by_load c key xs).1 ≡ some id
    → (x : Candidate) × IsLeastLoaded x xs × (x.worker_id ≡ id)
unfolding select_by_load
select_by_load-some c key xs {id} h =
    let last = HashMap.get key c.selection_cursors in
    elim (Option-cases (choose last xs)) [
      | inl nothing ↦ absurd (ground arith)
      | inr (x, chosen) ↦ (x, choose-IsLeastLoaded last xs chosen, ground arith)
    ]

pub select_by_load-none :
    (c : ProxyServerCore) (key : SelectionKey) (xs : List Candidate)
    → (select_by_load c key xs).1 ≡ none
    → xs ≡ []
unfolding select_by_load
select_by_load-none c key xs h =
    let last = HashMap.get key c.selection_cursors in
    elim (Option-cases (choose last xs)) [
      | inl nothing ↦ choose-none last xs nothing
      | inr (x, chosen) ↦ absurd (ground arith)
    ]

abbrev pub matches : Option String → WorkerState → Bool
matches filter w = is_none_or filter (λ p. w.provider == p)

module _ (c : ProxyServerCore) (filter : Option String) (model endpoint_path : String) where
  -- A candidate of the filtered search is an available worker of the provider.
  candidate-IsAvailable :
      (x : Candidate)
      → Member x (eligible_workers c (accepts filter model endpoint_path))
      → (w : WorkerState) × IsAvailable c model endpoint_path x.worker_id w
        × (matches filter w ≡ true)
        × (x.load ≡ selection_load w)
  candidate-IsAvailable x m =
      let (s, listed, _) =
        eligible_from-StandsFor c.workers (accepts filter model endpoint_path) 0 c.worker_order x
          m in
      let (serves, own) = accepts-CanServe filter model endpoint_path s.worker s.passes in
      (
        s.worker,
        record { listed = listed; registered = s.registered; serves = serves },
        own,
        s.load,
      )

  available_candidate :
      (id : String) (w : WorkerState)
      → IsAvailable c model endpoint_path id w
      → matches filter w ≡ true
      → (x : Candidate) × Member x (eligible_workers c (accepts filter model endpoint_path))
        × (x.worker_id ≡ id)
        × (x.load ≡ selection_load w)
  available_candidate id w a own =
      let (x, listed, same, load, _) =
        StandsFor-eligible_from c.workers (accepts filter model endpoint_path) 0 c.worker_order id w
          a.listed a.registered (CanServe-accepts filter model endpoint_path w a.serves own) in
      (x, listed, same, load)

  -- What the filtered search returns is available, of the provider, and least loaded among those.
  pub for_provider-some :
      {id : String}
      → (find_eligible_worker_id_for_provider c filter model endpoint_path).1 ≡ some id
      → (w : WorkerState) × IsAvailable c model endpoint_path id w
        × (matches filter w ≡ true)
        × ((jd : String) (v : WorkerState)
            → IsAvailable c model endpoint_path jd v
            → matches filter v ≡ true
            → selection_load w ≤ selection_load v)
  unfolding find_eligible_worker_id_for_provider
  for_provider-some {id} h =
      let key : SelectionKey = record { provider = unwrap_or filter "_any"; model = model } in
      let (x, best, same) =
        select_by_load-some c key (eligible_workers c (accepts filter model endpoint_path)) h in
      let (w, available, own, load) = candidate-IsAvailable x best.listed in
      (
        w,
        subst (λ i. IsAvailable c model endpoint_path i w) same available,
        own,
        λ jd v a o.
            let (y, listed, _, load') = available_candidate jd v a o in
            omega (arith, best.least y listed),
      )

  pub for_provider-none :
      (find_eligible_worker_id_for_provider c filter model endpoint_path).1 ≡ none
      → (jd : String) (v : WorkerState) → IsAvailable c model endpoint_path jd v
      → matches filter v ≢ true
  unfolding find_eligible_worker_id_for_provider
  for_provider-none h jd v a own =
      let key : SelectionKey = record { provider = unwrap_or filter "_any"; model = model } in
      let (x, listed, _, _) = available_candidate jd v a own in
      let empty =
        select_by_load-none c key (eligible_workers c (accepts filter model endpoint_path)) h in
      elim (rw empty at listed) [ ]
