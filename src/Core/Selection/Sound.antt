-- ===== src/Core/Selection/Sound.antt =====
-- What the search does to the state, and what it returns, with or without routing preferences.
use llm_worker_proxy.Shared.{
  ◌≡◌, refl, true, String, Option, none, some, inl, inr, Bool-cases, is_empty, unwrap_or,
}
use llm_worker_proxy.Protocol.{ProviderRouting}
use llm_worker_proxy.Core.State.{ProxyServerCore, WorkerState}
use llm_worker_proxy.Core.Selection.{find_eligible_worker_id_with_routing, find_eligible_worker_id}
use llm_worker_proxy.Core.Selection.Eligible.{IsAvailable}
use llm_worker_proxy.Core.Selection.Placement.{with_cursors, unrouted-cursors, unrouted-some}
use llm_worker_proxy.Core.Selection.Routing.{eligible, choice, filtered-cursors, routed-Respects}

module _ (c : ProxyServerCore) (provider model endpoint_path : String) where
  routed-cursors :
      (routing : ProviderRouting)
      → (find_eligible_worker_id_with_routing c provider model endpoint_path routing).0
        ≡ with_cursors c
            (find_eligible_worker_id_with_routing c provider model endpoint_path routing).0
  unfolding find_eligible_worker_id_with_routing
  routed-cursors routing =
      elim (Bool-cases (is_empty (eligible c provider model endpoint_path routing))) [
        | inl empty ↦ elim (Bool-cases (unwrap_or routing.allow_fallbacks true)) [
          | inl allowed ↦ rw (empty, allowed) (unrouted-cursors c provider model endpoint_path)
          | inr strict ↦ rw (empty, strict) refl
        ]
        | inr candidates ↦ rw candidates (
            filtered-cursors c provider model endpoint_path routing
              (choice c provider model endpoint_path routing))
      ]

  -- The search changes nothing but the selection cursors.
  pub find_eligible-cursors :
      (routing : Option ProviderRouting)
      → (find_eligible_worker_id c provider model endpoint_path routing).0
        ≡ with_cursors c (find_eligible_worker_id c provider model endpoint_path routing).0
  unfolding find_eligible_worker_id
  find_eligible-cursors none = unrouted-cursors c provider model endpoint_path
  find_eligible-cursors (some routing) = routed-cursors routing

-- Whatever worker the search returns, with or without routing preferences, is available: it stands in
-- `worker_order`, is registered, is not draining, has a free slot, and serves the model and the
-- endpoint.
pub find_eligible-IsAvailable :
    (c : ProxyServerCore) (provider model endpoint_path : String) (routing : Option ProviderRouting)
    (id : String)
    → (find_eligible_worker_id c provider model endpoint_path routing).1 ≡ some id
    → (w : WorkerState) × IsAvailable c model endpoint_path id w
unfolding find_eligible_worker_id
find_eligible-IsAvailable c provider model endpoint_path none id h =
    let (w, available, _) = unrouted-some c provider model endpoint_path h in (w, available)
find_eligible-IsAvailable c provider model endpoint_path (some routing) id h =
    let (w, available, _) = routed-Respects c provider model endpoint_path routing id h in
    (w, available)
