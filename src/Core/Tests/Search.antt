-- ===== src/Core/Tests/Search.antt =====
-- The search for a worker, and histories, on small states.
use llm_worker_proxy.Shared.{
  ◌≤◌, ◌≡◌, ◌≢◌, refl, true, false, String, List, [], ◌∷◌, ◌++◌, none, some, ◌⊎◌, inl, inr, Member,
  string_eq, unwrap_or,
}
use llm_worker_proxy.Shared.HashMap
use llm_worker_proxy.Protocol.{ProviderRouting}
use llm_worker_proxy.Core.State.{WorkerState, supports_model, prefixes_support, selection_load}
use llm_worker_proxy.Core.Workers.{register_worker, sanitize_models, sanitize_from}
use llm_worker_proxy.Core.Selection.{
  choose, lowest_load, next_in_rotation, accepts, find_eligible_worker_id_with_routing,
  find_eligible_worker_id_unrouted, find_eligible_worker_id_for_provider, select_by_load,
  eligible_from, accepts_routed, preferred, first_lowest, find_eligible_worker_id,
}
use llm_worker_proxy.Core.Selection.Eligible.{IsAvailable}
use llm_worker_proxy.Core.Selection.Sound.{find_eligible-IsAvailable}
use llm_worker_proxy.Core.Selection.Placement.{
  GoesBefore, find_eligible-GoesBefore, find_eligible-none,
}
use llm_worker_proxy.Core.Selection.Routing.{
  Respects, find_eligible-Respects, find_eligible_order, routed_none,
}
use llm_worker_proxy.Core.Step.{Event, step, run}
use llm_worker_proxy.Core.Bounds.{IsSound}
use llm_worker_proxy.Core.Bounds.Run.{run-IsSound}
use llm_worker_proxy.Shared.Text.{format_id, decimal, trim}
use llm_worker_proxy.Core.Tests.{idle, busy, two_workers, idle-IsAvailable, busy-IsAvailable}

run-IsSound_example : IsSound idle
unfolding HashMap.get HashMap.insert HashMap.remove run step register_worker sanitize_models
    sanitize_from format_id decimal trim
run-IsSound_example =
    run-IsSound
      (Event.register_worker "p" (record {
        worker_name = "one";
        models = "m" ∷ [];
        max_concurrent = 2;
        protocol_version = none;
        current_load = none;
        endpoint_prefixes = [];
      })
        ∷ [])
      "worker-1" idle refl

find_eligible-IsAvailable_example : (w : WorkerState) × IsAvailable two_workers "m" "/v1/chat" "a" w
unfolding HashMap.get HashMap.insert find_eligible_worker_id find_eligible_worker_id_unrouted
    find_eligible_worker_id_for_provider select_by_load choose next_in_rotation lowest_load accepts
    eligible_from supports_model prefixes_support
find_eligible-IsAvailable_example =
    find_eligible-IsAvailable two_workers "p" "m" "/v1/chat" none "a" refl

find_eligible-GoesBefore_example :
    (w : WorkerState) × (HashMap.get "a" two_workers.workers ≡ some w) × GoesBefore "p" w busy
unfolding HashMap.get HashMap.insert find_eligible_worker_id find_eligible_worker_id_unrouted
    find_eligible_worker_id_for_provider select_by_load choose next_in_rotation lowest_load accepts
    eligible_from supports_model prefixes_support
find_eligible-GoesBefore_example =
    find_eligible-GoesBefore two_workers "p" "m" "/v1/chat" "a" "b" busy refl busy-IsAvailable

find_eligible-none_example : ¬ IsAvailable two_workers "x" "/v1/chat" "a" idle
unfolding HashMap.get HashMap.insert find_eligible_worker_id find_eligible_worker_id_unrouted
    find_eligible_worker_id_for_provider select_by_load choose next_in_rotation lowest_load accepts
    eligible_from supports_model prefixes_support
find_eligible-none_example = find_eligible-none two_workers "p" "x" "/v1/chat" "a" idle refl

-- Preferences for the provider of `busy`, and none but it.
abbrev only_other : ProviderRouting
only_other = record {
  only = some ("o" ∷ []);
  ignore = none;
  order = none;
  allow_fallbacks = none;
  sort = none;
}

abbrev prefer_other : ProviderRouting
prefer_other = record only_other { only = none; order = some ("x" ∷ "o" ∷ "p" ∷ []) }

abbrev only_unknown : ProviderRouting
only_unknown = record only_other { only = some ("x" ∷ []); allow_fallbacks = some false }

find_eligible-Respects_example :
    (w : WorkerState) × (HashMap.get "b" two_workers.workers ≡ some w)
    × (Respects only_other w
        ⊎ ((unwrap_or only_other.allow_fallbacks true ≡ true) × (¬ Respects only_other idle)))
unfolding HashMap.get HashMap.insert find_eligible_worker_id find_eligible_worker_id_unrouted
    find_eligible_worker_id_for_provider select_by_load choose next_in_rotation lowest_load accepts
    eligible_from supports_model prefixes_support find_eligible_worker_id_with_routing
    accepts_routed preferred first_lowest
find_eligible-Respects_example =
    find_eligible-Respects two_workers "p" "m" "/v1/chat" only_other "b" "a" idle refl
      idle-IsAvailable

find_eligible_order_example :
    (id : String) × (w : WorkerState) × ((find_eligible_worker_id two_workers "p" "m" "/v1/chat"
        (some prefer_other)).1
      ≡ some id)
    × (HashMap.get id two_workers.workers ≡ some w)
    × Respects prefer_other w
    × (before : List String) × (after : List String) × ("x" ∷ "o" ∷ "p" ∷ []
        ≡ before ++ (w.provider ∷ after))
    × (¬ Member idle.provider before)
    × ((idle.provider ≢ w.provider) ⊎ (selection_load w ≤ selection_load idle))
unfolding HashMap.get
find_eligible_order_example =
    find_eligible_order two_workers "p" "m" "/v1/chat" prefer_other ("x" ∷ "o" ∷ "p" ∷ []) "b" "a"
      busy idle refl busy-IsAvailable (refl, refl) (inr (inl refl)) idle-IsAvailable (refl, refl)

routed_none_example :
    (¬ Respects only_unknown idle) × (unwrap_or only_unknown.allow_fallbacks true ≡ false)
unfolding HashMap.get HashMap.insert find_eligible_worker_id find_eligible_worker_id_unrouted
    find_eligible_worker_id_for_provider select_by_load choose next_in_rotation lowest_load accepts
    eligible_from supports_model prefixes_support find_eligible_worker_id_with_routing
    accepts_routed preferred first_lowest
routed_none_example =
    routed_none two_workers "p" "m" "/v1/chat" only_unknown "a" idle refl idle-IsAvailable
