-- ===== src/Core/Tests/Models.antt =====
-- Model lists on small states.
use mathlib.Core.Bool.{false≢true}
use llm_worker_proxy.Shared.{
  ◌≡◌, ◌≢◌, refl, ◌↔◌, inl, String, [], ◌∷◌, ==_iff, string_eq, Member, Distinct,
}
use llm_worker_proxy.Shared.HashMap
use llm_worker_proxy.Core.State.{WorkerState}
use llm_worker_proxy.Core.Workers.{sanitize_models}
use llm_worker_proxy.Core.Workers.Sanitize.{IsTrimmedOf, sanitize_models_exact}
use llm_worker_proxy.Core.Views.{
  ordered_workers, registered_workers, provider_models, all_models, unseen,
}
use llm_worker_proxy.Core.Views.Catalog.{provider_models_exact}
use llm_worker_proxy.Core.Tests.{two_workers, idle}

sanitize_models_exact_example :
    Distinct (sanitize_models (" m" ∷ "" ∷ "m " ∷ []))
    × (Member "m" (sanitize_models (" m" ∷ "" ∷ "m " ∷ []))
        ↔ IsTrimmedOf (" m" ∷ "" ∷ "m " ∷ []) "m")
sanitize_models_exact_example = sanitize_models_exact (" m" ∷ "" ∷ "m " ∷ []) "m"

provider_models_exact_example :
    Distinct (provider_models two_workers "p")
    × Member "m" (provider_models two_workers "p")
    × ◌≢◌ {A = String} "m" "*"
    × (f : String × WorkerState) × Member f (ordered_workers two_workers)
    × (f.1.provider ≡ "p")
    × Member "m" f.1.models
unfolding HashMap.get registered_workers provider_models all_models unseen
provider_models_exact_example =
    provider_models_exact two_workers "p" "m" "m" ("a", idle) (inl refl) refl (inl refl)
      (λ e. false≢true ((==_iff "m" "*").1 e)) (inl refl)
