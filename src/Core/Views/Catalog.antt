-- ===== src/Core/Views/Catalog.antt =====
-- The catalog of models that a provider offers.
use mathlib.Core.Bool.{false≢true}
use llm_worker_proxy.Shared.{
  ◌≡◌, ◌≢◌, refl, sym, ap, subst, ◌∙◌, ◌⊎◌, inl, inr, Bool, true, false, not, String, List, [], ◌∷◌,
  ◌==◌, ==_iff, string_eq, retain, contains, is_empty, Member, Distinct, Bool-cases,
  Member-contains, contains-Member, Member-append_left, Member-append_right, Member-append_cases,
  Member-retain, retain-Member,
}
use llm_worker_proxy.Core.State.{ProxyServerCore, WorkerState}
use llm_worker_proxy.Core.Views.{all_models, unseen, is_named, provider_models, ordered_workers}

unseen-Member :
    (seen xs : List String) (x : String)
    → Member x (unseen seen xs)
    → (¬ Member x seen) × Member x xs
unfolding unseen
unseen-Member seen [] x m = elim m [ ]
unseen-Member seen (y ∷ xs) x m = elim (Bool-cases (contains y seen)) [
  | inl old ↦ let (away, listed) = unseen-Member seen xs x (rw old at m) in (away, inr listed)
  | inr new ↦
      let kept : Member x (y ∷ unseen (y ∷ seen) xs) = rw new at m in
      elim kept [
        | inl e ↦ (
          (λ known.
              false≢true (sym new ∙ Member-contains y seen (subst (λ z. Member z seen) e known))),
          inl e,
        )
        | inr later ↦
            let (away, listed) = unseen-Member (y ∷ seen) xs x later in
            ((λ known. away (inr known)), inr listed)
      ]
]

unseen-Distinct : (seen xs : List String) → Distinct (unseen seen xs)
unfolding unseen
unseen-Distinct seen [] = tt
unseen-Distinct seen (y ∷ xs) = elim (Bool-cases (contains y seen)) [
  | inl old ↦ rw old (unseen-Distinct seen xs)
  | inr new ↦
      rw new (
        (λ again. (unseen-Member (y ∷ seen) xs y again).0 (inl refl)),
        unseen-Distinct (y ∷ seen) xs,
      )
]

Member-unseen :
    (seen xs : List String) (x : String) → Member x xs → Member x seen ⊎ Member x (unseen seen xs)
unfolding unseen
Member-unseen seen [] x m = elim m [ ]
Member-unseen seen (y ∷ xs) x (inl e) = elim (Bool-cases (contains y seen)) [
  | inl old ↦ inl (subst (λ z. Member z seen) (sym e) (contains-Member y seen old))
  | inr new ↦ inr (rw new (inl e))
]
Member-unseen seen (y ∷ xs) x (inr later) = elim (Bool-cases (contains y seen)) [
  | inl old ↦ elim (Member-unseen seen xs x later) [
    | inl known ↦ inl known
    | inr kept ↦ inr (rw old kept)
  ]
  | inr new ↦ elim (Member-unseen (y ∷ seen) xs x later) [
    | inl (inl e) ↦ inr (rw new (inl e))
    | inl (inr known) ↦ inl known
    | inr kept ↦ inr (rw new (inr kept))
  ]
]

all_models-Member :
    (es : List (String × WorkerState)) (x : String)
    → Member x (all_models es)
    → (e : String × WorkerState) × Member e es × Member x e.1.models
unfolding all_models
all_models-Member [] x m = elim m [ ]
all_models-Member (e ∷ es) x m = elim (Member-append_cases x e.1.models (all_models es) m) [
  | inl here ↦ (e, inl refl, here)
  | inr later ↦ let (f, listed, has) = all_models-Member es x later in (f, inr listed, has)
]

Member-all_models :
    (es : List (String × WorkerState)) (e : String × WorkerState) (x : String)
    → Member e es
    → Member x e.1.models
    → Member x (all_models es)
unfolding all_models
Member-all_models [] e x m has = elim m [ ]
Member-all_models (f ∷ es) e x (inl same) has =
    Member-append_left x f.1.models (all_models es) (subst (λ g. Member x g.1.models) same has)
Member-all_models (f ∷ es) e x (inr later) has =
    Member-append_right x f.1.models (all_models es) (Member-all_models es e x later has)

named_lem : (x : String) → is_named x ≡ true → x ≢ "*"
named_lem x named e = false≢true (ap not (sym ((==_iff x "*").1 e)) ∙ named)

-- The named models of some workers, each once.
abbrev catalog : List (String × WorkerState) → List String
catalog es = unseen [] (retain is_named (all_models es))

catalog-Member :
    (es : List (String × WorkerState)) (x : String)
    → Member x (catalog es)
    → (x ≢ "*") × (e : String × WorkerState) × Member e es × Member x e.1.models
catalog-Member es x m =
    let (listed, named) =
      Member-retain is_named x (all_models es)
        (unseen-Member [] (retain is_named (all_models es)) x m).1 in
    let (e, worker, has) = all_models-Member es x listed in (named_lem x named, e, worker, has)

abbrev is_of : String → String × WorkerState → Bool
is_of provider e = e.1.provider == provider

Member-catalog :
    (es : List (String × WorkerState)) (e : String × WorkerState) (x : String)
    → Member e es
    → Member x e.1.models
    → x ≢ "*"
    → Member x (catalog es)
Member-catalog es e x listed has named =
    let kept : is_named x ≡ true = elim (Bool-cases (x == "*")) [
      | inl star ↦ absurd (named ((==_iff x "*").0 star))
      | inr other ↦ ap not other
    ] in
    elim (Member-unseen [] (retain is_named (all_models es)) x
      (retain-Member is_named x (all_models es) (Member-all_models es e x listed has) kept)) [
        | inl nowhere ↦ elim nowhere [ ]
        | inr shown ↦ shown
      ]

Member-is_empty : (x : String) (xs : List String) → Member x xs → is_empty xs ≡ false
Member-is_empty x [] m = elim m [ ]
Member-is_empty x (y ∷ xs) m = refl

-- If a worker of the provider has a model other than the wildcard, then the models shown for the
-- provider are distinct, that model is among them, and each is a model of one of the provider's
-- workers and not the wildcard.
pub provider_models_exact :
    (c : ProxyServerCore) (provider model shown : String) (e : String × WorkerState)
    → Member e (ordered_workers c)
    → e.1.provider ≡ provider
    → Member model e.1.models
    → model ≢ "*"
    → Member shown (provider_models c provider)
    → Distinct (provider_models c provider)
      × Member model (provider_models c provider)
      × (shown ≢ "*")
      × (f : String × WorkerState) × Member f (ordered_workers c)
      × (f.1.provider ≡ provider)
      × Member shown f.1.models
unfolding provider_models
provider_models_exact c provider model shown e listed of_provider has named m =
    let own = retain (is_of provider) (ordered_workers c) in
    let offered =
      Member-catalog own e model
        (retain-Member (is_of provider) e (ordered_workers c) listed
          ((==_iff e.1.provider provider).1 of_provider))
        has named in
    let exact : provider_models c provider ≡ catalog own =
      rw (Member-is_empty model (catalog own) offered) refl in
    let (no_star, f, f_own, f_has) = catalog-Member own shown (rw exact at m) in
    let (f_listed, f_of) = Member-retain (is_of provider) f (ordered_workers c) f_own in
    (
      rw exact (unseen-Distinct [] (retain is_named (all_models own))),
      rw exact offered,
      no_star,
      f,
      f_listed,
      (==_iff f.1.provider provider).0 f_of,
      f_has,
    )
