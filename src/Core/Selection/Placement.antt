-- ===== src/Core/Selection/Placement.antt =====
-- The worker that `find_eligible_worker_id` returns: available, of the right provider, and least
-- loaded; and when it returns none.
use mathlib.Core.Bool.{false≢true}
use llm_worker_proxy.Shared.HashMap
use llm_worker_proxy.Shared.{
  ◌∙◌, sym, ◌≤◌, ◌≡◌, refl, subst, String, Option, none, some, ◌⊎◌, Bool-cases, ◌==◌, ◌≢◌, inl, inr,
  arith, Option-cases, string_eq, ==_iff,
}
use llm_worker_proxy.Core.State.{ProxyServerCore, WorkerState, SelectionKey, key_eq, selection_load}
use llm_worker_proxy.Core.Selection.{
  Candidate, select, select_by_load, find_eligible_worker_id_for_provider,
  find_eligible_worker_id_unrouted, find_eligible_worker_id,
}
use llm_worker_proxy.Core.Selection.Eligible.{IsAvailable, for_provider-some, for_provider-none}

-- The state with other cursors.
abbrev pub with_cursors : ProxyServerCore → ProxyServerCore → ProxyServerCore
with_cursors c c' = record c { selection_cursors = c'.selection_cursors }

pub select-cursors :
    (c : ProxyServerCore) (key : SelectionKey) (o : Option Candidate)
    → (select c key o).0 ≡ with_cursors c (select c key o).0
select-cursors c key none = refl
select-cursors c key (some x) = refl

for_provider-cursors :
    (c : ProxyServerCore) (filter : Option String) (model endpoint_path : String)
    → (find_eligible_worker_id_for_provider c filter model endpoint_path).0
      ≡ with_cursors c (find_eligible_worker_id_for_provider c filter model endpoint_path).0
unfolding find_eligible_worker_id_for_provider select_by_load
for_provider-cursors c filter model endpoint_path = select-cursors c _ _

for_provider-none_state :
    (c : ProxyServerCore) (filter : Option String) (model endpoint_path : String)
    → (find_eligible_worker_id_for_provider c filter model endpoint_path).1 ≡ none
    → (find_eligible_worker_id_for_provider c filter model endpoint_path).0 ≡ c
unfolding find_eligible_worker_id_for_provider select_by_load
for_provider-none_state c filter model endpoint_path h = ground arith

module _ (c : ProxyServerCore) (provider model endpoint_path : String) where
  pub unrouted-cursors :
      (find_eligible_worker_id_unrouted c provider model endpoint_path).0
      ≡ with_cursors c (find_eligible_worker_id_unrouted c provider model endpoint_path).0
  unfolding find_eligible_worker_id_unrouted
  unrouted-cursors = ground (
    arith,
    for_provider-cursors c (some provider) model endpoint_path,
    for_provider-none_state c (some provider) model endpoint_path,
    for_provider-cursors c none model endpoint_path,
  )

  -- A worker of the request's own provider goes before any other, and the load decides among those.
  abbrev pub IsBest : WorkerState → Type 0
  IsBest w =
      (jd : String) (v : WorkerState)
      → IsAvailable c model endpoint_path jd v
      → (v.provider ≡ provider → (w.provider ≡ provider) × (selection_load w ≤ selection_load v))
        × (w.provider ≢ provider → selection_load w ≤ selection_load v)

  pub unrouted-some :
      {id : String}
      → (find_eligible_worker_id_unrouted c provider model endpoint_path).1 ≡ some id
      → (w : WorkerState) × IsAvailable c model endpoint_path id w × IsBest w
  unfolding find_eligible_worker_id_unrouted
  unrouted-some {id} h =
      let own = find_eligible_worker_id_for_provider c (some provider) model endpoint_path in
      elim (Option-cases own.1) [
        | inl nobody ↦
            let same = for_provider-none_state c (some provider) model endpoint_path nobody in
            let h' : (find_eligible_worker_id_for_provider c none model endpoint_path).1 ≡ some id =
              ground arith in
            let (w, available, _, least) = for_provider-some c none model endpoint_path h' in
            (
              w,
              available,
              λ jd v a. (
                (λ e. absurd (
                    for_provider-none c (some provider) model endpoint_path nobody jd v a
                      ((==_iff v.provider provider).1 e))),
                (λ e. least jd v a refl),
              ),
            )
        | inr (i, found) ↦
            let e : i ≡ id = ground arith in
            let (w, available, matched, least) =
              for_provider-some c (some provider) model endpoint_path found in
            let mine = (==_iff w.provider provider).0 matched in
            (
              w,
              subst (λ k. IsAvailable c model endpoint_path k w) e available,
              λ jd v a. (
                (λ own_v. (mine, least jd v a ((==_iff v.provider provider).1 own_v))),
                (λ other. absurd (other mine)),
              ),
            )
      ]

  pub unrouted-none :
      (find_eligible_worker_id_unrouted c provider model endpoint_path).1 ≡ none
      → (jd : String) (v : WorkerState) → ¬ IsAvailable c model endpoint_path jd v
  unfolding find_eligible_worker_id_unrouted
  unrouted-none h jd v a =
      let own = find_eligible_worker_id_for_provider c (some provider) model endpoint_path in
      elim (Option-cases own.1) [
        | inl nobody ↦
            let same = for_provider-none_state c (some provider) model endpoint_path nobody in
            let h' : (find_eligible_worker_id_for_provider c none model endpoint_path).1 ≡ none =
              ground arith in
            for_provider-none c none model endpoint_path h' jd v a refl
        | inr (i, found) ↦ absurd (ground arith)
      ]

-- `w` goes before `v` for a request to the provider: the provider's own workers first, then the
-- less loaded.
abbrev pub GoesBefore : String → WorkerState → WorkerState → Type 0
GoesBefore provider w v =
    ((w.provider ≡ provider) × ((v.provider ≢ provider) ⊎ (selection_load w ≤ selection_load v)))
    ⊎ ((v.provider ≢ provider) × (selection_load w ≤ selection_load v))

IsBest-GoesBefore :
    (c : ProxyServerCore) (provider model endpoint_path jd : String) (w v : WorkerState)
    → IsBest c provider model endpoint_path w
    → IsAvailable c model endpoint_path jd v
    → GoesBefore provider w v
IsBest-GoesBefore c provider model endpoint_path jd w v best available =
    let (own, other) = best jd v available in
    elim (Bool-cases (v.provider == provider)) [
      | inl yes_v ↦
          let (mine, least) = own ((==_iff v.provider provider).0 yes_v) in inl (mine, inr least)
      | inr no_v ↦
          let not_v : v.provider ≢ provider =
            λ e. false≢true (sym no_v ∙ (==_iff v.provider provider).1 e) in
          elim (Bool-cases (w.provider == provider)) [
            | inl yes_w ↦ inl ((==_iff w.provider provider).0 yes_w, inl not_v)
            | inr no_w ↦
                inr (not_v, other (λ e. false≢true (sym no_w ∙ (==_iff w.provider provider).1 e)))
          ]
    ]

-- For a request without routing preferences, no available worker goes before the worker that the
-- search returns: the request's own provider decides first, then the load.
pub find_eligible-GoesBefore :
    (c : ProxyServerCore) (provider model endpoint_path id jd : String) (v : WorkerState)
    → (find_eligible_worker_id c provider model endpoint_path none).1 ≡ some id
    → IsAvailable c model endpoint_path jd v
    → (w : WorkerState) × (HashMap.get id c.workers ≡ some w) × GoesBefore provider w v
unfolding find_eligible_worker_id
find_eligible-GoesBefore c provider model endpoint_path id jd v h available =
    let (w, found, best) = unrouted-some c provider model endpoint_path h in
    (w, found.registered, IsBest-GoesBefore c provider model endpoint_path jd w v best available)

-- For a request without routing preferences, the search returns no worker only if none is
-- available.
pub find_eligible-none :
    (c : ProxyServerCore) (provider model endpoint_path jd : String) (v : WorkerState)
    → (find_eligible_worker_id c provider model endpoint_path none).1 ≡ none
    → ¬ IsAvailable c model endpoint_path jd v
unfolding find_eligible_worker_id
find_eligible-none c provider model endpoint_path jd v h =
    unrouted-none c provider model endpoint_path h jd v
