-- ===== src/Core/Selection/Routing.antt =====
-- The search under the routing preferences of a request.
use mathlib.Core.Bool.{false≢true, true≢false}
use llm_worker_proxy.Shared.HashMap
use llm_worker_proxy.Shared.{
  ◌≤◌, ◌≡◌, refl, sym, ap, ◌∙◌, subst, true, false, String, List, [], ◌∷◌, ◌++◌, Option, none, some,
  ◌⊎◌, ◌≢◌, inl, inr, arith, Member, Bool-cases, ◌≢◌, Option-cases, retain, Member-retain,
  retain-Member, is_empty, ◌>>=◌, contains, ◌==◌, string_eq, ==_iff, is_none_or, is_some_and,
  unwrap_or, >>=-some, is_empty-eq,
}
use llm_worker_proxy.Protocol.{ProviderRouting}
use llm_worker_proxy.Core.State.{ProxyServerCore, WorkerState, key_eq, selection_load}
use llm_worker_proxy.Core.Selection.{
  Candidate, accepts_routed, eligible_workers, select_by_load, preferred, first_lowest,
  find_eligible_worker_id_with_routing, find_eligible_worker_id, select_preferred,
}
use llm_worker_proxy.Core.Selection.Candidates.{eligible_from-StandsFor, StandsFor-eligible_from}
use llm_worker_proxy.Core.Selection.Choice.{first_lowest-IsLeastLoaded, first_lowest-none}
use llm_worker_proxy.Core.Selection.Eligible.{
  CanServe, IsAvailable, select_by_load-some, select_by_load-none,
}
use llm_worker_proxy.Core.Selection.Placement.{
  with_cursors, unrouted-some, unrouted-none, unrouted-none, select-cursors,
}

-- The provider is one of `only` and none of `ignore`.
abbrev pub Respects : ProviderRouting → WorkerState → Type 0
Respects routing w =
    (is_none_or routing.only (λ only. contains w.provider only) ≡ true)
    × (is_some_and routing.ignore (λ ignore. contains w.provider ignore) ≡ false)

accepts_routed_lem :
    (routing : ProviderRouting) (model endpoint_path : String) (w : WorkerState)
    → accepts_routed routing model endpoint_path w ≡ true
    → CanServe model endpoint_path w × Respects routing w
unfolding accepts_routed
accepts_routed_lem routing model endpoint_path w h = (
  record {
    has_model = ground arith;
    has_endpoint = ground arith;
    has_room = ground arith;
    is_active = ground arith;
  },
  (ground arith, ground arith),
)

accepts_routed_of :
    (routing : ProviderRouting) (model endpoint_path : String) (w : WorkerState)
    → CanServe model endpoint_path w
    → Respects routing w
    → accepts_routed routing model endpoint_path w ≡ true
unfolding accepts_routed
accepts_routed_of routing model endpoint_path w s (only, ignore) =
    let m = s.has_model in
    let e = s.has_endpoint in let r = s.has_room in let a = s.is_active in ground arith

-- `x` is a first choice by the order: of its provider no candidate has a lower load, and no
-- provider listed before has a candidate.
pub record IsPreferred (order : List String) (eligible : List Candidate) (provider : String)
    (x : Candidate) : Type 0 where
  pub listed : Member x eligible
  pub own : x.provider ≡ provider
  pub before : List String
  pub after : List String
  pub split : order ≡ before ++ (provider ∷ after)
  pub none_before : (y : Candidate) → Member y eligible → ¬ Member y.provider before
  pub least : (y : Candidate) → Member y eligible → y.provider ≡ provider → x.load ≤ y.load

preferred-IsPreferred :
    (order : List String) (eligible : List Candidate) {p : String} {x : Candidate}
    → preferred order eligible ≡ some (p, x)
    → IsPreferred order eligible p x
unfolding preferred
preferred-IsPreferred [] eligible h = absurd (cc)
preferred-IsPreferred (q ∷ order) eligible {p} {x} h =
    let here = retain (λ (y : Candidate). y.provider == q) eligible in
    elim (Option-cases (first_lowest here)) [
      | inl nothing ↦
          let rest =
            preferred-IsPreferred order eligible {p = p} {x = x} (rw (nothing, preferred) at h) in
          let empty = first_lowest-none here nothing in
          record {
            listed = rest.listed;
            own = rest.own;
            before = q ∷ rest.before;
            after = rest.after;
            split = ap (◌∷◌ q) rest.split;
            none_before = λ y m b. elim b [
              | inl e ↦
                  elim (rw empty at (
                    retain-Member (λ (z : Candidate). z.provider == q) y eligible m
                      ((==_iff y.provider q).1 e))) [ ]
              | inr later ↦ rest.none_before y m later
            ];
            least = rest.least;
          }
      | inr (z, found) ↦
          let same : z ≡ x = ground arith in
          let q_p : q ≡ p = ground arith in
          let best = first_lowest-IsLeastLoaded here {x = z} found in
          let (inside, own) =
            Member-retain (λ (y : Candidate). y.provider == q) z eligible best.listed in
          record {
            listed = subst (λ y. Member y eligible) same inside;
            own = subst (λ y. y.provider ≡ p) same ((==_iff z.provider q).0 own ∙ q_p);
            before = [];
            after = order;
            split = rw q_p;
            none_before = λ y m b. elim b [ ];
            least = λ y m e.
                let low = best.least y (
                  retain-Member (λ (y : Candidate). y.provider == q) y eligible m
                    ((==_iff y.provider q).1 (e ∙ sym q_p))) in
                subst (λ k. k.load ≤ y.load) same low;
          }
    ]

preferred-none :
    (order : List String) (eligible : List Candidate) (y : Candidate)
    → preferred order eligible ≡ none
    → Member y eligible
    → ¬ Member y.provider order
unfolding preferred
preferred-none [] eligible y h m listed = elim listed [ ]
preferred-none (q ∷ order) eligible y h m listed =
    let here = retain (λ (z : Candidate). z.provider == q) eligible in
    elim (Option-cases (first_lowest here)) [
      | inl nothing ↦ elim listed [
        | inl e ↦
            elim (rw (first_lowest-none here nothing) at (
              retain-Member (λ (z : Candidate). z.provider == q) y eligible m
                ((==_iff y.provider q).1 e))) [ ]
        | inr later ↦ preferred-none order eligible y (rw (nothing, preferred) at h) m later
      ]
      | inr (z, found) ↦ absurd (ground arith)
    ]

module _ (c : ProxyServerCore) (provider model endpoint_path : String)
    (routing : ProviderRouting) where
  abbrev pub eligible : List Candidate
  eligible = eligible_workers c (accepts_routed routing model endpoint_path)

  routed_candidate :
      (x : Candidate)
      → Member x eligible
      → (w : WorkerState) × IsAvailable c model endpoint_path x.worker_id w
        × Respects routing w
        × (x.load ≡ selection_load w)
        × (x.provider ≡ w.provider)
  routed_candidate x m =
      let (s, listed, _) =
        eligible_from-StandsFor c.workers (accepts_routed routing model endpoint_path) 0
          c.worker_order x m in
      let (serves, respects) = accepts_routed_lem routing model endpoint_path s.worker s.passes in
      (
        s.worker,
        record { listed = listed; registered = s.registered; serves = serves },
        respects,
        s.load,
        s.provider,
      )

  respecting_candidate :
      (id : String) (w : WorkerState)
      → IsAvailable c model endpoint_path id w
      → Respects routing w
      → (x : Candidate) × Member x eligible
        × (x.worker_id ≡ id)
        × (x.load ≡ selection_load w)
        × (x.provider ≡ w.provider)
  respecting_candidate id w a r =
      StandsFor-eligible_from c.workers (accepts_routed routing model endpoint_path) 0
        c.worker_order id w a.listed a.registered
        (accepts_routed_of routing model endpoint_path w a.serves r)

  eligible-empty :
      eligible ≡ []
      → (id : String) (w : WorkerState) → IsAvailable c model endpoint_path id w
      → ¬ Respects routing w
  eligible-empty empty id w a r =
      let (x, listed, _, _, _) = respecting_candidate id w a r in elim (rw empty at listed) [ ]

  abbrev pub choice : Option (String × Candidate)
  choice = routing.order >>= λ order. preferred order eligible

  choice-IsPreferred :
      (order : List String) {p : String} {x : Candidate}
      → routing.order ≡ some order
      → choice ≡ some (p, x)
      → IsPreferred order eligible p x
  choice-IsPreferred order {p} {x} given h =
      preferred-IsPreferred order eligible {p = p} {x = x}
        (sym (>>=-some routing.order (λ o. preferred o eligible) given) ∙ h)

  -- What the filtered part of the search returns is one of the candidates.
  filtered-Member :
      (o : Option (String × Candidate))
      → choice ≡ o
      → {id : String} → (select_preferred c provider model eligible o).1 ≡ some id
      → (x : Candidate) × Member x eligible × (x.worker_id ≡ id)
  filtered-Member none e h =
      let (x, best, same) =
        select_by_load-some c (record { provider = provider; model = model }) eligible h in
      (x, best.listed, same)
  filtered-Member (some (p, x)) e h = elim (Option-cases routing.order) [
    | inl nothing ↦ absurd (cc (rw nothing at e))
    | inr (order, given) ↦
        (x, (choice-IsPreferred order {p = p} {x = x} given e).listed, ground arith)
  ]

  filtered-ne-none :
      (o : Option (String × Candidate))
      → (select_preferred c provider model eligible o).1 ≡ none
      → eligible ≡ []
  filtered-ne-none none h =
      select_by_load-none c (record { provider = provider; model = model }) eligible h
  filtered-ne-none (some (p, x)) h = absurd (cc)

  pub filtered-cursors :
      (o : Option (String × Candidate))
      → (select_preferred c provider model eligible o).0
        ≡ with_cursors c (select_preferred c provider model eligible o).0
  unfolding select_by_load
  filtered-cursors none = select-cursors c _ _
  filtered-cursors (some (p, x)) = refl

  pub routed-Respects :
      (id : String)
      → (find_eligible_worker_id c provider model endpoint_path (some routing)).1 ≡ some id
      → (w : WorkerState) × IsAvailable c model endpoint_path id w
        × (Respects routing w
            ⊎ ((unwrap_or routing.allow_fallbacks true ≡ true)
                × ((jd : String) (v : WorkerState)
                    → IsAvailable c model endpoint_path jd v
                    → ¬ Respects routing v)))
  unfolding find_eligible_worker_id find_eligible_worker_id_with_routing
  routed-Respects id h = elim (Bool-cases (is_empty eligible)) [
    | inl empty ↦ elim (Bool-cases (unwrap_or routing.allow_fallbacks true)) [
      | inl allowed ↦
          let (w, available, _) =
            unrouted-some c provider model endpoint_path (rw (empty, allowed) at h) in
          (w, available, inr (allowed, eligible-empty (is_empty-eq eligible empty)))
      | inr strict ↦ absurd (cc (rw (empty, strict) at h))
    ]
    | inr candidates ↦
        let (x, listed, same) = filtered-Member choice refl (rw candidates at h) in
        let (w, available, respects, _, _) = routed_candidate x listed in
        (w, subst (λ i. IsAvailable c model endpoint_path i w) same available, inl respects)
  ]

  routed_order :
      (order : List String) (jd : String) (v : WorkerState)
      → routing.order ≡ some order
      → IsAvailable c model endpoint_path jd v
      → Respects routing v
      → Member v.provider order
      → (id : String) × (w : WorkerState) × ((find_eligible_worker_id c provider model endpoint_path
            (some routing)).1
          ≡ some id)
        × IsAvailable c model endpoint_path id w
        × Respects routing w
        × (before : List String) × (after : List String) × (order ≡ before ++ (w.provider ∷ after))
        × ((kd : String) (u : WorkerState)
            → IsAvailable c model endpoint_path kd u
            → Respects routing u
            → (¬ Member u.provider before)
              × (u.provider ≡ w.provider → selection_load w ≤ selection_load u))
  unfolding find_eligible_worker_id find_eligible_worker_id_with_routing
  routed_order order jd v given available respects listed =
      let (y, y_in, y_id, y_load, y_provider) = respecting_candidate jd v available respects in
      elim (Bool-cases (is_empty eligible)) [
        | inl empty ↦ elim (rw (is_empty-eq eligible empty) at y_in) [ ]
        | inr candidates ↦ elim (Option-cases choice) [
          | inl nothing ↦ absurd (
              preferred-none order eligible y
                (sym (>>=-some routing.order (λ o. preferred o eligible) given) ∙ nothing) y_in
                (subst (λ q. Member q order) (sym y_provider) listed))
          | inr (px, chosen) ↦
              let best = choice-IsPreferred order {p = px.0} {x = px.1} given chosen in
              let (w, w_available, w_respects, w_load, w_provider) =
                routed_candidate px.1 best.listed in
              let own = sym best.own ∙ w_provider in
              (
                px.1.worker_id,
                w,
                rw candidates (ap (λ o. (select_preferred c provider model eligible o).1) chosen),
                w_available,
                w_respects,
                best.before,
                best.after,
                subst (λ q. order ≡ best.before ++ (q ∷ best.after)) own best.split,
                λ kd u u_available u_respects.
                    let (z, z_in, z_id, z_load, z_provider) =
                      respecting_candidate kd u u_available u_respects in
                    (
                      (λ m.
                          best.none_before z z_in
                            (subst (λ q. Member q best.before) (sym z_provider) m)),
                      (λ e. omega (arith, best.least z z_in (z_provider ∙ e ∙ sym own))),
                    ),
              )
        ]
      ]

-- For a request with routing preferences, the search returns a registered worker whose provider is
-- in `only` and not in `ignore`. It returns another worker only if fallbacks are allowed, which is
-- so unless the request says `false`, and no available worker respects the preferences.
pub find_eligible-Respects :
    (c : ProxyServerCore) (provider model endpoint_path : String) (routing : ProviderRouting)
    (id jd : String) (v : WorkerState)
    → (find_eligible_worker_id c provider model endpoint_path (some routing)).1 ≡ some id
    → IsAvailable c model endpoint_path jd v
    → (w : WorkerState) × (HashMap.get id c.workers ≡ some w)
      × (Respects routing w
          ⊎ ((unwrap_or routing.allow_fallbacks true ≡ true) × (¬ Respects routing v)))
find_eligible-Respects c provider model endpoint_path routing id jd v h available =
    let (w, found, fits) = routed-Respects c provider model endpoint_path routing id h in
    (
      w,
      found.registered,
      elim fits [
        | inl respects ↦ inl respects
        | inr (allowed, nobody) ↦ inr (allowed, nobody jd v available)
      ],
    )

-- If an available worker `v` respects the preferences and its provider is in the request's `order`,
-- then the search returns a worker that respects them, whose provider stands in `order`; every
-- available worker `u` that respects them has its provider not before that one, and no lower load
-- if it has the same provider.
pub find_eligible_order :
    (c : ProxyServerCore) (provider model endpoint_path : String) (routing : ProviderRouting)
    (order : List String) (jd kd : String) (v u : WorkerState)
    → routing.order ≡ some order
    → IsAvailable c model endpoint_path jd v
    → Respects routing v
    → Member v.provider order
    → IsAvailable c model endpoint_path kd u
    → Respects routing u
    → (id : String) × (w : WorkerState) × ((find_eligible_worker_id c provider model endpoint_path
          (some routing)).1
        ≡ some id)
      × (HashMap.get id c.workers ≡ some w)
      × Respects routing w
      × (before : List String) × (after : List String) × (order ≡ before ++ (w.provider ∷ after))
      × (¬ Member u.provider before)
      × ((u.provider ≢ w.provider) ⊎ (selection_load w ≤ selection_load u))
find_eligible_order c provider model endpoint_path routing order jd kd v u given av rv mv au ru =
    let (id, w, found, available, respects, before, after, split, all) =
      routed_order c provider model endpoint_path routing order jd v given av rv mv in
    let (not_before, least) = all kd u au ru in
    (
      id,
      w,
      found,
      available.registered,
      respects,
      before,
      after,
      split,
      not_before,
      elim (Bool-cases (u.provider == w.provider)) [
        | inl same ↦ inr (least ((==_iff u.provider w.provider).0 same))
        | inr differs ↦ inl (λ e. false≢true (sym differs ∙ (==_iff u.provider w.provider).1 e))
      ],
    )

-- For a request with routing preferences, the search returns no worker only if no available worker
-- respects the preferences, and if moreover fallbacks are refused or no worker is available at all.
pub routed_none :
    (c : ProxyServerCore) (provider model endpoint_path : String) (routing : ProviderRouting)
    (jd : String) (v : WorkerState)
    → (find_eligible_worker_id c provider model endpoint_path (some routing)).1 ≡ none
    → IsAvailable c model endpoint_path jd v
    → (¬ Respects routing v) × (unwrap_or routing.allow_fallbacks true ≡ false)
unfolding find_eligible_worker_id find_eligible_worker_id_with_routing
routed_none c provider model endpoint_path routing jd v h available =
    let xs = eligible c provider model endpoint_path routing in
    elim (Bool-cases (is_empty xs)) [
      | inl empty ↦ (
        eligible-empty c provider model endpoint_path routing (is_empty-eq xs empty) jd v available,
        elim (Bool-cases (unwrap_or routing.allow_fallbacks true)) [
          | inl allowed ↦ absurd (
              unrouted-none c provider model endpoint_path (rw (empty, allowed) at h) jd v
                available)
          | inr strict ↦ strict
        ],
      )
      | inr candidates ↦ absurd (
          true≢false (
            sym (
              ap (λ (l : List Candidate). is_empty l)
                (filtered-ne-none c provider model endpoint_path routing
                  (choice c provider model endpoint_path routing) (rw candidates at h)))
            ∙ candidates))
    ]
