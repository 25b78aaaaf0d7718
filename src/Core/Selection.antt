-- ===== src/Core/Selection.antt =====
-- crates/modelrelay-server/src/lib.rs: which worker a request goes to.
pub mod Candidates
pub mod Choice
pub mod Eligible
pub mod Placement
pub mod Routing
pub mod Sound
use llm_worker_proxy.Shared.{
  ℕ, suc, min, Bool, true, not, ◌&&◌, String, List, [], ◌∷◌, Option, none, some, ◌==◌, string_eq,
  contains, if◌then◌else◌, unwrap_or, is_none_or, is_some_and, or_else, retain, find, is_empty, ltb,
  leb, nat_eq, ◌>>=◌, any,
}
use llm_worker_proxy.Shared.HashMap
use llm_worker_proxy.Shared.HashMap.{HashMap}
use llm_worker_proxy.Protocol.{ProviderRouting}
use llm_worker_proxy.Core.State.{
  ProxyServerCore, WorkerState, SelectionKey, key_eq, selection_load, supports_model,
  supports_endpoint,
}

-- The tuples that the source collects: the place in `worker_order`, the id, the load and the
-- provider (which the unfiltered selection does not collect).
pub record Candidate : Type 0 where
  pub position : ℕ
  pub worker_id : String
  pub load : ℕ
  pub provider : String

abbrev pub has_capacity : WorkerState → Bool
has_capacity w = ltb (selection_load w) w.max_concurrent

-- The test of `find_eligible_worker_id_for_provider`.
unfoldable pub accepts : Option String → String → String → WorkerState → Bool
accepts provider_filter model endpoint_path w =
    is_none_or provider_filter (λ provider. w.provider == provider)
    && supports_model w.models model
    && has_capacity w
    && not w.is_draining
    && supports_endpoint w endpoint_path

-- The test of `find_eligible_worker_id_with_routing`.
unfoldable pub accepts_routed : ProviderRouting → String → String → WorkerState → Bool
accepts_routed routing model endpoint_path w =
    supports_model w.models model
    && has_capacity w
    && not w.is_draining
    && supports_endpoint w endpoint_path
    && is_none_or routing.only (λ only. contains w.provider only)
    && not (is_some_and routing.ignore (λ ignore. contains w.provider ignore))

abbrev pub candidate : (WorkerState → Bool) → ℕ → String → Option WorkerState → List Candidate
candidate test position worker_id none = []
candidate test position worker_id (some w) =
    if test w
    then record {
      position = position;
      worker_id = worker_id;
      load = selection_load w;
      provider = w.provider;
    }
      ∷ []
    else []

abbrev prepend : List Candidate → List Candidate → List Candidate
prepend [] rest = rest
prepend (x ∷ xs) rest = x ∷ rest

-- `worker_order.iter().enumerate().filter_map(..)`, from a position on.
unfoldable pub eligible_from :
    HashMap String WorkerState → (WorkerState → Bool) → ℕ → List String → List Candidate
eligible_from workers test position [] = []
eligible_from workers test position (worker_id ∷ order) =
    prepend (candidate test position worker_id (HashMap.get worker_id workers))
      (eligible_from workers test (suc position) order)

abbrev pub eligible_workers : ProxyServerCore → (WorkerState → Bool) → List Candidate
eligible_workers c test = eligible_from c.workers test 0 c.worker_order

-- `map(|load| load).min()`.
unfoldable pub lowest_load : List Candidate → Option ℕ
lowest_load [] = none
lowest_load (x ∷ xs) = some (elim (lowest_load xs) [ none ↦ x.load | some m ↦ min x.load m ])

-- `min_by_key(load)`: the first of the least loaded.
unfoldable pub first_lowest : List Candidate → Option Candidate
first_lowest [] = none
first_lowest (x ∷ xs) =
    some (elim (first_lowest xs) [ none ↦ x | some y ↦ if leb x.load y.load then x else y ])

abbrev pub first : List Candidate → Option Candidate
first [] = none
first (x ∷ xs) = some x

-- The first tied worker behind the last position chosen, else the first tied worker.
unfoldable pub next_in_rotation : Option ℕ → List Candidate → Option Candidate
next_in_rotation last_position tied =
    or_else (find (λ x. is_none_or last_position (λ last. ltb last x.position)) tied) (first tied)

unfoldable pub choose : Option ℕ → List Candidate → Option Candidate
choose last_position eligible = do
  lowest ← lowest_load eligible
  next_in_rotation last_position (retain (λ x. nat_eq x.load lowest) eligible)

-- Both selections move the cursor of the key to the place of the worker that they return.
abbrev pub select :
    ProxyServerCore → SelectionKey → Option Candidate → ProxyServerCore × Option String
select c key none = (c, none)
select c key (some x) = (
  record c { selection_cursors = HashMap.insert key x.position c.selection_cursors },
  some x.worker_id,
)

-- The end of both selections: lowest load, ties by rotation.
unfoldable pub select_by_load :
    ProxyServerCore → SelectionKey → List Candidate → ProxyServerCore × Option String
select_by_load c key eligible = select c key (choose (HashMap.get key c.selection_cursors) eligible)

unfoldable pub find_eligible_worker_id_for_provider :
    ProxyServerCore → Option String → String → String → ProxyServerCore × Option String
find_eligible_worker_id_for_provider c provider_filter model endpoint_path =
    select_by_load c (record { provider = unwrap_or provider_filter "_any"; model = model })
      (eligible_workers c (accepts provider_filter model endpoint_path))

-- The provider's own workers first, then any.
unfoldable pub find_eligible_worker_id_unrouted :
    ProxyServerCore → String → String → String → ProxyServerCore × Option String
find_eligible_worker_id_unrouted c provider model endpoint_path =
    let (c', found) = find_eligible_worker_id_for_provider c (some provider) model endpoint_path in
    elim found [
      | some worker_id ↦ (c', some worker_id)
      | none ↦ find_eligible_worker_id_for_provider c' none model endpoint_path
    ]

-- The loop over `routing.order`: the first listed provider that has a candidate, with its first
-- least loaded candidate.
unfoldable pub preferred : List String → List Candidate → Option (String × Candidate)
preferred [] eligible = none
preferred (provider ∷ order) eligible =
    elim (first_lowest (retain (λ x. x.provider == provider) eligible)) [
      | some best ↦ some (provider, best)
      | none ↦ preferred order eligible
    ]

-- The preferred candidate, if any, under the cursor of its provider; else the selection by load.
abbrev pub select_preferred :
    ProxyServerCore
    → String
    → String
    → List Candidate
    → Option (String × Candidate)
    → ProxyServerCore × Option String
select_preferred c provider model eligible (some (listed, best)) =
    select c (record { provider = listed; model = model }) (some best)
select_preferred c provider model eligible none =
    select_by_load c (record { provider = provider; model = model }) eligible

unfoldable pub find_eligible_worker_id_with_routing :
    ProxyServerCore → String → String → String → ProviderRouting → ProxyServerCore × Option String
find_eligible_worker_id_with_routing c provider model endpoint_path routing =
    let eligible : List Candidate =
      eligible_workers c (accepts_routed routing model endpoint_path) in
    if is_empty eligible
    then if unwrap_or routing.allow_fallbacks true
      then find_eligible_worker_id_unrouted c provider model endpoint_path
      else (c, none)
    else select_preferred c provider model eligible
        (routing.order >>= λ order. preferred order eligible)

unfoldable pub find_eligible_worker_id :
    ProxyServerCore
    → String
    → String
    → String
    → Option ProviderRouting
    → ProxyServerCore × Option String
find_eligible_worker_id c provider model endpoint_path none =
    find_eligible_worker_id_unrouted c provider model endpoint_path
find_eligible_worker_id c provider model endpoint_path (some routing) =
    find_eligible_worker_id_with_routing c provider model endpoint_path routing

unfoldable pub provider_has_compatible_worker : ProxyServerCore → String → Bool
provider_has_compatible_worker c model =
    any (λ w. not w.is_draining && supports_model w.models model) (HashMap.values c.workers)
