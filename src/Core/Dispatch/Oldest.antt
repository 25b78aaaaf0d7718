-- ===== src/Core/Dispatch/Oldest.antt =====
-- Which request a worker with room gets: the oldest of those that stand first for it in their queues.
use llm_worker_proxy.Shared.{
  ℕ, suc, ◌≤◌, ◌≡◌, refl, ap, ◌∙◌, subst, inl, inr, arith, Bool, true, false, String, List, [], ◌∷◌,
  Option, none, some, Bool-cases, Option-cases, string_eq, find, position, get_elem?, remove_idx,
  unwrap_or, ltb, ◌==◌,
}
use llm_worker_proxy.Shared.HashMap
use llm_worker_proxy.Shared.HashMap.{HashMap}
use llm_worker_proxy.Core.State.{ProxyServerCore, WorkerState, RequestRecord, ActiveRequestState}
use llm_worker_proxy.Core.Selection.{has_capacity}
use llm_worker_proxy.Core.Dispatch.{
  worker_has_capacity, dispatch_next_compatible, Best, improve, head_of_queue, take_best,
  scan_queues, compatible, queue_of, assign_to_worker,
}

-- The element at the first position that passes is the first that passes, and is what leaves the list.
position-find :
    {A : Type 0} (p : A → Bool) (xs : List A) (x : A)
    → find p xs ≡ some x
    → (i : ℕ) × (rest : List A) × (position p xs ≡ some i)
      × (get_elem? xs i ≡ some x)
      × (remove_idx xs i ≡ some (x, rest))
position-find p [] x h = absurd (cc)
position-find p (y ∷ ys) x h = elim (Bool-cases (p y)) [
  | inl hit ↦
      let e : y ≡ x = ground arith in (0, ys, rw hit refl, ap some e, ap (λ z. some (z, ys)) e)
  | inr miss ↦
      let (i, rest, place, here, taken) = position-find p ys x (rw miss at h) in
      (suc i, y ∷ rest, rw (miss, place) refl, here, rw taken refl)
]

find-position :
    {A : Type 0} (p : A → Bool) (xs : List A) (i : ℕ)
    → position p xs ≡ some i
    → (x : A) × (find p xs ≡ some x)
find-position p [] i h = absurd (cc)
find-position p (y ∷ ys) i h = elim (Bool-cases (p y)) [
  | inl hit ↦ (y, rw hit refl)
  | inr miss ↦ elim (Option-cases (position p ys)) [
    | inl nothing ↦ absurd (ground arith)
    | inr (j, place) ↦ let (x, e) = find-position p ys j place in (x, rw miss e)
  ]
]

module _ (test : RequestRecord → Bool) where
  -- The head of a queue is the first request in it that passes.
  head-some :
      (name : String) (queue : List RequestRecord) (x : RequestRecord)
      → find test queue ≡ some x
      → (i : ℕ) × (rest : List RequestRecord) × (remove_idx queue i ≡ some (x, rest))
        × (head_of_queue test name queue
            ≡ some (record { provider = name; index = i; queued_at = x.queued_at }))
  unfolding head_of_queue
  head-some name queue x h =
      let (i, rest, place, here, taken) = position-find test queue x h in
      (i, rest, taken, ground arith)

  head-find :
      (name : String) (queue : List RequestRecord) (b : Best)
      → head_of_queue test name queue ≡ some b
      → (x : RequestRecord) × (find test queue ≡ some x)
  unfolding head_of_queue
  head-find name queue b h = elim (Option-cases (position test queue)) [
    | inl nothing ↦ absurd (ground arith)
    | inr (i, place) ↦ find-position test queue i place
  ]

  -- A scan that starts from a request ends with one that is no younger.
  improve-old :
      (old : Best) (head : Option Best)
      → (b : Best) × (improve (some old) head ≡ some b) × (b.queued_at ≤ old.queued_at)
  improve-old old none = (old, refl, omega arith)
  improve-old old (some b) = elim (Bool-cases (ltb b.queued_at old.queued_at)) [
    | inl earlier ↦ (b, rw earlier refl, ground arith)
    | inr later ↦ (old, rw later refl, omega arith)
  ]

  improve-head :
      (best : Option Best) (head : Best)
      → (b : Best) × (improve best (some head) ≡ some b) × (b.queued_at ≤ head.queued_at)
  improve-head none head = (head, refl, omega arith)
  improve-head (some old) head = elim (Bool-cases (ltb head.queued_at old.queued_at)) [
    | inl earlier ↦ (head, rw earlier refl, omega arith)
    | inr later ↦ (old, rw later refl, ground arith)
  ]

  scan-old :
      (old : Best) (queues : HashMap String (List RequestRecord))
      → (b : Best) × (scan_queues test (some old) queues ≡ some b) × (b.queued_at ≤ old.queued_at)
  unfolding scan_queues
  scan-old old [] = (old, refl, omega arith)
  scan-old old ((name, queue) ∷ queues) =
      let (next, e, le) = improve-old old (head_of_queue test name queue) in
      let (b, run, le') = scan-old next queues in
      (b, ap (λ o. scan_queues test o queues) e ∙ run, omega (arith, le, le'))

  scan-oldest :
      (best : Option Best) (queues : HashMap String (List RequestRecord)) (provider : String)
      (x : RequestRecord)
      → find test (unwrap_or (HashMap.get provider queues) []) ≡ some x
      → (b : Best) × (scan_queues test best queues ≡ some b) × (b.queued_at ≤ x.queued_at)
  unfolding scan_queues HashMap.get
  scan-oldest best [] provider x h = absurd (cc)
  scan-oldest best ((name, queue) ∷ queues) provider x h = elim (Bool-cases (name == provider)) [
    | inr other ↦
        scan-oldest (improve best (head_of_queue test name queue)) queues provider x (rw other at h)
    | inl same ↦
        let (i, rest, taken, head) = head-some name queue x (rw same at h) in
        let (next, e, le) =
          improve-head best (record { provider = name; index = i; queued_at = x.queued_at }) in
        let (b, run, le') = scan-old next queues in
        (
          b,
          ap (λ o. scan_queues test (improve best o) queues) head
              ∙ ap (λ o. scan_queues test o queues) e
              ∙ run,
          omega (arith, le, le'),
        )
  ]

  module _ (m : HashMap String (List RequestRecord)) where
    -- The request that is remembered is the first of its queue that passes, with its time.
    abbrev IsHead : Best → Type 0
    IsHead b =
        (queue : List RequestRecord) × (x : RequestRecord) × (rest : List RequestRecord)
        × (HashMap.get b.provider m ≡ some queue)
        × (find test queue ≡ some x)
        × (b.queued_at ≡ x.queued_at)
        × (remove_idx queue b.index ≡ some (x, rest))

    abbrev AllHead : Option Best → Type 0
    AllHead none = Unit
    AllHead (some b) = IsHead b

    head-AllHead :
        (name : String) (queue : List RequestRecord)
        → HashMap.get name m ≡ some queue
        → AllHead (head_of_queue test name queue)
    head-AllHead name queue found = elim (Option-cases (head_of_queue test name queue)) [
      | inl nothing ↦ rw nothing tt
      | inr (b, e) ↦
          let (x, first) = head-find name queue b e in
          let (i, rest, taken, head) = head-some name queue x first in
          rw head (queue, x, rest, found, first, refl, taken)
    ]

    improve-AllHead :
        (best head : Option Best) → AllHead best → AllHead head → AllHead (improve best head)
    improve-AllHead best none b h = b
    improve-AllHead none (some head) b h = h
    improve-AllHead (some old) (some head) b h =
        elim (Bool-cases (ltb head.queued_at old.queued_at)) [
          | inl earlier ↦ rw earlier h
          | inr later ↦ rw later b
        ]

    scan-AllHead :
        (best : Option Best) (queues : HashMap String (List RequestRecord))
        → AllHead best
        → HashMap.FoundIn m queues
        → AllHead (scan_queues test best queues)
    unfolding scan_queues
    scan-AllHead best [] b found = b
    scan-AllHead best ((name, queue) ∷ queues) b (here, found) =
        scan-AllHead (improve best (head_of_queue test name queue)) queues
          (improve-AllHead best (head_of_queue test name queue) b (head-AllHead name queue here))
          found

takes :
    (m : HashMap String (List RequestRecord)) (b : Best) (queue rest : List RequestRecord)
    (q : RequestRecord)
    → HashMap.get b.provider m ≡ some queue
    → remove_idx queue b.index ≡ some (q, rest)
    → take_best m (some b) ≡ some (q, HashMap.insert b.provider rest m)
unfolding take_best
takes m b queue rest q own taken = ground (arith, own, taken)

has_room :
    (c : ProxyServerCore) (id : String) (w : WorkerState)
    → HashMap.get id c.workers ≡ some w
    → w.is_draining ≡ false
    → has_capacity w ≡ true
    → worker_has_capacity c id ≡ true
unfolding worker_has_capacity
has_room c id w found active free = ground arith

dispatches :
    (c : ProxyServerCore) (id : String) (w : WorkerState) (b : Best) (q : RequestRecord)
    (queues : HashMap String (List RequestRecord))
    → HashMap.get id c.workers ≡ some w
    → worker_has_capacity c id ≡ true
    → scan_queues (compatible w) none c.provider_queues ≡ some b
    → take_best c.provider_queues (some b) ≡ some (q, queues)
    → dispatch_next_compatible c id ≡ (
      assign_to_worker (record c { provider_queues = queues }) id q,
      some (record { request_id = q.request_id; worker_id = id }),
    )
unfolding dispatch_next_compatible
dispatches c id w b q queues found free run best =
    rw (found, dispatch_next_compatible, free, run, best) refl

-- A registered worker that does not drain and has room, and a request `x` that is the first in some
-- provider's queue that it can take, in a map of queues that has each key once. Then a dispatch puts
-- in flight on the worker a request that is itself the first in some queue that the worker can take,
-- and that has waited at least as long as `x`.
pub dispatch_takes_oldest :
    (c : ProxyServerCore) (id provider : String) (w : WorkerState) (x : RequestRecord)
    → HashMap.get id c.workers ≡ some w
    → w.is_draining ≡ false
    → has_capacity w ≡ true
    → HashMap.UniqueKeys c.provider_queues
    → find (compatible w) (queue_of c provider) ≡ some x
    → (q : RequestRecord) × (own : String) × ((dispatch_next_compatible c id).1
        ≡ some (record { request_id = q.request_id; worker_id = id }))
      × (HashMap.get q.request_id (dispatch_next_compatible c id).0.active_requests
          ≡ some (ActiveRequestState.in_flight q id none))
      × (find (compatible w) (queue_of c own) ≡ some q)
      × (q.queued_at ≤ x.queued_at)
unfolding assign_to_worker
dispatch_takes_oldest c id provider w x found active free unique first =
    let test = compatible w in
    let (b, run, le) = scan-oldest test none c.provider_queues provider x first in
    let (queue, q, rest, own, head, same, taken) = subst (AllHead test c.provider_queues) run (
      scan-AllHead test c.provider_queues none c.provider_queues tt
        (HashMap.entries-FoundIn c.provider_queues unique)) in
    let queues = HashMap.insert b.provider rest c.provider_queues in
    let e =
      dispatches c id w b q (HashMap.insert b.provider rest c.provider_queues) found
        (has_room c id w found active free) run
        (takes c.provider_queues b queue rest q own taken) in
    (
      q,
      b.provider,
      ap (λ r. r.1) e,
      ap (λ r. HashMap.get q.request_id r.0.active_requests) e
          ∙ HashMap.get-insert_self q.request_id (ActiveRequestState.in_flight q id none)
              c.active_requests,
      ap (λ o. find test (unwrap_or o [])) own ∙ head,
      omega (arith, le, same),
    )
