-- ===== src/Core/Lifecycle/Requeue.antt =====
-- What `disconnect_worker` does with each request of the worker.
use llm_worker_proxy.Shared.{
  Distinct, ◌≡◌, refl, sym, ap, subst, ◌∙◌, ◌≢◌, inl, inr, arith, String, List, [], ◌∷◌, Option,
  none, some, Bool-cases, Member, string_eq, ◌==◌, ==_iff, leb, if◌then◌else◌,
}
use llm_worker_proxy.Shared.HashMap
use llm_worker_proxy.Core.State.{
  ProxyServerCore, RequestRecord, ActiveRequestState, CancelReason, max_requeue_count,
}
use llm_worker_proxy.Core.Responses.Frame.{fail_pending-responses}
use llm_worker_proxy.Core.Lifecycle.{
  Fate, skip, fail, requeue, fate, fate_of, without_active, apply_fate, release_one,
  release_requests, Released, note_fate,
}

-- A request in flight is filed under its own id.
abbrev pub OwnIds : ProxyServerCore → Type 0
OwnIds c =
    (request_id worker_id : String) (q : RequestRecord) (cancellation : Option CancelReason)
    → HashMap.get request_id c.active_requests
      ≡ some (ActiveRequestState.in_flight q worker_id cancellation)
    → q.request_id ≡ request_id

-- What is left in `active_requests` of a request that is released.
abbrev pub left_by : Fate → Option ActiveRequestState
left_by (requeue q) = some (ActiveRequestState.queued q)
left_by (fail reason) = none
left_by skip = none

abbrev IsFor : String → Fate → Type 0
IsFor request_id (requeue q) = q.request_id ≡ request_id
IsFor request_id _ = Unit

fate_at-IsFor :
    (r : String) (s : Option ActiveRequestState)
    → ((q : RequestRecord) (worker_id : String) (cancellation : Option CancelReason)
        → s ≡ some (ActiveRequestState.in_flight q worker_id cancellation)
        → q.request_id ≡ r)
    → IsFor r (fate s)
unfolding fate
fate_at-IsFor r none own = tt
fate_at-IsFor r (some (ActiveRequestState.queued q)) own = tt
fate_at-IsFor r (some (ActiveRequestState.in_flight q worker_id (some earlier))) own = tt
fate_at-IsFor r (some (ActiveRequestState.in_flight q worker_id none)) own =
    elim (Bool-cases (leb max_requeue_count q.requeue_count)) [
      | inl often ↦ rw often tt
      | inr again ↦ rw again (own q worker_id none refl)
    ]

fate-IsFor : (c : ProxyServerCore) (r : String) → OwnIds c → IsFor r (fate_of c r)
fate-IsFor c r own =
    fate_at-IsFor r (HashMap.get r c.active_requests)
      (λ q worker_id cancellation h. own r worker_id q cancellation h)

get-apply_fate :
    (c : ProxyServerCore) (j r : String) (f : Fate)
    → IsFor j f
    → HashMap.get r (apply_fate c j f).active_requests
      ≡ (if j == r then left_by f else HashMap.get r c.active_requests)
unfolding apply_fate
get-apply_fate c j r skip own = HashMap.get-remove j r c.active_requests
get-apply_fate c j r (fail reason) own =
    ap (λ d. HashMap.get r d.active_requests) (fail_pending-responses (without_active c j) j reason)
    ∙ HashMap.get-remove j r c.active_requests
get-apply_fate c j r (requeue q) own = ground (
  arith,
  HashMap.get-insert q.request_id r (ActiveRequestState.queued q)
      (HashMap.remove j c.active_requests),
  HashMap.get-remove j r c.active_requests,
)

get-release_one :
    (c : ProxyServerCore) (j r : String)
    → OwnIds c
    → HashMap.get r (release_one c j).active_requests
      ≡ (if j == r then left_by (fate_of c j) else HashMap.get r c.active_requests)
unfolding release_one
get-release_one c j r own = get-apply_fate c j r (fate_of c j) (fate-IsFor c j own)

left_by-not_in_flight :
    (f : Fate) (q : RequestRecord) (worker_id : String) (cancellation : Option CancelReason)
    → left_by f ≢ some (ActiveRequestState.in_flight q worker_id cancellation)
left_by-not_in_flight skip q worker_id cancellation h = cc
left_by-not_in_flight (fail reason) q worker_id cancellation h = cc
left_by-not_in_flight (requeue r) q worker_id cancellation h = cc

release_one-OwnIds : (c : ProxyServerCore) (j : String) → OwnIds c → OwnIds (release_one c j)
release_one-OwnIds c j own r worker_id q cancellation h =
    let left = sym (get-release_one c j r own) ∙ h in
    elim (Bool-cases (j == r)) [
      | inl same ↦
          absurd (left_by-not_in_flight (fate_of c j) q worker_id cancellation (rw same at left))
      | inr other ↦ own r worker_id q cancellation (rw other at left)
    ]

-- A request that is not among the ids stays as it is.
get-release_requests :
    (c : ProxyServerCore) (ids : List String) (r : String)
    → OwnIds c
    → (¬ Member r ids)
    → HashMap.get r (release_requests c ids).0.active_requests ≡ HashMap.get r c.active_requests
unfolding release_requests
get-release_requests c [] r own away = refl
get-release_requests c (j ∷ ids) r own away =
    let apart : j ≢ r = λ e. away (inl (sym e)) in
    get-release_requests (release_one c j) ids r (release_one-OwnIds c j own) (λ m. away (inr m))
    ∙ get-release_one c j r own
    ∙ ground (arith, ==_iff j r)

-- The release of one request, as the state and the lists of the whole release tell it.
abbrev pub Noted : String → Fate → Released → Type 0
Noted r skip out = Unit
Noted r (fail reason) out = Member (record { request_id = r; reason = reason }) out.failed
Noted r (requeue q) out = Member q out.requeued

note_fate-Noted : (r : String) (f : Fate) (out : Released) → Noted r f (note_fate r f out)
note_fate-Noted r skip out = tt
note_fate-Noted r (fail reason) out = inl refl
note_fate-Noted r (requeue q) out = inl refl

note_fate-keeps :
    (r j : String) (f g : Fate) (out : Released) → Noted r f out → Noted r f (note_fate j g out)
note_fate-keeps r j skip g out noted = tt
note_fate-keeps r j (fail reason) skip out noted = noted
note_fate-keeps r j (fail reason) (fail other) out noted = inr noted
note_fate-keeps r j (fail reason) (requeue q) out noted = noted
note_fate-keeps r j (requeue q) skip out noted = noted
note_fate-keeps r j (requeue q) (fail other) out noted = noted
note_fate-keeps r j (requeue q) (requeue p) out noted = inr noted

pub release_requests_lem :
    (c : ProxyServerCore) (ids : List String) (r : String)
    → OwnIds c
    → Distinct ids
    → Member r ids
    → (HashMap.get r (release_requests c ids).0.active_requests ≡ left_by (fate_of c r))
      × Noted r (fate_of c r) (release_requests c ids).1
unfolding release_requests
release_requests_lem c [] r own distinct listed = elim listed [ ]
release_requests_lem c (j ∷ ids) r own (new, distinct) (inl e) = (
  get-release_requests (release_one c j) ids r (release_one-OwnIds c j own)
        (λ m. new (subst (λ x. Member x ids) e m))
      ∙ get-release_one c j r own
      ∙ ground (arith, ==_iff j r),
  subst (λ x. Noted x (fate_of c x) (release_requests c (j ∷ ids)).1) (sym e)
      (note_fate-Noted j (fate_of c j) (release_requests (release_one c j) ids).1),
)
release_requests_lem c (j ∷ ids) r own (new, distinct) (inr m) =
    let (left, noted) =
      release_requests_lem (release_one c j) ids r (release_one-OwnIds c j own) distinct m in
    let apart : j ≢ r = λ e. new (subst (λ x. Member x ids) (sym e) m) in
    let same : fate_of (release_one c j) r ≡ fate_of c r =
      ap fate (get-release_one c j r own ∙ ground (arith, ==_iff j r)) in
    (
      left ∙ ap left_by same,
      note_fate-keeps r j (fate_of c r) (fate_of c j) (release_requests (release_one c j) ids).1
          (subst (λ f. Noted r f (release_requests (release_one c j) ids).1) same noted),
    )
