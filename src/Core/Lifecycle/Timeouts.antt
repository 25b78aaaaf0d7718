-- ===== src/Core/Lifecycle/Timeouts.antt =====
-- What the queue timeouts take out of the queues, and what they report.
use mathlib.Core.Bool.{true≢false}
use llm_worker_proxy.Shared.{
  leb→le, ℕ, ◌≤◌, ◌<◌, ◌-◌, ◌≡◌, refl, sym, ap, ◌∙◌, subst, true, not, String, List, [], ◌∷◌, none,
  some, inl, inr, ◌⊎◌, arith, Bool-cases, string_eq, ◌==◌, ==_iff, ◌*◌, Member, retain,
  Member-retain, retain-Member, map, leb, Member-append_left, Member-append_right,
}
use llm_worker_proxy.Shared.HashMap
use llm_worker_proxy.Shared.HashMap.{HashMap}
use mathlib.Core.Option
use llm_worker_proxy.Core.State.{
  ProxyServerCore, RequestRecord, ActiveRequestState, Instant, RequestFailureReason,
  ProviderQueuePolicy,
}
use llm_worker_proxy.Core.Responses.{fail_pending_http_response}
use llm_worker_proxy.Core.Responses.Frame.{with_responses, fail_pending-responses}
use llm_worker_proxy.Core.Lifecycle.{
  is_expired, is_expired_in, expired_requests, retained_queues, forget_requests, fail_senders,
  expire_queue_timeouts,
}

get-retained :
    (now : Instant) (policies : HashMap String ProviderQueuePolicy)
    (queues : HashMap String (List RequestRecord)) (p : String)
    → HashMap.get p (retained_queues now policies queues)
      ≡ Option.map (retain (λ q. not (is_expired_in now policies p q))) (HashMap.get p queues)
unfolding retained_queues HashMap.get
get-retained now policies [] p = refl
get-retained now policies ((j, queue) ∷ queues) p = elim (Bool-cases (j == p)) [
  | inl hit ↦ rw hit (
      ap (λ k. some (retain (λ q. not (is_expired_in now policies k q)) queue))
        ((==_iff j p).0 hit))
  | inr miss ↦ rw miss (get-retained now policies queues p)
]

-- An expired request of a queue is among the expired ones.
expired-Member :
    (now : Instant) (policies : HashMap String ProviderQueuePolicy)
    (queues : HashMap String (List RequestRecord)) (p : String) (q : RequestRecord)
    {queue : List RequestRecord}
    → HashMap.get p queues ≡ some queue
    → Member q queue
    → is_expired_in now policies p q ≡ true
    → Member q (expired_requests now policies queues)
unfolding expired_requests HashMap.get
expired-Member now policies [] p q found m expired = absurd (cc)
expired-Member now policies ((j, head) ∷ queues) p q {queue} found m expired =
    elim (Bool-cases (j == p)) [
      | inl hit ↦
          let e : head ≡ queue = ground arith in
          Member-append_left q _ _ (
            retain-Member (is_expired_in now policies j) q head (subst (Member q) (sym e) m)
              (ap (λ k. is_expired_in now policies k q) ((==_iff j p).0 hit) ∙ expired))
      | inr miss ↦
          Member-append_right q (retain (is_expired_in now policies j) head) _
            (expired-Member now policies queues p q {queue = queue} (ground arith) m expired)
    ]

Member-map :
    {A : Type 0} {B : Type 0} (f : A → B) (a : A) (xs : List A)
    → Member a xs
    → Member (f a) (map f xs)
Member-map f a [] m = elim m [ ]
Member-map f a (x ∷ xs) (inl e) = inl (ap f e)
Member-map f a (x ∷ xs) (inr m) = inr (Member-map f a xs m)

get-forget_none :
    (active : HashMap String ActiveRequestState) (ids : List String) (id : String)
    → HashMap.get id active ≡ none
    → HashMap.get id (forget_requests active ids) ≡ none
unfolding forget_requests
get-forget_none active [] id h = h
get-forget_none active (j ∷ ids) id h =
    get-forget_none (HashMap.remove j active) ids id
      (ground (arith, HashMap.get-remove j id active))

get-forget :
    (active : HashMap String ActiveRequestState) (ids : List String) (id : String)
    → Member id ids
    → HashMap.get id (forget_requests active ids) ≡ none
unfolding forget_requests
get-forget active [] id m = elim m [ ]
get-forget active (j ∷ ids) id (inl e) = get-forget_none (HashMap.remove j active) ids id (
    subst (λ k. HashMap.get k (HashMap.remove j active) ≡ none) (sym e)
      (HashMap.get-remove_self j active))
get-forget active (j ∷ ids) id (inr m) = get-forget (HashMap.remove j active) ids id m

fail_senders-responses :
    (reason : RequestFailureReason) (c : ProxyServerCore) (ids : List String)
    → fail_senders reason c ids ≡ with_responses c (fail_senders reason c ids)
unfolding fail_senders
fail_senders-responses reason c [] = refl
fail_senders-responses reason c (id ∷ ids) =
    fail_senders-responses reason (fail_pending_http_response c id reason) ids
    ∙ ap (λ d. with_responses d (fail_senders reason (fail_pending_http_response c id reason) ids))
        (fail_pending-responses c id reason)

is_expired_in_lem :
    (now : Instant) (policies : HashMap String ProviderQueuePolicy) (p : String) (secs : ℕ)
    (policy : ProviderQueuePolicy) (q : RequestRecord)
    → HashMap.get p policies ≡ some policy
    → policy.queue_timeout_ticks ≡ some secs
    → is_expired_in now policies p q ≡ leb (secs * 1_000_000_000) (now - q.queued_at)
unfolding is_expired
is_expired_in_lem now policies p secs policy q policy_p timeout = ground arith

-- `expire_queue_timeouts` over a provider with a timeout of `secs` seconds: a queued request that
-- has waited at least so long leaves the queue, is reported as timed out and is forgotten; any other
-- stays in the queue.
pub expire_queues_exact :
    (c : ProxyServerCore) (now : Instant) (p : String) (secs : ℕ) (policy : ProviderQueuePolicy)
    (queue : List RequestRecord) (q : RequestRecord)
    → HashMap.get p c.provider_queue_policies ≡ some policy
    → policy.queue_timeout_ticks ≡ some secs
    → HashMap.get p c.provider_queues ≡ some queue
    → Member q queue
    → (kept : List RequestRecord) × (HashMap.get p (expire_queue_timeouts c now).0.provider_queues
        ≡ some kept)
      × (((secs * 1_000_000_000 ≤ now - q.queued_at)
            × (¬ Member q kept)
            × Member
                (record {
                  request_id = q.request_id;
                  reason = RequestFailureReason.queue_timed_out;
                })
                (expire_queue_timeouts c now).1
            × (HashMap.get q.request_id (expire_queue_timeouts c now).0.active_requests ≡ none))
          ⊎ ((now - q.queued_at < secs * 1_000_000_000) × Member q kept))
unfolding expire_queue_timeouts
expire_queues_exact c now p secs policy queue q policy_p timeout queue_p m =
    let policies = c.provider_queue_policies in
    let ids = map (λ r. r.request_id) (expired_requests now policies c.provider_queues) in
    let d = record c {
      provider_queues = retained_queues now policies c.provider_queues;
      active_requests = forget_requests c.active_requests ids;
    } in
    let frame = fail_senders-responses RequestFailureReason.queue_timed_out d ids in
    let test = is_expired_in_lem now policies p secs policy q policy_p timeout in
    let kept = retain (λ r. not (is_expired_in now policies p r)) queue in
    (
      kept,
      ap (λ s. HashMap.get p s.provider_queues) frame
          ∙ get-retained now policies c.provider_queues p
          ∙ ap (Option.map (retain (λ r. not (is_expired_in now policies p r)))) queue_p,
      elim (Bool-cases (is_expired_in now policies p q)) [
        | inl expired ↦
            let listed = expired-Member now policies c.provider_queues p q queue_p m expired in
            let known = Member-map (λ r. r.request_id) q _ listed in
            inl (
              leb→le _ _ (sym test ∙ expired),
              (λ inside.
                  let out =
                    (Member-retain (λ r. not (is_expired_in now policies p r)) q queue inside).1 in
                  true≢false (sym out ∙ ap not expired)),
              Member-map
                  (λ id. record { request_id = id; reason = RequestFailureReason.queue_timed_out })
                  q.request_id ids known,
              ap (λ s. HashMap.get q.request_id s.active_requests) frame
                  ∙ get-forget c.active_requests ids q.request_id known,
            )
        | inr waits ↦ inr (
          (let h = sym test ∙ waits in ground arith),
          retain-Member (λ r. not (is_expired_in now policies p r)) q queue m (ap not waits),
        )
      ],
    )
