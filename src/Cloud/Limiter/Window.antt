-- ===== src/Cloud/Limiter/Window.antt =====
-- The limiter against the history of its calls.
use llm_worker_proxy.Shared.{
  ℕ, ◌+◌, ◌-◌, ◌≤◌, ◌≡◌, refl, ap, ◌∙◌, inl, inr, arith, Bool, true, ◌&&◌, String, List, [], ◌∷◌,
  ◌++◌, ltb, leb, length, unwrap_or, string_eq, ◌==◌, ==_iff, if◌then◌else◌, Option-cases,
}
use llm_worker_proxy.Shared.HashMap
use llm_worker_proxy.Core.State.{Instant, Duration}
use llm_worker_proxy.Cloud.Limiter.{RateLimiter, new_limiter, recent, is_limited, record_attempt}

-- A call and its time.
pub data LimiterCall : Type 0 where
  check failed : Instant → String → LimiterCall

abbrev pub limiter_call : RateLimiter → LimiterCall → RateLimiter
limiter_call l (LimiterCall.check now ip) = (is_limited l now ip).0
limiter_call l (LimiterCall.failed now ip) = record_attempt l now ip

-- The limiter behind the calls, the latest first.
unfoldable pub limiter_run : ℕ → Duration → List LimiterCall → RateLimiter
limiter_run max_attempts window [] = new_limiter max_attempts window
limiter_run max_attempts window (call ∷ calls) =
    limiter_call (limiter_run max_attempts window calls) call

-- The failed attempts of an address that are younger than the window.
unfoldable pub failures_in : Duration → Instant → String → List LimiterCall → ℕ
failures_in window now ip [] = 0
failures_in window now ip (LimiterCall.check t other ∷ calls) = failures_in window now ip calls
failures_in window now ip (LimiterCall.failed t other ∷ calls) =
    (if other == ip && ltb (now - t) window then 1 else 0) + failures_in window now ip calls

abbrev pub time_of : LimiterCall → Instant
time_of (LimiterCall.check now ip) = now
time_of (LimiterCall.failed now ip) = now

-- The clock never goes back: each call's time is at most the one behind it.
unfoldable pub in_order : Instant → List LimiterCall → Bool
in_order now [] = true
in_order now (call ∷ calls) = leb (time_of call) now && in_order (time_of call) calls

-- How many of the times are in the window.
young : Duration → Instant → List Instant → ℕ
young window now [] = 0
young window now (t ∷ ts) = (if ltb (now - t) window then 1 else 0) + young window now ts

length-recent :
    (window : Duration) (now : Instant) (ts : List Instant)
    → length (recent window now ts) ≡ young window now ts
unfolding young
length-recent window now [] = refl
length-recent window now (t ∷ ts) = ground (arith, length-recent window now ts)

young-append :
    (window : Duration) (now : Instant) (ts us : List Instant)
    → young window now (ts ++ us) ≡ young window now ts + young window now us
unfolding young
young-append window now [] us = omega arith
young-append window now (t ∷ ts) us = omega (arith, young-append window now ts us)

-- What is dropped at one time is not young later.
young-recent :
    (window : Duration) (now later : Instant) (ts : List Instant)
    → now ≤ later
    → young window later (recent window now ts) ≡ young window later ts
unfolding young
young-recent window now later [] h = refl
young-recent window now later (t ∷ ts) h = ground (arith, young-recent window now later ts h)

abbrev times_of : RateLimiter → String → List Instant
times_of l ip = unwrap_or (HashMap.get ip l.attempts) []

young-check :
    (l : RateLimiter) (window : Duration) (now later : Instant) (other ip : String)
    → l.window ≡ window
    → now ≤ later
    → young window later (times_of (is_limited l now other).0 ip)
      ≡ young window later (times_of l ip)
unfolding is_limited young
young-check l window now later other ip same h =
    elim (Option-cases (HashMap.get other l.attempts)) [
      | inl unknown ↦ ground arith
      | inr (ts, known) ↦ ground (
        arith,
        HashMap.get-insert other ip (recent l.window now ts) l.attempts,
        ==_iff other ip,
        young-recent window now later ts h,
      )
    ]

young-failed :
    (l : RateLimiter) (window : Duration) (now later : Instant) (other ip : String)
    → l.window ≡ window
    → now ≤ later
    → young window later (times_of (record_attempt l now other) ip)
      ≡ (if other == ip && ltb (later - now) window then 1 else 0)
        + young window later (times_of l ip)
unfolding record_attempt young
young-failed l window now later other ip same h = ground (
  arith,
  HashMap.get-insert other ip (recent l.window now (times_of l other) ++ now ∷ []) l.attempts,
  ==_iff other ip,
  young-append window later (recent l.window now (times_of l other)) (now ∷ []),
  young-recent window now later (times_of l other) h,
)

in_order-later :
    (t now : Instant) (calls : List LimiterCall)
    → t ≤ now
    → in_order t calls ≡ true
    → in_order now calls ≡ true
unfolding in_order
in_order-later t now [] h ordered = refl
in_order-later t now (call ∷ calls) h ordered = ground arith

record Same (max_attempts : ℕ) (window : Duration) (l : RateLimiter) : Type 0 where
  same_max : l.max_attempts ≡ max_attempts
  same_window : l.window ≡ window

run-Same :
    (max_attempts : ℕ) (window : Duration) (calls : List LimiterCall)
    → Same max_attempts window (limiter_run max_attempts window calls)
unfolding limiter_run is_limited record_attempt
run-Same m window [] = record { same_max = refl; same_window = refl }
run-Same m window (LimiterCall.failed now ip ∷ calls) =
    let same = run-Same m window calls in
    record { same_max = same.same_max; same_window = same.same_window }
run-Same m window (LimiterCall.check now ip ∷ calls) =
    let same = run-Same m window calls in
    record {
      same_max = ground (arith, same.same_max);
      same_window = ground (arith, same.same_window);
    }

run-young :
    (m : ℕ) (window : Duration) (calls : List LimiterCall) (now : Instant) (ip : String)
    → in_order now calls ≡ true
    → young window now (times_of (limiter_run m window calls) ip) ≡ failures_in window now ip calls
unfolding limiter_run failures_in in_order young HashMap.get
run-young m window [] now ip ordered = refl
run-young m window (LimiterCall.check t other ∷ calls) now ip ordered =
    young-check (limiter_run m window calls) window t now other ip
      (run-Same m window calls).same_window (ground arith)
    ∙ run-young m window calls now ip (in_order-later t now calls (ground arith) (ground arith))
run-young m window (LimiterCall.failed t other ∷ calls) now ip ordered =
    young-failed (limiter_run m window calls) window t now other ip
      (run-Same m window calls).same_window (ground arith)
    ∙ ap (λ n. (if other == ip && ltb (now - t) window then 1 else 0) + n)
        (run-young m window calls now ip (in_order-later t now calls (ground arith) (ground arith)))

is_limited_lem :
    (l : RateLimiter) (now : Instant) (ip : String)
    → 1 ≤ l.max_attempts
    → (is_limited l now ip).1 ≡ leb l.max_attempts (young l.window now (times_of l ip))
unfolding is_limited young
is_limited_lem l now ip some_allowed = elim (Option-cases (HashMap.get ip l.attempts)) [
  | inl unknown ↦ ground arith
  | inr (ts, known) ↦ ground (arith, length-recent l.window now ts)
]

-- With a limit of one at least and a clock that never goes back, an address is limited behind any
-- history of calls exactly if the history has, within the window, as many failed attempts of that
-- address as the limit: no check, no other address and no clean-up of old attempts counts.
pub limited_by_recent_failures :
    (max_attempts : ℕ) (window : Duration) (calls : List LimiterCall) (now : Instant) (ip : String)
    → 1 ≤ max_attempts
    → in_order now calls ≡ true
    → (is_limited (limiter_run max_attempts window calls) now ip).1
      ≡ leb max_attempts (failures_in window now ip calls)
limited_by_recent_failures m window calls now ip some_allowed ordered =
    let same = run-Same m window calls in
    is_limited_lem (limiter_run m window calls) now ip (omega (arith, same.same_max))
    ∙ ap {A = ℕ × Duration}
        (λ r. leb r.0 (young r.1 now (times_of (limiter_run m window calls) ip)))
        (ap (λ k. (k, (limiter_run m window calls).window)) same.same_max
          ∙ ap (λ k. (m, k)) same.same_window)
    ∙ ap (leb m) (run-young m window calls now ip ordered)
