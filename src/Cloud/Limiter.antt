-- ===== src/Cloud/Limiter.antt =====
-- crates/modelrelay-cloud/src/state.rs: `RateLimiter`, which counts the failed logins of an address.
-- The clock's reading is an argument.
pub mod Window
use llm_worker_proxy.Shared.{
  ℕ, ◌-◌, Bool, false, String, List, [], ◌∷◌, ◌++◌, Option, none, some, ltb, leb, length, retain,
  unwrap_or, string_eq,
}
use llm_worker_proxy.Shared.HashMap
use llm_worker_proxy.Shared.HashMap.{HashMap}
use llm_worker_proxy.Core.State.{Instant, Duration}

-- An address is a text.
pub record RateLimiter : Type 0 where
  pub attempts : HashMap String (List Instant)
  pub max_attempts : ℕ
  pub window : Duration

abbrev pub new_limiter : ℕ → Duration → RateLimiter
new_limiter max_attempts window = record {
  attempts = [];
  max_attempts = max_attempts;
  window = window;
}

-- `timestamps.retain(|t| now.duration_since(*t) < self.window)`.
abbrev pub recent : Duration → Instant → List Instant → List Instant
recent window now timestamps = retain (λ t. ltb (now - t) window) timestamps

unfoldable pub is_limited : RateLimiter → Instant → String → RateLimiter × Bool
is_limited l now ip = elim (HashMap.get ip l.attempts) [
  | none ↦ (l, false)
  | some timestamps ↦
      let kept : List Instant = recent l.window now timestamps in
      (record l { attempts = HashMap.insert ip kept l.attempts }, leb l.max_attempts (length kept))
]

unfoldable pub record_attempt : RateLimiter → Instant → String → RateLimiter
record_attempt l now ip =
    let timestamps : List Instant = unwrap_or (HashMap.get ip l.attempts) [] in
    record l {
      attempts = HashMap.insert ip (recent l.window now timestamps ++ now ∷ []) l.attempts;
    }
