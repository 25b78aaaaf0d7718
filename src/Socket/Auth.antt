-- ===== src/Socket/Auth.antt =====
-- crates/modelrelay-server/src/worker_socket.rs: the authentication of a worker's connection, with a
-- rate limit for each client. The API key store is a parameter: whether `validate_key` returns
-- `Ok(Some(_))` for a secret. The comparison in constant time is an equality test. The count of
-- failures stays below the maximum of `u32`.
pub mod Limits
pub mod Sound
use llm_worker_proxy.Shared.{
  ℕ, ◌+◌, ◌-◌, Bool, true, false, ◌&&◌, ◌||◌, String, Option, none, some, ◌==◌, string_eq,
  if◌then◌else◌, ltb, leb, is_some_and, unwrap_or,
}
use llm_worker_proxy.Shared.HashMap
use llm_worker_proxy.Shared.HashMap.{HashMap}
use llm_worker_proxy.Core.State.{Instant, Duration}

abbrev pub close_reason_auth_failed : String
close_reason_auth_failed = "worker authentication failed"

abbrev pub close_reason_auth_rate_limited : String
close_reason_auth_rate_limited = "worker authentication temporarily rate limited"

abbrev pub auth_failure_threshold : ℕ
auth_failure_threshold = 3

-- 250 ms.
abbrev pub auth_rate_limit_cooldown : Duration
auth_rate_limit_cooldown = 250_000_000

pub record WorkerSocketProviderConfig : Type 0 where
  pub worker_secret : String
  pub enabled : Bool

pub record FailedAuthState : Type 0 where
  pub failures : ℕ
  pub last_failed_at : Instant
  pub blocked_until : Option Instant

-- The fields of `WorkerSocketState` that authentication uses.
pub record WorkerSocketState : Type 0 where
  pub providers : HashMap String WorkerSocketProviderConfig
  pub api_key_store : Option (String → Bool)
  pub failed_auth_by_client : HashMap String FailedAuthState

pub record WorkerConnectQuery : Type 0 where
  pub provider : Option String
  pub worker_secret : Option String

pub data AuthOutcome : Type 0 where
  authenticated : String → AuthOutcome
  rejected : String → AuthOutcome

abbrev pub with_failures : WorkerSocketState → HashMap String FailedAuthState → WorkerSocketState
with_failures s failed = record s { failed_auth_by_client = failed }

-- `client_is_rate_limited` on a known client.
abbrev pub is_blocked : FailedAuthState → Instant → Bool
is_blocked entry now = is_some_and entry.blocked_until (λ blocked_until. ltb now blocked_until)

abbrev pub is_stale : FailedAuthState → Instant → Bool
is_stale entry now = ltb auth_rate_limit_cooldown (now - entry.last_failed_at)

unfoldable pub client_is_rate_limited :
    WorkerSocketState → Instant → String → WorkerSocketState × Bool
client_is_rate_limited s now client = elim (HashMap.get client s.failed_auth_by_client) [
  | none ↦ (s, false)
  | some entry ↦
      if is_blocked entry now
      then (s, true)
      else if is_stale entry now
      then (with_failures s (HashMap.remove client s.failed_auth_by_client), false)
      else (s, false)
]

abbrev pub fresh_auth_state : Instant → FailedAuthState
fresh_auth_state now = record { failures = 0; last_failed_at = now; blocked_until = none }

-- The entry, or a fresh one if its block is over or its last failure is too long ago.
unfoldable pub renewed : FailedAuthState → Instant → FailedAuthState
renewed entry now =
    if is_some_and entry.blocked_until (λ blocked_until. leb blocked_until now)
      || is_stale entry now
    then fresh_auth_state now
    else entry

unfoldable pub failed_again : FailedAuthState → Instant → FailedAuthState
failed_again entry now = record {
  failures = entry.failures + 1;
  last_failed_at = now;
  blocked_until =
      if leb auth_failure_threshold (entry.failures + 1)
      then some (now + auth_rate_limit_cooldown)
      else entry.blocked_until;
}

unfoldable pub record_failed_auth : WorkerSocketState → Instant → String → WorkerSocketState
record_failed_auth s now client =
    let entry : FailedAuthState =
      unwrap_or (HashMap.get client s.failed_auth_by_client) (fresh_auth_state now) in
    with_failures s
      (HashMap.insert client (failed_again (renewed entry now) now) s.failed_auth_by_client)

unfoldable pub clear_failed_auth : WorkerSocketState → String → WorkerSocketState
clear_failed_auth s client = with_failures s (HashMap.remove client s.failed_auth_by_client)

-- The two tests of the secret: the provider's own, and the key store's.
unfoldable pub static_secret_matches : WorkerSocketState → String → String → Bool
static_secret_matches s provider secret =
    is_some_and (HashMap.get provider s.providers)
      (λ config. config.enabled && secret == config.worker_secret)

unfoldable pub api_key_matches : WorkerSocketState → String → Bool
api_key_matches s secret = is_some_and s.api_key_store (λ validates. validates secret)

unfoldable pub check_secret :
    WorkerSocketState → Instant → String → String → Option String → WorkerSocketState × AuthOutcome
check_secret s later client provider none = (s, AuthOutcome.rejected close_reason_auth_failed)
check_secret s later client provider (some secret) =
    if static_secret_matches s provider secret || api_key_matches s secret
    then (clear_failed_auth s client, AuthOutcome.authenticated provider)
    else (record_failed_auth s later client, AuthOutcome.rejected close_reason_auth_failed)

-- The secret of the header goes before the query's.
abbrev pub presented : Option String → WorkerConnectQuery → Option String
presented none query = query.worker_secret
presented (some secret) query = some secret

-- The clock is read twice: `now` for the rate limit, `later` for a failure.
unfoldable pub authenticate_connection :
    WorkerSocketState
    → Instant
    → Instant
    → String
    → Option String
    → WorkerConnectQuery
    → WorkerSocketState × AuthOutcome
authenticate_connection s now later client header query =
    let (s', limited) = client_is_rate_limited s now client in
    if limited
    then (s', AuthOutcome.rejected close_reason_auth_rate_limited)
    else check_secret s' later client (unwrap_or query.provider "local") (presented header query)
