-- ===== src/Socket/Auth/Limits.antt =====
-- The rate limit: three failures in a row block a client for the cooldown.
use llm_worker_proxy.Shared.{
  ltb→lt, ◌+◌, ◌-◌, ◌≤◌, ◌<◌, ◌≡◌, refl, ◌∙◌, ◌⊎◌, inl, inr, arith, false, String, Option, none,
  some, Bool-cases, string_eq, ltb,
}
use llm_worker_proxy.Shared.HashMap
use llm_worker_proxy.Core.State.{Instant}
use llm_worker_proxy.Socket.Auth.{
  WorkerSocketState, WorkerConnectQuery, AuthOutcome, FailedAuthState, record_failed_auth,
  client_is_rate_limited, authenticate_connection, renewed, failed_again,
  close_reason_auth_rate_limited, auth_rate_limit_cooldown,
}

abbrev entry_of : WorkerSocketState → String → Option FailedAuthState
entry_of s client = HashMap.get client s.failed_auth_by_client

-- A failure that comes in time behind the last one, of a client that is not blocked, adds one.
entry-record_failed :
    (s : WorkerSocketState) (now : Instant) (client : String) (entry : FailedAuthState)
    → entry_of s client ≡ some entry
    → entry.blocked_until ≡ none
    → now - entry.last_failed_at ≤ auth_rate_limit_cooldown
    → entry_of (record_failed_auth s now client) client ≡ some (failed_again entry now)
unfolding record_failed_auth renewed
entry-record_failed s now client entry known free soon =
    HashMap.get-insert_self client _ s.failed_auth_by_client ∙ rw (known, free) (ground arith)

entry-first_failed :
    (s : WorkerSocketState) (now : Instant) (client : String)
    → entry_of s client ≡ none
    → entry_of (record_failed_auth s now client) client
      ≡ some (record { failures = 1; last_failed_at = now; blocked_until = none })
unfolding record_failed_auth renewed failed_again
entry-first_failed s now client unknown =
    HashMap.get-insert_self client _ s.failed_auth_by_client ∙ rw unknown (ground arith)

blocked-authenticate :
    (s : WorkerSocketState) (now later blocked_until : Instant) (client : String)
    (entry : FailedAuthState) (header : Option String) (query : WorkerConnectQuery)
    → entry_of s client ≡ some entry
    → entry.blocked_until ≡ some blocked_until
    → now < blocked_until
    → authenticate_connection s now later client header query
      ≡ (s, AuthOutcome.rejected close_reason_auth_rate_limited)
unfolding authenticate_connection client_is_rate_limited
blocked-authenticate s now later blocked_until client entry header query known until before =
    ground arith

-- Three failures of an unknown client, each within the cooldown behind the one before, block it:
-- until the cooldown behind the third is over, every attempt is rejected with the rate limit's
-- reason, whatever secret it presents, and changes nothing; from then on the limit lets it through.
pub three_failures_block :
    (s : WorkerSocketState) (first second third now later : Instant) (client : String)
    (header : Option String) (query : WorkerConnectQuery)
    → HashMap.get client s.failed_auth_by_client ≡ none
    → second - first ≤ auth_rate_limit_cooldown
    → third - second ≤ auth_rate_limit_cooldown
    → let d : WorkerSocketState =
        record_failed_auth
          (record_failed_auth (record_failed_auth s first client) second client)
          third
          client in
      ((now < third + auth_rate_limit_cooldown)
        × (authenticate_connection d now later client header query
            ≡ (d, AuthOutcome.rejected close_reason_auth_rate_limited)))
      ⊎ ((third + auth_rate_limit_cooldown ≤ now)
          × ((client_is_rate_limited d now client).1 ≡ false))
unfolding failed_again client_is_rate_limited
three_failures_block s first second third now later client header query unknown soon again =
    let s1 = record_failed_auth s first client in
    let one : FailedAuthState = record {
      failures = 1;
      last_failed_at = first;
      blocked_until = none;
    } in
    let two = failed_again one second in
    let s2 = record_failed_auth s1 second client in
    let known1 = entry-first_failed s first client unknown in
    let known2 = entry-record_failed s1 second client one known1 refl soon in
    let known3 = entry-record_failed s2 third client two known2 refl again in
    elim (Bool-cases (ltb now (third + auth_rate_limit_cooldown))) [
      | inl before ↦ inl (
        ltb→lt _ _ before,
        blocked-authenticate (record_failed_auth s2 third client) now later
            (third + auth_rate_limit_cooldown) client (failed_again two third) header query known3
            refl (ltb→lt _ _ before),
      )
      | inr over ↦ inr (ground arith, rw (known3, client_is_rate_limited) (ground arith))
    ]
