-- ===== src/Daemon/Reconnect.antt =====
-- crates/modelrelay-worker/src/lib.rs: `run_with_reconnect`, the loop over sessions, with its waits.
-- Times are in milliseconds but for a session's length, in whole seconds. The `u32` count of attempts
-- stays below its maximum.
pub mod Closed
use llm_worker_proxy.Shared.{
  ℕ, ◌+◌, ◌*◌, ◌%◌, min, Bool, true, false, String, List, [], ◌∷◌, if◌then◌else◌, ltb, Result, ok,
  err,
}
use llm_worker_proxy.Core.State.{from_secs}

-- `subsec_millis() % 500`.
abbrev pub subsecond_jitter_ms : ℕ → ℕ
subsecond_jitter_ms subsec_millis = subsec_millis % 500

pub record Reconnect : Type 0 where
  pub backoff_ms : ℕ
  pub attempt : ℕ

abbrev pub first_attempt : Reconnect
first_attempt = record { backoff_ms = 1_000; attempt = 0 }

-- How a session ended, how long it ran, and the clock's milliseconds behind it.
pub record SessionEnd : Type 0 where
  pub result : Result Bool String
  pub session_secs : ℕ
  pub subsec_millis : ℕ

-- A session longer than the idle timeout sets the back-off back.
abbrev pub backoff_after : Reconnect → ℕ → ℕ
backoff_after r session_secs = if ltb 60 session_secs then 1_000 else r.backoff_ms

abbrev pub back_off : Reconnect → SessionEnd → Reconnect × ℕ
back_off r e =
    let backoff_ms = backoff_after r e.session_secs in
    (
      record { backoff_ms = min (backoff_ms * 2) 30_000; attempt = r.attempt + 1 },
      backoff_ms + subsecond_jitter_ms e.subsec_millis,
    )

-- The next state and the wait.
abbrev pub reconnect_by : Reconnect → SessionEnd → Result Bool String → Reconnect × ℕ
reconnect_by r e (ok true) = (
  record { backoff_ms = 1_000; attempt = r.attempt + 1 },
  2_000 + subsecond_jitter_ms e.subsec_millis,
)
reconnect_by r e (ok false) = back_off r e
reconnect_by r e (err error) = back_off r e

unfoldable pub reconnect : Reconnect → SessionEnd → Reconnect × ℕ
reconnect r e = reconnect_by r e e.result

-- The waits of the loop, one behind each session.
unfoldable pub waits : Reconnect → List SessionEnd → List ℕ
waits r [] = []
waits r (e ∷ es) = let (r', wait) = reconnect r e in wait ∷ waits r' es
