-- ===== src/Daemon/Reconnect/Closed.antt =====
-- The waits between sessions, against a closed form.
use llm_worker_proxy.Shared.{
  ℕ, suc, ◌+◌, ◌*◌, ◌^◌, ◌≡◌, refl, ap, ◌∙◌, min, inl, inr, Bool, true, false, Bool-cases, String,
  List, [], ◌∷◌, Result, ok, err, arith, ltb, if◌then◌else◌,
}
use llm_worker_proxy.Daemon.Reconnect.{
  Reconnect, SessionEnd, first_attempt, reconnect, reconnect_by, waits, backoff_after,
  subsecond_jitter_ms,
}

-- One second, doubled with each failure in a row, up to 30 seconds.
abbrev pub doubled : ℕ → ℕ
doubled k = min (1_000 * 2 ^ k) 30_000

-- The failures in a row that count behind a session: none behind a shutdown of the server, and those
-- before a session of more than a minute are forgotten.
abbrev pub failures_before : ℕ → SessionEnd → ℕ
failures_before k e = if ltb 60 e.session_secs then 0 else k

abbrev pub expected_by : ℕ → SessionEnd → Result Bool String → ℕ × ℕ
expected_by k e (ok true) = (0, 2_000 + subsecond_jitter_ms e.subsec_millis)
expected_by k e (ok false) =
    (suc (failures_before k e), doubled (failures_before k e) + subsecond_jitter_ms e.subsec_millis)
expected_by k e (err error) =
    (suc (failures_before k e), doubled (failures_before k e) + subsecond_jitter_ms e.subsec_millis)

-- The waits behind `k` failures in a row.
unfoldable pub expected_waits : ℕ → List SessionEnd → List ℕ
expected_waits k [] = []
expected_waits k (e ∷ es) = let (k', wait) = expected_by k e e.result in wait ∷ expected_waits k' es

-- The back-off stands for the failures in a row.
abbrev Counts : ℕ → Reconnect → Type 0
Counts k r = r.backoff_ms ≡ doubled k

backoff-Counts :
    (k : ℕ) (r : Reconnect) (e : SessionEnd)
    → Counts k r
    → backoff_after r e.session_secs ≡ doubled (failures_before k e)
backoff-Counts k r e counts = elim (Bool-cases (ltb 60 e.session_secs)) [
  | inl long ↦ rw long refl
  | inr short ↦ rw short counts
]

doubled-suc : (k : ℕ) → min (doubled k * 2) 30_000 ≡ doubled (suc k)
doubled-suc k = omega arith

step-Counts :
    (k : ℕ) (r : Reconnect) (e : SessionEnd) (result : Result Bool String)
    → Counts k r
    → Counts (expected_by k e result).0 (reconnect_by r e result).0
      × ((reconnect_by r e result).1 ≡ (expected_by k e result).1)
step-Counts k r e (ok true) counts = (refl, refl)
step-Counts k r e (ok false) counts =
    let b = backoff-Counts k r e counts in
    (
      ap (λ n. min (n * 2) 30_000) b ∙ doubled-suc (failures_before k e),
      ap (λ n. n + subsecond_jitter_ms e.subsec_millis) b,
    )
step-Counts k r e (err error) counts =
    let b = backoff-Counts k r e counts in
    (
      ap (λ n. min (n * 2) 30_000) b ∙ doubled-suc (failures_before k e),
      ap (λ n. n + subsecond_jitter_ms e.subsec_millis) b,
    )

waits-Counts :
    (k : ℕ) (r : Reconnect) (es : List SessionEnd) → Counts k r → waits r es ≡ expected_waits k es
unfolding waits expected_waits reconnect
waits-Counts k r [] counts = refl
waits-Counts k r (e ∷ es) counts =
    let (next, wait) = step-Counts k r e e.result counts in
    ap (λ w. w ∷ waits (reconnect r e).0 es) wait
    ∙ ap (λ ws. (expected_by k e e.result).1 ∷ ws)
        (waits-Counts (expected_by k e e.result).0 (reconnect r e).0 es next)

-- However the sessions end, the daemon's waits are those of the closed form: behind `k` failures in
-- a row `1000 * 2 ^ k` milliseconds, 30 seconds at most, where a session of more than a minute starts
-- the count anew; behind a shutdown of the server two seconds, and no failure counts any more; and the
-- jitter each time.
pub waits_exact : (es : List SessionEnd) → waits first_attempt es ≡ expected_waits 0 es
waits_exact es = waits-Counts 0 first_attempt es refl
