-- ===== src/Cloud/Tests.antt =====
-- The theorems about the cloud service, applied to small inputs.
use llm_worker_proxy.Shared.{◌≡◌, refl, arith, true, List, [], ◌∷◌, leb, not}
use llm_worker_proxy.Shared.Text.{all_chars}
use llm_worker_proxy.Cloud.Escape.{html_escape, one_pass, is_markup, html_escape_is_one_pass}
use llm_worker_proxy.Cloud.Limiter.{is_limited}
use llm_worker_proxy.Cloud.Limiter.Window.{
  LimiterCall, limiter_run, failures_in, in_order, limited_by_recent_failures,
}

-- Two failures of `x`, one of them old, and one of `y`; the latest call first.
abbrev calls : List LimiterCall
calls =
    LimiterCall.check 95 "x"
    ∷ LimiterCall.failed 90 "x"
    ∷ LimiterCall.failed 80 "y"
    ∷ LimiterCall.failed 10 "x"
    ∷ []

limited_by_recent_failures_example :
    (is_limited (limiter_run 2 50 calls) 100 "x").1 ≡ leb 2 (failures_in 50 100 "x" calls)
unfolding in_order
limited_by_recent_failures_example =
    limited_by_recent_failures 2 50 calls 100 "x" (omega arith) refl

html_escape_is_one_pass_example :
    (html_escape "<a href='x'>&amp;" ≡ one_pass "<a href='x'>&amp;")
    × (all_chars (λ c. not (is_markup c)) (html_escape "<a href='x'>&amp;") ≡ true)
html_escape_is_one_pass_example = html_escape_is_one_pass "<a href='x'>&amp;"
