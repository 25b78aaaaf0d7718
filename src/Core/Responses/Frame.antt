-- ===== src/Core/Responses/Frame.antt =====
-- What failing a pending response leaves alone.
use llm_worker_proxy.Shared.{◌≡◌, String, arith}
use llm_worker_proxy.Core.State.{ProxyServerCore, RequestFailureReason}
use llm_worker_proxy.Core.Responses.{fail_pending_http_response}

-- The state with other senders and deliveries.
abbrev pub with_responses : ProxyServerCore → ProxyServerCore → ProxyServerCore
with_responses c c' = record c {
  pending_http_response_senders = c'.pending_http_response_senders;
  delivered = c'.delivered;
}

pub fail_pending-responses :
    (c : ProxyServerCore) (id : String) (reason : RequestFailureReason)
    → fail_pending_http_response c id reason
      ≡ with_responses c (fail_pending_http_response c id reason)
unfolding fail_pending_http_response
fail_pending-responses c id reason = ground arith
