-- ===== src/Socket/Messages.antt =====
-- crates/modelrelay-server/src/worker_socket.rs: the messages of a registered worker, those that go
-- to it, and the end of its connection. A text message comes parsed: `none` stands for JSON that is
-- no message.
pub mod Complete
pub mod Bounds
use llm_worker_proxy.Shared.{
  ℕ, ◌/◌, max, Bool, true, false, String, List, Option, none, some, ◌==◌, string_eq, if◌then◌else◌,
  contains, is_some, is_none, is_some_and, not,
}
use llm_worker_proxy.Shared.HashMap
use llm_worker_proxy.Protocol
use llm_worker_proxy.Protocol.{
  RegisterMessage, WorkerToServerMessage, ServerToWorkerMessage, ModelsUpdateMessage, PongMessage,
  ResponseChunkMessage, ResponseCompleteMessage,
}
use llm_worker_proxy.Core.State
use llm_worker_proxy.Core.State.{
  ProxyServerCore, Instant, WorkerCancelSignal, GracefulShutdownSignal, WorkerModelsRefreshSignal,
  GracefulShutdownDisconnectReason, from_secs, RegisteredWorker,
}
use llm_worker_proxy.Core.Workers.{
  register_worker, disconnect_drained_worker_if_idle, take_graceful_shutdown_disconnect_reason,
}
use llm_worker_proxy.Core.Dispatch.{update_worker_models, record_worker_pong, finish_request}
use llm_worker_proxy.Core.Responses.{
  request_state, stream_http_response_chunk, complete_http_response,
}
use llm_worker_proxy.Core.Lifecycle.{expire_graceful_shutdown}

abbrev pub worker_protocol_version : String
worker_protocol_version = "2026-04-bridge-v1"

abbrev pub close_code_normal : ℕ
close_code_normal = 1000

abbrev pub close_reason_graceful_shutdown_complete : String
close_reason_graceful_shutdown_complete = "graceful shutdown complete"

abbrev pub close_reason_graceful_shutdown_timed_out : String
close_reason_graceful_shutdown_timed_out = "graceful shutdown timed out"

-- The first message of a connection: only a registration with no protocol version or the right one.
unfoldable pub register_authenticated_worker :
    ProxyServerCore
    → String
    → Option WorkerToServerMessage
    → Option (ProxyServerCore × RegisteredWorker)
register_authenticated_worker c provider (some (WorkerToServerMessage.register register)) =
    if is_some_and register.protocol_version (λ version. not (version == worker_protocol_version))
    then none
    else some (register_worker c provider register)
register_authenticated_worker c provider _ = none

-- The three calls for `response_complete`, each made only if those before it were false.
unfoldable pub handle_complete :
    ProxyServerCore → String → ResponseCompleteMessage → ProxyServerCore × Bool
handle_complete c worker_id response =
    let (c1, finished) = complete_http_response c worker_id response in
    if finished
    then (c1, true)
    else let (c2, next) = finish_request c1 worker_id response.request_id in
      if is_some next then (c2, true) else (c2, is_none (request_state c2 response.request_id))

-- The result tells whether the connection stays open.
unfoldable pub handle_worker_message :
    ProxyServerCore → String → Option WorkerToServerMessage → ProxyServerCore × Bool
handle_worker_message c worker_id (some (WorkerToServerMessage.models_update update)) =
    if HashMap.contains_key worker_id c.workers
    then ((update_worker_models c worker_id update).0, true)
    else (c, false)
handle_worker_message c worker_id (some (WorkerToServerMessage.pong pong)) =
    if HashMap.contains_key worker_id c.workers
    then ((record_worker_pong c worker_id pong).0, true)
    else (c, false)
handle_worker_message c worker_id (some (WorkerToServerMessage.response_chunk chunk)) =
    stream_http_response_chunk c worker_id chunk.request_id chunk.chunk
handle_worker_message c worker_id (some (WorkerToServerMessage.response_complete response)) =
    handle_complete c worker_id response
handle_worker_message c worker_id _ = (c, false)

unfoldable pub cancel_reason : State.CancelReason → Protocol.CancelReason
cancel_reason State.CancelReason.client_disconnected = Protocol.CancelReason.client_disconnect
cancel_reason State.CancelReason.request_timed_out = Protocol.CancelReason.timeout

abbrev pub cancel_message : WorkerCancelSignal → ServerToWorkerMessage
cancel_message cancel =
    ServerToWorkerMessage.cancel
      (record { request_id = cancel.request_id; reason = cancel_reason cancel.reason })

abbrev pub graceful_shutdown_message : GracefulShutdownSignal → ServerToWorkerMessage
graceful_shutdown_message shutdown = ServerToWorkerMessage.graceful_shutdown (record {
  reason = shutdown.reason;
  drain_timeout_secs = some (max (shutdown.drain_timeout / from_secs 1) 1);
})

abbrev pub models_refresh_message : WorkerModelsRefreshSignal → ServerToWorkerMessage
models_refresh_message refresh =
    ServerToWorkerMessage.models_refresh (record { reason = refresh.reason })

-- The last of the three cases: a reason that another operation left behind.
abbrev pub close_by_reason : Option GracefulShutdownDisconnectReason → Option (ℕ × String)
close_by_reason none = none
close_by_reason (some GracefulShutdownDisconnectReason.completed) =
    some (close_code_normal, close_reason_graceful_shutdown_complete)
close_by_reason (some GracefulShutdownDisconnectReason.timed_out) =
    some (close_code_normal, close_reason_graceful_shutdown_timed_out)

unfoldable pub graceful_shutdown_close_action :
    ProxyServerCore → Instant → String → ProxyServerCore × Option (ℕ × String)
graceful_shutdown_close_action c now worker_id =
    let (c1, outcome) = expire_graceful_shutdown c now in
    if contains worker_id outcome.disconnected_worker_ids
    then (
      (take_graceful_shutdown_disconnect_reason c1 worker_id).0,
      some (close_code_normal, close_reason_graceful_shutdown_timed_out),
    )
    else let (c2, drained) = disconnect_drained_worker_if_idle c1 worker_id in
      let (c3, reason) = take_graceful_shutdown_disconnect_reason c2 worker_id in
      if drained
      then (c3, some (close_code_normal, close_reason_graceful_shutdown_complete))
      else (c3, close_by_reason reason)
