-- ===== src/Core/State.antt =====
-- crates/modelrelay-server/src/lib.rs: the state of `ProxyServerCore` and the types of its results.
-- An `Instant` or a `Duration` is a number of nanoseconds. A channel's sender is its kind. The
-- channels' other ends, which the source keeps in the handlers, are two fields of the state: the
-- requests whose receiver has been dropped, and `delivered`, what has reached a receiver.
use llm_worker_proxy.Shared.{
  ℕ, ◌*◌, ◌≡◌, Bool, true, ◌&&◌, ◌||◌, String, List, [], Option, none, arith, ◌==◌, Eq, string_eq,
  ==_iff, ◌↔◌, any, is_empty, max, length, if◌then◌else◌, starts_with,
}
use llm_worker_proxy.Shared.HashMap.{HashMap}
use llm_worker_proxy.Protocol.{
  HeaderMap, ProviderRouting, RequestMessage, ResponseCompleteMessage, RegisterAck,
}

abbrev pub Instant : Type 0
Instant = ℕ

abbrev pub Duration : Type 0
Duration = ℕ

-- `Duration::from_secs`.
abbrev pub from_secs : ℕ → Duration
from_secs s = s * 1_000_000_000

abbrev pub usize_max : ℕ
usize_max = 0xFFFF_FFFF_FFFF_FFFF

abbrev pub max_requeue_count : ℕ
max_requeue_count = 3

pub record ProviderQueuePolicy : Type 0 where
  pub max_queue_len : ℕ
  pub queue_timeout_ticks : Option ℕ

abbrev pub default_policy : ProviderQueuePolicy
default_policy = record { max_queue_len = usize_max; queue_timeout_ticks = none }

pub record RequestTransport : Type 0 where
  pub endpoint_path : String
  pub method : String
  pub is_streaming : Bool
  pub body : String
  pub headers : HeaderMap

pub record RequestRecord : Type 0 where
  pub request_id : String
  pub provider : String
  pub model : String
  pub queued_at : Instant
  pub transport : RequestTransport
  pub provider_routing : Option ProviderRouting
  pub requeue_count : ℕ

abbrev pub to_worker_request : RequestRecord → RequestMessage
to_worker_request r = record {
  request_id = r.request_id;
  model = r.model;
  endpoint_path = r.transport.endpoint_path;
  method = r.transport.method;
  is_streaming = r.transport.is_streaming;
  body = r.transport.body;
  headers = r.transport.headers;
}

pub record WorkerState : Type 0 where
  pub provider : String
  pub worker_name : String
  pub models : List String
  pub endpoint_prefixes : List String
  pub max_concurrent : ℕ
  pub reported_load : ℕ
  pub in_flight_requests : List String
  pub is_draining : Bool
  pub graceful_shutdown_deadline : Option Instant

abbrev pub selection_load : WorkerState → ℕ
selection_load w = max w.reported_load (length w.in_flight_requests)

-- `prefixes.iter().any(|prefix| path.starts_with(prefix))`; no prefix accepts every path.
unfoldable pub prefixes_support : List String → String → Bool
prefixes_support prefixes path =
    if is_empty prefixes then true else any (λ prefix. starts_with path prefix) prefixes

abbrev pub supports_endpoint : WorkerState → String → Bool
supports_endpoint w path = prefixes_support w.endpoint_prefixes path

-- `models.iter().any(|m| m == "*" || m == model)`.
unfoldable pub supports_model : List String → String → Bool
supports_model models model = any (λ m. m == "*" || m == model) models

pub data CancelReason : Type 0 where
  client_disconnected request_timed_out : CancelReason

pub data ActiveRequestState : Type 0 where
  queued : RequestRecord → ActiveRequestState
  in_flight : RequestRecord → String → Option CancelReason → ActiveRequestState

pub data RequestState : Type 0 where
  queued : RequestState
  in_flight : String → Option CancelReason → RequestState

pub record SelectionKey : Type 0 where
  pub provider : String
  pub model : String

pub data RequestFailureReason : Type 0 where
  request_already_canceled max_requeues_exceeded queue_timed_out queue_full : RequestFailureReason
  no_workers_available provider_disabled provider_deleted : RequestFailureReason
  graceful_shutdown_timed_out : RequestFailureReason

pub record RequestFailure : Type 0 where
  pub request_id : String
  pub reason : RequestFailureReason

pub record DispatchAssignment : Type 0 where
  pub request_id : String
  pub worker_id : String

pub record QueuedAssignment : Type 0 where
  pub request_id : String
  pub queue_len : ℕ

pub data SubmissionOutcome : Type 0 where
  dispatched : DispatchAssignment → SubmissionOutcome
  queued : QueuedAssignment → SubmissionOutcome
  rejected : RequestFailure → SubmissionOutcome

pub record WorkerCancelSignal : Type 0 where
  pub worker_id : String
  pub request_id : String
  pub reason : CancelReason

pub record GracefulShutdownSignal : Type 0 where
  pub worker_id : String
  pub reason : Option String
  pub drain_timeout : Duration

pub record WorkerModelsRefreshSignal : Type 0 where
  pub worker_id : String
  pub reason : Option String

pub data GracefulShutdownDisconnectReason : Type 0 where
  completed timed_out : GracefulShutdownDisconnectReason

pub data CancellationOutcome : Type 0 where
  removed_from_queue : String → CancellationOutcome
  worker_cancel_sent : WorkerCancelSignal → CancellationOutcome

pub record WorkerDisconnectOutcome : Type 0 where
  pub requeued_request_ids : List String
  pub failed_requests : List RequestFailure

pub record GracefulShutdownOutcome : Type 0 where
  pub disconnected_worker_ids : List String
  pub failed_requests : List RequestFailure

pub record RegisteredWorker : Type 0 where
  pub worker_id : String
  pub ack : RegisterAck

pub data HttpResponseEvent : Type 0 where
  chunk : String → HttpResponseEvent
  complete : ResponseCompleteMessage → HttpResponseEvent
  failure : RequestFailureReason → HttpResponseEvent

-- A `oneshot` channel, or an unbounded one.
pub data PendingHttpResponseSender : Type 0 where
  unary streaming : PendingHttpResponseSender

-- What reaches the receiver of a request from its sender: an event. On a `oneshot` channel
-- `Ok(response)` is `complete` and `Err(reason)` is `failure`.
pub record Delivery : Type 0 where
  pub request_id : String
  pub sender : PendingHttpResponseSender
  pub event : HttpResponseEvent

pub record ProxyServerCore : Type 0 where
  pub next_request_id : ℕ
  pub next_worker_id : ℕ
  pub worker_order : List String
  pub workers : HashMap String WorkerState
  pub provider_queues : HashMap String (List RequestRecord)
  pub provider_queue_policies : HashMap String ProviderQueuePolicy
  pub selection_cursors : HashMap SelectionKey ℕ
  pub active_requests : HashMap String ActiveRequestState
  pub pending_worker_requests : HashMap String (List RequestMessage)
  pub pending_http_response_senders : HashMap String PendingHttpResponseSender
  pub worker_cancel_signals : List WorkerCancelSignal
  pub worker_graceful_shutdown_signals : List GracefulShutdownSignal
  pub worker_models_refresh_signals : List WorkerModelsRefreshSignal
  pub graceful_shutdown_disconnect_reasons : HashMap String GracefulShutdownDisconnectReason
  pub gone_receivers : List String
  pub delivered : List Delivery

-- `ProxyServerCore::new`.
abbrev pub new : ProxyServerCore
new = record {
  next_request_id = 1;
  next_worker_id = 1;
  worker_order = [];
  workers = [];
  provider_queues = [];
  provider_queue_policies = [];
  selection_cursors = [];
  active_requests = [];
  pending_worker_requests = [];
  pending_http_response_senders = [];
  worker_cancel_signals = [];
  worker_graceful_shutdown_signals = [];
  worker_models_refresh_signals = [];
  graceful_shutdown_disconnect_reasons = [];
  gone_receivers = [];
  delivered = [];
}

pub key_beq : SelectionKey → SelectionKey → Bool
key_beq a b = a.provider == b.provider && a.model == b.model

pub key_beq_iff : (a b : SelectionKey) → (key_beq a b ≡ true) ↔ (a ≡ b)
unfolding key_beq
key_beq_iff a b = (
  (λ h. ground (arith, ==_iff a.provider b.provider, ==_iff a.model b.model)),
  (λ h. ground (arith, ==_iff a.provider b.provider, ==_iff a.model b.model)),
)

instance abbrev pub key_eq : Eq SelectionKey
unfolding key_beq
key_eq = record { eq = key_beq; eq_iff = key_beq_iff }
