-- ===== src/Protocol.antt =====
-- crates/modelrelay-protocol/src/lib.rs: the messages between the proxy server and its workers.
-- Their JSON form is serde's and is not modelled.
use llm_worker_proxy.Shared.{ℕ, Bool, String, List, Option}
use llm_worker_proxy.Shared.HashMap.{HashMap}

abbrev pub HeaderMap : Type 0
HeaderMap = HashMap String String

pub record ProviderRouting : Type 0 where
  pub only : Option (List String)
  pub ignore : Option (List String)
  pub order : Option (List String)
  pub allow_fallbacks : Option Bool
  pub sort : Option String

pub record RegisterMessage : Type 0 where
  pub worker_name : String
  pub models : List String
  pub max_concurrent : ℕ
  pub protocol_version : Option String
  pub current_load : Option ℕ
  pub endpoint_prefixes : List String

pub record RegisterAck : Type 0 where
  pub worker_id : String
  pub models : List String
  pub warnings : List String
  pub protocol_version : Option String
  pub endpoint_prefixes : List String

pub record RequestMessage : Type 0 where
  pub request_id : String
  pub model : String
  pub endpoint_path : String
  pub method : String
  pub is_streaming : Bool
  pub body : String
  pub headers : HeaderMap

pub data CancelReason : Type 0 where
  client_disconnect timeout graceful_shutdown worker_disconnect : CancelReason
  requeue_exhausted server_shutdown : CancelReason
  other : String → CancelReason

pub record CancelMessage : Type 0 where
  pub request_id : String
  pub reason : CancelReason

pub record PingMessage : Type 0 where
  pub timestamp_unix_ms : Option ℕ

pub record PongMessage : Type 0 where
  pub current_load : ℕ
  pub timestamp_unix_ms : Option ℕ

pub record GracefulShutdownMessage : Type 0 where
  pub reason : Option String
  pub drain_timeout_secs : Option ℕ

pub record ModelsRefreshMessage : Type 0 where
  pub reason : Option String

pub record ModelsUpdateMessage : Type 0 where
  pub models : List String
  pub current_load : ℕ

pub record ResponseChunkMessage : Type 0 where
  pub request_id : String
  pub chunk : String

pub record TokenCounts : Type 0 where
  pub prompt_tokens : Option ℕ
  pub completion_tokens : Option ℕ
  pub total_tokens : Option ℕ

pub record ResponseCompleteMessage : Type 0 where
  pub request_id : String
  pub status_code : ℕ
  pub headers : HeaderMap
  pub body : Option String
  pub token_counts : Option TokenCounts

pub record ErrorMessage : Type 0 where
  pub request_id : Option String
  pub code : String
  pub message : String

pub data ServerToWorkerMessage : Type 0 where
  register_ack : RegisterAck → ServerToWorkerMessage
  request : RequestMessage → ServerToWorkerMessage
  cancel : CancelMessage → ServerToWorkerMessage
  ping : PingMessage → ServerToWorkerMessage
  graceful_shutdown : GracefulShutdownMessage → ServerToWorkerMessage
  models_refresh : ModelsRefreshMessage → ServerToWorkerMessage

pub data WorkerToServerMessage : Type 0 where
  register : RegisterMessage → WorkerToServerMessage
  models_update : ModelsUpdateMessage → WorkerToServerMessage
  response_chunk : ResponseChunkMessage → WorkerToServerMessage
  response_complete : ResponseCompleteMessage → WorkerToServerMessage
  pong : PongMessage → WorkerToServerMessage
  error : ErrorMessage → WorkerToServerMessage
