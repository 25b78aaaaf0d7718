-- ===== src/Daemon/Config.antt =====
-- crates/modelrelay-worker/src/lib.rs: `WorkerDaemonConfig` and the addresses that it gives.
use Prim.Native.String.{◌++◌}
use llm_worker_proxy.Shared.{
  ℕ, String, List, none, some, any, is_empty, ◌==◌, string_eq, if◌then◌else◌, Result, ok, err,
}
use llm_worker_proxy.Shared.Text.{strip_prefix, trim_end_matches, trim}
use llm_worker_proxy.Protocol.{WorkerToServerMessage}

pub record WorkerDaemonConfig : Type 0 where
  pub proxy_base_url : String
  pub provider : String
  pub worker_secret : String
  pub worker_name : String
  pub models : List String
  pub max_concurrent : ℕ
  pub backend_base_url : String
  pub endpoint_prefixes : List String

-- `discovered` is the result of `discover_backend_models`.
unfoldable pub resolve_wildcard_models :
    WorkerDaemonConfig → Result (List String) String → WorkerDaemonConfig
resolve_wildcard_models config (err error) = config
resolve_wildcard_models config (ok discovered) =
    if any (λ m. trim m == "*") config.models
    then if is_empty discovered then config else record config { models = discovered }
    else config

-- `ws` for `http`, `wss` for `https`, and any other base as it is.
unfoldable pub websocket_base : String → String
websocket_base base = elim (strip_prefix "http://" base) [
  | some stripped ↦ "ws://" ++ stripped
  | none ↦ elim (strip_prefix "https://" base) [
    | some stripped ↦ "wss://" ++ stripped
    | none ↦ base
  ]
]

unfoldable pub websocket_url : WorkerDaemonConfig → String
websocket_url config =
    websocket_base (trim_end_matches "/" config.proxy_base_url)
    ++ ("/v1/worker/connect?provider=" ++ config.provider)

unfoldable pub backend_url : WorkerDaemonConfig → String → String
backend_url config endpoint_path = trim_end_matches "/" config.backend_base_url ++ endpoint_path

abbrev pub registration_message : WorkerDaemonConfig → WorkerToServerMessage
registration_message config = WorkerToServerMessage.register (record {
  worker_name = config.worker_name;
  models = config.models;
  max_concurrent = config.max_concurrent;
  protocol_version = some "2026-04-bridge-v1";
  current_load = some 0;
  endpoint_prefixes = config.endpoint_prefixes;
})
