-- ===== src/Socket/Tests.antt =====
-- The theorems about the worker's socket, applied to small states.
use llm_worker_proxy.Shared.{
  ◌+◌, ◌≤◌, ◌<◌, ◌≡◌, refl, ◌⊎◌, arith, true, false, String, [], ◌∷◌, none, some, ◌==◌, string_eq,
  unwrap_or,
}
use llm_worker_proxy.Shared.HashMap
use llm_worker_proxy.Protocol.{ResponseCompleteMessage, WorkerToServerMessage}
use llm_worker_proxy.Core.Tests.{two_workers, busy}
use llm_worker_proxy.Socket.Auth.{
  WorkerSocketState, WorkerSocketProviderConfig, WorkerConnectQuery, AuthOutcome, presented,
  record_failed_auth, client_is_rate_limited, authenticate_connection, api_key_matches,
  close_reason_auth_rate_limited, auth_rate_limit_cooldown, check_secret, static_secret_matches,
}
use llm_worker_proxy.Socket.Auth.Limits.{three_failures_block}
use llm_worker_proxy.Socket.Auth.Sound.{authenticate-Sound}
use llm_worker_proxy.Socket.Messages.{handle_worker_message}
use llm_worker_proxy.Socket.Messages.Complete.{own_complete_stays_open}

-- One provider, and a key store that accepts one key.
abbrev server : WorkerSocketState
server = record {
  providers = ("local", record { worker_secret = "s3"; enabled = true }) ∷ [];
  api_key_store = some (λ secret. secret == "key");
  failed_auth_by_client = [];
}

abbrev query : WorkerConnectQuery
query = record { provider = none; worker_secret = some "s3" }

three_failures_block_example :
    let d : WorkerSocketState =
      record_failed_auth (record_failed_auth (record_failed_auth server 10 "x") 20 "x") 30 "x" in
    ((40 < 30 + auth_rate_limit_cooldown)
      × (authenticate_connection d 40 50 "x" none query
          ≡ (d, AuthOutcome.rejected close_reason_auth_rate_limited)))
    ⊎ ((30 + auth_rate_limit_cooldown ≤ 40) × ((client_is_rate_limited d 40 "x").1 ≡ false))
unfolding HashMap.get
three_failures_block_example =
    three_failures_block server 10 20 30 40 50 "x" none query refl (omega arith) (omega arith)

authenticate-Sound_example :
    (secret : String) × (presented none query ≡ some secret)
    × ("local" ≡ unwrap_or query.provider "local")
    × (((config : WorkerSocketProviderConfig) × (HashMap.get "local" server.providers ≡ some config)
          × (config.enabled ≡ true)
          × (secret ≡ config.worker_secret))
        ⊎ (api_key_matches server secret ≡ true))
    × (HashMap.get "x" (authenticate_connection server 1 2 "x" none query).0.failed_auth_by_client
        ≡ none)
unfolding HashMap.get authenticate_connection client_is_rate_limited check_secret
    static_secret_matches
authenticate-Sound_example = authenticate-Sound server 1 2 "x" "local" none query refl

abbrev answer : ResponseCompleteMessage
answer = record {
  request_id = "r";
  status_code = 200;
  headers = [];
  body = none;
  token_counts = none;
}

own_complete_stays_open_example :
    (handle_worker_message two_workers "b"
      (some (WorkerToServerMessage.response_complete answer))).1
    ≡ true
unfolding HashMap.get
own_complete_stays_open_example = own_complete_stays_open two_workers "b" busy answer refl refl
