-- ===== src/Http.antt =====
-- crates/modelrelay-server/src/http.rs: the routes but for the proxied requests. A handler takes the
-- core and the key store and gives them back with its response. JSON and the body's encoding are
-- serde's and axum's: a body is what is encoded. The key store is the trait `ApiKeyStore`, whose
-- operations are a parameter on its state.
pub mod Proxy
pub mod Stream
pub mod Access
mod Tests
use llm_worker_proxy.Shared.{
  ℕ, Bool, true, false, String, List, [], ◌∷◌, map, Option, none, some, ◌==◌, string_eq,
  if◌then◌else◌, Result, ok, err, unwrap_or,
}
use llm_worker_proxy.Shared.Text.{strip_prefix}
use llm_worker_proxy.Shared.HashMap.{HashMap}
use llm_worker_proxy.Protocol.{HeaderMap}
use llm_worker_proxy.Core.State.{ProxyServerCore}
use llm_worker_proxy.Core.Views.{
  AdminWorkerInfo, connected_worker_count, total_queue_depth, admin_workers_snapshot,
  admin_queue_depth, worker_debug_info, provider_models,
}
use llm_worker_proxy.ApiKeys.{ApiKeyMetadata}

pub data StoreError : Type 0 where
  bad_id bad_key : StoreError
  internal : String → StoreError

pub record ApiKeyStore (S : Type 0) : Type 0 where
  pub create_key : S → String → S × Result (ApiKeyMetadata × String) StoreError
  pub validate_key : S → String → S × Result (Option String) StoreError
  pub revoke_key : S → String → S × Result Bool StoreError
  pub list_keys : S → Result (List ApiKeyMetadata) StoreError

-- A client's headers, their names in lower case; a value is `none` where `to_str` fails.
abbrev pub ClientHeaders : Type 0
ClientHeaders = List (String × Option String)

-- `headers.get(name)`, the first of that name.
unfoldable pub header_get : String → ClientHeaders → Option (Option String)
header_get name [] = none
header_get name ((n, value) ∷ headers) = if n == name then some value else header_get name headers

pub record HttpState (S : Type 0) : Type 0 where
  pub models_provider : String
  pub provider_enabled : Bool
  pub admin_token : Option String
  pub require_api_keys : Bool
  pub api_key_store : ApiKeyStore S

-- What the handlers share under their locks.
pub record World (S : Type 0) : Type 0 where
  pub core : ProxyServerCore
  pub keys : S

pub record WorkerHealthInfo : Type 0 where
  pub id : String
  pub provider : String
  pub models : List String
  pub in_flight : ℕ
  pub max_concurrent : ℕ
  pub is_draining : Bool

-- The version and the uptime are left out: neither is the state's.
pub record HealthResponse : Type 0 where
  pub workers_connected : ℕ
  pub queue_depth : ℕ
  pub workers : List WorkerHealthInfo
  pub models_provider : String

pub record ModelObject : Type 0 where
  pub id : String
  pub object : String
  pub owned_by : String

pub data Body : Type 0 where
  nothing : Body
  text : String → Body
  error : String → String → Body
  health : HealthResponse → Body
  models : List ModelObject → Body
  workers : List AdminWorkerInfo → Body
  stats : HashMap String ℕ → ℕ → Body
  key_list : List ApiKeyMetadata → Body
  created_key : ApiKeyMetadata → String → Body

pub record Response : Type 0 where
  pub status : ℕ
  pub headers : HeaderMap
  pub body : Body

abbrev pub respond : ℕ → Body → Response
respond status body = record { status = status; headers = []; body = body }

abbrev pub health_info : String × String × List String × ℕ × ℕ × Bool → WorkerHealthInfo
health_info (id, provider, names, in_flight, max_concurrent, is_draining) = record {
  id = id;
  provider = provider;
  models = names;
  in_flight = in_flight;
  max_concurrent = max_concurrent;
  is_draining = is_draining;
}

abbrev pub model_object : String → ModelObject
model_object id = record { id = id; object = "model"; owned_by = "worker-proxy" }

-- `strip_prefix("Bearer ").unwrap_or(..)`.
abbrev pub bearer_token : String → String
bearer_token auth_str = unwrap_or (strip_prefix "Bearer " auth_str) auth_str

module _ {S : Type 0} (state : HttpState S) where
  unfoldable pub health_handler : World S → Response
  health_handler w = respond 200 (
      Body.health (record {
        workers_connected = connected_worker_count w.core;
        queue_depth = total_queue_depth w.core;
        workers = map health_info (worker_debug_info w.core);
        models_provider = state.models_provider;
      }))

  unfoldable pub models_handler : World S → Response
  models_handler w =
      respond 200 (Body.models (map model_object (provider_models w.core state.models_provider)))

  -- Whether the handler goes on; otherwise it answers 403.
  unfoldable pub check_admin_auth : ClientHeaders → Bool
  check_admin_auth headers = elim state.admin_token [
    | none ↦ false
    | some expected ↦ elim (header_get "authorization" headers) [
      | none ↦ false
      | some none ↦ false
      | some (some auth_str) ↦ bearer_token auth_str == expected
    ]
  ]

  abbrev pub admin_keys_handler : World S → World S × Response
  admin_keys_handler w = elim (state.api_key_store.list_keys w.keys) [
    | ok keys ↦ (w, respond 200 (Body.key_list keys))
    | err e ↦ (w, respond 500 Body.nothing)
  ]

module _ {S : Type 0} where
  abbrev pub admin_workers_handler : World S → World S × Response
  admin_workers_handler w = (w, respond 200 (Body.workers (admin_workers_snapshot w.core)))

  abbrev pub admin_stats_handler : World S → World S × Response
  admin_stats_handler w =
      (w, respond 200 (Body.stats (admin_queue_depth w.core) (connected_worker_count w.core)))

  abbrev pub key_created :
      World S → S × Result (ApiKeyMetadata × String) StoreError → World S × Response
  key_created w (keys, ok (metadata, secret)) =
      (record w { keys = keys }, respond 201 (Body.created_key metadata secret))
  key_created w (keys, err e) = (record w { keys = keys }, respond 500 Body.nothing)

  abbrev pub key_revoked : World S → S × Result Bool StoreError → World S × Response
  key_revoked w (keys, ok true) = (record w { keys = keys }, respond 204 Body.nothing)
  key_revoked w (keys, ok false) = (record w { keys = keys }, respond 404 Body.nothing)
  key_revoked w (keys, err e) = (record w { keys = keys }, respond 500 Body.nothing)

-- The routes below `/admin`.
pub data AdminRequest : Type 0 where
  list_workers list_stats list_keys : AdminRequest
  create_key revoke_key : String → AdminRequest

module _ {S : Type 0} (state : HttpState S) where
  -- The part of a handler behind the check.
  unfoldable pub admin_action : World S → AdminRequest → World S × Response
  admin_action w list_workers = admin_workers_handler w
  admin_action w list_stats = admin_stats_handler w
  admin_action w list_keys = admin_keys_handler state w
  admin_action w (create_key name) = key_created w (state.api_key_store.create_key w.keys name)
  admin_action w (revoke_key id) = key_revoked w (state.api_key_store.revoke_key w.keys id)

  unfoldable pub admin_handler : World S → ClientHeaders → AdminRequest → World S × Response
  admin_handler w headers request =
      if check_admin_auth state headers
      then admin_action w request
      else (w, respond 403 Body.nothing)
