-- ===== src/Http/Tests.antt =====
-- The theorems about the HTTP routes, applied to a small server.
use Prim.Native.String.{◌++◌}
use text.Mathlib.TextLemmas.{cons-append, nil-append}
use llm_worker_proxy.Shared.{
  ℕ, zero, suc, ◌+◌, ◌^◌, ◌≤◌, ◌≡◌, ◌⊎◌, refl, ap, ◌∙◌, arith, true, String, [], ◌∷◌, none, some,
  string_eq, ok,
}
use llm_worker_proxy.Shared.Text.{len}
use llm_worker_proxy.Shared.HashMap
use llm_worker_proxy.Protocol.{ResponseCompleteMessage}
use llm_worker_proxy.Core.State.{HttpResponseEvent, client_disconnected}
use llm_worker_proxy.Core.Tests.{two_workers, held}
use llm_worker_proxy.Daemon.Forward.{HttpLibrary}
use llm_worker_proxy.ApiKeys.{Keys, create_key, validate_key, revoke_key, list_keys}
use llm_worker_proxy.Http.{
  HttpState, World, Response, Body, respond, ClientHeaders, ApiKeyStore, AdminRequest, header_get,
  bearer_token, admin_handler, admin_action,
}
use llm_worker_proxy.Http.Proxy.{
  ClientRequest, CancellationGuard, Progress, wildcard_handler, drop_guard,
}
use llm_worker_proxy.Http.Stream.{
  StreamState, polls, stream_of, max_stream_response_bytes, oversized_stream_error_sse,
}
use llm_worker_proxy.Http.Stream.Limit.{total_len, stream_within_limit}
use llm_worker_proxy.Http.Stream.Whole.{
  stream_arrives_whole, left_stream_cancels, oversized_stream_keeps_worker,
}
use llm_worker_proxy.Http.Access.{admin_needs_token, client_needs_key}

-- The in-memory store as the trait's implementation: the digest is the text, the clock stands at 7,
-- and every key is drawn alike.
abbrev store : ApiKeyStore (Keys String)
store = record {
  create_key = λ keys name.
      let (keys', metadata, secret) = create_key (λ (s : String). s) keys "id" name "mr_live_x" 7 in
      (keys', ok (metadata, secret));
  validate_key = λ keys raw_key.
      let (keys', found) = validate_key (λ (s : String). s) keys raw_key 7 in (keys', ok found);
  revoke_key = λ keys id. let (keys', known) = revoke_key keys id in (keys', ok known);
  list_keys = λ keys. ok (list_keys keys);
}

abbrev server : HttpState (Keys String)
server = record {
  models_provider = "p";
  provider_enabled = true;
  admin_token = some "root";
  require_api_keys = true;
  api_key_store = store;
}

abbrev world : World (Keys String)
world = record { core = two_workers; keys = [] }

abbrev plain_http : HttpLibrary
plain_http = record {
  header_name = λ name. some name;
  header_value = λ value. some value;
  to_uppercase = λ text. text;
  to_ascii_lowercase = λ text. text;
}

abbrev client_headers : ClientHeaders
client_headers = ("authorization", some "Bearer root") ∷ []

abbrev client_request : ClientRequest
client_request = record {
  path = "/v1/chat";
  method = "POST";
  headers = client_headers;
  body = "{}";
  parsed = none;
}

admin_needs_token_example :
    ((admin_handler server world client_headers AdminRequest.list_workers
        ≡ admin_action server world AdminRequest.list_workers)
      × ((expected : String) × (auth_str : String) × (server.admin_token ≡ some expected)
          × (header_get "authorization" client_headers ≡ some (some auth_str))
          × (bearer_token auth_str ≡ expected)))
    ⊎ (admin_handler server world client_headers AdminRequest.list_workers
        ≡ (world, respond 403 Body.nothing))
admin_needs_token_example = admin_needs_token server world client_headers AdminRequest.list_workers

client_needs_key_example :
    ((auth_str : String) × (id : String) × (header_get "authorization" client_headers
        ≡ some (some auth_str))
      × ((server.api_key_store.validate_key [] (bearer_token auth_str)).1 ≡ ok (some id)))
    ⊎ (((wildcard_handler plain_http server world 9 client_request).0.core ≡ two_workers)
        × ((response : Response) × ((wildcard_handler plain_http server world 9 client_request).1
              ≡ Progress.answered response)
            × ((response.status ≡ 401) ⊎ (response.status ≡ 500))))
client_needs_key_example = client_needs_key plain_http server world 9 client_request refl

abbrev guard : CancellationGuard
guard = record { request_id = "r"; armed = true }

abbrev answer : ResponseCompleteMessage
answer = record {
  request_id = "r";
  status_code = 200;
  headers = [];
  body = none;
  token_counts = none;
}

stream_within_limit_example :
    total_len (polls 3 (stream_of guard "a" (HttpResponseEvent.chunk "b" ∷ []))).0
    ≤ max_stream_response_bytes + len oversized_stream_error_sse
stream_within_limit_example = stream_within_limit guard "a" (HttpResponseEvent.chunk "b" ∷ []) 3

stream_arrives_whole_example :
    ((polls 3 (
        stream_of guard "a"
          (HttpResponseEvent.chunk "b" ∷ HttpResponseEvent.complete answer ∷ []))).0
      ≡ "a" ∷ "b" ∷ [])
    × (drop_guard two_workers
          (polls 3 (
            stream_of guard "a"
              (HttpResponseEvent.chunk "b" ∷ HttpResponseEvent.complete answer ∷ []))).1.guard
        ≡ two_workers)
unfolding total_len len
stream_arrives_whole_example =
    stream_arrives_whole two_workers guard "a" ("b" ∷ []) answer (omega arith)

left_stream_cancels_example :
    (drop_guard two_workers
      (polls 2
        (stream_of guard "a" (HttpResponseEvent.chunk "b" ∷ []))).1.guard).worker_cancel_signals
    ≡ record { worker_id = "b"; request_id = "r"; reason = client_disconnected } ∷ []
unfolding total_len len HashMap.get
left_stream_cancels_example =
    left_stream_cancels two_workers "r" "b" held "a" ("b" ∷ []) [] (omega arith) refl

-- The response's stream, with its first chunk not yet taken.
abbrev left : StreamState
left = stream_of guard "a" []

-- A text of `2 ^ n` bytes.
doubled : ℕ → String
doubled zero = "a"
doubled (suc n) = doubled n ++ doubled n

len-append : (s t : String) → len (s ++ t) ≡ len s + len t
unfolding len
len-append String.[] t = ap len (nil-append t) ∙ omega arith
len-append (String.◌∷◌ c s) t = ap len (cons-append c s t) ∙ omega (arith, len-append s t)

len-doubled : (n : ℕ) → len (doubled n) ≡ 2 ^ n
unfolding doubled len
len-doubled zero = refl
len-doubled (suc n) = len-append (doubled n) (doubled n) ∙ omega (arith, len-doubled n)

oversized_stream_keeps_worker_example :
    ((polls 3 (stream_of guard "a" (HttpResponseEvent.chunk (doubled 34) ∷ []))).0
      ≡ "a" ∷ oversized_stream_error_sse ∷ [])
    × (drop_guard two_workers
          (polls 3 (stream_of guard "a" (HttpResponseEvent.chunk (doubled 34) ∷ []))).1.guard
        ≡ two_workers)
unfolding total_len len
oversized_stream_keeps_worker_example =
    oversized_stream_keeps_worker two_workers guard "a" (doubled 34) [] [] (omega arith)
      (omega (arith, len-doubled 34))
