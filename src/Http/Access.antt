-- ===== src/Http/Access.antt =====
-- Who gets in: the admin routes want the token, and the proxied requests an API key.
use llm_worker_proxy.Shared.{
  ◌≡◌, refl, ap, ◌∙◌, inl, inr, ◌⊎◌, arith, true, String, Option, none, some, Bool-cases,
  Option-cases, string_eq, ==_iff, Result, ok, err,
}
use llm_worker_proxy.Core.State.{Instant}
use llm_worker_proxy.Daemon.Forward.{HttpLibrary}
use llm_worker_proxy.Http.{
  HttpState, World, Response, Body, respond, ClientHeaders, header_get, bearer_token,
  check_admin_auth, AdminRequest, admin_action, admin_handler, StoreError,
}
use llm_worker_proxy.Http.Proxy.{
  auth_error, after_check, ClientRequest, check_client_api_key, after_validate, wildcard_handler,
  Progress, route,
}

check_admin-token :
    {S : Type 0} (state : HttpState S) (headers : ClientHeaders)
    → check_admin_auth state headers ≡ true
    → (expected : String) × (auth_str : String) × (state.admin_token ≡ some expected)
      × (header_get "authorization" headers ≡ some (some auth_str))
      × (bearer_token auth_str ≡ expected)
unfolding check_admin_auth
check_admin-token state headers h = elim (Option-cases state.admin_token) [
  | inl unset ↦ absurd (ground arith)
  | inr (expected, set) ↦ elim (Option-cases (header_get "authorization" headers)) [
    | inl missing ↦ absurd (ground arith)
    | inr (value, present) ↦ elim (Option-cases value) [
      | inl opaque ↦ absurd (ground arith)
      | inr (auth_str, readable) ↦ (
        expected,
        auth_str,
        set,
        present ∙ ap some readable,
        ground (arith, ==_iff (bearer_token auth_str) expected),
      )
    ]
  ]
]

-- An admin request is carried out only with the token: without a token in the server's state, or
-- without an authorization header that is the token, behind `Bearer ` or alone, the answer is 403 and
-- neither the core nor the key store changes.
pub admin_needs_token :
    {S : Type 0} (state : HttpState S) (w : World S) (headers : ClientHeaders)
    (request : AdminRequest)
    → ((admin_handler state w headers request ≡ admin_action state w request)
        × ((expected : String) × (auth_str : String) × (state.admin_token ≡ some expected)
            × (header_get "authorization" headers ≡ some (some auth_str))
            × (bearer_token auth_str ≡ expected)))
      ⊎ (admin_handler state w headers request ≡ (w, respond 403 Body.nothing))
unfolding admin_handler
admin_needs_token state w headers request = elim (Bool-cases (check_admin_auth state headers)) [
  | inl granted ↦ inl (rw (granted, admin_handler) refl, check_admin-token state headers granted)
  | inr denied ↦ inr (rw (denied, admin_handler) refl)
]

-- A refusal by the check.
record Refused {S : Type 0} (state : HttpState S) (keys : S) (headers : ClientHeaders)
    : Type 0 where
  keys_after : S
  response : Response
  refusal : check_client_api_key state keys headers ≡ (keys_after, some response)
  status : (response.status ≡ 401) ⊎ (response.status ≡ 500)

abbrev HasKey : {S : Type 0} → HttpState S → S → ClientHeaders → Type 0
HasKey state keys headers =
    (auth_str : String) × (id : String) × (header_get "authorization" headers
      ≡ some (some auth_str))
    × ((state.api_key_store.validate_key keys (bearer_token auth_str)).1 ≡ ok (some id))

validated :
    {S : Type 0} (state : HttpState S) (keys : S) (headers : ClientHeaders) (auth_str : String)
    (keys' : S) (result : Result (Option String) StoreError)
    → header_get "authorization" headers ≡ some (some auth_str)
    → state.api_key_store.validate_key keys (bearer_token auth_str) ≡ (keys', result)
    → check_client_api_key state keys headers ≡ after_validate (keys', result)
    → HasKey state keys headers ⊎ Refused state keys headers
validated state keys headers auth_str keys' (ok (some id)) present answer check =
    inl (auth_str, id, present, ap (λ r. r.1) answer)
validated state keys headers auth_str keys' (ok none) present answer check =
    inr (record { keys_after = keys'; response = _; refusal = check; status = inl refl })
validated state keys headers auth_str keys' (err e) present answer check =
    inr (record { keys_after = keys'; response = _; refusal = check; status = inr refl })

check_client_lem :
    {S : Type 0} (state : HttpState S) (keys : S) (headers : ClientHeaders)
    → state.require_api_keys ≡ true
    → HasKey state keys headers ⊎ Refused state keys headers
unfolding check_client_api_key
check_client_lem state keys headers required =
    elim (Option-cases (header_get "authorization" headers)) [
      | inl missing ↦ inr (record {
        keys_after = keys;
        response = auth_error "API key required";
        refusal = rw (required, missing, check_client_api_key) refl;
        status = inl refl;
      })
      | inr (value, present) ↦ elim (Option-cases value) [
        | inl opaque ↦
            let e : header_get "authorization" headers ≡ some none = present ∙ ap some opaque in
            inr (record {
              keys_after = keys;
              response = auth_error "Invalid authorization header";
              refusal = rw (required, e, check_client_api_key) refl;
              status = inl refl;
            })
        | inr (auth_str, readable) ↦
            let e : header_get "authorization" headers ≡ some (some auth_str) =
              present ∙ ap some readable in
            validated state keys headers auth_str _ _ e refl
              (rw (required, e, check_client_api_key) refl)
      ]
    ]

refused_lem :
    {S : Type 0} (http : HttpLibrary) (state : HttpState S) (w : World S) (now : Instant)
    (request : ClientRequest) (refused : Refused state w.keys request.headers)
    → wildcard_handler http state w now request
      ≡ (record w { keys = refused.keys_after }, Progress.answered refused.response)
unfolding wildcard_handler
refused_lem http state w now request refused =
    ap (after_check w (route http state w.core now request)) refused.refusal

-- With keys required, a proxied request reaches the core only with a key that the store accepts. In
-- every other case the client is answered at once, with 401 or 500, and the core does not change.
pub client_needs_key :
    {S : Type 0} (http : HttpLibrary) (state : HttpState S) (w : World S) (now : Instant)
    (request : ClientRequest)
    → state.require_api_keys ≡ true
    → ((auth_str : String) × (id : String) × (header_get "authorization" request.headers
          ≡ some (some auth_str))
        × ((state.api_key_store.validate_key w.keys (bearer_token auth_str)).1 ≡ ok (some id)))
      ⊎ (((wildcard_handler http state w now request).0.core ≡ w.core)
          × ((response : Response) × ((wildcard_handler http state w now request).1
                ≡ Progress.answered response)
              × ((response.status ≡ 401) ⊎ (response.status ≡ 500))))
client_needs_key http state w now request required =
    elim (check_client_lem state w.keys request.headers required) [
      | inl has_key ↦ inl has_key
      | inr refused ↦
          let e = refused_lem http state w now request refused in
          inr (ap (λ r. r.0.core) e, (refused.response, ap (λ r. r.1) e, refused.status))
    ]
