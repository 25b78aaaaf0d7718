-- ===== src/Socket/Auth/Sound.antt =====
-- What an authenticated connection has shown, and whom an attempt concerns.
use llm_worker_proxy.Shared.{
  ◌≡◌, refl, sym, ap, ◌∙◌, ◌≢◌, ◌⊎◌, inl, inr, arith, true, false, ◌||◌, String, Option, none, some,
  Bool-cases, Option-cases, ==_iff, string_eq, unwrap_or,
}
use llm_worker_proxy.Shared.HashMap
use llm_worker_proxy.Core.State.{Instant}
use llm_worker_proxy.Socket.Auth.{
  WorkerSocketState, WorkerSocketProviderConfig, WorkerConnectQuery, AuthOutcome,
  record_failed_auth, clear_failed_auth, client_is_rate_limited, authenticate_connection,
  check_secret, static_secret_matches, api_key_matches, with_failures, presented,
}

static_secret_lem :
    (s : WorkerSocketState) (provider secret : String)
    → static_secret_matches s provider secret ≡ true
    → (config : WorkerSocketProviderConfig) × (HashMap.get provider s.providers ≡ some config)
      × (config.enabled ≡ true)
      × (secret ≡ config.worker_secret)
unfolding static_secret_matches
static_secret_lem s provider secret h = elim (Option-cases (HashMap.get provider s.providers)) [
  | inl nothing ↦ absurd (ground arith)
  | inr (config, found) ↦
      (config, found, ground arith, ground (arith, ==_iff secret config.worker_secret))
]

-- The providers and the key store stay, whatever the rate limit finds.
limited_frame :
    (s : WorkerSocketState) (now : Instant) (client : String)
    → (client_is_rate_limited s now client).0
      ≡ with_failures s (client_is_rate_limited s now client).0.failed_auth_by_client
unfolding client_is_rate_limited
limited_frame s now client = ground arith

check_secret-authenticated :
    (s : WorkerSocketState) (later : Instant) (client asked provider : String)
    (offered : Option String)
    → (check_secret s later client asked offered).1 ≡ AuthOutcome.authenticated provider
    → (secret : String) × (offered ≡ some secret)
      × (provider ≡ asked)
      × (((config : WorkerSocketProviderConfig) × (HashMap.get asked s.providers ≡ some config)
            × (config.enabled ≡ true)
            × (secret ≡ config.worker_secret))
          ⊎ (api_key_matches s secret ≡ true))
      × (HashMap.get client (check_secret s later client asked offered).0.failed_auth_by_client
          ≡ none)
unfolding check_secret clear_failed_auth
check_secret-authenticated s later client asked provider none h = absurd (cc)
check_secret-authenticated s later client asked provider (some secret) h =
    elim (Bool-cases (static_secret_matches s asked secret || api_key_matches s secret)) [
      | inl matches ↦ (
        secret,
        refl,
        ground arith,
        elim (Bool-cases (static_secret_matches s asked secret)) [
          | inl static ↦ inl (static_secret_lem s asked secret static)
          | inr other ↦ inr (ground arith)
        ],
        rw matches (HashMap.get-remove_self client s.failed_auth_by_client),
      )
      | inr neither ↦ absurd (ground arith)
    ]

check_secret-other :
    (s : WorkerSocketState) (later : Instant) (client other asked : String)
    (offered : Option String)
    → client ≢ other
    → HashMap.get other (check_secret s later client asked offered).0.failed_auth_by_client
      ≡ HashMap.get other s.failed_auth_by_client
unfolding check_secret clear_failed_auth record_failed_auth
check_secret-other s later client other asked none apart = refl
check_secret-other s later client other asked (some secret) apart =
    elim (Bool-cases (static_secret_matches s asked secret || api_key_matches s secret)) [
      | inl matches ↦ rw matches (
          HashMap.get-remove client other s.failed_auth_by_client
          ∙ ground (arith, ==_iff client other))
      | inr neither ↦
          rw neither (HashMap.get-insert_ne client other _ s.failed_auth_by_client apart)
    ]

limited-other :
    (s : WorkerSocketState) (now : Instant) (client other : String)
    → client ≢ other
    → HashMap.get other (client_is_rate_limited s now client).0.failed_auth_by_client
      ≡ HashMap.get other s.failed_auth_by_client
unfolding client_is_rate_limited
limited-other s now client other apart =
    ground (arith, HashMap.get-remove client other s.failed_auth_by_client, ==_iff client other)

-- The state that the rate limit hands to the check of the secret.
abbrev checked : WorkerSocketState → Instant → String → WorkerSocketState
checked s now client = with_failures s (client_is_rate_limited s now client).0.failed_auth_by_client

unlimited-authenticate :
    (s : WorkerSocketState) (now later : Instant) (client : String) (header : Option String)
    (query : WorkerConnectQuery)
    → (client_is_rate_limited s now client).1 ≡ false
    → authenticate_connection s now later client header query
      ≡ check_secret
          (checked s now client)
          later
          client
          (unwrap_or query.provider "local")
          (presented header query)
unfolding authenticate_connection
unlimited-authenticate s now later client header query unlimited = rw unlimited (
    ap
      (λ t. check_secret t later client (unwrap_or query.provider "local") (presented header query))
      (limited_frame s now client))

-- A connection is authenticated only under the provider that it asks for, `local` if it names none,
-- and only if it presents a secret that is the secret of that provider, which is then enabled, or
-- that the key store accepts. Its client's failures are then forgotten.
pub authenticate-Sound :
    (s : WorkerSocketState) (now later : Instant) (client provider : String)
    (header : Option String) (query : WorkerConnectQuery)
    → (authenticate_connection s now later client header query).1
      ≡ AuthOutcome.authenticated provider
    → (secret : String) × (presented header query ≡ some secret)
      × (provider ≡ unwrap_or query.provider "local")
      × (((config : WorkerSocketProviderConfig) × (HashMap.get provider s.providers ≡ some config)
            × (config.enabled ≡ true)
            × (secret ≡ config.worker_secret))
          ⊎ (api_key_matches s secret ≡ true))
      × (HashMap.get client
            (authenticate_connection s now later client header query).0.failed_auth_by_client
          ≡ none)
unfolding authenticate_connection api_key_matches
authenticate-Sound s now later client provider header query h =
    elim (Bool-cases (client_is_rate_limited s now client).1) [
      | inl limited ↦ absurd (ground arith)
      | inr unlimited ↦
          let same = unlimited-authenticate s now later client header query unlimited in
          let (secret, offered, asked, accepted, forgotten) =
            check_secret-authenticated (checked s now client) later client
              (unwrap_or query.provider "local") provider (presented header query)
              (ap (λ r. r.1) (sym same) ∙ h) in
          (
            secret,
            offered,
            asked,
            elim accepted [
              | inl (config, found, on, shown) ↦
                  inl (config, ap (λ k. HashMap.get k s.providers) asked ∙ found, on, shown)
              | inr key ↦ inr key
            ],
            ap (λ r. HashMap.get client r.0.failed_auth_by_client) same ∙ forgotten,
          )
    ]

-- An attempt of one client leaves what is known of every other client as it is.
pub authenticate_other_client :
    (s : WorkerSocketState) (now later : Instant) (client other : String) (header : Option String)
    (query : WorkerConnectQuery)
    → client ≢ other
    → HashMap.get other
        (authenticate_connection s now later client header query).0.failed_auth_by_client
      ≡ HashMap.get other s.failed_auth_by_client
unfolding authenticate_connection
authenticate_other_client s now later client other header query apart =
    elim (Bool-cases (client_is_rate_limited s now client).1) [
      | inl limited ↦ rw limited (limited-other s now client other apart)
      | inr unlimited ↦
          ap (λ r. HashMap.get other r.0.failed_auth_by_client)
            (unlimited-authenticate s now later client header query unlimited)
          ∙ check_secret-other (checked s now client) later client other
              (unwrap_or query.provider "local") (presented header query) apart
          ∙ limited-other s now client other apart
    ]
