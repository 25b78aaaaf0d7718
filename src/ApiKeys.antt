-- ===== src/ApiKeys.antt =====
-- crates/modelrelay-server/src/api_keys.rs: the format of the keys and `InMemoryApiKeyStore`. The
-- digest of `sha2` is a parameter, and so are the new id, the random indices and the clock. The
-- store's operations here cannot fail, so the `Result` of the trait is left out. The store in
-- Postgres is queries to a database and is not modelled.
pub mod Tidy
pub mod Granted
pub mod Format
mod Tests
use Prim.Native.Char.{Char, code}
use Prim.Native.String.{◌++◌}
use llm_worker_proxy.Shared.{
  ℕ, zero, suc, ◌+◌, Bool, true, false, ◌&&◌, String, List, [], ◌∷◌, Option, none, some, ◌==◌, Eq,
  string_eq, if◌then◌else◌, is_some_and, map, ◌||◌, leb, ltb, nat_eq, ◌>>=◌,
}
use llm_worker_proxy.Shared.Text.{strip_prefix, all_chars, take_chars, char_at, len}
use llm_worker_proxy.Shared.HashMap
use llm_worker_proxy.Shared.HashMap.{HashMap}

abbrev pub api_key_prefix : String
api_key_prefix = "mr_live_"

abbrev pub api_key_random_len : ℕ
api_key_random_len = 32

abbrev pub charset : String
charset = "abcdefghijklmnopqrstuvwxyzABCDEFGHIJKLMNOPQRSTUVWXYZ0123456789"

pub record ApiKeyMetadata : Type 0 where
  pub id : String
  pub name : String
  pub prefix : String
  pub created_at : ℕ
  pub last_used_at : Option ℕ
  pub revoked : Bool

-- `CHARSET[idx] as char` for each of the random indices; an index outside would be a panic.
unfoldable pub random_part : List ℕ → Option String
random_part [] = some ""
random_part (idx ∷ indices) = do
  c ← char_at charset idx
  rest ← random_part indices
  some (String.◌∷◌ c rest)

abbrev pub generate_api_key : List ℕ → Option String
generate_api_key indices = random_part indices >>= λ part. some (api_key_prefix ++ part)

abbrev pub is_ascii : Char → Bool
is_ascii c = ltb (code c) 0x80

-- `u8::is_ascii_alphanumeric`; a byte of any other character is above 0x7F.
abbrev pub is_ascii_alphanumeric : Char → Bool
is_ascii_alphanumeric c =
    let n = code c in
    leb b'0' n && leb n b'9' || leb b'A' n && leb n b'Z' || leb b'a' n && leb n b'z'

unfoldable pub valid_api_key : String → Bool
valid_api_key raw_key = is_some_and (strip_prefix api_key_prefix raw_key) (λ suffix.
    nat_eq (len suffix) api_key_random_len
    && all_chars is_ascii suffix
    && all_chars is_ascii_alphanumeric suffix)

module _ (Hash : Type 0) where
  pub record StoredApiKey : Type 0 where
    pub metadata : ApiKeyMetadata
    pub hash : Hash

  abbrev pub Keys : Type 0
  Keys = HashMap String StoredApiKey

abbrev pub new_metadata : String → String → String → ℕ → ApiKeyMetadata
new_metadata id name raw_secret now = record {
  id = id;
  name = name;
  prefix = take_chars (8 + len api_key_prefix) raw_secret;
  created_at = now;
  last_used_at = none;
  revoked = false;
}

module _ {Hash : Type 0} ⦃eq : Eq Hash⦄ where
  abbrev pub mark_used : ℕ → StoredApiKey Hash → StoredApiKey Hash
  mark_used now stored = record stored {
    metadata = record stored.metadata { last_used_at = some now };
  }

  -- The loop over the stored keys.
  unfoldable pub validate_from : Hash → ℕ → Keys Hash → Keys Hash × Option String
  validate_from hash now [] = ([], none)
  validate_from hash now ((id, stored) ∷ keys) =
      let (keys', found) = validate_from hash now keys in
      if stored.metadata.revoked
      then ((id, stored) ∷ keys', found)
      else if stored.hash == hash
      then ((id, mark_used now stored) ∷ keys, some stored.metadata.id)
      else ((id, stored) ∷ keys', found)

module _ {Hash : Type 0} ⦃eq : Eq Hash⦄ (sha256_hash : String → Hash) where
  unfoldable pub create_key :
      Keys Hash → String → String → String → ℕ → Keys Hash × ApiKeyMetadata × String
  create_key keys id name raw_secret now =
      let metadata : ApiKeyMetadata = new_metadata id name raw_secret now in
      (
        HashMap.insert id (record { metadata = metadata; hash = sha256_hash raw_secret }) keys,
        metadata,
        raw_secret,
      )

  abbrev pub validate_key : Keys Hash → String → ℕ → Keys Hash × Option String
  validate_key keys raw_key now = validate_from (sha256_hash raw_key) now keys

abbrev pub mark_revoked : {Hash : Type 0} → StoredApiKey Hash → StoredApiKey Hash
mark_revoked stored = record stored { metadata = record stored.metadata { revoked = true } }

unfoldable pub revoke_key : {Hash : Type 0} → Keys Hash → String → Keys Hash × Bool
revoke_key keys id = elim (HashMap.get id keys) [
  | none ↦ (keys, false)
  | some stored ↦ (HashMap.insert id (mark_revoked stored) keys, true)
]

unfoldable pub list_keys : {Hash : Type 0} → Keys Hash → List ApiKeyMetadata
list_keys keys = map (λ stored. stored.metadata) (HashMap.values keys)
