-- ===== src/ApiKeys/Granted.antt =====
-- The key store against its promise: whom it lets in is read off the history of its calls.
use llm_worker_proxy.Shared.{
  ℕ, Bool, true, false, not, ◌||◌, ◌≡◌, refl, ◌∙◌, inl, inr, arith, ◌&&◌, String, List, [], ◌∷◌,
  Option, none, some, ◌==◌, ==_iff, Eq, string_eq, if◌then◌else◌, Option-cases,
}
use llm_worker_proxy.Shared.HashMap
use llm_worker_proxy.ApiKeys.{
  StoredApiKey, Keys, new_metadata, create_key, validate_from, validate_key, mark_revoked,
  revoke_key,
}
use llm_worker_proxy.ApiKeys.Tidy.{
  IsTidy, create-IsTidy, found, found-insert, found-known, found-none, found-now, found-revoke,
  found-validate, get-validate, has_hash, has_hash-insert, has_hash-revoke, has_hash-validate,
  revoke-IsTidy, validate-IsTidy,
}

-- A call of the store, with the id, the secret and the time that it draws.
pub data KeyCall : Type 0 where
  create : String → String → String → ℕ → KeyCall
  validate : String → ℕ → KeyCall
  revoke : String → KeyCall

-- Whom the calls so far, the latest first, let in with a secret, and as which key.
unfoldable pub granted : List KeyCall → String → Option String
granted [] raw_key = none
granted (KeyCall.create id name secret now ∷ calls) raw_key =
    let before = granted calls raw_key in if secret == raw_key then some id else before
granted (KeyCall.validate secret now ∷ calls) raw_key = granted calls raw_key
granted (KeyCall.revoke id ∷ calls) raw_key = elim (granted calls raw_key) [
  | none ↦ none
  | some holder ↦ if holder == id then none else some holder
]

-- An id, and a secret, that an earlier call has drawn.
unfoldable pub drawn_id : List KeyCall → String → Bool
drawn_id [] i = false
drawn_id (KeyCall.create id name secret now ∷ calls) i = id == i || drawn_id calls i
drawn_id (KeyCall.validate secret now ∷ calls) i = drawn_id calls i
drawn_id (KeyCall.revoke id ∷ calls) i = drawn_id calls i

unfoldable pub drawn_secret : List KeyCall → String → Bool
drawn_secret [] s = false
drawn_secret (KeyCall.create id name secret now ∷ calls) s = secret == s || drawn_secret calls s
drawn_secret (KeyCall.validate secret now ∷ calls) s = drawn_secret calls s
drawn_secret (KeyCall.revoke id ∷ calls) s = drawn_secret calls s

-- No id and no secret is drawn twice.
unfoldable pub fresh : List KeyCall → Bool
fresh [] = true
fresh (KeyCall.create id name secret now ∷ calls) =
    not (drawn_id calls id) && not (drawn_secret calls secret) && fresh calls
fresh (KeyCall.validate secret now ∷ calls) = fresh calls
fresh (KeyCall.revoke id ∷ calls) = fresh calls

module _ {Hash : Type 0} ⦃eq : Eq Hash⦄ (sha256_hash : String → Hash) where
  abbrev pub key_call : Keys Hash → KeyCall → Keys Hash
  key_call keys (KeyCall.create id name secret now) =
      (create_key sha256_hash keys id name secret now).0
  key_call keys (KeyCall.validate secret now) = (validate_key sha256_hash keys secret now).0
  key_call keys (KeyCall.revoke id) = (revoke_key keys id).0

  -- The store behind the calls, the latest first.
  unfoldable pub key_run : List KeyCall → Keys Hash
  key_run [] = []
  key_run (call ∷ calls) = key_call (key_run calls) call

module _ {Hash : Type 0} ⦃eq : Eq Hash⦄ (sha256_hash : String → Hash)
    (collision_free : (a b : String) → sha256_hash a ≡ sha256_hash b → a ≡ b) where
  -- The store behind the calls agrees with them.
  record Agrees (calls : List KeyCall) (keys : Keys Hash) : Type 0 where
    tidy : IsTidy keys
    ids : (i : String) → drawn_id calls i ≡ false → HashMap.get i keys ≡ none
    secrets : (s : String) → drawn_secret calls s ≡ false → has_hash (sha256_hash s) keys ≡ false
    answers : (raw_key : String) → found (sha256_hash raw_key) keys ≡ granted calls raw_key

  Agrees-create :
      (calls : List KeyCall) (keys : Keys Hash) (id name secret : String) (now : ℕ)
      → drawn_id calls id ≡ false
      → drawn_secret calls secret ≡ false
      → Agrees calls keys
      → Agrees
          (KeyCall.create id name secret now ∷ calls)
          (create_key sha256_hash keys id name secret now).0
  unfolding create_key granted drawn_id drawn_secret
  Agrees-create calls keys id name secret now new unused a = record {
    tidy = create-IsTidy id stored keys refl (a.ids id new) (a.secrets secret unused) a.tidy;
    ids = λ i h. ground (arith, HashMap.get-insert id i stored keys, a.ids i);
    secrets = λ s h. ground (
      arith,
      has_hash-insert (sha256_hash s) id stored keys (a.ids id new),
      a.secrets s,
      ==_iff secret s,
      ==_iff (sha256_hash secret) (sha256_hash s),
      collision_free secret s,
    );
    answers = λ raw. ground (
      arith,
      found-insert (sha256_hash raw) id stored keys (a.ids id new) refl,
      a.answers raw,
      a.secrets raw,
      found-none (sha256_hash raw) keys,
      ==_iff secret raw,
      ==_iff (sha256_hash secret) (sha256_hash raw),
      collision_free secret raw,
    );
  }
    where
      stored : StoredApiKey Hash
      stored = record { metadata = new_metadata id name secret now; hash = sha256_hash secret }

  Agrees-validate :
      (calls : List KeyCall) (keys : Keys Hash) (secret : String) (now : ℕ)
      → Agrees calls keys
      → Agrees (KeyCall.validate secret now ∷ calls) (validate_key sha256_hash keys secret now).0
  unfolding granted drawn_id drawn_secret
  Agrees-validate calls keys secret now a = record {
    tidy = validate-IsTidy (sha256_hash secret) now keys a.tidy;
    ids = λ i h. get-validate i (sha256_hash secret) now keys (a.ids i h);
    secrets =
        λ s h. has_hash-validate (sha256_hash s) (sha256_hash secret) now keys ∙ a.secrets s h;
    answers = λ raw. found-validate (sha256_hash raw) (sha256_hash secret) now keys ∙ a.answers raw;
  }

  Agrees-revoke :
      (calls : List KeyCall) (keys : Keys Hash) (id : String)
      → Agrees calls keys
      → Agrees (KeyCall.revoke id ∷ calls) (revoke_key keys id).0
  unfolding revoke_key granted drawn_id drawn_secret
  Agrees-revoke calls keys id a = elim (Option-cases (HashMap.get id keys)) [
    | inl unknown ↦
        rw (unknown, revoke_key)
          (record {
            tidy = a.tidy;
            ids = a.ids;
            secrets = a.secrets;
            answers = λ raw. elim (Option-cases (found (sha256_hash raw) keys)) [
              | inl nobody ↦ ground (arith, a.answers raw)
              | inr (holder, held) ↦ ground (
                arith,
                a.answers raw,
                found-known (sha256_hash raw) id holder keys a.tidy unknown held,
              )
            ];
          })
    | inr (stored, known) ↦
        rw (known, revoke_key)
          (record {
            tidy = revoke-IsTidy id stored keys known a.tidy;
            ids = λ i h.
                ground
                  (arith, a.ids i, HashMap.get-insert id i (mark_revoked stored) keys, ==_iff id i);
            secrets = λ s h. has_hash-revoke (sha256_hash s) id stored keys known ∙ a.secrets s h;
            answers = λ raw.
                ground (
                  arith,
                  a.answers raw,
                  found-revoke (sha256_hash raw) id stored keys a.tidy known,
                );
          })
  ]

  run-Agrees :
      (calls : List KeyCall) → fresh calls ≡ true → Agrees calls (key_run sha256_hash calls)
  unfolding key_run fresh IsTidy HashMap.get has_hash granted validate_from
  run-Agrees [] new = record {
    tidy = tt;
    ids = λ i h. refl;
    secrets = λ s h. refl;
    answers = λ raw. refl;
  }
  run-Agrees (KeyCall.create id name secret now ∷ calls) new =
      Agrees-create calls (key_run sha256_hash calls) id name secret now (ground arith)
        (ground arith) (run-Agrees calls (ground arith))
  run-Agrees (KeyCall.validate secret now ∷ calls) new =
      Agrees-validate calls (key_run sha256_hash calls) secret now (run-Agrees calls new)
  run-Agrees (KeyCall.revoke id ∷ calls) new =
      Agrees-revoke calls (key_run sha256_hash calls) id (run-Agrees calls new)

-- If no two secrets have one digest, and no id and no secret is drawn twice, then behind any history
-- of calls the store validates a secret exactly as the history grants it: as the key that was created
-- with it, unless that key has been revoked since.
pub validate_refines_granted :
    {Hash : Type 0} ⦃eq : Eq Hash⦄ (sha256_hash : String → Hash)
    → ((a b : String) → sha256_hash a ≡ sha256_hash b → a ≡ b)
    → (calls : List KeyCall) (raw_key : String) (now : ℕ) → fresh calls ≡ true
    → (validate_key sha256_hash (key_run sha256_hash calls) raw_key now).1 ≡ granted calls raw_key
validate_refines_granted sha256_hash collision_free calls raw_key now new =
    found-now (sha256_hash raw_key) now (key_run sha256_hash calls)
    ∙ (run-Agrees sha256_hash collision_free calls new).answers raw_key
