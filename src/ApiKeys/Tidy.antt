-- ===== src/ApiKeys/Tidy.antt =====
-- The stored keys, call by call: whom the search finds, and that they stay in order.
use llm_worker_proxy.Shared.{
  ℕ, Bool, false, ◌||◌, ◌≡◌, refl, ◌∙◌, inl, inr, arith, String, [], ◌∷◌, Option, none, some, ◌==◌,
  ==_iff, Eq, string_eq, if◌then◌else◌, Bool-cases, Option-cases,
}
use llm_worker_proxy.Shared.HashMap
use llm_worker_proxy.ApiKeys.{StoredApiKey, Keys, validate_from, mark_revoked}

module _ {Hash : Type 0} ⦃eq : Eq Hash⦄ where
  -- Some stored key has the digest.
  unfoldable pub has_hash : Hash → Keys Hash → Bool
  has_hash hash [] = false
  has_hash hash ((id, stored) ∷ keys) = stored.hash == hash || has_hash hash keys

  -- Keys are stored under their own ids, and ids and digests are distinct.
  unfoldable pub IsTidy : Keys Hash → Type 0
  IsTidy [] = Unit
  IsTidy ((id, stored) ∷ keys) =
      (stored.metadata.id ≡ id)
      × (HashMap.get id keys ≡ none)
      × (has_hash stored.hash keys ≡ false)
      × IsTidy keys

  abbrev pub found : Hash → Keys Hash → Option String
  found hash keys = (validate_from hash 0 keys).1

  pub found-now :
      (hash : Hash) (now : ℕ) (keys : Keys Hash) → (validate_from hash now keys).1 ≡ found hash keys
  unfolding validate_from
  found-now hash now [] = refl
  found-now hash now ((id, stored) ∷ keys) = ground (arith, found-now hash now keys)

  pub found-none :
      (hash : Hash) (keys : Keys Hash) → has_hash hash keys ≡ false → found hash keys ≡ none
  unfolding validate_from has_hash
  found-none hash [] h = refl
  found-none hash ((id, stored) ∷ keys) h = ground (arith, found-none hash keys)

  -- Validation, of any secret, changes no answer.
  pub found-validate :
      (hash other : Hash) (now : ℕ) (keys : Keys Hash)
      → found hash (validate_from other now keys).0 ≡ found hash keys
  unfolding validate_from
  found-validate hash other now [] = refl
  found-validate hash other now ((id, stored) ∷ keys) =
      ground (arith, found-validate hash other now keys)

  pub found-insert :
      (hash : Hash) (id : String) (stored : StoredApiKey Hash) (keys : Keys Hash)
      → HashMap.get id keys ≡ none
      → stored.metadata.revoked ≡ false
      → found hash (HashMap.insert id stored keys) ≡ elim (found hash keys) [
        | some holder ↦ some holder
        | none ↦ if stored.hash == hash then some stored.metadata.id else none
      ]
  unfolding validate_from HashMap.get HashMap.insert
  found-insert hash id stored [] new active = ground arith
  found-insert hash id stored ((j, old) ∷ keys) new active =
      ground (arith, found-insert hash id stored keys)

  -- Who is found is stored under the id.
  pub found-known :
      (hash : Hash) (id holder : String) (keys : Keys Hash)
      → IsTidy keys
      → HashMap.get id keys ≡ none
      → found hash keys ≡ some holder
      → (holder == id) ≡ false
  unfolding validate_from HashMap.get IsTidy
  found-known hash id holder [] tidy away h = absurd (cc)
  found-known hash id holder ((j, old) ∷ keys) (own, _, _, tidy) away h = ground (
    arith,
    found-known hash id holder keys tidy,
    ==_iff old.metadata.id j,
    ==_iff j id,
    ==_iff holder id,
  )

  pub found-revoke :
      (hash : Hash) (id : String) (stored : StoredApiKey Hash) (keys : Keys Hash)
      → IsTidy keys
      → HashMap.get id keys ≡ some stored
      → found hash (HashMap.insert id (mark_revoked stored) keys) ≡ elim (found hash keys) [
        | none ↦ none
        | some holder ↦ if holder == id then none else some holder
      ]
  unfolding validate_from HashMap.get HashMap.insert IsTidy
  found-revoke hash id stored [] tidy known = absurd (cc)
  found-revoke hash id stored ((j, old) ∷ keys) (own, away, alone, tidy) known =
      elim (Option-cases (found hash keys)) [
        | inl nobody ↦
            ground
              (arith, found-revoke hash id stored keys tidy, ==_iff j id, ==_iff old.metadata.id id)
        | inr (holder, found) ↦ ground (
          arith,
          found-revoke hash id stored keys tidy,
          found-none hash keys,
          found-known hash j holder keys tidy away found,
          ==_iff j id,
          ==_iff old.hash hash,
          ==_iff old.metadata.id id,
        )
      ]

  pub has_hash-validate :
      (hash other : Hash) (now : ℕ) (keys : Keys Hash)
      → has_hash hash (validate_from other now keys).0 ≡ has_hash hash keys
  unfolding validate_from has_hash
  has_hash-validate hash other now [] = refl
  has_hash-validate hash other now ((id, stored) ∷ keys) =
      ground (arith, has_hash-validate hash other now keys)

  pub has_hash-insert :
      (hash : Hash) (id : String) (stored : StoredApiKey Hash) (keys : Keys Hash)
      → HashMap.get id keys ≡ none
      → has_hash hash (HashMap.insert id stored keys) ≡ (has_hash hash keys || stored.hash == hash)
  unfolding HashMap.get HashMap.insert has_hash
  has_hash-insert hash id stored [] new = ground arith
  has_hash-insert hash id stored ((j, old) ∷ keys) new =
      ground (arith, has_hash-insert hash id stored keys)

  pub has_hash-revoke :
      (hash : Hash) (id : String) (stored : StoredApiKey Hash) (keys : Keys Hash)
      → HashMap.get id keys ≡ some stored
      → has_hash hash (HashMap.insert id (mark_revoked stored) keys) ≡ has_hash hash keys
  unfolding HashMap.get HashMap.insert has_hash
  has_hash-revoke hash id stored [] known = absurd (cc)
  has_hash-revoke hash id stored ((j, old) ∷ keys) known =
      ground (arith, has_hash-revoke hash id stored keys)

  pub get-validate :
      (id : String) (other : Hash) (now : ℕ) (keys : Keys Hash)
      → HashMap.get id keys ≡ none
      → HashMap.get id (validate_from other now keys).0 ≡ none
  unfolding validate_from HashMap.get
  get-validate id other now [] away = refl
  get-validate id other now ((j, stored) ∷ keys) away =
      ground (arith, get-validate id other now keys)

  pub validate-IsTidy :
      (other : Hash) (now : ℕ) (keys : Keys Hash)
      → IsTidy keys
      → IsTidy (validate_from other now keys).0
  unfolding validate_from IsTidy has_hash
  validate-IsTidy other now [] tidy = tidy
  validate-IsTidy other now ((j, stored) ∷ keys) (own, away, alone, tidy) =
      elim (Bool-cases stored.metadata.revoked) [
        | inl gone ↦ rw gone (
          own,
          get-validate j other now keys away,
          has_hash-validate stored.hash other now keys ∙ alone,
          validate-IsTidy other now keys tidy,
        )
        | inr active ↦ elim (Bool-cases (stored.hash == other)) [
          | inl hit ↦ rw (active, hit) (own, away, alone, tidy)
          | inr miss ↦
              rw (active, miss)
                (
                  own,
                  get-validate j other now keys away,
                  has_hash-validate stored.hash other now keys ∙ alone,
                  validate-IsTidy other now keys tidy,
                )
        ]
      ]

  pub create-IsTidy :
      (id : String) (stored : StoredApiKey Hash) (keys : Keys Hash)
      → stored.metadata.id ≡ id
      → HashMap.get id keys ≡ none
      → has_hash stored.hash keys ≡ false
      → IsTidy keys
      → IsTidy (HashMap.insert id stored keys)
  unfolding HashMap.get HashMap.insert IsTidy has_hash
  create-IsTidy id stored [] own new unused tidy = (own, refl, refl, tt)
  create-IsTidy id stored ((j, old) ∷ keys) own new unused (own', away, alone, tidy) =
      elim (Bool-cases (j == id)) [
        | inl same ↦ absurd (ground arith)
        | inr apart ↦ rw apart (
          own',
          ground (arith, HashMap.get-insert id j stored keys, ==_iff j id, ==_iff id j),
          ground (
            arith,
            has_hash-insert old.hash id stored keys,
            ==_iff old.hash stored.hash,
            ==_iff stored.hash old.hash,
          ),
          create-IsTidy id stored keys own (ground arith) (ground arith) tidy,
        )
      ]

  pub revoke-IsTidy :
      (id : String) (stored : StoredApiKey Hash) (keys : Keys Hash)
      → HashMap.get id keys ≡ some stored
      → IsTidy keys
      → IsTidy (HashMap.insert id (mark_revoked stored) keys)
  unfolding HashMap.get HashMap.insert IsTidy
  revoke-IsTidy id stored [] known tidy = absurd (cc)
  revoke-IsTidy id stored ((j, old) ∷ keys) known (own, away, alone, tidy) =
      elim (Bool-cases (j == id)) [
        | inl same ↦
            rw same (ground (arith, ==_iff j id), ground (arith, ==_iff j id), ground arith, tidy)
        | inr apart ↦ rw apart (
          own,
          ground
              (arith, HashMap.get-insert id j (mark_revoked stored) keys, ==_iff j id, ==_iff id j),
          has_hash-revoke old.hash id stored keys (ground arith) ∙ alone,
          revoke-IsTidy id stored keys (ground arith) tidy,
        )
      ]
