-- ===== src/ApiKeys/Tests.antt =====
-- The theorems about API keys, applied to small histories. The digest of the tests is the text itself.
use llm_worker_proxy.Shared.{
  ℕ, ◌<◌, ◌≡◌, refl, arith, true, String, List, [], ◌∷◌, some, string_eq, Member, inl, inr, Bool,
  ltb, ◌&&◌,
}
use llm_worker_proxy.ApiKeys.{validate_key, generate_api_key, valid_api_key}
use llm_worker_proxy.ApiKeys.Granted.{
  KeyCall, granted, drawn_id, drawn_secret, fresh, key_run, validate_refines_granted,
}
use llm_worker_proxy.ApiKeys.Format.{generated_keys_are_importable}

-- Two keys are created, the latest call first, and one of them is used and revoked.
abbrev calls : List KeyCall
calls =
    KeyCall.revoke "one"
    ∷ KeyCall.validate "secret" 3
    ∷ KeyCall.create "two" "bob" "other" 2
    ∷ KeyCall.create "one" "alice" "secret" 1
    ∷ []

validate_refines_granted_example :
    (validate_key (λ (s : String). s) (key_run (λ (s : String). s) calls) "other" 4).1
    ≡ granted calls "other"
unfolding fresh drawn_id drawn_secret
validate_refines_granted_example =
    validate_refines_granted (λ (s : String). s) (λ a b e. e) calls "other" 4 refl

abbrev zeros : List ℕ
zeros =
    0 ∷ 0 ∷ 0 ∷ 0 ∷ 0 ∷ 0 ∷ 0 ∷ 0 ∷ 0 ∷ 0 ∷ 0 ∷ 0 ∷ 0 ∷ 0 ∷ 0 ∷ 0 ∷ 0 ∷ 0 ∷ 0 ∷ 0 ∷ 0 ∷ 0 ∷ 0 ∷ 0
    ∷ 0 ∷ 0 ∷ 0 ∷ 0 ∷ 0 ∷ 0 ∷ 0 ∷ 61 ∷ []

all_below : List ℕ → Bool
all_below [] = true
all_below (i ∷ indices) = ltb i 62 && all_below indices

all_below-lt : (indices : List ℕ) → all_below indices ≡ true → (i : ℕ) → Member i indices → i < 62
unfolding all_below
all_below-lt [] h i m = elim m [ ]
all_below-lt (j ∷ indices) h i (inl e) = ground (arith, e, h)
all_below-lt (j ∷ indices) h i (inr m) = all_below-lt indices (ground arith) i m

generated_keys_are_importable_example :
    (key : String) × (generate_api_key zeros ≡ some key) × (valid_api_key key ≡ true)
unfolding all_below
generated_keys_are_importable_example =
    generated_keys_are_importable zeros (all_below-lt zeros refl) refl
