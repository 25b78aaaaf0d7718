-- ===== src/ApiKeys/Format.antt =====
-- The format of the keys: what is generated is accepted.
use Prim.Native.Char.{Char}
use Prim.Native.String.{◌++◌}
use llm_worker_proxy.Shared.{
  ℕ, zero, suc, ◌<◌, ◌≡◌, refl, inl, inr, arith, Bool, true, String, List, [], ◌∷◌, some, Member,
  length,
}
use llm_worker_proxy.Shared.Text.{strip_prefix-append, all_chars, char_at, len}
use llm_worker_proxy.ApiKeys.{
  api_key_prefix, api_key_random_len, charset, random_part, generate_api_key, is_ascii,
  is_ascii_alphanumeric, valid_api_key,
}

chars : String → ℕ
chars String.[] = 0
chars (String.◌∷◌ c s) = suc (chars s)

char_at_lem :
    (p : Char → Bool) (s : String) (i : ℕ)
    → i < chars s
    → all_chars p s ≡ true
    → (c : Char) × (char_at s i ≡ some c) × (p c ≡ true)
unfolding chars
char_at_lem p String.[] i h all = absurd (omega (arith, h))
char_at_lem p (String.◌∷◌ c s) zero h all = (c, refl, ground arith)
char_at_lem p (String.◌∷◌ c s) (suc i) h all = char_at_lem p s i (omega (arith, h)) (ground arith)

charset_lem :
    (i : ℕ) → i < 62 → (c : Char) × (char_at charset i ≡ some c) × (is_ascii_alphanumeric c ≡ true)
unfolding chars
charset_lem i h = char_at_lem is_ascii_alphanumeric charset i h refl

alphanumeric-ascii : (c : Char) → is_ascii_alphanumeric c ≡ true → is_ascii c ≡ true
alphanumeric-ascii c h = ground arith

-- What the random part is like.
record IsRandom (n : ℕ) (part : String) : Type 0 where
  long : len part ≡ n
  ascii : all_chars is_ascii part ≡ true
  alphanumeric : all_chars is_ascii_alphanumeric part ≡ true

random_part-IsRandom :
    (indices : List ℕ)
    → ((i : ℕ) → Member i indices → i < 62)
    → (part : String) × (random_part indices ≡ some part) × IsRandom (length indices) part
unfolding random_part len
random_part-IsRandom [] within =
    ("", refl, record { long = refl; ascii = refl; alphanumeric = refl })
random_part-IsRandom (i ∷ indices) within =
    let (c, at, alnum) = charset_lem i (within i (inl refl)) in
    let (rest, made, random) = random_part-IsRandom indices (λ j m. within j (inr m)) in
    (
      String.◌∷◌ c rest,
      rw (at, made) refl,
      record {
        long = ground (arith, random.long, alphanumeric-ascii c alnum);
        ascii = ground (arith, random.ascii, alphanumeric-ascii c alnum);
        alphanumeric = ground (arith, random.alphanumeric);
      },
    )

-- Every key that is generated, from 32 indices into the character set, is a key of the format that an
-- import accepts.
pub generated_keys_are_importable :
    (indices : List ℕ)
    → ((i : ℕ) → Member i indices → i < 62)
    → length indices ≡ api_key_random_len
    → (key : String) × (generate_api_key indices ≡ some key) × (valid_api_key key ≡ true)
unfolding valid_api_key
generated_keys_are_importable indices within enough =
    let (part, made, random) = random_part-IsRandom indices within in
    (
      api_key_prefix ++ part,
      rw made refl,
      rw (strip_prefix-append api_key_prefix part)
          (ground (arith, random.long, random.ascii, random.alphanumeric, enough)),
    )
