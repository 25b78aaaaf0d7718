-- ===== src/Cloud/Escape.antt =====
-- crates/modelrelay-cloud/src/routes/dashboard.rs: `html_escape`, five replacements one behind the
-- other, against one pass.
use Prim.Native.Char.{Char, code}
use Prim.Native.String.{◌++◌}
use text.Mathlib.TextLemmas.{append_assoc, cons-append, nil-append, append-nil}
use llm_worker_proxy.Shared.{
  ℕ, ◌≡◌, refl, sym, ap, ◌∙◌, inl, inr, arith, Bool, true, false, not, ◌||◌, String, nat_eq,
  if◌then◌else◌, Bool-cases,
}
use llm_worker_proxy.Shared.Text.{all_chars, one_char}

-- `str::replace` of one character.
unfoldable pub replace_char : Char → String → String → String
replace_char x r String.[] = String.[]
replace_char x r (String.◌∷◌ c s) =
    let rest = replace_char x r s in
    if nat_eq (code c) (code x) then r ++ rest else String.◌∷◌ c rest

unfoldable pub html_escape : String → String
html_escape s = replace_char "'" "&#x27;" (
    replace_char "\"" "&quot;"
      (replace_char ">" "&gt;" (replace_char "<" "&lt;" (replace_char "&" "&amp;" s))))

-- The entity of a character, or the character.
unfoldable pub entity : Char → String
entity c =
    let is = λ (n : ℕ). nat_eq (code c) n in
    if is b'&'
    then "&amp;"
    else if is b'<'
    then "&lt;"
    else if is b'>'
    then "&gt;"
    else if is b'"'
    then "&quot;"
    else if is b'\''
    then "&#x27;"
    else one_char c

unfoldable pub one_pass : String → String
one_pass String.[] = String.[]
one_pass (String.◌∷◌ c s) = entity c ++ one_pass s

replace-append :
    (x : Char) (r s t : String)
    → replace_char x r (s ++ t) ≡ replace_char x r s ++ replace_char x r t
unfolding replace_char
replace-append x r String.[] t =
    ap (replace_char x r) (nil-append t) ∙ sym (nil-append (replace_char x r t))
replace-append x r (String.◌∷◌ c s) t = elim (Bool-cases (nat_eq (code c) (code x))) [
  | inl hit ↦ rw (cons-append c s t) (
      rw hit (
        ap (λ k. r ++ k) (replace-append x r s t)
        ∙ sym (append_assoc r (replace_char x r s) (replace_char x r t))))
  | inr miss ↦ rw (cons-append c s t) (
      rw miss (
        ap (λ k. String.◌∷◌ c k) (replace-append x r s t)
        ∙ sym (cons-append c (replace_char x r s) (replace_char x r t))))
]

html_escape-append : (s t : String) → html_escape (s ++ t) ≡ html_escape s ++ html_escape t
unfolding html_escape
html_escape-append s t = simp replace-append refl

replace-hit :
    (x : Char) (r : String) (c : Char)
    → nat_eq (code c) (code x) ≡ true
    → replace_char x r (one_char c) ≡ r
unfolding replace_char
replace-hit x r c hit = rw hit (append-nil r)

replace-miss :
    (x : Char) (r : String) (c : Char)
    → nat_eq (code c) (code x) ≡ false
    → replace_char x r (one_char c) ≡ one_char c
unfolding replace_char
replace-miss x r c miss = rw miss refl

-- The later replacements.
abbrev from_quote : String → String
from_quote s = replace_char "'" "&#x27;" (replace_char "\"" "&quot;" s)

abbrev from_less : String → String
from_less s = from_quote (replace_char ">" "&gt;" (replace_char "<" "&lt;" s))

html_escape-one : (c : Char) → html_escape (one_char c) ≡ entity c
unfolding html_escape entity replace_char
html_escape-one c = elim (Bool-cases (nat_eq (code c) b'&')) [
  | inl amp ↦ ap from_less (replace-hit "&" "&amp;" c amp) ∙ rw (amp, entity) refl
  | inr no_amp ↦
      ap from_less (replace-miss "&" "&amp;" c no_amp) ∙ elim (Bool-cases (nat_eq (code c) b'<')) [
        | inl less ↦
            ap (λ k. from_quote (replace_char ">" "&gt;" k)) (replace-hit "<" "&lt;" c less)
            ∙ rw (no_amp, less, entity) refl
        | inr no_less ↦
            ap (λ k. from_quote (replace_char ">" "&gt;" k)) (replace-miss "<" "&lt;" c no_less)
            ∙ elim (Bool-cases (nat_eq (code c) b'>')) [
              | inl more ↦
                  ap from_quote (replace-hit ">" "&gt;" c more)
                  ∙ rw (no_amp, no_less, more, entity) refl
              | inr no_more ↦
                  ap from_quote (replace-miss ">" "&gt;" c no_more) ∙ quotes no_amp no_less no_more
            ]
      ]
]
  where
    quotes :
        nat_eq (code c) b'&' ≡ false
        → nat_eq (code c) b'<' ≡ false
        → nat_eq (code c) b'>' ≡ false
        → from_quote (one_char c) ≡ entity c
    quotes no_amp no_less no_more = elim (Bool-cases (nat_eq (code c) b'"')) [
      | inl double ↦
          ap (replace_char "'" "&#x27;") (replace-hit "\"" "&quot;" c double)
          ∙ rw (no_amp, no_less, no_more, double, entity) refl
      | inr no_double ↦
          ap (replace_char "'" "&#x27;") (replace-miss "\"" "&quot;" c no_double)
          ∙ elim (Bool-cases (nat_eq (code c) b'\'')) [
            | inl single ↦
                replace-hit "'" "&#x27;" c single
                ∙ rw (no_amp, no_less, no_more, no_double, single, entity) refl
            | inr no_single ↦
                replace-miss "'" "&#x27;" c no_single
                ∙ rw (no_amp, no_less, no_more, no_double, no_single, entity) refl
          ]
    ]

html_escape_single : (s : String) → html_escape s ≡ one_pass s
unfolding html_escape replace_char one_pass
html_escape_single String.[] = refl
html_escape_single (String.◌∷◌ c s) =
    ap html_escape (sym (cons-append c String.[] s ∙ ap (String.◌∷◌ c) (nil-append s)))
    ∙ html_escape-append (one_char c) s
    ∙ ap (λ k. k ++ html_escape s) (html_escape-one c)
    ∙ ap (λ k. entity c ++ k) (html_escape_single s)

-- A character that can end a text or open a tag in HTML.
abbrev pub is_markup : Char → Bool
is_markup c = let is = λ (n : ℕ). nat_eq (code c) n in is b'<' || is b'>' || is b'"' || is b'\''

all_chars-append :
    (p : Char → Bool) (s t : String)
    → all_chars p s ≡ true
    → all_chars p t ≡ true
    → all_chars p (s ++ t) ≡ true
all_chars-append p String.[] t hs ht = rw (nil-append t) ht
all_chars-append p (String.◌∷◌ c s) t hs ht =
    rw (cons-append c s t) (ground (arith, all_chars-append p s t))

entity-plain : (c : Char) → all_chars (λ d. not (is_markup d)) (entity c) ≡ true
unfolding entity
entity-plain c = elim (Bool-cases (nat_eq (code c) b'&')) [
  | inl amp ↦ rw (amp, entity) refl
  | inr no_amp ↦ elim (Bool-cases (nat_eq (code c) b'<')) [
    | inl less ↦ rw (no_amp, less, entity) refl
    | inr no_less ↦ elim (Bool-cases (nat_eq (code c) b'>')) [
      | inl more ↦ rw (no_amp, no_less, more, entity) refl
      | inr no_more ↦ elim (Bool-cases (nat_eq (code c) b'"')) [
        | inl double ↦ rw (no_amp, no_less, no_more, double, entity) refl
        | inr no_double ↦ elim (Bool-cases (nat_eq (code c) b'\'')) [
          | inl single ↦ rw (no_amp, no_less, no_more, no_double, single, entity) refl
          | inr no_single ↦
              rw (no_amp, no_less, no_more, no_double, no_single, entity) (ground arith)
        ]
      ]
    ]
  ]
]

one_pass-plain : (s : String) → all_chars (λ d. not (is_markup d)) (one_pass s) ≡ true
unfolding one_pass
one_pass-plain String.[] = refl
one_pass-plain (String.◌∷◌ c s) =
    all_chars-append (λ d. not (is_markup d)) (entity c) (one_pass s) (entity-plain c)
      (one_pass-plain s)

-- The five replacements in a row give what one pass over the text gives, which puts an entity for each
-- of the five characters and leaves the others: no replacement touches what another has put in. The
-- result has no angle bracket and no quotation mark.
pub html_escape_is_one_pass :
    (s : String)
    → (html_escape s ≡ one_pass s) × (all_chars (λ c. not (is_markup c)) (html_escape s) ≡ true)
html_escape_is_one_pass s = (
  html_escape_single s,
  ap (all_chars (λ c. not (is_markup c))) (html_escape_single s) ∙ one_pass-plain s,
)
