-- ===== src/Shared/Text.antt =====
-- Texts: the decimal numeral that `format!` prints, and `str::trim`.
use Prim.Native.Nat.{ℕ, zero, suc, ◌+◌, ◌-◌, ◌*◌, ◌/◌, ◌%◌, ◌<◌}
use Prim.Native.Char.{Char, char, code}
use Prim.Native.String.{String, ◌++◌}
use mathlib.Core.Path.{◌≡◌, refl, sym, ap, ◌∙◌}
use mathlib.Core.Logic.{inl, inr}
use mathlib.Core.Bool.{Bool, true, false, ◌||◌, ◌&&◌}
use mathlib.Core.Option.{Option, none, some}
use native.Mathlib.Omega.{arith}
use text.Mathlib.TextLemmas.{append_cancel_left, nil-append, cons-append}
use llm_worker_proxy.Shared.Tests.{ltb, leb, nat_eq, ltb→lt, if◌then◌else◌, Bool-cases}

digit : ℕ → Char
digit zero = char b'0' tt
digit (suc zero) = char b'1' tt
digit (suc (suc zero)) = char b'2' tt
digit (suc (suc (suc zero))) = char b'3' tt
digit (suc (suc (suc (suc zero)))) = char b'4' tt
digit (suc (suc (suc (suc (suc zero))))) = char b'5' tt
digit (suc (suc (suc (suc (suc (suc zero)))))) = char b'6' tt
digit (suc (suc (suc (suc (suc (suc (suc zero))))))) = char b'7' tt
digit (suc (suc (suc (suc (suc (suc (suc (suc zero)))))))) = char b'8' tt
digit _ = char b'9' tt

code-digit : (d : ℕ) → d < 10 → code (digit d) ≡ b'0' + d
unfolding digit
code-digit zero h = refl
code-digit (suc zero) h = refl
code-digit (suc (suc zero)) h = refl
code-digit (suc (suc (suc zero))) h = refl
code-digit (suc (suc (suc (suc zero)))) h = refl
code-digit (suc (suc (suc (suc (suc zero))))) h = refl
code-digit (suc (suc (suc (suc (suc (suc zero)))))) h = refl
code-digit (suc (suc (suc (suc (suc (suc (suc zero))))))) h = refl
code-digit (suc (suc (suc (suc (suc (suc (suc (suc zero)))))))) h = refl
code-digit (suc (suc (suc (suc (suc (suc (suc (suc (suc d))))))))) h = omega arith

-- The digits of `n` in front of `rest`, last digit first; the fuel bounds their number.
digits : ℕ → ℕ → String → String
unfolding digit
digits zero n rest = rest
digits (suc fuel) n rest =
    let more = digits fuel (n / 10) (String.◌∷◌ (digit (n % 10)) rest) in
    if ltb n 10 then String.◌∷◌ (digit n) rest else more

-- What `{}` prints for a `usize`.
unfoldable pub decimal : ℕ → String
unfolding digits
decimal n = digits (suc n) n String.[]

-- The number that a text of digits spells behind `n`.
value : ℕ → String → ℕ
value n String.[] = n
value n (String.◌∷◌ c s) = value (n * 10 + (code c - b'0')) s

value-digits : (fuel n : ℕ) (rest : String) → n < fuel → value 0 (digits fuel n rest) ≡ value n rest
unfolding digits value
value-digits zero n rest h = elim h [ ]
value-digits (suc fuel) n rest h = elim (Bool-cases (ltb n 10)) [
  | inl last ↦
      rw last
        (ap (λ k. value k rest) (omega (arith, code-digit n (omega (arith, ltb→lt n 10 last)))))
  | inr more ↦ rw more (
      value-digits fuel (n / 10) (String.◌∷◌ (digit (n % 10)) rest) (ground arith)
      ∙ ap (λ k. value k rest) (omega (arith, code-digit (n % 10) (omega arith))))
]

-- Distinct numbers print distinct texts.
pub decimal_injective : (m n : ℕ) → decimal m ≡ decimal n → m ≡ n
unfolding decimal value
decimal_injective m n h =
    sym (value-digits (suc m) m String.[] (omega arith))
    ∙ ap (value 0) h
    ∙ value-digits (suc n) n String.[] (omega arith)

-- `format!("{prefix}{n}")`.
unfoldable pub format_id : String → ℕ → String
format_id prefix n = prefix ++ decimal n

pub format_id_injective :
    (prefix : String) (m n : ℕ) → format_id prefix m ≡ format_id prefix n → m ≡ n
unfolding format_id
format_id_injective prefix m n h =
    decimal_injective m n (append_cancel_left prefix (decimal m) (decimal n) h)

-- `char::is_whitespace`: the code points with the property White_Space.
abbrev is_whitespace : Char → Bool
is_whitespace c =
    let n = code c in
    leb 9 n && leb n 13
    || nat_eq n 32
    || nat_eq n 0x85
    || nat_eq n 0xA0
    || nat_eq n 0x1680
    || leb 0x2000 n && leb n 0x200A
    || nat_eq n 0x2028
    || nat_eq n 0x2029
    || nat_eq n 0x202F
    || nat_eq n 0x205F
    || nat_eq n 0x3000

abbrev pub is_empty : String → Bool
is_empty String.[] = true
is_empty (String.◌∷◌ c s) = false

trim_start : String → String
trim_start String.[] = String.[]
trim_start (String.◌∷◌ c s) = if is_whitespace c then trim_start s else String.◌∷◌ c s

abbrev cons_unless_blank : Char → String → String
cons_unless_blank c rest = if is_empty rest && is_whitespace c then String.[] else String.◌∷◌ c rest

trim_end : String → String
trim_end String.[] = String.[]
trim_end (String.◌∷◌ c s) = cons_unless_blank c (trim_end s)

unfoldable pub trim : String → String
unfolding trim_start trim_end
trim s = trim_end (trim_start s)

-- `str::strip_prefix`.
unfoldable pub strip_prefix : String → String → Option String
strip_prefix String.[] s = some s
strip_prefix (String.◌∷◌ c p) String.[] = none
strip_prefix (String.◌∷◌ c p) (String.◌∷◌ d s) =
    if nat_eq (code c) (code d) then strip_prefix p s else none

pub strip_prefix-append : (p s : String) → strip_prefix p (p ++ s) ≡ some s
unfolding strip_prefix
strip_prefix-append String.[] s = ap some (nil-append s)
strip_prefix-append (String.◌∷◌ c p) s =
    rw (cons-append c p s) (ground (arith, strip_prefix-append p s))

abbrev cons_unless_last : Char → Char → String → String
cons_unless_last x c rest =
    if is_empty rest && nat_eq (code c) (code x) then String.[] else String.◌∷◌ c rest

-- `str::trim_end_matches` with a character.
unfoldable pub trim_end_matches : Char → String → String
trim_end_matches x String.[] = String.[]
trim_end_matches x (String.◌∷◌ c s) = cons_unless_last x c (trim_end_matches x s)

abbrev pub one_char : Char → String
one_char c = String.◌∷◌ c String.[]

pub trim_end_matches-append :
    (x : Char) (s : String) → trim_end_matches x (s ++ one_char x) ≡ trim_end_matches x s
unfolding trim_end_matches
trim_end_matches-append x String.[] = rw (nil-append (one_char x)) (ground arith)
trim_end_matches-append x (String.◌∷◌ c s) =
    rw (cons-append c s (one_char x)) (ground (arith, trim_end_matches-append x s))

-- `chars().all(..)`, `chars().take(n)` and the number of characters.
abbrev pub all_chars : (Char → Bool) → String → Bool
all_chars p String.[] = true
all_chars p (String.◌∷◌ c s) = p c && all_chars p s

abbrev pub take_chars : ℕ → String → String
take_chars n String.[] = String.[]
take_chars zero (String.◌∷◌ c s) = String.[]
take_chars (suc n) (String.◌∷◌ c s) = String.◌∷◌ c (take_chars n s)

abbrev pub char_at : String → ℕ → Option Char
char_at String.[] i = none
char_at (String.◌∷◌ c s) zero = some c
char_at (String.◌∷◌ c s) (suc i) = char_at s i

-- `char::len_utf8`, and `str::len`, which counts bytes.
abbrev pub len_utf8 : Char → ℕ
len_utf8 c =
    let n = code c in
    if ltb n 0x80 then 1 else if ltb n 0x800 then 2 else if ltb n 0x1_0000 then 3 else 4

unfoldable pub len : String → ℕ
len String.[] = 0
len (String.◌∷◌ c s) = len_utf8 c + len s
