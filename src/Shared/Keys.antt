-- ===== src/Shared/Keys.antt =====
-- Boolean equality as an interface, and its instance for texts.
use Prim.Native.String.{String}
use mathlib.Core.Path.{◌≡◌, refl, subst}
use mathlib.Core.Logic.{◌↔◌}
use mathlib.Core.Bool.{Bool, true}
use mathlib.Core.List.{List}
use llm_worker_proxy.Shared.Lists.{any, Member, any-Member, Member-any}
use text.Mathlib.Text.{◌==◌ as str_eq}
use text.Mathlib.TextEquality.{eq_iff as str_eq_iff}

-- The trait `Eq`, with what its users take for granted.
pub record Eq {ℓ} (A : Type ℓ) : Type ℓ where
  pub eq : A → A → Bool
  pub eq_iff : (x y : A) → (eq x y ≡ true) ↔ (x ≡ y)

module _ {ℓ} {A : Type ℓ} ⦃eq_a : Eq A⦄ where
  infix 50 ◌==◌
  abbrev pub ◌==◌ : A → A → Bool
  x == y = eq_a.eq x y

  pub ==_iff : (x y : A) → ((x == y) ≡ true) ↔ (x ≡ y)
  ==_iff x y = eq_a.eq_iff x y

  pub ==_refl : (x : A) → (x == x) ≡ true
  ==_refl x = (==_iff x x).1 refl

instance abbrev pub string_eq : Eq String
string_eq = record { eq_iff = str_eq_iff; eq = str_eq }

-- `iter().any(|y| y == x)`, and the lookup of a `HashSet`.
abbrev pub contains {ℓ} : {A : Type ℓ} ⦃e : Eq A⦄ → A → List A → Bool
contains a xs = any (λ x. x == a) xs

pub contains-Member {ℓ} :
    {A : Type ℓ} ⦃e : Eq A⦄ (a : A) (xs : List A) → contains a xs ≡ true → Member a xs
contains-Member a xs h =
    let (x, found, same) = any-Member (λ x. x == a) xs h in
    subst (λ y. Member y xs) ((==_iff x a).0 same) found

pub Member-contains {ℓ} :
    {A : Type ℓ} ⦃e : Eq A⦄ (a : A) (xs : List A) → Member a xs → contains a xs ≡ true
Member-contains a xs m = Member-any (λ x. x == a) a xs m (==_refl a)
