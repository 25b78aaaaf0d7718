-- ===== src/Shared/Lists.antt =====
-- Lists as the source's `Vec` and `VecDeque`: lengths, searches and removals over native numbers.
use Prim.Native.Nat.{ℕ, zero, suc, ◌+◌, ◌≤◌}
use mathlib.Core.Path.{◌≡◌, refl, sym, ap}
use mathlib.Core.Logic.{◌⊎◌, inl, inr}
use mathlib.Core.List.{List, [], ◌∷◌, ◌++◌}
use mathlib.Core.Bool.{Bool, true, false, ◌||◌}
use mathlib.Core.Option.{Option, none, some}
use native.Mathlib.Omega.{arith}
use llm_worker_proxy.Shared.Tests.{if◌then◌else◌, Bool-cases, Option-cases}

-- The empty type, at every level.
pub data Never {ℓ} : Type ℓ where

abbrev pub bump_index : Option ℕ → Option ℕ
bump_index none = none
bump_index (some i) = some (suc i)

module _ {ℓ} {A : Type ℓ} where
  abbrev pub length : List A → ℕ
  length [] = 0
  length (x ∷ xs) = suc (length xs)

  abbrev pub is_empty : List A → Bool
  is_empty [] = true
  is_empty (x ∷ xs) = false

  abbrev pub get_elem? : List A → ℕ → Option A
  get_elem? [] i = none
  get_elem? (x ∷ xs) zero = some x
  get_elem? (x ∷ xs) (suc i) = get_elem? xs i

  -- `iter().any(p)`.
  abbrev pub any : (A → Bool) → List A → Bool
  any p [] = false
  any p (x ∷ xs) = p x || any p xs

  -- `iter().find(p)`.
  abbrev pub find : (A → Bool) → List A → Option A
  find p [] = none
  find p (x ∷ xs) = if p x then some x else find p xs

  -- `retain(p)`, and `filter(p)` on an iterator.
  abbrev pub retain : (A → Bool) → List A → List A
  retain p [] = []
  retain p (x ∷ xs) = if p x then x ∷ retain p xs else retain p xs

  -- `iter().position(p)`.
  abbrev pub position : (A → Bool) → List A → Option ℕ
  position p [] = none
  position p (x ∷ xs) = if p x then some 0 else bump_index (position p xs)

  -- `remove(i)`: the element taken out, and the rest; `none` out of range.
  abbrev pub cons_rest : A → Option (A × List A) → Option (A × List A)
  cons_rest x none = none
  cons_rest x (some (y, ys)) = some (y, x ∷ ys)

  abbrev pub remove_idx : List A → ℕ → Option (A × List A)
  remove_idx [] i = none
  remove_idx (x ∷ xs) zero = some (x, xs)
  remove_idx (x ∷ xs) (suc i) = cons_rest x (remove_idx xs i)

  -- Membership, as a position by position disjunction.
  abbrev pub Member : A → List A → Type ℓ
  Member a [] = Never
  Member a (x ∷ xs) = (a ≡ x) ⊎ Member a xs

  -- Every element satisfies `P`.
  abbrev pub All {κ} : (A → Type κ) → List A → Type κ
  All P [] = Unit
  All P (x ∷ xs) = P x × All P xs

module _ {ℓ} {A : Type ℓ} where
  abbrev pub Distinct : List A → Type ℓ
  Distinct [] = Unit
  Distinct (x ∷ xs) = (¬ Member x xs) × Distinct xs

  pub length-append : (xs ys : List A) → length (xs ++ ys) ≡ length xs + length ys
  length-append [] ys = omega arith
  length-append (x ∷ xs) ys = omega (arith, length-append xs ys)

  pub length-retain-le : (p : A → Bool) (xs : List A) → length (retain p xs) ≤ length xs
  length-retain-le p [] = omega arith
  length-retain-le p (x ∷ xs) = ground (arith, length-retain-le p xs)

  pub Member-append_left : (a : A) (xs ys : List A) → Member a xs → Member a (xs ++ ys)
  Member-append_left a (x ∷ xs) ys (inl e) = inl e
  Member-append_left a (x ∷ xs) ys (inr m) = inr (Member-append_left a xs ys m)
  Member-append_left a [] ys m = elim m [ ]

  pub Member-append_right : (a : A) (xs ys : List A) → Member a ys → Member a (xs ++ ys)
  Member-append_right a [] ys m = m
  Member-append_right a (x ∷ xs) ys m = inr (Member-append_right a xs ys m)

  pub Member-append_cases :
      (a : A) (xs ys : List A) → Member a (xs ++ ys) → Member a xs ⊎ Member a ys
  Member-append_cases a [] ys m = inr m
  Member-append_cases a (x ∷ xs) ys (inl e) = inl (inl e)
  Member-append_cases a (x ∷ xs) ys (inr m) = elim (Member-append_cases a xs ys m) [
    | inl left ↦ inl (inr left)
    | inr right ↦ inr right
  ]

  pub Member-retain :
      (p : A → Bool) (a : A) (xs : List A) → Member a (retain p xs) → Member a xs × (p a ≡ true)
  Member-retain p a [] m = elim m [ ]
  Member-retain p a (x ∷ xs) m = elim (Bool-cases (p x)) [
    | inl keep ↦ elim (rw keep at m) [
      | inl e ↦ (inl e, rw e keep)
      | inr rest ↦ let (found, holds) = Member-retain p a xs rest in (inr found, holds)
    ]
    | inr drop ↦ let (found, holds) = Member-retain p a xs (rw drop at m) in (inr found, holds)
  ]

  pub retain-Member :
      (p : A → Bool) (a : A) (xs : List A) → Member a xs → p a ≡ true → Member a (retain p xs)
  retain-Member p a [] m h = elim m [ ]
  retain-Member p a (x ∷ xs) (inl e) h = rw (rw e at h) (inl e)
  retain-Member p a (x ∷ xs) (inr m) h = elim (Bool-cases (p x)) [
    | inl keep ↦ rw keep (inr (retain-Member p a xs m h))
    | inr drop ↦ rw drop (retain-Member p a xs m h)
  ]

  pub any-Member :
      (p : A → Bool) (xs : List A) → any p xs ≡ true → (a : A) × Member a xs × (p a ≡ true)
  any-Member p [] h = absurd (cc)
  any-Member p (x ∷ xs) h = elim (Bool-cases (p x)) [
    | inl hit ↦ (x, inl refl, hit)
    | inr miss ↦ let (a, found, holds) = any-Member p xs (rw miss at h) in (a, inr found, holds)
  ]

  pub Member-any : (p : A → Bool) (a : A) (xs : List A) → Member a xs → p a ≡ true → any p xs ≡ true
  Member-any p a [] m h = elim m [ ]
  Member-any p a (x ∷ xs) (inl e) h = rw (rw e at h)
  Member-any p a (x ∷ xs) (inr m) h = ground (arith, Member-any p a xs m h)

  pub find-Member :
      (p : A → Bool) (xs : List A) {a : A} → find p xs ≡ some a → Member a xs × (p a ≡ true)
  find-Member p [] h = absurd (cc)
  find-Member p (x ∷ xs) {a} h = elim (Bool-cases (p x)) [
    | inl hit ↦ let e : x ≡ a = ground arith in (inl (sym e), rw e at hit)
    | inr miss ↦ let (found, holds) = find-Member p xs (rw miss at h) in (inr found, holds)
  ]

  -- Where `position` points, `remove_idx` finds an element that passes, behind ones that fail.
  pub position-remove_idx :
      (p : A → Bool) (xs : List A) (i : ℕ)
      → position p xs ≡ some i
      → (a : A) × (before : List A) × (after : List A) × (remove_idx xs i
          ≡ some (a, before ++ after))
        × (xs ≡ before ++ (a ∷ after))
        × (p a ≡ true)
        × (any p before ≡ false)
  position-remove_idx p [] i h = absurd (cc)
  position-remove_idx p (x ∷ xs) i h = elim (Bool-cases (p x)) [
    | inl hit ↦ let e : i ≡ 0 = ground arith in (x, [], xs, rw e, refl, hit, refl)
    | inr miss ↦ elim (Option-cases (position p xs)) [
      | inl e ↦ absurd (ground arith)
      | inr (j, e) ↦
          let (a, before, after, taken, split, holds, earlier) = position-remove_idx p xs j e in
          let next : i ≡ suc j = ground arith in
          (a, x ∷ before, after, rw (next, taken), ap (◌∷◌ x) split, holds, ground arith)
    ]
  ]

  pub find-none :
      (p : A → Bool) (a : A) (xs : List A) → find p xs ≡ none → Member a xs → p a ≡ false
  find-none p a [] h m = elim m [ ]
  find-none p a (x ∷ xs) h (inl e) = rw e (ground arith)
  find-none p a (x ∷ xs) h (inr m) = ground (arith, find-none p a xs)

  pub is_empty-eq : (xs : List A) → is_empty xs ≡ true → xs ≡ []
  is_empty-eq [] h = refl
  is_empty-eq (x ∷ xs) h = absurd (cc)
