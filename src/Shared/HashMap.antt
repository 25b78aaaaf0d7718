-- ===== src/Shared/HashMap.antt =====
-- `std::collections::HashMap` as an association list: a new key goes to the end, a known key keeps
-- its place. The list's order stands for the iteration order, which the source leaves open.
use mathlib.Core.Path.{◌≡◌, refl, sym, ap, ◌∙◌}
use mathlib.Core.List.{List, [], ◌∷◌}
use mathlib.Core.Logic.{◌≢◌, inl, inr}
use mathlib.Core.Bool.{Bool}
use mathlib.Core.Option.{Option, none, some}
use native.Mathlib.Omega.{arith}
use llm_worker_proxy.Shared.Tests.{if◌then◌else◌, Bool-cases, is_some}
use llm_worker_proxy.Shared.Keys.{Eq, ◌==◌, ==_iff, ==_refl}
use llm_worker_proxy.Shared.Lists.{Member}

abbrev pub HashMap {ℓ κ} : Type ℓ → Type κ → Type (ℓ ⊔ κ)
HashMap K V = List (K × V)

module _ {ℓ κ} {K : Type ℓ} {V : Type κ} where
  abbrev pub values : HashMap K V → List V
  values [] = []
  values ((k, v) ∷ m) = v ∷ values m

module _ {ℓ κ} {K : Type ℓ} {V : Type κ} ⦃e : Eq K⦄ where
  unfoldable pub get : K → HashMap K V → Option V
  get k [] = none
  get k ((j, v) ∷ m) = if j == k then some v else get k m

  abbrev pub contains_key : K → HashMap K V → Bool
  contains_key k m = is_some (get k m)

  unfoldable pub insert : K → V → HashMap K V → HashMap K V
  insert k v [] = (k, v) ∷ []
  insert k v ((j, w) ∷ m) = if j == k then (k, v) ∷ m else (j, w) ∷ insert k v m

  unfoldable pub remove : K → HashMap K V → HashMap K V
  remove k [] = []
  remove k ((j, w) ∷ m) = if j == k then remove k m else (j, w) ∷ remove k m

  pub get-insert :
      (k j : K) (v : V) (m : HashMap K V)
      → get j (insert k v m) ≡ (if k == j then some v else get j m)
  unfolding get insert
  get-insert k j v [] = refl
  get-insert k j v ((i, w) ∷ m) =
      ground (arith, ==_iff k j, ==_iff i k, ==_iff i j, get-insert k j v m)

  pub get-remove :
      (k j : K) (m : HashMap K V) → get j (remove k m) ≡ (if k == j then none else get j m)
  unfolding get remove
  get-remove k j [] = ground arith
  get-remove k j ((i, w) ∷ m) = ground (arith, ==_iff k j, ==_iff i k, ==_iff i j, get-remove k j m)

  pub get-insert_self : (k : K) (v : V) (m : HashMap K V) → get k (insert k v m) ≡ some v
  get-insert_self k v m = get-insert k k v m ∙ ground (arith, ==_refl k)

  pub get-insert_ne : (k j : K) (v : V) (m : HashMap K V) → k ≢ j → get j (insert k v m) ≡ get j m
  get-insert_ne k j v m h = get-insert k j v m ∙ ground (arith, ==_iff k j)

  pub get-remove_self : (k : K) (m : HashMap K V) → get k (remove k m) ≡ none
  get-remove_self k m = get-remove k k m ∙ ground (arith, ==_refl k)

  pub get-Member :
      (k : K) (m : HashMap K V) {v : V} → get k m ≡ some v → (j : K) × (j ≡ k) × Member (j, v) m
  unfolding get
  get-Member k [] h = absurd (cc)
  get-Member k ((j, w) ∷ m) {v} h = elim (Bool-cases (j == k)) [
    | inl hit ↦ (j, (==_iff j k).0 hit, inl (ground arith))
    | inr miss ↦ let (i, same, found) = get-Member k m (rw miss at h) in (i, same, inr found)
  ]

  -- No key stands twice, as in the source's maps.
  abbrev pub UniqueKeys : HashMap K V → Type κ
  UniqueKeys [] = Unit
  UniqueKeys ((k, v) ∷ m) = (get k m ≡ none) × UniqueKeys m

  pub insert-UniqueKeys :
      (k : K) (v : V) (m : HashMap K V) → UniqueKeys m → UniqueKeys (insert k v m)
  unfolding get insert
  insert-UniqueKeys k v [] unique = (refl, tt)
  insert-UniqueKeys k v ((j, w) ∷ m) (fresh, unique) = elim (Bool-cases (j == k)) [
    | inl same ↦ rw same (ap (λ i. get i m) (sym ((==_iff j k).0 same)) ∙ fresh, unique)
    | inr other ↦ rw other (
      get-insert k j v m ∙ ground (arith, ==_iff k j, ==_iff j k, fresh),
      insert-UniqueKeys k v m unique,
    )
  ]

  -- Every entry of a list is what its key finds in the map.
  abbrev pub FoundIn : HashMap K V → HashMap K V → Type κ
  FoundIn m [] = Unit
  FoundIn m ((k, v) ∷ entries) = (get k m ≡ some v) × FoundIn m entries

  cons-FoundIn :
      (k : K) (v : V) (m entries : HashMap K V)
      → get k m ≡ none
      → FoundIn m entries
      → FoundIn ((k, v) ∷ m) entries
  unfolding get
  cons-FoundIn k v m [] fresh found = tt
  cons-FoundIn k v m ((j, w) ∷ entries) fresh (here, found) = (
    elim (Bool-cases (k == j)) [
      | inr other ↦ rw (other, get) here
      | inl same ↦
          let e : get j m ≡ none = ap (λ i. get i m) (sym ((==_iff k j).0 same)) ∙ fresh in
          absurd (cc)
    ],
    cons-FoundIn k v m entries fresh found,
  )

  pub entries-FoundIn : (m : HashMap K V) → UniqueKeys m → FoundIn m m
  unfolding get
  entries-FoundIn [] unique = tt
  entries-FoundIn ((k, v) ∷ m) (fresh, unique) =
      (ground (arith, ==_refl k), cons-FoundIn k v m m fresh (entries-FoundIn m unique))
