-- ===== src/Core/Workers/Sanitize.antt =====
-- The list of models that a worker is registered with.
use mathlib.Core.Bool.{false≢true}
use llm_worker_proxy.Shared.{
  ◌≡◌, refl, sym, ap, subst, ◌∙◌, ◌↔◌, ◌⊎◌, inl, inr, arith, Bool, true, false, not, ◌&&◌, String,
  List, [], ◌∷◌, Member, Distinct, contains, contains-Member, Member-contains, Bool-cases,
  string_eq,
}
use llm_worker_proxy.Shared.Text
use llm_worker_proxy.Shared.Text.{trim}
use llm_worker_proxy.Core.Workers.{sanitize_from, sanitize_models}

-- `x` is the trimmed form of a name of the list, and not empty.
abbrev pub IsTrimmedOf : List String → String → Type 0
IsTrimmedOf models x = (Text.is_empty x ≡ false) × (m : String) × Member m models × (x ≡ trim m)

later-IsTrimmedOf :
    (m : String) (models : List String) (x : String)
    → IsTrimmedOf models x
    → IsTrimmedOf (m ∷ models) x
later-IsTrimmedOf m models x (shown, n, listed, same) = (shown, n, inr listed, same)

abbrev accepted : List String → String → Bool
accepted seen m = not (Text.is_empty (trim m)) && not (contains (trim m) seen)

sanitize_from-Member :
    (seen models : List String) (x : String)
    → Member x (sanitize_from seen models)
    → (¬ Member x seen) × IsTrimmedOf models x
unfolding sanitize_from
sanitize_from-Member seen [] x m = elim m [ ]
sanitize_from-Member seen (n ∷ models) x m = elim (Bool-cases (accepted seen n)) [
  | inl new ↦
      let kept : Member x (trim n ∷ sanitize_from (trim n ∷ seen) models) = rw new at m in
      let absent : contains (trim n) seen ≡ false = ground arith in
      let shown : Text.is_empty (trim n) ≡ false = ground arith in
      elim kept [
        | inl e ↦ (
          (λ old.
              false≢true
                (sym absent ∙ Member-contains (trim n) seen (subst (λ y. Member y seen) e old))),
          (ap Text.is_empty e ∙ shown, n, inl refl, e),
        )
        | inr later ↦
            let (away, from) = sanitize_from-Member (trim n ∷ seen) models x later in
            ((λ old. away (inr old)), later-IsTrimmedOf n models x from)
      ]
  | inr old ↦
      let (away, from) = sanitize_from-Member seen models x (rw old at m) in
      (away, later-IsTrimmedOf n models x from)
]

sanitize_from-Distinct : (seen models : List String) → Distinct (sanitize_from seen models)
unfolding sanitize_from
sanitize_from-Distinct seen [] = tt
sanitize_from-Distinct seen (n ∷ models) = elim (Bool-cases (accepted seen n)) [
  | inl new ↦ rw new (
    (λ again. (sanitize_from-Member (trim n ∷ seen) models (trim n) again).0 (inl refl)),
    sanitize_from-Distinct (trim n ∷ seen) models,
  )
  | inr old ↦ rw old (sanitize_from-Distinct seen models)
]

Member-sanitize_from :
    (seen models : List String) (m : String)
    → Member m models
    → Text.is_empty (trim m) ≡ false
    → Member (trim m) seen ⊎ Member (trim m) (sanitize_from seen models)
unfolding sanitize_from
Member-sanitize_from seen [] m listed shown = elim listed [ ]
Member-sanitize_from seen (n ∷ models) m (inl e) shown =
    elim (Bool-cases (contains (trim n) seen)) [
      | inl old ↦
          inl (subst (λ x. Member x seen) (ap trim (sym e)) (contains-Member (trim n) seen old))
      | inr new ↦
          let shown' : Text.is_empty (trim n) ≡ false =
            ap (λ y. Text.is_empty (trim y)) (sym e) ∙ shown in
          let yes : accepted seen n ≡ true = ground arith in inr (rw yes (inl (ap trim e)))
    ]
Member-sanitize_from seen (n ∷ models) m (inr later) shown = elim (Bool-cases (accepted seen n)) [
  | inl new ↦ elim (Member-sanitize_from (trim n ∷ seen) models m later shown) [
    | inl (inl e) ↦ inr (rw new (inl e))
    | inl (inr old) ↦ inl old
    | inr kept ↦ inr (rw new (inr kept))
  ]
  | inr old ↦ elim (Member-sanitize_from seen models m later shown) [
    | inl known ↦ inl known
    | inr kept ↦ inr (rw old kept)
  ]
]

-- The models that are accepted: no name twice, and exactly the trimmed names of the worker's list
-- that are not empty.
pub sanitize_models_exact :
    (models : List String) (x : String)
    → Distinct (sanitize_models models) × (Member x (sanitize_models models) ↔ IsTrimmedOf models x)
unfolding sanitize_models
sanitize_models_exact models x = (
  sanitize_from-Distinct [] models,
  (
    (λ m. (sanitize_from-Member [] models x m).1),
    (λ from.
        let (shown, m, listed, same) = from in
        subst (λ y. Member y (sanitize_from [] models)) (sym same)
          (elim (Member-sanitize_from [] models m listed (ap Text.is_empty (sym same) ∙ shown)) [
            | inl none_seen ↦ elim none_seen [ ]
            | inr kept ↦ kept
          ])),
  ),
)
