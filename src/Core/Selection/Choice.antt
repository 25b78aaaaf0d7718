-- ===== src/Core/Selection/Choice.antt =====
-- How one worker is chosen among candidates: lowest load first, ties by rotation.
use llm_worker_proxy.Shared.{
  ℕ, ◌≤◌, ◌<◌, ◌≡◌, refl, sym, subst, Bool, true, List, [], ◌∷◌, Option, none, some, inl, inr,
  arith, Member, Bool-cases, Option-cases, retain, find, ltb, nat_eq, is_none_or, Member-retain,
  retain-Member, find-Member, ltb→lt, nat_eq_iff, leb, leb→le, or_else_cases, find-none,
}
use llm_worker_proxy.Core.Selection.{
  Candidate, lowest_load, first_lowest, next_in_rotation, first, choose,
}
use llm_worker_proxy.Core.Selection.Candidates.{Rising}

-- `x` is in the list, and nothing in the list has a lower load.
pub record IsLeastLoaded (x : Candidate) (xs : List Candidate) : Type 0 where
  pub listed : Member x xs
  pub least : (y : Candidate) → Member y xs → x.load ≤ y.load

lowest_load-le :
    (xs : List Candidate) (y : Candidate) {n : ℕ}
    → lowest_load xs ≡ some n
    → Member y xs
    → n ≤ y.load
unfolding lowest_load
lowest_load-le [] y h m = elim m [ ]
lowest_load-le (x ∷ xs) y {n} h (inl e) = elim (Option-cases (lowest_load xs)) [
  | inl last ↦ rw e (ground arith)
  | inr (m, more) ↦ rw e (ground arith)
]
lowest_load-le (x ∷ []) y {n} h (inr m) = elim m [ ]
lowest_load-le (x ∷ x' ∷ xs) y {n} h (inr m) = elim (Option-cases (lowest_load (x' ∷ xs))) [
  | inl last ↦ absurd (cc)
  | inr (k, more) ↦ ground (arith, lowest_load-le (x' ∷ xs) y {n = k} more m)
]

lowest_load_attained :
    (xs : List Candidate) {n : ℕ}
    → lowest_load xs ≡ some n
    → (x : Candidate) × Member x xs × (x.load ≡ n)
unfolding lowest_load
lowest_load_attained [] h = absurd (cc)
lowest_load_attained (x ∷ xs) {n} h = elim (Option-cases (lowest_load xs)) [
  | inl last ↦ (x, inl refl, ground arith)
  | inr (m, more) ↦
      let (y, listed, load) = lowest_load_attained xs more in
      elim (Bool-cases (ltb m x.load)) [
        | inl lower ↦ (y, inr listed, ground arith)
        | inr here ↦ (x, inl refl, ground arith)
      ]
]

lowest_load-none : (xs : List Candidate) → lowest_load xs ≡ none → xs ≡ []
unfolding lowest_load
lowest_load-none [] h = refl
lowest_load-none (x ∷ xs) h = absurd (cc)

first-Member : (xs : List Candidate) {x : Candidate} → first xs ≡ some x → Member x xs
first-Member [] h = absurd (cc)
first-Member (y ∷ ys) h = inl (ground arith)

abbrev behind : Option ℕ → Candidate → Bool
behind last x = is_none_or last (λ l. ltb l x.position)

next_in_rotation-Member :
    (last : Option ℕ) (tied : List Candidate) {x : Candidate}
    → next_in_rotation last tied ≡ some x
    → Member x tied
unfolding next_in_rotation
next_in_rotation-Member last tied h =
    elim (or_else_cases (find (behind last) tied) (first tied) h) [
      | inl found ↦ (find-Member (behind last) tied found).0
      | inr (missing, head) ↦ first-Member tied head
    ]

next_in_rotation-none :
    (last : Option ℕ) (tied : List Candidate) → next_in_rotation last tied ≡ none → tied ≡ []
unfolding next_in_rotation
next_in_rotation-none last [] h = refl
next_in_rotation-none last (y ∷ ys) h = ground arith

abbrev loaded : ℕ → Candidate → Bool
loaded n x = nat_eq x.load n

-- The choice is a least loaded candidate.
pub choose-IsLeastLoaded :
    (last : Option ℕ) (xs : List Candidate) {x : Candidate}
    → choose last xs ≡ some x
    → IsLeastLoaded x xs
unfolding choose
choose-IsLeastLoaded last xs {x} h = elim (Option-cases (lowest_load xs)) [
  | inl nothing ↦ absurd (ground arith)
  | inr (n, lowest) ↦
      let tied = next_in_rotation-Member last (retain (loaded n) xs) {x = x} (rw lowest at h) in
      let (listed, load) = Member-retain (loaded n) x xs tied in
      record {
        listed = listed;
        least = λ y m. omega (arith, lowest_load-le xs y lowest m, (nat_eq_iff x.load n).0 load);
      }
]

-- There is a choice whenever there is a candidate.
pub choose-none : (last : Option ℕ) (xs : List Candidate) → choose last xs ≡ none → xs ≡ []
unfolding choose
choose-none last xs h = elim (Option-cases (lowest_load xs)) [
  | inl nothing ↦ lowest_load-none xs nothing
  | inr (n, lowest) ↦
      let (x, listed, load) = lowest_load_attained xs lowest in
      let tied = retain-Member (loaded n) x xs listed ((nat_eq_iff x.load n).1 load) in
      let empty = next_in_rotation-none last (retain (loaded n) xs) (rw lowest at h) in
      elim (rw empty at tied) [ ]
]

retain-Rising : (p : Candidate → Bool) (xs : List Candidate) → Rising xs → Rising (retain p xs)
retain-Rising p [] rising = tt
retain-Rising p (x ∷ xs) (above, rising) = elim (Bool-cases (p x)) [
  | inl keep ↦ rw keep ((λ y m. above y (Member-retain p y xs m).0), retain-Rising p xs rising)
  | inr drop ↦ rw drop (retain-Rising p xs rising)
]

find_first :
    (p : Candidate → Bool) (xs : List Candidate) {x y : Candidate}
    → Rising xs
    → find p xs ≡ some x
    → Member y xs
    → p y ≡ true
    → x.position ≤ y.position
find_first p [] rising h m holds = elim m [ ]
find_first p (z ∷ zs) {x} {y} (above, rising) h m holds = elim (Bool-cases (p z)) [
  | inl hit ↦
      let same : z ≡ x = ground arith in
      elim m [
        | inl e ↦ rw (e, same) (omega arith)
        | inr later ↦ rw (← same) (omega (arith, above y later))
      ]
  | inr miss ↦ elim m [
    | inl e ↦ absurd (ground arith)
    | inr later ↦ find_first p zs rising (rw miss at h) later holds
  ]
]

next_in_rotation_order :
    (l : ℕ) (tied : List Candidate) (y : Candidate) {x : Candidate}
    → Rising tied
    → next_in_rotation (some l) tied ≡ some x
    → Member y tied
    → l < y.position
    → (l < x.position) × (x.position ≤ y.position)
unfolding next_in_rotation
next_in_rotation_order l tied y {x} rising h m after =
    let here : ltb l y.position ≡ true = ground arith in
    elim (or_else_cases (find (behind (some l)) tied) (first tied) h) [
      | inl found ↦ (
        ltb→lt l x.position (find-Member (behind (some l)) tied found).1,
        find_first (behind (some l)) tied rising found m here,
      )
      | inr (missing, head) ↦ absurd (cc (find-none (behind (some l)) y tied missing m, here))
    ]

-- Among the candidates with the chosen load, the choice is the first one behind the last position
-- chosen, if any stands there.
pub choose_order :
    (l : ℕ) (xs : List Candidate) (y : Candidate) {x : Candidate}
    → Rising xs
    → choose (some l) xs ≡ some x
    → Member y xs
    → y.load ≡ x.load
    → l < y.position
    → (l < x.position) × (x.position ≤ y.position)
unfolding choose
choose_order l xs y {x} rising h m same after = elim (Option-cases (lowest_load xs)) [
  | inl nothing ↦ absurd (ground arith)
  | inr (n, lowest) ↦
      let h' : next_in_rotation (some l) (retain (loaded n) xs) ≡ some x = rw lowest at h in
      let tied = next_in_rotation-Member (some l) (retain (loaded n) xs) h' in
      let load = (Member-retain (loaded n) x xs tied).1 in
      next_in_rotation_order l (retain (loaded n) xs) y (retain-Rising (loaded n) xs rising) h'
        (retain-Member (loaded n) y xs m (rw same load)) after
]

-- `first_lowest` is a least loaded candidate, and there is one whenever there is a candidate.
pub first_lowest-none : (xs : List Candidate) → first_lowest xs ≡ none → xs ≡ []
unfolding first_lowest
first_lowest-none [] h = refl
first_lowest-none (x ∷ xs) h = absurd (cc)

pub first_lowest-IsLeastLoaded :
    (xs : List Candidate) {x : Candidate} → first_lowest xs ≡ some x → IsLeastLoaded x xs
unfolding first_lowest
first_lowest-IsLeastLoaded [] h = absurd (cc)
first_lowest-IsLeastLoaded (z ∷ zs) {x} h = elim (Option-cases (first_lowest zs)) [
  | inl last ↦
      let same : z ≡ x = ground arith in
      let empty = first_lowest-none zs last in
      record {
        listed = inl (sym same);
        least = λ y m. elim m [
          | inl e ↦ rw (e, same) (omega arith)
          | inr later ↦ elim (rw empty at later) [ ]
        ];
      }
  | inr (k, more) ↦
      let rest = first_lowest-IsLeastLoaded zs {x = k} more in
      elim (Bool-cases (leb z.load k.load)) [
        | inl lower ↦
            let same : z ≡ x = ground arith in
            record {
              listed = inl (sym same);
              least = λ y m. elim m [
                | inl e ↦ rw (e, same) (omega arith)
                | inr later ↦
                    rw (← same) (omega (arith, rest.least y later, leb→le z.load k.load lower))
              ];
            }
        | inr higher ↦
            let same : k ≡ x = ground arith in
            record {
              listed = inr (subst (λ c. Member c zs) same rest.listed);
              least = λ y m. elim m [
                | inl e ↦ rw (e, ← same) (ground arith)
                | inr later ↦ rw (← same) (rest.least y later)
              ];
            }
      ]
]
