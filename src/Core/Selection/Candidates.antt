-- ===== src/Core/Selection/Candidates.antt =====
-- What the list of eligible workers holds: exactly the registered workers that pass the test, in
-- the order of `worker_order`.
use llm_worker_proxy.Shared.{
  ℕ, suc, ◌≤◌, ◌<◌, ◌≡◌, refl, Bool, true, String, List, [], ◌∷◌, Option, none, some, ◌⊎◌, inl, inr,
  arith, Member, Bool-cases, string_eq,
}
use llm_worker_proxy.Shared.HashMap
use llm_worker_proxy.Shared.HashMap.{HashMap}
use llm_worker_proxy.Core.State.{WorkerState, selection_load}
use llm_worker_proxy.Core.Selection.{Candidate, candidate, prepend, eligible_from}

-- The candidate `x` stands for the registered worker `worker`, which passes the test.
pub record StandsFor (workers : HashMap String WorkerState) (test : WorkerState → Bool)
    (x : Candidate) : Type 0 where
  pub worker : WorkerState
  pub registered : HashMap.get x.worker_id workers ≡ some worker
  pub passes : test worker ≡ true
  pub load : x.load ≡ selection_load worker
  pub provider : x.provider ≡ worker.provider

-- The positions rise along the list.
abbrev pub Rising : List Candidate → Type 0
Rising [] = Unit
Rising (x ∷ xs) = ((y : Candidate) → Member y xs → x.position < y.position) × Rising xs

prepend_cases :
    (x : Candidate) (xs rest : List Candidate)
    → Member x (prepend xs rest)
    → Member x xs ⊎ Member x rest
prepend_cases x [] rest m = inr m
prepend_cases x (y ∷ xs) rest (inl e) = inl (inl e)
prepend_cases x (y ∷ xs) rest (inr m) = inr m

prepend-tail :
    (x : Candidate) (xs rest : List Candidate) → Member x rest → Member x (prepend xs rest)
prepend-tail x [] rest m = m
prepend-tail x (y ∷ xs) rest m = inr m

module _ (workers : HashMap String WorkerState) (test : WorkerState → Bool) where
  candidate-StandsFor :
      (position : ℕ) (id : String) (x : Candidate) (o : Option WorkerState)
      → HashMap.get id workers ≡ o
      → Member x (candidate test position id o)
      → StandsFor workers test x × (x.worker_id ≡ id) × (x.position ≡ position)
  candidate-StandsFor position id x none found m = elim m [ ]
  candidate-StandsFor position id x (some w) found m = elim (Bool-cases (test w)) [
    | inl passes ↦ elim (rw passes at m) [
      | inl e ↦ rw e (
        record { worker = w; registered = found; passes = passes; load = refl; provider = refl },
        refl,
        refl,
      )
      | inr m' ↦ elim m' [ ]
    ]
    | inr fails ↦ elim (rw fails at m) [ ]
  ]

  -- Every candidate stands for a worker of the order, at its place.
  pub eligible_from-StandsFor :
      (position : ℕ) (order : List String) (x : Candidate)
      → Member x (eligible_from workers test position order)
      → StandsFor workers test x × Member x.worker_id order × (position ≤ x.position)
  unfolding eligible_from
  eligible_from-StandsFor position [] x m = elim m [ ]
  eligible_from-StandsFor position (id ∷ order) x m =
      elim (prepend_cases x (candidate test position id (HashMap.get id workers))
        (eligible_from workers test (suc position) order) m) [
          | inl here ↦
              let (stands, same, place) =
                candidate-StandsFor position id x (HashMap.get id workers) refl here in
              (stands, inl same, omega arith)
          | inr later ↦
              let (stands, listed, place) = eligible_from-StandsFor (suc position) order x later in
              (stands, inr listed, omega arith)
        ]

  -- Every worker of the order that is registered and passes has a candidate.
  pub StandsFor-eligible_from :
      (position : ℕ) (order : List String) (id : String) (w : WorkerState)
      → Member id order
      → HashMap.get id workers ≡ some w
      → test w ≡ true
      → (x : Candidate) × Member x (eligible_from workers test position order)
        × (x.worker_id ≡ id)
        × (x.load ≡ selection_load w)
        × (x.provider ≡ w.provider)
  unfolding eligible_from
  StandsFor-eligible_from position [] id w m found passes = elim m [ ]
  StandsFor-eligible_from position (i ∷ order) id w (inl e) found passes =
      rw (← e, found, passes)
        (
          record {
            position = position;
            worker_id = id;
            load = selection_load w;
            provider = w.provider;
          },
          inl refl,
          refl,
          refl,
          refl,
        )
  StandsFor-eligible_from position (i ∷ order) id w (inr m) found passes =
      let (x, listed, same, load, provider) =
        StandsFor-eligible_from (suc position) order id w m found passes in
      (
        x,
        prepend-tail x (candidate test position i (HashMap.get i workers)) _ listed,
        same,
        load,
        provider,
      )

  candidate-Rising :
      (position : ℕ) (id : String) (o : Option WorkerState) (rest : List Candidate)
      → ((y : Candidate) → Member y rest → position < y.position)
      → Rising rest
      → Rising (prepend (candidate test position id o) rest)
  candidate-Rising position id none rest above rising = rising
  candidate-Rising position id (some w) rest above rising = elim (Bool-cases (test w)) [
    | inl passes ↦ rw passes (above, rising)
    | inr fails ↦ rw fails rising
  ]

  pub eligible_from-Rising :
      (position : ℕ) (order : List String) → Rising (eligible_from workers test position order)
  unfolding eligible_from
  eligible_from-Rising position [] = tt
  eligible_from-Rising position (id ∷ order) =
      candidate-Rising position id (HashMap.get id workers) _
        (λ y m. (eligible_from-StandsFor (suc position) order y m).2)
        (eligible_from-Rising (suc position) order)
