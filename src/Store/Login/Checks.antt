-- ===== src/Store/Login/Checks.antt =====
-- Credential checks that run at the same time share the slots of `compareCredential`.
use hoocloak.Base.{
  ◌≡◌, refl, ◌↔◌, ◌≤◌, ℕ, suc, zero, ◌+◌, String, List, [], ◌∷◌, arith, length, Option, none, some,
  Option-cases, Bool-cases, inl, inr, subst, ltb, ◌<◌,
}
use hoocloak.Store.Types.{Crypto, ok, err, checks_busy}
use hoocloak.Store.Login.{
  Slots, Comparison, take_slot, release_slot, begin_comparison, compare_credential,
}

-- The checks that are in bcrypt now, and the slots.
pub record Pool : Type 0 where
  pub slots : Slots
  pub running : List Comparison

-- A check of a secret against a hash starts, or the running one at an index ends.
pub data Event : Type 0 where
  start : String → String → Event
  finish : ℕ → Event

-- The list without the element at the index, which has to be there.
unfoldable pub remove : {A : Type 0} → ℕ → List A → Option (List A)
remove n [] = none
remove zero (x ∷ xs) = some xs
remove (suc n) (x ∷ xs) = elim (remove n xs) [ none ↦ none | some rest ↦ some (x ∷ rest) ]

module _ (crypto : Crypto) where
  unfoldable pub after : Event → Pool → Pool
  unfolding remove
  after (start hash secret) pool = elim (begin_comparison crypto pool.slots hash secret) [
    | err e ↦ pool
    | ok c ↦ record { slots = c.slots; running = c ∷ pool.running }
  ]
  after (finish n) pool = elim (remove n pool.running) [
    | none ↦ pool
    | some rest ↦ record { slots = release_slot pool.slots; running = rest }
  ]

  unfoldable pub run_checks : Pool → List Event → Pool
  unfolding after
  run_checks pool [] = pool
  run_checks pool (event ∷ rest) = run_checks (after event pool) rest

  -- Each running check has a slot.
  record Counts (capacity : ℕ) (pool : Pool) : Type 0 where
    pub capacity_kept : pool.slots.capacity ≡ capacity
    pub used : pool.slots.used ≡ length pool.running
    pub within : length pool.running ≤ capacity

  length-remove :
      {A : Type 0} (n : ℕ) (xs rest : List A)
      → remove n xs ≡ some rest
      → length xs ≡ suc (length rest)
  unfolding remove
  length-remove n [] rest e = absurd (ground (arith, e))
  length-remove zero (x ∷ xs) rest e = ground (arith, e)
  length-remove (suc n) (x ∷ xs) rest e = elim (Option-cases (remove n xs)) [
    | inl f ↦ absurd (ground (arith, e, f))
    | inr (more, f) ↦ ground (arith, e, f, length-remove n xs more f)
  ]

  after-Counts :
      (capacity : ℕ) (event : Event) (pool : Pool)
      → Counts capacity pool
      → Counts capacity (after event pool)
  unfolding after begin_comparison take_slot release_slot
  after-Counts capacity (start hash secret) pool h =
      elim (Bool-cases (ltb pool.slots.used pool.slots.capacity)) [
        | inr n ↦ subst (Counts capacity) (ground (arith, n)) h
        | inl y ↦
            let q : Slots = record pool.slots { used = pool.slots.used + 1 } in
            let c : Comparison = record { slots = q; matched = crypto.matches hash secret } in
            let next : Pool = record { slots = q; running = c ∷ pool.running } in
            let same : next ≡ after (start hash secret) pool = ground (arith, y) in
            subst (Counts capacity) same (record {
              capacity_kept = h.capacity_kept;
              used = omega (arith, h.used);
              within = ground (arith, y, h.used, h.capacity_kept);
            })
      ]
  after-Counts capacity (finish n) pool h = elim (Option-cases (remove n pool.running)) [
    | inl f ↦ subst (Counts capacity) (ground (arith, f)) h
    | inr (rest, f) ↦
        let shorter = length-remove n pool.running rest f in
        let next : Pool = record { slots = release_slot pool.slots; running = rest } in
        let same : next ≡ after (finish n) pool = ground (arith, f) in
        subst (Counts capacity) same (record {
          capacity_kept = h.capacity_kept;
          used = omega (arith, h.used, shorter);
          within = omega (arith, h.within, shorter);
        })
  ]

  run_checks-Counts :
      (capacity : ℕ) (events : List Event) (pool : Pool)
      → Counts capacity pool
      → Counts capacity (run_checks pool events)
  unfolding run_checks
  run_checks-Counts capacity [] pool h = h
  run_checks-Counts capacity (event ∷ rest) pool h =
      run_checks-Counts capacity rest (after event pool) (after-Counts capacity event pool h)

  -- What the checks that run, and the next one, get.
  pub record Shares (capacity : ℕ) (pool : Pool) (hash secret : String) : Type 0 where
    pub bounded : length pool.running ≤ capacity
    pub refused :
        (compare_credential crypto pool.slots hash secret ≡ err checks_busy)
        ↔ (length pool.running ≡ capacity)
    pub compared :
        (compare_credential crypto pool.slots hash secret ≡ ok (crypto.matches hash secret))
        ↔ (length pool.running < capacity)

  -- No check runs at the start.
  abbrev pub idle : ℕ → Pool
  idle capacity = record { slots = record { capacity = capacity; used = 0 }; running = [] }

  -- However credential checks have started and ended, from none on: no more of them are in bcrypt
  -- than there are slots, the next one is refused as busy exactly if there are as many, and it
  -- tells whether the secret matches the hash exactly if there are fewer.
  pub compare_credential-Shares :
      (capacity : ℕ) (events : List Event) (hash secret : String)
      → Shares capacity (run_checks (idle capacity) events) hash secret
  unfolding compare_credential begin_comparison take_slot
  compare_credential-Shares capacity events hash secret =
      let pool = run_checks (idle capacity) events in
      let h =
        run_checks-Counts capacity events (idle capacity)
          (record { capacity_kept = refl; used = refl; within = omega arith }) in
      record {
        bounded = h.within;
        refused = ground (arith, h.within, h.used, h.capacity_kept);
        compared = ground (arith, h.within, h.used, h.capacity_kept);
      }
