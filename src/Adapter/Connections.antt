-- ===== src/Adapter/Connections.antt =====
-- When the supervisor of hey_platform/adapter.py gives up, and how long it waits.
use hermes_hey.Prelude.{
  if◌then◌else◌, ℕ, zero, suc, ◌+◌, ◌-◌, ◌^◌, ◌≤◌, ◌<◌, Bool, true, false, ◌≡◌, ◌≢◌, refl, some,
  List, [], ◌∷◌, length, leb, arith, All, Bool-cases, inl, inr,
}
use hermes_hey.Adapter.Watching.{
  Ending, cancelled, failed, fatal, retry_delay, after_failure, supervise_once, supervise,
}

abbrev pub Unstable : Ending → Type 0
Unstable ending = ending ≡ failed false

two_pow_pos : (n : ℕ) → 1 ≤ 2 ^ n
two_pow_pos zero = omega arith
two_pow_pos (suc n) = omega (arith, two_pow_pos n)

retry_delay_bounds : (failures : ℕ) → (1 ≤ retry_delay failures) × (retry_delay failures ≤ 60)
unfolding retry_delay
retry_delay_bounds failures = ground (arith, two_pow_pos (failures - 1))

supervise-over :
    (threshold failures : ℕ) (stable : Bool) (endings : List Ending)
    → leb threshold ((if stable then 0 else failures) + 1) ≡ true
    → supervise threshold failures (failed stable ∷ endings) ≡ ([], some fatal)
unfolding supervise supervise_once after_failure
supervise-over threshold failures stable endings over = rw (over, supervise) refl

supervise-under :
    (threshold failures : ℕ) (stable : Bool) (endings : List Ending)
    → let failures' : ℕ = (if stable then 0 else failures) + 1 in
      leb threshold failures' ≡ false
      → supervise threshold failures (failed stable ∷ endings) ≡ (
        retry_delay failures' ∷ (supervise threshold failures' endings).0,
        (supervise threshold failures' endings).1,
      )
unfolding supervise supervise_once after_failure
supervise-under threshold failures stable endings under = rw (under, supervise) refl

-- Every wait of the supervisor between two connections is between 1 and 60 seconds.
pub supervise-delays :
    (threshold failures : ℕ) (endings : List Ending)
    → All (λ d. (1 ≤ d) × (d ≤ 60)) (supervise threshold failures endings).0
unfolding supervise supervise_once
supervise-delays threshold failures [] = tt
supervise-delays threshold failures (cancelled ∷ endings) = tt
supervise-delays threshold failures (failed stable ∷ endings) =
    let failures' : ℕ = (if stable then 0 else failures) + 1 in
    elim (Bool-cases (leb threshold failures')) [
      | inl over ↦ rw (supervise-over threshold failures stable endings over) tt
      | inr under ↦
          rw (supervise-under threshold failures stable endings under)
            (retry_delay_bounds failures', supervise-delays threshold failures' endings)
    ]

-- Where at least one connection ends, all end unstable, and their number with the failures before
-- them comes to the threshold, the supervisor gives up with a fatal error.
pub supervise-gives_up :
    (threshold failures : ℕ) (endings : List Ending)
    → All Unstable endings
    → 1 ≤ length endings
    → threshold ≤ failures + length endings
    → (supervise threshold failures endings).1 ≡ some fatal
supervise-gives_up threshold failures [] all some_ending reached = absurd (omega arith)
supervise-gives_up threshold failures (ending ∷ endings) all some_ending reached =
    rw all.0 (elim (Bool-cases (leb threshold (failures + 1))) [
      | inl over ↦ rw (supervise-over threshold failures false endings over) refl
      | inr under ↦
          rw (supervise-under threshold failures false endings under) (
            supervise-gives_up threshold (failures + 1) endings all.1 (ground arith) (ground arith))
    ])

-- Where the failures so far and the connections together are fewer than the threshold, the
-- supervisor does not give up, however the connections end.
pub supervise-patient :
    (threshold failures : ℕ) (endings : List Ending)
    → failures + length endings < threshold
    → (supervise threshold failures endings).1 ≢ some fatal
unfolding supervise supervise_once after_failure
supervise-patient threshold failures [] room gave_up = ground arith
supervise-patient threshold failures (cancelled ∷ endings) room gave_up = ground arith
supervise-patient threshold failures (failed true ∷ endings) room gave_up =
    ground (arith, supervise-patient threshold 1 endings (omega arith))
supervise-patient threshold failures (failed false ∷ endings) room gave_up =
    ground (arith, supervise-patient threshold (failures + 1) endings (omega arith))
