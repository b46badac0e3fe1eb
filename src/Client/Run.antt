-- ===== src/Client/Run.antt =====
-- The run of one command in hey_platform/client.py, from the started process on: the wait for its end within
-- the deadline, the end of its reader, and the result.
use hermes_hey.Prelude.{
  ℕ, zero, suc, ◌+◌, ◌≤◌, Text, codes, ◌++◌, Bool, true, false, not, ◌&&◌, ◌≡◌, ◌≢◌, refl, List,
  Result, ok, arith, Bool-cases, inl, inr, runtime_error, if◌then◌else◌,
}
use hermes_hey.Exec.{Exec, pure, lift, throw, finally, ◌>>=◌, ◌>>◌}
use hermes_hey.Json.{ℤ, Value, Fields}
use hermes_hey.Client.Command.{outcome, failure}

-- What a run calls of its process, of its reader and of the clock. `late` is whether the deadline has passed,
-- `pause` the wait of a hundredth of a second, `terminate` takes `force`, `wait_within` gives whether the
-- process has ended within so many seconds, and `join` whether the reader has ended within so many
-- milliseconds.
pub record RunApi (W : Type 0) : Type 0 where
  pub is_running : W → Bool
  pub is_oversized : W → Bool
  pub late : W → Bool
  pub pause : Exec W (Unit {0})
  pub terminate : Bool → Exec W (Unit {0})
  pub wait_within : ℕ → Exec W Bool
  pub wait : Exec W (Unit {0})
  pub join : ℕ → Exec W Bool
  pub close_stdin : Exec W (Unit {0})
  pub close_tree : Exec W (Unit {0})
  pub returncode : W → ℤ
  pub output : W → List ℕ × Bool

pub data Waited : Type 0 where
  ended : Waited
  timed_out : Waited
  out_of_rounds : Waited

module _ {W : Type 0} (api : RunApi W) where
  -- the `while` loop, with the rounds that it may take
  unfoldable pub wait_loop : ℕ → Exec W Waited
  wait_loop zero = pure out_of_rounds
  wait_loop (suc rounds) = λ w. elim (api.is_running w && not (api.is_oversized w)) [
    | false ↦ (ok ended, w)
    | true ↦ elim (api.late w) [
      | true ↦ (ok timed_out, w)
      | false ↦ (do api.pause; wait_loop rounds) w
    ]
  ]

  unfoldable pub wait_forced : Bool → Exec W (Unit {0})
  wait_forced true = pure tt
  wait_forced false = do api.terminate true; api.wait

  -- `terminate`, and by force after five seconds
  unfoldable pub end_process : Exec W (Unit {0})
  end_process = do api.terminate false; has_ended ← api.wait_within 5; wait_forced has_ended

  -- what follows the loop
  unfoldable pub after_wait : Text → Waited → Exec W (Unit {0})
  unfolding failure
  after_wait operation timed_out = do
    end_process
    lift (failure runtime_error (codes "HEY SDK " ++ (operation ++ codes " timed out")))
  after_wait operation ended =
      λ w. if api.is_oversized w && api.is_running w then end_process w else (ok tt, w)
  after_wait operation out_of_rounds = throw runtime_error "out of rounds"

  -- the end of the reader: the process tree is terminated, by force in the end, while the reader lives
  unfoldable pub end_forced : Bool → Exec W (Unit {0})
  end_forced true = pure tt
  end_forced false = do api.terminate true; _ ← api.join 5000; pure tt

  unfoldable pub end_reader : Bool → Exec W (Unit {0})
  end_reader true = pure tt
  end_reader false = do api.terminate false; has_ended ← api.join 500; end_forced has_ended

  -- the `finally` block
  unfoldable pub clean_up : Exec W (Unit {0})
  clean_up = do has_ended ← api.join 100; end_reader has_ended; api.close_stdin; api.close_tree

  -- `run` once the process is started; `decode` is `_decode_sidecar_json`
  unfoldable pub run_started : ℕ → (List ℕ → Result Value) → Text → Exec W Fields
  run_started rounds decode operation = do
    finally (do waited ← wait_loop rounds; after_wait operation waited) clean_up
    λ w. (outcome decode operation (api.returncode w) (api.output w), w)

  -- A clock that a pause advances by one at least, and that says when the deadline has passed.
  module _ (clock : W → ℕ) (deadline : ℕ)
      (ticks : (w : W) → ((api.pause w).0 ≡ ok tt) × (clock w + 1 ≤ clock (api.pause w).1))
      (is_late : (w : W) → deadline ≤ clock w → api.late w ≡ true) where
    abbrev Ends : Result Waited → Type 0
    Ends r = (waited : Waited) × (r ≡ ok waited) × (waited ≢ out_of_rounds)

    ended-Ends : Ends (ok ended)
    ended-Ends = (ended, refl, (λ h. ground (arith, h)))

    timed_out-Ends : Ends (ok timed_out)
    timed_out-Ends = (timed_out, refl, (λ h. ground (arith, h)))

    -- Where each pause returns and advances a clock by one at least, and the deadline is found to
    -- have passed once the clock shows it: with one round more than what the clock lacks to the
    -- deadline, the wait for a command comes to its end or to its time-out, and never runs out of
    -- rounds.
    pub wait_loop-ends :
        (rounds : ℕ) (w : W)
        → deadline ≤ clock w + rounds
        → (waited : Waited) × ((wait_loop (suc rounds) w).0 ≡ ok waited) × (waited ≢ out_of_rounds)
    unfolding wait_loop
    wait_loop-ends zero w le = elim (Bool-cases (api.is_running w && not (api.is_oversized w))) [
      | inr p ↦ rw (p, wait_loop) ended-Ends
      | inl p ↦ let late = is_late w (omega (arith, le)) in rw (p, wait_loop, late) timed_out-Ends
    ]
    wait_loop-ends (suc rounds) w le =
        elim (Bool-cases (api.is_running w && not (api.is_oversized w))) [
          | inr p ↦ rw (p, wait_loop) ended-Ends
          | inl p ↦ elim (Bool-cases (api.late w)) [
            | inl q ↦ rw (p, wait_loop, q) timed_out-Ends
            | inr q ↦
                let (returned, later) = ticks w in
                rw (p, wait_loop, q, returned)
                  (wait_loop-ends rounds (api.pause w).1 (omega (arith, le, later)))
          ]
        ]
