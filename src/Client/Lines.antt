-- ===== src/Client/Lines.antt =====
-- What `HeySDKWatch` of hey_platform/client.py yields, how it ends, and which identities it acknowledges.
use hermes_hey.Prelude.{
  ℕ, ◌++◌, [], ◌∷◌, List, map, Text, codes, Bool, true, false, ◌≡◌, ◌≢◌, ◌⊎◌, refl, ◌∙◌, Result, ok,
  err, Error, inl, inr, arith, Result-cases, Bool-cases, is_os_error,
}
use hermes_hey.Exec.{◌>>◌}
use hermes_hey.Json.{ℤ, Value, Fields, object}
use hermes_hey.Core.Event.{HeyEvent, IsValid, identity}
use hermes_hey.Core.Contexts.{is_event_identity-event_identity}
use hermes_hey.Client.Command.{is_zero}
use hermes_hey.Client.Watch.{
  Ending, at_end, closed, escaped, read_value, read_values, WatchApi, Watch, on_world, set_tree,
  close_if, close_process_tree, kill_running, drop_tree, not_started, starting, start, stopped,
  finish, lines, ack,
}

-- the lines are no empty ones, and the decoder makes the dictionaries of them
abbrev pub Decodes : (List ℕ → Result Value) → List (List ℕ) → List Fields → Type 0
Decodes decode [] [] = Unit
Decodes decode (line ∷ rest) (d ∷ ds) =
    (line ≢ []) × (decode line ≡ ok (object d)) × Decodes decode rest ds
Decodes decode _ _ = ⊥

-- Where the first lines are not empty and the decoder makes dictionaries of them, the watch yields
-- these dictionaries in their order, and goes on with the rest of the lines.
pub read_values-values :
    (decode : List ℕ → Result Value) (good : List (List ℕ)) (ds : List Fields)
    (reads : List (Result (List ℕ)))
    → Decodes decode good ds
    → read_values decode (map ok good ++ reads)
      ≡ (ds ++ (read_values decode reads).0, (read_values decode reads).1)
unfolding read_values read_value
read_values-values decode [] [] reads h = refl
read_values-values decode [] (d ∷ ds) reads h = elim h [ ]
read_values-values decode ([] ∷ good) [] reads h = elim h [ ]
read_values-values decode ((b ∷ bs) ∷ good) [] reads h = elim h [ ]
read_values-values decode ([] ∷ good) (d ∷ ds) reads (some_line, decoded, h) =
    absurd (some_line refl)
read_values-values decode ((b ∷ bs) ∷ good) (d ∷ ds) reads (some_line, decoded, h) =
    rw (read_values, decoded, read_values-values decode good ds reads h) refl

module _ {W : Type 0} (api : WatchApi W) where
  -- What is relied on of the calls that start a process, and end it and its tree. `tree_open` is
  -- whether a process tree is open, and `tree_runs` whether a process in it runs. Those that start
  -- raise an `OSError` alone, and put no process into the tree if they raise; those that end return.
  pub record EndsQuietly : Type 0 where
    pub tree_open : W → Bool
    pub tree_runs : W → Bool
    pub make_tree_raises :
        (e : Error) (w : W)
        → (api.make_tree w).0 ≡ err e
        → (is_os_error e.class ≡ true) × (tree_open (api.make_tree w).1 ≡ tree_open w)
    pub make_tree_empty : (w : W) → tree_runs (api.make_tree w).1 ≡ tree_runs w
    pub spawn_raises : (e : Error) (w : W) → (api.spawn w).0 ≡ err e → is_os_error e.class ≡ true
    pub spawn_apart : (w : W) → tree_runs (api.spawn w).1 ≡ tree_runs w
    pub attach_raises :
        (e : Error) (w : W)
        → (api.attach w).0 ≡ err e
        → (is_os_error e.class ≡ true) × (tree_runs (api.attach w).1 ≡ tree_runs w)
    pub kill_and_wait_returns : (w : W) → (api.kill_and_wait w).0 ≡ ok tt
    pub kill_and_wait_ends : (w : W) → api.is_running (api.kill_and_wait w).1 ≡ false
    pub kill_and_wait_open : (w : W) → tree_open (api.kill_and_wait w).1 ≡ tree_open w
    pub kill_and_wait_empty :
        (w : W) → tree_runs w ≡ false → tree_runs (api.kill_and_wait w).1 ≡ false
    pub terminate_tree_returns : (w : W) → (api.terminate_tree w).0 ≡ ok tt
    pub terminate_tree_ends : (w : W) → tree_runs (api.terminate_tree w).1 ≡ false
    pub close_tree_returns : (w : W) → (api.close_tree w).0 ≡ ok tt
    pub close_tree_closes : (w : W) → tree_open (api.close_tree w).1 ≡ false
    pub close_tree_empty : (w : W) → tree_runs w ≡ false → tree_runs (api.close_tree w).1 ≡ false
    pub close_tree_apart : (w : W) → api.is_running (api.close_tree w).1 ≡ api.is_running w
    pub await_exit_returns : (w : W) → (code : ℤ) × ((api.await_exit w).0 ≡ ok code)
    pub end_stderr_returns : (w : W) → (api.end_stderr w).0 ≡ ok tt

  module _ (quiet : EndsQuietly) where
    -- the watch has no process tree: none is set, none is open, and no process of one runs
    pub record Gone (s : Watch W) : Type 0 where
      pub unset : s.has_tree ≡ false
      pub closed_tree : quiet.tree_open s.world ≡ false
      pub ended : quiet.tree_runs s.world ≡ false

    -- the code returns, and the tree is gone
    abbrev Closes : Result (Unit {0}) × Watch W → Type 0
    Closes r = (r.0 ≡ ok tt) × Gone r.1

    close_if-Closes : (b : Bool) (s : Watch W) → b ≡ true → Closes (close_if api b s)
    unfolding close_if on_world set_tree
    close_if-Closes false s h = absurd (ground (arith, h))
    close_if-Closes true s h =
        let w1 = (api.terminate_tree s.world).1 in
        rw (quiet.terminate_tree_returns s.world, quiet.close_tree_returns w1)
          (
            refl,
            record {
              unset = refl;
              closed_tree = quiet.close_tree_closes w1;
              ended = quiet.close_tree_empty w1 (quiet.terminate_tree_ends s.world);
            },
          )

    close_process_tree-Closes :
        (s : Watch W) → s.has_tree ≡ true → Closes (close_process_tree api s)
    unfolding close_process_tree
    close_process_tree-Closes s there = close_if-Closes s.has_tree s there

    -- no process is in the tree, and none is open that is not set
    record Empty (s : Watch W) : Type 0 where
      empty : quiet.tree_runs s.world ≡ false
      tracked : s.has_tree ≡ false → quiet.tree_open s.world ≡ false

    drop_tree-Closes :
        (b : Bool) (s : Watch W)
        → s.has_tree ≡ b
        → Empty s
        → Closes (drop_tree api b s)
          × (api.is_running (drop_tree api b s).1.world ≡ api.is_running s.world)
    unfolding drop_tree on_world set_tree
    drop_tree-Closes false s h none_in =
        ((refl, record { unset = h; closed_tree = none_in.tracked h; ended = none_in.empty }), refl)
    drop_tree-Closes true s h none_in = rw (quiet.close_tree_returns s.world) (
      (
        refl,
        record {
          unset = refl;
          closed_tree = quiet.close_tree_closes s.world;
          ended = quiet.close_tree_empty s.world none_in.empty;
        },
      ),
      quiet.close_tree_apart s.world,
    )

    -- an exception, and no tree left
    abbrev Ended : Result (Unit {0}) × Watch W → Type 0
    Ended r = ((e : Error) × (r.0 ≡ err e)) × Gone r.1

    stopped-err : (code : ℤ) → (e : Error) × (stopped api code ≡ err e)
    unfolding stopped
    stopped-err code = elim (Bool-cases (is_zero code)) [
      | inl p ↦ rw p (_, refl)
      | inr p ↦ rw p (_, refl)
    ]

    finish-Ended :
        (ending : Ending) (s : Watch W)
        → s.has_tree ≡ true
        → ((x : Error) × (ending ≡ escaped x)) ⊎ Ended (finish api ending s)
    unfolding finish on_world
    finish-Ended (escaped e) s there = inl (e, refl)
    finish-Ended (closed e) s there =
        let (done, gone) = close_process_tree-Closes s there in inr (rw done ((e, refl), gone))
    finish-Ended at_end s there =
        let (code, e) = quiet.await_exit_returns s.world in
        let w1 = (api.await_exit s.world).1 in
        let f = quiet.end_stderr_returns w1 in
        let s2 : Watch W = record s { world = (api.end_stderr w1).1 } in
        let (done, gone) = close_process_tree-Closes s2 there in
        let (x, g) = stopped-err code in inr (rw (e, f, done, g) ((x, refl), gone))

    -- a start that failed: no tree is left, and the process does not run
    abbrev Failed : Result (Unit {0}) × Watch W → Type 0
    Failed r = Ended r × (api.is_running r.1.world ≡ false)

    not_started-Failed :
        (e : Error) (s : Watch W)
        → is_os_error e.class ≡ true
        → Empty s
        → Failed (not_started api e s)
    unfolding not_started kill_running on_world
    not_started-Failed e s os none_in = elim (Bool-cases (api.is_running s.world)) [
      | inr p ↦
          let ((done, gone), same) = drop_tree-Closes s.has_tree s refl none_in in
          rw (os, p, done) (((_, refl), gone), same ∙ p)
      | inl p ↦
          let s1 : Watch W = record s { world = (api.kill_and_wait s.world).1 } in
          let none_after : Empty s1 = record {
            empty = quiet.kill_and_wait_empty s.world none_in.empty;
            tracked = λ h. quiet.kill_and_wait_open s.world ∙ none_in.tracked h;
          } in
          let ((done, gone), same) = drop_tree-Closes s1.has_tree s1 refl none_after in
          rw (os, p, quiet.kill_and_wait_returns s.world, done)
            (((_, refl), gone), same ∙ quiet.kill_and_wait_ends s.world)
    ]

    starting-done : (s : Watch W) → (starting api s).0 ≡ ok tt → (starting api s).1.has_tree ≡ true
    unfolding starting on_world set_tree
    starting-done s done = elim (Result-cases (api.make_tree s.world).0) [
      | inr (x, f) ↦ absurd (ground (arith, f, done))
      | inl (u, f) ↦ elim (Result-cases (api.spawn (api.make_tree s.world).1).0) [
        | inr (x, g) ↦ rw (f, g) refl
        | inl (v, g) ↦ rw (f, g) refl
      ]
    ]

    starting-Empty :
        (e : Error) (s : Watch W)
        → Gone s
        → (starting api s).0 ≡ err e
        → (is_os_error e.class ≡ true) × Empty (starting api s).1
    unfolding starting on_world set_tree
    starting-Empty e s fresh raised =
        let w1 = (api.make_tree s.world).1 in
        let w2 = (api.spawn w1).1 in
        let made : quiet.tree_runs w1 ≡ false = quiet.make_tree_empty s.world ∙ fresh.ended in
        let spawned : quiet.tree_runs w2 ≡ false = quiet.spawn_apart w1 ∙ made in
        elim (Result-cases (api.make_tree s.world).0) [
          | inr (x, f) ↦
              let (os, same) = quiet.make_tree_raises x s.world f in
              (
                ground (arith, f, raised, os),
                rw f (record { empty = made; tracked = λ h. same ∙ fresh.closed_tree }),
              )
          | inl (u, f) ↦ elim (Result-cases (api.spawn w1).0) [
            | inr (x, g) ↦
                let os = quiet.spawn_raises x w1 g in
                (
                  ground (arith, f, g, raised, os),
                  rw (f, g) (record { empty = spawned; tracked = λ h. absurd (ground (arith, h)) }),
                )
            | inl (v, g) ↦ elim (Result-cases (api.attach w2).0) [
              | inr (x, h) ↦
                  let (os, same) = quiet.attach_raises x w2 h in
                  (
                    ground (arith, f, g, h, raised, os),
                    rw (f, g)
                        (record {
                          empty = same ∙ spawned;
                          tracked = λ unset. absurd (ground (arith, unset));
                        }),
                  )
              | inl (y, h) ↦ absurd (ground (arith, f, g, h, raised))
            ]
          ]
        ]

    start-Failed :
        (s : Watch W)
        → Gone s
        → (((start api s).0 ≡ ok tt) × ((start api s).1.has_tree ≡ true)) ⊎ Failed (start api s)
    unfolding start
    start-Failed s fresh = elim (Result-cases (starting api s).0) [
      | inl (tt, e) ↦ inl (rw e (refl, starting-done s e))
      | inr (x, e) ↦
          let (os, none_in) = starting-Empty x s fresh e in
          inr (rw e (not_started-Failed x (starting api s).1 os none_in))
    ]

    -- Where the calls that start the process raise an `OSError` alone, and those that end it and
    -- its tree return and do what they are called for (`EndsQuietly`), for a watch with no process
    -- tree: the watch ends with an exception, with no process tree set or open and no process of
    -- one running, and the process does not run if the start failed; unless the loop over its
    -- lines ends with an exception that is no `ValueError` and no refusal of a line.
    pub lines-Ended :
        (decode : List ℕ → Result Value) (reads : List (Result (List ℕ))) (s : Watch W)
        → Gone s
        → ((x : Error) × ((read_values decode reads).1 ≡ escaped x))
          ⊎ (((e : Error) × ((lines api decode reads s).1.0 ≡ err e))
              × Gone (lines api decode reads s).1.1
              × (((start api s).0 ≡ ok tt)
                  ⊎ (api.is_running (lines api decode reads s).1.1.world ≡ false)))
    unfolding lines
    lines-Ended decode reads s fresh = elim (start-Failed s fresh) [
      | inl (begun, there) ↦
          elim (finish-Ended (read_values decode reads).1 (start api s).1 there) [
            | inl out ↦ inl out
            | inr (raised, gone) ↦ inr (rw (begun, lines) (raised, gone, inl refl))
          ]
      | inr (((e, raised), gone), dead) ↦ inr (rw (raised, lines) ((e, refl), gone, inr dead))
    ]

  -- A watch that runs acknowledges every valid event.
  pub ack-identity :
      (dumps : Text → Text) (event : HeyEvent) (w : W)
      → IsValid event
      → api.has_stdin w ≡ true
      → ack api dumps (identity event) w
        ≡ (do api.write (dumps (identity event) ++ codes "\n"); api.drain) w
  unfolding ack
  ack-identity dumps event w v running =
      rw
        (
          v.named,
          is_event_identity-event_identity event.thread_id event.entry_id v.thread_pos v.entry_pos,
          running,
        )
        refl
