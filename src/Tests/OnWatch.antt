-- ===== src/Tests/OnWatch.antt =====
-- The theorems on the watch process at one line and a process that ends well.
use hermes_hey.Prelude.{
  ◌+◌, leb, le→leb, ◌≢◌, ℕ, List, [], ◌∷◌, ◌++◌, map, Bool, true, false, ◌≡◌, ◌⊎◌, refl, Result, ok,
  err, Error, arith,
}
use hermes_hey.Exec.{pure}
use hermes_hey.Json.{Value, object, end, pos}
use hermes_hey.Client.Watch.{escaped, read_values, WatchApi, Watch, start, lines}
use hermes_hey.Client.Run.{RunApi, Waited, out_of_rounds, wait_loop, wait_loop-ends}
use hermes_hey.Client.Lines.{read_values-values, EndsQuietly, Gone, lines-Ended}

-- every line is an empty dictionary
abbrev decode : List ℕ → Result Value
decode line = ok (object end)

read_values-values_example :
    read_values decode (map ok ((123 ∷ []) ∷ []) ++ ok [] ∷ [])
    ≡ ((end ∷ []) ++ (read_values decode (ok [] ∷ [])).0, (read_values decode (ok [] ∷ [])).1)
read_values-values_example =
    read_values-values decode ((123 ∷ []) ∷ []) (end ∷ []) (ok [] ∷ [])
      ((λ h. ground (arith, h)), refl, tt)

-- whether the tree is open, and whether a process in it runs
pub record Process : Type 0 where
  pub is_open : Bool
  pub runs : Bool

abbrev calm : WatchApi Process
calm = record {
  make_tree = λ w. (ok tt, record w { is_open = true });
  spawn = pure tt;
  attach = λ w. (ok tt, record w { runs = true });
  is_running = λ w. w.runs;
  kill_and_wait = λ w. (ok tt, record w { runs = false });
  terminate_tree = λ w. (ok tt, record w { runs = false });
  close_tree = λ w. (ok tt, record w { is_open = false });
  await_exit = pure (pos 0);
  end_stderr = pure tt;
  has_stdin = λ w. true;
  write = λ t. pure tt;
  drain = pure tt;
}

abbrev calm-EndsQuietly : EndsQuietly calm
calm-EndsQuietly = record {
  tree_open = λ w. w.is_open;
  tree_runs = λ w. w.runs;
  make_tree_raises = λ e w h. absurd (ground arith);
  make_tree_empty = λ w. refl;
  spawn_raises = λ e w h. absurd (ground arith);
  spawn_apart = λ w. refl;
  attach_raises = λ e w h. absurd (ground arith);
  kill_and_wait_returns = λ w. refl;
  kill_and_wait_ends = λ w. refl;
  kill_and_wait_open = λ w. refl;
  kill_and_wait_empty = λ w h. refl;
  terminate_tree_returns = λ w. refl;
  terminate_tree_ends = λ w. refl;
  close_tree_returns = λ w. refl;
  close_tree_closes = λ w. refl;
  close_tree_empty = λ w h. h;
  close_tree_apart = λ w. refl;
  await_exit_returns = λ w. (pos 0, refl);
  end_stderr_returns = λ w. refl;
}

abbrev fresh : Watch Process
fresh = record { world = record { is_open = false; runs = false }; has_tree = false }

fresh-Gone : Gone calm calm-EndsQuietly fresh
fresh-Gone = record { unset = refl; closed_tree = refl; ended = refl }

lines-Ended_example :
    ((x : Error) × ((read_values decode (ok (123 ∷ []) ∷ [])).1 ≡ escaped x))
    ⊎ (((e : Error) × ((lines calm decode (ok (123 ∷ []) ∷ []) fresh).1.0 ≡ err e))
        × Gone calm calm-EndsQuietly (lines calm decode (ok (123 ∷ []) ∷ []) fresh).1.1
        × (((start calm fresh).0 ≡ ok tt)
            ⊎ ((lines calm decode (ok (123 ∷ []) ∷ []) fresh).1.1.world.runs ≡ false)))
lines-Ended_example = lines-Ended calm calm-EndsQuietly decode (ok (123 ∷ []) ∷ []) fresh fresh-Gone

-- a process that runs on, and a clock that shows the pauses
abbrev endless : RunApi ℕ
endless = record {
  is_running = λ w. true;
  is_oversized = λ w. false;
  late = λ w. leb 3 w;
  pause = λ w. (ok tt, w + 1);
  terminate = λ force. pure tt;
  wait_within = λ seconds. pure true;
  wait = pure tt;
  join = λ n. pure true;
  close_stdin = pure tt;
  close_tree = pure tt;
  returncode = λ w. pos 0;
  output = λ w. ([], false);
}

wait_loop-ends_example :
    (waited : Waited) × ((wait_loop endless 4 0).0 ≡ ok waited) × (waited ≢ out_of_rounds)
wait_loop-ends_example =
    wait_loop-ends endless (λ w. w) 3 (λ w. (refl, omega arith)) (λ w le. le→leb 3 w le) 3 0
      (omega arith)
