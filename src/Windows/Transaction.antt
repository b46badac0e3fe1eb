-- ===== src/Windows/Transaction.antt =====
-- `WindowsStateTransaction` of hey_platform/windows_state.py.
use hermes_hey.Prelude.{
  ℕ, Text, text_eq, Bool, true, false, Option, none, some, if◌then◌else◌, Result, ok, err,
  runtime_error, is_os_error,
}
use hermes_hey.Exec.{Exec, pure, lift, throw, finally, ◌>>=◌, ◌>>◌}
use hermes_hey.Queue.Transaction.{Storage}

-- `_WindowsApi`, with the calls on the path that the transaction makes itself. Every call may raise.
-- `canonical` is `_canonical`, and `temporary_path` the path with the next random name.
pub record WindowsApi (B W : Type 0) : Type 0 where
  pub exists : Text → W → Bool
  pub mkdir : Text → Exec W (Unit {0})
  pub open_parent : Text → Exec W ℕ
  pub open_state : Text → Exec W (Option ℕ)
  pub temporary_path : Text → W → Text
  pub create_temp : Text → Exec W ℕ
  pub final_path : ℕ → Exec W Text
  pub canonical : Text → W → Text
  pub assert_private : ℕ → Bool → Exec W (Unit {0})
  pub set_private : ℕ → Exec W (Unit {0})
  pub read : ℕ → ℕ → Exec W B
  pub write_through : ℕ → B → Exec W (Unit {0})
  pub rename_by_handle : ℕ → ℕ → Text → Exec W (Unit {0})
  pub delete_by_handle : ℕ → Exec W (Unit {0})
  pub close : ℕ → Exec W (Unit {0})

module _ {B W : Type 0} (api : WindowsApi B W) (path parent_path name : Text) where
  -- `_assert_final_path`
  unfoldable pub assert_final_path : ℕ → Text → Exec W (Unit {0})
  assert_final_path handle expected = do
    final ← api.final_path handle
    λ w.
        if text_eq (api.canonical final w) expected
        then (ok tt, w)
        else throw runtime_error "HEY Windows handle resolved outside queue directory" w

  unfoldable pub check_parent : Bool → ℕ → Text → Exec W (Unit {0})
  check_parent existed handle expected = do
    if existed then pure tt else api.set_private handle
    api.assert_private handle true
    assert_final_path handle expected

  -- `except BaseException: close; raise`
  unfoldable pub close_on_error : ℕ → Result (Unit {0}) → Exec W (Option ℕ)
  close_on_error handle (ok u) = pure (some handle)
  close_on_error handle (err e) = do api.close handle; lift (err e)

  unfoldable pub open_existing : Bool → Exec W (Option ℕ)
  unfolding check_parent close_on_error
  open_existing existed w =
      let expected = api.canonical parent_path w in
      (do
        handle ← api.open_parent parent_path
        λ w1. let (r, w2) = check_parent existed handle expected w1 in close_on_error handle r w2)
        w

  -- `__enter__`
  unfoldable pub enter : Bool → Exec W (Option ℕ)
  unfolding open_existing
  enter create w =
      if api.exists parent_path w
      then open_existing true w
      else if create
      then (do api.mkdir parent_path; open_existing false) w
      else (ok none, w)

  -- `__exit__`
  unfoldable pub exit : Option ℕ → Exec W (Unit {0})
  exit none = pure tt
  exit (some handle) = api.close handle

  unfoldable pub read_opened : ℕ → Option ℕ → Exec W (Option B)
  read_opened limit none = pure none
  read_opened limit (some handle) =
      finally
        (do
          api.assert_private handle false
          λ w. assert_final_path handle (api.canonical path w) w
          b ← api.read handle limit
          pure (some b))
        (api.close handle)

  -- `read_state`
  unfoldable pub read_state : Option ℕ → ℕ → Exec W (Option B)
  unfolding read_opened
  read_state none limit = pure none
  read_state (some parent) limit = do handle ← api.open_state path; read_opened limit handle

  -- `replace_state` up to the renaming
  unfoldable pub stage : ℕ → ℕ → Text → B → Exec W (Unit {0})
  stage parent handle temporary_path encoded = do
    api.set_private handle
    api.assert_private handle false
    λ w. assert_final_path handle (api.canonical temporary_path w) w
    api.write_through handle encoded
    api.rename_by_handle handle parent name

  -- what follows it
  unfoldable pub verify : ℕ → Exec W (Unit {0})
  verify handle = do
    λ w. assert_final_path handle (api.canonical path w) w
    api.assert_private handle false

  -- `try: delete_by_handle except OSError: pass`
  unfoldable pub discard_temp : ℕ → Exec W (Unit {0})
  discard_temp handle w =
      let (r, w') = api.delete_by_handle handle w in
      elim r [
        | ok u ↦ (ok tt, w')
        | err e ↦ if is_os_error e.class then (ok tt, w') else (err e, w')
      ]

  -- the `finally` block, where a failure to delete goes before the closing
  unfoldable pub after_stage : ℕ → Result (Unit {0}) → Exec W (Unit {0})
  after_stage handle (ok u) = finally (verify handle) (api.close handle)
  after_stage handle (err e) = do discard_temp handle; api.close handle; lift (err e)

  -- `replace_state`
  unfoldable pub replace_state : Option ℕ → B → Exec W (Unit {0})
  replace_state none encoded w = throw runtime_error "HEY queue directory is insecure" w
  replace_state (some parent) encoded w =
      let temporary = api.temporary_path parent_path w in
      (do
        handle ← api.create_temp temporary
        λ w1. let (r, w2) = stage parent handle temporary encoded w1 in after_stage handle r w2)
        w

  abbrev pub windows_storage : Storage B W
  windows_storage = record {
    open_parent = enter;
    read_state = read_state;
    replace_state = replace_state;
    close_parent = exit;
  }
