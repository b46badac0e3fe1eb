-- ===== src/Posix/Private.antt =====
-- What `_read_secure_state` of hey_platform/engine.py has checked of the file whose bytes it returns.
use hermes_hey.Prelude.{
  ℕ, Text, true, ◌≡◌, refl, sym, Option, none, some, ok, Result-cases, Bool-cases, inl, inr, arith,
  is_os_error,
}
use hermes_hey.Posix.Api.{PosixApi, Stat, Bytes}
use hermes_hey.Posix.Parent.{same_file, insecure, ensure, assert_parent_identity}
use hermes_hey.Posix.Reading.{
  is_private_file, open_state, check_state, read_opened, read_secure_state, read_state,
}

module _ {W : Type 0} (api : PosixApi W) (name : Text) where
  -- a file of the user's own, which no one else may read or write, and which the path leads to
  pub record IsOwn (d fd : ℕ) (w : W) : Type 0 where
    pub metadata : Stat
    pub path_metadata : Stat
    pub found : (api.fstat fd w).0 ≡ ok metadata
    pub private_file : is_private_file api name metadata ≡ true
    pub found_path : (api.stat_at name d (api.fstat fd w).1).0 ≡ ok path_metadata
    pub same : same_file path_metadata metadata ≡ true

  check_state-IsOwn : (d fd : ℕ) (w : W) → (check_state api name d fd w).0 ≡ ok tt → IsOwn d fd w
  unfolding check_state ensure insecure
  check_state-IsOwn d fd w checked = elim (Result-cases (api.fstat fd w).0) [
    | inr (x, e) ↦ absurd (ground (arith, e, checked))
    | inl (metadata, e) ↦
        let w1 = (api.fstat fd w).1 in
        elim (Bool-cases (is_private_file api name metadata)) [
          | inr p ↦ absurd (ground (arith, e, p, checked))
          | inl p ↦ elim (Result-cases (api.stat_at name d w1).0) [
            | inr (x, f) ↦ elim (Bool-cases (is_os_error x.class)) [
              | inl os ↦ absurd (ground (arith, e, p, f, os, checked))
              | inr other ↦ absurd (ground (arith, e, p, f, other, checked))
            ]
            | inl (path_metadata, f) ↦ elim (Bool-cases (same_file path_metadata metadata)) [
              | inr bad ↦ absurd (ground (arith, e, p, f, bad, checked))
              | inl same ↦ record {
                metadata = metadata;
                path_metadata = path_metadata;
                found = e;
                private_file = p;
                found_path = f;
                same = same;
              }
            ]
          ]
        ]
  ]

  read_opened-IsOwn :
      (d limit : ℕ) (opened : Option ℕ) (b : Bytes) (w : W)
      → (read_opened api name d limit opened w).0 ≡ ok (some b)
      → (fd : ℕ) × (opened ≡ some fd) × IsOwn d fd w
  unfolding read_opened
  read_opened-IsOwn d limit none b w gave = absurd (ground (arith, gave))
  read_opened-IsOwn d limit (some fd) b w gave =
      elim (Result-cases (check_state api name d fd w).0) [
        | inl (u, e) ↦ (fd, refl, check_state-IsOwn d fd w e)
        | inr (x, e) ↦ elim (Result-cases (api.close fd (check_state api name d fd w).1).0) [
          | inl (v, f) ↦ absurd (ground (arith, e, f, gave))
          | inr (y, f) ↦ absurd (ground (arith, e, f, gave))
        ]
      ]

  -- If the reading returns bytes, it has opened the state file, and the file behind the descriptor
  -- is a regular file of the user with the mode 0o600 that the name in the directory leads to.
  pub read_state-IsOwn :
      (d limit : ℕ) (b : Bytes) (w : W)
      → (read_state api name (some d) limit w).0 ≡ ok (some b)
      → (fd : ℕ) × ((open_state api name d (assert_parent_identity api d w).1).0 ≡ ok (some fd))
        × IsOwn d fd (open_state api name d (assert_parent_identity api d w).1).1
  unfolding read_state read_secure_state
  read_state-IsOwn d limit b w gave = elim (Result-cases (assert_parent_identity api d w).0) [
    | inr (x, e) ↦ absurd (ground (arith, e, gave))
    | inl (u, e) ↦
        let w1 = (assert_parent_identity api d w).1 in
        elim (Result-cases (open_state api name d w1).0) [
          | inr (x, f) ↦ absurd (ground (arith, e, f, gave))
          | inl (opened, f) ↦
              let (fd, is_some, own) =
                read_opened-IsOwn d limit opened b (open_state api name d w1).1
                  (rw (e, f) at gave) in
              (fd, rw (sym is_some) f, own)
        ]
  ]
