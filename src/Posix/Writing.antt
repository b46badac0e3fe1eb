-- ===== src/Posix/Writing.antt =====
-- The loop of `_save_posix` in hey_platform/engine.py that writes the bytes.
use hermes_hey.Prelude.{
  Text, ℕ, zero, suc, ◌≤◌, ◌≡◌, refl, sym, ap, ◌∙◌, [], ◌∷◌, ◌++◌, length, take, drop, length-drop,
  ok, Result-cases, inl, inr, arith,
}
use mathlib.Core.List.{append-nil, append_assoc}
use hermes_hey.Posix.Api.{PosixApi, Bytes}
use hermes_hey.Posix.Saving.{write_all}

take-drop : (n : ℕ) (xs : Bytes) → take n xs ++ drop n xs ≡ xs
take-drop zero xs = refl
take-drop (suc n) [] = refl
take-drop (suc n) (x ∷ xs) = ap (◌∷◌ x) (take-drop n xs)

module _ {W : Type 0} (api : PosixApi W) (name : Text) where
  -- Two numbers of rounds that are at least the number of the bytes.
  enough_rounds :
      (m n fd : ℕ) (remaining : Bytes) (w : W)
      → length remaining ≤ m
      → length remaining ≤ n
      → write_all api name m fd remaining w ≡ write_all api name n fd remaining w
  unfolding write_all
  enough_rounds zero zero fd [] w p q = refl
  enough_rounds zero (suc n) fd [] w p q = refl
  enough_rounds (suc m) zero fd [] w p q = refl
  enough_rounds (suc m) (suc n) fd [] w p q = refl
  enough_rounds zero n fd (b ∷ bs) w p q = absurd (omega arith)
  enough_rounds (suc m) zero fd (b ∷ bs) w p q = absurd (omega arith)
  enough_rounds (suc m) (suc n) fd (b ∷ bs) w p q =
      elim (Result-cases (api.write fd (b ∷ bs) w).0) [
        | inr (x, e) ↦ rw e refl
        | inl (zero, e) ↦ rw e refl
        | inl (suc k, e) ↦
            let shorter : length (drop k bs) ≤ length bs = omega (arith, length-drop k bs) in
            rw e
              (enough_rounds m n fd (drop k bs) _ (omega (arith, shorter)) (omega (arith, shorter)))
      ]

  -- Any number of rounds from the number of the bytes on gives the same as the number of the
  -- bytes: the loop ends by its own test, since every round that goes on has written a byte.
  pub write_all-rounds :
      (rounds fd : ℕ) (remaining : Bytes) (w : W)
      → length remaining ≤ rounds
      → write_all api name rounds fd remaining w
        ≡ write_all api name (length remaining) fd remaining w
  write_all-rounds rounds fd remaining w le =
      enough_rounds rounds (length remaining) fd remaining w le (omega arith)

  -- A file to which every write appends what it says that it wrote.
  module _ (file : W → Bytes) (fd : ℕ)
      (appends : (bs : Bytes) (n : ℕ) (w : W)
        → (api.write fd bs w).0 ≡ ok n
        → file (api.write fd bs w).1 ≡ file w ++ take n bs) where
    -- The loop that returns has appended all bytes.
    pub write_all-file :
        (rounds : ℕ) (remaining : Bytes) (w : W)
        → (write_all api name rounds fd remaining w).0 ≡ ok tt
        → file (write_all api name rounds fd remaining w).1 ≡ file w ++ remaining
    unfolding write_all
    write_all-file zero [] w done = sym (append-nil (file w))
    write_all-file (suc rounds) [] w done = sym (append-nil (file w))
    write_all-file zero (b ∷ bs) w done = absurd (ground arith)
    write_all-file (suc rounds) (b ∷ bs) w done = elim (Result-cases (api.write fd (b ∷ bs) w).0) [
      | inr (x, e) ↦ absurd (ground (arith, e))
      | inl (zero, e) ↦ absurd (ground (arith, e))
      | inl (suc n, e) ↦
          let w1 = (api.write fd (b ∷ bs) w).1 in
          let wrote : file w1 ≡ file w ++ take (suc n) (b ∷ bs) = appends (b ∷ bs) (suc n) w e in
          rw e (
            write_all-file rounds (drop n bs) w1 (rw e at done)
            ∙ ap (λ f. f ++ drop n bs) wrote
            ∙ append_assoc (file w) (take (suc n) (b ∷ bs)) (drop n bs)
            ∙ ap (◌++◌ (file w)) (take-drop (suc n) (b ∷ bs)))
    ]
