-- ===== src/Client/Output.antt =====
-- What hey_platform/client.py keeps of a command's output, and which output it takes for an answer.
use hermes_hey.Prelude.{
  ℕ, zero, suc, ◌+◌, ◌-◌, ◌≤◌, ◌<◌, Text, Bool, true, false, ◌≡◌, refl, sym, ap, ◌∙◌, List, [], ◌∷◌,
  ◌++◌, length, length-append, take, take_of_length-le, arith, ltb, Result, ok, err, Bool-cases,
  inl, inr, All,
}
use mathlib.Core.List.{append-nil, append_assoc}
use hermes_hey.Json.{
  ℤ, pos, negsuc, Value, Fields, object, null, boolean, integer, real, non_finite, text, array,
}
use hermes_hey.Client.Command.{read_stdout, outcome, as_dict, decoded, failure, is_zero}

-- the bytes of all chunks
abbrev pub joined : List (List ℕ) → List ℕ
joined [] = []
joined (c ∷ cs) = c ++ joined cs

length-take : (n : ℕ) (xs : List ℕ) → n ≤ length xs → length (take n xs) ≡ n
length-take zero xs h = refl
length-take (suc n) [] h = absurd (omega arith)
length-take (suc n) (x ∷ xs) h = ap suc (length-take n xs (omega arith))

-- A front that ends inside the second list.
take_of_append :
    (n : ℕ) (xs ys : List ℕ) → length xs ≤ n → take n (xs ++ ys) ≡ xs ++ take (n - length xs) ys
take_of_append n [] ys h = ap (λ k. take k ys) (omega arith)
take_of_append zero (x ∷ xs) ys h = absurd (omega arith)
take_of_append (suc n) (x ∷ xs) ys h =
    let less : suc n - suc (length xs) ≡ n - length xs = omega arith in
    rw less (ap (◌∷◌ x) (take_of_append n xs ys (omega arith)))

-- A front that ends inside the first list.
take_of_append_left : (n : ℕ) (xs ys : List ℕ) → n ≤ length xs → take n (xs ++ ys) ≡ take n xs
take_of_append_left zero xs ys h = refl
take_of_append_left (suc n) [] ys h = absurd (omega arith)
take_of_append_left (suc n) (x ∷ xs) ys h = ap (◌∷◌ x) (take_of_append_left n xs ys (omega arith))

-- Where the pipe gives no empty chunk before its end, and the output so far is within the limit,
-- the reader keeps the first `max_output + 1` bytes of the output so far and all that comes,
-- however it is cut into chunks, and sets its flag exactly when they are more than `max_output`
-- bytes.
pub read_stdout-take :
    (max_output : ℕ) (chunks : List (List ℕ)) (output : List ℕ)
    → length output ≤ max_output
    → All (λ c. 0 < length c) chunks
    → read_stdout max_output chunks output ≡ (
      take (max_output + 1) (output ++ joined chunks),
      ltb max_output (length (output ++ joined chunks)),
    )
unfolding read_stdout
read_stdout-take m [] output le h =
    rw (append-nil output, take_of_length-le (m + 1) output (omega arith)) (ground arith)
read_stdout-take m ([] ∷ cs) output le h = absurd (omega (arith, h.0))
read_stdout-take m ((b ∷ bs) ∷ cs) output le h =
    let all_read = output ++ (b ∷ bs) in
    let kept = output ++ take (m + 1 - length output) (b ∷ bs) in
    let front : take (m + 1) all_read ≡ kept =
      take_of_append (m + 1) output (b ∷ bs) (omega arith) in
    let size : length all_read ≡ length output + length (b ∷ bs) = length-append output (b ∷ bs) in
    let assoc : all_read ++ joined cs ≡ output ++ ((b ∷ bs) ++ joined cs) =
      append_assoc output (b ∷ bs) (joined cs) in
    elim (Bool-cases (ltb m (length all_read))) [
      | inl more ↦
          let exact : length kept ≡ m + 1 =
            rw (sym front) (length-take (m + 1) all_read (ground arith)) in
          let whole : take (m + 1) (all_read ++ joined cs) ≡ kept =
            take_of_append_left (m + 1) all_read (joined cs) (ground arith) ∙ front in
          rw (sym assoc, whole, length-append all_read (joined cs)) (ground (arith, exact))
      | inr fits ↦
          let same : kept ≡ all_read =
            sym front ∙ take_of_length-le (m + 1) all_read (ground arith) in
          rw (sym assoc, same) (ground (arith, read_stdout-take m cs all_read (ground arith) h.1))
    ]

as_dict-ok : (operation : Text) (v : Value) (d : Fields) → as_dict operation v ≡ ok d → v ≡ object d
unfolding as_dict failure
as_dict-ok operation (object d') d h = ground arith
as_dict-ok operation null d h = absurd (ground arith)
as_dict-ok operation (boolean b) d h = absurd (ground arith)
as_dict-ok operation (integer n) d h = absurd (ground arith)
as_dict-ok operation (real m k) d h = absurd (ground arith)
as_dict-ok operation non_finite d h = absurd (ground arith)
as_dict-ok operation (text t) d h = absurd (ground arith)
as_dict-ok operation (array vs) d h = absurd (ground arith)

decoded-ok :
    (operation : Text) (r : Result Value) (d : Fields)
    → decoded operation r ≡ ok d
    → r ≡ ok (object d)
unfolding decoded failure
decoded-ok operation (ok v) d h = ap ok (as_dict-ok operation v d h)
decoded-ok operation (err e) d h = absurd (ground arith)

is_zero-pos : (n : ℤ) → is_zero n ≡ true → n ≡ pos 0
unfolding is_zero
is_zero-pos (pos n) h = ap pos (ground arith)
is_zero-pos (negsuc n) h = absurd (ground arith)

-- A command whose outcome is an answer did not give too much output, ended with 0, and its output
-- decodes to the dictionary that is the answer.
pub outcome-ok :
    (decode : List ℕ → Result Value) (operation : Text) (returncode : ℤ) (output : List ℕ)
    (oversized : Bool) (d : Fields)
    → outcome decode operation returncode (output, oversized) ≡ ok d
    → (oversized ≡ false) × (returncode ≡ pos 0) × (decode output ≡ ok (object d))
unfolding outcome failure
outcome-ok decode operation returncode output true d h = absurd (ground arith)
outcome-ok decode operation returncode output false d h = elim (Bool-cases (is_zero returncode)) [
  | inl zero_code ↦ (
    refl,
    is_zero-pos returncode zero_code,
    decoded-ok operation (decode output) d (ground arith),
  )
  | inr other ↦ absurd (ground arith)
]
