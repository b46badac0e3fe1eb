-- ===== src/Core/Contexts.antt =====
-- The names of threads and entries are read back exactly, and no two entries share one.
use hermes_hey.Prelude.{
  ℕ, ◌<◌, Text, codes, true, ◌≡◌, refl, sym, ap, ◌∙◌, [], ◌∷◌, ◌++◌, some, arith, Option-cases, inl,
  inr, ==_refl, ok, leb, length,
}
use mathlib.Core.List.{append-nil}
use hermes_hey.Decimal.{
  decimal, span_digits, is_digit, is_canonical, int_of_digits, IsDigits, Stops, decimal-IsDigits,
  decimal-is_canonical, int_of_digits-decimal, span_digits-append, span_digits_parts,
  decimal-int_of_digits,
}
use hermes_hey.Core.Identity.{
  context_id, event_identity, after_prefix, match_number, match_context, is_event_identity,
  parse_context_id, int_of_text, max_str_digits,
}

after_prefix-append : (p s : Text) → after_prefix p (p ++ s) ≡ some s
unfolding after_prefix
after_prefix-append [] s = refl
after_prefix-append (c ∷ p) s = rw (==_refl c) (after_prefix-append p s)

after_prefix_parts : (p s t : Text) → after_prefix p s ≡ some t → s ≡ p ++ t
unfolding after_prefix
after_prefix_parts [] s t h = ground arith
after_prefix_parts (c ∷ p) [] t h = ground arith
after_prefix_parts (c ∷ p) (d ∷ s) t h = ground (arith, after_prefix_parts p s t)

match_number-decimal :
    (n : ℕ) (rest : Text)
    → 0 < n
    → Stops rest
    → match_number (decimal n ++ rest) ≡ some (decimal n, rest)
unfolding match_number
match_number-decimal n rest p stop =
    rw (span_digits-append (decimal n) rest (decimal-IsDigits n) stop, decimal-is_canonical n p)

match_number_parts :
    (s ds rest : Text)
    → match_number s ≡ some (ds, rest)
    → IsDigits ds × (is_canonical ds ≡ true) × (ds ++ rest ≡ s)
unfolding match_number
match_number_parts s ds rest h =
    let (all, same) = span_digits_parts s in
    let split : (span_digits s).0 ≡ ds = ground arith in
    (rw split at all, ground arith, ground arith)

entry_Stops : (s : Text) → Stops (codes ":entry:" ++ s)
unfolding codes is_digit
entry_Stops s = refl

match_context-context_id : (n : ℕ) → 0 < n → match_context (context_id n) ≡ some (decimal n)
unfolding match_context context_id
match_context-context_id n p = rw (
  after_prefix-append (codes "thread:") (decimal n),
  rw (append-nil (decimal n)) at (match_number-decimal n [] p tt),
  match_context,
)

-- The context of a thread with a positive number of no more digits than `int` takes is read back as that
-- number.
pub parse_context_id-context_id :
    (n : ℕ)
    → 0 < n
    → leb (length (decimal n)) max_str_digits ≡ true
    → parse_context_id (context_id n) ≡ ok n
unfolding parse_context_id int_of_text
parse_context_id-context_id n p short =
    rw (match_context-context_id n p, int_of_digits-decimal, parse_context_id, int_of_text, short)

match_context_parts :
    (s ds : Text)
    → match_context s ≡ some ds
    → IsDigits ds × (is_canonical ds ≡ true) × (s ≡ codes "thread:" ++ ds)
unfolding match_context
match_context_parts s ds h = elim (Option-cases (after_prefix (codes "thread:") s)) [
  | inl e ↦ absurd (ground arith)
  | inr (t, e) ↦ elim (Option-cases (match_number t)) [
    | inl f ↦ absurd (ground arith)
    | inr ((ds', []), f) ↦
        let (all, canonical, same) = match_number_parts t ds' [] f in
        let d : ds' ≡ ds = ground arith in
        (
          rw d at all,
          rw d at canonical,
          after_prefix_parts (codes "thread:") s t e
              ∙ ap (λ u. codes "thread:" ++ u) (sym same ∙ append-nil ds' ∙ d),
        )
    | inr ((ds', c ∷ rest), f) ↦ absurd (ground arith)
  ]
]

-- A text that `parse_context_id` reads as a number is the context of the thread with that number,
-- and the number is positive.
pub parse_context_id_canonical :
    (s : Text) (n : ℕ) → parse_context_id s ≡ ok n → (s ≡ context_id n) × (0 < n)
unfolding parse_context_id int_of_text context_id
parse_context_id_canonical s n h = elim (Option-cases (match_context s)) [
  | inl e ↦ absurd (ground arith)
  | inr (ds, e) ↦
      let (all, canonical, parts) = match_context_parts s ds e in
      let (printed, positive) = decimal-int_of_digits ds all canonical in
      let value : int_of_digits ds ≡ n = ground arith in
      (rw (parts, ← value, printed), rw value at positive)
]

-- The identity of an entry, for positive numbers of the thread and the entry, fits the pattern by
-- which identities are checked.
pub is_event_identity-event_identity :
    (t e : ℕ) → 0 < t → 0 < e → is_event_identity (event_identity t e) ≡ true
unfolding is_event_identity event_identity
is_event_identity-event_identity t e p q = rw (
  after_prefix-append (codes "thread:") (decimal t ++ (codes ":entry:" ++ decimal e)),
  match_number-decimal t (codes ":entry:" ++ decimal e) p (entry_Stops (decimal e)),
  after_prefix-append (codes ":entry:") (decimal e),
  rw (append-nil (decimal e)) at (match_number-decimal e [] q tt),
  is_event_identity,
)

append-injective : (p s t : Text) → p ++ s ≡ p ++ t → s ≡ t
append-injective p s t h = ground (arith, after_prefix-append p s, after_prefix-append p t)

decimal-injective : (m n : ℕ) → decimal m ≡ decimal n → m ≡ n
decimal-injective m n h =
    sym (int_of_digits-decimal m) ∙ ap int_of_digits h ∙ int_of_digits-decimal n

split_entry :
    (t e : ℕ)
    → span_digits (decimal t ++ (codes ":entry:" ++ decimal e))
      ≡ (decimal t, codes ":entry:" ++ decimal e)
split_entry t e = span_digits-append (decimal t) _ (decimal-IsDigits t) (entry_Stops (decimal e))

-- Entries with one identity are one entry of one thread.
pub event_identity-injective :
    (t e t' e' : ℕ) → event_identity t e ≡ event_identity t' e' → (t ≡ t') × (e ≡ e')
unfolding event_identity
event_identity-injective t e t' e' h =
    let tail : decimal t ++ (codes ":entry:" ++ decimal e)
        ≡ decimal t' ++ (codes ":entry:" ++ decimal e') =
      append-injective (codes "thread:") _ _ h in
    let split : (decimal t, codes ":entry:" ++ decimal e)
        ≡ (decimal t', codes ":entry:" ++ decimal e') =
      sym (split_entry t e) ∙ ap span_digits tail ∙ split_entry t' e' in
    (
      decimal-injective t t' (ap (λ (x : Text × Text). x.0) split),
      decimal-injective e e'
          (append-injective (codes ":entry:") _ _ (ap (λ (x : Text × Text). x.1) split)),
    )
