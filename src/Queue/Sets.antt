-- ===== src/Queue/Sets.antt =====
-- Lists of identities as sets: `contains_text`, `distinct`, `subset`, and what `_trim` and
-- `_save` make of them.
use mathlib.Core.List.{reverse, reverse-append, reverse-reverse, append-nil, append_assoc}
use hermes_hey.Prelude.{
  ℕ, zero, suc, ◌-◌, Text, text_eq_iff, text_eq_refl, true, false, ◌||◌, List, [], ◌∷◌, ◌++◌, ◌≡◌,
  refl, sym, ap, ◌∙◌, arith, length, drop, All, All-append, ◌==◌, Bool-cases, inl, inr,
}
use hermes_hey.Queue.State.{
  contains_text, distinct, subset, trim_loop, last_items, trim, without, DurableQueue, durable_seen,
}

abbrev pub Lacks : List Text → Text → Type 0
Lacks ys x = contains_text x ys ≡ false

contains_text-append :
    (x : Text) (xs ys : List Text)
    → contains_text x (xs ++ ys) ≡ (contains_text x xs || contains_text x ys)
unfolding contains_text
contains_text-append x [] ys = refl
contains_text-append x (y ∷ xs) ys = ground (arith, contains_text-append x xs ys)

pub contains_text-snoc_self : (x : Text) (xs : List Text) → contains_text x (xs ++ x ∷ []) ≡ true
unfolding contains_text
contains_text-snoc_self x xs = ground (arith, contains_text-append x xs (x ∷ []), text_eq_refl x)

pub contains_text-append_left :
    (x : Text) (xs ys : List Text) → contains_text x xs ≡ true → contains_text x (xs ++ ys) ≡ true
contains_text-append_left x xs ys h = ground (arith, contains_text-append x xs ys)

pub contains_text-append_right :
    (x : Text) (xs ys : List Text) → contains_text x ys ≡ true → contains_text x (xs ++ ys) ≡ true
contains_text-append_right x xs ys h = ground (arith, contains_text-append x xs ys)

pub subset_mono : (xs ys zs : List Text) → subset xs ys ≡ true → subset xs (zs ++ ys) ≡ true
unfolding subset
subset_mono [] ys zs h = refl
subset_mono (x ∷ xs) ys zs h =
    ground (arith, contains_text-append_right x zs ys, subset_mono xs ys zs)

subset-cons : (y : Text) (xs ys : List Text) → subset xs ys ≡ true → subset xs (y ∷ ys) ≡ true
subset-cons y xs ys h = subset_mono xs ys (y ∷ []) h

pub subset_refl : (xs : List Text) → subset xs xs ≡ true
unfolding subset contains_text
subset_refl [] = refl
subset_refl (x ∷ xs) = ground (arith, text_eq_refl x, subset-cons x xs xs, subset_refl xs)

pub subset-contains :
    (x : Text) (xs ys : List Text)
    → subset xs ys ≡ true
    → contains_text x xs ≡ true
    → contains_text x ys ≡ true
unfolding subset contains_text
subset-contains x [] ys h k = ground arith
subset-contains x (y ∷ xs) ys h k = ground (arith, text_eq_iff x y, subset-contains x xs ys)

pub distinct-append :
    (xs ys : List Text)
    → distinct xs ≡ true
    → distinct ys ≡ true
    → All (Lacks ys) xs
    → distinct (xs ++ ys) ≡ true
unfolding distinct
distinct-append [] ys h k l = k
distinct-append (x ∷ xs) ys h k l =
    ground (arith, contains_text-append x xs ys, distinct-append xs ys)

All-of_not-contains : (x : Text) (xs : List Text) → Lacks xs x → All (Lacks (x ∷ [])) xs
unfolding contains_text
All-of_not-contains x [] h = tt
All-of_not-contains x (y ∷ xs) h =
    (ground (arith, text_eq_iff x y, text_eq_iff y x), All-of_not-contains x xs (ground arith))

pub distinct-snoc :
    (x : Text) (xs : List Text) → distinct xs ≡ true → Lacks xs x → distinct (xs ++ x ∷ []) ≡ true
unfolding distinct contains_text
distinct-snoc x xs h l = distinct-append xs (x ∷ []) h refl (All-of_not-contains x xs l)

Lacks-reverse : (x : Text) (xs : List Text) → Lacks xs x → Lacks (reverse xs) x
unfolding contains_text
Lacks-reverse x [] h = refl
Lacks-reverse x (y ∷ xs) h =
    rw (reverse-append (y ∷ []) xs)
      (ground (arith, contains_text-append x (reverse xs) (y ∷ []), Lacks-reverse x xs))

distinct-reverse : (xs : List Text) → distinct xs ≡ true → distinct (reverse xs) ≡ true
unfolding distinct
distinct-reverse [] h = refl
distinct-reverse (x ∷ xs) h = rw (reverse-append (x ∷ []) xs) (
    distinct-snoc x (reverse xs) (distinct-reverse xs (ground arith))
      (Lacks-reverse x xs (ground arith)))

pub Lacks-drop : (n : ℕ) (x : Text) (xs : List Text) → Lacks xs x → Lacks (drop n xs) x
unfolding contains_text
Lacks-drop zero x xs h = h
Lacks-drop (suc n) x [] h = h
Lacks-drop (suc n) x (y ∷ xs) h = Lacks-drop n x xs (ground arith)

distinct-drop : (n : ℕ) (xs : List Text) → distinct xs ≡ true → distinct (drop n xs) ≡ true
unfolding distinct
distinct-drop zero xs h = h
distinct-drop (suc n) [] h = h
distinct-drop (suc n) (x ∷ xs) h = distinct-drop n xs (ground arith)

All-drop : (P : Text → Type 0) (n : ℕ) (xs : List Text) → All P xs → All P (drop n xs)
All-drop P zero xs h = h
All-drop P (suc n) [] h = h
All-drop P (suc n) (x ∷ xs) h = All-drop P n xs h.1

distinct-last_items :
    (n : ℕ) (xs : List Text) → distinct xs ≡ true → distinct (last_items n xs) ≡ true
unfolding last_items
distinct-last_items n xs h = ground (arith, distinct-drop (length xs - n) xs)

All-last_items : (P : Text → Type 0) (n : ℕ) (xs : List Text) → All P xs → All P (last_items n xs)
unfolding last_items
All-last_items P n xs h = elim (Bool-cases (n == 0)) [
  | inl e ↦ rw e h
  | inr e ↦ rw e (All-drop P (length xs - n) xs h)
]

Lacks-more :
    (x : Text) (xs known : List Text)
    → Lacks xs x
    → All (Lacks known) xs
    → All (Lacks (x ∷ known)) xs
unfolding contains_text
Lacks-more x [] known h l = tt
Lacks-more x (y ∷ xs) known h l =
    (ground (arith, text_eq_iff x y, text_eq_iff y x), Lacks-more x xs known (ground arith) l.1)

All-Lacks-nil : (xs : List Text) → All (Lacks []) xs
unfolding contains_text
All-Lacks-nil [] = tt
All-Lacks-nil (x ∷ xs) = (refl, All-Lacks-nil xs)

-- On a list with no repetition the loop of `_trim` copies it.
trim_loop_of_distinct :
    (xs known result : List Text)
    → distinct xs ≡ true
    → All (Lacks known) xs
    → trim_loop xs known result ≡ result ++ xs
unfolding trim_loop distinct
trim_loop_of_distinct [] known result h l = sym (append-nil result)
trim_loop_of_distinct (x ∷ xs) known result h l = rw l.0 (
    trim_loop_of_distinct xs (x ∷ known) (result ++ x ∷ []) (ground arith)
      (Lacks-more x xs known (ground arith) l.1)
    ∙ append_assoc result (x ∷ []) xs)

-- `_trim` of a list with no repetition is its end.
pub trim_of_distinct :
    (xs : List Text) (cap : ℕ) → distinct xs ≡ true → trim xs cap ≡ last_items cap xs
unfolding trim
trim_of_distinct xs cap h =
    ap (λ ys. last_items cap (reverse ys))
      (trim_loop_of_distinct (reverse xs) [] [] (distinct-reverse xs h)
        (All-Lacks-nil (reverse xs)))
    ∙ ap (last_items cap) (reverse-reverse xs)

pub last_items_all : (xs : List Text) → last_items (length xs) xs ≡ xs
unfolding last_items
last_items_all xs =
    let none_left : length xs - length xs ≡ 0 = omega arith in
    elim (Bool-cases (length xs == 0)) [ inl e ↦ rw e | inr e ↦ rw (e, none_left) ]

without-Lacks : (xs removed : List Text) → All (Lacks removed) (without xs removed)
unfolding without
without-Lacks [] removed = tt
without-Lacks (x ∷ xs) removed = elim (Bool-cases (contains_text x removed)) [
  | inl e ↦ rw e (without-Lacks xs removed)
  | inr e ↦ rw e (e, without-Lacks xs removed)
]

Lacks-without : (x : Text) (xs removed : List Text) → Lacks xs x → Lacks (without xs removed) x
unfolding without contains_text
Lacks-without x [] removed h = refl
Lacks-without x (y ∷ xs) removed h = ground (arith, Lacks-without x xs removed)

distinct-without :
    (xs removed : List Text) → distinct xs ≡ true → distinct (without xs removed) ≡ true
unfolding without distinct
distinct-without [] removed h = refl
distinct-without (x ∷ xs) removed h =
    ground (arith, distinct-without xs removed, Lacks-without x xs removed)

All-without : (P : Text → Type 0) (xs removed : List Text) → All P xs → All P (without xs removed)
unfolding without
All-without P [] removed h = tt
All-without P (x ∷ xs) removed h = elim (Bool-cases (contains_text x removed)) [
  | inl e ↦ rw e (All-without P xs removed h.1)
  | inr e ↦ rw e (h.0, All-without P xs removed h.1)
]

module _ (q : DurableQueue) (seen ids : List Text) (fresh : distinct seen ≡ true)
    (apart : distinct ids ≡ true) where
  -- For remembered identities with no repetition and pending ones with no repetition, what `_save`
  -- stores are the last `max_seen` of the remembered ones that are not pending, and behind them
  -- all pending ones.
  pub durable_seen_lem : durable_seen q seen ids ≡ last_items q.max_seen (without seen ids) ++ ids
  unfolding durable_seen
  durable_seen_lem = rw (
    trim_of_distinct (without seen ids) q.max_seen (distinct-without seen ids fresh),
    trim_of_distinct ids (length ids) apart,
    last_items_all ids,
  )

  pub durable_seen-distinct : distinct (durable_seen q seen ids) ≡ true
  durable_seen-distinct = rw durable_seen_lem (
      distinct-append (last_items q.max_seen (without seen ids)) ids
        (distinct-last_items q.max_seen _ (distinct-without seen ids fresh)) apart
        (All-last_items (Lacks ids) q.max_seen _ (without-Lacks seen ids)))

  pub durable_seen-subset : subset ids (durable_seen q seen ids) ≡ true
  durable_seen-subset = rw durable_seen_lem (subset_mono ids ids _ (subset_refl ids))

  pub durable_seen-All :
      (P : Text → Type 0) → All P seen → All P ids → All P (durable_seen q seen ids)
  durable_seen-All P h k =
      rw durable_seen_lem
        (All-append P _ ids (All-last_items P q.max_seen _ (All-without P seen ids h)) k)
