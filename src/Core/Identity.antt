-- ===== src/Core/Identity.antt =====
-- The texts that name a thread, an entry and a topic in hey_platform/core.py, and the patterns by
-- which core.py, engine.py and client.py recognise them.
use hermes_hey.Prelude.{
  ℕ, Text, codes, Bool, true, false, ◌≡◌, refl, [], ◌∷◌, ◌++◌, Option, none, some, ◌==◌,
  if◌then◌else◌, Result, ok, err, value_error, raw, leb, length,
}
use hermes_hey.Decimal.{decimal, span_digits, is_canonical, int_of_digits}

-- f"thread:{thread_id}"
unfoldable pub context_id : ℕ → Text
context_id thread_id = codes "thread:" ++ decimal thread_id

-- f"thread:{thread_id}:entry:{entry_id}"
unfoldable pub event_identity : ℕ → ℕ → Text
event_identity thread_id entry_id =
    codes "thread:" ++ (decimal thread_id ++ (codes ":entry:" ++ decimal entry_id))

-- f"https://app.hey.com/topics/{thread_id}"
unfoldable pub topic_url : ℕ → Text
topic_url thread_id = codes "https://app.hey.com/topics/" ++ decimal thread_id

-- what follows a literal at the front of a text
unfoldable pub after_prefix : Text → Text → Option Text
after_prefix [] s = some s
after_prefix (c ∷ p) [] = none
after_prefix (c ∷ p) (d ∷ s) = if c == d then after_prefix p s else none

-- what [1-9][0-9]* matches at the front of a text, and what follows
unfoldable pub match_number : Text → Option (Text × Text)
match_number s = let (ds, rest) = span_digits s in if is_canonical ds then some (ds, rest) else none

-- thread:[1-9][0-9]* over the whole text, with the group
unfoldable pub match_context : Text → Option Text
match_context s = elim (after_prefix (codes "thread:") s) [
  | none ↦ none
  | some t ↦ elim (match_number t) [
    | none ↦ none
    | some (ds, rest) ↦ (elim rest [ [] ↦ some ds | c ∷ r ↦ none ])
  ]
]

-- thread:[1-9][0-9]*:entry:[1-9][0-9]* over the whole text
unfoldable pub is_event_identity : Text → Bool
is_event_identity s = elim (after_prefix (codes "thread:") s) [
  | none ↦ false
  | some t ↦ elim (match_number t) [
    | none ↦ false
    | some (ds, rest) ↦ elim (after_prefix (codes ":entry:") rest) [
      | none ↦ false
      | some u ↦ elim (match_number u) [
        | none ↦ false
        | some (es, end) ↦ (elim end [ [] ↦ true | c ∷ r ↦ false ])
      ]
    ]
  ]
]

-- `int` refuses a text of more digits than Python's default limit, `sys.int_info.default_max_str_digits`.
abbrev pub max_str_digits : ℕ
max_str_digits = 4300

unfoldable pub int_of_text : Text → Result ℕ
int_of_text ds =
    if leb (length ds) max_str_digits
    then ok (int_of_digits ds)
    else err (record {
      class = value_error;
      message = raw (codes "Exceeds the limit for integer string conversion");
    })

-- The messages show the text as it is, where Python prints its `repr`, and leave out the limit.
unfoldable pub parse_context_id : Text → Result ℕ
unfolding int_of_text
parse_context_id value = elim (match_context value) [
  | none ↦
      err
        (record { class = value_error; message = raw (codes "Invalid HEY context ID: " ++ value) })
  | some ds ↦ int_of_text ds
]

parse_examples :
    (parse_context_id (codes "thread:42") ≡ ok 42)
    × (match_context (codes "thread:042") ≡ none)
    × (match_context (codes "thread:4x") ≡ none)
    × (is_event_identity (codes "thread:4:entry:17") ≡ true)
    × (is_event_identity (codes "thread:4:entry:") ≡ false)
unfolding parse_context_id match_context match_number after_prefix is_event_identity span_digits
    is_canonical int_of_digits codes
parse_examples = (refl, refl, refl, refl, refl)
