-- ===== src/Client/Answers.antt =====
-- Which answers `HeySDKClient` of hey_platform/client.py takes, and which dictionaries the decoder makes.
use package.text.Mathlib.TextEquality.{eq_iff}
use hermes_hey.Prelude.{
  ap, err, runtime_error, ℕ, Text, codes, String, Bool, true, not, ◌&&◌, ◌||◌, ◌≡◌, refl, List, [],
  ◌∷◌, arith, if◌then◌else◌, some, none, Result, ok, raise, duplicate_key, Bool-cases, inl, inr,
  str_eq,
}
use hermes_hey.Exec.{continue, pure, throw}
use hermes_hey.Decimal.{decimal}
use hermes_hey.Json.{Value, Fields, end, field, text, has_key}
use hermes_hey.Client.Command.{
  reject_duplicate_keys, insert_pairs, snoc_field, SdkClient, reply, verify, is_done, is_verified,
}

-- the dictionary of pairs with different keys
abbrev pub fields_of : List (String × Value) → Fields
fields_of [] = end
fields_of ((key, item) ∷ pairs) = field key item (fields_of pairs)

-- no key of the pairs is a key of the dictionary
abbrev fresh : Fields → List (String × Value) → Bool
fresh d [] = true
fresh d ((key, item) ∷ pairs) = not (has_key key d) && fresh d pairs

-- no two pairs have the same key
abbrev pub unique : List (String × Value) → Bool
unique [] = true
unique ((key, item) ∷ pairs) = not (has_key key (fields_of pairs)) && unique pairs

abbrev extend : Fields → Fields → Fields
extend end e = e
extend (field k v d) e = field k v (extend d e)

str_eq-sym : (j k : String) → str_eq j k ≡ str_eq k j
str_eq-sym j k = ground (arith, eq_iff j k, eq_iff k j)

has_key-snoc_field :
    (j k : String) (v : Value) (d : Fields)
    → has_key j (snoc_field d k v) ≡ (has_key j d || str_eq k j)
unfolding has_key snoc_field
has_key-snoc_field j k v end = ground arith
has_key-snoc_field j k v (field i w d) = ground (arith, has_key-snoc_field j k v d)

fresh-snoc_field :
    (k : String) (v : Value) (d : Fields) (pairs : List (String × Value))
    → fresh (snoc_field d k v) pairs ≡ (fresh d pairs && not (has_key k (fields_of pairs)))
unfolding has_key
fresh-snoc_field k v d [] = refl
fresh-snoc_field k v d ((j, item) ∷ pairs) =
    ground (arith, fresh-snoc_field k v d pairs, has_key-snoc_field j k v d, str_eq-sym j k)

extend-snoc_field :
    (d e : Fields) (k : String) (v : Value) → extend (snoc_field d k v) e ≡ extend d (field k v e)
unfolding snoc_field
extend-snoc_field end e k v = refl
extend-snoc_field (field i w d) e k v = ap (field i w) (extend-snoc_field d e k v)

extend-end : (d : Fields) → d ≡ extend d end
extend-end end = refl
extend-end (field k v d) = ap (field k v) (extend-end d)

insert_pairs-unique :
    (d : Fields) (pairs : List (String × Value))
    → insert_pairs d pairs ≡ (
        if fresh d pairs && unique pairs
        then ok (extend d (fields_of pairs))
        else raise duplicate_key "")
unfolding insert_pairs
insert_pairs-unique d [] = ap ok (extend-end d)
insert_pairs-unique d ((k, v) ∷ pairs) =
    rw
      (
        insert_pairs-unique (snoc_field d k v) pairs,
        fresh-snoc_field k v d pairs,
        extend-snoc_field d (fields_of pairs) k v,
      )
      (ground arith)

fresh-end : (pairs : List (String × Value)) → fresh end pairs ≡ true
unfolding has_key
fresh-end [] = refl
fresh-end ((key, item) ∷ pairs) = fresh-end pairs

-- The decoder refuses an object in which two pairs have one key, and of any other makes the
-- dictionary of all its pairs in their order.
pub reject_duplicate_keys-unique :
    (pairs : List (String × Value))
    → reject_duplicate_keys pairs
      ≡ (if unique pairs then ok (fields_of pairs) else raise duplicate_key "")
unfolding reject_duplicate_keys
reject_duplicate_keys-unique pairs = rw (insert_pairs-unique end pairs, fresh-end pairs) refl

-- What passes a test after a run is what the run returned, and the test holds of it.
answer-ok :
    {W : Type 0} (test : Fields → Bool) (message : String) (run : Result Fields × W) (w' : W)
    (result : Fields)
    → continue run.0 (λ r. if test r then pure r else throw runtime_error message) run.1
      ≡ (ok result, w')
    → (run ≡ (ok result, w')) × (test result ≡ true)
answer-ok test message (ok r, w) w' result h = elim (Bool-cases (test r)) [
  | inl passed ↦ ground (arith, passed)
  | inr failed ↦ absurd (ground (arith, failed))
]
answer-ok test message (err e, w) w' result h = absurd (ground arith)

verified-ok :
    {W : Type 0} (test : Fields → Bool) (run : Result Fields × W) (w' : W) (b : Bool)
    → continue run.0
        (λ r.
          if test r then pure true else throw runtime_error "HEY SDK sidecar verification failed")
        run.1
      ≡ (ok b, w')
    → (b ≡ true) × ((result : Fields) × (run ≡ (ok result, w')) × (test result ≡ true))
verified-ok test (ok r, w) w' b h = elim (Bool-cases (test r)) [
  | inl passed ↦ (ground (arith, passed), (r, ground (arith, passed), passed))
  | inr failed ↦ absurd (ground (arith, failed))
]
verified-ok test (err e, w) w' b h = absurd (ground arith)

-- A reply that returns has run the command with the thread's number in digits and the text, the
-- result and the state are those of that run, and the result is a dictionary with the key `ok`
-- alone, which is True.
pub reply-ok :
    {W : Type 0} (client : SdkClient W) (thread_id : ℕ) (content : Text) (w w' : W)
    (result : Fields)
    → reply client thread_id content w ≡ (ok result, w')
    → (client.runner
          (codes "reply" ∷ codes "--thread-id" ∷ decimal thread_id ∷ [])
          (some (field "content" (text content) end))
          w
        ≡ (ok result, w'))
      × (is_done result ≡ true)
unfolding reply
reply-ok client n t w w' r h =
    answer-ok is_done "HEY SDK reply failed"
      (client.runner (codes "reply" ∷ codes "--thread-id" ∷ decimal n ∷ [])
        (some (field "content" (text t) end)) w)
      w' r h

-- A verification that returns has run the command with the client's own address, the state is that
-- of the run, the answer is True, and the result of the run passes the check of its five keys
-- against the client.
pub verify-ok :
    {W : Type 0} (client : SdkClient W) (w w' : W) (b : Bool)
    → verify client w ≡ (ok b, w')
    → (b ≡ true)
      × ((result : Fields) × (client.runner
              (codes "verify" ∷ codes "--own-email" ∷ client.own_email ∷ [])
              none
              w
            ≡ (ok result, w'))
          × (is_verified client.account_id client.own_email result ≡ true))
unfolding verify
verify-ok client w w' b h =
    verified-ok (is_verified client.account_id client.own_email)
      (client.runner (codes "verify" ∷ codes "--own-email" ∷ client.own_email ∷ []) none w) w' b h
