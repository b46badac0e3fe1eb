-- ===== src/Adapter/Delivery.antt =====
-- The final response: `_claimed_event`, `_retryable`, `send` and `_send_with_retry` of
-- hey_platform/adapter.py.
use hermes_hey.Prelude.{
  ℕ, zero, suc, Text, codes, text_eq, str, Message, lit, raw, Bool, true, false, not, ◌&&◌, ◌||◌,
  Option, none, some, List, [], ◌∷◌, ◌++◌, ◌==◌, if◌then◌else◌, Result, ok, err, ErrorClass,
  runtime_error,
}
use hermes_hey.Exec.{Exec, pure, lift, ◌>>=◌, ◌>>◌}
use hermes_hey.Decimal.{span_digits, int_of_digits}
use hermes_hey.Strings.{is_space, lstrip, is_empty}
use hermes_hey.Json.{Value, object, boolean, get, keys_eq}
use hermes_hey.Core.Event.{HeyEvent, identity}
use hermes_hey.Core.Identity.{after_prefix, parse_context_id}
use hermes_hey.Queue.Transaction
use hermes_hey.Adapter.Claims.{claimed_identity}
use hermes_hey.Adapter.World.{World}
use hermes_hey.Adapter.Drain.{Adapter, on_disk}

pub record SendResult : Type 0 where
  pub success : Bool
  pub error : Option Message
  pub retryable : Bool

-- exit\s+(\d+) at the front of a text
unfoldable pub match_exit : Text → Option Text
unfolding after_prefix codes
match_exit s = elim (after_prefix (codes "exit") s) [
  | none ↦ none
  | some [] ↦ none
  | some (c ∷ t) ↦
      let ds = (span_digits (lstrip t)).0 in
      if is_space c && not (is_empty ds) then some ds else none
]

-- `re.search`, the first match from the left
unfoldable pub search_exit : Text → Option Text
unfolding match_exit
search_exit [] = none
search_exit (c ∷ s) = elim (match_exit (c ∷ s)) [ some ds ↦ some ds | none ↦ search_exit s ]

-- `_retryable`, with Python's `str.lower`, for messages with the digits 0 to 9
unfoldable pub retryable : (Text → Text) → Message → Bool
unfolding search_exit int_of_digits str
retryable lower error = elim (search_exit (lower (str error))) [
  | none ↦ false
  | some ds ↦ int_of_digits ds == 75
]

-- `type(result) is dict and set(result) == {"ok"} and result.get("ok") is True`
unfoldable pub is_ok : Value → Bool
is_ok (object d) =
    keys_eq d ("ok" ∷ [])
    && elim (get "ok" d) [ none ↦ false | some v ↦ (elim v [ boolean b ↦ b | _ ↦ false ]) ]
is_ok _ = false

unfoldable pub is_comment : HeyEvent → Bool
unfolding codes text_eq
is_comment event = text_eq event.kind (codes "comment")

abbrev pub refused : Message → SendResult
refused m = record { success = false; error = some m; retryable = false }

abbrev pub sent : SendResult
sent = record { success = true; error = none; retryable = false }

is_runtime : ErrorClass → Bool
is_runtime runtime_error = true
is_runtime _ = false

-- `mutation_name`
unfoldable pub mutation_name : HeyEvent → Text
unfolding is_comment codes
mutation_name event = if is_comment event then codes "comment" else codes "reply"

-- what `send` makes of the answer of the mutation
unfoldable pub answer : (Text → Text) → Text → Result Value → SendResult
unfolding is_ok retryable is_runtime codes
answer lower name (ok value) =
    if is_ok value
    then sent
    else refused (raw (codes "HEY SDK " ++ (name ++ codes " returned invalid response")))
answer lower name (err e) =
    if is_runtime e.class
    then record { success = false; error = some e.message; retryable = retryable lower e.message }
    else refused (raw (codes "HEY " ++ (name ++ codes " failed")))

unfoldable pub find_event : Text → ℕ → List HeyEvent → Option HeyEvent
find_event id thread_id [] = none
find_event id thread_id (event ∷ rest) =
    if text_eq (identity event) id && event.thread_id == thread_id
    then some event
    else find_event id thread_id rest

-- `HeyClient`: its two mutations take a thread and a text. A call runs in a thread of its own and is
-- awaited, so that the other tasks may change the world before it answers.
pub record Client (D G : Type 0) : Type 0 where
  pub reply : ℕ → Text → Exec (World D G) Value
  pub comment : ℕ → Text → Exec (World D G) Value

module _ {B D G : Type 0} (self : Adapter B D G) where
  unfoldable pub find_claimed : ℕ → Option Text → Exec (World D G) (Option HeyEvent)
  find_claimed thread_id none = pure none
  find_claimed thread_id (some id) = do
    events ← on_disk self (Transaction.pending self.storage self.codec self.queue)
    pure (find_event id thread_id events)

  -- `_claimed_event`
  unfoldable pub claimed_event : ℕ → Exec (World D G) (Option HeyEvent)
  unfolding find_claimed
  claimed_event thread_id w =
      find_claimed thread_id (claimed_identity self.state_key thread_id w.claims) w

module _ {B D G : Type 0} (self : Adapter B D G) (client : Client D G) where
  -- the mutation that belongs to the kind of the event
  unfoldable pub mutation : HeyEvent → ℕ → Text → Exec (World D G) Value
  mutation event = if is_comment event then client.comment else client.reply

  -- the `try` of `send`, which turns every answer into a result
  unfoldable pub mutate : HeyEvent → ℕ → Text → Exec (World D G) SendResult
  mutate event thread_id content w =
      let (r, w') = mutation event thread_id content w in
      (ok (answer self.lower (mutation_name event) r), w')

  unfoldable pub send_to : ℕ → Text → Option HeyEvent → Exec (World D G) SendResult
  send_to thread_id content none =
      pure (refused (lit "HEY final response has no claimed pending event"))
  send_to thread_id content (some event) = mutate event thread_id content

  unfoldable pub send : Text → Text → Exec (World D G) SendResult
  send chat_id content w =
      if w.final_send_allowed
      then (do
        thread_id ← lift (parse_context_id chat_id)
        event ← claimed_event self thread_id
        send_to thread_id content event)
          w
      else (ok (refused (lit "HEY permits only the final text response")), w)

  -- `pause attempt` is the sleep of `base_delay * 2 ** attempt`, in which other tasks run.
  module _ (pause : ℕ → Exec (World D G) (Unit {0})) where
    -- the `for` loop, with the rounds that are left and the number of the attempt
    unfoldable pub retry : ℕ → ℕ → Text → Text → SendResult → Exec (World D G) SendResult
    retry zero attempt chat_id content result = pure result
    retry (suc rounds) attempt chat_id content result =
        let again : Exec (World D G) SendResult = do
          pause attempt
          result' ← send chat_id content
          retry rounds (suc attempt) chat_id content result'
        in if result.success || not result.retryable then pure result else again

    unfoldable pub send_attempts : Text → Text → ℕ → Exec (World D G) SendResult
    send_attempts chat_id content max_retries = do
      result ← send chat_id content
      retry max_retries 0 chat_id content result

    unfoldable pub complete_claimed : Option Text → Exec (World D G) (Unit {0})
    complete_claimed none = pure tt
    complete_claimed (some id) =
        on_disk self (Transaction.complete self.storage self.codec self.queue id)

    -- what follows the attempts
    unfoldable pub acknowledge : ℕ → SendResult → Exec (World D G) SendResult
    unfolding complete_claimed
    acknowledge thread_id result w =
        if result.success
        then (do complete_claimed (claimed_identity self.state_key thread_id w.claims); pure result)
            w
        else (ok result, w)

    -- `_send_with_retry`; the context variable is reset whether or not an attempt raises
    unfoldable pub send_with_retry : Text → Text → ℕ → Exec (World D G) SendResult
    send_with_retry chat_id content max_retries = do
      thread_id ← lift (parse_context_id chat_id)
      result ← λ w.
          let (r, w') =
            send_attempts chat_id content max_retries (record w { final_send_allowed = true }) in
          (r, record w' { final_send_allowed = w.final_send_allowed })
      acknowledge thread_id result
