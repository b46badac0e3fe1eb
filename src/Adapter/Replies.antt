-- ===== src/Adapter/Replies.antt =====
-- What `send` and `_send_with_retry` of hey_platform/adapter.py guarantee of the outgoing side.
use hermes_hey.Prelude.{
  ℕ, zero, suc, Text, codes, true, false, not, ◌||◌, ◌≡◌, refl, some, ◌++◌, ◌==◌, arith, raw, lit,
  ok,
}
use hermes_hey.Exec.{Exec}
use hermes_hey.Decimal.{
  decimal, span_digits, span_digits-append, decimal-IsDigits, int_of_digits-decimal, decimal_head,
  is_digit,
}
use hermes_hey.Strings.{lstrip, lstrip_digit, is_empty, is_space}
use hermes_hey.Core.Event.{HeyEvent}
use hermes_hey.Core.Identity.{parse_context_id}
use hermes_hey.Adapter.World.{World}
use hermes_hey.Adapter.Drain.{Adapter}
use hermes_hey.Adapter.Delivery.{
  SendResult, refused, Client, retryable, is_comment, claimed_event, mutation, mutate, send_to,
  send, retry, send_attempts,
}

-- Where `lower` writes the message of a failed reply command in small letters, the failure is
-- retryable exactly when the exit code is 75.
pub retryable_exit :
    (lower : Text → Text) (n : ℕ)
    → lower (codes "HEY SDK reply failed (exit " ++ (decimal n ++ codes ")"))
      ≡ codes "hey sdk reply failed (exit " ++ (decimal n ++ codes ")")
    → retryable lower (raw (codes "HEY SDK reply failed (exit " ++ (decimal n ++ codes ")")))
      ≡ (n == 75)
unfolding retryable codes is_space is_empty is_digit
retryable_exit lower n lowered =
    let (c, s, head, digit) = decimal_head n in
    let whole : lstrip (decimal n ++ codes ")") ≡ decimal n ++ codes ")" =
      rw (head, lstrip_digit c (s ++ codes ")") digit) in
    let filled : is_empty (decimal n) ≡ false = rw head in
    let split : span_digits (decimal n ++ codes ")") ≡ (decimal n, codes ")") =
      span_digits-append (decimal n) (codes ")") (decimal-IsDigits n) refl in
    rw (lowered, retryable, whole, split, filled, int_of_digits-decimal)

module _ {B D G : Type 0} (self : Adapter B D G) (client : Client D G) where
  -- Where no final delivery is under way, `send` returns a refusal that is not to be retried, and
  -- the world is unchanged.
  pub send_closed :
      (chat_id content : Text) (w : World D G)
      → w.final_send_allowed ≡ false
      → ((send self client chat_id content w).1 ≡ w)
        × (r : SendResult) × ((send self client chat_id content w).0 ≡ ok r)
        × (r.success ≡ false)
        × (r.retryable ≡ false)
  unfolding send
  send_closed chat_id content w closed = (
    ground arith,
    refused (lit "HEY permits only the final text response"),
    ground arith,
    refl,
    refl,
  )

  -- `mutate` calls the mutation of the event's kind: another client with the same mutation for that
  -- kind gives the same.
  mutate-same :
      (other : Client D G) (event : HeyEvent) (thread_id : ℕ) (content : Text) (w : World D G)
      → mutation self client event ≡ mutation self other event
      → mutate self client event thread_id content w ≡ mutate self other event thread_id content w
  unfolding mutate
  mutate-same other event thread_id content w same = rw same

  mutation-reply :
      (other : Client D G) (event : HeyEvent)
      → is_comment event ≡ false
      → client.reply ≡ other.reply
      → mutation self client event ≡ mutation self other event
  unfolding mutation
  mutation-reply other event kind same = rw (kind, same)

  mutation-comment :
      (other : Client D G) (event : HeyEvent)
      → is_comment event ≡ true
      → client.comment ≡ other.comment
      → mutation self client event ≡ mutation self other event
  unfolding mutation
  mutation-comment other event kind same = rw (kind, same)

  -- Where the context names a thread whose claimed event is found and is no comment, a client with
  -- the same `reply` and any other `comment` gives `send` the same result and the same world.
  pub send-reply_only :
      (other : Client D G) (chat_id content : Text) (t : ℕ) (event : HeyEvent) (w : World D G)
      → parse_context_id chat_id ≡ ok t
      → (claimed_event self t w).0 ≡ ok (some event)
      → is_comment event ≡ false
      → client.reply ≡ other.reply
      → send self client chat_id content w ≡ send self other chat_id content w
  unfolding send send_to
  send-reply_only other chat_id content t event w parsed claimed kind same = ground (
    arith,
    mutate-same other event t content (claimed_event self t w).1
        (mutation-reply other event kind same),
  )

  -- Where the context names a thread whose claimed event is found and is a comment, a client with
  -- the same `comment` and any other `reply` gives `send` the same result and the same world.
  pub send-comment_only :
      (other : Client D G) (chat_id content : Text) (t : ℕ) (event : HeyEvent) (w : World D G)
      → parse_context_id chat_id ≡ ok t
      → (claimed_event self t w).0 ≡ ok (some event)
      → is_comment event ≡ true
      → client.comment ≡ other.comment
      → send self client chat_id content w ≡ send self other chat_id content w
  unfolding send send_to
  send-comment_only other chat_id content t event w parsed claimed kind same = ground (
    arith,
    mutate-same other event t content (claimed_event self t w).1
        (mutation-comment other event kind same),
  )

  module _ (pause : ℕ → Exec (World D G) (Unit {0})) where
    -- Where the first `send` returns a result that is a success or not to be retried, the attempts
    -- end with that result and the world after that one `send`, for every number of retries.
    pub send_attempts-once :
        (chat_id content : Text) (max_retries : ℕ) (w : World D G) (r : SendResult)
        → (send self client chat_id content w).0 ≡ ok r
        → (r.success || not r.retryable) ≡ true
        → send_attempts self client pause chat_id content max_retries w
          ≡ (ok r, (send self client chat_id content w).1)
    unfolding send_attempts retry
    send_attempts-once chat_id content zero w r e stop = rw (e, send_attempts)
    send_attempts-once chat_id content (suc n) w r e stop = rw (e, send_attempts, stop)
