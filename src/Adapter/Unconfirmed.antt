-- ===== src/Adapter/Unconfirmed.antt =====
-- `_send_with_retry` of hey_platform/adapter.py leaves an event in the queue until its reply is confirmed.
use hermes_hey.Prelude.{
  lit, ℕ, zero, suc, Text, Bool, true, false, not, ◌||◌, ◌≡◌, refl, ◌∙◌, Option, none, some, ap,
  if◌then◌else◌, ◌⊎◌, Result, ok, arith, Result-cases, Bool-cases, inl, inr, collect,
}
use hermes_hey.Exec.{Exec, pure, lift, ◌>>=◌, ◌>>◌}
use hermes_hey.Exec.Views
use hermes_hey.Exec.Views.{bind-Keeps, finally-Keeps, if-Keeps}
use hermes_hey.Core.Event.{HeyEvent, from_dict}
use hermes_hey.Core.Identity.{parse_context_id}
use hermes_hey.Queue.Format.{CodecLaws}
use hermes_hey.Queue.Transaction.{load, pending}
use hermes_hey.Queue.Refinement.{StorageLaws, content-load}
use hermes_hey.Adapter.Claims.{claimed_identity}
use hermes_hey.Adapter.World.{World}
use hermes_hey.Adapter.Drain.{Adapter, on_disk}
use hermes_hey.Adapter.Delivery.{
  SendResult, Client, mutation, is_comment, refused, claimed_event, find_claimed, send, send_to,
  mutate, retry, send_attempts, acknowledge, complete_claimed, send_with_retry,
}

if-cases :
    {X : Type 0} (b : Bool) (x y : X)
    → ((b ≡ true) × ((if b then x else y) ≡ x)) ⊎ ((b ≡ false) × ((if b then x else y) ≡ y))
if-cases true x y = inl (refl, refl)
if-cases false x y = inr (refl, refl)

module _ {B D G : Type 0} (self : Adapter B D G) (laws : CodecLaws self.codec)
    (disk : StorageLaws self.codec self.storage) where
  -- what the state file holds
  abbrev pub content : World D G → Option B
  content w = disk.content w.disk

  abbrev Same : {A : Type 0} → Exec (World D G) A → Type 0
  Same m = Views.Keeps content m

  abbrev content-after : {A : Type 0} → Result A × World D G → Option B
  content-after r = content r.1

  pub pending-Same : Views.Keeps disk.content (pending self.storage self.codec self.queue)
  unfolding pending
  pending-Same w = elim (Result-cases (self.storage.open_parent false w).0) [
    | inr (x, e) ↦ rw e (disk.open_content false w)
    | inl (none, e) ↦ rw e (disk.open_content false w)
    | inl (some fd, e) ↦
        let w1 = (self.storage.open_parent false w).1 in
        rw e (
          finally-Keeps disk.content
            (load self.storage self.codec self.queue (some fd) >>= λ value.
              lift (collect from_dict value.pending))
            (self.storage.close_parent (some fd))
            (bind-Keeps disk.content (load self.storage self.codec self.queue (some fd)) _
              (content-load laws disk self.queue (some fd)) (λ value w'. refl))
            (disk.close_content (some fd)) w1
          ∙ disk.open_content false w)
  ]

  find_claimed-Same : (thread_id : ℕ) (id : Option Text) → Same (find_claimed self thread_id id)
  unfolding find_claimed on_disk
  find_claimed-Same thread_id none = λ w. refl
  find_claimed-Same thread_id (some id) =
      bind-Keeps content (on_disk self (pending self.storage self.codec self.queue)) _
        (λ w. pending-Same w.disk) (λ events w. refl)

  module _ (client : Client D G) (replies : (t : ℕ) (text : Text) → Same (client.reply t text))
      (comments : (t : ℕ) (text : Text) → Same (client.comment t text)) where
    send_to-Same :
        (thread_id : ℕ) (text : Text) (event : Option HeyEvent)
        → Same (send_to self client thread_id text event)
    unfolding send_to mutate mutation
    send_to-Same thread_id text none w = refl
    send_to-Same thread_id text (some event) w = elim (Bool-cases (is_comment event)) [
      | inl p ↦ rw p (comments thread_id text w)
      | inr p ↦ rw p (replies thread_id text w)
    ]

    claimed_event-Same : (thread_id : ℕ) → Same (claimed_event self thread_id)
    unfolding claimed_event
    claimed_event-Same thread_id w =
        find_claimed-Same thread_id (claimed_identity self.state_key thread_id w.claims) w

    send_allowed : Text → Text → Exec (World D G) SendResult
    send_allowed chat_id text = do
      thread_id ← lift (parse_context_id chat_id)
      event ← claimed_event self thread_id
      send_to self client thread_id text event

    send-Same : (chat_id text : Text) → Same (send self client chat_id text)
    unfolding send send_allowed
    send-Same chat_id text w =
        elim (if-cases w.final_send_allowed (send_allowed chat_id text w)
          (ok (refused (lit "HEY permits only the final text response")), w)) [
            | inr (p, same) ↦ ap content-after same
            | inl (p, same) ↦
                ap content-after same
                ∙ bind-Keeps content (lift (parse_context_id chat_id)) _ (λ w'. refl)
                    (λ thread_id.
                      bind-Keeps content (claimed_event self thread_id) _
                        (claimed_event-Same thread_id) (send_to-Same thread_id text))
                    w
          ]

    module _ (pause : ℕ → Exec (World D G) (Unit {0})) (waits : (n : ℕ) → Same (pause n)) where
      retry-Same :
          (rounds attempt : ℕ) (chat_id text : Text) (result : SendResult)
          → Same (retry self client pause rounds attempt chat_id text result)
      unfolding retry
      retry-Same zero attempt chat_id text result = λ w. refl
      retry-Same (suc rounds) attempt chat_id text result =
          if-Keeps content (result.success || not result.retryable) (pure result) _ (λ w. refl)
            (bind-Keeps content (pause attempt) _ (waits attempt) (λ u.
              bind-Keeps content (send self client chat_id text) _ (send-Same chat_id text)
                (λ result'. retry-Same rounds (suc attempt) chat_id text result')))

      send_attempts-Same :
          (chat_id text : Text) (n : ℕ) → Same (send_attempts self client pause chat_id text n)
      unfolding send_attempts
      send_attempts-Same chat_id text n =
          bind-Keeps content (send self client chat_id text) _ (send-Same chat_id text)
            (λ result. retry-Same n 0 chat_id text result)

      -- What is not confirmed is not acknowledged.
      acknowledge-unconfirmed :
          (thread_id : ℕ) (r result : SendResult) (w : World D G)
          → (acknowledge self client pause thread_id r w).0 ≡ ok result
          → result.success ≡ false
          → content (acknowledge self client pause thread_id r w).1 ≡ content w
      unfolding acknowledge
      acknowledge-unconfirmed thread_id r result w returned unconfirmed =
          let completed : Exec (World D G) (Unit {0}) =
            complete_claimed self client pause
              (claimed_identity self.state_key thread_id w.claims) in
          let confirmed = (do completed; pure r) w in
          elim (if-cases r.success confirmed (ok r, w)) [
            | inr (p, same) ↦ ap content-after same
            | inl (p, same) ↦ elim (Result-cases (completed w).0) [
              | inl (u, e) ↦ absurd (ground (arith, e, same, returned, p, unconfirmed))
              | inr (x, e) ↦ absurd (ground (arith, e, same, returned))
            ]
          ]

      -- Over a codec and a storage that keep their laws, where the client's calls and the pauses,
      -- with what other tasks do in them, leave what the state file holds: if `_send_with_retry`
      -- returns a result that is no success, the state file holds what it held before.
      pub send_with_retry-unconfirmed :
          (chat_id text : Text) (max_retries : ℕ) (result : SendResult) (w : World D G)
          → (send_with_retry self client pause chat_id text max_retries w).0 ≡ ok result
          → result.success ≡ false
          → content (send_with_retry self client pause chat_id text max_retries w).1 ≡ content w
      unfolding send_with_retry
      send_with_retry-unconfirmed chat_id text max_retries result w returned unconfirmed =
          let allowed : World D G = record w { final_send_allowed = true } in
          elim (Result-cases (parse_context_id chat_id)) [
            | inr (x, e) ↦ absurd (ground (arith, e, returned))
            | inl (thread_id, e) ↦
                elim (Result-cases
                  (send_attempts self client pause chat_id text max_retries allowed).0) [
                    | inr (x, f) ↦ absurd (ground (arith, e, f, returned))
                    | inl (r, f) ↦
                        rw (e, f)
                          (acknowledge-unconfirmed thread_id r result _ (rw (e, f) at returned)
                              unconfirmed
                            ∙ send_attempts-Same chat_id text max_retries allowed)
                  ]
          ]
