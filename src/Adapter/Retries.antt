-- ===== src/Adapter/Retries.antt =====
-- How often `_send_with_retry` of hey_platform/adapter.py calls the client.
use hermes_hey.Prelude.{
  ℕ, zero, suc, ◌+◌, ◌≤◌, Text, true, not, ◌||◌, ◌≡◌, refl, Option, none, some, arith, Result-cases,
  Bool-cases, Option-cases, inl, inr,
}
use hermes_hey.Exec.{Exec}
use hermes_hey.Core.Event.{HeyEvent}
use hermes_hey.Core.Identity.{parse_context_id}
use hermes_hey.Adapter.Claims.{claimed_identity}
use hermes_hey.Adapter.World.{World}
use hermes_hey.Adapter.Drain.{Adapter, on_disk}
use hermes_hey.Adapter.Delivery.{
  SendResult, Client, is_comment, claimed_event, mutation, mutate, send_to, send, retry,
  send_attempts, acknowledge, send_with_retry,
}

module _ {B D G : Type 0} (self : Adapter B D G) where
  gateway-on_disk :
      {A : Type 0} (m : Exec D A) (w : World D G) → (on_disk self m w).1.gateway ≡ w.gateway
  unfolding on_disk
  gateway-on_disk m w = refl

  gateway-claimed_event : (t : ℕ) (w : World D G) → (claimed_event self t w).1.gateway ≡ w.gateway
  unfolding claimed_event on_disk
  gateway-claimed_event t w = elim (Option-cases (claimed_identity self.state_key t w.claims)) [
    | inl e ↦ ground arith
    | inr (id, e) ↦ ground arith
  ]

module _ {B D G : Type 0} (self : Adapter B D G) (client : Client D G) (calls : G → ℕ)
    (reply_once : (t : ℕ) (c : Text) (w : World D G)
      → calls (client.reply t c w).1.gateway ≤ calls w.gateway + 1)
    (comment_once : (t : ℕ) (c : Text) (w : World D G)
      → calls (client.comment t c w).1.gateway ≤ calls w.gateway + 1) where
  mutation-calls :
      (event : HeyEvent) (t : ℕ) (c : Text) (w : World D G)
      → calls (mutation self client event t c w).1.gateway ≤ calls w.gateway + 1
  unfolding mutation
  mutation-calls event t c w = elim (Bool-cases (is_comment event)) [
    | inl e ↦ rw e (comment_once t c w)
    | inr e ↦ rw e (reply_once t c w)
  ]

  send_to-calls :
      (t : ℕ) (c : Text) (event : Option HeyEvent) (w : World D G)
      → calls (send_to self client t c event w).1.gateway ≤ calls w.gateway + 1
  unfolding send_to mutate
  send_to-calls t c none w = omega arith
  send_to-calls t c (some event) w = mutation-calls event t c w

  send-calls :
      (chat_id c : Text) (w : World D G)
      → calls (send self client chat_id c w).1.gateway ≤ calls w.gateway + 1
  unfolding send
  send-calls chat_id c w = elim (Bool-cases w.final_send_allowed) [
    | inr closed ↦ ground arith
    | inl opened ↦ elim (Result-cases (parse_context_id chat_id)) [
      | inr (x, e) ↦ ground arith
      | inl (t, e) ↦ elim (Result-cases (claimed_event self t w).0) [
        | inr (x, f) ↦ ground (arith, gateway-claimed_event self t w)
        | inl (event, f) ↦ ground (
          arith,
          gateway-claimed_event self t w,
          send_to-calls t c event (claimed_event self t w).1,
        )
      ]
    ]
  ]

  module _ (pause : ℕ → Exec (World D G) (Unit {0}))
      (paused : (a : ℕ) (w : World D G) → calls (pause a w).1.gateway ≤ calls w.gateway) where
    retry-calls :
        (rounds attempt : ℕ) (chat_id c : Text) (result : SendResult) (w : World D G)
        → calls (retry self client pause rounds attempt chat_id c result w).1.gateway
          ≤ calls w.gateway + rounds
    unfolding retry
    retry-calls zero attempt chat_id c result w = omega arith
    retry-calls (suc rounds) attempt chat_id c result w =
        elim (Bool-cases (result.success || not result.retryable)) [
          | inl stop ↦ ground arith
          | inr go ↦ elim (Result-cases (pause attempt w).0) [
            | inr (x, e) ↦ ground (arith, paused attempt w)
            | inl (u, e) ↦
                let w1 = (pause attempt w).1 in
                elim (Result-cases (send self client chat_id c w1).0) [
                  | inr (x, f) ↦ ground (arith, paused attempt w, send-calls chat_id c w1)
                  | inl (r, f) ↦
                      let w2 = (send self client chat_id c w1).1 in
                      ground (
                        arith,
                        paused attempt w,
                        send-calls chat_id c w1,
                        retry-calls rounds (suc attempt) chat_id c r w2,
                      )
                ]
          ]
        ]

    send_attempts-calls :
        (chat_id c : Text) (max_retries : ℕ) (w : World D G)
        → calls (send_attempts self client pause chat_id c max_retries w).1.gateway
          ≤ calls w.gateway + (max_retries + 1)
    unfolding send_attempts
    send_attempts-calls chat_id c max_retries w =
        elim (Result-cases (send self client chat_id c w).0) [
          | inr (x, e) ↦ ground (arith, send-calls chat_id c w)
          | inl (r, e) ↦ ground (
            arith,
            send-calls chat_id c w,
            retry-calls max_retries 0 chat_id c r (send self client chat_id c w).1,
          )
        ]

    gateway-acknowledge :
        (t : ℕ) (result : SendResult) (w : World D G)
        → (acknowledge self client pause t result w).1.gateway ≡ w.gateway
    unfolding acknowledge on_disk
    gateway-acknowledge t result w = elim (Bool-cases result.success) [
      | inr failed ↦ ground arith
      | inl done ↦ elim (Option-cases (claimed_identity self.state_key t w.claims)) [
        | inl e ↦ ground arith
        | inr (id, e) ↦ ground arith
      ]
    ]

    -- Where each of the client's two mutations, with what other tasks do while it is awaited, adds
    -- at most one to a count of calls, and a pause adds none, one call of `_send_with_retry` adds
    -- at most `max_retries + 1`, whatever the answers are and whether it returns or raises.
    pub send_with_retry-calls :
        (chat_id c : Text) (max_retries : ℕ) (w : World D G)
        → calls (send_with_retry self client pause chat_id c max_retries w).1.gateway
          ≤ calls w.gateway + (max_retries + 1)
    unfolding send_with_retry
    send_with_retry-calls chat_id c max_retries w = elim (Result-cases (parse_context_id chat_id)) [
      | inr (x, e) ↦ ground arith
      | inl (t, e) ↦
          let w1 : World D G = record w { final_send_allowed = true } in
          elim (Result-cases (send_attempts self client pause chat_id c max_retries w1).0) [
            | inr (x, f) ↦ ground (arith, send_attempts-calls chat_id c max_retries w1)
            | inl (r, f) ↦
                let w2 : World D G =
                  record (send_attempts self client pause chat_id c max_retries w1).1 {
                    final_send_allowed = w.final_send_allowed;
                  } in
                ground
                  (arith, send_attempts-calls chat_id c max_retries w1, gateway-acknowledge t r w2)
          ]
    ]
