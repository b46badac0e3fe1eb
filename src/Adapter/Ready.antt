-- ===== src/Adapter/Ready.antt =====
-- `_drain_when_gateway_ready` of hey_platform/adapter.py: whom it asks the gateway about, and how it waits.
use hermes_hey.Prelude.{
  ℕ, zero, suc, Text, text_eq_refl, codes, Bool, true, false, ◌≡◌, ◌⊎◌, refl, sym, ap, ◌∙◌, ◌≤◌,
  Option, none, some, List, [], ◌∷◌, arith, ok, Result-cases, Bool-cases, Option-cases, inl, inr,
  if◌then◌else◌,
}
use hermes_hey.Exec.{Exec, pure, ◌>>◌}
use hermes_hey.Queue.State.{contains_text}
use hermes_hey.Client.Account.{text_gt}
use hermes_hey.Adapter.Access.{Access, is_dm_allowed}
use hermes_hey.Adapter.World.{World}
use hermes_hey.Adapter.Drain.{Adapter, drain_pending}

unfoldable pub least : Text → Option Text → Text
least s none = s
least s (some t) = if text_gt s t then t else s

-- the first of the sorted senders who are allowed
unfoldable pub first_allowed : (Text → Text) → Access → List Text → Option Text
unfolding least
first_allowed lower access [] = none
first_allowed lower access (s ∷ senders) =
    let rest = first_allowed lower access senders in
    if is_dm_allowed lower access s then some (least s rest) else rest

unfoldable pub probe_of : Access → Option Text → Option Text
unfolding codes
probe_of access (some s) = some s
probe_of access none =
    if access.allow_all_users then some (codes "hermes-hey-readiness-probe@invalid") else none

-- the sender that the gateway is asked about
unfoldable pub probe_sender : (Text → Text) → Access → Option Text
unfolding first_allowed probe_of
probe_sender lower access = probe_of access (first_allowed lower access access.allowed_senders)

-- `pause` is the sleep between two questions, in which other tasks run.
module _ {B D G : Type 0} (self : Adapter B D G) (pause : Exec (World D G) (Unit {0})) where
  -- the `while` loop, with the rounds that it may take; whether it has ended
  unfoldable pub wait_ready : ℕ → Text → Exec (World D G) Bool
  unfolding codes
  wait_ready zero sender = pure false
  wait_ready (suc rounds) sender = λ w.
      elim (self.gateway_authorized sender (codes "thread:gateway-readiness") w) [
        | none ↦ (ok true, w)
        | some true ↦ (do drain_pending self; pure true) w
        | some false ↦ (do pause; wait_ready rounds sender) w
      ]

  unfoldable pub wait_for : ℕ → Option Text → Exec (World D G) Bool
  wait_for rounds none = pure true
  wait_for rounds (some sender) = wait_ready rounds sender

  -- `_drain_when_gateway_ready`
  unfoldable pub drain_when_gateway_ready : ℕ → Exec (World D G) Bool
  drain_when_gateway_ready rounds = wait_for rounds (probe_sender self.lower self.access)

  -- Where the loop has ended within some rounds, more of them change nothing.
  pub wait_ready-rounds :
      (rounds more : ℕ) (sender : Text) (w : World D G)
      → rounds ≤ more
      → (wait_ready rounds sender w).0 ≡ ok true
      → wait_ready more sender w ≡ wait_ready rounds sender w
  unfolding wait_ready
  wait_ready-rounds zero more sender w le ended = absurd (ground (arith, ended))
  wait_ready-rounds (suc rounds) zero sender w le ended = absurd (omega (arith, le))
  wait_ready-rounds (suc rounds) (suc more) sender w le ended =
      elim (Option-cases (self.gateway_authorized sender (codes "thread:gateway-readiness") w)) [
        | inl e ↦ rw (e, wait_ready) refl
        | inr (true, e) ↦ rw (e, wait_ready) refl
        | inr (false, e) ↦
            let w1 = (pause w).1 in
            elim (Result-cases (pause w).0) [
              | inr (x, f) ↦ rw (e, wait_ready, f) refl
              | inl (u, f) ↦
                  rw (e, wait_ready, f)
                    (wait_ready-rounds rounds more sender w1 (omega (arith, le))
                      (rw (e, wait_ready, f) at ended))
            ]
      ]

-- The sender that the gateway is asked about is allowed to write, or all users are.
first_allowed-allowed :
    (lower : Text → Text) (access : Access) (senders : List Text) (s : Text)
    → first_allowed lower access senders ≡ some s
    → (is_dm_allowed lower access s ≡ true) × (contains_text s senders ≡ true)
unfolding first_allowed contains_text least
first_allowed-allowed lower access [] s h = absurd (ground (arith, h))
first_allowed-allowed lower access (t ∷ senders) s h =
    elim (Option-cases (first_allowed lower access senders)) [
      | inl none_left ↦ elim (Bool-cases (is_dm_allowed lower access t)) [
        | inl good ↦
            let same : t ≡ s = ground (arith, none_left, good, h) in
            rw (sym same) (good, ground (arith, text_eq_refl t))
        | inr bad ↦ absurd (ground (arith, none_left, bad, h))
      ]
      | inr (r, left) ↦
          let known = first_allowed-allowed lower access senders r left in
          elim (Bool-cases (is_dm_allowed lower access t)) [
            | inr bad ↦
                let same : r ≡ s = ground (arith, left, bad, h) in
                rw (sym same) (known.0, ground (arith, known.1))
            | inl good ↦ elim (Bool-cases (text_gt t r)) [
              | inl gt ↦
                  let same : r ≡ s = ground (arith, left, good, gt, h) in
                  rw (sym same) (known.0, ground (arith, known.1))
              | inr le ↦
                  let same : t ≡ s = ground (arith, left, good, le, h) in
                  rw (sym same) (good, ground (arith, text_eq_refl t))
            ]
          ]
    ]

-- The sender that the gateway is asked about may write and is on the list, or all users may write.
pub probe_sender-allowed :
    (lower : Text → Text) (access : Access) (s : Text)
    → probe_sender lower access ≡ some s
    → ((is_dm_allowed lower access s ≡ true) × (contains_text s access.allowed_senders ≡ true))
      ⊎ (access.allow_all_users ≡ true)
unfolding probe_sender probe_of
probe_sender-allowed lower access s h =
    elim (Option-cases (first_allowed lower access access.allowed_senders)) [
      | inr (r, e) ↦
          let same : r ≡ s = ground (arith, e, h) in
          inl (first_allowed-allowed lower access access.allowed_senders s (e ∙ ap some same))
      | inl e ↦ elim (Bool-cases access.allow_all_users) [
        | inl all ↦ inr all
        | inr closed ↦ absurd (ground (arith, e, closed, h))
      ]
    ]
