-- ===== src/Adapter/Safety.antt =====
-- What reaches the gateway from `_drain_pending` of hey_platform/adapter.py.
use hermes_hey.Prelude.{
  true, ◌≡◌, some, List, [], ◌∷◌, ◌==◌, ==_iff, Bool-cases, Result-cases, inl, inr,
}
use hermes_hey.Core.Event.{HeyEvent, identity}
use hermes_hey.Core.Identity.{context_id}
use hermes_hey.Decimal.{decimal}
use hermes_hey.Queue.Transaction
use hermes_hey.Adapter.Claims
use hermes_hey.Adapter.Claims.{claimed_identity, claimed_identity-claim_self}
use hermes_hey.Adapter.World.{World}
use hermes_hey.Adapter.Drain.{
  Adapter, message_of, is_authorized, on_disk, claim, release_claim, dispatch, dispatch_claimed,
  drop_unauthorized, is_refused, dispatch_next, drain_event, drain_events, drain_pending,
}

module _ {B D G : Type 0} (self : Adapter B D G) where
  -- An event may be handed to the gateway: it is of the configured account, its sender is authorized,
  -- and it is the event in work on its thread.
  pub record Ready (event : HeyEvent) (w : World D G) : Type 0 where
    pub bound : event.account_id ≡ self.access.account_id
    pub allowed : is_authorized self event ≡ true
    pub claimed : claimed_identity self.state_key event.thread_id w.claims ≡ some (identity event)

  module _ (Inv : G → Type 0)
      (handled : (event : HeyEvent) (w : World D G)
        → Ready event w
        → Inv w.gateway
        → Inv
            (self.handle_message
              (message_of (decimal self.access.account_id) event)
              w).1.gateway) where
    dispatch_claimed-Inv :
        (event : HeyEvent) (w : World D G)
        → Ready event w
        → Inv w.gateway
        → Inv (dispatch_claimed self event w).1.gateway
    unfolding dispatch_claimed dispatch release_claim
    dispatch_claimed-Inv event w ready inv =
        elim (Result-cases
          (self.handle_message (message_of (decimal self.access.account_id) event) w).0) [
            | inl (u, e) ↦ rw (e, dispatch_claimed, dispatch) (handled event w ready inv)
            | inr (x, e) ↦ rw (e, dispatch_claimed, dispatch) (handled event w ready inv)
          ]

    dispatch_next-Inv :
        (event : HeyEvent) (w : World D G)
        → event.account_id ≡ self.access.account_id
        → is_authorized self event ≡ true
        → Inv w.gateway
        → Inv (dispatch_next self event w).1.gateway
    unfolding dispatch_next claim
    dispatch_next-Inv event w bound allowed inv =
        elim (Bool-cases (
          is_refused (self.gateway_authorized event.sender_email (context_id event.thread_id) w))) [
            | inl refused ↦ rw (refused, dispatch_next) inv
            | inr permitted ↦ elim (Bool-cases (Claims.claim self.state_key event w.claims).0) [
              | inr busy ↦ rw (permitted, dispatch_next, busy, claim) inv
              | inl free ↦
                  rw (permitted, dispatch_next, free, claim)
                    (dispatch_claimed-Inv event _
                      (record {
                        bound = bound;
                        allowed = allowed;
                        claimed = claimed_identity-claim_self self.state_key event w.claims free;
                      })
                      inv)
            ]
          ]

    drop_unauthorized-Inv :
        (event : HeyEvent) (w : World D G)
        → Inv w.gateway
        → Inv (drop_unauthorized self event w).1.gateway
    unfolding drop_unauthorized on_disk
    drop_unauthorized-Inv event w inv =
        elim (Result-cases
          (Transaction.complete self.storage self.codec self.queue (identity event) w.disk).0) [
            | inl (u, e) ↦ rw (e, drop_unauthorized, on_disk) inv
            | inr (x, e) ↦ rw (e, drop_unauthorized, on_disk) inv
          ]

    drain_event-Inv :
        (event : HeyEvent) (w : World D G)
        → Inv w.gateway
        → Inv (drain_event self event w).1.gateway
    unfolding drain_event
    drain_event-Inv event w inv = elim (Bool-cases (event.account_id == self.access.account_id)) [
      | inr foreign ↦ rw (foreign, drain_event) inv
      | inl bound ↦ elim (Bool-cases (is_authorized self event)) [
        | inl allowed ↦
            rw (bound, drain_event, allowed)
              (dispatch_next-Inv event w ((==_iff _ _).0 bound) allowed inv)
        | inr refused ↦ rw (bound, drain_event, refused) (drop_unauthorized-Inv event w inv)
      ]
    ]

    drain_events-Inv :
        (events : List HeyEvent) (w : World D G)
        → Inv w.gateway
        → Inv (drain_events self events w).1.gateway
    unfolding drain_events
    drain_events-Inv [] w inv = inv
    drain_events-Inv (event ∷ rest) w inv =
        let next = drain_event-Inv event w inv in
        elim (Result-cases (drain_event self event w).0) [
          | inl (u, e) ↦
              rw (e, drain_events) (drain_events-Inv rest (drain_event self event w).1 next)
          | inr (x, e) ↦ rw (e, drain_events) next
        ]

    -- Whatever the file holds and the gateway answers, `_drain_pending` hands over ready events
    -- alone (of the configured account, authorized, and claimed for their thread): an invariant of
    -- the gateway that the handling of a ready event keeps is kept by the whole call, whether it
    -- returns or raises.
    pub drain_pending-Inv : (w : World D G) → Inv w.gateway → Inv (drain_pending self w).1.gateway
    unfolding drain_pending on_disk
    drain_pending-Inv w inv =
        elim (Result-cases (Transaction.pending self.storage self.codec self.queue w.disk).0) [
          | inl (events, e) ↦ rw (e, drain_pending, on_disk) (drain_events-Inv events _ inv)
          | inr (x, e) ↦ rw (e, drain_pending, on_disk) inv
        ]
