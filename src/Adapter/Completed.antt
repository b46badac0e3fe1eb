-- ===== src/Adapter/Completed.antt =====
-- `on_processing_start` and `on_processing_complete` of hey_platform/adapter.py: what is in work is
-- released, and an event that its reply has not completed waits in the queue.
use hermes_hey.Prelude.{
  ℕ, ◌==◌, Text, text_eq, text_eq_iff, text_eq_refl, Bool, false, not, ◌||◌, ◌≡◌, ◌≢◌, refl, ap,
  ◌∙◌, Option, none, some, List, [], ◌∷◌, map, ok, arith, Result-cases, Bool-cases, inl, inr,
  if◌then◌else◌, All,
}
use hermes_hey.Exec.{Exec, ◌>>=◌}
use hermes_hey.Core.Event.{identity}
use hermes_hey.Queue.State.{contains_text}
use hermes_hey.Queue.Transaction
use hermes_hey.Dict
use hermes_hey.Dict.{Dict, nat_key, text_key}
use hermes_hey.Adapter.Claims.{
  Claims, claims_of, claimed_identity, release_identity, claims_of-put_back,
}
use hermes_hey.Adapter.Claims
use hermes_hey.Queue.Format.{CodecLaws}
use hermes_hey.Queue.Refinement.{StorageLaws}
use hermes_hey.Adapter.Unconfirmed.{content, pending-Same}
use hermes_hey.Adapter.World.{World}
use hermes_hey.Adapter.Drain.{Adapter, on_disk, release_claim}

-- `_delivery_context`: the chat and the identities of the message in work
abbrev pub DeliveryContext : Type 0
DeliveryContext = Option (Text × List Text)

-- `on_processing_start` for the `delivery_ids` of the message's metadata
unfoldable pub on_processing_start : Text → List Text → DeliveryContext → DeliveryContext
on_processing_start chat_id [] context = context
on_processing_start chat_id (id ∷ ids) context = some (chat_id, id ∷ ids)

-- `completed`, over the identities of the message
unfoldable pub any_completed : List Text → List Text → Bool
any_completed pending_ids [] = false
any_completed pending_ids (id ∷ ids) =
    not (contains_text id pending_ids) || any_completed pending_ids ids

-- which adapter is to drain its queue once the session is idle
unfoldable pub to_drain : ℕ → Bool → Option ℕ → Option ℕ
to_drain self_id completed none = none
to_drain self_id completed (some target) =
    if completed || not (target == self_id) then some target else none

module _ {B D G : Type 0} (self : Adapter B D G) where
  unfoldable pub release_all : List Text → World D G → World D G
  release_all [] w = w
  release_all (id ∷ ids) w = release_all ids (release_claim self id w)

  -- what follows once the context is reset
  unfoldable pub drain_after : ℕ → List Text → Dict Text ℕ → Exec (World D G) (Option ℕ)
  drain_after self_id ids live = do
    events ← on_disk self (Transaction.pending self.storage self.codec self.queue)
    λ w. (
      ok (
          to_drain self_id (any_completed (map identity events) ids)
            (Dict.get self.state_key live)),
      release_all ids w,
    )

  -- `on_processing_complete`, with the number of this adapter, the identities of the message, and the
  -- live adapters; the result is the adapter whose draining is started
  unfoldable pub on_processing_complete :
      ℕ → List Text → Dict Text ℕ → Exec (DeliveryContext × World D G) (Option ℕ)
  unfolding drain_after
  on_processing_complete self_id ids live (context, w) =
      let (r, w') = drain_after self_id ids live w in (r, (none, w'))

-- no thread has the identity
unfoldable Free : Text → Dict ℕ Text → Type 0
Free id [] = Unit
Free id ((t, claimed) ∷ d) = (text_eq claimed id ≡ false) × Free id d

Free-release_identity :
    (id other : Text) (d : Dict ℕ Text) → Free id d → Free id (release_identity other d)
unfolding Free release_identity
Free-release_identity id other [] free = tt
Free-release_identity id other ((t, claimed) ∷ d) (apart, free) =
    elim (Bool-cases (text_eq claimed other)) [
      | inl p ↦ rw p (Free-release_identity id other d free)
      | inr p ↦ rw p (apart, Free-release_identity id other d free)
    ]

Free-release_identity_self : (id : Text) (d : Dict ℕ Text) → Free id (release_identity id d)
unfolding Free release_identity
Free-release_identity_self id [] = tt
Free-release_identity_self id ((t, claimed) ∷ d) = elim (Bool-cases (text_eq claimed id)) [
  | inl p ↦ rw p (Free-release_identity_self id d)
  | inr p ↦ rw p (p, Free-release_identity_self id d)
]

get-Free : (id : Text) (t : ℕ) (d : Dict ℕ Text) → Free id d → Dict.get t d ≢ some id
unfolding Free Dict.get
get-Free id t [] free = λ h. ground (arith, h)
get-Free id t ((j, claimed) ∷ d) (apart, free) =
    λ h. ground (arith, h, apart, text_eq_iff claimed id, get-Free id t d free)

module _ {B D G : Type 0} (self : Adapter B D G) where
  abbrev own_claims : World D G → Dict ℕ Text
  own_claims w = claims_of self.state_key w.claims

  own_claims-release_claim :
      (id : Text) (w : World D G)
      → own_claims (release_claim self id w) ≡ release_identity id (own_claims w)
  unfolding release_claim Claims.release_claim
  own_claims-release_claim id w =
      claims_of-put_back self.state_key self.state_key (release_identity id (own_claims w)) w.claims
      ∙ rw (text_eq_refl self.state_key) refl

  release_all-Free :
      (id : Text) (ids : List Text) (w : World D G)
      → Free id (own_claims w)
      → Free id (own_claims (release_all self ids w))
  unfolding release_all
  release_all-Free id [] w free = free
  release_all-Free id (other ∷ ids) w free =
      release_all-Free id ids (release_claim self other w)
        (rw (own_claims-release_claim other w) (Free-release_identity id other (own_claims w) free))

  release_all-released :
      (ids : List Text) (w : World D G)
      → All (λ id. Free id (own_claims (release_all self ids w))) ids
  unfolding release_all
  release_all-released [] w = tt
  release_all-released (id ∷ ids) w = (
    release_all-Free id ids (release_claim self id w)
        (rw (own_claims-release_claim id w) (Free-release_identity_self id (own_claims w))),
    release_all-released ids (release_claim self id w),
  )

  disk-release_all : (ids : List Text) (w : World D G) → (release_all self ids w).disk ≡ w.disk
  unfolding release_all release_claim
  disk-release_all [] w = refl
  disk-release_all (id ∷ ids) w = disk-release_all ids (release_claim self id w)

  Free-released :
      (ids : List Text) (w : World D G)
      → All (λ id. Free id (own_claims w)) ids
      → All (λ id. (t : ℕ) → claimed_identity self.state_key t w.claims ≢ some id) ids
  unfolding claimed_identity
  Free-released [] w free = tt
  Free-released (id ∷ ids) w (free, rest) =
      ((λ t. get-Free id t (own_claims w) free), Free-released ids w rest)

  module _ (laws : CodecLaws self.codec) (disk : StorageLaws self.codec self.storage) where
    -- Over a codec and a storage that keep their laws: if `on_processing_complete` returns, no
    -- thread of the state file is claimed for an identity of the message, and the state file holds
    -- what it held before.
    pub on_processing_complete-released :
        (self_id : ℕ) (ids : List Text) (live : Dict Text ℕ) (context : DeliveryContext)
        (w : World D G) (drained : Option ℕ)
        → (on_processing_complete self self_id ids live (context, w)).0 ≡ ok drained
        → All
            (λ id.
              (t : ℕ)
              → claimed_identity self.state_key t
                  (on_processing_complete self self_id ids live (context, w)).1.1.claims
                ≢ some id)
            ids
          × (content self laws disk (on_processing_complete self self_id ids live (context, w)).1.1
              ≡ content self laws disk w)
    unfolding on_processing_complete drain_after on_disk
    on_processing_complete-released self_id ids live context w drained returned =
        elim (Result-cases (Transaction.pending self.storage self.codec self.queue w.disk).0) [
          | inr (x, e) ↦ absurd (ground (arith, e, returned))
          | inl (events, e) ↦
              let w1 =
                (on_disk self (Transaction.pending self.storage self.codec self.queue) w).1 in
              rw e (
                Free-released ids (release_all self ids w1) (release_all-released ids w1),
                ap (λ d. disk.content d) (disk-release_all ids w1)
                    ∙ pending-Same self laws disk w.disk,
              )
        ]
