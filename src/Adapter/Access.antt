-- ===== src/Adapter/Access.antt =====
-- Who may write to the agent: the settings that `HeyAdapter` of hey_platform/adapter.py takes from
-- its configuration, `_is_dm_allowed` and `_authorized`.
use hermes_hey.Prelude.{
  ℕ, ◌≤◌, Text, text_eq, text_eq_iff, Bool, true, false, not, ◌&&◌, ◌||◌, ◌≡◌, ◌≢◌, ◌⊎◌, List, [],
  ◌∷◌, arith, leb, if◌then◌else◌,
}
use hermes_hey.Strings.{strip, is_empty}
use hermes_hey.Core.Event.{HeyEvent}
use hermes_hey.Queue.State.{contains_text}

-- `own_email` is normalized, and so is each of `allowed_senders`.
pub record Access : Type 0 where
  pub account_id : ℕ
  pub own_email : Text
  pub allowed_senders : List Text
  pub allow_all_users : Bool

-- `failure_threshold`, for a number that is not negative
unfoldable pub failure_threshold : ℕ → ℕ
failure_threshold n = if leb n 100 then (if leb 1 n then n else 1) else 100

pub failure_threshold_bounds : (n : ℕ) → (1 ≤ failure_threshold n) × (failure_threshold n ≤ 100)
unfolding failure_threshold
failure_threshold_bounds n = ground arith

-- `lower` is Python's `str.lower`.
module _ (lower : Text → Text) where
  -- `str(value).strip().lower()`
  abbrev pub normalized : Text → Text
  normalized value = lower (strip value)

  -- `allowed_senders` of `__init__`
  unfoldable pub allowed_senders : List Text → List Text
  allowed_senders [] = []
  allowed_senders (value ∷ configured) =
      let rest = allowed_senders configured in
      if is_empty (strip value) then rest else normalized value ∷ rest

  unfoldable pub is_dm_allowed : Access → Text → Bool
  is_dm_allowed a user_id =
      let sender = normalized user_id in
      not (is_empty sender)
      && not (text_eq sender a.own_email)
      && (a.allow_all_users || contains_text sender a.allowed_senders)

  unfoldable pub authorized : Access → HeyEvent → Bool
  unfolding is_dm_allowed
  authorized a event =
      let sender = lower event.sender_email in
      if is_empty sender || text_eq sender a.own_email then false else is_dm_allowed a sender

  -- With no allowed sender and no leave for all users, no event is authorized.
  pub authorized_closed :
      (a : Access) (event : HeyEvent)
      → a.allow_all_users ≡ false
      → a.allowed_senders ≡ []
      → authorized a event ≡ false
  unfolding authorized contains_text
  authorized_closed a event closed nobody = rw (closed, nobody) (ground arith)

  -- The sender of an authorized event, normalized, is not the agent's own address, and either all
  -- users are allowed or it is one of the allowed senders.
  pub authorized_sound :
      (a : Access) (event : HeyEvent)
      → authorized a event ≡ true
      → (normalized (lower event.sender_email) ≢ a.own_email)
        × ((a.allow_all_users ≡ true)
            ⊎ (contains_text (normalized (lower event.sender_email)) a.allowed_senders ≡ true))
  unfolding authorized
  authorized_sound a event h =
      ground (arith, text_eq_iff (normalized (lower event.sender_email)) a.own_email)

  -- Where lowering twice around a strip is lowering once, an event whose sender is normalized to
  -- the agent's own address is not authorized.
  pub own_refused :
      (a : Access) (event : HeyEvent)
      → ((t : Text) → normalized (lower t) ≡ normalized t)
      → normalized event.sender_email ≡ a.own_email
      → authorized a event ≡ false
  unfolding authorized
  own_refused a event settled own = ground (
    arith,
    settled event.sender_email,
    text_eq_iff (normalized (lower event.sender_email)) a.own_email,
  )
