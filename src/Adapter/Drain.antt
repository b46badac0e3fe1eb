-- ===== src/Adapter/Drain.antt =====
-- `_claim`, `_release_claim`, `_dispatch` and `_drain_pending` of hey_platform/adapter.py.
use hermes_hey.Prelude.{
  Text, codes, text_eq, Bool, true, false, Option, some, List, [], ◌∷◌, ◌++◌, ◌==◌, if◌then◌else◌,
  ok, err, runtime_error,
}
use hermes_hey.Exec.{Exec, pure, throw, ◌>>=◌, ◌>>◌}
use hermes_hey.Decimal.{decimal}
use hermes_hey.Json.{Fields, integer, pos, text, array, items, field, end}
use hermes_hey.Core.Event.{HeyEvent, identity, to_dict}
use hermes_hey.Core.Identity.{context_id}
use hermes_hey.Queue.State.{Codec, DurableQueue}
use hermes_hey.Queue.Transaction
use hermes_hey.Queue.Transaction.{Storage}
use hermes_hey.Adapter.Access.{Access, authorized}
use hermes_hey.Adapter.Claims
use hermes_hey.Adapter.Claims.{claimed_identity}
use hermes_hey.Adapter.World.{World, discard}

-- What `_dispatch` hands to the gateway: the `MessageEvent` and its source, but for the time stamp.
-- `message_type` is the member of `MessageType`. The metadata stand as the dictionary that the text prints.
pub record MessageEvent : Type 0 where
  pub chat_id : Text
  pub chat_name : Text
  pub chat_type : Text
  pub message_type : Text
  pub user_id : Text
  pub user_name : Text
  pub scope_id : Text
  pub message_id : Text
  pub heading : Text
  pub metadata : Fields
  pub raw_message : Fields
  pub allow_gateway_control : Bool

-- `payload` of `_dispatch`
unfoldable pub payload_of : HeyEvent → Fields
payload_of event = field "thread_id" (integer (pos event.thread_id)) (
    field "posting_id" (integer (pos event.posting_id)) (
      field "entry_id" (integer (pos event.entry_id)) (
        field "entry_kind" (text event.kind) (
          field "account_id" (integer (pos event.account_id)) (
            field "app_url" (text event.app_url)
              (field "delivery_ids" (array (items (text (identity event) ∷ []))) end))))))

-- The text of the message goes on with the printed metadata.
unfoldable pub message_of : Text → HeyEvent → MessageEvent
unfolding payload_of codes
message_of account event = record {
  chat_id = context_id event.thread_id;
  chat_name = codes "HEY: " ++ event.subject;
  chat_type = codes "dm";
  message_type = codes "TEXT";
  user_id = event.sender_email;
  user_name = event.sender_name;
  scope_id = account;
  message_id = identity event;
  heading =
      (if text_eq event.kind (codes "comment") then codes "HEY Collab note" else codes "HEY email")
      ++ (codes ": "
          ++ (event.subject
              ++ (codes "\n\n" ++ (event.content ++ codes "\n\nHEY event metadata:\n"))));
  metadata = payload_of event;
  raw_message = to_dict event;
  allow_gateway_control = false;
}

-- The adapter's settings, the queue of its state file, and what it calls of the gateway.
-- `gateway_authorized` is `_is_sender_authorized` for a direct message, `handle_message` may run any
-- other task of the process before it returns.
pub record Adapter (B D G : Type 0) : Type 0 where
  pub access : Access
  pub lower : Text → Text
  pub state_key : Text
  pub storage : Storage B D
  pub codec : Codec B
  pub queue : DurableQueue
  pub gateway_authorized : Text → Text → World D G → Option Bool
  pub handle_message : MessageEvent → Exec (World D G) (Unit {0})

-- `gateway_authorized is False`
unfoldable pub is_refused : Option Bool → Bool
is_refused (some false) = true
is_refused _ = false

module _ {B D G : Type 0} (self : Adapter B D G) where
  abbrev pub Method : Type 0 → Type 0
  Method A = Exec (World D G) A

  abbrev pub is_authorized : HeyEvent → Bool
  is_authorized event = authorized self.lower self.access event

  -- a method of the queue
  unfoldable pub on_disk : {A : Type 0} → Exec D A → Method A
  on_disk m w = let (r, d) = m w.disk in (r, record w { disk = d })

  unfoldable pub claim : HeyEvent → Method Bool
  claim event w =
      let (claimed, claims) = Claims.claim self.state_key event w.claims in
      if claimed
      then (
        ok true,
        record w {
          claims = claims;
          inflight = identity event ∷ discard (identity event) w.inflight;
        },
      )
      else (ok false, w)

  unfoldable pub release_claim : Text → World D G → World D G
  release_claim id w = record w {
    claims = Claims.release_claim self.state_key id w.claims;
    inflight = discard id w.inflight;
  }

  unfoldable pub dispatch : HeyEvent → Method (Unit {0})
  dispatch event = self.handle_message (message_of (decimal self.access.account_id) event)

  -- `try: await self._dispatch(event) except Exception: release; raise`
  unfoldable pub dispatch_claimed : HeyEvent → Method (Unit {0})
  dispatch_claimed event w =
      let (r, w') = dispatch event w in
      elim r [ ok u ↦ (ok u, w') | err x ↦ (err x, release_claim (identity event) w') ]

  unfoldable pub drop_unauthorized : HeyEvent → Method (Unit {0})
  drop_unauthorized event = do
    on_disk (Transaction.complete self.storage self.codec self.queue (identity event))
    λ w. (ok tt, record w { inflight = discard (identity event) w.inflight })

  unfoldable pub dispatch_next : HeyEvent → Method (Unit {0})
  dispatch_next event w =
      if is_refused (self.gateway_authorized event.sender_email (context_id event.thread_id) w)
      then (ok tt, w)
      else (do claimed ← claim event; if claimed then dispatch_claimed event else pure tt) w

  -- one round of the loop of `_drain_pending`
  unfoldable pub drain_event : HeyEvent → Method (Unit {0})
  drain_event event =
      if event.account_id == self.access.account_id
      then (if is_authorized event then dispatch_next event else drop_unauthorized event)
      else throw runtime_error "HEY pending event account does not match configuration"

  unfoldable pub drain_events : List HeyEvent → Method (Unit {0})
  drain_events [] = pure tt
  drain_events (event ∷ rest) = do drain_event event; drain_events rest

  unfoldable pub drain_pending : Method (Unit {0})
  drain_pending = do
    events ← on_disk (Transaction.pending self.storage self.codec self.queue)
    drain_events events
