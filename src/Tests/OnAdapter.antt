-- ===== src/Tests/OnAdapter.antt =====
-- The adapter's theorems at one mail that waits in the queue.
use hermes_hey.Prelude.{
  ap, ==_refl, ℕ, ◌+◌, ◌≤◌, Text, codes, text_eq, text_eq_refl, true, false, ◌≡◌, ◌≢◌, refl, Option,
  none, some, List, [], ◌∷◌, ◌++◌, leb, ◌==◌, if◌then◌else◌, Result, ok, All, arith, ◌⊎◌,
}
use hermes_hey.Exec.{Exec}
use hermes_hey.Decimal.{decimal}
use hermes_hey.Strings.{strip, is_empty}
use hermes_hey.Json.{Value, object, field, end, boolean, null, get, keys_eq}
use hermes_hey.Core.Event.{HeyEvent, identity, IsValid}
use hermes_hey.Core.Identity.{context_id, parse_context_id}
use hermes_hey.Core.Contexts.{parse_context_id-context_id}
use hermes_hey.Queue.State.{contains_text}
use hermes_hey.Dict
use hermes_hey.Adapter.Access.{Access, authorized, authorized_sound, normalized}
use hermes_hey.Adapter.Claims
use hermes_hey.Adapter.Claims.{Claims, claimed_identity, claimed_identity-claim, release_claim_lem}
use hermes_hey.Adapter.World.{World}
use hermes_hey.Adapter.Drain.{Adapter, on_disk, MessageEvent, drain_pending, message_of}
use hermes_hey.Adapter.Safety.{Ready, drain_pending-Inv}
use hermes_hey.Adapter.Delivery.{
  Client, sent, claimed_event, find_event, send, send_to, mutate, mutation, answer, is_ok,
  is_comment, send_with_retry,
}
use hermes_hey.Adapter.Replies.{send-reply_only}
use hermes_hey.Adapter.Retries.{send_with_retry-calls}
use hermes_hey.Tests.Fixtures.{mail, mail-IsValid, plain, memory, small_queue}
use hermes_hey.Tests.OnQueue.{with_one, pending_one}

abbrev pub same_case : Text → Text
same_case t = t

abbrev ascii_lower : Text → Text
ascii_lower [] = []
ascii_lower (c ∷ s) = (if leb 65 c then (if leb c 90 then c + 32 else c) else c) ∷ ascii_lower s

abbrev pub agent : Text
agent = codes "agent@example.org"

abbrev pub access : Access
access = record {
  account_id = 9;
  own_email = agent;
  allowed_senders = codes "ada@example.org" ∷ [];
  allow_all_users = false;
}

abbrev own_mail : HeyEvent
own_mail = record mail { sender_email = agent }

pub mail-authorized : authorized same_case access mail ≡ true
unfolding authorized text_eq codes contains_text strip is_empty
mail-authorized = refl

authorized_sound_example :
    (normalized same_case (codes "ada@example.org") ≢ agent)
    × ((false ≡ true)
        ⊎ (contains_text
              (normalized same_case (codes "ada@example.org"))
              (codes "ada@example.org" ∷ [])
            ≡ true))
authorized_sound_example = authorized_sound same_case access mail mail-authorized

own_mail_normal : normalized same_case agent ≡ agent
unfolding strip codes
own_mail_normal = refl

same_case_settled : (t : Text) → normalized same_case (same_case t) ≡ normalized same_case t
same_case_settled t = refl

abbrev pub state_key : Text
state_key = codes "state.json"

claimed_identity-claim_example : claimed_identity state_key 4 (Claims.claim state_key mail []).1 ≡ (
    if (Claims.claim state_key mail []).0
    then (if text_eq state_key state_key
        then (if 4 == 4 then some (identity mail) else claimed_identity state_key 4 [])
        else claimed_identity state_key 4 [])
    else claimed_identity state_key 4 [])
claimed_identity-claim_example = claimed_identity-claim state_key state_key mail 4 []

abbrev pub claims_on : HeyEvent → Claims
claims_on event = (state_key, (event.thread_id, identity event) ∷ []) ∷ []

abbrev claims : Claims
claims = claims_on mail

-- The gateway is the list of the messages that it was handed.
abbrev Log : Type 0
Log = List MessageEvent

abbrev pub Disk : Type 0
Disk = Option Value

abbrev handing : Adapter Value Disk Log
handing = record {
  access = access;
  lower = same_case;
  state_key = state_key;
  storage = memory;
  codec = plain;
  queue = small_queue;
  gateway_authorized = λ sender thread w. none;
  handle_message = λ message w. (ok tt, record w { gateway = message ∷ w.gateway });
}

abbrev start : World Disk Log
start = record {
  disk = with_one mail;
  gateway = [];
  claims = [];
  inflight = [];
  final_send_allowed = false;
}

-- no message of the agent itself
abbrev NotOwn : Log → Type 0
NotOwn = All (λ m. strip m.user_id ≢ agent)

handing-NotOwn :
    (event : HeyEvent) (w : World Disk Log)
    → Ready handing event w
    → NotOwn w.gateway
    → NotOwn (handing.handle_message (message_of (decimal 9) event) w).1.gateway
unfolding message_of
handing-NotOwn event w ready inv = ((authorized_sound same_case access event ready.allowed).0, inv)

drain_pending-Inv_example : NotOwn (drain_pending handing start).1.gateway
drain_pending-Inv_example = drain_pending-Inv handing NotOwn handing-NotOwn start tt

-- The gateway is the number of the mutations.
abbrev pub counting : Adapter Value Disk ℕ
counting = record {
  access = access;
  lower = same_case;
  state_key = state_key;
  storage = memory;
  codec = plain;
  queue = small_queue;
  gateway_authorized = λ sender thread w. none;
  handle_message = λ message w. (ok tt, w);
}

-- the event waits, and is in work
abbrev pub in_work : HeyEvent → World Disk ℕ
in_work event = record {
  disk = with_one event;
  gateway = 0;
  claims = claims_on event;
  inflight = [];
  final_send_allowed = true;
}

abbrev pub client : Client Disk ℕ
client = record {
  reply = λ t content w.
      (ok (object (field "ok" (boolean true) end)), record w { gateway = w.gateway + 1 });
  comment = λ t content w.
      (ok (object (field "ok" (boolean true) end)), record w { gateway = w.gateway + 1 });
}

abbrev no_comments : Client Disk ℕ
no_comments = record client { comment = λ t content w. (ok null, w) }

abbrev pub no_replies : Client Disk ℕ
no_replies = record client { reply = λ t content w. (ok null, w) }

claimed_key :
    (event : HeyEvent)
    → claimed_identity state_key event.thread_id (claims_on event) ≡ some (identity event)
unfolding claimed_identity Dict.get
claimed_key event = ground (arith, text_eq_refl state_key, ==_refl event.thread_id)

pub claimed_one :
    (event : HeyEvent)
    → IsValid event
    → claimed_event counting event.thread_id (in_work event) ≡ (ok (some event), in_work event)
unfolding claimed_event on_disk find_event
claimed_one event v =
    rw
      (
        claimed_key event,
        claimed_event,
        pending_one event v,
        text_eq_refl (identity event),
        ==_refl event.thread_id,
      )
      refl

pub thread_parsed : parse_context_id (context_id 4) ≡ ok 4
unfolding decimal
thread_parsed = parse_context_id-context_id 4 (omega arith) refl

send-reply_only_example :
    send counting client (context_id 4) (codes "Hi") (in_work mail)
    ≡ send counting no_comments (context_id 4) (codes "Hi") (in_work mail)
unfolding is_comment codes text_eq
send-reply_only_example =
    send-reply_only counting client no_comments (context_id 4) (codes "Hi") 4 mail (in_work mail)
      thread_parsed
      (ap (λ (p : Result (Option HeyEvent) × World Disk ℕ). p.0) (claimed_one mail mail-IsValid))
      refl refl

abbrev closed : World Disk ℕ
closed = record (in_work mail) { final_send_allowed = false }

-- a pause in which nothing happens
abbrev pub no_pause : ℕ → Exec (World Disk ℕ) (Unit {0})
no_pause attempt w = (ok tt, w)

send-mail : (send counting client (context_id 4) (codes "Hi") (in_work mail)).0 ≡ ok sent
unfolding send send_to mutate answer is_ok keys_eq get mutation is_comment
send-mail = rw (thread_parsed, claimed_one mail mail-IsValid) refl

no_more : (attempt : ℕ) (w : World Disk ℕ) → (no_pause attempt w).1.gateway ≤ w.gateway
no_more attempt w = omega arith

one_more : (t : ℕ) (content : Text) (w : World Disk ℕ) → w.gateway + 1 ≤ w.gateway + 1
one_more t content w = omega arith

abbrev calls : ℕ → ℕ
calls g = g

send_with_retry-calls_example :
    calls
      (send_with_retry counting client no_pause
        (context_id 4)
        (codes "Hi")
        3
        (in_work mail)).1.gateway
    ≤ calls 0 + (3 + 1)
send_with_retry-calls_example =
    send_with_retry-calls counting client calls one_more one_more no_pause no_more (context_id 4)
      (codes "Hi") 3 (in_work mail)

lowered :
    ascii_lower (codes "HEY SDK reply failed (exit " ++ (decimal 75 ++ codes ")"))
    ≡ codes "hey sdk reply failed (exit " ++ (decimal 75 ++ codes ")")
unfolding codes decimal
lowered = refl
