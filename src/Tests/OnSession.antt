-- ===== src/Tests/OnSession.antt =====
-- The theorems on a connection, its frames and the work on one mail, at one adapter.
use hermes_hey.Prelude.{
  ℕ, Text, codes, Bool, true, false, ◌≡◌, ◌≢◌, ◌⊎◌, refl, ap, Option, none, some, [], ◌∷◌, ◌++◌, ok,
  err, Error, raw, All, ◌==◌, sym, arith, if◌then◌else◌,
}
use hermes_hey.Exec.{Exec, pure, ◌>>◌}
use hermes_hey.Json.{Fields, field, end, text}
use hermes_hey.Core.Event.{identity}
use hermes_hey.Core.Identity.{context_id}
use hermes_hey.Dict
use hermes_hey.Dict.{Dict, text_key, get-put}
use hermes_hey.Adapter.Claims.{claimed_identity}
use hermes_hey.Adapter.World.{World}
use hermes_hey.Adapter.Drain.{drain_pending, on_disk}
use hermes_hey.Adapter.Watching.{accept_event, acknowledge_event}
use hermes_hey.Adapter.Delivery.{
  SendResult, refused, send, send_to, mutate, mutation, mutation_name, answer, is_ok, is_comment,
  send_attempts, retry, acknowledge, send_with_retry,
}
use hermes_hey.Adapter.Unconfirmed.{send_with_retry-unconfirmed}
use hermes_hey.Adapter.Acknowledged.{Remembers, accept_event-durable}
use hermes_hey.Adapter.Completed.{
  drain_after, to_drain, on_processing_complete, on_processing_complete-released,
}
use hermes_hey.Adapter.Stream.{IsReady, read_frames, read_frames-handshake}
use hermes_hey.Adapter.Lifecycle.{
  Session, Platform, connect, disconnect, unregister_live_adapter, release_lock, release_if,
  call_release, on_world, awaited, end_task, stop_watch,
}
use hermes_hey.Adapter.Locking.{LockLaws, OthersApart, Free}
use hermes_hey.Adapter.Connecting.{IsLive}
use hermes_hey.Adapter.Sessions.{Connected, connect-Connected, disconnect_lem}
use hermes_hey.Tests.Fixtures.{
  mail, mail-IsValid, plain-CodecLaws, memory-StorageLaws, no_entries, no_entries-Keeps,
}
use hermes_hey.Tests.OnQueue.{with_one, pending_one}
use hermes_hey.Tests.OnAdapter.{
  Disk, counting, in_work, no_replies, no_pause, state_key, claimed_one, thread_parsed,
  mail-authorized,
}

abbrev no_answer : SendResult
no_answer =
    refused (raw (codes "HEY SDK " ++ (codes "reply" ++ codes " returned invalid response")))

send-no_replies :
    send counting no_replies (context_id 4) (codes "Hi") (in_work mail)
    ≡ (ok no_answer, in_work mail)
unfolding send send_to mutate answer is_ok mutation mutation_name is_comment
send-no_replies = rw (thread_parsed, claimed_one mail mail-IsValid) refl

tried :
    (send_with_retry counting no_replies no_pause (context_id 4) (codes "Hi") 3 (in_work mail)).0
    ≡ ok no_answer
unfolding send_with_retry send_attempts retry acknowledge
tried = rw (thread_parsed, send-no_replies) refl

send_with_retry-unconfirmed_example :
    (send_with_retry counting no_replies no_pause
      (context_id 4)
      (codes "Hi")
      3
      (in_work mail)).1.disk
    ≡ with_one mail
send_with_retry-unconfirmed_example =
    send_with_retry-unconfirmed counting plain-CodecLaws memory-StorageLaws no_replies
      (λ t c w. refl) (λ t c w. refl) no_pause (λ n w. refl) (context_id 4) (codes "Hi") 3 no_answer
      (in_work mail) tried refl

complete-mail :
    (on_processing_complete counting 1 (identity mail ∷ []) [] (none, in_work mail)).0 ≡ ok none
unfolding on_processing_complete drain_after on_disk to_drain Dict.get
complete-mail = rw (pending_one mail mail-IsValid) refl

on_processing_complete-released_example :
    All
      (λ id.
        (t : ℕ)
        → claimed_identity state_key t
            (on_processing_complete counting 1
              (identity mail ∷ [])
              []
              (none, in_work mail)).1.1.claims
          ≢ some id)
      (identity mail ∷ [])
    × ((on_processing_complete counting 1 (identity mail ∷ []) [] (none, in_work mail)).1.1.disk
        ≡ with_one mail)
on_processing_complete-released_example =
    on_processing_complete-released counting plain-CodecLaws memory-StorageLaws 1
      (identity mail ∷ []) [] none (in_work mail) none complete-mail

abbrev Place : Type 0
Place = World Disk ℕ

abbrev idle : Place
idle = record { disk = none; gateway = 0; claims = []; inflight = []; final_send_allowed = false }

-- a watch whose acknowledgements are counted
abbrev counted_ack : Option (Text → Exec Place (Unit {0}))
counted_ack = some (λ id w. (ok tt, record w { gateway = 1 }))

accept_event-durable_example :
    ((x : Error) × (d : Disk) × (accept_event counting counted_ack mail idle
        ≡ (err x, record idle { disk = d })))
    ⊎ ((accepted : Bool) × (d : Disk) × Remembers counting counted_ack plain-CodecLaws
          memory-StorageLaws d
          (identity mail)
        × (accept_event counting counted_ack mail idle
            ≡ (acknowledge_event counting counted_ack (identity mail)
                  >> (if accepted then drain_pending counting else pure tt))
                (record idle { disk = d })))
accept_event-durable_example =
    accept_event-durable counting counted_ack plain-CodecLaws memory-StorageLaws mail no_entries
      idle no_entries-Keeps mail-IsValid mail-authorized

abbrev other_frame : Fields
other_frame = field "type" (text (codes "event")) end

read_frames-handshake_example :
    IsReady other_frame
    ⊎ ((read_frames counting counted_ack false (other_frame ∷ []) (ok tt) idle).1 ≡ idle)
read_frames-handshake_example =
    read_frames-handshake counting counted_ack other_frame [] (ok tt) idle

-- the gateway shows 7 while the lock is held, and a third adapter connects in the meantime
abbrev platform : Platform Disk ℕ
platform = record {
  acquire_scoped_lock = some (λ w. (ok true, record w { gateway = 7 }));
  release_scoped_lock = some (λ w. (ok tt, record w { gateway = 0 }));
  verify = some (pure true);
  create_gateway_ready_task = pure 1;
  create_watch_task = pure 2;
  is_done = λ task w. false;
  cancel_task = λ task. pure tt;
  await_task = λ task. pure tt;
  stop_watch = pure tt;
  meanwhile = λ s. record s { live = Dict.put (codes "third") 3 s.live };
}

frees_own :
    (release : Exec Place (Unit {0})) (w : Place)
    → platform.release_scoped_lock ≡ some release
    → ((release w).1.gateway == 7) ≡ false
frees_own release w same =
    let own : (λ (w' : Place). (ok tt, record w' { gateway = 0 })) ≡ release =
      ap (λ (o : Option (Exec Place (Unit {0}))). elim o [ none ↦ release | some r ↦ r ]) same in
    rw (sym own) refl

acquires :
    (acquire : Exec Place Bool) (w : Place)
    → platform.acquire_scoped_lock ≡ some acquire
    → (acquire w).0 ≡ ok true
acquires acquire w same =
    let own : (λ (w' : Place). (ok true, record w' { gateway = 7 })) ≡ acquire =
      ap (λ (o : Option (Exec Place Bool)). elim o [ none ↦ acquire | some a ↦ a ]) same in
    rw (sym own) refl

abbrev platform-LockLaws : LockLaws platform
platform-LockLaws = record {
  holds = λ w. w.gateway == 7;
  no_module = λ h. absurd (ground (arith, h));
  no_lock = λ h w. absurd (ground (arith, h));
  acquire_refused = λ acquire w same unheld refused.
      absurd (let gave = acquires acquire w same in ground (arith, gave, refused));
  release_frees = λ release w same done. frees_own release w same;
  cancel_task_free = λ t w h. h;
  await_task_free = λ t w h. h;
  stop_watch_free = λ w h. h;
}

third_apart :
    (live : Dict Text ℕ)
    → Dict.get state_key (Dict.put (codes "third") 3 live) ≡ Dict.get state_key live
unfolding Dict.get hermes_hey.Prelude.text_eq codes
third_apart live = get-put (codes "third") state_key 3 live

abbrev platform-OthersApart : OthersApart counting platform 1 platform-LockLaws
platform-OthersApart = record {
  fields_same = λ s. rw (third_apart s.live) refl;
  lock_free = λ s h. h;
}

abbrev apart : Session Disk ℕ
apart = record {
  world = idle;
  lock_acquired = false;
  live = [];
  gateway_ready_task = none;
  watch_task = none;
  has_watch = false;
  connected = false;
  fatal = none;
}

connect-Connected_example :
    Connected counting platform 1 platform-LockLaws platform-OthersApart apart
      (connect counting platform 1 true apart)
connect-Connected_example =
    connect-Connected counting platform 1 platform-LockLaws platform-OthersApart true apart
      (record { unnoted = refl; unheld = refl })

-- the adapter 1 runs, and the adapter 2 has another state file
abbrev running : Session Disk ℕ
running = record apart {
  world = record idle { gateway = 7 };
  lock_acquired = true;
  live = (state_key, 1) ∷ (codes "other", 2) ∷ [];
  gateway_ready_task = some 1;
  watch_task = some 2;
  has_watch = true;
  connected = true;
}

ended : (disconnect counting platform 1 running).0 ≡ ok tt
unfolding disconnect end_task stop_watch on_world awaited unregister_live_adapter release_lock
    release_if call_release
ended = refl

disconnect_lem_example :
    Free counting platform 1 platform-LockLaws (disconnect counting platform 1 running).1
    × ((disconnect counting platform 1 running).1.connected ≡ false)
    × (IsLive counting platform 1 (disconnect counting platform 1 running).1 → ⊥)
    × ((k : Text) (other : ℕ)
        → ((k ≡ state_key) → other ≢ 1)
        → ((t : Session Disk ℕ)
            → Dict.get k t.live ≡ some other
            → Dict.get k (platform.meanwhile t).live ≡ some other)
        → Dict.get k running.live ≡ some other
        → Dict.get k (disconnect counting platform 1 running).1.live ≡ some other)
disconnect_lem_example =
    disconnect_lem counting platform 1 platform-LockLaws platform-OthersApart running
      (λ h. absurd (ground (arith, h))) ended
