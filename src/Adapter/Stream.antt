-- ===== src/Adapter/Stream.antt =====
-- The frames of one connection in `_watch_supervisor` of hey_platform/adapter.py: a ready frame, and then
-- events.
use hermes_hey.Prelude.{
  ℕ, Text, codes, ◌++◌, Bool, true, false, ◌≡◌, ◌⊎◌, refl, Option, none, some, List, [], ◌∷◌,
  Result, ok, err, Error, value_error, runtime_error, raw, arith, Result-cases, Bool-cases,
  Option-cases, inl, inr,
}
use hermes_hey.Exec.{Exec, lift, throw, ◌>>◌}
use hermes_hey.Json.{Fields, Value, keys_eq, get, get_item}
use hermes_hey.Core.Frames.{equals, is_int, parse_fatal_frame, parse_ready_frame}
use hermes_hey.Adapter.World.{World}
use hermes_hey.Adapter.Drain.{Adapter, drain_pending}
use hermes_hey.Adapter.Watching.{is_value_error, value_to_runtime, process_watch_line}

-- `HeySDKClient.PROTOCOL_VERSION`
abbrev pub protocol_version : ℕ
protocol_version = 2

-- `raise ValueError(...)` for a fatal frame
unfoldable pub refuse_fatal : Option Text → Result (Unit {0})
unfolding codes
refuse_fatal none = ok tt
refuse_fatal (some fatal) = err (record {
  class = value_error;
  message = raw (codes "HEY SDK watch reported a fatal error: " ++ fatal);
})

unfoldable pub check_ready : Fields → Option Text → Result (Unit {0})
unfolding refuse_fatal
check_ready frame fatal = elim (refuse_fatal fatal) [
  | err e ↦ err e
  | ok u ↦ parse_ready_frame frame protocol_version
]

-- the reading of the first frame
unfoldable pub read_ready : Fields → Result (Unit {0})
unfolding value_to_runtime check_ready
read_ready frame =
    value_to_runtime
      (elim (parse_fatal_frame frame) [ err e ↦ err e | ok fatal ↦ check_ready frame fatal ])

module _ {B D G : Type 0} (self : Adapter B D G)
    (ack : Option (Text → Exec (World D G) (Unit {0}))) where
  -- one round of the loop over `watch.lines()`, where `ready_seen` is whether there was a ready frame
  unfoldable pub read_frame : Bool → Fields → Exec (World D G) (Unit {0})
  read_frame true frame = process_watch_line self ack frame
  read_frame false frame = do lift (read_ready frame); drain_pending self

  -- the `try` block over the frames that come, and the exception that `lines` ends with, if any
  unfoldable pub read_frames : Bool → List Fields → Result (Unit {0}) → Exec (World D G) (Unit {0})
  read_frames ready_seen [] ended = do lift ended; throw runtime_error "HEY SDK watch ended"
  read_frames ready_seen (frame ∷ frames) ended = do
    read_frame ready_seen frame
    read_frames true frames ended

-- an exact ready frame of this protocol version
pub record IsReady (frame : Fields) : Type 0 where
  pub exact_keys : keys_eq frame ("type" ∷ "protocol_version" ∷ []) ≡ true
  pub kind : Value
  pub kind_at : get "type" frame ≡ some kind
  pub is_ready : equals kind "ready" ≡ true
  pub version : Value
  pub version_at : get "protocol_version" frame ≡ some version
  pub is_version : is_int version protocol_version ≡ true

parse_ready_frame-IsReady :
    (frame : Fields) → parse_ready_frame frame protocol_version ≡ ok tt → IsReady frame
unfolding parse_ready_frame get_item
parse_ready_frame-IsReady frame parsed =
    elim (Bool-cases (keys_eq frame ("type" ∷ "protocol_version" ∷ []))) [
      | inr p ↦ absurd (ground (arith, p, parsed))
      | inl p ↦ elim (Option-cases (get "type" frame)) [
        | inl e ↦ absurd (ground (arith, p, e, parsed))
        | inr (kind, e) ↦ elim (Bool-cases (equals kind "ready")) [
          | inr q ↦ absurd (ground (arith, p, e, q, parsed))
          | inl q ↦ elim (Option-cases (get "protocol_version" frame)) [
            | inl f ↦ absurd (ground (arith, p, e, q, f, parsed))
            | inr (version, f) ↦ record {
              exact_keys = p;
              kind = kind;
              kind_at = e;
              is_ready = q;
              version = version;
              version_at = f;
              is_version = ground (arith, p, e, q, f, parsed);
            }
          ]
        ]
      ]
    ]

value_to_runtime-err : (x : Error) → value_to_runtime {A = Unit {0}} (err x) ≡ ok tt → ⊥
unfolding value_to_runtime
value_to_runtime-err x h = elim (Bool-cases (is_value_error x.class)) [
  | inl p ↦ ground (arith, p, h)
  | inr p ↦ ground (arith, p, h)
]

read_ready-IsReady : (frame : Fields) → read_ready frame ≡ ok tt → IsReady frame
unfolding read_ready check_ready
read_ready-IsReady frame h = elim (Result-cases (parse_fatal_frame frame)) [
  | inr (x, e) ↦ absurd (value_to_runtime-err x (rw e at h))
  | inl (fatal, e) ↦ elim (Result-cases (refuse_fatal fatal)) [
    | inr (x, f) ↦ absurd (value_to_runtime-err x (rw (e, check_ready, f) at h))
    | inl (u, f) ↦ elim (Result-cases (parse_ready_frame frame protocol_version)) [
      | inr (x, g) ↦ absurd (value_to_runtime-err x (rw (e, check_ready, f, g) at h))
      | inl (v, g) ↦ parse_ready_frame-IsReady frame g
    ]
  ]
]

module _ {B D G : Type 0} (self : Adapter B D G)
    (ack : Option (Text → Exec (World D G) (Unit {0}))) where
  -- The first frame of a connection is an exact ready frame of the protocol version, or the whole
  -- reading of the frames leaves the world as it was.
  pub read_frames-handshake :
      (frame : Fields) (frames : List Fields) (ended : Result (Unit {0})) (w : World D G)
      → IsReady frame ⊎ ((read_frames self ack false (frame ∷ frames) ended w).1 ≡ w)
  unfolding read_frames read_frame
  read_frames-handshake frame frames ended w = elim (Result-cases (read_ready frame)) [
    | inl (u, e) ↦ inl (read_ready-IsReady frame e)
    | inr (x, e) ↦ inr (rw e refl)
  ]

  -- The reading of the frames of a connection ends with an exception, whatever the frames are and
  -- however they end.
  pub read_frames-raises :
      (ready_seen : Bool) (frames : List Fields) (ended : Result (Unit {0})) (w : World D G)
      → (e : Error) × ((read_frames self ack ready_seen frames ended w).0 ≡ err e)
  unfolding read_frames
  read_frames-raises ready_seen [] (ok u) w = (_, refl)
  read_frames-raises ready_seen [] (err e) w = (e, refl)
  read_frames-raises ready_seen (frame ∷ frames) ended w =
      elim (Result-cases (read_frame self ack ready_seen frame w).0) [
        | inl (u, e) ↦
            rw e (read_frames-raises true frames ended (read_frame self ack ready_seen frame w).1)
        | inr (x, e) ↦ (x, rw e refl)
      ]
