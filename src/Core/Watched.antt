-- ===== src/Core/Watched.antt =====
-- Which event frames hey_platform/core.py accepts.
use hermes_hey.Prelude.{true, ◌≡◌, some, [], ◌∷◌, Result-cases, inl, inr}
use hermes_hey.Json.{Fields, object, get, get_item_of, keys_eq}
use hermes_hey.Core.Event.{from_dict}
use hermes_hey.Core.RoundTrip.{from_dict-Describes, dict_eq-Describes}
use hermes_hey.Core.Frames.{has_type, parse_event_frame, event_payload}

-- A frame with exactly the keys `type` and `event`, of the type event, whose payload is a
-- dictionary, is parsed as `from_dict` parses the payload: the comparison of the event's
-- dictionary with the payload never refuses.
pub parse_event_frame-from_dict :
    (frame payload : Fields)
    → keys_eq frame ("type" ∷ "event" ∷ []) ≡ true
    → has_type "event" frame ≡ true
    → get "event" frame ≡ some (object payload)
    → parse_event_frame frame ≡ from_dict payload
unfolding parse_event_frame
parse_event_frame-from_dict frame payload keys kind item = elim (Result-cases (from_dict payload)) [
  | inl (e, accepted) ↦
      let same = dict_eq-Describes payload e (from_dict-Describes payload e accepted) in
      rw
        (keys, kind, get_item_of "event" frame (object payload) item, event_payload, accepted, same)
  | inr (x, refused) ↦
      rw (keys, kind, get_item_of "event" frame (object payload) item, event_payload, refused)
]
