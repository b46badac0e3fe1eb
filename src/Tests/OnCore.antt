-- ===== src/Tests/OnCore.antt =====
-- The theorems on events, frames and contexts at one event.
use hermes_hey.Prelude.{ℕ, ◌+◌, codes, ◌≡◌, refl, ok}
use hermes_hey.Json.{Fields, field, end, text, object, get, keys_eq}
use hermes_hey.Core.Event.{IsValid, to_dict, from_dict}
use hermes_hey.Core.RoundTrip.{from_dict-IsValid, from_dict-to_dict}
use hermes_hey.Core.Frames.{parse_event_frame, has_type}
use hermes_hey.Core.Watched.{parse_event_frame-from_dict}
use hermes_hey.Tests.Fixtures.{mail, mail-IsValid}

mail_parsed : from_dict (to_dict mail) ≡ ok mail
mail_parsed = from_dict-to_dict mail mail-IsValid

from_dict-IsValid_example : IsValid mail
from_dict-IsValid_example = from_dict-IsValid (to_dict mail) mail mail_parsed

from_dict-to_dict_example : from_dict (to_dict mail) ≡ ok mail
from_dict-to_dict_example = from_dict-to_dict mail mail-IsValid

abbrev mail_frame : Fields
mail_frame = field "type" (text (codes "event")) (field "event" (object (to_dict mail)) end)

parse_event_frame-from_dict_example : parse_event_frame mail_frame ≡ from_dict (to_dict mail)
unfolding keys_eq has_type get codes
parse_event_frame-from_dict_example =
    parse_event_frame-from_dict mail_frame (to_dict mail) refl refl refl

abbrev thread_number : ℕ
thread_number = 2 + 2

abbrev entry_number : ℕ
entry_number = 17
