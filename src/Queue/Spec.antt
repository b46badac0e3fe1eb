-- ===== src/Queue/Spec.antt =====
-- What the durable queue promises, on the events themselves and with no file: an event is
-- accepted once, waits until it is completed, and stays remembered.
use hermes_hey.Prelude.{
  Text, text_eq, Bool, true, false, Option, none, some, List, [], ◌∷◌, ◌++◌, map, length, leb,
  if◌then◌else◌,
}
use hermes_hey.Core.Event.{HeyEvent, identity, to_dict}
use hermes_hey.Queue.State.{DurableQueue, State, contains_text, durable_seen}

pub record Ledger : Type 0 where
  pub seen : List Text
  pub events : List HeyEvent

-- the state that stands for a ledger
abbrev pub state_of : Ledger → State
state_of l = record { seen = l.seen; pending = map to_dict l.events }

-- what is kept of a ledger when it is stored
unfoldable pub stored : DurableQueue → List Text → List HeyEvent → Ledger
stored q seen events = record { seen = durable_seen q seen (map identity events); events = events }

-- `none` if the queue is full
unfoldable pub accept : DurableQueue → HeyEvent → Ledger → Option (Bool × Ledger)
accept q e l =
    if contains_text (identity e) l.seen
    then some (false, l)
    else if leb q.max_pending (length l.events)
    then none
    else some (true, stored q (l.seen ++ identity e ∷ []) (l.events ++ e ∷ []))

unfoldable pub others : Text → List HeyEvent → List HeyEvent
others id [] = []
others id (e ∷ es) = let rest = others id es in if text_eq (identity e) id then rest else e ∷ rest

unfoldable pub finish : DurableQueue → Text → Ledger → Ledger
finish q id l = stored q l.seen (others id l.events)
