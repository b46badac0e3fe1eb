-- ===== src/Adapter/World.antt =====
-- What the methods of `HeyAdapter` in hey_platform/adapter.py read and change.
use hermes_hey.Prelude.{Text, text_eq, Bool, List, [], ◌∷◌, if◌then◌else◌}
use hermes_hey.Adapter.Claims.{Claims}

-- `D` is the state of the disk and `G` that of the gateway, the watch process and the network.
pub record World (D G : Type 0) : Type 0 where
  pub disk : D
  pub gateway : G
  pub claims : Claims
  pub inflight : List Text
  pub final_send_allowed : Bool

unfoldable pub discard : Text → List Text → List Text
discard id [] = []
discard id (x ∷ xs) = let rest = discard id xs in if text_eq x id then rest else x ∷ rest
