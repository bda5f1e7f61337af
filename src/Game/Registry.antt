-- ===== src/Game/Registry.antt =====
-- The reward requests seen from outside: a registry of the claims that were made, which forgets the
-- order of the requests and all else about them, but counts them.
use msa_tuto_server.Base.{ℕ, suc, String, ◌≡◌, Bool, true, false, ◌&&◌, List, [], ◌∷◌, ◌==◌}
use msa_tuto_server.EventRequest.Model.{RewardRequests}

-- How often a user has claimed the reward of an event.
abbrev pub Registry : Type 0
Registry = String → String → ℕ

-- One more if the test holds.
abbrev pub counted : Bool → ℕ → ℕ
counted true n = suc n
counted false n = n

abbrev pub registry : RewardRequests → Registry
registry [] user_id event_id = 0
registry (r ∷ rs) user_id event_id =
    counted (r.user_id == user_id && r.event_id == event_id) (registry rs user_id event_id)

-- The abstract operation: one claim is entered.
abbrev pub enter : String → String → Registry → Registry
enter user_id event_id claimed u e = counted (user_id == u && event_id == e) (claimed u e)

-- A registry after some entries, the last one first, each of a claim that was not made before.
pub data Entered (before : Registry) : List (String × String) → Registry → Type 0 where
  none_yet : Entered before [] before
  and_then :
      {entries : List (String × String)} {after : Registry} (user_id event_id : String)
      → Entered before entries after
      → after user_id event_id ≡ 0
      → Entered before ((user_id, event_id) ∷ entries) (enter user_id event_id after)
