-- ===== src/EventRequest/Condition.antt =====
-- The strategies of modules/event-request/strategies, the factory that picks one, and
-- services/condition-validator.service.ts. `hour` is the local hour of the clock.
use msa_tuto_server.Base.{
  ℕ, String, Bool, true, false, ◌||◌, Option, none, some, ltb, leb, if◌then◌else◌,
}
use msa_tuto_server.Event.Model.{EventType, login, friend_invitation, EventCondition}

-- `ConditionValidatorStrategy`, its `validate`
abbrev pub Strategy : Type 0
Strategy = Option String → EventCondition → Bool

unfoldable pub login_validate : Strategy
login_validate user_id condition = false

unfoldable pub friend_invitation_validate : Strategy
friend_invitation_validate user_id condition = true

unfoldable pub level_up_validate : Strategy
level_up_validate user_id condition = false

unfoldable pub time_period_validate : ℕ → Strategy
time_period_validate hour user_id condition = elim condition.time_range [
  | none ↦ true
  | some range ↦ if ltb hour range.start_hour || leb range.end_hour hour then false else true
]

-- `getStrategy`; the default strategy always fails.
unfoldable pub get_strategy : EventType → Strategy
unfolding login_validate friend_invitation_validate
get_strategy login = login_validate
get_strategy friend_invitation = friend_invitation_validate
get_strategy _ = λ user_id condition. false

unfoldable pub validate_condition : Option String → EventType → EventCondition → Bool
unfolding get_strategy
validate_condition user_id event_type condition = get_strategy event_type user_id condition
