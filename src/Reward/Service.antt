-- ===== src/Reward/Service.antt =====
-- modules/reward/reward.service.ts. An ObjectId is its text; `is_object_id` tells which texts its
-- constructor takes, and it throws on the others. The clock and the id of a new document are
-- arguments.
use msa_tuto_server.Base.{
  ℕ, String, Bool, true, false, ◌&&◌, Option, none, some, [], ◌∷◌, ◌==◌, eqb, if◌then◌else◌,
  template,
}
use msa_tuto_server.Http.{
  Exception, bad_request, not_found, failure, Result, ok, M, pure, throw, rethrow, ◌>>=◌, ◌>>◌,
}
use msa_tuto_server.Mongo.{Collection}
use msa_tuto_server.Event.Model.{Event, Events, same_id, when_given}
use msa_tuto_server.Event.Query.{find_one}
use msa_tuto_server.Reward.Model.{
  Reward, CreateRewardDto, RewardFilter, Rewards, Catalogue, same_reward, reward_type_number,
}

abbrev pub on_events : {A : Type 0} → M Events A → M Catalogue A
on_events m s = let (r, es) = m s.events in (r, record s { events = es })

abbrev pub on_rewards : {A : Type 0} → M Rewards A → M Catalogue A
on_rewards m s = let (r, rs) = m s.rewards in (r, record s { rewards = rs })

abbrev pub bad_event : String → Exception → Exception
bad_event event_id e = bad_request (template ("유효하지 않은 이벤트 ID: " ∷ event_id ∷ []))

abbrev pub missing_reward : String → Exception
missing_reward id = not_found (template ("보상 ID " ∷ id ∷ "를 찾을 수 없습니다." ∷ []))

-- the document that `create` saves
abbrev pub new_reward : CreateRewardDto → String → String → ℕ → Reward
new_reward dto created_by id now = record {
  id = id;
  name = dto.name;
  description = dto.description;
  type = dto.type;
  quantity = dto.quantity;
  event_id = dto.event_id;
  metadata = dto.metadata;
  created_by = created_by;
  updated_by = none;
  created_at = now;
}

module _ (is_object_id : String → Bool) where
  -- `new Types.ObjectId(id)`
  abbrev pub object_id : {S : Type 0} → String → M S String
  object_id id =
      if is_object_id id
      then pure id
      else throw (failure "BSONError: input must be a 24 character hex string")

module _ (is_object_id : String → Bool) (ec : Collection Event same_id)
    (rc : Collection Reward same_reward) where
  abbrev pub checked_event : String → M Catalogue Event
  checked_event event_id s = rethrow (bad_event event_id) (on_events (find_one ec event_id false) s)

  unfoldable pub create_reward : CreateRewardDto → String → String → ℕ → M Catalogue Reward
  create_reward dto created_by id now = do
    checked_event dto.event_id
    object_id is_object_id dto.event_id
    on_rewards (rc.save (new_reward dto created_by id now))

-- The filter of `findAll`; an id that is empty counts as not given.
abbrev pub event_given : Option String → Option String
event_given none = none
event_given (some e) = if e == "" then none else some e

unfoldable pub reward_filter : Option RewardFilter → Reward → Bool
reward_filter none r = true
reward_filter (some filter) r =
    when_given (event_given filter.event_id) (λ e. r.event_id == e)
    && when_given filter.type (λ t. eqb (reward_type_number r.type) (reward_type_number t))

-- The id for which `findAll` makes an ObjectId.
abbrev pub filter_id : Option RewardFilter → Option String
filter_id none = none
filter_id (some filter) = event_given filter.event_id

module _ (is_object_id : String → Bool) (rc : Collection Reward same_reward) where
  abbrev pub check_id : Option String → M Rewards (Unit {0})
  check_id none = pure tt
  check_id (some id) = object_id is_object_id id >> pure tt

  unfoldable pub find_rewards : Option RewardFilter → M Rewards Rewards
  find_rewards filter = do
    check_id (filter_id filter)
    (λ rs. (ok (rc.sorted (reward_filter filter) (λ r. r.created_at) true rs), rs))

  abbrev pub or_missing : String → Option Reward → M Rewards Reward
  or_missing id none = throw (missing_reward id)
  or_missing id (some r) = pure r

  unfoldable pub find_reward : String → M Rewards Reward
  find_reward id = do
    object_id is_object_id id
    found ← (λ rs. (rc.find_one (λ r. r.id == id) rs, rs))
    or_missing id found

-- `find` without a sort, whose order is the server's, is a parameter.
unfoldable pub find_by_event_id :
    (is_object_id : String → Bool) (find : (Reward → Bool) → Rewards → Result Rewards)
    → String
    → M Rewards Rewards
find_by_event_id is_object_id find event_id = do
  object_id is_object_id event_id
  (λ rs. (find (λ r. r.event_id == event_id) rs, rs))
