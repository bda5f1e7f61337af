-- ===== src/Reward/Examples.antt =====
-- Rewards at work: tests, and the theorems at concrete inputs.
use msa_tuto_server.Base.{
  String, ◌≡◌, refl, Bool, Option, none, some, [], ◌∷◌, ◌==◌, not, Bool-cases,
}
use msa_tuto_server.Http.{err, bad_request}
use msa_tuto_server.Mongo.{Collection}
use msa_tuto_server.Mongo.Memory.{memory}
use msa_tuto_server.Event.Query.{find_one}
use msa_tuto_server.Event.Examples.{store, two_events}
use msa_tuto_server.Reward.Model.{
  coupon, item, Reward, Rewards, CreateRewardDto, RewardFilter, Catalogue, same_reward,
}
use msa_tuto_server.Reward.Service.{create_reward, new_reward}
use msa_tuto_server.Reward.Creation.{Created, create_reward-Created, bad_event_message}

abbrev pub reward_store : Collection Reward same_reward
reward_store = memory same_reward

-- Every text but the empty one.
abbrev pub is_id : String → Bool
is_id id = not (id == "")

abbrev pub for_event : String → CreateRewardDto
for_event event_id = record {
  name = "ticket";
  description = none;
  type = coupon;
  quantity = 1;
  event_id = event_id;
  metadata = none;
}

abbrev empty_catalogue : Catalogue
empty_catalogue = record { events = two_events; rewards = [] }

create_reward_missing :
    create_reward is_id store reward_store (for_event "e9") "admin" "r1" 70 empty_catalogue
    ≡ (err (bad_request (bad_event_message "e9")), empty_catalogue)
unfolding create_reward find_one memory Bool-cases
create_reward_missing = refl

create_reward_saves :
    (create_reward is_id store reward_store
      (for_event "e1")
      "admin"
      "r1"
      70
      empty_catalogue).1.rewards
    ≡ new_reward (for_event "e1") "admin" "r1" 70 ∷ []
unfolding create_reward find_one memory Bool-cases
create_reward_saves = refl

create_reward-Created_example :
    Created is_id store reward_store
      (for_event "e1")
      "admin"
      "r1"
      70
      empty_catalogue
      (create_reward is_id store reward_store (for_event "e1") "admin" "r1" 70 empty_catalogue)
create_reward-Created_example =
    create_reward-Created is_id store reward_store (for_event "e1") "admin" "r1" 70 empty_catalogue

abbrev pub two_rewards : Rewards
two_rewards =
    new_reward (for_event "e1") "admin" "r1" 70
    ∷ new_reward (record (for_event "e2") { type = item }) "admin" "r2" 80
    ∷ []

abbrev of_winter : Option RewardFilter
of_winter = some (record { event_id = some "e2"; type = none })
