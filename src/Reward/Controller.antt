-- ===== src/Reward/Controller.antt =====
-- modules/reward/reward.controller.ts. The guards stand before these handlers.
use msa_tuto_server.Base.{ℕ, String, Bool, Option, none, some}
use msa_tuto_server.Http.{failure, Result, M, throw}
use msa_tuto_server.Mongo.{Collection}
use msa_tuto_server.Access.{AuthUser}
use msa_tuto_server.Event.Model.{Event, same_id}
use msa_tuto_server.Reward.Model.{Reward, CreateRewardDto, Rewards, Catalogue, same_reward}
use msa_tuto_server.Reward.Service.{create_reward, find_rewards, find_reward, find_by_event_id}

module _ (is_object_id : String → Bool) (ec : Collection Event same_id)
    (rc : Collection Reward same_reward) where
  -- Without a user, reading `userId` throws.
  unfoldable pub post_reward :
      Option AuthUser → CreateRewardDto → (id : String) → (now : ℕ) → M Catalogue Reward
  post_reward none dto id now =
      throw (failure "Cannot read properties of undefined (reading 'userId')")
  post_reward (some user) dto id now = create_reward is_object_id ec rc dto user.user_id id now

module _ (is_object_id : String → Bool) (rc : Collection Reward same_reward) where
  unfoldable pub get_all_rewards : M Rewards Rewards
  get_all_rewards = find_rewards is_object_id rc none

  unfoldable pub get_reward_by_id : String → M Rewards Reward
  get_reward_by_id id = find_reward is_object_id rc id

unfoldable pub get_rewards_by_event_id :
    (is_object_id : String → Bool) (find : (Reward → Bool) → Rewards → Result Rewards)
    → String
    → M Rewards Rewards
get_rewards_by_event_id is_object_id find event_id = find_by_event_id is_object_id find event_id
