-- ===== src/Reward/Model.antt =====
-- modules/reward/schemas/reward.schema.ts and modules/reward/dto/create-reward.dto.ts. The metadata
-- is any object, which no code reads: a text stands for it.
use msa_tuto_server.Base.{ℕ, String, Bool, ◌==◌, Option, List}
use msa_tuto_server.Event.Model.{Events}

pub data RewardType : Type 0 where
  coupon item : RewardType

abbrev pub reward_type_number : RewardType → ℕ
reward_type_number coupon = 0
reward_type_number item = 1

pub record Reward : Type 0 where
  pub id : String
  pub name : String
  pub description : Option String
  pub type : RewardType
  pub quantity : ℕ
  pub event_id : String
  pub metadata : Option String
  pub created_by : String
  pub updated_by : Option String
  pub created_at : ℕ

pub record CreateRewardDto : Type 0 where
  pub name : String
  pub description : Option String
  pub type : RewardType
  pub quantity : ℕ
  pub event_id : String
  pub metadata : Option String

-- The argument of `findAll`.
pub record RewardFilter : Type 0 where
  pub event_id : Option String
  pub type : Option RewardType

-- Rewards have no unique index but that of `_id`.
abbrev pub same_reward : Reward → Reward → Bool
same_reward r q = r.id == q.id

abbrev pub Rewards : Type 0
Rewards = List Reward

-- The two collections that the service reads and writes.
pub record Catalogue : Type 0 where
  pub events : Events
  pub rewards : Rewards
