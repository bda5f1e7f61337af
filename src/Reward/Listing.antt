-- ===== src/Reward/Listing.antt =====
-- The listings of the rewards.
use mathlib.Core.List.{Perm}
use msa_tuto_server.Base.{
  String, ◌≡◌, refl, ap, subst, Bool, true, Option, none, some, List, [], ◌∷◌, filter,
}
use msa_tuto_server.Http.{ok, continue}
use msa_tuto_server.Mongo.{Collection, IsSortedBy}
use msa_tuto_server.Reward.Model.{Reward, RewardFilter, Rewards, same_reward}
use msa_tuto_server.Reward.Service.{reward_filter, filter_id, check_id, find_rewards}
use msa_tuto_server.Reward.Controller.{get_all_rewards}

filter_all : {A : Type 0} (xs : List A) → filter (λ a. true) xs ≡ xs
filter_all [] = refl
filter_all (x ∷ xs) = ap (λ l. x ∷ l) (filter_all xs)

module _ (is_object_id : String → Bool) (rc : Collection Reward same_reward) where
  -- A listing in which a filter without an id, or with one that is an ObjectId, is met.
  abbrev pub IsAllowed : Option String → Type 0
  IsAllowed none = Unit
  IsAllowed (some id) = is_object_id id ≡ true

  -- `findAll` with a filter whose event id, if it has one, is an ObjectId returns the rewards that
  -- meet the filter, each as often as it is stored, newest first, and writes nothing.
  pub find_rewards-sorted :
      (given : Option RewardFilter) (rs : Rewards)
      → IsAllowed (filter_id given)
      → (listed : Rewards) × (find_rewards is_object_id rc given rs ≡ (ok listed, rs))
        × Perm listed (filter (reward_filter given) rs)
        × IsSortedBy true (λ r. r.created_at) listed
  unfolding find_rewards
  find_rewards-sorted given rs h =
      let (perm, order) = rc.sorted_law (reward_filter given) (λ r. r.created_at) true rs in
      (
        rc.sorted (reward_filter given) (λ r. r.created_at) true rs,
        found (filter_id given) h,
        perm,
        order,
      )
    where
      found :
          (id : Option String)
          → IsAllowed id
          → continue
              (check_id is_object_id rc id rs)
              (λ u rs. (ok (rc.sorted (reward_filter given) (λ r. r.created_at) true rs), rs))
            ≡ (ok (rc.sorted (reward_filter given) (λ r. r.created_at) true rs), rs)
      found none k = refl
      found (some id) k = rw k

  -- `getAllRewards` returns the stored rewards, each as often as it is stored, newest first, and
  -- writes nothing.
  pub get_all_rewards-sorted :
      (rs : Rewards)
      → (listed : Rewards) × (get_all_rewards is_object_id rc rs ≡ (ok listed, rs))
        × Perm listed rs
        × IsSortedBy true (λ r. r.created_at) listed
  unfolding get_all_rewards reward_filter
  get_all_rewards-sorted rs =
      let (listed, same, perm, order) = find_rewards-sorted none rs tt in
      (listed, same, subst (Perm listed) (filter_all rs) perm, order)
