-- ===== src/Reward/Creation.antt =====
-- The outcomes of the creation of a reward.
use msa_tuto_server.Base.{
  ℕ, String, ◌≡◌, refl, ap, Bool, true, false, [], ◌∷◌, ◌++◌, Bool-cases, inl, inr, template,
}
use msa_tuto_server.Http.{bad_request, failure, Result, ok, err}
use msa_tuto_server.Mongo.{Collection, Split, Misses, FoundOne, Saved}
use msa_tuto_server.Event.Model.{Event, same_id}
use msa_tuto_server.Event.Query.{by_id, find_one}
use msa_tuto_server.Reward.Model.{Reward, CreateRewardDto, Catalogue, same_reward}
use msa_tuto_server.Reward.Service.{create_reward, new_reward}

abbrev pub bad_event_message : String → String
bad_event_message event_id = template ("유효하지 않은 이벤트 ID: " ∷ event_id ∷ [])

module _ (is_object_id : String → Bool) (ec : Collection Event same_id)
    (rc : Collection Reward same_reward) where
  -- What `create` does with a DTO, and when: without an event that is there and not deleted it
  -- refuses, and with one it saves the reward, unless the id or the driver stops it.
  pub data Created (dto : CreateRewardDto) (by id : String) (now : ℕ) (s : Catalogue)
      (r : Result Reward × Catalogue) : Type 0 where
    unread :
        (m : String)
        → ec.find_one (by_id dto.event_id false) s.events ≡ err (failure m)
        → r ≡ (err (bad_request (bad_event_message dto.event_id)), s)
        → Created dto by id now s r
    missing :
        Misses (by_id dto.event_id false) s.events
        → r ≡ (err (bad_request (bad_event_message dto.event_id)), s)
        → Created dto by id now s r
    misnamed :
        Split (by_id dto.event_id false) s.events
        → is_object_id dto.event_id ≡ false
        → r ≡ (err (failure "BSONError: input must be a 24 character hex string"), s)
        → Created dto by id now s r
    unsaved :
        (m : String)
        → Split (by_id dto.event_id false) s.events
        → (rc.save (new_reward dto by id now) s.rewards).0 ≡ err (failure m)
        → r ≡ (err (failure m), s)
        → Created dto by id now s r
    saved :
        Split (by_id dto.event_id false) s.events
        → is_object_id dto.event_id ≡ true
        → r ≡ (
          ok (new_reward dto by id now),
          record s { rewards = s.rewards ++ new_reward dto by id now ∷ [] },
        )
        → Created dto by id now s r

  -- `RewardService.create` answers in one of five ways: a bad request, if the look-up of the event
  -- failed; a bad request, if no event with the id is there that is not deleted; a failure, if there
  -- is one but the id is no ObjectId; the failure of the driver, if there is one and the save failed;
  -- or, with such an event and an ObjectId, the reward of the DTO, which it has added to the rewards.
  -- In the other cases nothing is written.
  pub create_reward-Created :
      (dto : CreateRewardDto) (by id : String) (now : ℕ) (s : Catalogue)
      → Created dto by id now s (create_reward is_object_id ec rc dto by id now s)
  unfolding create_reward find_one
  create_reward-Created dto by id now s =
      elim (ec.find_one_law (by_id dto.event_id false) s.events) [
        | FoundOne.failed m q ↦ rw q (Created.unread m q refl)
        | FoundOne.missing n q ↦ rw q (Created.missing n refl)
        | FoundOne.found t q ↦ elim (Bool-cases (is_object_id dto.event_id)) [
          | inr f ↦ rw (q, f) (Created.misnamed t f refl)
          | inl b ↦ elim (rc.save_law (new_reward dto by id now) s.rewards) [
            | Saved.failed m z ↦ rw (q, b, z) (Created.unsaved m t (ap (λ x. x.0) z) refl)
            | Saved.added g z ↦ rw (q, b, z) (Created.saved t b refl)
          ]
        ]
      ]
