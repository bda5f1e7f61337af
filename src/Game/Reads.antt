-- ===== src/Game/Reads.antt =====
-- The handlers that write nothing.
use msa_tuto_server.Base.{
  ℕ, String, ◌≡◌, refl, ◌∙◌, ◌==◌, Bool, false, Option, none, some, Bool-cases, inl, inr,
}
use msa_tuto_server.Http.{
  bad_request, unauthorized, forbidden, not_found, conflict, request_timeout, internal, failure,
  Result, ok, err,
}
use msa_tuto_server.Http.Moves.{Moves, Moves-bind, Stays, Stays-IsPath}
use msa_tuto_server.Mongo.{Collection}
use msa_tuto_server.Access.{AuthUser}
use msa_tuto_server.Event.Model.{Event, UpdateEventDto, Events, same_id}
use msa_tuto_server.Event.Query.{find_one}
use msa_tuto_server.Event.Lookup.{Looked, find_one-Looked}
use msa_tuto_server.Event.Refusal.{update-IsRefused}
use msa_tuto_server.Event.Controller.{with_latest, find_event, update_event}
use msa_tuto_server.Reward.Model.{Reward, Rewards, same_reward}
use msa_tuto_server.Reward.Service.{
  object_id, or_missing, find_rewards, find_reward, find_by_event_id,
}
use msa_tuto_server.Reward.Controller.{get_all_rewards, get_reward_by_id, get_rewards_by_event_id}
use msa_tuto_server.EventRequest.Model.{RewardRequest, same_claim}
use msa_tuto_server.EventRequest.Service.{Store}
use msa_tuto_server.EventRequest.Eligibility.{Eligibility}
use msa_tuto_server.EventRequest.Controller.{answered, get_eligibility}

module _ (c : Collection Event same_id) where
  find_one-Stays : (id : String) (d : Bool) (ds : Events) → (find_one c id d ds).1 ≡ ds
  find_one-Stays id d ds = elim (find_one-Looked c id d ds) [
    | Looked.failed m q ↦ rw q
    | Looked.missing n q ↦ rw q
    | Looked.found s q ↦ rw q
  ]

  pub find_event-Stays : (id : String) (d : Bool) → Moves Stays (find_event c id d)
  unfolding find_event
  find_event-Stays id d = record { run = find_one-Stays id d }

  latest_state : (id m : String) (ds : Events) → (with_latest c id (err (conflict m), ds)).1 ≡ ds
  latest_state id m ds = elim (find_one-Looked c id false ds) [
    | Looked.failed e q ↦ rw q
    | Looked.missing n q ↦ rw q
    | Looked.found s q ↦ rw q
  ]

  with_latest_state : (id : String) (r : Result Event × Events) → (with_latest c id r).1 ≡ r.1
  with_latest_state id (ok e, ds) = refl
  with_latest_state id (err (conflict m), ds) = latest_state id m ds
  with_latest_state id (err (bad_request m), ds) = refl
  with_latest_state id (err (unauthorized m), ds) = refl
  with_latest_state id (err (forbidden m), ds) = refl
  with_latest_state id (err (not_found m), ds) = refl
  with_latest_state id (err (request_timeout m), ds) = refl
  with_latest_state id (err (internal m), ds) = refl
  with_latest_state id (err (failure m), ds) = refl

  -- An update by a request always carries a version, and is refused.
  pub update_event-Stays :
      (date : String → ℕ) (user : Option AuthUser) (id : String) (dto : UpdateEventDto)
      → Moves Stays (update_event c date user id dto)
  unfolding update_event
  update_event-Stays date user id dto = record {
    run = λ ds. with_latest_state id _ ∙ (update-IsRefused c date id dto _ dto.version ds).1;
  }

  pub get_eligibility-Stays :
      (rc : Collection RewardRequest same_claim) (user : Option AuthUser) (event_id : String)
      (now : ℕ)
      → Moves Stays (get_eligibility c rc user event_id now)
  unfolding get_eligibility
  get_eligibility-Stays rc user event_id now = record { run = λ s. answered_state _ _ s }
    where
      answered_state :
          (r : Result Event) (f : Event → Eligibility) (s : Store) → (answered r f s).1 ≡ s
      answered_state (ok e) f s = refl
      answered_state (err e) f s = refl

module _ (is_object_id : String → Bool) where
  object_id-Stays : {S : Type 0} (id : String) → Moves (Stays {S = S}) (object_id is_object_id id)
  object_id-Stays id = elim (Bool-cases (is_object_id id)) [
    | inl t ↦ rw t (record { run = λ s. refl })
    | inr f ↦ rw f (record { run = λ s. refl })
  ]

  pub get_rewards_by_event_id-Stays :
      (find : (Reward → Bool) → Rewards → Result Rewards) (event_id : String)
      → Moves Stays (get_rewards_by_event_id is_object_id find event_id)
  unfolding get_rewards_by_event_id find_by_event_id
  get_rewards_by_event_id-Stays find event_id =
      Moves-bind Stays-IsPath _ (λ id rs. (find (λ r. r.event_id == event_id) rs, rs))
        (object_id-Stays event_id) (λ id. record { run = λ rs. refl })

  module _ (rc : Collection Reward same_reward) where
    pub get_all_rewards-Stays : Moves Stays (get_all_rewards is_object_id rc)
    unfolding get_all_rewards find_rewards
    get_all_rewards-Stays = record { run = λ rs. refl }

    or_missing-Stays :
        (id : String) (r : Option Reward) → Moves Stays (or_missing is_object_id rc id r)
    or_missing-Stays id none = record { run = λ rs. refl }
    or_missing-Stays id (some r) = record { run = λ rs. refl }

    pub get_reward_by_id-Stays : (id : String) → Moves Stays (get_reward_by_id is_object_id rc id)
    unfolding get_reward_by_id find_reward
    get_reward_by_id-Stays id = Moves-bind Stays-IsPath _ _ (object_id-Stays id) (λ u.
        Moves-bind Stays-IsPath (λ rs. (rc.find_one (λ r. r.id == id) rs, rs))
          (or_missing is_object_id rc id) (record { run = λ rs. refl }) (or_missing-Stays id))
