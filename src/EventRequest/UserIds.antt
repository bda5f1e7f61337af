-- ===== src/EventRequest/UserIds.antt =====
-- The endpoints that read the caller's id by a key that the user does not have.
use msa_tuto_server.Base.{ℕ, String, ◌≡◌, refl, ap, false, Option, none, some}
use msa_tuto_server.Http.{Result, ok, err}
use msa_tuto_server.Mongo.{Collection, FoundOne}
use msa_tuto_server.Access.{AuthUser, user_property}
use msa_tuto_server.Event.Model.{Event, same_id}
use msa_tuto_server.Event.Query.{find_one}
use msa_tuto_server.EventRequest.Model.{
  RewardRequest, RewardRequests, same_claim, RewardRequestFilterDto,
}
use msa_tuto_server.EventRequest.Service.{Store, claims, find_existing_request}
use msa_tuto_server.EventRequest.Listing.{find_by_user_id}
use msa_tuto_server.EventRequest.Eligibility.{has_request, check_eligibility}
use msa_tuto_server.EventRequest.Controller.{
  get_eligibility, get_my_requests, get_all_requests, answered,
}

module _ (rc : Collection RewardRequest same_claim) where
  unclaimed_of_undefined :
      (event_id : String) (rs : RewardRequests)
      → has_request (find_existing_request rc none event_id rs) ≡ false
  unfolding find_existing_request
  unclaimed_of_undefined event_id rs = elim (rc.find_one_law (claims none event_id) rs) [
    | FoundOne.failed m q ↦ rw q
    | FoundOne.missing n q ↦ rw q
    | FoundOne.found t q ↦ absurd (cc t.holds)
  ]

-- The key `id` is no field of the user that a token stands for.
user_property-id : (user : Option AuthUser) → user_property "id" user ≡ none
unfolding user_property
user_property-id none = refl
user_property-id (some u) = refl

module _ (rc : Collection RewardRequest same_claim) where
  check_eligibility_forgets :
      (event : Event) (now : ℕ) (rs rs' : RewardRequests)
      → check_eligibility rc none event now rs ≡ check_eligibility rc none event now rs'
  unfolding check_eligibility
  check_eligibility_forgets event now rs rs' =
      rw (unclaimed_of_undefined rc event.id rs, unclaimed_of_undefined rc event.id rs')

module _ (ec : Collection Event same_id) (rc : Collection RewardRequest same_claim) where
  -- The eligibility endpoint answers every caller as if there were no requests at all, so also a user
  -- who has taken part already: the requests do not change its answer.
  pub get_eligibility_forgets :
      (user : Option AuthUser) (event_id : String) (now : ℕ) (s : Store) (rs : RewardRequests)
      → (get_eligibility ec rc user event_id now s).0
        ≡ (get_eligibility ec rc user event_id now (record s { requests = rs })).0
  unfolding get_eligibility
  get_eligibility_forgets user event_id now s rs =
      rw (user_property-id user) (same_answer (find_one ec event_id false s.events).0)
    where
      same_answer :
          (r : Result Event)
          → (answered r (λ e. check_eligibility rc none e now s.requests) s).0
            ≡ (answered r (λ e. check_eligibility rc none e now rs) (record s { requests = rs })).0
      same_answer (ok e) = ap ok (check_eligibility_forgets rc e now s.requests rs)
      same_answer (err x) = refl

module _ (rc : Collection RewardRequest same_claim) (date : String → ℕ)
    (key : String → RewardRequest → ℕ) where
  -- The history endpoint of a user answers every caller as the endpoint of all histories answers the
  -- same filter without a user: with the listing of all users' requests, or the same failure.
  pub get_my_requests_of_all :
      (user : Option AuthUser) (filter : RewardRequestFilterDto) (rs : RewardRequests)
      → get_my_requests rc date key user filter rs
        ≡ get_all_requests rc date key (record filter { user_id = none }) rs
  unfolding get_my_requests get_all_requests find_by_user_id
  get_my_requests_of_all user filter rs = rw (user_property-id user)
