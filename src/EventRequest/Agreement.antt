-- ===== src/EventRequest/Agreement.antt =====
-- What a user is told by the eligibility check, against what a reward request then gets.
use msa_tuto_server.Base.{
  ℕ, ◌≤◌, String, ◌≡◌, ◌≢◌, refl, sym, ◌∙◌, ap, true, false, Option, none, some, arith, All,
  All-split, subst, Bool-cases, inl, inr, false≢true,
}
use msa_tuto_server.Http.{Result, ok, err, rethrow, continue}
use msa_tuto_server.Mongo.{Collection, Split, Misses, FoundOne}
use msa_tuto_server.Access.{AuthUser, user_property}
use msa_tuto_server.Event.Model.{
  Event, Events, EventType, EventCondition, same_id, is_active, login, friend_invitation, level_up,
  time_period, achievement, purchase, daily_mission, item_collection,
}
use msa_tuto_server.Event.Query.{find_one}
use msa_tuto_server.EventRequest.Model.{
  RewardRequest, RewardRequests, same_claim, Metadata, approved,
}
use msa_tuto_server.EventRequest.Condition.{
  validate_condition, get_strategy, login_validate, friend_invitation_validate,
}
use msa_tuto_server.EventRequest.Service.{
  only_bad_request, Store, is_truthy, claims, new_request, is_out_of_period, idempotency_key, claim,
  attempt, request_reward, create_event_reward_request, find_existing_request,
}
use msa_tuto_server.EventRequest.Claims.{IsAnswered, request_reward-IsAnswered, Outcome}
use msa_tuto_server.EventRequest.Eligibility.{Eligibility, eligible, has_request, check_eligibility}
use msa_tuto_server.EventRequest.Controller.{get_eligibility, answered}

module _ (rc : Collection RewardRequest same_claim) (event : Event) (now : ℕ)
    (rs : RewardRequests) where
  -- What the answer "eligible" says of the event and of the user.
  pub record IsFree (user_id : Option String) : Type 0 where
    pub active : is_active event.status ≡ true
    pub running : is_out_of_period now event ≡ false
    pub unclaimed : has_request (find_existing_request rc user_id event.id rs) ≡ false
    pub met : validate_condition user_id event.type event.condition ≡ true

  check_eligibility-IsFree :
      (user_id : Option String)
      → check_eligibility rc user_id event now rs ≡ eligible
      → IsFree user_id
  unfolding check_eligibility
  check_eligibility-IsFree user_id h = record {
    active = ground arith;
    running = ground arith;
    unclaimed = ground arith;
    met = ground arith;
  }

  IsFree-check_eligibility :
      (user_id : Option String)
      → IsFree user_id
      → check_eligibility rc user_id event now rs ≡ eligible
  unfolding check_eligibility
  IsFree-check_eligibility user_id h = ground arith

rethrow-ok :
    (r : Result RewardRequest × RewardRequests) (n : RewardRequest)
    → r.0 ≡ ok n
    → (rethrow only_bad_request r).0 ≡ ok n
rethrow-ok (ok a, t) n h = h
rethrow-ok (err e, t) n h = absurd (cc h)

module _ (rc : Collection RewardRequest same_claim) (redis_get : String → Result (Option String))
    (user_id : String) (event : Event) (metadata : Metadata) (now : ℕ) (s : Store) where
  abbrev pub request : RewardRequest
  request = new_request user_id event event.id metadata now

  status-request :
      validate_condition (some user_id) event.type event.condition ≡ true
      → request.status ≡ approved
  unfolding new_request
  status-request h = rw h

  claim_saves :
      rc.find_one (claims (some user_id) event.id) s.requests ≡ ok none
      → claim rc user_id event event.id metadata now s.requests ≡ rc.save request s.requests
  unfolding claim
  claim_saves q = rw q

  attempt_saves :
      (cached : Option String)
      → rc.find_one (claims (some user_id) event.id) s.requests ≡ ok none
      → attempt rc (ok cached) user_id event event.id metadata now s.requests
        ≡ rc.save request s.requests
  unfolding attempt
  attempt_saves cached q = elim (Bool-cases (is_truthy cached)) [
    | inl t ↦ rw (t, q) (claim_saves q)
    | inr f ↦ rw f (claim_saves q)
  ]

  -- A reward request for an open event whose condition is met, of a user without an earlier one, is
  -- approved, if Redis and the driver do not fail.
  pub request_reward-approves :
      (x : Option String) (n : RewardRequest)
      → is_active event.status ≡ true
      → is_out_of_period now event ≡ false
      → validate_condition (some user_id) event.type event.condition ≡ true
      → redis_get (idempotency_key user_id event.id metadata.message_id) ≡ ok x
      → rc.find_one (claims (some user_id) event.id) s.requests ≡ ok none
      → (rc.save request s.requests).0 ≡ ok n
      → ((request_reward rc redis_get user_id event.id metadata now event s).0 ≡ ok n)
        × (request.status ≡ approved)
  unfolding request_reward
  request_reward-approves x n active running met redis look saved =
      (rw (active, running, redis, attempt_saves x look) (rethrow-ok _ n saved), status-request met)

  module _ (ec : Collection Event same_id) where
    pub create_event_reward_request-approves :
        (x : Option String) (n : RewardRequest)
        → find_one ec event.id false s.events ≡ (ok event, s.events)
        → is_active event.status ≡ true
        → is_out_of_period now event ≡ false
        → validate_condition (some user_id) event.type event.condition ≡ true
        → redis_get (idempotency_key user_id event.id metadata.message_id) ≡ ok x
        → rc.find_one (claims (some user_id) event.id) s.requests ≡ ok none
        → (rc.save request s.requests).0 ≡ ok n
        → ((create_event_reward_request ec rc redis_get user_id
              (record { event_id = event.id; metadata = some metadata })
              now
              s).0
            ≡ ok n)
          × (request.status ≡ approved)
    unfolding create_event_reward_request
    create_event_reward_request-approves x n here active running met redis look saved =
        let (granted, status) = request_reward-approves x n active running met redis look saved in
        (
          ap
                (λ (r : Result Event × Events).
                  (continue (r.0, record s { events = r.1 })
                    (request_reward rc redis_get user_id event.id metadata now)).0)
                here
              ∙ granted,
          status,
        )

-- No strategy reads the user's id.
validate_condition_any :
    (a b : Option String) (t : EventType) (condition : EventCondition)
    → validate_condition a t condition ≡ validate_condition b t condition
unfolding validate_condition get_strategy login_validate friend_invitation_validate
validate_condition_any a b login condition = refl
validate_condition_any a b friend_invitation condition = refl
validate_condition_any a b level_up condition = refl
validate_condition_any a b time_period condition = refl
validate_condition_any a b achievement condition = refl
validate_condition_any a b purchase condition = refl
validate_condition_any a b daily_mission condition = refl
validate_condition_any a b item_collection condition = refl

ok-injective : (a b : Eligibility) → ◌≡◌ {A = Result Eligibility} (ok a) (ok b) → a ≡ b
ok-injective a b h = cc h

module _ (ec : Collection Event same_id) (rc : Collection RewardRequest same_claim)
    (redis_get : String → Result (Option String)) where
  -- What the endpoint told.
  told_of :
      (caller : Option AuthUser) (event : Event) (now : ℕ) (s : Store)
      → find_one ec event.id false s.events ≡ (ok event, s.events)
      → (get_eligibility ec rc caller event.id now s).0 ≡ ok eligible
      → check_eligibility rc (user_property "id" caller) event now s.requests ≡ eligible
  unfolding get_eligibility
  told_of caller event now s here told = ok-injective _ _ (
      sym (
        ap
          (λ (r : Result Event × Events).
            (answered r.0 (λ e. check_eligibility rc (user_property "id" caller) e now s.requests)
              s).0)
          here)
      ∙ told)

  -- When the eligibility endpoint tells a caller "eligible" of an event, a user who has no earlier
  -- request for it gets an approved request from a reward request in the same state and at the same
  -- time, if the event is read as the endpoint reads it and Redis and the driver do not fail.
  pub eligible-approved :
      (caller : Option AuthUser) (user_id : String) (event : Event) (metadata : Metadata) (now : ℕ)
      (s : Store) (x : Option String) (n : RewardRequest)
      → find_one ec event.id false s.events ≡ (ok event, s.events)
      → (get_eligibility ec rc caller event.id now s).0 ≡ ok eligible
      → redis_get (idempotency_key user_id event.id metadata.message_id) ≡ ok x
      → rc.find_one (claims (some user_id) event.id) s.requests ≡ ok none
      → (rc.save (request rc redis_get user_id event metadata now s) s.requests).0 ≡ ok n
      → ((create_event_reward_request ec rc redis_get user_id
            (record { event_id = event.id; metadata = some metadata })
            now
            s).0
          ≡ ok n)
        × ((request rc redis_get user_id event metadata now s).status ≡ approved)
  eligible-approved caller user_id event metadata now s x n here told redis look saved =
      let free =
        check_eligibility-IsFree rc event now s.requests (user_property "id" caller)
          (told_of caller event now s here told) in
      create_event_reward_request-approves rc redis_get user_id event metadata now s ec x n here
        free.active free.running
        (validate_condition_any (some user_id) (user_property "id" caller) event.type
            event.condition
          ∙ free.met)
        redis look saved

in_period :
    (event : Event) (now : ℕ)
    → (event.start_date ≤ now) × (now ≤ event.end_date)
    → is_out_of_period now event ≡ false
in_period event now h = ground arith

module _ (rc : Collection RewardRequest same_claim) where
  unclaimed_of_Misses :
      (user_id event_id : String) (rs : RewardRequests)
      → Misses (claims (some user_id) event_id) rs
      → has_request (find_existing_request rc (some user_id) event_id rs) ≡ false
  unfolding find_existing_request
  unclaimed_of_Misses user_id event_id rs h =
      elim (rc.find_one_law (claims (some user_id) event_id) rs) [
        | FoundOne.failed m q ↦ rw q
        | FoundOne.missing n q ↦ rw q
        | FoundOne.found t q ↦ absurd (false≢true (sym (at t) ∙ t.holds))
      ]
    where
      at :
          (t : Split (claims (some user_id) event_id) rs)
          → claims (some user_id) event_id t.doc ≡ false
      at t =
          (All-split (λ r. claims (some user_id) event_id r ≡ false) t.before t.after t.doc
            (subst (All (λ r. claims (some user_id) event_id r ≡ false)) t.split h)).1

  met_of_approved :
      (user_id : String) (event : Event) (metadata : Metadata) (now : ℕ)
      → (new_request user_id event event.id metadata now).status ≡ approved
      → validate_condition (some user_id) event.type event.condition ≡ true
  unfolding new_request
  met_of_approved user_id event metadata now h = ground arith

  -- A user whose reward request was answered by an approved request, and changed the requests, would
  -- have been told "eligible" in the state before, at the same time.
  pub approved-eligible :
      (redis_get : String → Result (Option String)) (user_id : String) (event : Event)
      (metadata : Metadata) (now : ℕ) (s s' : Store) (r : RewardRequest)
      → request_reward rc redis_get user_id event.id metadata now event s ≡ (ok r, s')
      → r.status ≡ approved
      → s'.requests ≢ s.requests
      → check_eligibility rc (some user_id) event now s.requests ≡ eligible
  approved-eligible redis_get user_id event metadata now s s' r h ok_status grew =
      let a = request_reward-IsAnswered rc redis_get user_id event.id metadata now event s s' r h in
      IsFree-check_eligibility rc event now s.requests (some user_id) (free a a.outcome)
    where
      free :
          IsAnswered user_id event.id metadata now event s r s'
          → Outcome user_id event.id
              (new_request user_id event event.id metadata now)
              s.requests
              (ok r, s'.requests)
          → IsFree rc event now s.requests (some user_id)
      free a (Outcome.refused x q) = absurd (cc q)
      free a (Outcome.replayed t q) = absurd (grew (λ i. (q i).1))
      free a (Outcome.added m apart q) = record {
        active = a.active;
        running = in_period event now a.running;
        unclaimed = unclaimed_of_Misses user_id event.id s.requests m;
        met = met_of_approved user_id event metadata now (cc (q, ok_status));
      }
