-- ===== src/EventRequest/Claims.antt =====
-- What one call of `createEventRewardRequest` can do to the requests.
use msa_tuto_server.Base.{
  ℕ, String, ◌≡◌, refl, sym, subst, true, false, Option, some, [], ◌∷◌, ◌++◌, arith, All,
  Bool-cases, Option-cases, inl, inr, ◌≤◌,
}
use msa_tuto_server.Http.{Exception, bad_request, failure, Result, ok, err, rethrow}
use msa_tuto_server.Mongo.{Collection, Split, Misses, FoundOne, Saved}
use msa_tuto_server.Event.Model.{Event, same_id, is_active}
use msa_tuto_server.Event.Query.{by_id}
use msa_tuto_server.Event.Lookup.{Looked, find_one-Looked}
use msa_tuto_server.EventRequest.Model.{
  RewardRequest, RewardRequests, same_claim, Metadata, CreateRewardRequestDto,
}
use msa_tuto_server.EventRequest.Service.{
  Store, is_truthy, claims, new_request, claim, attempt, request_reward, idempotency_key,
  only_bad_request, is_out_of_period, create_event_reward_request, on_requests, duplicate_message,
}

-- The three outcomes: an exception, an earlier request of the same user and event, or a new one that
-- is the only one of its user and event.
pub data Outcome (user_id event_id : String) (n : RewardRequest) (rs : RewardRequests)
    (r : Result RewardRequest × RewardRequests) : Type 0 where
  refused : (x : Exception) → r ≡ (err x, rs) → Outcome user_id event_id n rs r
  replayed :
      (s : Split (claims (some user_id) event_id) rs)
      → r ≡ (ok s.doc, rs)
      → Outcome user_id event_id n rs r
  added :
      Misses (claims (some user_id) event_id) rs
      → All (λ e. same_claim n e ≡ false) rs
      → r ≡ (ok n, rs ++ n ∷ [])
      → Outcome user_id event_id n rs r

module _ (rc : Collection RewardRequest same_claim) (user_id event_id : String) (event : Event)
    (metadata : Metadata) (now : ℕ) (rs : RewardRequests) where
  abbrev pub result : RewardRequest
  result = new_request user_id event event_id metadata now

  claim-Outcome :
      Outcome user_id event_id result rs (claim rc user_id event event_id metadata now rs)
  unfolding claim
  claim-Outcome = elim (rc.find_one_law (claims (some user_id) event_id) rs) [
    | FoundOne.failed m q ↦ rw q (Outcome.refused (failure m) refl)
    | FoundOne.missing none_yet q ↦ elim (rc.save_law result rs) [
      | Saved.failed m z ↦ rw (q, z) (Outcome.refused (failure m) refl)
      | Saved.added apart z ↦ rw (q, z) (Outcome.added none_yet apart refl)
    ]
    | FoundOne.found s q ↦ rw q (Outcome.refused (bad_request duplicate_message) refl)
  ]

  attempt-Outcome :
      (cached : Result (Option String))
      → Outcome user_id event_id result rs
          (attempt rc cached user_id event event_id metadata now rs)
  unfolding attempt
  attempt-Outcome (err x) = Outcome.refused x refl
  attempt-Outcome (ok id) = elim (Bool-cases (is_truthy id)) [
    | inl t ↦ rw t (elim (rc.find_one_law (claims (some user_id) event_id) rs) [
      | FoundOne.failed m q ↦ rw q (Outcome.refused (failure m) refl)
      | FoundOne.missing none_yet q ↦ rw q claim-Outcome
      | FoundOne.found s q ↦ rw q (Outcome.replayed s refl)
    ])
    | inr f ↦ rw f claim-Outcome
  ]

  -- The catch clause changes exceptions only.
  pub tried-Outcome :
      (cached : Result (Option String))
      → Outcome user_id event_id result rs
          (rethrow only_bad_request (attempt rc cached user_id event event_id metadata now rs))
  tried-Outcome cached = elim (attempt-Outcome cached) [
    | Outcome.refused x q ↦ rw q (Outcome.refused (only_bad_request x) refl)
    | Outcome.replayed s q ↦ rw q (Outcome.replayed s refl)
    | Outcome.added m a q ↦ rw q (Outcome.added m a refl)
  ]

-- What an answered request shows, once its event was found: the event is active and running, the
-- events are unchanged, and so on.
pub record IsAnswered (user_id event_id : String) (metadata : Metadata) (now : ℕ) (event : Event)
    (s : Store) (r : RewardRequest) (s' : Store) : Type 0 where
  pub active : is_active event.status ≡ true
  pub running : (event.start_date ≤ now) × (now ≤ event.end_date)
  pub same_events : s'.events ≡ s.events
  pub outcome :
      Outcome user_id event_id
        (new_request user_id event event_id metadata now)
        s.requests
        (ok r, s'.requests)

module _ (rc : Collection RewardRequest same_claim) where
  pub request_reward-IsAnswered :
      (redis_get : String → Result (Option String)) (user_id event_id : String)
      (metadata : Metadata) (now : ℕ) (event : Event) (s s' : Store) (r : RewardRequest)
      → request_reward rc redis_get user_id event_id metadata now event s ≡ (ok r, s')
      → IsAnswered user_id event_id metadata now event s r s'
  unfolding request_reward
  request_reward-IsAnswered redis_get user_id event_id metadata now event s s' r h =
      elim (Bool-cases (is_active event.status)) [
        | inr off ↦ absurd (cc (rw off at h))
        | inl on ↦ elim (Bool-cases (is_out_of_period now event)) [
          | inl out ↦ absurd (cc (rw (on, out) at h))
          | inr running ↦
              let h' : on_requests
                    (λ rs. rethrow only_bad_request (
                      attempt rc (redis_get (idempotency_key user_id event_id metadata.message_id))
                        user_id event event_id metadata now rs))
                    s
                  ≡ (ok r, s') =
                rw (on, running) at h in
              record {
                active = on;
                running = (ground arith, ground arith);
                same_events = λ i. (sym h' i).1.events;
                outcome =
                    subst
                      (Outcome user_id event_id (new_request user_id event event_id metadata now)
                        s.requests)
                      (λ i. ((h' i).0, (h' i).1.requests))
                      (tried-Outcome rc user_id event_id event metadata now s.requests
                        (redis_get (idempotency_key user_id event_id metadata.message_id)));
              }
        ]
      ]

-- What an answered request shows: the event is there and not deleted, and the rest as above.
pub record IsGranted (user_id : String) (dto : CreateRewardRequestDto) (now : ℕ) (s : Store)
    (r : RewardRequest) (s' : Store) : Type 0 where
  pub metadata : Metadata
  pub given : dto.metadata ≡ some metadata
  pub listed : Split (by_id dto.event_id false) s.events
  pub answered : IsAnswered user_id dto.event_id metadata now listed.doc s r s'

module _ (ec : Collection Event same_id) (rc : Collection RewardRequest same_claim) where
  -- Every answer of `createEventRewardRequest` is granted: its event is there, not deleted, active
  -- and running, and it is an earlier request of the same user and event, with nothing changed, or a
  -- new one, the first of its user and event; whatever Redis and the driver answer.
  pub create_event_reward_request-IsGranted :
      (redis_get : String → Result (Option String)) (user_id : String)
      (dto : CreateRewardRequestDto) (now : ℕ) (s s' : Store) (r : RewardRequest)
      → create_event_reward_request ec rc redis_get user_id dto now s ≡ (ok r, s')
      → IsGranted user_id dto now s r s'
  unfolding create_event_reward_request
  create_event_reward_request-IsGranted redis_get user_id dto now s s' r h =
      elim (Option-cases dto.metadata) [
        | inl q ↦ absurd (cc (rw (q, create_event_reward_request) at h))
        | inr (metadata, q) ↦ elim (find_one-Looked ec dto.event_id false s.events) [
          | Looked.failed m z ↦ absurd (cc (rw (q, z, create_event_reward_request) at h))
          | Looked.missing n z ↦ absurd (cc (rw (q, z, create_event_reward_request) at h))
          | Looked.found t z ↦ record {
            metadata = metadata;
            given = q;
            listed = t;
            answered =
                request_reward-IsAnswered rc redis_get user_id dto.event_id metadata now t.doc s s'
                  r (rw (q, z, create_event_reward_request) at h);
          }
        ]
      ]
