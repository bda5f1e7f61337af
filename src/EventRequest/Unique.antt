-- ===== src/EventRequest/Unique.antt =====
-- At most one request of each user for each event: what a call adds.
use msa_tuto_server.Base.{
  ℕ, String, ◌≡◌, refl, sym, ap, false, Option, some, [], ◌∷◌, ◌++◌, eq_iff, arith, All, All-append,
  All-mono, Bool-cases, Option-cases, inl, inr,
}
use msa_tuto_server.Http.{Result}
use msa_tuto_server.Mongo.{Collection, Misses}
use msa_tuto_server.Event.Model.{Event, same_id, is_active}
use msa_tuto_server.Event.Lookup.{Looked, find_one-Looked}
use msa_tuto_server.EventRequest.Model.{
  RewardRequest, RewardRequests, same_claim, Metadata, CreateRewardRequestDto,
}
use msa_tuto_server.EventRequest.Service.{
  Store, claims, new_request, is_out_of_period, idempotency_key, request_reward,
  create_event_reward_request,
}
use msa_tuto_server.EventRequest.Claims.{Outcome, tried-Outcome}

-- Two requests differ in their user or in their event.
abbrev pub IsApart : RewardRequest → RewardRequest → Type 0
IsApart r q = ¬ ((r.user_id ≡ q.user_id) × (r.event_id ≡ q.event_id))

-- No user has two requests for one event.
abbrev pub IsOnePerClaim : RewardRequests → Type 0
IsOnePerClaim [] = Unit
IsOnePerClaim (r ∷ rs) = All (IsApart r) rs × IsOnePerClaim rs

-- What a call does to the requests: nothing, or it adds one of its own user and event, the first.
pub data Effect (user_id event_id : String) (rs rs' : RewardRequests) : Type 0 where
  same : rs' ≡ rs → Effect user_id event_id rs rs'
  added :
      (n : RewardRequest)
      → n.user_id ≡ user_id
      → n.event_id ≡ event_id
      → Misses (claims (some user_id) event_id) rs
      → All (IsApart n) rs
      → rs' ≡ rs ++ n ∷ []
      → Effect user_id event_id rs rs'

IsApart-of_index : (r q : RewardRequest) → same_claim r q ≡ false → IsApart r q
IsApart-of_index r q h e =
    ground (arith, eq_iff r.user_id q.user_id, eq_iff r.event_id q.event_id, e.0, e.1)

outcome-Effect :
    (user_id event_id : String) (n : RewardRequest) (rs : RewardRequests)
    (r : Result RewardRequest × RewardRequests)
    → n.user_id ≡ user_id
    → n.event_id ≡ event_id
    → Outcome user_id event_id n rs r
    → Effect user_id event_id rs r.1
outcome-Effect user_id event_id n rs r u e (Outcome.refused x q) =
    Effect.same (ap (λ (p : Result RewardRequest × RewardRequests). p.1) q)
outcome-Effect user_id event_id n rs r u e (Outcome.replayed s q) =
    Effect.same (ap (λ (p : Result RewardRequest × RewardRequests). p.1) q)
outcome-Effect user_id event_id n rs r u e (Outcome.added m a q) =
    Effect.added n u e m (All-mono (IsApart-of_index n) rs a)
      (ap (λ (p : Result RewardRequest × RewardRequests). p.1) q)

module _ (rc : Collection RewardRequest same_claim)
    (redis_get : String → Result (Option String)) where
  pub request_reward-Effect :
      (user_id event_id : String) (metadata : Metadata) (now : ℕ) (event : Event) (s : Store)
      → Effect user_id event_id s.requests
          (request_reward rc redis_get user_id event_id metadata now event s).1.requests
  unfolding request_reward new_request
  request_reward-Effect user_id event_id metadata now event s =
      elim (Bool-cases (is_active event.status)) [
        | inr off ↦ rw off (Effect.same refl)
        | inl on ↦ elim (Bool-cases (is_out_of_period now event)) [
          | inl out ↦ rw (on, out) (Effect.same refl)
          | inr running ↦
              rw (on, running)
                (outcome-Effect user_id event_id _ s.requests _ refl refl (
                  tried-Outcome rc user_id event_id event metadata now s.requests
                    (redis_get (idempotency_key user_id event_id metadata.message_id))))
        ]
      ]

  module _ (ec : Collection Event same_id) where
    -- Whatever `createEventRewardRequest` returns or throws, it changes the requests in no other way than to add one of
    -- its own user and event, and only if there was none.
    pub create_event_reward_request-Effect :
        (user_id : String) (dto : CreateRewardRequestDto) (now : ℕ) (s : Store)
        → Effect user_id dto.event_id s.requests
            (create_event_reward_request ec rc redis_get user_id dto now s).1.requests
    unfolding create_event_reward_request
    create_event_reward_request-Effect user_id dto now s = elim (Option-cases dto.metadata) [
      | inl q ↦ rw (q, create_event_reward_request) (Effect.same refl)
      | inr (metadata, q) ↦ elim (find_one-Looked ec dto.event_id false s.events) [
        | Looked.failed m z ↦ rw (q, z, create_event_reward_request) (Effect.same refl)
        | Looked.missing n z ↦ rw (q, z, create_event_reward_request) (Effect.same refl)
        | Looked.found t z ↦
            rw (q, z, create_event_reward_request)
              (request_reward-Effect user_id dto.event_id metadata now t.doc s)
      ]
    ]

IsApart-symm : (r q : RewardRequest) → IsApart r q → IsApart q r
IsApart-symm r q h e = h (sym e.0, sym e.1)

pub IsOnePerClaim-snoc :
    (rs : RewardRequests) (n : RewardRequest)
    → IsOnePerClaim rs
    → All (IsApart n) rs
    → IsOnePerClaim (rs ++ n ∷ [])
IsOnePerClaim-snoc [] n h a = (tt, tt)
IsOnePerClaim-snoc (r ∷ rs) n h a = (
  All-append (IsApart r) rs (n ∷ []) h.0 (IsApart-symm n r a.0, tt),
  IsOnePerClaim-snoc rs n h.1 a.1,
)
