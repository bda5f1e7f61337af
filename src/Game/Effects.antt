-- ===== src/Game/Effects.antt =====
-- What one request does to the data of the game event server.
use msa_tuto_server.Base.{
  ℕ, String, ◌≡◌, refl, Bool, true, false, Option, none, some, [], ◌∷◌, ◌++◌, map, ◌==◌, includes,
  All, Bool-cases, Option-cases, ◌⊎◌, inl, inr, leb, arith,
}
use msa_tuto_server.Http.{Result, ◌>>=◌}
use msa_tuto_server.Mongo.{Collection, Split, Saved}
use msa_tuto_server.Access.{AuthUser}
use msa_tuto_server.Event.Model.{Event, CreateEventDto, Events, same_id, is_active}
use msa_tuto_server.Event.Query.{by_id}
use msa_tuto_server.Event.Lookup.{Looked, find_one-Looked}
use msa_tuto_server.Event.Write.{new_event, create}
use msa_tuto_server.Event.Controller.{create_event}
use msa_tuto_server.Reward.Model.{Reward, CreateRewardDto, Catalogue, same_reward}
use msa_tuto_server.Reward.Service.{create_reward, new_reward}
use msa_tuto_server.Reward.Controller.{post_reward}
use msa_tuto_server.EventRequest.Model.{RewardRequest, same_claim, CreateRewardRequestDto, Metadata}
use msa_tuto_server.EventRequest.Service.{
  Store, request_reward, create_event_reward_request, is_out_of_period,
}
use msa_tuto_server.EventRequest.Controller.{RewardRequestPayload, sender_id, create_reward_request}
use msa_tuto_server.EventRequest.Unique.{IsApart, Effect, request_reward-Effect}

-- The collection has an event with the id.
abbrev pub HasEvent : String → Events → Type 0
HasEvent id es = includes (map (λ e. e.id) es) id ≡ true

HasEvent-found :
    (id : String) (before after : Events) (doc : Event)
    → (doc.id == id) ≡ true
    → HasEvent id (before ++ doc ∷ after)
HasEvent-found id [] after doc h = rw h
HasEvent-found id (e ∷ before) after doc h =
    let later = HasEvent-found id before after doc h in ground arith

Split-HasEvent : (id : String) (es : Events) → Split (by_id id false) es → HasEvent id es
Split-HasEvent id es t =
    let same : (t.doc.id == id) ≡ true = let holds = t.holds in ground arith in
    rw t.split (HasEvent-found id t.before t.after t.doc same)

-- What the creation of a reward does.
pub data RewardEffect (s t : Catalogue) : Type 0 where
  same : t ≡ s → RewardEffect s t
  added :
      (r : Reward)
      → HasEvent r.event_id s.events
      → t ≡ record s { rewards = s.rewards ++ r ∷ [] }
      → RewardEffect s t

-- What a reward request does.
pub data ClaimEffect (s t : Store) : Type 0 where
  same : t ≡ s → ClaimEffect s t
  added :
      (q : RewardRequest)
      → HasEvent q.event_id s.events
      → All (IsApart q) s.requests
      → t ≡ record s { requests = s.requests ++ q ∷ [] }
      → ClaimEffect s t

module _ (is_object_id : String → Bool) (ec : Collection Event same_id)
    (rc : Collection Reward same_reward) where
  create_reward-RewardEffect :
      (dto : CreateRewardDto) (by id : String) (now : ℕ) (s : Catalogue)
      → RewardEffect s (create_reward is_object_id ec rc dto by id now s).1
  unfolding create_reward
  create_reward-RewardEffect dto by id now s =
      elim (find_one-Looked ec dto.event_id false s.events) [
        | Looked.failed m q ↦ rw q (RewardEffect.same refl)
        | Looked.missing n q ↦ rw q (RewardEffect.same refl)
        | Looked.found t q ↦ elim (Bool-cases (is_object_id dto.event_id)) [
          | inr f ↦ rw (q, f) (RewardEffect.same refl)
          | inl b ↦ elim (rc.save_law (new_reward dto by id now) s.rewards) [
            | Saved.failed m z ↦ rw (q, b, z) (RewardEffect.same refl)
            | Saved.added g z ↦
                rw (q, b, z)
                  (RewardEffect.added (new_reward dto by id now)
                    (Split-HasEvent dto.event_id s.events t) refl)
          ]
        ]
      ]

  pub post_reward-RewardEffect :
      (user : Option AuthUser) (dto : CreateRewardDto) (id : String) (now : ℕ) (s : Catalogue)
      → RewardEffect s (post_reward is_object_id ec rc user dto id now s).1
  unfolding post_reward
  post_reward-RewardEffect none dto id now s = RewardEffect.same refl
  post_reward-RewardEffect (some u) dto id now s = create_reward-RewardEffect dto u.user_id id now s

module _ (ec : Collection Event same_id) (rc : Collection RewardRequest same_claim)
    (redis_get : String → Result (Option String)) where
  request_reward_events :
      (user_id event_id : String) (metadata : Metadata) (now : ℕ) (event : Event) (s : Store)
      → (request_reward rc redis_get user_id event_id metadata now event s).1.events ≡ s.events
  unfolding request_reward
  request_reward_events user_id event_id metadata now event s =
      elim (Bool-cases (is_active event.status)) [
        | inr off ↦ rw off
        | inl on ↦ elim (Bool-cases (is_out_of_period now event)) [
          | inl out ↦ rw (on, out)
          | inr running ↦ rw (on, running)
        ]
      ]

  Effect-ClaimEffect :
      (user_id event_id : String) (s t : Store)
      → HasEvent event_id s.events
      → t.events ≡ s.events
      → Effect user_id event_id s.requests t.requests
      → ClaimEffect s t
  Effect-ClaimEffect user_id event_id s t there e (Effect.same q) =
      ClaimEffect.same (λ i. record { events = e i; requests = q i })
  Effect-ClaimEffect user_id event_id s t there e (Effect.added n u v m a q) =
      ClaimEffect.added n (rw v there) a (λ i. record { events = e i; requests = q i })

  pub create_event_reward_request-ClaimEffect :
      (user_id : String) (dto : CreateRewardRequestDto) (now : ℕ) (s : Store)
      → ClaimEffect s (create_event_reward_request ec rc redis_get user_id dto now s).1
  unfolding create_event_reward_request
  create_event_reward_request-ClaimEffect user_id dto now s = elim (Option-cases dto.metadata) [
    | inl q ↦ rw (q, create_event_reward_request) (ClaimEffect.same refl)
    | inr (metadata, q) ↦ elim (find_one-Looked ec dto.event_id false s.events) [
      | Looked.failed m z ↦ rw (q, z, create_event_reward_request) (ClaimEffect.same refl)
      | Looked.missing n z ↦ rw (q, z, create_event_reward_request) (ClaimEffect.same refl)
      | Looked.found t z ↦
          rw (q, z, create_event_reward_request)
            (Effect-ClaimEffect user_id dto.event_id s _ (Split-HasEvent dto.event_id s.events t)
              (request_reward_events user_id dto.event_id metadata now t.doc s)
              (request_reward-Effect rc redis_get user_id dto.event_id metadata now t.doc s))
    ]
  ]

module _ (ec : Collection Event same_id) (rc : Collection RewardRequest same_claim)
    (redis_get : String → Result (Option String)) where
  sent-ClaimEffect :
      (user : Option AuthUser) (dto : CreateRewardRequestDto) (now : ℕ) (s : Store)
      → ClaimEffect s
          ((sender_id user >>= λ user_id.
              create_event_reward_request ec rc redis_get user_id dto now)
            s).1
  sent-ClaimEffect none dto now s = ClaimEffect.same refl
  sent-ClaimEffect (some u) dto now s =
      create_event_reward_request-ClaimEffect ec rc redis_get u.user_id dto now s

  pub create_reward_request-ClaimEffect :
      (payload : RewardRequestPayload) (now : ℕ) (s : Store)
      → ClaimEffect s (create_reward_request ec rc redis_get payload now s).1
  unfolding create_reward_request
  create_reward_request-ClaimEffect payload now s = sent-ClaimEffect payload.user payload.body now s

-- The creation of an event leaves the events or adds one.
pub create_event-added :
    (c : Collection Event same_id) (date : String → ℕ) (user : Option AuthUser)
    (dto : CreateEventDto) (id : String) (now : ℕ) (ds : Events)
    → ((create_event c date user dto id now ds).1 ≡ ds)
      ⊎ ((e : Event) × ((create_event c date user dto id now ds).1 ≡ ds ++ e ∷ []))
unfolding create_event create
create_event-added c date none dto id now ds = inl refl
create_event-added c date (some u) dto id now ds =
    elim (Bool-cases (leb (date dto.end_date) (date dto.start_date))) [
      | inl b ↦ rw b (inl refl)
      | inr b ↦ elim (c.save_law (new_event date dto u.user_id id now) ds) [
        | Saved.failed m q ↦ rw (b, q) (inl refl)
        | Saved.added g q ↦ rw (b, q) (inr (new_event date dto u.user_id id now, refl))
      ]
    ]
