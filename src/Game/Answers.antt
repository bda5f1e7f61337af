-- ===== src/Game/Answers.antt =====
-- The four things that a request can do to the data of the game event server.
use msa_tuto_server.Base.{
  ℕ, String, ◌≡◌, refl, sym, ◌∙◌, ap, subst, Bool, true, false, ◌||◌, Option, none, some, List, [],
  ◌∷◌, ◌++◌, includes, All, Bool-cases, inl, inr, ◌⊎◌, is_some, arith,
}
use msa_tuto_server.Http.{M}
use msa_tuto_server.Http.Moves.{Moves, pure_state, Stays}
use msa_tuto_server.Access.{AuthUser, guarded, jwt_guard, roles_guard}
use msa_tuto_server.Event.Model.{Event, Events}
use msa_tuto_server.Reward.Model.{Reward, Rewards, Catalogue}
use msa_tuto_server.EventRequest.Model.{RewardRequest}
use msa_tuto_server.EventRequest.Service.{Store}
use msa_tuto_server.EventRequest.Unique.{IsApart}
use msa_tuto_server.EventRequest.Controller.{create_reward_request}
use msa_tuto_server.Game.Server.{
  World, Data, on_events, on_rewards, on_claims, Ask, post_event, get_events, get_active, get_event,
  put_event, add_reward, get_rewards, get_reward, get_rewards_of, get_available, ask_eligibility,
  get_history, get_whole_history, message, Reply, one_event, one_request, staff_roles, user_role,
  audit_roles, reply, answer,
}
use msa_tuto_server.Game.Reads.{
  find_event-Stays, update_event-Stays, get_eligibility-Stays, get_all_rewards-Stays,
  get_reward_by_id-Stays, get_rewards_by_event_id-Stays,
}
use msa_tuto_server.Game.Effects.{
  HasEvent, RewardEffect, post_reward-RewardEffect, ClaimEffect, create_reward_request-ClaimEffect,
  create_event-added,
}

-- The caller has one of the roles OPERATOR and ADMIN.
abbrev pub IsStaff : Option AuthUser → Type 0
IsStaff caller =
    (u : AuthUser) × (caller ≡ some u)
    × ((includes u.roles "OPERATOR" || includes u.roles "ADMIN") ≡ true)

-- What a request does: nothing, or it adds one document.
pub data DataEffect (caller : Option AuthUser) (s t : Data) : Type 0 where
  same : t ≡ s → DataEffect caller s t
  event_added :
      (e : Event)
      → IsStaff caller
      → t ≡ record s { events = s.events ++ e ∷ [] }
      → DataEffect caller s t
  reward_added :
      (r : Reward)
      → IsStaff caller
      → HasEvent r.event_id s.events
      → t ≡ record s { rewards = s.rewards ++ r ∷ [] }
      → DataEffect caller s t
  request_added :
      (q : RewardRequest)
      → HasEvent q.event_id s.events
      → All (IsApart q) s.requests
      → t ≡ record s { requests = s.requests ++ q ∷ [] }
      → DataEffect caller s t

module _ (P : Data → Type 0) (s : Data) where
  -- What holds of staying and of the handler holds of the handler behind its guards.
  guarded-kept :
      {A : Type 0} (is_public : Bool) (required : Option (List String)) (caller : Option AuthUser)
      (handler : M Data A)
      → P s
      → P (handler s).1
      → P (guarded is_public required caller handler s).1
  guarded-kept is_public required caller handler h k =
      elim (Bool-cases (jwt_guard is_public (is_some caller))) [
        | inr f ↦ rw f h
        | inl t ↦ elim (Bool-cases (roles_guard required caller)) [
          | inr g ↦ rw (t, g) h
          | inl r ↦ rw (t, r) k
        ]
      ]

  staff_guard :
      (u : AuthUser)
      → roles_guard staff_roles (some u) ≡ true
      → (includes u.roles "OPERATOR" || includes u.roles "ADMIN") ≡ true
  unfolding roles_guard
  staff_guard u h = ground arith

  guarded-staff :
      {A : Type 0} (caller : Option AuthUser) (handler : M Data A)
      → P s
      → (IsStaff caller → P (handler s).1)
      → P (guarded false staff_roles caller handler s).1
  unfolding jwt_guard
  guarded-staff none handler h k = h
  guarded-staff (some u) handler h k = elim (Bool-cases (roles_guard staff_roles (some u))) [
    | inr f ↦ rw f h
    | inl t ↦ rw t (k (u, refl, staff_guard u t))
  ]

module _ (world : World) (caller : Option AuthUser) (now : ℕ) (s : Data) where
  kept :
      {A : Type 0} (is_public : Bool) (required : Option (List String)) (f : A → Reply)
      (m : M Data A)
      → (m s).1 ≡ s
      → DataEffect caller s (guarded is_public required caller (reply f m) s).1
  kept is_public required f m h =
      guarded-kept (DataEffect caller s) s is_public required caller (reply f m)
        (DataEffect.same refl) (DataEffect.same (pure_state (m s) f ∙ h))

  in_events : {A : Type 0} (m : M Events A) → Moves Stays m → (on_events m s).1 ≡ s
  in_events m h = ap (λ es. record s { events = es }) (h.run s.events)

  in_rewards : {A : Type 0} (m : M Rewards A) → Moves Stays m → (on_rewards m s).1 ≡ s
  in_rewards m h = ap (λ rs. record s { rewards = rs }) (h.run s.rewards)

  in_claims : {A : Type 0} (m : M Store A) → Moves Stays m → (on_claims m s).1 ≡ s
  in_claims m h =
      ap (λ (z : Store). record s { events = z.events; requests = z.requests })
        (h.run (record { events = s.events; requests = s.requests }))

  event_made :
      (es : Events)
      → IsStaff caller
      → (es ≡ s.events) ⊎ ((e : Event) × (es ≡ s.events ++ e ∷ []))
      → DataEffect caller s (record s { events = es })
  event_made es staff (inl q) = DataEffect.same (ap (λ z. record s { events = z }) q)
  event_made es staff (inr (e, q)) =
      DataEffect.event_added e staff (ap (λ z. record s { events = z }) q)

  reward_made :
      (t : Catalogue)
      → IsStaff caller
      → RewardEffect (record { events = s.events; rewards = s.rewards }) t
      → DataEffect caller s (record s { events = t.events; rewards = t.rewards })
  reward_made t staff (RewardEffect.same q) =
      DataEffect.same
        (ap (λ (z : Catalogue). record s { events = z.events; rewards = z.rewards }) q)
  reward_made t staff (RewardEffect.added r there q) =
      DataEffect.reward_added r staff there
        (ap (λ (z : Catalogue). record s { events = z.events; rewards = z.rewards }) q)

  claim_made :
      (t : Store)
      → ClaimEffect (record { events = s.events; requests = s.requests }) t
      → DataEffect caller s (record s { events = t.events; requests = t.requests })
  claim_made t (ClaimEffect.same q) =
      DataEffect.same (ap (λ (z : Store). record s { events = z.events; requests = z.requests }) q)
  claim_made t (ClaimEffect.added r there apart q) =
      DataEffect.request_added r there apart
        (ap (λ (z : Store). record s { events = z.events; requests = z.requests }) q)

  -- A handler behind the staff guard, with its reply.
  made :
      {A : Type 0} (f : A → Reply) (m : M Data A)
      → (IsStaff caller → DataEffect caller s (m s).1)
      → DataEffect caller s (guarded false staff_roles caller (reply f m) s).1
  made f m h =
      guarded-staff (DataEffect caller s) s caller (reply f m) (DataEffect.same refl)
        (λ staff. rw (pure_state (m s) f) (h staff))

  -- Whatever a request asks for and however it is answered, it changes and removes no document, and
  -- adds at most one: an event or a reward, if the caller has the role OPERATOR or ADMIN, the reward
  -- for an event that is there; or a reward request of an event that is there, the first of its user
  -- for that event.
  pub answer-DataEffect : (ask : Ask) → DataEffect caller s (answer world caller now ask s).1
  unfolding answer
  answer-DataEffect (post_event dto id) = made one_event _ (λ staff.
      event_made _ staff
        (create_event-added world.event_collection world.date caller dto id now s.events))
  answer-DataEffect (get_events filter) =
      guarded-kept (DataEffect caller s) s false staff_roles caller _ (DataEffect.same refl)
        (DataEffect.same refl)
  answer-DataEffect (get_active page limit) =
      guarded-kept (DataEffect caller s) s true none caller _ (DataEffect.same refl)
        (DataEffect.same refl)
  answer-DataEffect (get_event id include_deleted) =
      kept true none _ _ (in_events _ (find_event-Stays world.event_collection id include_deleted))
  answer-DataEffect (put_event id dto) =
      kept false staff_roles _ _
        (in_events _ (update_event-Stays world.event_collection world.date caller id dto))
  answer-DataEffect (add_reward dto id) = made _ _ (λ staff. reward_made _ staff (
      post_reward-RewardEffect world.is_object_id world.event_collection world.reward_collection
        caller dto id now (record { events = s.events; rewards = s.rewards })))
  answer-DataEffect get_rewards =
      kept false none _ _
        (in_rewards _ (get_all_rewards-Stays world.is_object_id world.reward_collection))
  answer-DataEffect (get_reward id) =
      kept false none _ _
        (in_rewards _ (get_reward_by_id-Stays world.is_object_id world.reward_collection id))
  answer-DataEffect (get_rewards_of event_id) =
      kept false none _ _
        (in_rewards _ (get_rewards_by_event_id-Stays world.is_object_id world.find event_id))
  answer-DataEffect (get_available page limit) =
      guarded-kept (DataEffect caller s) s false user_role caller _ (DataEffect.same refl)
        (DataEffect.same refl)
  answer-DataEffect (ask_eligibility event_id) = kept false user_role _ _ (
      in_claims _
        (get_eligibility-Stays world.event_collection world.request_collection caller event_id now))
  answer-DataEffect (get_history filter) = kept false user_role _ _ refl
  answer-DataEffect (get_whole_history filter) = kept false audit_roles _ _ refl
  answer-DataEffect (message payload redis_get) =
      let claim =
        create_reward_request world.event_collection world.request_collection redis_get payload
          now in
      subst (DataEffect caller s) (sym (pure_state (on_claims claim s) one_request)) (
        claim_made _ (
          create_reward_request-ClaimEffect world.event_collection world.request_collection
            redis_get payload now (record { events = s.events; requests = s.requests })))
