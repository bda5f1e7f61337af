-- ===== src/Game/History.antt =====
-- What every sequence of requests and messages keeps of the data of the game event server.
use msa_tuto_server.Base.{
  String, ◌≡◌, refl, sym, ◌∙◌, ap, subst, Option, List, [], ◌∷◌, ◌++◌, ◌==◌, All, All-append,
  All-mono, Bool-cases, inl, inr,
}
use msa_tuto_server.Event.Model.{Event, Events}
use msa_tuto_server.Reward.Model.{Reward}
use msa_tuto_server.EventRequest.Model.{RewardRequest}
use msa_tuto_server.EventRequest.Unique.{IsOnePerClaim, IsOnePerClaim-snoc}
use msa_tuto_server.Game.Server.{World, Data, Exchange, answer, serve_all}
use msa_tuto_server.Game.Effects.{HasEvent}
use msa_tuto_server.Game.Answers.{IsStaff, DataEffect, answer-DataEffect}

-- Rewards and requests are of events that are there, and no user has two requests for one event.
pub record IsIntact (s : Data) : Type 0 where
  pub rewards_linked : All (λ r. HasEvent r.event_id s.events) s.rewards
  pub requests_linked : All (λ q. HasEvent q.event_id s.events) s.requests
  pub one_per_claim : IsOnePerClaim s.requests

-- The later list is the earlier one with more at its end.
abbrev pub IsExtended : {A : Type 0} → List A → List A → Type 0
IsExtended xs ys = (zs : List _) × (ys ≡ xs ++ zs)

-- The events, the rewards and the requests are those from before, unchanged, and new ones.
pub record IsGrown (s t : Data) : Type 0 where
  pub events_grown : IsExtended s.events t.events
  pub rewards_grown : IsExtended s.rewards t.rewards
  pub requests_grown : IsExtended s.requests t.requests

HasEvent-append :
    (id : String) (es : Events) (e : Event) → HasEvent id es → HasEvent id (es ++ e ∷ [])
HasEvent-append id [] e h = absurd (cc h)
HasEvent-append id (d ∷ es) e h = elim (Bool-cases (d.id == id)) [
  | inl t ↦ rw t
  | inr f ↦ rw f (HasEvent-append id es e (rw f at h))
]

DataEffect-IsIntact :
    (caller : Option _) (s t : Data) → DataEffect caller s t → IsIntact s → IsIntact t
DataEffect-IsIntact caller s t (DataEffect.same q) h = subst IsIntact (sym q) h
DataEffect-IsIntact caller s t (DataEffect.event_added e staff q) h =
    subst IsIntact (sym q) (record {
      rewards_linked =
          All-mono (λ (r : Reward). HasEvent-append r.event_id s.events e) s.rewards
            h.rewards_linked;
      requests_linked =
          All-mono (λ (r : RewardRequest). HasEvent-append r.event_id s.events e) s.requests
            h.requests_linked;
      one_per_claim = h.one_per_claim;
    })
DataEffect-IsIntact caller s t (DataEffect.reward_added r staff there q) h =
    subst IsIntact (sym q) (record {
      rewards_linked =
          All-append (λ (z : Reward). HasEvent z.event_id s.events) s.rewards (r ∷ [])
            h.rewards_linked (there, tt);
      requests_linked = h.requests_linked;
      one_per_claim = h.one_per_claim;
    })
DataEffect-IsIntact caller s t (DataEffect.request_added r there apart q) h =
    subst IsIntact (sym q) (record {
      rewards_linked = h.rewards_linked;
      requests_linked =
          All-append (λ (z : RewardRequest). HasEvent z.event_id s.events) s.requests (r ∷ [])
            h.requests_linked (there, tt);
      one_per_claim = IsOnePerClaim-snoc s.requests r h.one_per_claim apart;
    })

append_none : {A : Type 0} (xs : List A) → xs ≡ xs ++ []
append_none [] = refl
append_none (x ∷ xs) = ap (λ l. x ∷ l) (append_none xs)

append_assoc : {A : Type 0} (xs ys zs : List A) → (xs ++ ys) ++ zs ≡ xs ++ (ys ++ zs)
append_assoc [] ys zs = refl
append_assoc (x ∷ xs) ys zs = ap (λ l. x ∷ l) (append_assoc xs ys zs)

IsExtended-refl : {A : Type 0} (xs : List A) → IsExtended xs xs
IsExtended-refl xs = ([], append_none xs)

IsExtended-trans :
    {A : Type 0} (xs ys zs : List A) → IsExtended xs ys → IsExtended ys zs → IsExtended xs zs
IsExtended-trans xs ys zs (us, h) (vs, k) =
    (us ++ vs, k ∙ ap (λ l. l ++ vs) h ∙ append_assoc xs us vs)

stays-IsGrown : (s : Data) → IsGrown s s
stays-IsGrown s = record {
  events_grown = IsExtended-refl s.events;
  rewards_grown = IsExtended-refl s.rewards;
  requests_grown = IsExtended-refl s.requests;
}

IsGrown-trans : (s t u : Data) → IsGrown s t → IsGrown t u → IsGrown s u
IsGrown-trans s t u h k = record {
  events_grown = IsExtended-trans s.events t.events u.events h.events_grown k.events_grown;
  rewards_grown = IsExtended-trans s.rewards t.rewards u.rewards h.rewards_grown k.rewards_grown;
  requests_grown =
      IsExtended-trans s.requests t.requests u.requests h.requests_grown k.requests_grown;
}

DataEffect-IsGrown : (caller : Option _) (s t : Data) → DataEffect caller s t → IsGrown s t
DataEffect-IsGrown caller s t (DataEffect.same q) = subst (IsGrown s) (sym q) (stays-IsGrown s)
DataEffect-IsGrown caller s t (DataEffect.event_added e staff q) =
    subst (IsGrown s) (sym q) (record {
      events_grown = (e ∷ [], refl);
      rewards_grown = IsExtended-refl s.rewards;
      requests_grown = IsExtended-refl s.requests;
    })
DataEffect-IsGrown caller s t (DataEffect.reward_added r staff there q) =
    subst (IsGrown s) (sym q) (record {
      events_grown = IsExtended-refl s.events;
      rewards_grown = (r ∷ [], refl);
      requests_grown = IsExtended-refl s.requests;
    })
DataEffect-IsGrown caller s t (DataEffect.request_added r there apart q) =
    subst (IsGrown s) (sym q) (record {
      events_grown = IsExtended-refl s.events;
      rewards_grown = IsExtended-refl s.rewards;
      requests_grown = (r ∷ [], refl);
    })

DataEffect-unstaffed :
    (caller : Option _) (s t : Data)
    → ¬ IsStaff caller
    → DataEffect caller s t
    → (t.events ≡ s.events) × (t.rewards ≡ s.rewards)
DataEffect-unstaffed caller s t barred (DataEffect.same q) =
    (ap (λ (z : Data). z.events) q, ap (λ (z : Data). z.rewards) q)
DataEffect-unstaffed caller s t barred (DataEffect.event_added e staff q) = absurd (barred staff)
DataEffect-unstaffed caller s t barred (DataEffect.reward_added r staff there q) =
    absurd (barred staff)
DataEffect-unstaffed caller s t barred (DataEffect.request_added r there apart q) =
    (ap (λ (z : Data). z.events) q, ap (λ (z : Data). z.rewards) q)

module _ (world : World) where
  -- If every reward and every reward request is of an event that is there, and no user has two
  -- requests for one event, then that holds after any sequence of requests and messages to the game
  -- event server, whoever sends them and however they are answered.
  pub serve_all-IsIntact :
      (xs : List Exchange) (s : Data) → IsIntact s → IsIntact (serve_all world xs s)
  unfolding serve_all
  serve_all-IsIntact [] s h = h
  serve_all-IsIntact (x ∷ xs) s h =
      serve_all-IsIntact xs _
        (DataEffect-IsIntact x.caller s _ (answer-DataEffect world x.caller x.now s x.ask) h)

  -- No sequence of requests and messages to the game event server changes or removes an event, a
  -- reward or a reward request: each of the three lists is the one from before with new documents at
  -- its end.
  pub serve_all-IsGrown : (xs : List Exchange) (s : Data) → IsGrown s (serve_all world xs s)
  unfolding serve_all
  serve_all-IsGrown [] s = stays-IsGrown s
  serve_all-IsGrown (x ∷ xs) s =
      IsGrown-trans s _ _
        (DataEffect-IsGrown x.caller s _ (answer-DataEffect world x.caller x.now s x.ask))
        (serve_all-IsGrown xs _)

  -- Over any requests and messages none of whose callers has the role OPERATOR or ADMIN, the events
  -- and the rewards stay as they were.
  pub serve_all_unstaffed :
      (xs : List Exchange) (s : Data)
      → All (λ x. ¬ IsStaff x.caller) xs
      → ((serve_all world xs s).events ≡ s.events) × ((serve_all world xs s).rewards ≡ s.rewards)
  unfolding serve_all
  serve_all_unstaffed [] s h = (refl, refl)
  serve_all_unstaffed (x ∷ xs) s h =
      let first =
        DataEffect-unstaffed x.caller s _ h.0 (answer-DataEffect world x.caller x.now s x.ask) in
      let later = serve_all_unstaffed xs (answer world x.caller x.now x.ask s).1 h.1 in
      (later.0 ∙ first.0, later.1 ∙ first.1)
