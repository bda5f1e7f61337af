-- ===== src/Game/Examples.antt =====
-- The game event server at work: tests, and the theorems at concrete inputs.
use msa_tuto_server.Base.{◌≡◌, refl, ◌∙◌, ap, ◌||◌, none, some, List, [], ◌∷◌, includes, filter}
use msa_tuto_server.Http.{ok, err, forbidden}
use msa_tuto_server.Access.{AuthUser, jwt_guard, roles_guard}
use msa_tuto_server.Event.Examples.{store, two_events, date}
use msa_tuto_server.Reward.Examples.{reward_store, is_id, for_event, two_rewards}
use msa_tuto_server.EventRequest.Examples.{claim_store, no_keys, metadata, for_summer}
use msa_tuto_server.Game.Server.{World, Data, Exchange, add_reward, message, answer, serve_all}
use msa_tuto_server.Game.Answers.{IsStaff}
use msa_tuto_server.Http.PlainErrors.{plain_errors, get_rewards_request}
use msa_tuto_server.Game.Filter.{IsInternalError, respond, respond-IsInternalError}
use msa_tuto_server.Game.History.{
  IsIntact, IsGrown, serve_all-IsIntact, serve_all-IsGrown, serve_all_unstaffed,
}

abbrev world : World
world = record {
  event_collection = store;
  reward_collection = reward_store;
  request_collection = claim_store;
  find = λ p rs. ok (filter p rs);
  is_object_id = is_id;
  date = date;
  key = λ field r. r.created_at;
}

abbrev start : Data
start = record { events = two_events; rewards = two_rewards; requests = [] }

start-IsIntact : IsIntact start
start-IsIntact = record {
  rewards_linked = (refl, (refl, tt));
  requests_linked = tt;
  one_per_claim = tt;
}

abbrev ann : AuthUser
ann = record { user_id = "u1"; email = some "ann@example.com"; roles = "USER" ∷ [] }

abbrev asks_reward : Exchange
asks_reward = record { caller = some ann; now = 90; ask = add_reward (for_event "e1") "r3" }

abbrev claims_summer : Exchange
claims_summer = record {
  caller = none;
  now = 150;
  ask = message (record { user = some ann; body = for_summer; metadata = metadata }) no_keys;
}

abbrev exchanges : List Exchange
exchanges = asks_reward ∷ claims_summer ∷ claims_summer ∷ []

refused_reward :
    answer world (some ann) 90 asks_reward.ask start ≡ (err (forbidden "Forbidden resource"), start)
unfolding answer jwt_guard roles_guard
refused_reward = refl

serve_all-IsIntact_example : IsIntact (serve_all world exchanges start)
serve_all-IsIntact_example = serve_all-IsIntact world exchanges start start-IsIntact

serve_all-IsGrown_example : IsGrown start (serve_all world exchanges start)
serve_all-IsGrown_example = serve_all-IsGrown world exchanges start

ann_barred : ¬ IsStaff (some ann)
ann_barred (u, q, h) =
    let same : ann ≡ u = cc q in
    absurd
      (cc (ap (λ (v : AuthUser). includes v.roles "OPERATOR" || includes v.roles "ADMIN") same ∙ h))

nobody_barred : ¬ IsStaff none
nobody_barred (u, q, h) = absurd (cc q)

serve_all_unstaffed_example :
    ((serve_all world exchanges start).events ≡ two_events)
    × ((serve_all world exchanges start).rewards ≡ two_rewards)
serve_all_unstaffed_example =
    serve_all_unstaffed world exchanges start (ann_barred, (nobody_barred, (nobody_barred, tt)))

respond-IsInternalError_example :
    IsInternalError
      (respond world plain_errors get_rewards_request (some ann) 90 asks_reward.ask start)
      start
respond-IsInternalError_example =
    respond-IsInternalError world plain_errors get_rewards_request (some ann) 90 start
      asks_reward.ask refl
