-- ===== src/Event/Examples.antt =====
-- Events at work: tests, and the theorems at concrete inputs.
use msa_tuto_server.Base.{ℕ, String, ◌≡◌, refl, none, some, [], ◌∷◌, ◌==◌, if◌then◌else◌}
use msa_tuto_server.Http.{err, bad_request}
use msa_tuto_server.Mongo.{Collection}
use msa_tuto_server.Mongo.Memory.{memory}
use msa_tuto_server.Event.Model.{
  Event, Events, EventCondition, login, friend_invitation, active, CreateEventDto, UpdateEventDto,
  same_id, paginated,
}
use msa_tuto_server.Event.Query.{page_of, find_active_events}
use msa_tuto_server.Event.Write.{create, remove, update, period_message}
use msa_tuto_server.Event.Steps.{Steps}
use msa_tuto_server.Event.Refusal.{update-IsRefused, IsRefused}

abbrev pub store : Collection Event same_id
store = memory same_id

-- A reading of dates for these inputs.
abbrev pub date : String → ℕ
date text = if text == "2025-06-30" then 200 else if text == "2025-06-01" then 100 else 0

abbrev pub condition : EventCondition
condition = record { type = "invite"; value = 3; time_range = none }

abbrev pub summer : Event
summer = record {
  id = "e1";
  name = "summer";
  description = "";
  type = friend_invitation;
  condition = condition;
  start_date = 100;
  end_date = 200;
  status = active;
  created_by = "admin";
  updated_by = none;
  version = 0;
  deleted_at = none;
  deleted_by = none;
  created_at = 10;
}

abbrev pub winter : Event
winter = record summer { id = "e2"; name = "winter"; created_at = 20 }

abbrev rename : ℕ → UpdateEventDto
rename version = record {
  name = some "sale";
  description = none;
  type = none;
  condition = none;
  start_date = none;
  end_date = none;
  status = none;
  version = version;
}

abbrev autumn : CreateEventDto
autumn = record {
  name = "autumn";
  description = "";
  type = login;
  condition = condition;
  start_date = "2025-06-01";
  end_date = "2025-06-30";
  status = none;
}

abbrev pub two_events : Events
two_events = summer ∷ winter ∷ []

create_backwards :
    (create store date (record autumn { end_date = "2025-05-01" }) "admin" "e3" 30 two_events).0
    ≡ err (bad_request period_message)
unfolding create
create_backwards = refl

find_active_events_newest_first :
    (find_active_events store none none two_events).items ≡ winter ∷ summer ∷ []
unfolding find_active_events page_of paginated memory
find_active_events_newest_first = refl

abbrev after_remove : Events
after_remove = (remove store "e1" "admin" 50 two_events).1

update-IsRefused_example :
    IsRefused two_events (update store date "e1" (rename 0) none 0 two_events)
update-IsRefused_example = update-IsRefused store date "e1" (rename 0) none 0 two_events
