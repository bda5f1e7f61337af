-- ===== src/Event/Controller.antt =====
-- modules/event/event.controller.ts. The guards stand before these handlers.
use msa_tuto_server.Base.{ℕ, String, Bool, false, Option, none, some}
use msa_tuto_server.Http.{conflict, failure, Result, ok, err, M, pure, throw, ◌>>=◌}
use msa_tuto_server.Mongo.{Collection}
use msa_tuto_server.Access.{AuthUser, user_property}
use msa_tuto_server.Event.Model.{Event, CreateEventDto, UpdateEventDto, Events, same_id}
use msa_tuto_server.Event.Query.{find_one}
use msa_tuto_server.Event.Write.{create, update}

-- What the update handler answers; `outdated` is the ConflictException with `latestData`.
pub data UpdateAnswer : Type 0 where
  updated : Event → UpdateAnswer
  outdated : (message : String) → (latest_data : Event) → UpdateAnswer

module _ (c : Collection Event same_id) where
  unfoldable pub find_event : String → Bool → M Events Event
  find_event id include_deleted = find_one c id include_deleted

  -- The catch clause of `update`.
  abbrev pub with_latest : String → Result Event × Events → Result UpdateAnswer × Events
  with_latest id (ok e, ds) = (ok (updated e), ds)
  with_latest id (err (conflict m), ds) =
      (find_one c id false >>= (λ latest. pure (outdated m latest))) ds
  with_latest id (err e, ds) = (err e, ds)

module _ (c : Collection Event same_id) (date : String → ℕ) where
  -- Without a user, reading `userId` throws.
  unfoldable pub create_event :
      Option AuthUser → CreateEventDto → (id : String) → (now : ℕ) → M Events Event
  create_event none dto id now =
      throw (failure "Cannot read properties of undefined (reading 'userId')")
  create_event (some user) dto id now = create c date dto user.user_id id now

  -- The id of the user is that of `@User('id')`.
  unfoldable pub update_event : Option AuthUser → String → UpdateEventDto → M Events UpdateAnswer
  update_event user id dto ds =
      with_latest c id (update c date id dto (user_property "id" user) dto.version ds)
