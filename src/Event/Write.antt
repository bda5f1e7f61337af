-- ===== src/Event/Write.antt =====
-- The writes of modules/event/event.service.ts. The clock and the ObjectId of a new document are
-- arguments.
use msa_tuto_server.Base.{
  ℕ, ◌+◌, String, Bool, false, ◌&&◌, Option, none, some, List, [], ◌∷◌, ◌++◌, ◌==◌, eqb, leb,
  if◌then◌else◌, or_else, template,
}
use msa_tuto_server.Http.{bad_request, not_found, conflict, M, pure, throw, ◌>>=◌, ◌>>◌}
use msa_tuto_server.Mongo.{Update, Collection}
use msa_tuto_server.Event.Model.{
  inactive, Event, CreateEventDto, UpdateEventDto, Events, same_id, is_live, is_deleted, given,
}
use msa_tuto_server.Event.Query.{missing_event, or_throw, by_id, find_one}

abbrev pub period_message : String
period_message = "종료일은 시작일보다 이후여야 합니다."

abbrev pub stale_message : String
stale_message = "이벤트가 다른 사용자에 의해 수정되었습니다. 최신 데이터를 조회한 후 다시 시도하세요."

abbrev pub lost_message : String
lost_message = "이벤트가 다른 사용자에 의해 수정되었거나 삭제되었습니다. 최신 데이터를 조회한 후 다시 시도하세요."

-- The paths that `{ ...updateEventDto, startDate, endDate, updatedBy }` sets: a key of the DTO that
-- was not given is not set.
unfoldable pub set_paths : UpdateEventDto → List String
set_paths dto =
    given "name" dto.name
    ++ (given "description" dto.description
        ++ (given "type" dto.type
            ++ (given "condition" dto.condition
                ++ (given "status" dto.status
                    ++ ("version" ∷ "startDate" ∷ "endDate" ∷ "updatedBy" ∷ [])))))

unfoldable pub update_document : UpdateEventDto → ℕ → ℕ → Option String → Update Event
update_document dto start_date end_date updated_by = record {
  set_paths = set_paths dto;
  inc_paths = "version" ∷ [];
  change = λ e. record e {
    name = or_else dto.name e.name;
    description = or_else dto.description e.description;
    type = or_else dto.type e.type;
    condition = or_else dto.condition e.condition;
    status = or_else dto.status e.status;
    start_date = start_date;
    end_date = end_date;
    updated_by = updated_by;
    version = e.version + 1;
  };
}

-- the filter of the write in `update`
abbrev pub by_version : String → ℕ → Event → Bool
by_version id version e = e.id == id && eqb e.version version && is_live e

-- `{ deletedAt, deletedBy, $inc: { version: 1 } }`
unfoldable pub remove_document : String → ℕ → Update Event
remove_document deleted_by now = record {
  set_paths = "deletedAt" ∷ "deletedBy" ∷ [];
  inc_paths = "version" ∷ [];
  change = λ e. record e {
    deleted_at = some now;
    deleted_by = some deleted_by;
    version = e.version + 1;
  };
}

-- `{ deletedAt: null, deletedBy: null, updatedBy, $inc: { version: 1 } }`
unfoldable pub restore_document : String → Update Event
restore_document restored_by = record {
  set_paths = "deletedAt" ∷ "deletedBy" ∷ "updatedBy" ∷ [];
  inc_paths = "version" ∷ [];
  change = λ e. record e {
    deleted_at = none;
    deleted_by = none;
    updated_by = some restored_by;
    version = e.version + 1;
  };
}

-- The document that `create` saves.
abbrev pub new_event : (date : String → ℕ) → CreateEventDto → String → String → ℕ → Event
new_event date dto created_by id now = record {
  id = id;
  name = dto.name;
  description = dto.description;
  type = dto.type;
  condition = dto.condition;
  start_date = date dto.start_date;
  end_date = date dto.end_date;
  status = or_else dto.status inactive;
  created_by = created_by;
  updated_by = none;
  version = 0;
  deleted_at = none;
  deleted_by = none;
  created_at = now;
}

module _ (c : Collection Event same_id) where
  -- The second half: one atomic `findOneAndUpdate`.
  unfoldable pub commit_update :
      String → UpdateEventDto → Option String → ℕ → ℕ × ℕ → M Events Event
  commit_update id dto updated_by version period = do
    updated ←
        c.find_one_and_update (by_version id version)
          (update_document dto period.0 period.1 updated_by)
    or_throw (conflict lost_message) updated

  unfoldable pub remove : String → String → ℕ → M Events String
  remove id deleted_by now = do
    result ← c.find_one_and_update (by_id id false) (remove_document deleted_by now)
    or_throw (not_found (template ("이벤트 ID " ∷ id ∷ "를 찾을 수 없거나 이미 삭제되었습니다." ∷ []))) result
    pure id

  unfoldable pub permanently_remove : String → M Events String
  permanently_remove id = do
    deleted_count ← c.delete_one (λ e. e.id == id)
    if eqb deleted_count 0 then throw (not_found (missing_event id)) else pure id

  unfoldable pub restore : String → String → M Events Event
  restore id restored_by = do
    restored ←
        c.find_one_and_update (λ e. e.id == id && is_deleted e) (restore_document restored_by)
    or_throw (not_found (template ("이벤트 ID " ∷ id ∷ "를 찾을 수 없거나 이미 삭제되지 않은 상태입니다." ∷ []))) restored

module _ (c : Collection Event same_id) (date : String → ℕ) where
  -- `create`, with the ObjectId and the time that the new document gets
  unfoldable pub create : CreateEventDto → String → String → ℕ → M Events Event
  create dto created_by id now =
      let start_date = date dto.start_date in
      let end_date = date dto.end_date in
      if leb end_date start_date
      then throw (bad_request period_message)
      else c.save (new_event date dto created_by id now)

  -- The first half of `update`: the read and the checks, up to the `await` of the write. It gives the
  -- period that is to be written.
  unfoldable pub prepare_update : String → UpdateEventDto → ℕ → M Events (ℕ × ℕ)
  prepare_update id dto version = do
    event ← find_one c id false
    let start_date : ℕ = elim dto.start_date [ none ↦ event.start_date | some t ↦ date t ]
    let end_date : ℕ = elim dto.end_date [ none ↦ event.end_date | some t ↦ date t ]
    if leb end_date start_date
        then throw (bad_request period_message)
        else if eqb event.version version
        then pure (start_date, end_date)
        else throw (conflict stale_message)

  unfoldable pub update : String → UpdateEventDto → Option String → ℕ → M Events Event
  update id dto updated_by version = do
    period ← prepare_update id dto version
    commit_update c id dto updated_by version period
