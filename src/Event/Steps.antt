-- ===== src/Event/Steps.antt =====
-- Requests of several clients interleaved: what every sequence of writes to the event collection
-- keeps. A step is one `await` that may write; `update` is its read, which changes nothing, and then
-- the step `committed`.
use msa_tuto_server.Base.{
  ℕ, ◌<◌, String, ◌≡◌, ◌≢◌, false, ◌&&◌, ◌==◌, Option, map, arith, All, Distinct,
}
use msa_tuto_server.Http.{ok}
use msa_tuto_server.Mongo.{Collection}
use msa_tuto_server.Event.Model.{is_deleted, Event, CreateEventDto, UpdateEventDto, Events, same_id}
use msa_tuto_server.Event.Query.{by_id}
use msa_tuto_server.Event.Write.{
  update_document, remove_document, restore_document, by_version, create, commit_update, remove,
  restore, prepare_update,
}

-- What the service promises of the collection.
pub record IsConsistent (ds : Events) : Type 0 where
  -- no two events share an id
  pub ids : Distinct (map (λ e. e.id) ds)
  -- every event ends after it starts
  pub periods : All (λ e. e.start_date < e.end_date) ds

module _ (c : Collection Event same_id) where
  -- What a method makes of the driver's answer does not change what was written.
  pub commit_update-state :
      (id : String) (dto : UpdateEventDto) (by : Option String) (version : ℕ) (period : ℕ × ℕ)
      (ds : Events)
      → (commit_update c id dto by version period ds).1
        ≡ (c.find_one_and_update
            (by_version id version)
            (update_document dto period.0 period.1 by)
            ds).1
  unfolding commit_update
  commit_update-state id dto by version period ds = ground arith

  pub remove-state :
      (id by : String) (now : ℕ) (ds : Events)
      → (remove c id by now ds).1
        ≡ (c.find_one_and_update (by_id id false) (remove_document by now) ds).1
  unfolding remove
  remove-state id by now ds = ground arith

  pub restore-state :
      (id by : String) (ds : Events)
      → (restore c id by ds).1
        ≡ (c.find_one_and_update (λ e. e.id == id && is_deleted e) (restore_document by) ds).1
  unfolding restore
  restore-state id by ds = ground arith

-- One write by some request. `update` reaches `committed` with the period that its first half gave.
pub data Step (c : Collection Event same_id) (date : String → ℕ) (ds : Events)
    : Events → Type 0 where
  created :
      (dto : CreateEventDto) (by id : String) (now : ℕ)
      → All (λ e. e.id ≢ id) ds
      → Step c date ds (create c date dto by id now ds).1
  committed :
      (id : String) (dto : UpdateEventDto) (by : Option String) (version : ℕ) (period : ℕ × ℕ)
      (earlier : Events)
      → prepare_update c date id dto version earlier ≡ (ok period, earlier)
      → Step c date ds (commit_update c id dto by version period ds).1
  removed : (id by : String) (now : ℕ) → Step c date ds (remove c id by now ds).1
  restored : (id by : String) → Step c date ds (restore c id by ds).1

pub data Steps (c : Collection Event same_id) (date : String → ℕ) (ds : Events)
    : Events → Type 0 where
  here : Steps c date ds ds
  next : {es fs : Events} → Steps c date ds es → Step c date es fs → Steps c date ds fs

module _ (c : Collection Event same_id) (date : String → ℕ) where
  -- The period that the first half of an update hands on is a proper one.
  pub prepare_update-lt :
      (id : String) (dto : UpdateEventDto) (version : ℕ) (period : ℕ × ℕ) (ds es : Events)
      → prepare_update c date id dto version ds ≡ (ok period, es)
      → period.0 < period.1
  unfolding prepare_update
  prepare_update-lt id dto version period ds es h = ground arith
