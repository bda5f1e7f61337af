-- ===== src/Event/Query.antt =====
-- The queries of modules/event/event.service.ts: `findAll`, `findActiveEvents` and `findOne`. The
-- date constructor, which reads a text, is a parameter.
use msa_tuto_server.Base.{
  ℕ, ◌-◌, ◌*◌, String, Bool, true, ◌&&◌, Option, none, some, [], ◌∷◌, ◌==◌, eqb, leb, if◌then◌else◌,
  or_else, template,
}
use msa_tuto_server.Http.{Exception, not_found, M, pure, throw, ◌>>=◌}
use msa_tuto_server.Mongo.{Collection}
use msa_tuto_server.Event.Model.{
  Event, EventFilterDto, PaginatedResponseDto, paginated, Events, same_id, same_status, type_number,
  when_given, is_active, is_live,
}

abbrev pub missing_event : String → String
missing_event id = template ("이벤트 ID " ∷ id ∷ "를 찾을 수 없습니다." ∷ [])

-- `null` is the not-found exception of each method.
abbrev pub or_throw : Exception → Option Event → M Events Event
or_throw e none = throw e
or_throw e (some d) = pure d

-- the filter of `findOne`
abbrev pub by_id : String → Bool → Event → Bool
by_id id include_deleted e = e.id == id && (if include_deleted then true else is_live e)

module _ (date : String → ℕ) where
  -- the filter of `findAll`
  unfoldable pub event_filter : EventFilterDto → Event → Bool
  event_filter dto e =
      (if dto.include_deleted then true else is_live e)
      && when_given dto.status (same_status e.status)
      && when_given dto.type (λ t. eqb (type_number e.type) (type_number t))
      && when_given dto.start_date (λ t. leb (date t) e.start_date)
      && when_given dto.end_date (λ t. leb e.end_date (date t))

module _ (c : Collection Event same_id) where
  -- the two queries of a page, newest first
  unfoldable pub page_of : (Event → Bool) → ℕ → ℕ → Events → PaginatedResponseDto Event
  page_of p page limit ds =
      let skip = (page - 1) * limit in
      paginated (c.find p (λ e. e.created_at) true skip limit ds) (c.count_documents p ds) page
        limit

  unfoldable pub find_active_events : Option ℕ → Option ℕ → Events → PaginatedResponseDto Event
  find_active_events page limit =
      page_of (λ e. is_active e.status && is_live e) (or_else page 1) (or_else limit 10)

  unfoldable pub find_one : String → Bool → M Events Event
  find_one id include_deleted = do
    found ← (λ ds. (c.find_one (by_id id include_deleted) ds, ds))
    or_throw (not_found (missing_event id)) found

module _ (c : Collection Event same_id) (date : String → ℕ) where
  unfoldable pub find_all : EventFilterDto → Events → PaginatedResponseDto Event
  find_all dto = page_of c (event_filter date dto) (or_else dto.page 1) (or_else dto.limit 10)
