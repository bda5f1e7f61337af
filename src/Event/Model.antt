-- ===== src/Event/Model.antt =====
-- modules/event/schemas/event.schema.ts and the DTOs of modules/event/dto: the documents of the event
-- collection and what requests carry. Dates are instants in milliseconds; a date in a DTO is a text.
use msa_tuto_server.Base.{
  ℕ, ◌+◌, ◌-◌, ◌/◌, String, Bool, true, false, Option, none, some, List, [], ◌∷◌, ◌==◌,
}

pub data EventType : Type 0 where
  login friend_invitation level_up time_period achievement purchase : EventType
  daily_mission item_collection : EventType

pub data EventStatus : Type 0 where
  active inactive : EventStatus

abbrev pub is_active : EventStatus → Bool
is_active active = true
is_active inactive = false

-- `additionalData` is any object; of its keys the services read `timeRange` alone.
pub record TimeRange : Type 0 where
  pub start_hour : ℕ
  pub end_hour : ℕ

pub record EventCondition : Type 0 where
  pub type : String
  pub value : ℕ
  pub time_range : Option TimeRange

pub record Event : Type 0 where
  pub id : String
  pub name : String
  pub description : String
  pub type : EventType
  pub condition : EventCondition
  pub start_date : ℕ
  pub end_date : ℕ
  pub status : EventStatus
  pub created_by : String
  pub updated_by : Option String
  pub version : ℕ
  pub deleted_at : Option ℕ
  pub deleted_by : Option String
  pub created_at : ℕ

pub record CreateEventDto : Type 0 where
  pub name : String
  pub description : String
  pub type : EventType
  pub condition : EventCondition
  pub start_date : String
  pub end_date : String
  pub status : Option EventStatus

pub record UpdateEventDto : Type 0 where
  pub name : Option String
  pub description : Option String
  pub type : Option EventType
  pub condition : Option EventCondition
  pub start_date : Option String
  pub end_date : Option String
  pub status : Option EventStatus
  pub version : ℕ

-- `@Query` values after validation; `includeDeleted` has its default.
pub record EventFilterDto : Type 0 where
  pub page : Option ℕ
  pub limit : Option ℕ
  pub status : Option EventStatus
  pub type : Option EventType
  pub start_date : Option String
  pub end_date : Option String
  pub include_deleted : Bool

pub record PaginatedResponseDto (T : Type 0) : Type 0 where
  pub items : List T
  pub total : ℕ
  pub page : ℕ
  pub limit : ℕ
  pub pages : ℕ

-- `Math.ceil(total / limit)`, for a limit above 0
abbrev pub ceil_div : ℕ → ℕ → ℕ
ceil_div total limit = (total + (limit - 1)) / limit

unfoldable pub paginated : {T : Type 0} → List T → ℕ → ℕ → ℕ → PaginatedResponseDto T
paginated items total page limit = record {
  items = items;
  total = total;
  page = page;
  limit = limit;
  pages = ceil_div total limit;
}

-- Events have no unique index but that of `_id`.
abbrev pub same_id : Event → Event → Bool
same_id d e = d.id == e.id

abbrev pub Events : Type 0
Events = List Event

abbrev pub is_live : Event → Bool
is_live e = elim e.deleted_at [ none ↦ true | some t ↦ false ]

abbrev pub is_deleted : Event → Bool
is_deleted e = elim e.deleted_at [ none ↦ false | some t ↦ true ]

-- Two fields of a type agree: the equality filters of a query.
abbrev pub same_status : EventStatus → EventStatus → Bool
same_status active active = true
same_status inactive inactive = true
same_status _ _ = false

abbrev pub type_number : EventType → ℕ
type_number login = 0
type_number friend_invitation = 1
type_number level_up = 2
type_number time_period = 3
type_number achievement = 4
type_number purchase = 5
type_number daily_mission = 6
type_number item_collection = 7

-- A filter that is set only if the option was given.
abbrev pub when_given : {A : Type 0} → Option A → (A → Bool) → Bool
when_given none test = true
when_given (some a) test = test a

-- The key of an optional field, if the field was given.
abbrev pub given : {A : Type 0} → String → Option A → List String
given key none = []
given key (some a) = key ∷ []
