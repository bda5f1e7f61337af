-- ===== src/EventRequest/Model.antt =====
-- modules/event-request/schemas/reward-request.schema.ts and the DTOs beside it.
use msa_tuto_server.Base.{ℕ, String, Bool, ◌&&◌, ◌==◌, Option, List}

pub data RequestStatus : Type 0 where
  pending approved rejected failed : RequestStatus

abbrev pub status_number : RequestStatus → ℕ
status_number pending = 0
status_number approved = 1
status_number rejected = 2
status_number failed = 3

-- The metadata of a request is any object; of its keys the service reads `messageId` alone.
pub record Metadata : Type 0 where
  pub message_id : Option String

pub record RewardRequest : Type 0 where
  pub user_id : String
  pub event_id : String
  pub status : RequestStatus
  pub reason : Option String
  pub metadata : Metadata
  pub processed_at : ℕ
  pub processed_by : String
  pub created_at : ℕ

abbrev pub RewardRequests : Type 0
RewardRequests = List RewardRequest

-- The unique index `{ userId: 1, eventId: 1 }`.
abbrev pub same_claim : RewardRequest → RewardRequest → Bool
same_claim r s = r.user_id == s.user_id && r.event_id == s.event_id

-- `headers` is not read.
pub record CreateRewardRequestDto : Type 0 where
  pub event_id : String
  pub metadata : Option Metadata

pub data ℤ : Type 0 where
  pos negsuc : ℕ → ℤ

-- A number of a query: one that `parseInt` made of its text, or the text as it was sent, where the
-- query is not transformed, by the integer it reads as, none if it is no number. No number that
-- `parseInt` can make, and an empty text, count as not given.
pub data QueryNumber : Type 0 where
  number : ℤ → QueryNumber
  text : Option ℤ → QueryNumber

-- The query of a listing; a text that is empty counts as not given.
pub record RewardRequestFilterDto : Type 0 where
  pub user_id : Option String
  pub event_id : Option String
  pub status : Option RequestStatus
  pub start_date : Option String
  pub end_date : Option String
  pub page : Option QueryNumber
  pub limit : Option QueryNumber
  pub sort_by : Option String
  pub sort_order : Option String
