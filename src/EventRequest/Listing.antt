-- ===== src/EventRequest/Listing.antt =====
-- `findAll` and `findByUserId` of services/reward-request.service.ts, and
-- dto/paginated-reward-requests.dto.ts. A text that stands for an ObjectId or a date is one.
use msa_tuto_server.Base.{
  ℕ, zero, suc, ◌*◌, ◌/◌, String, Bool, true, ◌&&◌, not, Option, none, some, ◌==◌, eqb, leb,
  if◌then◌else◌,
}
use msa_tuto_server.Http.{failure, Result, ok, err}
use msa_tuto_server.Mongo.{Collection}
use msa_tuto_server.Event.Model.{when_given, ceil_div}
use msa_tuto_server.EventRequest.Model.{
  ℤ, pos, negsuc, QueryNumber, number, text, status_number, RewardRequest, RewardRequests,
  same_claim, RewardRequestFilterDto,
}

-- The integer below.
abbrev pub pred : ℤ → ℤ
pred (pos zero) = negsuc 0
pred (pos (suc n)) = pos n
pred (negsuc n) = negsuc (suc n)

-- Minus `n`.
abbrev pub minus : ℕ → ℤ
minus zero = pos 0
minus (suc n) = negsuc n

infixl 30 ◌*ℤ◌
abbrev pub ◌*ℤ◌ : ℤ → ℤ → ℤ
pos m *ℤ pos n = pos (m * n)
pos m *ℤ negsuc n = minus (m * suc n)
negsuc m *ℤ pos n = minus (suc m * n)
negsuc m *ℤ negsuc n = pos (suc m * suc n)

abbrev pub magnitude : ℤ → ℕ
magnitude (pos n) = n
magnitude (negsuc n) = suc n

-- `Math.ceil(total / limit)`; no number for the limit 0.
abbrev pub page_count : ℕ → ℤ → Option ℤ
page_count total (pos zero) = none
page_count total (pos (suc n)) = some (pos (ceil_div total (suc n)))
page_count total (negsuc n) = some (minus (total / suc n))

pub record PaginatedRewardRequestsDto : Type 0 where
  pub items : RewardRequests
  pub total : ℕ
  pub page : ℤ
  pub limit : ℤ
  pub pages : Option ℤ

-- `filter.x` counts only if it is truthy.
abbrev pub when_truthy : Option String → (String → Bool) → Bool
when_truthy none test = true
when_truthy (some s) test = if s == "" then true else test s

-- `value || fallback`: a number that is 0 is falsy, and a text that is not empty is not. None is NaN.
abbrev pub or_number : Option QueryNumber → ℕ → Option ℤ
or_number none d = some (pos d)
or_number (some (number (pos zero))) d = some (pos d)
or_number (some (number (pos (suc n)))) d = some (pos (suc n))
or_number (some (number (negsuc n))) d = some (negsuc n)
or_number (some (text value)) d = value

-- `filter?.sortOrder === 'asc' ? 1 : -1`, as "largest first"
abbrev pub is_descending : Option String → Bool
is_descending none = true
is_descending (some o) = not (o == "asc")

-- `filter?.sortBy || 'createdAt'`
abbrev pub sort_field : Option String → String
sort_field none = "createdAt"
sort_field (some s) = if s == "" then "createdAt" else s

module _ (date : String → ℕ) where
  -- the query filter of `findAll`
  unfoldable pub request_filter : RewardRequestFilterDto → RewardRequest → Bool
  request_filter filter r =
      when_truthy filter.user_id (λ u. r.user_id == u)
      && when_truthy filter.event_id (λ e. r.event_id == e)
      && when_given filter.status (λ s. eqb (status_number r.status) (status_number s))
      && when_truthy filter.start_date (λ t. leb (date t) r.created_at)
      && when_truthy filter.end_date (λ t. leb r.created_at (date t))

-- `key` is the order in which the server sorts the values of a field.
module _ (rc : Collection RewardRequest same_claim) (date : String → ℕ)
    (key : String → RewardRequest → ℕ) where
  -- The two queries of a page, for a number to skip; MongoDB refuses one below 0, and takes a limit
  -- below 0 for its size.
  abbrev pub page_from :
      RewardRequestFilterDto → RewardRequests → ℤ → ℤ → ℤ → Result PaginatedRewardRequestsDto
  page_from filter rs page limit (negsuc n) = err (failure "BadValue: skip must be non-negative")
  page_from filter rs page limit (pos skip) =
      let total = rc.count_documents (request_filter date filter) rs in
      ok (record {
        items =
            rc.find (request_filter date filter) (key (sort_field filter.sort_by))
              (is_descending filter.sort_order) skip (magnitude limit) rs;
        total = total;
        page = page;
        limit = limit;
        pages = page_count total limit;
      })

  abbrev pub page_at :
      RewardRequestFilterDto
      → RewardRequests
      → Option ℤ
      → Option ℤ
      → Result PaginatedRewardRequestsDto
  page_at filter rs (some page) (some limit) = page_from filter rs page limit (pred page *ℤ limit)
  page_at filter rs none limit = err (failure "CastError: NaN")
  page_at filter rs (some page) none = err (failure "CastError: NaN")

  unfoldable pub find_all :
      RewardRequestFilterDto → RewardRequests → Result PaginatedRewardRequestsDto
  unfolding request_filter
  find_all filter rs = page_at filter rs (or_number filter.page 1) (or_number filter.limit 10)

  -- `{ ...(filter || {}), userId }`, where the id may be undefined
  unfoldable pub find_by_user_id :
      Option String → RewardRequestFilterDto → RewardRequests → Result PaginatedRewardRequestsDto
  find_by_user_id user_id filter rs = find_all (record filter { user_id = user_id }) rs
