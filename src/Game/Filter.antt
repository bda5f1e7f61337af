-- ===== src/Game/Filter.antt =====
-- common/filters/all-exceptions.filter.ts, the one filter that main.ts of the game event server
-- registers, around its HTTP handlers.
use msa_tuto_server.Base.{
  ℕ, String, ◌≡◌, refl, Bool, true, false, Option, none, some, List, [], ◌∷◌, any, is_some,
  Bool-cases, inl, inr,
}
use msa_tuto_server.Http.{Exception, unauthorized, forbidden, Result, ok, err, M}
use msa_tuto_server.Http.Reports.{Thrown, error, other_value, Errors, Requested, Report}
use msa_tuto_server.Access.{AuthUser, guarded, has_role, jwt_guard, roles_guard}
use msa_tuto_server.Game.Server.{
  World, Data, Ask, post_event, get_events, get_active, get_event, put_event, add_reward,
  get_rewards, get_reward, get_rewards_of, get_available, ask_eligibility, get_history,
  get_whole_history, message, Reply, answer,
}

-- `exception instanceof Error ? exception.name : 'Unknown error'`
abbrev pub error_name : Errors → Thrown → String
error_name errors (error e) = errors.name e
error_name errors other_value = "Unknown error"

-- Both branches of `exception instanceof Error` have the status INTERNAL_SERVER_ERROR.
abbrev pub error_status : Thrown → ℕ
error_status (error e) = 500
error_status other_value = 500

-- `AllExceptionsFilter.catch`
unfoldable pub catch_all : Errors → Requested → (now : ℕ) → Thrown → Report
catch_all errors req now thrown = record {
  status = error_status thrown;
  body = record {
    status_code = error_status thrown;
    timestamp = now;
    path = req.url;
    method = req.method;
    message = some "Internal server error";
    error = error_name errors thrown;
  };
}

-- What a client is answered.
pub data Response : Type 0 where
  replied : Reply → Response
  reported : Report → Response

module _ (world : World) (errors : Errors) (req : Requested) (caller : Option AuthUser)
    (now : ℕ) where
  abbrev pub filtered : Result Reply → Response
  filtered (ok r) = replied r
  filtered (err e) = reported (catch_all errors req now (error e))

  -- A request over HTTP; what guards throw goes through the filter too.
  unfoldable pub respond : Ask → Data → Response × Data
  respond ask s = let (r, t) = answer world caller now ask s in (filtered r, t)

-- Who may ask what: a request over HTTP is open, or it wants a user, with one of some roles or with
-- any; the queue knows no callers.
pub data Demand : Type 0 where
  nobody_asked a_user : Demand
  one_of : List String → Demand

abbrev pub demand : Ask → Demand
demand (post_event dto id) = one_of ("OPERATOR" ∷ "ADMIN" ∷ [])
demand (get_events filter) = one_of ("OPERATOR" ∷ "ADMIN" ∷ [])
demand (get_active page limit) = nobody_asked
demand (get_event id include_deleted) = nobody_asked
demand (put_event id dto) = one_of ("OPERATOR" ∷ "ADMIN" ∷ [])
demand (add_reward dto id) = one_of ("OPERATOR" ∷ "ADMIN" ∷ [])
demand get_rewards = a_user
demand (get_reward id) = a_user
demand (get_rewards_of event_id) = a_user
demand (get_available page limit) = one_of ("USER" ∷ [])
demand (ask_eligibility event_id) = one_of ("USER" ∷ [])
demand (get_history filter) = one_of ("USER" ∷ [])
demand (get_whole_history filter) = one_of ("OPERATOR" ∷ "AUDITOR" ∷ "ADMIN" ∷ [])
demand (message payload redis_get) = nobody_asked

abbrev pub is_met : Demand → Option AuthUser → Bool
is_met nobody_asked caller = true
is_met a_user caller = is_some caller
is_met (one_of roles) caller = any (has_role caller) roles

-- The status and the message that every failure has, and nothing written.
pub record IsInternalError (r : Response × Data) (s : Data) : Type 0 where
  pub report : Report
  pub answered : r ≡ (reported report, s)
  pub status : report.status ≡ 500
  pub message : report.body.message ≡ some "Internal server error"

module _ (world : World) (errors : Errors) (req : Requested) (caller : Option AuthUser) (now : ℕ)
    (s : Data) where
  thrown-IsInternalError :
      (e : Exception) (r : Result Reply × Data)
      → r ≡ (err e, s)
      → IsInternalError (filtered world errors req caller now r.0, r.1) s
  unfolding catch_all
  thrown-IsInternalError e r q = rw q (record {
    report = catch_all errors req now (error e);
    answered = refl;
    status = refl;
    message = refl;
  })

module _ {S A : Type 0} (handler : M S A) (caller : Option AuthUser) (s : S) where
  guarded_without_user :
      is_some caller ≡ false → (e : Exception) × (guarded false none caller handler s ≡ (err e, s))
  unfolding jwt_guard
  guarded_without_user h = (unauthorized "Unauthorized", rw h refl)

  guarded_without_role :
      (roles : List String)
      → any (has_role caller) roles ≡ false
      → (e : Exception) × (guarded false (some roles) caller handler s ≡ (err e, s))
  unfolding jwt_guard roles_guard
  guarded_without_role roles h = elim (Bool-cases (is_some caller)) [
    | inl t ↦ (forbidden "Forbidden resource", rw (t, h) refl)
    | inr f ↦ (unauthorized "Unauthorized", rw f refl)
  ]

module _ (world : World) (errors : Errors) (req : Requested) (caller : Option AuthUser) (now : ℕ)
    (s : Data) where
  answer_unmet :
      (ask : Ask)
      → is_met (demand ask) caller ≡ false
      → (e : Exception) × (answer world caller now ask s ≡ (err e, s))
  unfolding answer
  answer_unmet (post_event dto id) h = guarded_without_role _ caller s _ h
  answer_unmet (get_events filter) h = guarded_without_role _ caller s _ h
  answer_unmet (get_active page limit) h = absurd (cc h)
  answer_unmet (get_event id include_deleted) h = absurd (cc h)
  answer_unmet (put_event id dto) h = guarded_without_role _ caller s _ h
  answer_unmet (add_reward dto id) h = guarded_without_role _ caller s _ h
  answer_unmet get_rewards h = guarded_without_user _ caller s h
  answer_unmet (get_reward id) h = guarded_without_user _ caller s h
  answer_unmet (get_rewards_of event_id) h = guarded_without_user _ caller s h
  answer_unmet (get_available page limit) h = guarded_without_role _ caller s _ h
  answer_unmet (ask_eligibility event_id) h = guarded_without_role _ caller s _ h
  answer_unmet (get_history filter) h = guarded_without_role _ caller s _ h
  answer_unmet (get_whole_history filter) h = guarded_without_role _ caller s _ h
  answer_unmet (message payload redis_get) h = absurd (cc h)

  -- A request over HTTP that wants a user or a role is refused to a caller who has not got it, and
  -- nothing is written; the client is answered 500 with the message of an internal error, not 401 or
  -- 403, since the one filter of the server answers so whatever was thrown.
  pub respond-IsInternalError :
      (ask : Ask)
      → is_met (demand ask) caller ≡ false
      → IsInternalError (respond world errors req caller now ask s) s
  unfolding respond
  respond-IsInternalError ask h =
      let (e, q) = answer_unmet ask h in
      thrown-IsInternalError world errors req caller now s e (answer world caller now ask s) q
