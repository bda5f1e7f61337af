-- ===== src/Gateway/Correlation.antt =====
-- common/middleware/correlation-id.middleware.ts, and the id on its way: into the response, into the
-- message for the queue and into the answer to the client. The new id of uuid is an argument.
use msa_tuto_server.Base.{
  ℕ, String, ◌≡◌, ◌≢◌, refl, sym, ◌∙◌, ap, Bool, false≢true, Option, none, some, [], ◌∷◌, ◌==◌,
  eq_iff, eq_refl, if◌then◌else◌, Bool-cases, inl, inr,
}
use msa_tuto_server.Http.{ok, M}
use msa_tuto_server.Http.Reports.{text_or}
use msa_tuto_server.Gateway.Headers.{Headers, header, delete_header, extract_relevant_headers}
use msa_tuto_server.Gateway.Forwarding.{header-delete_header}
use msa_tuto_server.Gateway.Queue.{
  QueueRequest, QueueMessage, QueueAnswer, accepted, request_id_of, message_of, acknowledge,
  handle_message_queue_request,
}

-- `headers[name] = value`
abbrev pub set_header : String → String → Headers → Headers
set_header name value [] = (name, value) ∷ []
set_header name value ((k, v) ∷ hs) =
    let rest = set_header name value hs in if k == name then (k, value) ∷ hs else (k, v) ∷ rest

abbrev pub correlation_header : String
correlation_header = "x-correlation-id"

-- `req.headers['x-correlation-id'] || uuidv4()`
unfoldable pub correlation_id : (uuid : String) → Headers → String
correlation_id uuid hs = text_or (header correlation_header hs) uuid

-- `CorrelationIdMiddleware.use`: the headers of the request, and those of the response.
unfoldable pub correlate : (uuid : String) → Headers → Headers → Headers × Headers
correlate uuid hs response = (
  set_header correlation_header (correlation_id uuid hs) hs,
  set_header correlation_header (correlation_id uuid hs) response,
)

abbrev pub with_headers : {B : Type 0} → QueueRequest B → Headers → QueueRequest B
with_headers req hs = record req { headers = hs }

module _ {B S : Type 0} where
  -- A request for the queue behind the middleware, with the headers of its response.
  unfoldable pub queue_correlated :
      (emit : String → QueueMessage B → M S (Unit {0}))
      → String
      → Bool
      → (uuid : String) → QueueRequest B
      → (now : ℕ) → (message_id : String) → S
      → (QueueAnswer × S) × Headers
  queue_correlated emit pattern persistent uuid req now message_id s =
      let (hs, response) = correlate uuid req.headers [] in
      (
        handle_message_queue_request emit pattern persistent (with_headers req hs) now message_id s,
        response,
      )

header-set_header :
    (name value : String) (hs : Headers) → header name (set_header name value hs) ≡ some value
header-set_header name value [] = rw (eq_refl name) refl
header-set_header name value ((k, v) ∷ hs) = elim (Bool-cases (k == name)) [
  | inl t ↦ rw (t, t) refl
  | inr f ↦ rw (f, f) (header-set_header name value hs)
]

header-extract :
    (hs : Headers)
    → header correlation_header (extract_relevant_headers hs) ≡ header correlation_header hs
unfolding extract_relevant_headers
header-extract hs =
    header-delete_header correlation_header "content-length"
      (delete_header "connection" (delete_header "host" hs))
    ∙ header-delete_header correlation_header "connection" (delete_header "host" hs)
    ∙ header-delete_header correlation_header "host" hs

module _ (uuid : String) (new : uuid ≢ "") where
  given_or_new : (given : Option String) → text_or given uuid ≢ ""
  given_or_new none = new
  given_or_new (some id) = elim (Bool-cases (id == "")) [
    | inl t ↦ rw t new
    | inr f ↦ rw f (λ q. false≢true (sym f ∙ (eq_iff id "").1 q))
  ]

  request_id_of_nonempty : (id : String) → id ≢ "" → request_id_of (some id) ≡ id
  request_id_of_nonempty id h = elim (Bool-cases (id == "")) [
    | inl t ↦ absurd (h ((eq_iff id "").0 t))
    | inr f ↦ rw f refl
  ]

module _ {B : Type 0} (req : QueueRequest B) (uuid : String) where
  -- The request as the middleware leaves it.
  abbrev pub correlated : QueueRequest B
  correlated =
      with_headers req (set_header correlation_header (correlation_id uuid req.headers) req.headers)

module _ {B S : Type 0} (req : QueueRequest B) (uuid : String) where
  -- Where the id of a request turns up.
  pub record IsCorrelated (pattern message_id : String) (persistent : Bool) (now : ℕ)
      (answer : (QueueAnswer × S) × Headers) : Type 0 where
    pub id : String
    pub is_id : id ≡ correlation_id uuid req.headers
    pub nonempty : id ≢ ""
    pub answered : answer.0.0 ≡ accepted id
    pub in_response : header correlation_header answer.1 ≡ some id
    pub in_message :
        header correlation_header
          (message_of (correlated req uuid) now message_id persistent).headers
        ≡ some id

  -- A request that goes on the queue has one id everywhere: the one that the client gave, or a new one
  -- if it gave none or an empty one. The client is answered this id, never "unknown"; the header of
  -- the response has it, and so have the headers in the message. uuid gives no empty text, and the
  -- client of RabbitMQ takes the message.
  pub queue_correlated-IsCorrelated :
      (emit : String → QueueMessage B → M S (Unit {0})) (pattern message_id : String)
      (persistent : Bool) (now : ℕ) (s t : S)
      → uuid ≢ ""
      → emit pattern (message_of (correlated req uuid) now message_id persistent) s ≡ (ok tt, t)
      → IsCorrelated pattern message_id persistent now
          (queue_correlated emit pattern persistent uuid req now message_id s)
  unfolding queue_correlated correlate handle_message_queue_request message_of
  queue_correlated-IsCorrelated emit pattern message_id persistent now s t new taken =
      let id = correlation_id uuid req.headers in
      let nonempty : id ≢ "" =
        unfold correlation_id in (given_or_new uuid new (header correlation_header req.headers)) in
      record {
        id = id;
        is_id = refl;
        nonempty = nonempty;
        answered =
            ap (λ r. (acknowledge (correlated req uuid) r).0) taken
            ∙ ap (λ h. accepted (request_id_of h))
                (header-set_header correlation_header id req.headers)
            ∙ ap accepted (request_id_of_nonempty uuid new id nonempty);
        in_response = header-set_header correlation_header id [];
        in_message =
            header-extract (correlated req uuid).headers
            ∙ header-set_header correlation_header id req.headers;
      }
