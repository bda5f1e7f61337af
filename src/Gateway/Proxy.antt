-- ===== src/Gateway/Proxy.antt =====
-- gateway/proxy.service.ts. The HTTP client axios is a parameter: it answers a call with a response,
-- or it throws. The query goes along unchanged and is left out.
use msa_tuto_server.Base.{
  ℕ, String, Bool, false, ◌||◌, Option, none, some, List, [], ◌∷◌, ◌++◌, ◌==◌, if◌then◌else◌,
  template,
}
use msa_tuto_server.Gateway.Path.{Text, is_slash}
use msa_tuto_server.Gateway.Headers.{Headers, proxy_headers}

-- `s.endsWith('/')`
abbrev pub ends_with_slash : Text → Bool
ends_with_slash [] = false
ends_with_slash (c ∷ []) = is_slash c
ends_with_slash (c ∷ d ∷ s) = ends_with_slash (d ∷ s)

-- `path.startsWith('/') ? path.substring(1) : path`
abbrev pub clean_path : Text → Text
clean_path [] = []
clean_path (c ∷ s) = if is_slash c then s else c ∷ s

unfoldable pub create_target_url : Text → Text → Text
create_target_url base path =
    (if ends_with_slash base then base else base ++ b'/' ∷ []) ++ clean_path path

-- What axios is called with; the body is given as the names and the values of its keys.
pub record ProxyCall : Type 0 where
  pub method : String
  pub url : Text
  pub headers : Headers
  pub data_sent : Option (List (String × String))

-- The error of a call: with a response, with a code, or neither. A response has its status, and the
-- `message` and the `error` of its data.
pub data ProxyError : Type 0 where
  with_response : (status : ℕ) → (message error : Option String) → ProxyError
  with_code : String → ProxyError
  other : ProxyError

pub data AxiosResult : Type 0 where
  responded : (status : ℕ) → Headers → (content : String) → AxiosResult
  thrown : ProxyError → AxiosResult

-- The body of an answer: the data of the service, or `{ statusCode, message, error }`.
pub data ProxyBody : Type 0 where
  content : String → ProxyBody
  failure_body : (status_code : ℕ) → (message error : String) → ProxyBody

pub record ProxyAnswer : Type 0 where
  pub status : ℕ
  pub headers : Headers
  pub body : ProxyBody

-- `value || fallback`
abbrev pub text_or : Option String → String → String
text_or none d = d
text_or (some s) d = if s == "" then d else s

abbrev pub failed_with : ℕ → String → String → ProxyAnswer
failed_with status message error = record {
  status = status;
  headers = [];
  body = failure_body status message error;
}

unfoldable pub handle_proxy_error : ProxyError → ProxyAnswer
handle_proxy_error (with_response status message error) =
    failed_with status (text_or message "Error from microservice") (text_or error "Proxy Error")
handle_proxy_error (with_code code) =
    if code == "ECONNREFUSED" || code == "ENOTFOUND"
    then failed_with 503 (template ("Service is currently unavailable (" ∷ code ∷ ")" ∷ []))
        "Service Unavailable"
    else if code == "ETIMEDOUT"
    then failed_with 504 "Request timed out while connecting to the service" "Gateway Timeout"
    else failed_with 502 (template ("Unable to connect to service: " ∷ code ∷ [])) "Bad Gateway"
handle_proxy_error other =
    failed_with 500 "An unexpected error occurred while proxying the request"
      "Internal Server Error"

abbrev pub answer_of : AxiosResult → ProxyAnswer
answer_of (responded status headers data_received) = record {
  status = status;
  headers = headers;
  body = content data_received;
}
answer_of (thrown error) = handle_proxy_error error

-- `Object.keys(req.body || {}).length > 0 ? req.body : undefined`
abbrev pub sent_body : Option (List (String × String)) → Option (List (String × String))
sent_body none = none
sent_body (some []) = none
sent_body (some (f ∷ fs)) = some (f ∷ fs)

-- The call of `proxyRequest` for a method in lower case.
unfoldable pub proxy_call :
    String → Text → Text → Headers → Option (List (String × String)) → ProxyCall
proxy_call method target_url path headers body = record {
  method = method;
  url = create_target_url target_url path;
  headers = proxy_headers headers;
  data_sent = sent_body body;
}

unfoldable pub proxy_request :
    (axios : ProxyCall → AxiosResult)
    → String
    → Text
    → Text
    → Headers
    → Option (List (String × String))
    → ProxyAnswer
unfolding handle_proxy_error
proxy_request axios method target_url path headers body =
    answer_of (axios (proxy_call method target_url path headers body))
