-- ===== src/Gateway/Headers.antt =====
-- The headers that leave the gateway: `extractRelevantHeaders` of gateway/gateway.controller.ts and
-- the first half of `proxyRequest` of gateway/proxy.service.ts. Headers have their names in lower
-- case, each once, as node gives them.
use msa_tuto_server.Base.{
  String, ◌||◌, not, Option, none, some, List, [], ◌∷◌, ◌==◌, filter, if◌then◌else◌, template,
  begins_with,
}

abbrev pub Headers : Type 0
Headers = List (String × String)

-- `headers[name]`
abbrev pub header : String → Headers → Option String
header name [] = none
header name ((k, v) ∷ hs) = let rest = header name hs in if k == name then some v else rest

-- `delete headers[name]`
abbrev pub delete_header : String → Headers → Headers
delete_header name = filter (λ h. not (h.0 == name))

-- Both methods delete the same three.
unfoldable pub extract_relevant_headers : Headers → Headers
extract_relevant_headers hs =
    delete_header "content-length" (delete_header "connection" (delete_header "host" hs))

-- An authorization without the scheme gets it; one that is empty counts as none.
abbrev pub with_scheme : String → String
with_scheme value =
    if value == "" || begins_with "Bearer " value then value else template ("Bearer " ∷ value ∷ [])

-- `headers.authorization = …`, in its place
unfoldable pub fix_authorization : Headers → Headers
fix_authorization [] = []
fix_authorization ((k, v) ∷ hs) =
    (k, if k == "authorization" then with_scheme v else v) ∷ fix_authorization hs

unfoldable pub proxy_headers : Headers → Headers
proxy_headers hs = fix_authorization (extract_relevant_headers hs)
