-- ===== src/Gateway/Forwarding.antt =====
-- What the proxied service gets, and what the client gets back.
use msa_tuto_server.Base.{
  ℕ, String, ◌≡◌, refl, sym, ◌∙◌, ap, Bool, true, false, ◌||◌, Option, none, some, [], ◌∷◌, ◌++◌,
  ◌==◌, eq_iff, if◌then◌else◌, template, begins_with, eqb, inl, inr, Bool-cases, arith,
}
use Prim.Native.Char.{code}
use Prim.Native.String
use Prim.Native.String.append
use msa_tuto_server.Gateway.Path.{Text, is_slash}
use msa_tuto_server.Gateway.Headers.{
  Headers, header, delete_header, extract_relevant_headers, with_scheme, fix_authorization,
  proxy_headers,
}
use msa_tuto_server.Gateway.Proxy.{ends_with_slash, create_target_url}

-- The headers that are not passed on.
abbrev pub is_dropped : String → Bool
is_dropped name = name == "content-length" || (name == "connection" || name == "host")

abbrev pub mapped : (String → String) → Option String → Option String
mapped f none = none
mapped f (some v) = some (f v)

either_dropped :
    (a b : Bool) (x y z : Option String)
    → x ≡ (if a then none else y)
    → y ≡ (if b then none else z)
    → x ≡ (if a || b then none else z)
either_dropped true b x y z h k = h
either_dropped false b x y z h k = h ∙ k

mapped_unless :
    (f : String → String) (a b : Bool) (x y : Option String)
    → x ≡ (if a then none else y)
    → (if b then mapped f x else x) ≡ (if a then none else if b then mapped f y else y)
mapped_unless f true true x y h = ap (mapped f) h
mapped_unless f true false x y h = h
mapped_unless f false true x y h = ap (mapped f) h
mapped_unless f false false x y h = h

pub header-delete_header :
    (name d : String) (hs : Headers)
    → header name (delete_header d hs) ≡ (if name == d then none else header name hs)
header-delete_header name d [] = ground arith
header-delete_header name d ((k, v) ∷ hs) = elim (Bool-cases (k == d)) [
  | inl t ↦ elim (Bool-cases (k == name)) [
    | inl u ↦
        let same : (name == d) ≡ true = (rw (sym ((eq_iff k name).0 u)) t) in
        rw (t, same) (header-delete_header name d hs ∙ rw same refl)
    | inr g ↦ rw (t, g) (header-delete_header name d hs)
  ]
  | inr f ↦ elim (Bool-cases (k == name)) [
    | inl u ↦
        let apart : (name == d) ≡ false = (rw (sym ((eq_iff k name).0 u)) f) in
        rw (f, u, apart) refl
    | inr g ↦ rw (f, g) (header-delete_header name d hs)
  ]
]

header-fix_authorization :
    (name : String) (hs : Headers)
    → header name (fix_authorization hs)
      ≡ (if name == "authorization" then mapped with_scheme (header name hs) else header name hs)
unfolding fix_authorization
header-fix_authorization name [] = ground arith
header-fix_authorization name ((k, v) ∷ hs) = elim (Bool-cases (k == name)) [
  | inr g ↦ rw g (header-fix_authorization name hs)
  | inl u ↦
      let same : k ≡ name = (eq_iff k name).0 u in
      elim (Bool-cases (name == "authorization")) [
        | inl t ↦ let t' : (k == "authorization") ≡ true = rw same t in rw (u, t, t') refl
        | inr f ↦ let f' : (k == "authorization") ≡ false = rw same f in rw (u, f, f') refl
      ]
]

pub header-proxy_headers :
    (name : String) (hs : Headers)
    → header name (proxy_headers hs) ≡ (
        if is_dropped name
        then none
        else if name == "authorization"
        then mapped with_scheme (header name hs)
        else header name hs)
unfolding proxy_headers extract_relevant_headers
header-proxy_headers name hs =
    header-fix_authorization name (extract_relevant_headers hs)
    ∙ mapped_unless with_scheme (is_dropped name) (name == "authorization") _ (header name hs) (
        either_dropped (name == "content-length") (name == "connection" || name == "host") _ _ _
          (header-delete_header name "content-length" _)
          (either_dropped (name == "connection") (name == "host") _ _ _
            (header-delete_header name "connection" _) (header-delete_header name "host" hs)))

or_true : (a : Bool) {b : Bool} → b ≡ true → (a || b) ≡ true
or_true true h = refl
or_true false h = h

eqb_refl : (n : ℕ) → eqb n n ≡ true
eqb_refl n = ground arith

begins_with_own : (p s : String) → begins_with p (String.◌++◌ p s) ≡ true
begins_with_own String.[] s = refl
begins_with_own (String.◌∷◌ c p) s =
    rw (String.append.cons c p s) (rw (eqb_refl (code c)) (begins_with_own p s))

-- Every value that with_scheme gives is empty or begins with the scheme.
with_scheme-begins :
    (v : String) → (with_scheme v == "") || begins_with "Bearer " (with_scheme v) ≡ true
with_scheme-begins v = elim (Bool-cases (v == "" || begins_with "Bearer " v)) [
  | inl t ↦ rw t t
  | inr f ↦ rw f (or_true _ (begins_with_own "Bearer " (template (v ∷ []))))
]

-- An authorization that the service gets is empty or begins with the scheme Bearer.
pub authorization_sent :
    (hs : Headers) (v : String)
    → header "authorization" (proxy_headers hs) ≡ some v
    → ((v == "") || begins_with "Bearer " v) ≡ true
authorization_sent hs v h =
    from_value (header "authorization" hs) (sym (header-proxy_headers "authorization" hs) ∙ h)
  where
    from_value :
        (r : Option String)
        → mapped with_scheme r ≡ some v
        → ((v == "") || begins_with "Bearer " v) ≡ true
    from_value none q = absurd (cc q)
    from_value (some w) q = let same : with_scheme w ≡ v = cc q in rw⁻¹ same (with_scheme-begins w)

-- A URL without one slash at its end.
abbrev pub without_slash : Text → Text
without_slash [] = []
without_slash (c ∷ []) = if is_slash c then [] else c ∷ []
without_slash (c ∷ d ∷ s) = c ∷ without_slash (d ∷ s)

slash_is : (c : ℕ) → is_slash c ≡ true → c ≡ b'/'
slash_is c h = ground arith

append_without_slash :
    (base s : Text) → ends_with_slash base ≡ true → base ++ s ≡ without_slash base ++ b'/' ∷ s
append_without_slash [] s h = absurd (cc h)
append_without_slash (c ∷ []) s h = rw (h, slash_is c h) refl
append_without_slash (c ∷ d ∷ t) s h = ap (λ l. c ∷ l) (append_without_slash (d ∷ t) s h)

without_slash_same : (base : Text) → ends_with_slash base ≡ false → without_slash base ≡ base
without_slash_same [] h = refl
without_slash_same (c ∷ []) h = rw h refl
without_slash_same (c ∷ d ∷ t) h = ap (λ l. c ∷ l) (without_slash_same (d ∷ t) h)

append_assoc : (xs ys zs : Text) → (xs ++ ys) ++ zs ≡ xs ++ (ys ++ zs)
append_assoc [] ys zs = refl
append_assoc (x ∷ xs) ys zs = ap (λ l. x ∷ l) (append_assoc xs ys zs)

-- The URL of a proxied request, whose path begins with a slash, is the service's URL without a slash
-- at its end, and then the path.
pub create_target_url_lem :
    (base path : Text) → create_target_url base (b'/' ∷ path) ≡ without_slash base ++ b'/' ∷ path
unfolding create_target_url
create_target_url_lem base path = elim (Bool-cases (ends_with_slash base)) [
  | inl t ↦ rw t (append_without_slash base path t)
  | inr f ↦ rw (f, without_slash_same base f) (append_assoc base (b'/' ∷ []) path)
]
