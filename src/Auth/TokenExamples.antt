-- ===== src/Auth/TokenExamples.antt =====
-- Tokens at work: tests, and the theorems at concrete inputs.
use msa_tuto_server.Base.{
  ℕ, ◌*◌, ◌≡◌, refl, sym, ◌∙◌, ap, ◌<◌, true, none, some, ltb, if◌then◌else◌, arith, Bool-cases,
  inl, inr,
}
use msa_tuto_server.Http.{Result, ok, err, failure}
use msa_tuto_server.Auth.Tokens.{
  Payload, IsUnexpired, Jwt, Texts, save_refresh_token, validate_refresh_token, logout,
  validate_jwt_token,
}
use msa_tuto_server.Auth.Memory.{Keys, keys, empty}

abbrev pub payload : Payload
payload = record { sub = "u1"; email = none; roles = none; jti = "j1"; exp = some 100 }

abbrev pub verify : ℕ → Result Payload
verify now = if ltb now 100000 then ok payload else err (failure "jwt expired")

pub verify-IsUnexpired :
    (now : ℕ) (p : Payload) → verify now ≡ ok p → (some payload ≡ some p) × IsUnexpired now p
verify-IsUnexpired now p h = elim (Bool-cases (ltb now 100000)) [
  | inl t ↦
      let same : payload ≡ p = cc (rw t at h) in
      (ap some same, λ e x. before t e (ap (λ (q : Payload). q.exp) same ∙ x))
  | inr f ↦ absurd (cc (rw f at h))
]
  where
    before : ltb now 100000 ≡ true → (e : ℕ) → some 100 ≡ some e → now < e * 1000
    before t e x = let same : 100 ≡ e = cc x in rw (sym same) (ground arith)

-- A library that takes every text for a token of one user.
abbrev pub jwt : Jwt
jwt = record {
  sign = λ now ttl claims. claims.jti;
  decode = λ token. some payload;
  verify = λ now token. verify now;
  verify_law = λ now token p h. verify-IsUnexpired now p h;
}

abbrev pub plain_texts : Texts
plain_texts = record {
  stringify = λ s. s;
  parse = λ s. ok s;
  parse-stringify = λ s. refl;
  trim = λ s. s;
}

abbrev pub after_logout : Keys
after_logout = (logout keys jwt 50000 "u1" "t1" empty).1

validate_other : validate_jwt_token keys jwt 60000 "t2" after_logout ≡ some payload
unfolding logout validate_jwt_token
validate_other = refl

abbrev pub after_save : Keys
after_save = (save_refresh_token keys jwt plain_texts 1000 "u1" "r1" empty).1

save_done : save_refresh_token keys jwt plain_texts 1000 "u1" "r1" empty ≡ (ok tt, after_save)
unfolding save_refresh_token
save_done = refl

validate_saved : validate_refresh_token keys jwt plain_texts 2000 "u1" "r1" after_save ≡ true
unfolding save_refresh_token validate_refresh_token
validate_saved = refl
