-- ===== src/Auth/Login.antt =====
-- Who is let in: what a login and a renewed session go back to.
use msa_tuto_server.Base.{
  String, ◌≡◌, refl, ◌∙◌, ap, subst, Bool, true, false, Option, none, some, ◌==◌, Bool-cases, inl,
  inr,
}
use msa_tuto_server.Http.{ok, pure}
use msa_tuto_server.Http.Success.{rethrow-ok, continue-Passed}
use msa_tuto_server.Mongo.{Collection, Split}
use msa_tuto_server.Auth.Users.{User, Bcrypt, same_email, find_by_id, validate_user}
use msa_tuto_server.Auth.Tokens.{Jwt, Texts, Redis, validate_refresh_token}
use msa_tuto_server.Auth.Session.{
  Store, on_people, on_cache, Tokens, Session, Lifetimes, Draw, generate_tokens, admit, login,
  renew, refresh_if, refresh_token, session_of, keep_unauthorized,
}
use msa_tuto_server.Auth.SessionLaws.{
  IsIssued, generate_tokens-IsIssued, in_cache, in_people, same_cache, find_by_id-Split, IsKnown,
  validate_user-IsKnown,
}

module _ {K : Type 0} (redis : Redis K) (jwt : Jwt) (texts : Texts) (lifetimes : Lifetimes)
    (c : Collection User same_email) where
  -- A session of an active user with the password, whose tokens were issued for what the user is.
  pub record IsAuthentic (bcrypt : Bcrypt) (draw : Draw) (email password : String)
      (session : Session) (s t : Store K) : Type 0 where
    pub owner : User
    pub known : IsKnown c bcrypt email password draw.now owner s.people
    pub active : owner.is_active ≡ true
    pub issued :
        IsIssued redis jwt texts lifetimes draw owner.id owner.email owner.roles session.tokens
          s.cache t.cache
    pub answer : session ≡ session_of owner session.tokens

  -- Tokens that were issued for an active user who had the refresh token.
  pub record IsRenewed (draw : Draw) (user_id token : String) (tokens : Tokens) (s t : Store K)
      : Type 0 where
    pub valid : validate_refresh_token redis jwt texts draw.now user_id token s.cache ≡ true
    pub owner : Split (λ v. v.id == user_id) s.people.users
    pub active : owner.doc.is_active ≡ true
    pub issued :
        IsIssued redis jwt texts lifetimes draw user_id owner.doc.email owner.doc.roles tokens
          s.cache t.cache

  issued-IsAuthentic :
      (bcrypt : Bcrypt) (draw : Draw) (email password : String) (u : User) (tokens : Tokens)
      (s m t : Store K)
      → IsKnown c bcrypt email password draw.now u s.people
      → u.is_active ≡ true
      → s.cache ≡ m.cache
      → generate_tokens redis jwt texts lifetimes draw u.id u.email u.roles m.cache
        ≡ (ok tokens, t.cache)
      → IsAuthentic bcrypt draw email password (session_of u tokens) s t
  issued-IsAuthentic bcrypt draw email password u tokens s m t known active k made = record {
    owner = u;
    known = known;
    active = active;
    issued = rw k (
        generate_tokens-IsIssued redis jwt texts lifetimes draw u.id u.email u.roles tokens m.cache
          t.cache made);
    answer = refl;
  }

  admit-IsAuthentic :
      (bcrypt : Bcrypt) (draw : Draw) (email password : String) (session : Session)
      (r : Option User) (s m t : Store K)
      → validate_user c bcrypt email password draw.now s.people ≡ (ok r, m.people)
      → s.cache ≡ m.cache
      → admit redis jwt texts lifetimes c draw r m ≡ (ok session, t)
      → IsAuthentic bcrypt draw email password session s t
  admit-IsAuthentic bcrypt draw email password session none s m t v k h = absurd (cc h)
  admit-IsAuthentic bcrypt draw email password session (some u) s m t v k h =
      elim (Bool-cases u.is_active) [
        | inr f ↦ absurd (cc (rw f at h))
        | inl active ↦
            let make = generate_tokens redis jwt texts lifetimes draw u.id u.email u.roles in
            let passed =
              continue-Passed (on_cache make m) (λ tokens. pure (session_of u tokens)) session t
                (rw active at h) in
            let same : session_of u passed.value ≡ session = cc passed.second in
            let last : passed.between ≡ t = cc passed.second in
            let known =
              validate_user-IsKnown c bcrypt email password draw.now u s.people m.people v in
            let made = in_cache make passed.value m passed.between passed.first in
            subst (λ (z : Session × Store K). IsAuthentic bcrypt draw email password z.0 s z.1)
              (λ i. (same i, last i))
              (issued-IsAuthentic bcrypt draw email password u passed.value s m passed.between known
                active k made)
      ]

  -- A login that returns a session found the account of the email, whose hash bcrypt compares with the
  -- password; the user that it saved with the new time of login is active, the session has the id, the
  -- email, the name and the roles of that user, its tokens are signed for them, and the refresh token
  -- was saved in the cache.
  pub login-IsAuthentic :
      (bcrypt : Bcrypt) (draw : Draw) (email password : String) (session : Session) (s t : Store K)
      → login redis jwt texts lifetimes c bcrypt draw email password s ≡ (ok session, t)
      → IsAuthentic bcrypt draw email password session s t
  unfolding login
  login-IsAuthentic bcrypt draw email password session s t h =
      let find = validate_user c bcrypt email password draw.now in
      let passed =
        continue-Passed (on_people find s) (admit redis jwt texts lifetimes c draw) session t
          (rethrow-ok (keep_unauthorized "로그인 처리 중 오류가 발생했습니다") _ session t h) in
      admit-IsAuthentic bcrypt draw email password session passed.value s passed.between t
        (in_people find passed.value s passed.between passed.first)
        (same_cache find passed.value s passed.between passed.first) passed.second

  renew-IsRenewed :
      (draw : Draw) (user_id token : String) (tokens : Tokens) (u : User) (s m t : Store K)
      → validate_refresh_token redis jwt texts draw.now user_id token s.cache ≡ true
      → find_by_id c user_id s.people ≡ (ok u, m.people)
      → s.cache ≡ m.cache
      → renew redis jwt texts lifetimes c draw user_id u m ≡ (ok tokens, t)
      → IsRenewed draw user_id token tokens s t
  renew-IsRenewed draw user_id token tokens u s m t valid found k h =
      elim (Bool-cases u.is_active) [
        | inr f ↦ absurd (cc (rw f at h))
        | inl active ↦
            let (owner, same) = find_by_id-Split c user_id u s.people m.people found in
            let made =
              in_cache (generate_tokens redis jwt texts lifetimes draw user_id u.email u.roles)
                tokens m t (rw active at h) in
            let issued =
              generate_tokens-IsIssued redis jwt texts lifetimes draw user_id u.email u.roles tokens
                m.cache t.cache made in
            record {
              valid = valid;
              owner = owner;
              active = ap (λ (v : User). v.is_active) same ∙ active;
              issued = rw (same, k) issued;
            }
      ]

  refresh_if-IsRenewed :
      (draw : Draw) (user_id token : String) (tokens : Tokens) (s t : Store K) (b : Bool)
      → validate_refresh_token redis jwt texts draw.now user_id token s.cache ≡ b
      → refresh_if redis jwt texts lifetimes c b draw user_id s ≡ (ok tokens, t)
      → IsRenewed draw user_id token tokens s t
  refresh_if-IsRenewed draw user_id token tokens s t false valid h = absurd (cc h)
  refresh_if-IsRenewed draw user_id token tokens s t true valid h =
      let find = find_by_id c user_id in
      let passed =
        continue-Passed (on_people find s) (renew redis jwt texts lifetimes c draw user_id) tokens t
          h in
      renew-IsRenewed draw user_id token tokens passed.value s passed.between t valid
        (in_people find passed.value s passed.between passed.first)
        (same_cache find passed.value s passed.between passed.first) passed.second

  -- A refresh that returns tokens was given the refresh token that `validateRefreshToken` accepts for
  -- the user, whose document is there and active; the new tokens are signed for its email and roles as
  -- they are now, and the new refresh token was saved in the cache.
  pub refresh_token-IsRenewed :
      (draw : Draw) (user_id token : String) (tokens : Tokens) (s t : Store K)
      → refresh_token redis jwt texts lifetimes c draw user_id token s ≡ (ok tokens, t)
      → IsRenewed draw user_id token tokens s t
  unfolding refresh_token
  refresh_token-IsRenewed draw user_id token tokens s t h =
      refresh_if-IsRenewed draw user_id token tokens s t _ refl
        (rethrow-ok (keep_unauthorized "토큰 갱신 중 오류가 발생했습니다") _ tokens t h)
