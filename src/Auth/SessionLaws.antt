-- ===== src/Auth/SessionLaws.antt =====
-- What stands behind the tokens that the authentication service hands out.
use msa_tuto_server.Base.{
  ℕ, String, ◌≡◌, sym, ◌∙◌, ap, subst, true, some, List, ◌==◌, Bool-cases, inl, inr,
}
use msa_tuto_server.Http.{Result, ok, M, pure}
use msa_tuto_server.Http.Success.{rethrow-ok, continue-Passed}
use msa_tuto_server.Mongo.{Collection, Split, FoundOne, Updated}
use msa_tuto_server.Auth.Users.{
  Role, User, Users, Bcrypt, same_email, keep_none, find_by_id, validate_user, check_password,
  save_user, login_update,
}
use msa_tuto_server.Auth.Tokens.{Jwt, Texts, Redis, save_refresh_token}
use msa_tuto_server.Auth.Session.{
  Store, on_people, on_cache, Tokens, Lifetimes, Draw, signed, generate_tokens, token_failure,
}

module _ {K : Type 0} (redis : Redis K) (jwt : Jwt) (texts : Texts) (lifetimes : Lifetimes) where
  -- The tokens are signed for the user, and the second one was saved.
  pub record IsIssued (draw : Draw) (user_id email : String) (roles : List Role) (tokens : Tokens)
      (s t : K) : Type 0 where
    pub tokens_signed : tokens ≡ signed jwt lifetimes draw user_id email roles
    pub saved :
        save_refresh_token redis jwt texts draw.now user_id tokens.refresh_token s ≡ (ok tt, t)

  pub generate_tokens-IsIssued :
      (draw : Draw) (user_id email : String) (roles : List Role) (tokens : Tokens) (s t : K)
      → generate_tokens redis jwt texts lifetimes draw user_id email roles s ≡ (ok tokens, t)
      → IsIssued draw user_id email roles tokens s t
  unfolding generate_tokens
  generate_tokens-IsIssued draw user_id email roles tokens s t h =
      let made = signed jwt lifetimes draw user_id email roles in
      let passed =
        continue-Passed (save_refresh_token redis jwt texts draw.now user_id made.refresh_token s)
          (λ u. pure made) tokens t (rethrow-ok token_failure _ tokens t h) in
      let same : made ≡ tokens = cc passed.second in
      record {
        tokens_signed = sym same;
        saved =
            subst
              (λ (z : Tokens).
                save_refresh_token redis jwt texts draw.now user_id z.refresh_token s ≡ (ok tt, t))
              same
              (passed.first
                ∙ ap (λ k. (ok tt, k)) (ap (λ (r : Result Tokens × K). r.1) passed.second));
      }

module _ {K A : Type 0} where
  pub in_cache :
      (m : M K A) (a : A) (s t : Store K) → on_cache m s ≡ (ok a, t) → m s.cache ≡ (ok a, t.cache)
  in_cache m a s t h = ap (λ (r : Result A × Store K). (r.0, r.1.cache)) h

  pub in_people :
      (m : M Users A) (a : A) (s t : Store K)
      → on_people m s ≡ (ok a, t)
      → m s.people ≡ (ok a, t.people)
  in_people m a s t h = ap (λ (r : Result A × Store K). (r.0, r.1.people)) h

  pub same_cache :
      (m : M Users A) (a : A) (s t : Store K) → on_people m s ≡ (ok a, t) → s.cache ≡ t.cache
  same_cache m a s t h = ap (λ (r : Result A × Store K). r.1.cache) h

module _ (c : Collection User same_email) where
  -- The user that `findById` found.
  pub find_by_id-Split :
      (id : String) (u : User) (s t : Users)
      → find_by_id c id s ≡ (ok u, t)
      → (found : Split (λ v. v.id == id) s.users) × (found.doc ≡ u)
  unfolding find_by_id
  find_by_id-Split id u s t h = elim (c.find_one_law (λ v. v.id == id) s.users) [
    | FoundOne.failed m q ↦ absurd (cc (rw q at h))
    | FoundOne.missing n q ↦ absurd (cc (rw q at h))
    | FoundOne.found found q ↦ (found, cc (rw q at h))
  ]

  -- What a login needs: the account of the email, with the password, and its document as it was saved.
  pub record IsKnown (bcrypt : Bcrypt) (email password : String) (now : ℕ) (u : User) (s : Users)
      : Type 0 where
    pub account : Split (λ v. v.email == email) s.users
    pub password_matches : bcrypt.compare password account.doc.password ≡ true
    pub stored : Split (λ v. v.id == account.doc.id) s.users
    pub updated : u ≡ record stored.doc { last_login = some now }

  save_user-Split :
      (id : String) (now : ℕ) (u : User) (s t : Users)
      → save_user c id (login_update now) s ≡ (ok u, t)
      → (stored : Split (λ v. v.id == id) s.users) × (u
          ≡ record stored.doc { last_login = some now })
  save_user-Split id now u s t h =
      elim (c.update_law (λ v. v.id == id) (login_update now) s.users) [
        | Updated.failed m q ↦ absurd (cc (rw q at h))
        | Updated.missing n q ↦ absurd (cc (rw q at h))
        | Updated.changed stored g q ↦ (stored, cc (rw q at h))
      ]

  check_password-IsKnown :
      (bcrypt : Bcrypt) (email password : String) (now : ℕ) (u : User) (s t : Users)
      (account : Split (λ v. v.email == email) s.users)
      → check_password c bcrypt password now (some account.doc) s ≡ (ok (some u), t)
      → IsKnown bcrypt email password now u s
  check_password-IsKnown bcrypt email password now u s t account h =
      elim (Bool-cases (bcrypt.compare password account.doc.password)) [
        | inr f ↦ absurd (cc (rw f at h))
        | inl m ↦
            let passed =
              continue-Passed (save_user c account.doc.id (login_update now) s) (λ v. pure (some v))
                (some u) t (rw m at h) in
            let (stored, updated) =
              save_user-Split account.doc.id now passed.value s passed.between passed.first in
            let same : passed.value ≡ u = cc passed.second in
            record {
              account = account;
              password_matches = m;
              stored = stored;
              updated = sym same ∙ updated;
            }
      ]

  pub validate_user-IsKnown :
      (bcrypt : Bcrypt) (email password : String) (now : ℕ) (u : User) (s t : Users)
      → validate_user c bcrypt email password now s ≡ (ok (some u), t)
      → IsKnown bcrypt email password now u s
  unfolding validate_user
  validate_user-IsKnown bcrypt email password now u s t h =
      elim (c.find_one_law (λ v. v.email == email) s.users) [
        | FoundOne.failed m q ↦ absurd (cc (rw q at h))
        | FoundOne.missing n q ↦ absurd (cc (rw q at h))
        | FoundOne.found account q ↦
            check_password-IsKnown bcrypt email password now u s t account (
              rethrow-ok (keep_none "사용자 검증 중 오류가 발생했습니다")
                (check_password c bcrypt password now (some account.doc) s) (some u) t (rw q at h))
      ]
