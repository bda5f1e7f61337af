-- ===== src/Auth/ServerExamples.antt =====
-- The auth server at work: tests, and the theorems at concrete inputs.
use msa_tuto_server.Base.{
  ℕ, String, ◌≡◌, ◌≢◌, refl, ◌∙◌, ap, true, false, none, some, List, [], ◌∷◌, ◌==◌, eq_refl,
  Bool-cases,
}
use msa_tuto_server.Http.{Result, ok, err, unauthorized, forbidden}
use msa_tuto_server.Mongo.{Collection}
use msa_tuto_server.Mongo.Memory.{memory}
use msa_tuto_server.Auth.Users.{user, admin, User, Bcrypt, same_email, validate_user, find_by_id}
use msa_tuto_server.Auth.SameRoles.{role_lists}
use msa_tuto_server.Auth.Tokens.{
  Payload, save_refresh_token, validate_refresh_token, validate_jwt_token, logout,
}
use msa_tuto_server.Auth.Memory.{Keys, keys, empty}
use msa_tuto_server.Auth.TokenExamples.{payload, verify-IsUnexpired, jwt, plain_texts}
use msa_tuto_server.Auth.Session.{
  Store, Tokens, Session, Draw, generate_tokens, login, refresh_token,
}
use msa_tuto_server.Auth.Guards.{
  jwt_guard, roles_guard, handle_answer, strategy_validate, auth_token,
}
use msa_tuto_server.Auth.PassportMemory.{bearer_passport}
use msa_tuto_server.Auth.Server.{
  Platform, post_register, post_logout, post_role, Call, authenticated, handle, serve,
}
use msa_tuto_server.Auth.AdminGuard.{HasAdmin}
use msa_tuto_server.Auth.Escalation.{copies, serve-role_lists}
use msa_tuto_server.Auth.Login.{IsAuthentic, login-IsAuthentic, IsRenewed, refresh_token-IsRenewed}
use msa_tuto_server.Auth.Rotation.{IsAccepted, validate_refresh_token-save_refresh_token}
use msa_tuto_server.Auth.Renewal.{refresh_token-IsAccepted}

abbrev pub users_store : Collection User same_email
users_store = memory same_email

abbrev pub plain_hash : Bcrypt
plain_hash = record { hash = λ p. p; compare = λ p h. p == h; compare-hash = λ p. eq_refl p }

abbrev pub platform : Platform Keys
platform = record {
  redis = keys;
  jwt = jwt;
  texts = plain_texts;
  lifetimes = record { access = 900; refresh = 86400 };
  users = users_store;
  find_users = λ us. ok us;
  delete_key = λ key. ok tt;
  bcrypt = plain_hash;
  passport = bearer_passport jwt;
}

abbrev pub ann : User
ann = record {
  id = "u1";
  name = "ann";
  email = "ann@example.com";
  password = "secret";
  roles = user ∷ [];
  is_active = true;
  last_login = none;
}

abbrev pub start : Store Keys
start = record { people = record { users = ann ∷ []; dropped_keys = [] }; cache = empty }

abbrev pub draw : Draw
draw = record { now = 20000; token_id = "a1"; refresh_id = "r1" }

abbrev pub next_draw : Draw
next_draw = record { now = 30000; token_id = "a2"; refresh_id = "r2" }

-- The outcome of the login, of the refresh with its token, and of a logout after that.
abbrev logged_in : Result Session × Store Keys
logged_in =
    login keys jwt plain_texts platform.lifetimes users_store plain_hash draw "ann@example.com"
      "secret" start

abbrev session : Session
session = record {
  tokens = record { access_token = "a1"; refresh_token = "r1" };
  id = "u1";
  email = "ann@example.com";
  name = "ann";
  roles = user ∷ [];
}

logged_in-session : logged_in ≡ (ok session, logged_in.1)
unfolding login validate_user generate_tokens save_refresh_token memory Bool-cases
logged_in-session = refl

wrong_password :
    (login keys jwt plain_texts platform.lifetimes users_store plain_hash draw "ann@example.com"
      "guess" start).0
    ≡ err (unauthorized "이메일 또는 비밀번호가 잘못되었습니다")
unfolding login validate_user memory Bool-cases
wrong_password = refl

login-IsAuthentic_example :
    IsAuthentic keys jwt plain_texts platform.lifetimes users_store plain_hash draw
      "ann@example.com" "secret" session start logged_in.1
login-IsAuthentic_example =
    login-IsAuthentic keys jwt plain_texts platform.lifetimes users_store plain_hash draw
      "ann@example.com" "secret" session start logged_in.1 logged_in-session

abbrev refreshed_with : Result Tokens × Store Keys
refreshed_with =
    refresh_token keys jwt plain_texts platform.lifetimes users_store next_draw "u1" "r1"
      logged_in.1

abbrev new_tokens : Tokens
new_tokens = record { access_token = "a2"; refresh_token = "r2" }

refreshed_tokens : refreshed_with ≡ (ok new_tokens, refreshed_with.1)
unfolding refresh_token find_by_id validate_refresh_token login validate_user generate_tokens
    save_refresh_token memory Bool-cases
refreshed_tokens = refl

refresh_token-IsRenewed_example :
    IsRenewed keys jwt plain_texts platform.lifetimes users_store next_draw "u1" "r1" new_tokens
      logged_in.1 refreshed_with.1
refresh_token-IsRenewed_example =
    refresh_token-IsRenewed keys jwt plain_texts platform.lifetimes users_store next_draw "u1" "r1"
      new_tokens logged_in.1 refreshed_with.1 refreshed_tokens

refreshed_accepted :
    validate_refresh_token keys jwt plain_texts 40000 "u1" "r2" refreshed_with.1.cache ≡ true
unfolding refresh_token find_by_id validate_refresh_token login validate_user generate_tokens
    save_refresh_token memory Bool-cases
refreshed_accepted = refl

used_up : validate_refresh_token keys jwt plain_texts 40000 "u1" "r1" refreshed_with.1.cache ≡ false
unfolding refresh_token find_by_id validate_refresh_token login validate_user generate_tokens
    save_refresh_token memory Bool-cases
used_up = refl

refresh_token-IsAccepted_example :
    IsAccepted keys jwt plain_texts 30000 40000 "u1" "r2" logged_in.1.cache refreshed_with.1.cache
      "r2"
refresh_token-IsAccepted_example =
    refresh_token-IsAccepted keys jwt plain_texts platform.lifetimes users_store next_draw "u1" "r1"
      "r2" 40000 new_tokens logged_in.1 refreshed_with.1 refreshed_tokens refreshed_accepted

abbrev saved : Keys
saved = (save_refresh_token keys jwt plain_texts 1000 "u1" "r1" empty).1

saved_done : save_refresh_token keys jwt plain_texts 1000 "u1" "r1" empty ≡ (ok tt, saved)
unfolding save_refresh_token
saved_done = refl

saved_read : keys.get 2000 "refresh_token:u1" saved ≡ ok (some "r1")
unfolding save_refresh_token
saved_read = refl

r1_nonempty : ◌≢◌ {A = String} "r1" ""
r1_nonempty = λ h. cc h

validate_refresh_token-save_refresh_token_example :
    validate_refresh_token keys jwt plain_texts 2000 "u1" "r1" saved ≡ true
validate_refresh_token-save_refresh_token_example =
    validate_refresh_token-save_refresh_token keys jwt plain_texts 1000 2000 "u1" "r1" empty saved
      "r1" payload saved_done saved_read r1_nonempty refl refl

abbrev closed : Keys
closed = (logout keys jwt 5000 "u1" "a1" saved).1

closed_done : logout keys jwt 5000 "u1" "a1" saved ≡ (ok tt, closed)
unfolding logout
closed_done = refl

-- No token of these tests has a role.
no_admin : (call : Call) → ¬ HasAdmin platform call
no_admin call h =
    let same : payload ≡ h.payload = cc (verify-IsUnexpired call.draw.now h.payload h.verified).0 in
    absurd (cc (ap (λ (p : Payload). p.roles) same ∙ h.roles))

abbrev calls : List Call
calls =
    record {
      draw = draw;
      header = none;
      request =
          post_register (record { name = "bob"; email = "bob@example.com"; password = "pw" }) "u2";
    }
    ∷ record { draw = next_draw; header = some "Bearer a1"; request = post_role "u1" admin }
    ∷ record { draw = next_draw; header = some "Bearer a1"; request = post_logout }
    ∷ []

refused_role :
    (handle platform
      (record { draw = next_draw; header = some "Bearer a1"; request = post_role "u1" admin })
      start).0
    ≡ err (forbidden "권한이 없습니다")
unfolding handle authenticated jwt_guard handle_answer strategy_validate roles_guard auth_token
    validate_jwt_token Bool-cases
refused_role = refl

serve-role_lists_example :
    (n : ℕ) × (role_lists (serve platform calls start).people.users
      ≡ (user ∷ []) ∷ copies n (user ∷ []))
serve-role_lists_example =
    serve-role_lists platform calls start (no_admin _, (no_admin _, (no_admin _, tt)))
